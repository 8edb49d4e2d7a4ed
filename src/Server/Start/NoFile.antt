-- ===== src/Server/Start/NoFile.antt =====
-- `main` where there is no configuration file.
use nvhttpd.Base.{ℕ, Bool, false, List, [], ◌≡◌, refl}
use nvhttpd.Config.State.{next_allocation}
use nvhttpd.Options.{option_parse_args}
use nvhttpd.Server.Settings.{initial}
use nvhttpd.Server.Configure.{cfg_filename_primary, run_path}
use nvhttpd.Server.Configure.Complete.{configure_no_file}
use nvhttpd.Server.Start.{read_options, run_configure, write_pid_file, start, release, exits, main}
use nvhttpd.Server.Process.{Machine, before, at_first}

-- Called without arguments and without a configuration file in either place, where malloc does not
-- fail, the program does not go on with the defaults that it announces: it ends with code 1, and nothing
-- was set or opened.
pub main_no_file :
    (fuel : ℕ) (m : Machine) (fopens : List Bool)
    → m.arguments ≡ []
    → m.system.stat cfg_filename_primary ≡ false
    → m.system.stat (run_path m.system.program_path) ≡ false
    → main fuel m (at_first [] fopens) ≡ exits 1 (release (at_first [] fopens))
unfolding main start before read_options run_configure write_pid_file next_allocation
    option_parse_args
main_no_file fuel m fopens no_arguments no_primary no_local =
    let settled =
      configure_no_file fuel m.system (initial [] fopens) refl no_primary no_local refl in
    rw (no_arguments, settled) refl
