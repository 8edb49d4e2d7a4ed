-- ===== src/Server/Start.antt =====
-- `main` of main.c, with `init_ssl` and `init_signal_handlers`.
pub mod Steps
pub mod Outcomes
pub mod Serving
pub mod Ready
pub mod Released
pub mod NoFile
mod Tests
use nvhttpd.Base.{
  ℕ, zero, suc, ◌&&◌, Bool, true, false, List, [], ◌∷◌, Option, none, some, if◌then◌else◌,
  get_elem?,
}
use nvhttpd.Base.Chars.{Bytes, codes}
use nvhttpd.Config.State.{done, fail, crash, out_of_fuel}
use nvhttpd.Options.{option_arg_none, option_arg_required, OptionS, option_parse_args}
use nvhttpd.Cache.{Cache, Result, same_text}
use nvhttpd.Cache.Site.{Directory, reload_cache}
use nvhttpd.Log.Logger.{Logger, log_init}
use nvhttpd.Http.Listening.{ListenCalls, HttpServer, Servers, http_init, http_close}
use nvhttpd.Server.Settings
use nvhttpd.Server.Settings.{
  TextField, config_file, response_400_path, response_404_path, response_500_path,
  response_501_path, html_path, server_ip, pid_filename, server_string, ssl_cert_filename,
  ssl_key_filename, Settings, initial, set_text, store_untested,
}
use nvhttpd.Server.Configure.{System, configure}
use nvhttpd.Server.Process.{
  Flags, Machine, Process, Progress, Signal, SslCalls, at_first, before, crashes, goes_on, init_ssl,
  option_c, option_h, option_v, options, out_of_steps, shuts_down, sig_handler, sigint, sigpipe,
  sigusr1, ssl_with,
}

abbrev pub present_at : List OptionS → ℕ → Bool
present_at os k = elim (get_elem? os k) [ some o ↦ o.present | none ↦ false ]

abbrev pub value_at : List OptionS → ℕ → Option Bytes
value_at os k = elim (get_elem? os k) [ some o ↦ o.value | none ↦ none ]

-- `config_file = strdup(option_c.value)`, not tested.
unfoldable pub take_config_file : Option Bytes → Process → Progress
take_config_file none p = crashes
take_config_file (some name) p =
    goes_on (record p { settings = (store_untested config_file name p.settings).1 })

-- On `option_v.present`, what `option_parse_args` returned, `option_h.present`, `option_c.present` and
-- its value. An error in the arguments is as `-h`.
abbrev pub choose : Bool → Bool → Bool → Bool → Option Bytes → Process → Progress
choose v parsed h c value p =
    if v
    then shuts_down p
    else if parsed
    then (if h then shuts_down p else if c then take_config_file value p else goes_on p)
    else shuts_down p

-- The options, up to the call of `configure`.
unfoldable pub read_options : List Bytes → Process → Progress
unfolding option_parse_args take_config_file
read_options arguments p =
    let (parsed, os) = option_parse_args (λ o. true) options arguments in
    choose (present_at os 2) parsed (present_at os 1) (present_at os 0) (value_at os 0) p

-- Behind `configure`.
abbrev pub configured : Settings.Result → Process → Progress
configured (done ok, s) p = goes_on (record p { settings = s })
configured (fail e, s) p = shuts_down (record p { settings = s })
configured (crash, s) p = crashes
configured (out_of_fuel, s) p = out_of_steps

unfoldable pub run_configure : ℕ → System → Process → Progress
run_configure fuel system p = configured (configure fuel system p.settings) p

-- open does not open NULL.
abbrev pub pid_file_at : (Bytes → Bool) → Option Bytes → Process → Progress
pid_file_at opens none p = shuts_down p
pid_file_at opens (some name) p =
    if opens name then goes_on (record p { pid_file = some name }) else shuts_down p

-- The number is written and the file closed; a failure of that is only told.
unfoldable pub write_pid_file : (Bytes → Bool) → Process → Progress
write_pid_file opens p = pid_file_at opens (p.settings.texts pid_filename) p

abbrev pub logging : Option Logger → Process → Progress
logging none p = shuts_down p
logging (some log) p = goes_on (record p { log = some log })

unfoldable pub start_log : Machine → Process → Progress
start_log m p =
    logging
      (log_init m.has_log_memory m.has_queue_memory m.getpid p.settings.log_level
        (p.settings.texts server_string))
      p

abbrev pub directory_of : (Bytes → Directory) → Option Bytes → Directory
directory_of disk none = Directory.unreadable
directory_of disk (some path) = disk path

-- Behind `cache_load`.
abbrev pub cached : Result (ℕ × Option Cache) → Process → Progress
cached (Result.done (zero, c)) p = goes_on (record p { cache = c })
cached (Result.done (suc n, c)) p = shuts_down (record p { cache = c })
cached Result.error p = shuts_down p
cached Result.crash p = crashes
cached Result.out_of_fuel p = out_of_steps

unfoldable pub fill_cache : ℕ → Machine → Process → Progress
fill_cache fuel m p =
    let path = p.settings.texts html_path in
    cached (reload_cache fuel path (directory_of m.disk path) m.cache_allocations p.cache) p

abbrev pub secured : Bool × Settings → Process → Progress
secured (true, s) p = goes_on (record p { settings = s })
secured (false, s) p = shuts_down (record p { settings = s })

unfoldable pub start_ssl : SslCalls → Process → Progress
start_ssl calls p =
    if p.settings.ssl_enabled then secured (init_ssl calls p.settings) p else goes_on p

abbrev pub handle : (Signal → Bool) → Signal → Process → Progress
handle sigaction signal p =
    if sigaction signal then goes_on (record p { handlers = signal ∷ p.handlers }) else shuts_down p

unfoldable pub init_signal_handlers : (Signal → Bool) → Process → Progress
unfolding before
init_signal_handlers sigaction p =
    before (before (handle sigaction sigint p) (handle sigaction sigpipe))
      (handle sigaction sigusr1)

-- Behind `http_init`.
abbrev pub listening_on : Result (Option HttpServer × Servers) → Process → Progress
listening_on (Result.done (none, held)) p = shuts_down (record p { servers = held })
listening_on (Result.done (some server, held)) p =
    goes_on (record p { server = some server; servers = held })
listening_on Result.error p = shuts_down p
listening_on Result.crash p = crashes
listening_on Result.out_of_fuel p = out_of_steps

unfoldable pub open_server : ListenCalls → Process → Progress
open_server calls p =
    listening_on
      (http_init calls p.settings.ssl_ctx (p.settings.texts html_path) (p.settings.texts server_ip)
        p.settings.server_port p.servers)
      p

-- `main` up to the call of `handle_connections`. `cache_init` makes a lock and returns 0.
unfoldable pub start : ℕ → Machine → Process → Progress
unfolding before
start fuel m p = before (read_options m.arguments p) (λ p₁.
    before (run_configure fuel m.system p₁) (λ p₂. before (write_pid_file m.opens_pid p₂) (λ p₃.
      before (start_log m p₃) (λ p₄. before (fill_cache fuel m p₄) (λ p₅.
        before (start_ssl m.ssl p₅) (λ p₆.
          before (init_signal_handlers m.sigaction p₆) (λ p₇. open_server m.listening p₇)))))))

-- The texts that `main` frees.
abbrev pub freed_texts : List TextField
freed_texts =
    response_501_path ∷ response_500_path ∷ response_404_path ∷ response_400_path ∷ html_path
    ∷ server_ip ∷ config_file ∷ pid_filename ∷ []

abbrev pub free_texts : List TextField → Settings → Settings
free_texts [] s = s
free_texts (f ∷ fs) s = free_texts fs (set_text f none s)

-- `unlink(pid_filename)`, where it is not NULL.
abbrev pub unlinked : Option Bytes → Option Bytes → Option Bytes
unlinked none file = file
unlinked (some name) none = none
unlinked (some name) (some file) = if same_text name file then none else some file

-- What stands behind `shutdown:`. `log_cleanup` joins the writer and frees the log.
unfoldable pub release : Process → Process
unfolding http_close
release p = record p {
  settings =
      free_texts freed_texts
        (record p.settings { response_headers = none; response_headers_array = none });
  log = none;
  server = none;
  servers = http_close p.server p.servers;
  pid_file = unlinked (p.settings.texts pid_filename) p.pid_file;
}

-- How the program ends: with this result code.
pub data Ended : Type 0 where
  exits : ℕ → Process → Ended
  crashed : Ended
  unfinished : Ended

-- `handle_connections` returns 0, where it returns.
abbrev pub ended_by : Progress → Ended
ended_by (goes_on p) = exits 0 (release p)
ended_by (shuts_down p) = exits 1 (release p)
ended_by crashes = crashed
ended_by out_of_steps = unfinished

unfoldable pub main : ℕ → Machine → Process → Ended
main fuel m p = ended_by (start fuel m p)
