-- ===== src/Server/Configure/Tests.antt =====
-- `configure` with a file, and without one.
use nvhttpd.Base.{arith, true, false, [], ◌∷◌, none, some, ◌≡◌, refl, ◌⊎◌, replicate}
use nvhttpd.Base.Chars.{Bytes, codes, strtol_from, pos}
use nvhttpd.Http.{received, next_result}
use nvhttpd.Cache.{same_letters}
use nvhttpd.Config.State.{
  done, crash, return, stop, go_on, ◌>>=◌, next_line, set_section, next_allocation, allocate,
  call_handler,
}
use nvhttpd.Config.Io.{load, fill, peek_at, peek, io_peek, advance, io_next, buffer_size}
use nvhttpd.Config.Block.{new_block, make_room, write, close_block}
use nvhttpd.Config.Value.{
  escape_char, skip, append, key_loop, parse_key, parse_assignment_operator, delimited_loop,
  parse_delimited_value, raw_loop, parse_raw_value, skip_blanks, parse_value,
}
use nvhttpd.Config.Section.{section_loop, close_section, parse_section, parse_comment}
use nvhttpd.Config.Parse.{parse_assignment, read_file, config_parse}
use nvhttpd.Server.Settings.{
  config_file, server_ip, Settings, initial, and_then, store, store_untested, atoi, on_server,
  need_array, double_array, add_line, on_headers, open_log, on_logging, on_ssl, config_handler,
  lines_of,
}
use nvhttpd.Server.Configure.{
  System, last_slash, run_path, find_config_file, read_settings, set_defaults, default_log_file,
  default_port, memcpy, copy_lines, ended_text, joined_text, join_lines, join_headers, complete,
  use_config_file, configure,
}
use nvhttpd.Server.Configure.Joined.{concat}
use nvhttpd.Server.Settings.{is_next_given}
use nvhttpd.Server.Settings.Headers.{AreHeld}
use nvhttpd.Server.Configure.Fits.{join_headers_fits}
use nvhttpd.Server.Configure.Complete.{IsComplete, configure-IsComplete, complete-concat}

program : Unit {0}
unfolding next_result return stop go_on ◌>>=◌ next_line set_section next_allocation allocate
    call_handler load fill peek_at peek io_peek advance io_next new_block make_room write
    close_block escape_char skip append key_loop parse_key parse_assignment_operator delimited_loop
    parse_delimited_value raw_loop parse_raw_value skip_blanks parse_value section_loop
    close_section parse_section parse_comment parse_assignment read_file config_parse strtol_from
    same_letters and_then store store_untested atoi on_server need_array double_array add_line
    on_headers open_log on_logging on_ssl config_handler last_slash run_path find_config_file
    read_settings set_defaults default_log_file default_port memcpy copy_lines ended_text
    joined_text join_lines join_headers complete use_config_file configure
program = tt

abbrev file : Bytes
file = codes "[Server]\nport=8080\n[response-headers]\nA=\"1\"\nB=2\n[logging]\nlevel=warn\n"

abbrev with_file : System
with_file = record {
  program_path = codes "/usr/bin/nvhttpd";
  stat = λ name. true;
  open_file = λ name. some (received file ∷ []);
  memory = replicate buffer_size 0;
  parser_allocations = [];
}

abbrev without_file : System
without_file = record with_file { stat = λ name. false }

abbrev start : Settings
start = initial [] []

abbrev configured : Settings
configured = (configure 80 with_file start).1

configured-done : configure 80 with_file start ≡ (done tt, configured)
unfolding program
configured-done = refl

configured_port : configured.server_port ≡ pos 8080
unfolding program
configured_port = refl

configured_headers : configured.response_headers ≡ some (codes "A: 1\r\nB: 2\r\n")
unfolding program
configured_headers = refl

configured_ip : configured.texts server_ip ≡ some (codes "any")
unfolding program
configured_ip = refl

-- The file is looked for beside the directory of the program, not in it.
run_path_joins : run_path (codes "/usr/bin/nvhttpd") ≡ codes "/usr/binnvhttpd.conf"
unfolding program
run_path_joins = refl

key_without_section : (config_handler none (codes "port") (codes "80") start).0 ≡ crash
unfolding program
key_without_section = refl

configure-IsComplete_example : (configured.texts config_file ≡ none) ⊎ IsComplete configured
configure-IsComplete_example = configure-IsComplete 80 with_file start configured configured-done

abbrev filled : Settings
filled = record start {
  response_headers_array = some (codes "A: 1\r\n" ∷ codes "B: 2\r\n" ∷ []);
  response_headers_size = 10;
  response_headers_total = 12;
}

abbrev completed : Settings
completed = (complete filled).1

completed-done : complete filled ≡ (done tt, completed)
unfolding program
completed-done = refl

complete-concat_example :
    (lines_of filled ≡ []) ⊎ (completed.response_headers ≡ some (concat (lines_of filled)))
complete-concat_example = complete-concat filled completed completed-done

given-filled : is_next_given filled ≡ true
unfolding program
given-filled = refl

filled-AreHeld : AreHeld filled
filled-AreHeld = record {
  fit = λ lines h.
      let is : codes "A: 1\r\n" ∷ codes "B: 2\r\n" ∷ [] ≡ lines = cc in rw (← is) (omega arith);
  room = λ lines h. omega arith;
  total = refl;
}

join_headers_fits_example :
    (t : Settings) × (join_headers filled ≡ (done tt, t))
    × (t.response_headers ≡ some (concat (codes "A: 1\r\n" ∷ codes "B: 2\r\n" ∷ [])))
    × (t.response_headers_array ≡ none)
join_headers_fits_example =
    join_headers_fits filled (codes "A: 1\r\n") (codes "B: 2\r\n" ∷ []) filled-AreHeld refl
      (omega arith) given-filled
