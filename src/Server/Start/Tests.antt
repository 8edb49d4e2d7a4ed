-- ===== src/Server/Start/Tests.antt =====
-- `main` with a configuration file, and without one.
use nvhttpd.Base.{ℕ, true, false, [], ◌∷◌, Option, none, some, ◌≡◌, refl, replicate}
use nvhttpd.Base.Chars.{Bytes, codes, strtol_from}
use nvhttpd.Cache.{
  on_done, same_text, hash_step, hash_from, hash, extension, same_letters, mime_of, determine_mime,
  new_element, new_elements, smear, cache_mask, cache_capacity, next_index, set_slot, probe, fill,
  insert, insert_all, build,
}
use nvhttpd.Cache.Site.{
  Node, Directory, readable, end, entry, init_element, add_element, load_file, load_dir, fill_table,
  load_site, reload_cache,
}
use nvhttpd.Log.Logger.{log_init}
use nvhttpd.Options.{find_name, match_option, mark, option_parse_args}
use nvhttpd.Http.Listening.{no_address, port_bits, server_addr, http_init, http_close}
use nvhttpd.Server.Start.{
  take_config_file, read_options, run_configure, write_pid_file, start_log, fill_cache, start_ssl,
  init_signal_handlers, open_server, start, release, Ended, exits, crashed, unfinished, main,
}
use nvhttpd.Server.Process.{Machine, Process, goes_on, before, init_ssl, at_first}
use nvhttpd.Server.Start.Serving.{IsServing, main-IsServing}
use nvhttpd.Server.Start.Released.{IsReleased, main-IsReleased}
use nvhttpd.Server.Start.NoFile.{main_no_file}
use nvhttpd.Http.{received, next_result}
use nvhttpd.Config.State.{
  return, stop, go_on, ◌>>=◌, next_line, set_section, next_allocation, allocate, call_handler,
}
use nvhttpd.Config.Io
use nvhttpd.Config.Io.{load, peek_at, peek, io_peek, advance, io_next, buffer_size}
use nvhttpd.Config.Block.{new_block, make_room, write, close_block}
use nvhttpd.Config.Value.{
  escape_char, skip, append, key_loop, parse_key, parse_assignment_operator, delimited_loop,
  parse_delimited_value, raw_loop, parse_raw_value, skip_blanks, parse_value,
}
use nvhttpd.Config.Section.{section_loop, close_section, parse_section, parse_comment}
use nvhttpd.Config.Parse.{parse_assignment, read_file, config_parse}
use nvhttpd.Server.Settings.{
  and_then, store, store_untested, atoi, on_server, need_array, double_array, add_line, on_headers,
  open_log, on_logging, on_ssl, config_handler,
}
use nvhttpd.Server.Configure.{
  last_slash, run_path, find_config_file, read_settings, set_defaults, default_log_file,
  default_port, memcpy, copy_lines, ended_text, joined_text, join_lines, join_headers, complete,
  use_config_file, configure,
}

program : Unit {0}
unfolding next_result return stop go_on ◌>>=◌ next_line set_section next_allocation allocate
    call_handler load Io.fill peek_at peek io_peek advance io_next new_block make_room write
    close_block escape_char skip append key_loop parse_key parse_assignment_operator delimited_loop
    parse_delimited_value raw_loop parse_raw_value skip_blanks parse_value section_loop
    close_section parse_section parse_comment parse_assignment read_file config_parse strtol_from
    same_letters and_then store store_untested atoi on_server need_array double_array add_line
    on_headers open_log on_logging on_ssl config_handler last_slash run_path find_config_file
    read_settings set_defaults default_log_file default_port memcpy copy_lines ended_text
    joined_text join_lines join_headers complete use_config_file configure on_done same_text
    hash_step hash_from hash extension mime_of determine_mime new_element new_elements smear
    cache_mask cache_capacity next_index set_slot probe fill insert insert_all build init_element
    add_element load_file load_dir fill_table load_site reload_cache log_init find_name match_option
    mark option_parse_args port_bits server_addr http_init http_close before take_config_file
    read_options run_configure write_pid_file start_log fill_cache init_ssl start_ssl
    init_signal_handlers open_server start release main
program = tt

abbrev config_text : Bytes
config_text = codes "[Server]\nport=8080\n"

abbrev site : Directory
site = readable (
    entry (codes "a.css")
      (Node.file (record {
        fopen = true;
        seek_end = true;
        seek_set = true;
        fread = 4;
        content = codes "p {}";
      }))
      end)

abbrev machine : Machine
machine = record {
  arguments = codes "-c" ∷ codes "/etc/own.conf" ∷ [];
  system = record {
    program_path = codes "/usr/bin/nvhttpd";
    stat = λ name. false;
    open_file = λ name. some (received config_text ∷ []);
    memory = replicate buffer_size 0;
    parser_allocations = [];
  };
  opens_pid = λ name. true;
  has_log_memory = true;
  has_queue_memory = true;
  getpid = 12;
  disk = λ path. site;
  cache_allocations = [];
  ssl = record {
    new_context = true;
    set_cipher_list = true;
    use_certificate = λ name. true;
    use_private_key = λ name. true;
    check_private_key = true;
  };
  sigaction = λ signal. true;
  listening = record {
    has_memory = true;
    socket = true;
    inet_pton = λ text. no_address;
    bind = true;
    listen = true;
  };
}

-- Another program has the port.
abbrev busy : Machine
busy = record machine { listening = record machine.listening { bind = false } }

abbrev lone : Machine
lone = record machine { arguments = [] }

unfoldable process_or : Process → Ended → Process
process_or other (exits code p) = p
process_or other _ = other

unfoldable code_of : Ended → Option ℕ
code_of (exits code p) = some code
code_of _ = none

exits_of :
    (other : Process) (e : Ended) (code : ℕ)
    → code_of e ≡ some code
    → e ≡ exits code (process_or other e)
unfolding process_or code_of
exits_of other (exits n p) code h = cc
exits_of other crashed code h = cc
exits_of other unfinished code h = cc

abbrev served : Process
served = process_or (at_first [] []) (main 40 machine (at_first [] []))

abbrev refused : Process
refused = process_or (at_first [] []) (main 40 busy (at_first [] []))

served_code : code_of (main 40 machine (at_first [] [])) ≡ some 0
unfolding program code_of
served_code = refl

refused_code : code_of (main 40 busy (at_first [] [])) ≡ some 1
unfolding program code_of
refused_code = refl

main-served : main 40 machine (at_first [] []) ≡ exits 0 served
main-served = exits_of (at_first [] []) (main 40 machine (at_first [] [])) 0 served_code

main-refused : main 40 busy (at_first [] []) ≡ exits 1 refused
main-refused = exits_of (at_first [] []) (main 40 busy (at_first [] [])) 1 refused_code

main-IsServing_example :
    (p : Process) × (start 40 machine (at_first [] []) ≡ goes_on p)
    × IsServing 40 machine p
    × (served ≡ release p)
main-IsServing_example = main-IsServing 40 machine [] [] served main-served

main-IsReleased_example : IsReleased refused
main-IsReleased_example = main-IsReleased 40 busy [] [] 1 refused main-refused

main_no_file_example : main 40 lone (at_first [] []) ≡ exits 1 (release (at_first [] []))
main_no_file_example = main_no_file 40 lone [] refl refl refl
