-- ===== src/Server/Configure.antt =====
-- `configure` of main.c.
pub mod Steps
pub mod Joined
pub mod Fits
pub mod Complete
mod Tests
use nvhttpd.Base.{
  ℕ, suc, ◌+◌, ◌%◌, ◌^◌, Bool, true, false, List, [], ◌∷◌, Option, none, some, ◌++◌, ltb, leb, ◌==◌,
  if◌then◌else◌, length, take, drop, replicate,
}
use nvhttpd.Base.Chars.{Bytes, codes, ℤ, pos, negsuc}
use nvhttpd.Http.{ReadResult}
use nvhttpd.Config.State.{no_memory, Outcome, done, fail, crash, out_of_fuel, next_allocation}
use nvhttpd.Config.Parse.{config_parse}
use nvhttpd.Server.Settings.{
  TextField, config_file, response_400_path, response_404_path, response_500_path,
  response_501_path, html_path, server_ip, pid_filename, server_string, stdout, Settings, Result,
  and_then, is_next_given, allocated, set_text, store, config_handler,
}

-- What `configure` asks of the system: `av[0]`, whether `stat` finds a file, what `open` and `read`
-- give, the block that config_parse reads into, and the results of its allocations.
pub record System : Type 0 where
  pub program_path : Bytes
  pub stat : Bytes → Bool
  pub open_file : Bytes → Option (List ReadResult)
  pub memory : Bytes
  pub parser_allocations : List Bool

abbrev pub cfg_filename : Bytes
cfg_filename = codes "nvhttpd.conf"

abbrev pub cfg_filename_primary : Bytes
cfg_filename_primary = codes "/etc/nvhttpd/nvhttpd.conf"

-- The text in front of the last slash, all of it where there is none.
unfoldable pub last_slash : Bytes → Option Bytes
last_slash [] = none
last_slash (c ∷ cs) = elim (last_slash cs) [
  | some front ↦ some (c ∷ front)
  | none ↦ if c == b'/' then some [] else none
]

-- `run_path`: the name of the file stands right behind the directory.
unfoldable pub run_path : Bytes → Bytes
unfolding last_slash
run_path program = elim (last_slash program) [ some front ↦ front | none ↦ program ] ++ cfg_filename

unfoldable pub find_config_file : System → Settings → Result
unfolding store next_allocation
find_config_file system s = elim (s.texts config_file) [
  | some name ↦ (done tt, s)
  | none ↦
      if system.stat cfg_filename_primary
      then store config_file cfg_filename_primary s
      else if is_next_given s
      then (if system.stat (run_path system.program_path)
          then store config_file (run_path system.program_path) (allocated s)
          else (done tt, allocated s))
      else (fail no_memory, allocated s)
]

-- `config_parse(config_file, config_handler)`
unfoldable pub read_settings : ℕ → System → Bytes → Settings → Result
read_settings fuel system name s =
    let (out, line, t) =
      config_parse config_handler fuel (some name) (system.open_file name) system.memory
        system.parser_allocations s in
    (out, t)

-- `if (field == NULL) field = strdup(text)`, for each field in turn.
unfoldable pub set_defaults : List (TextField × Bytes) → Settings → Result
unfolding and_then store
set_defaults [] s = (done tt, s)
set_defaults ((f, text) ∷ rest) s =
    and_then (elim (s.texts f) [ some v ↦ (done tt, s) | none ↦ store f text s ])
      (λ t. set_defaults rest t)

abbrev pub first_defaults : List (TextField × Bytes)
first_defaults =
    (response_501_path, codes "/error/501.html")
    ∷ (response_500_path, codes "/error/500.html")
    ∷ (response_404_path, codes "/error/404.html")
    ∷ (response_400_path, codes "/error/400.html")
    ∷ (server_string, codes "nvhttpd")
    ∷ []

abbrev pub later_defaults : List (TextField × Bytes)
later_defaults =
    (html_path, codes "html")
    ∷ (pid_filename, codes "/var/run/nvhttpd.pid")
    ∷ (server_ip, codes "any")
    ∷ []

unfoldable pub default_log_file : Settings → Result
default_log_file s = elim s.log_file [
  | some file ↦ (done tt, s)
  | none ↦ (done tt, record s { log_file = some stdout })
]

unfoldable pub default_port : Settings → Result
default_port s = elim s.server_port [
  | pos n ↦
      if n == 0
      then (done tt, record s { server_port = if s.ssl_ctx then pos 443 else pos 80 })
      else (done tt, s)
  | negsuc n ↦ (done tt, s)
]

-- `memcpy(block + offset, bytes, len)`; `none` is a write outside the block.
unfoldable pub memcpy : ℕ → Bytes → Bytes → Option Bytes
memcpy offset bytes block =
    if leb (offset + length bytes) (length block)
    then some (take offset block ++ (bytes ++ drop (offset + length bytes) block))
    else none

-- The loop over the lines: `offset` behind it, and the block. Where the writes are inside the block,
-- `offset` is at most its size, so that a size_t holds it.
unfoldable pub copy_lines : List Bytes → ℕ → Bytes → Option (ℕ × Bytes)
copy_lines [] offset block = some (offset, block)
copy_lines (line ∷ lines) offset block = elim (memcpy offset line block) [
  | none ↦ none
  | some written ↦ copy_lines lines (offset + length line) written
]

-- The NUL at `offset`: the text in front of it.
unfoldable pub ended_text : ℕ → Bytes → Option Bytes
unfolding memcpy
ended_text offset block = elim (memcpy offset (0 ∷ []) block) [
  | none ↦ none
  | some ended ↦ some (take offset ended)
]

unfoldable pub joined_text : List Bytes → Bytes → Option Bytes
unfolding copy_lines ended_text
joined_text lines block = elim (copy_lines lines 0 block) [
  | none ↦ none
  | some (offset, written) ↦ ended_text offset written
]

-- malloc gives a block of `response_headers_total + 1` bytes. What it holds is not specified; the
-- zeros are overwritten up to the end of the text.
unfoldable pub join_lines : List Bytes → Settings → Result
unfolding next_allocation joined_text
join_lines lines s =
    if is_next_given s
    then elim (joined_text lines (replicate ((s.response_headers_total + 1) % 2 ^ 64) 0)) [
      | none ↦ (crash, allocated s)
      | some text ↦ (
        done tt,
        record (allocated s) {
          response_headers = some text;
          response_headers_array = none;
          response_headers_size = 0;
        },
      )
    ]
    else (fail no_memory, record (allocated s) { response_headers = none })

unfoldable pub join_headers : Settings → Result
unfolding join_lines
join_headers s = elim s.response_headers_array [
  | none ↦ (done tt, s)
  | some [] ↦ (done tt, s)
  | some (line ∷ lines) ↦ join_lines (line ∷ lines) s
]

-- What stands behind the call of config_parse.
unfoldable pub complete : Settings → Result
unfolding and_then set_defaults default_log_file default_port join_headers
complete s = and_then (set_defaults first_defaults s) (λ s₁. and_then (default_log_file s₁) (λ s₂.
    and_then (set_defaults later_defaults s₂) (λ s₃. and_then (default_port s₃) join_headers)))

unfoldable pub use_config_file : ℕ → System → Settings → Result
unfolding and_then complete
use_config_file fuel system s = elim (s.texts config_file) [
  | none ↦ (done tt, s)
  | some name ↦ and_then (read_settings fuel system name s) complete
]

-- `configure`: `done tt` is the result 0, and `fail` the result 1, with its reason.
unfoldable pub configure : ℕ → System → Settings → Result
unfolding and_then
configure fuel system s = and_then (find_config_file system s) (use_config_file fuel system)
