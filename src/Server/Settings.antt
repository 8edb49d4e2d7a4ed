-- ===== src/Server/Settings.antt =====
-- The static variables of main.c that hold its settings, and `config_handler`.
pub mod Headers
mod Tests
use nvhttpd.Base.{
  ℕ, ◌+◌, ◌*◌, ◌-◌, ◌%◌, ◌^◌, Bool, true, false, ◌||◌, List, [], ◌∷◌, Option, none, some, ◌++◌, ltb,
  ◌==◌, if◌then◌else◌, length,
}
use nvhttpd.Base.Chars.{Bytes, codes, ℤ, pos, negsuc, is_space, is_digit, strtol_from}
use nvhttpd.Cache.{same_letters}
use nvhttpd.Log.Level.{LogLevel, log_error, log_warn, log_info, log_debug, log_trace}
use nvhttpd.Config.State.{
  ConfigError, no_memory, unrecognized_section, unexpected_value, Outcome, done, fail, crash,
  out_of_fuel, next_allocation,
}

-- The static variables of type `char *` that are set from the command line and from the settings.
pub data TextField : Type 0 where
  config_file response_400_path response_404_path response_500_path response_501_path : TextField
  html_path server_ip pid_filename server_string ssl_cert_filename ssl_key_filename : TextField

abbrev pub field_number : TextField → ℕ
field_number config_file = 0
field_number response_400_path = 1
field_number response_404_path = 2
field_number response_500_path = 3
field_number response_501_path = 4
field_number html_path = 5
field_number server_ip = 6
field_number pid_filename = 7
field_number server_string = 8
field_number ssl_cert_filename = 9
field_number ssl_key_filename = 10

pub data LogFile : Type 0 where
  stdout stderr : LogFile
  appended : Bytes → LogFile

-- `response_headers_array` is the list of its first `response_headers_count` elements, NULL is
-- `none`. `allocations` are the results of malloc, realloc and strdup to come, `fopens` those of
-- fopen.
pub record Settings : Type 0 where
  pub texts : TextField → Option Bytes
  pub log_level : LogLevel
  pub server_port : ℤ
  pub response_headers : Option Bytes
  pub response_headers_array : Option (List Bytes)
  pub response_headers_size : ℕ
  pub response_headers_total : ℕ
  pub log_file : Option LogFile
  pub ssl_ctx : Bool
  pub ssl_enabled : Bool
  pub allocations : List Bool
  pub fopens : List Bool

abbrev pub Result : Type 0
Result = Outcome (Unit {0}) × Settings

-- The values that main.c gives to its variables.
abbrev pub initial : List Bool → List Bool → Settings
initial allocations fopens = record {
  texts = λ f. none;
  log_level = log_debug;
  server_port = pos 0;
  response_headers = none;
  response_headers_array = none;
  response_headers_size = 0;
  response_headers_total = 0;
  log_file = none;
  ssl_ctx = false;
  ssl_enabled = false;
  allocations = allocations;
  fopens = fopens;
}

-- What follows a step that succeeds; after any other end the function is left.
unfoldable pub and_then : Result → (Settings → Result) → Result
and_then (done tt, s) f = f s
and_then (fail e, s) f = (fail e, s)
and_then (crash, s) f = (crash, s)
and_then (out_of_fuel, s) f = (out_of_fuel, s)

-- Whether the next call of malloc, realloc or strdup returns memory.
abbrev pub is_next_given : Settings → Bool
is_next_given s = (next_allocation s.allocations).0

abbrev pub allocated : Settings → Settings
allocated s = record s { allocations = (next_allocation s.allocations).1 }

abbrev pub set_text : TextField → Option Bytes → Settings → Settings
set_text f v s = record s { texts = λ g. if field_number f == field_number g then v else s.texts g }

-- `field = strdup(value)`, and the return if it is NULL.
unfoldable pub store : TextField → Bytes → Settings → Result
unfolding next_allocation
store f value s =
    if is_next_given s
    then (done tt, set_text f (some value) (allocated s))
    else (fail no_memory, set_text f none (allocated s))

-- `field = strdup(value)`, not tested.
unfoldable pub store_untested : TextField → Bytes → Settings → Result
unfolding next_allocation
store_untested f value s =
    (done tt, set_text f (if is_next_given s then some value else none) (allocated s))

-- The number that atoi reads, which need not be an int.
unfoldable pub atoi : Bytes → ℤ
unfolding strtol_from
atoi [] = pos 0
atoi (c ∷ cs) =
    if is_space c
    then atoi cs
    else if c == b'-'
    then (let n = strtol_from 0 cs in if n == 0 then pos 0 else negsuc (n - 1))
    else if c == b'+'
    then pos (strtol_from 0 cs)
    else pos (strtol_from 0 (c ∷ cs))

abbrev pub is_int : ℤ → Bool
is_int (pos n) = ltb n (2 ^ 31)
is_int (negsuc n) = ltb n (2 ^ 31)

-- The behaviour of atoi is not defined on a number that is no int.
unfoldable pub on_server : Bytes → Bytes → Settings → Result
on_server key value s =
    if same_letters key (codes "port")
    then (if is_int (atoi value)
        then (done tt, record s { server_port = atoi value })
        else (crash, s))
    else if same_letters key (codes "ip")
    then (if same_letters value (codes "any")
        then store server_ip (codes "any") s
        else store server_ip value s)
    else if same_letters key (codes "html_path")
    then store html_path value s
    else if same_letters key (codes "400_status_path")
    then store response_400_path value s
    else if same_letters key (codes "404_status_path")
    then store response_404_path value s
    else if same_letters key (codes "500_status_path")
    then store response_500_path value s
    else if same_letters key (codes "501_status_path")
    then store response_501_path value s
    else if same_letters key (codes "name")
    then store server_string value s
    else (done tt, s)

-- The first header makes the array.
unfoldable pub need_array : Settings → Result
unfolding next_allocation
need_array s = elim s.response_headers_array [
  | some lines ↦ (done tt, s)
  | none ↦
      if is_next_given s
      then (
        done tt,
        record (allocated s) { response_headers_array = some []; response_headers_size = 10 },
      )
      else (fail no_memory, record (allocated s) { response_headers_size = 10 })
]

-- A full array is doubled.
unfoldable pub double_array : List Bytes → Settings → Result
unfolding next_allocation
double_array lines s =
    if length lines == s.response_headers_size
    then (
      if is_next_given s then done tt else fail no_memory,
      record (allocated s) { response_headers_size = s.response_headers_size * 2 % 2 ^ 64 },
    )
    else (done tt, s)

abbrev pub header_line : Bytes → Bytes → Bytes
header_line key value = key ++ codes ": " ++ value ++ codes "\r\n"

-- The line goes to the element at `response_headers_count`.
unfoldable pub add_line : List Bytes → Bytes → Settings → Result
unfolding next_allocation
add_line lines line s =
    if is_next_given s
    then (if ltb (length lines) s.response_headers_size
        then (
          done tt,
          record (allocated s) {
            response_headers_array = some (lines ++ line ∷ []);
            response_headers_total = (s.response_headers_total + length line) % 2 ^ 64;
          },
        )
        else (crash, allocated s))
    else (fail no_memory, allocated s)

abbrev pub lines_of : Settings → List Bytes
lines_of s = elim s.response_headers_array [ some lines ↦ lines | none ↦ [] ]

unfoldable pub on_headers : Bytes → Bytes → Settings → Result
unfolding and_then
on_headers key value s =
    and_then (and_then (need_array s) (λ t. double_array (lines_of t) t))
      (λ t. add_line (lines_of t) (header_line key value) t)

-- `log_file = fopen(value, "a")`
unfoldable pub open_log : Bytes → Settings → Result
unfolding next_allocation
open_log value s =
    let t = record s { fopens = (next_allocation s.fopens).1 } in
    if (next_allocation s.fopens).0
    then (done tt, record t { log_file = some (appended value) })
    else (fail unexpected_value, record t { log_file = none })

unfoldable pub on_logging : Bytes → Bytes → Settings → Result
on_logging key value s =
    if same_letters key (codes "level")
    then (if same_letters value (codes "error")
        then (done tt, record s { log_level = log_error })
        else if same_letters value (codes "warn")
        then (done tt, record s { log_level = log_warn })
        else if same_letters value (codes "info")
        then (done tt, record s { log_level = log_info })
        else if same_letters value (codes "debug")
        then (done tt, record s { log_level = log_debug })
        else if same_letters value (codes "trace")
        then (done tt, record s { log_level = log_trace })
        else if same_letters value (codes "all")
        then (done tt, record s { log_level = log_trace })
        else (fail unexpected_value, s))
    else if same_letters key (codes "file")
    then (if same_letters value (codes "stdout")
        then (done tt, record s { log_file = some stdout })
        else if same_letters value (codes "stderr")
        then (done tt, record s { log_file = some stderr })
        else open_log value s)
    else if same_letters key (codes "pid")
    then store pid_filename value s
    else (done tt, s)

unfoldable pub on_ssl : Bytes → Bytes → Settings → Result
on_ssl key value s =
    if same_letters key (codes "certificate")
    then store_untested ssl_cert_filename value s
    else if same_letters key (codes "key")
    then store_untested ssl_key_filename value s
    else if same_letters key (codes "enabled")
    then (if same_letters value (codes "true")
          || same_letters value (codes "1")
          || same_letters value (codes "yes")
        then (done tt, record s { ssl_enabled = true })
        else if same_letters value (codes "false")
            || same_letters value (codes "0")
            || same_letters value (codes "no")
        then (done tt, record s { ssl_enabled = false })
        else (fail unexpected_value, s))
    else (fail unrecognized_section, s)

-- `config_handler`; `strcasecmp` reads a section that is NULL.
unfoldable pub config_handler : Option Bytes → Bytes → Bytes → Settings → Result
config_handler none key value s = (crash, s)
config_handler (some section) key value s =
    if same_letters section (codes "server")
    then on_server key value s
    else if same_letters section (codes "response-headers")
    then on_headers key value s
    else if same_letters section (codes "logging")
    then on_logging key value s
    else if same_letters section (codes "ssl")
    then on_ssl key value s
    else (fail unrecognized_section, s)
