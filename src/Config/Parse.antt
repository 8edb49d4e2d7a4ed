-- ===== src/Config/Parse.antt =====
-- `parse_assignment`, `read_file` and `config_parse` of config.c.
use nvhttpd.Base.{ℕ, zero, suc, Bool, true, List, [], ◌∷◌, Option, none, some, ◌==◌, if◌then◌else◌}
use nvhttpd.Base.Chars.{Bytes, codes, is_space, pos}
use nvhttpd.Http.{ReadResult}
use nvhttpd.Config.State.{
  ConfigError, no_filename, no_open, no_memory, unexpected_character, premature_eof, unexpected_eol,
  unrecognized_section, unexpected_value, Outcome, fail, out_of_fuel, Reader, Core, M, Handler,
  return, stop, ◌>>=◌, ◌>>◌, next_line, next_allocation, call_handler,
}
use nvhttpd.Config.Io.{io_eof, io_peek}
use nvhttpd.Config.Block.{is_key_character}
use nvhttpd.Config.Value.{skip, parse_key, parse_assignment_operator, parse_value}
use nvhttpd.Config.Section.{parse_section, parse_comment}

-- The reader that `config_parse` sets up, on a block of memory.
abbrev pub opened : List ReadResult → Bytes → Reader
opened file memory = record { file = file; is_open = true; buffer = memory; ptr = 0; len = pos 0 }

abbrev pub start_of : {U : Type 0} → U → List Bool → Core U
start_of user coming = record { section = none; line = 1; allocations = coming; user = user }

-- The error code, the line number and what the handler made.
abbrev pub outcome_of :
    {U : Type 0} → Outcome (Unit {0}) × Reader × Core U → Outcome (Unit {0}) × ℕ × U
outcome_of (out, reader, core) = (out, core.line, core.user)

module _ {U : Type 0} (handler : Handler U) where
  unfoldable pub parse_assignment : ℕ → M U (Unit {0})
  parse_assignment fuel = do
    key ← parse_key fuel
    parse_assignment_operator fuel
    value ← parse_value fuel
    call_handler handler key value

  unfoldable pub read_file : ℕ → M U (Unit {0})
  read_file zero = stop out_of_fuel
  read_file (suc fuel) = do
    ch ← io_peek
    if ch == io_eof
        then return tt
        else if ch == b'['
        then (do skip; parse_section fuel; read_file fuel)
        else if ch == b';'
        then (do skip; parse_comment fuel; read_file fuel)
        else if ch == b'\n'
        then (do next_line; skip; read_file fuel)
        else if is_key_character ch
        then (do parse_assignment fuel; read_file fuel)
        else if is_space ch
        then (do skip; read_file fuel)
        else stop (fail unexpected_character)

  -- `config_parse`: the file's name, what opening the file gives (the results of `read` to come),
  -- the block that malloc returns, the allocations to come. The cleanup is left out: what it resets
  -- is set again by the next call. Where no file is read, the line is that of a first call.
  unfoldable pub config_parse :
      ℕ
      → Option Bytes
      → Option (List ReadResult)
      → Bytes
      → List Bool
      → U
      → Outcome (Unit {0}) × ℕ × U
  unfolding next_allocation
  config_parse fuel none file memory coming user = (fail no_filename, 1, user)
  config_parse fuel (some []) file memory coming user = (fail no_filename, 1, user)
  config_parse fuel (some (n ∷ ns)) none memory coming user = (fail no_open, 1, user)
  config_parse fuel (some (n ∷ ns)) (some file) memory coming user =
      if (next_allocation coming).0
      then outcome_of
          (read_file fuel (opened file memory) (start_of user (next_allocation coming).1))
      else (fail no_memory, 1, user)

-- `config_get_error_string`, for the codes below CONFIG_ERROR_COUNT; `none` is an element of the
-- table that no initialiser names, NULL.
unfoldable pub error_string : ConfigError → Option Bytes
error_string no_filename = some (codes "Invalid filename")
error_string no_open = some (codes "Unable to open file")
error_string no_memory = some (codes "Unable to allocate memory")
error_string unexpected_character = some (codes "Unexpected character")
error_string premature_eof = some (codes "Unexpected end of file")
error_string unexpected_eol = some (codes "Unexpected end of line")
error_string unrecognized_section = none
error_string unexpected_value = none
