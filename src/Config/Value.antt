-- ===== src/Config/Value.antt =====
-- `parse_key`, `parse_assignment_operator` and `parse_value` of config.c.
use nvhttpd.Base.{ℕ, zero, suc, Bool, true, false, ◌||◌, ◌==◌, if◌then◌else◌}
use nvhttpd.Base.Chars.{Bytes, is_space}
use nvhttpd.Config.State.{
  fail, out_of_fuel, unexpected_character, premature_eof, unexpected_eol, M, return, stop, ◌>>=◌,
  ◌>>◌, next_line,
}
use nvhttpd.Config.Io.{io_eof, io_peek, io_next}
use nvhttpd.Config.Block.{Block, is_key_character, new_block, make_room, write, close_block}

-- The char that an escaped char stands for.
unfoldable pub escape_char : ℕ → ℕ
escape_char ch =
    if ch == b'a' || ch == b'A'
    then 7
    else if ch == b'b' || ch == b'B'
    then 8
    else if ch == b'f' || ch == b'F'
    then 12
    else if ch == b'n' || ch == b'N'
    then 10
    else if ch == b'r' || ch == b'R'
    then 13
    else if ch == b't' || ch == b'T'
    then 9
    else if ch == b'v' || ch == b'V'
    then 11
    else ch

module _ {U : Type 0} where
  -- `io_next()`, its result dropped.
  unfoldable pub skip : M U (Unit {0})
  skip = io_next >>= λ _. return tt

  unfoldable pub append : ℕ → Block → M U Block
  append ch b = make_room b >>= write ch

  unfoldable pub key_loop : ℕ → Block → M U Block
  key_loop zero b = stop out_of_fuel
  key_loop (suc fuel) b = do
    ch ← io_peek
    if ch == io_eof
        then stop (fail premature_eof)
        else if ch == b'='
        then return b
        else if ch == b';'
        then stop (fail unexpected_character)
        else if ch == b'\n'
        then (do next_line; skip; return b)
        else if is_space ch
        then (do skip; return b)
        else if is_key_character ch
        then (do skip; b' ← append ch b; key_loop fuel b')
        else stop (fail unexpected_character)

  unfoldable pub parse_key : ℕ → M U Bytes
  parse_key fuel = do b ← new_block; b' ← key_loop fuel b; close_block b'

  unfoldable pub parse_assignment_operator : ℕ → M U (Unit {0})
  parse_assignment_operator zero = stop out_of_fuel
  parse_assignment_operator (suc fuel) = do
    ch ← io_peek
    if ch == io_eof
        then stop (fail premature_eof)
        else if ch == b'='
        then skip
        else if ch == b'\n'
        then (do next_line; skip; parse_assignment_operator fuel)
        else if is_space ch
        then (do skip; parse_assignment_operator fuel)
        else stop (fail unexpected_character)

  -- The loop of `parse_delimited_value`; the Boolean is `escape_flag`.
  unfoldable pub delimited_loop : ℕ → Bool → Block → M U Block
  delimited_loop zero flag b = stop out_of_fuel
  delimited_loop (suc fuel) flag b = do
    ch ← io_peek
    if ch == io_eof
        then stop (fail premature_eof)
        else if ch == b'\n'
        then stop (fail unexpected_eol)
        else (do
          skip
          b' ← make_room b
          if flag
              then (do b'' ← write (escape_char ch) b'; delimited_loop fuel false b'')
              else if ch == b'\\'
              then delimited_loop fuel true b'
              else if ch == b'"'
              then return b'
              else (do b'' ← write ch b'; delimited_loop fuel false b''))

  unfoldable pub parse_delimited_value : ℕ → M U Bytes
  parse_delimited_value fuel = do
    skip
    b ← new_block
    b' ← delimited_loop fuel false b
    close_block b'

  unfoldable pub raw_loop : ℕ → Block → M U Block
  raw_loop zero b = stop out_of_fuel
  raw_loop (suc fuel) b = do
    ch ← io_peek
    if ch == io_eof
        then return b
        else if ch == b'\n'
        then return b
        else if is_space ch
        then return b
        else if ch == b';'
        then return b
        else (do skip; b' ← append ch b; raw_loop fuel b')

  unfoldable pub parse_raw_value : ℕ → M U Bytes
  parse_raw_value fuel = do b ← new_block; b' ← raw_loop fuel b; close_block b'

  -- The loop of `parse_value` over the leading blanks; its result is the char behind them.
  unfoldable pub skip_blanks : ℕ → M U ℕ
  skip_blanks zero = stop out_of_fuel
  skip_blanks (suc fuel) = do
    ch ← io_peek
    if ch == io_eof
        then stop (fail premature_eof)
        else if ch == b';'
        then stop (fail unexpected_character)
        else if ch == b'\n'
        then (do next_line; skip; skip_blanks fuel)
        else if is_space ch
        then (do skip; skip_blanks fuel)
        else return ch

  unfoldable pub parse_value : ℕ → M U Bytes
  parse_value fuel = do
    ch ← skip_blanks fuel
    if ch == b'"' then parse_delimited_value fuel else parse_raw_value fuel
