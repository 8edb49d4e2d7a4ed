-- ===== src/Request/Field.antt =====
-- `parse_var` and `parse_val`, and the loops that use them: `get_query` and `get_headers`.
use nvhttpd.Base.{ℕ, zero, suc, ◌&&◌, ◌||◌, ◌∷◌, ◌==◌, if◌then◌else◌}
use nvhttpd.Base.Chars.{Bytes, ℤ, pos, negsuc, is_space}
use nvhttpd.Request.State.{
  fail, out_of_fuel, io_error, error, bad, other, M, return, stop, ◌>>=◌, ◌>>◌, modify, allocate,
}
use nvhttpd.Request.Io.{io_next, io_error_code, next_char, peek_char, expect}
use nvhttpd.Request.Text.{Text, new_text, reserve, put_char, terminate, duplicate, text_rounds}

abbrev pub url_var_name_max : ℕ
url_var_name_max = 128

abbrev pub url_var_value_max : ℕ
url_var_value_max = 1024

-- The loop of `parse_var`.
unfoldable pub var_loop : ℕ → ℕ → Text → M Text
var_loop zero separator t = stop out_of_fuel
var_loop (suc fuel) separator t = do
  ch ← peek_char
  if is_space ch && separator == b'=' then stop (fail bad) else do
    t' ← reserve url_var_name_max t
    if ch == separator
        then return t'
        else do c ← next_char; u ← put_char c t'; var_loop fuel separator u

unfoldable pub parse_var : ℕ → M Bytes
unfolding var_loop
parse_var separator = do
  res ← new_text
  t ← var_loop text_rounds separator res
  terminate t
  duplicate t.text

-- The loop of `parse_val`.
unfoldable pub val_loop : ℕ → Text → M Text
val_loop zero t = stop out_of_fuel
val_loop (suc fuel) t = do
  ch ← peek_char
  t' ← reserve url_var_value_max t
  if ch == b'&' || ch == b'\r'
      then return t'
      else do c ← next_char; u ← put_char c t'; val_loop fuel u

unfoldable pub parse_val : M Bytes
unfolding val_loop
parse_val = do res ← new_text; t ← val_loop text_rounds res; terminate t; duplicate t.text

unfoldable pub add_variable : Bytes → Bytes → M (Unit {0})
add_variable var val = do
  got ← allocate
  if got
      then modify
          (λ r. record r { url_variables = record { var = var; val = val } ∷ r.url_variables })
      else stop (fail io_error)

-- The caller of `add_header` turns its error into REQUEST_PARSE_ERROR.
unfoldable pub add_header : Bytes → Bytes → M (Unit {0})
add_header var val = do
  got ← allocate
  if got
      then modify (λ r. record r { headers = record { var = var; val = val } ∷ r.headers })
      else stop (fail error)

-- The loop of `get_query`; each round reads at least the separator.
unfoldable pub query_loop : ℕ → M (Unit {0})
query_loop zero = stop out_of_fuel
query_loop (suc fuel) = do
  ch ← peek_char
  if is_space ch || ch == b'#' then return tt else do
    var ← parse_var b'='
    expect b'=' (fail bad)
    val ← parse_val
    add_variable var val
    next ← peek_char
    (if next == b'&' then next_char >>= (λ _. return tt) else return tt)
    query_loop fuel

-- The test on the first char: REQUEST_PARSE_OK at once if it is not a question mark.
unfoldable pub query_from : ℕ → ℤ → M (Unit {0})
query_from fuel (pos c) = if c == b'?' then query_loop fuel else return tt
query_from fuel (negsuc zero) = return tt
query_from fuel (negsuc (suc zero)) = stop (fail (other io_error_code))
query_from fuel (negsuc (suc (suc n))) = return tt

unfoldable pub get_query : ℕ → M (Unit {0})
unfolding query_from query_loop
get_query fuel = io_next >>= query_from fuel

-- The loop of `get_headers`.
unfoldable pub get_headers : ℕ → M (Unit {0})
get_headers zero = stop out_of_fuel
get_headers (suc fuel) = do
  ch ← peek_char
  if ch == b'\r' then return tt else do
    var ← parse_var b':'
    expect b':' (fail bad)
    expect b' ' (fail bad)
    val ← parse_val
    add_header var val
    expect b'\r' (fail bad)
    expect b'\n' (fail bad)
    get_headers fuel
