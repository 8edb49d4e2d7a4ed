-- ===== src/Request/Uri.antt =====
-- `get_uri` and `get_uri_fragment`.
pub mod Escape
use nvhttpd.Base.{
  ℕ, zero, suc, ◌+◌, ◌*◌, Bool, true, ◌&&◌, ◌||◌, ◌++◌, Option, none, some, ltb, leb, ◌==◌,
  if◌then◌else◌, length, get_elem?,
}
use nvhttpd.Base.Chars.{Bytes, codes, c_string, is_space, is_xdigit}
use nvhttpd.Request.State.{
  fail, crash, out_of_fuel, error, bad, M, return, stop, ◌>>=◌, ◌>>◌, modify, allocate,
}
use nvhttpd.Request.Io.{next_char, peek_char}
use nvhttpd.Request.Text.{Text, new_text, reserve, put_char, terminate, duplicate, text_rounds}

abbrev pub uri_size_max : ℕ
uri_size_max = 1024

-- What an escape becomes: the codes of the two digits, not their values, are put together. The
-- second digit is not read yet.
unfoldable pub escaped_char : M ℕ
escaped_char = do
  percent ← next_char
  digit ← next_char
  if is_xdigit digit
      then (do ch ← peek_char; if is_xdigit ch then return (ch + digit * 16) else stop (fail bad))
      else stop (fail bad)

-- The char to store: `ch`, or what the escape that begins here becomes.
unfoldable pub stored_char : ℕ → M ℕ
unfolding escaped_char
stored_char ch = if ch == b'%' then escaped_char else return ch

-- The loop of `get_uri` (with the marks that end a URI) and of `get_uri_fragment` (with none).
unfoldable pub uri_loop : (ℕ → Bool) → ℕ → Text → M Text
uri_loop ends zero t = stop out_of_fuel
uri_loop ends (suc fuel) t = do
  ch ← peek_char
  t' ← reserve uri_size_max t
  if ends ch
      then return t'
      else do c ← stored_char ch; u ← put_char c t'; last ← next_char; uri_loop ends fuel u

abbrev pub ends_uri : ℕ → Bool
ends_uri c = is_space c || (c == b'?' || c == b'#')

abbrev pub ends_fragment : ℕ → Bool
ends_fragment c = is_space c

abbrev pub index_html : Bytes
index_html = codes "index.html"

-- `if (uri_len + sizeof(index_html_str) > uri_size) ...`
unfoldable pub make_room : Text → M Text
make_room t =
    if ltb t.size (length t.text + 11)
    then (do
      got ← allocate
      if got
          then return (record t { mapped = true; size = length t.text + 11 })
          else stop (fail error))
    else return t

-- `strcat(uri, index_html_str)`: the copy begins at the first NUL.
unfoldable pub append_index : Text → M Bytes
append_index t =
    if t.mapped && leb (length (c_string t.text) + 11) t.size
    then return (c_string t.text ++ index_html)
    else stop crash

-- `uri[uri_len - 1]`; an empty URI has no such char: the read lies in front of the block.
unfoldable pub last_char : Bytes → Option ℕ
last_char s = elim (length s) [ zero ↦ none | suc n ↦ get_elem? s n ]

unfoldable pub add_index_behind : Text → Option ℕ → M Bytes
add_index_behind t none = stop crash
add_index_behind t (some c) =
    if c == b'/' then make_room t >>= append_index else return (c_string t.text)

-- `if (uri[uri_len - 1] == '/') ...`
unfoldable pub add_index : Text → M Bytes
unfolding add_index_behind last_char make_room append_index
add_index t = add_index_behind t (last_char t.text)

unfoldable pub get_uri : M (Unit {0})
unfolding uri_loop add_index
get_uri = do
  new ← new_text
  t ← uri_loop ends_uri text_rounds new
  terminate t
  s ← add_index t
  u ← duplicate s
  modify (λ r. record r { uri = some u })

unfoldable pub get_uri_fragment : M (Unit {0})
unfolding uri_loop
get_uri_fragment = do
  new ← new_text
  t ← uri_loop ends_fragment text_rounds new
  terminate t
  u ← duplicate t.text
  modify (λ r. record r { uri_fragment = some u })
