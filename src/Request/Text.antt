-- ===== src/Request/Text.antt =====
-- The growing texts of the parser: `malloc(BUFFER_SIZE)`, doubling, one char written at the end, the
-- terminator and `strdup`, as `get_uri`, `get_uri_fragment`, `parse_val` and `parse_var` repeat them.
use nvhttpd.Base.{ℕ, ◌*◌, ◌%◌, Bool, true, ◌&&◌, [], ◌∷◌, ◌++◌, ltb, leb, if◌then◌else◌, length}
use nvhttpd.Base.Chars.{Bytes, c_string}
use nvhttpd.Request.State.{fail, crash, error, M, return, stop, ◌>>=◌, allocate, buffer_size}

-- The pointer (NULL unless `mapped`), the size of its block, and the chars written from its start;
-- their number is the variable `..._len`.
pub record Text : Type 0 where
  pub mapped : Bool
  pub size : ℕ
  pub text : Bytes

-- The result of malloc is not tested.
unfoldable pub new_text : M Text
new_text = do got ← allocate; return (record { mapped = got; size = buffer_size; text = [] })

-- `if (len >= size) { if (size >= max) ...; size <<= 1; realloc ... }`
unfoldable pub reserve : ℕ → Text → M Text
reserve max t =
    if ltb (length t.text) t.size
    then return t
    else if leb max t.size
    then stop (fail error)
    else do
      got ← allocate
      if got then return (record t { mapped = true; size = t.size * 2 }) else stop (fail error)

-- Whether the write of one char behind the text stays in the block.
abbrev pub is_writable : Text → Bool
is_writable t = t.mapped && ltb (length t.text) t.size

-- `text[len++] = ch`
unfoldable pub put_char : ℕ → Text → M Text
put_char ch t =
    if is_writable t then return (record t { text = t.text ++ (ch % 256) ∷ [] }) else stop crash

-- `text[len] = 0`
unfoldable pub terminate : Text → M (Unit {0})
terminate t = if is_writable t then return tt else stop crash

-- `strdup`
unfoldable pub duplicate : Bytes → M Bytes
duplicate s = do got ← allocate; if got then return (c_string s) else stop (fail error)

-- Rounds enough for any of these loops: the text is never longer than 1024 chars.
abbrev pub text_rounds : ℕ
text_rounds = 1026
