-- ===== src/Request/Io.antt =====
-- `io_next`, `io_peek` and `skip_ws`: the buffered reader under the parser.
pub mod Stream
pub mod Sees
pub mod Feed
use nvhttpd.Base.{
  ℕ, zero, suc, ◌+◌, Bool, true, false, not, ◌&&◌, ◌||◌, List, [], ◌∷◌, ◌++◌, Option, none, some,
  ltb, leb, ◌==◌, if◌then◌else◌, length, drop, get_elem?,
}
use nvhttpd.Base.Chars.{Bytes, ℤ, pos, negsuc, char_to_int, is_space}
use nvhttpd.Http.{ReadResult, received, failed, read_size, http_read}
use nvhttpd.Request.State.{
  Request, Outcome, done, fail, crash, out_of_fuel, io_error, M, return, stop, ◌>>=◌, ◌>>◌,
}

abbrev pub io_eof : ℤ
io_eof = negsuc 0

abbrev pub io_error_code : ℤ
io_error_code = negsuc 1

-- What the call of recv leaves in the memory of the buffer.
unfoldable pub store_result : ReadResult → Bytes → Bytes
store_result (received bs) buffer = bs ++ drop (length bs) buffer
store_result failed buffer = buffer

-- `buffer_len = http_read(client, buffer, BUFFER_SIZE)`
unfoldable pub refill : Request → Request
unfolding store_result
refill r = record r {
  client = (http_read r.client).1;
  buffer = store_result (http_read r.client).0 r.buffer;
  buffer_len = read_size (http_read r.client).0;
}

-- `return request->buffer[request->buffer_index]`, and the index moved on by `step`.
unfoldable pub load : ℕ → M ℤ
load step r = elim (get_elem? r.buffer r.buffer_index) [
  | none ↦ (crash, r)
  | some b ↦ (done (char_to_int b), record r { buffer_index = r.buffer_index + step })
]

-- The part that `io_next` and `io_peek` share. `buffer_len < 0` compares a size_t.
unfoldable pub read_char : ℕ → M ℤ
read_char step r =
    if leb r.buffer_len r.buffer_index
    then if ltb (refill r).buffer_len 0
      then (done io_error_code, refill r)
      else if (refill r).buffer_len == 0
      then (done io_eof, refill r)
      else load step (record (refill r) { buffer_index = 0 })
    else load step r

unfoldable pub io_next : M ℤ
io_next = read_char 1

unfoldable pub io_peek : M ℤ
io_peek = read_char 0

-- `if ((ch = ...) < IO_OK) return REQUEST_PARSE_IO_ERROR;`
unfoldable pub or_io_error : ℤ → M ℕ
or_io_error (pos c) = return c
or_io_error (negsuc n) = stop (fail io_error)

unfoldable pub next_char : M ℕ
next_char = io_next >>= or_io_error

unfoldable pub peek_char : M ℕ
peek_char = io_peek >>= or_io_error

-- `if ((ch = io_next(request)) < IO_OK) return IO_ERROR; if (ch != c) return e;`
unfoldable pub expect : ℕ → Outcome (Unit {0}) → M (Unit {0})
expect c o = do ch ← next_char; if ch == c then return tt else stop o

-- The test that ends the loop of `skip_ws`.
abbrev pub ends_ws : ℤ → Bool
ends_ws (pos c) = not (is_space c) || c == b'\n'
ends_ws (negsuc n) = true

-- `skip_ws`; each round but the last reads a byte.
unfoldable pub skip_ws : ℕ → M ℤ
skip_ws zero = stop out_of_fuel
skip_ws (suc fuel) = do c ← io_peek; if ends_ws c then return c else io_next >>= λ _. skip_ws fuel
