-- ===== src/Http.antt =====
-- http.c and http.h: what the request parser uses of a client connection. `recv` and `SSL_read` are
-- not the program's: a connection carries what their successive calls return, and a call behind the
-- last one returns 0, as on a connection that the peer has shut down.
pub mod Connection
pub mod Listening
use nvhttpd.Base.{ℕ, ◌-◌, ◌^◌, Bool, List, [], ◌∷◌, length, if◌then◌else◌}
use nvhttpd.Base.Chars.{Bytes}

-- `http_variable_s`; the links are those of the list.
pub record HttpVariable : Type 0 where
  pub var : Bytes
  pub val : Bytes

-- One call of recv or SSL_read: the bytes that it stored, or the return value -1.
pub data ReadResult : Type 0 where
  received : Bytes → ReadResult
  failed : ReadResult

-- `http_client_s`: whether `server->ssl_ctx` is set, and the results to come.
pub record HttpClient : Type 0 where
  pub ssl_ctx : Bool
  pub recv : List ReadResult
  pub ssl_read : List ReadResult

unfoldable pub next_result : List ReadResult → ReadResult × List ReadResult
next_result [] = (received [], [])
next_result (x ∷ xs) = (x, xs)

-- The value of `size`: -1 is converted to size_t.
unfoldable pub read_size : ReadResult → ℕ
read_size (received bs) = length bs
read_size failed = 2 ^ 64 - 1

-- `http_read`
unfoldable pub http_read : HttpClient → ReadResult × HttpClient
unfolding next_result
http_read c =
    if c.ssl_ctx
    then ((next_result c.ssl_read).0, record c { ssl_read = (next_result c.ssl_read).1 })
    else ((next_result c.recv).0, record c { recv = (next_result c.recv).1 })
