-- ===== src/Request/Method.antt =====
-- `get_method`
pub mod Stores
pub mod Words
use nvhttpd.Base.{ℕ, [], ◌∷◌, ◌==◌, if◌then◌else◌}
use nvhttpd.Base.Chars.{Bytes, codes, is_space}
use nvhttpd.Request.State.{
  RequestMethod, connect, delete, get, head, options, post, put, trace, fail, io_error, bad, M,
  return, stop, ◌>>=◌, ◌>>◌, modify,
}
use nvhttpd.Request.Io.{next_char, peek_char, expect}

-- One `io_next` and one comparison for each letter.
unfoldable pub expect_all : Bytes → M (Unit {0})
expect_all [] = return tt
expect_all (c ∷ cs) = expect c (fail bad) >>= λ _. expect_all cs

unfoldable pub set_method : RequestMethod → M (Unit {0})
unfolding modify
set_method m = modify (λ r. record r { method = m })

-- `case 'P'`, which ends with REQUEST_PARSE_IO_ERROR on every path.
unfoldable pub method_p : M (Unit {0})
unfolding expect_all set_method
method_p = do
  ch ← next_char
  if ch == b'O'
      then expect_all (codes "ST") >> set_method post >> stop (fail io_error)
      else if ch == b'U'
      then expect_all (codes "T") >> set_method put >> stop (fail io_error)
      else stop (fail io_error)

-- The switch on the first letter.
unfoldable pub method_letters : ℕ → M (Unit {0})
unfolding expect_all set_method method_p
method_letters ch =
    if ch == b'C'
    then expect_all (codes "ONNECT") >> set_method connect
    else if ch == b'D'
    then expect_all (codes "ELETE") >> set_method delete
    else if ch == b'G'
    then expect_all (codes "ET") >> set_method get
    else if ch == b'H'
    then expect_all (codes "EAD") >> set_method head
    else if ch == b'O'
    then expect_all (codes "PTIONS") >> set_method options
    else if ch == b'P'
    then method_p
    else if ch == b'T'
    then expect_all (codes "RACE") >> set_method trace
    else stop (fail bad)

unfoldable pub get_method : M (Unit {0})
get_method = do
  first ← next_char
  method_letters first
  ch ← peek_char
  if is_space ch then return tt else stop (fail bad)
