-- ===== src/Request/Parse.antt =====
-- `request_get` and `request_parse`.
use nvhttpd.Base.{ℕ, Bool, true, false, not, ◌||◌, List, [], none, ◌==◌, if◌then◌else◌}
use nvhttpd.Base.Chars.{Bytes, is_space}
use nvhttpd.Http.{HttpClient}
use nvhttpd.Request.State.{
  Request, RequestMethod, connect, get, head, RequestType, simple, full, ParseError, io_error, bad,
  not_implemented, fail, M, return, stop, ◌>>=◌, ◌>>◌, modify, on_fail,
}
use nvhttpd.Request.Io.{next_char, peek_char, expect, or_io_error, skip_ws}
use nvhttpd.Request.Method.{get_method}
use nvhttpd.Request.Field.{get_query, get_headers}
use nvhttpd.Request.Uri.{get_uri, get_uri_fragment}
use nvhttpd.Request.Version.{get_http_ver}

-- `request_get` where both calls of malloc return memory: `memory` is what the buffer holds then.
unfoldable pub request_get : HttpClient → Bytes → List Bool → Request
request_get c memory coming = record {
  client = c;
  http_version_major = 0;
  http_version_minor = 0;
  uri_fragment = none;
  uri = none;
  buffer = memory;
  buffer_len = 0;
  buffer_index = 0;
  url_variables = [];
  headers = [];
  method = connect;
  type = simple;
  allocations = coming;
}

abbrev pub is_get : RequestMethod → Bool
is_get get = true
is_get _ = false

abbrev pub is_head : RequestMethod → Bool
is_head head = true
is_head _ = false

abbrev pub is_simple : RequestType → Bool
is_simple simple = true
is_simple full = false

-- A test on the request, and the return if it fails.
unfoldable pub require : (Request → Bool) → ParseError → M (Unit {0})
require test e r = (if test r then return tt else stop (fail e)) r

-- `if (res == REQUEST_PARSE_BAD) return REQUEST_PARSE_NOT_IMPLEMENTED;`
abbrev pub bad_method : ParseError → ParseError
bad_method bad = not_implemented
bad_method e = e

-- `skip_ws`, with the test of its result.
unfoldable pub skip_blanks : ℕ → M ℕ
skip_blanks fuel = skip_ws fuel >>= or_io_error

unfoldable pub set_type : RequestType → M (Unit {0})
set_type t = modify (λ r. record r { type = t })

-- The blank behind the method, and those in front of the URI.
unfoldable pub skip_to_uri : ℕ → M (Unit {0})
skip_to_uri fuel = do
  ch ← next_char
  if is_space ch
      then (do c ← skip_blanks fuel; if c == b'\n' then stop (fail bad) else return tt)
      else stop (fail bad)

unfoldable pub parse_method : ℕ → M (Unit {0})
parse_method fuel = do
  on_fail get_method bad_method
  require (λ r. is_get r.method || is_head r.method) not_implemented
  skip_to_uri fuel

-- The query and the fragment behind the URI. The result is `ch`, which a fragment sets to
-- REQUEST_PARSE_OK.
unfoldable pub parse_target : ℕ → M ℕ
parse_target fuel = do
  get_uri
  first ← peek_char
  ch ← (if first == b'?' then get_query fuel >> peek_char else return first)
  if ch == b'#' then (do hash ← next_char; get_uri_fragment; return 0) else return ch

-- `request->type` after the blanks behind the URI.
unfoldable pub parse_type : ℕ → ℕ → M (Unit {0})
unfolding set_type
parse_type fuel ch = do
  set_type full
  if is_space ch
      then (do c ← skip_blanks fuel; if c == b'\n' then set_type simple else return tt)
      else return tt

unfoldable pub set_version_default : M (Unit {0})
set_version_default = modify (λ r. record r { http_version_major = 0; http_version_minor = 9 })

-- The branch on the type. Any error of `get_http_ver` becomes REQUEST_PARSE_IO_ERROR.
unfoldable pub parse_version : M (Unit {0})
parse_version r =
    (if is_simple r.type
        then require (λ q. is_get q.method) bad >> set_version_default
        else on_fail get_http_ver (λ e. io_error))
      r

-- The end of the request line, the headers and the empty line.
unfoldable pub parse_rest : ℕ → M (Unit {0})
parse_rest fuel = do
  expect b'\r' (fail bad)
  expect b'\n' (fail bad)
  on_fail (get_headers fuel) (λ e. bad)
  ch ← next_char
  if ch == b'\r'
      then expect b'\n' (fail bad)
      else if not (ch == b'\n')
      then stop (fail bad)
      else return tt

-- `request_parse`; `done tt` is REQUEST_PARSE_OK. Every unbounded loop gets the same fuel.
unfoldable pub request_parse : ℕ → M (Unit {0})
unfolding parse_method skip_to_uri require parse_target parse_type parse_version parse_rest
request_parse fuel = do
  parse_method fuel
  ch ← parse_target fuel
  parse_type fuel ch
  parse_version
  parse_rest fuel
