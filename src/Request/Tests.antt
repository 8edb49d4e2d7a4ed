-- ===== src/Request/Tests.antt =====
-- request.c at concrete requests.
use nvhttpd.Base.{
  ◌<◌, ◌≡◌, ◌≢◌, refl, ◌⊎◌, false, List, [], ◌∷◌, ◌++◌, ◌%◌, ℕ, arith, length, replicate, drop,
}
use nvhttpd.Base.Chars.{Bytes, codes, char_to_int, c_string, strtol_from}
use nvhttpd.Http.{HttpClient, ReadResult, received, http_read, read_size}
use nvhttpd.Request.State.{
  Request, get, head, full, done, out_of_fuel, return, stop, ◌>>=◌, modify, on_fail, allocate,
}
use nvhttpd.Request.Io.{
  refill, load, read_char, io_next, io_peek, or_io_error, next_char, peek_char, expect, skip_ws,
}
use nvhttpd.Request.Io.Stream.{IsOpen, pending, strip, stream_head, Reads, read_char-Reads}
use nvhttpd.Request.Accepted.{request_parse_accepts}
use nvhttpd.Request.Method.Stores.{Stores}
use nvhttpd.Request.Method.Words.{get_method_words}
use nvhttpd.Request.Uri.Escape.{denoted, stored_char-ne-denoted}
use nvhttpd.Request.Text.{new_text, reserve, put_char, terminate, duplicate}
use nvhttpd.Request.Method.{expect_all, method_letters, get_method}
use nvhttpd.Request.Field.{parse_var, parse_val, add_variable, add_header, get_query, get_headers}
use nvhttpd.Request.Uri.{stored_char, uri_loop, add_index, get_uri, get_uri_fragment}
use nvhttpd.Request.Version.{get_http_ver}
use nvhttpd.Request.Parse.{request_get, skip_blanks, request_parse, set_version_default}
use nvhttpd.Request.Chunks.Runs.{Same}
use nvhttpd.Request.Chunks.Whole.{request_parse_chunks, request_parse_ends}

abbrev blank : Bytes
blank = replicate 512 0

abbrev plain : List ReadResult → HttpClient
plain xs = record { ssl_ctx = false; recv = xs; ssl_read = [] }

abbrev from_chunks : List ReadResult → Request
from_chunks xs = request_get (plain xs) blank []

program : Unit {0}
unfolding char_to_int c_string strtol_from http_read read_size return stop ◌>>=◌ modify on_fail
    allocate refill load read_char io_next io_peek or_io_error next_char peek_char expect skip_ws
    new_text reserve put_char terminate duplicate expect_all method_letters get_method parse_var
    parse_val add_variable add_header get_query get_headers stored_char uri_loop add_index get_uri
    get_uri_fragment get_http_ver request_get skip_blanks request_parse set_version_default pending
    strip
program = tt

abbrev index_request : Bytes
index_request = codes "GET / HTTP/1.1\r\nHost: a\r\nAccept: b\r\n\r\n"

abbrev whole : Request
whole = from_chunks (received index_request ∷ [])

-- The same bytes in three pieces.
abbrev cut : Request
cut = from_chunks (
    received (codes "GET / HT")
    ∷ received (codes "TP/1.1\r\nHost: a\r\nAccept: b\r\n\r")
    ∷ received (codes "\n")
    ∷ [])

get_index : (request_parse 100 whole).0 ≡ done tt
unfolding program
get_index = refl

whole-IsOpen : IsOpen whole
unfolding program
whole-IsOpen = record { block = refl; filled = omega arith; arrives = omega arith }

cut-IsOpen : IsOpen cut
unfolding program
cut-IsOpen = record { block = refl; filled = omega arith; arrives = omega arith }

whole-Same-cut : Same whole cut
unfolding program
whole-Same-cut = record {
  open_left = whole-IsOpen;
  open_right = cut-IsOpen;
  pending_eq = refl;
  strip_eq = refl;
}

whole_short : length (pending whole) < 100
unfolding program
whole_short = omega arith

request_parse_chunks_example :
    ((request_parse 100 whole).0 ≡ (request_parse 100 cut).0)
    × (strip (request_parse 100 whole).1 ≡ strip (request_parse 100 cut).1)
    × (pending (request_parse 100 whole).1 ≡ pending (request_parse 100 cut).1)
request_parse_chunks_example = request_parse_chunks 100 whole cut whole-Same-cut whole_short

request_parse_ends_example : (request_parse 100 whole).0 ≢ out_of_fuel
request_parse_ends_example = request_parse_ends 100 whole whole-IsOpen whole_short

request_parse_accepts_example :
    (((request_parse 100 whole).1.method ≡ get) ⊎ ((request_parse 100 whole).1.method ≡ head))
    × ((request_parse 100 whole).1.type ≡ full)
request_parse_accepts_example = request_parse_accepts 100 whole whole-IsOpen whole_short get_index

read_char-Reads_example :
    Reads (read_char 1) whole (done (stream_head (pending whole))) (drop 1 (pending whole))
read_char-Reads_example = read_char-Reads 1 whole (omega arith) whole-IsOpen

-- What follows the name of the method.
abbrev behind_get : Bytes
behind_get = codes "/ HTTP/1.1\r\nHost: a\r\nAccept: b\r\n\r\n"

whole-pending : pending whole ≡ codes "GET" ++ (32 ∷ behind_get)
unfolding program
whole-pending = refl

get_method_words_example : Stores (get_method whole) (done tt) get (32 ∷ behind_get)
get_method_words_example = get_method_words get 32 behind_get whole whole-IsOpen whole-pending refl

abbrev escape : Request
escape = from_chunks (received (codes "%2F ") ∷ [])

escape-IsOpen : IsOpen escape
unfolding program
escape-IsOpen = record { block = refl; filled = omega arith; arrives = omega arith }

escape-pending : pending escape ≡ b'%' ∷ b'2' ∷ b'F' ∷ 32 ∷ []
unfolding program
escape-pending = refl

stored_char-ne-denoted_example :
    (v : ℕ) × Reads (stored_char b'%') escape (done v) (b'F' ∷ 32 ∷ [])
    × (v % 256 ≢ denoted b'2' b'F')
stored_char-ne-denoted_example =
    stored_char-ne-denoted escape b'2' b'F' (32 ∷ []) escape-IsOpen escape-pending refl refl
