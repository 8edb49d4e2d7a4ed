-- ===== src/Server/Answer/Tests.antt =====
-- `handle_client_request` on a site of two pages.
use nvhttpd.Base.{◌≡◌, refl, true, false, List, [], ◌∷◌, none, some, ◌++◌, arith, length, replicate}
use nvhttpd.Base.Chars.{Bytes, codes, char_to_int, c_string, strtol_from}
use nvhttpd.Http.{HttpClient, received, http_read, read_size}
use nvhttpd.Cache.{
  CacheElement, Cache, Result, done, on_done, same_text, hash_step, hash_from, hash, extension,
  same_letters, mime_of, determine_mime, new_element, new_elements, smear, cache_mask,
  cache_capacity, next_index, set_slot, probe, fill, insert, insert_all, find_from, find,
  copy_element, cache_find, build, cache_load,
}
use nvhttpd.Cache.Serves.{lookup}
use nvhttpd.Request.State.{Request, delete, return, stop, ◌>>=◌, modify, on_fail, allocate}
use nvhttpd.Request.State as Parser
use nvhttpd.Request.Io.{
  refill, load, read_char, io_next, io_peek, or_io_error, next_char, peek_char, expect, skip_ws,
}
use nvhttpd.Request.Text.{new_text, reserve, put_char, terminate, duplicate}
use nvhttpd.Request.Method.{expect_all, method_letters, get_method}
use nvhttpd.Request.Field.{parse_var, parse_val, add_variable, add_header, get_query, get_headers}
use nvhttpd.Request.Uri.{stored_char, uri_loop, add_index, get_uri, get_uri_fragment}
use nvhttpd.Request.Version.{get_http_ver}
use nvhttpd.Request.Parse.{request_get, skip_blanks, request_parse, set_version_default, is_get}
use nvhttpd.Server.Settings.{response_404_path, response_501_path, initial, set_text}
use nvhttpd.Server.Response.{
  response_200, response_404, response_code_str, digits_from, printed_long, header_text,
  http_response_header,
}
use nvhttpd.Server.Answer.{
  takes, write_failed, next_write, written, http_write, closed, undefined, write_loop, Thread,
  code_of, path_of, other_page, find_page, send_bytes, send_page, send_found, answer,
  handle_client_request,
}
use nvhttpd.Server.Answer.Delivery.{write_loop-sends, write_loop_failed}
use nvhttpd.Server.Answer.Pages.{
  CanSend, header_of, body_of, handle_client_request-page, handle_client_request-missing,
}
use nvhttpd.Server.Answer.Refused.{handle_client_request-refused}
use nvhttpd.Request.Io.Stream.{IsOpen, pending}
use nvhttpd.Request.Method.Stores.{method_str}

program : Unit {0}
unfolding char_to_int c_string strtol_from http_read read_size on_done same_text hash_step hash_from
    hash extension same_letters mime_of determine_mime new_element new_elements smear cache_mask
    cache_capacity next_index set_slot probe fill insert insert_all find_from find copy_element
    cache_find build cache_load lookup return stop ◌>>=◌ modify on_fail allocate refill load
    read_char io_next io_peek or_io_error next_char peek_char expect skip_ws new_text reserve
    put_char terminate duplicate expect_all method_letters get_method parse_var parse_val
    add_variable add_header get_query get_headers stored_char uri_loop add_index get_uri
    get_uri_fragment get_http_ver request_get skip_blanks request_parse set_version_default
    response_code_str digits_from printed_long header_text http_response_header next_write written
    http_write write_loop code_of path_of other_page find_page send_bytes send_page send_found
    answer handle_client_request
program = tt

abbrev blank : Bytes
blank = replicate 512 0

abbrev client : Bytes → HttpClient
client text = record { ssl_ctx = false; recv = received text ∷ []; ssl_read = [] }

abbrev site : List (Bytes × Bytes)
site =
    (codes "/index.html", codes "<p>hello</p>") ∷ (codes "/404.html", codes "<p>nothing</p>") ∷ []

abbrev base_path : Bytes
base_path = codes "/srv/html"

unfoldable loaded_or : Cache → Result Cache → Cache
loaded_or other (done cache) = cache
loaded_or other _ = other

abbrev table : Cache
table =
    loaded_or (record { capacity = 0; mask = 0; count = 0; slots = [] })
      (cache_load true 300 base_path site)

table-loaded : cache_load true 300 base_path site ≡ done table
unfolding program loaded_or
table-loaded = refl

abbrev thread : Thread
thread = record {
  cache = some table;
  settings =
      set_text response_501_path (some (codes "/501.html"))
        (set_text response_404_path (some (codes "/404.html")) (initial [] []));
  date = codes "Thu, 01 Jan 1970 00:00:00 GMT";
  printed_null = codes "(null)";
  has_copy = true;
  has_other_copy = true;
  has_header = true;
  has_output = true;
  writes = takes 7 ∷ takes 100 ∷ [];
}

abbrev index_request : Bytes
index_request = codes "GET / HTTP/1.1\r\nHost: a\r\n\r\n"

gets_index :
    handle_client_request 300 thread (client index_request) (some blank) []
    ≡ closed (
        codes
          "HTTP/1.1 200 OK\r\nDate: Thu, 01 Jan 1970 00:00:00 GMT\r\nContent-Type: text/html; charset=UTF-8\r\nContent-Length: 12\r\n(null)\r\n<p>hello</p>")
unfolding program loaded_or
gets_index = refl

-- A HEAD is told that the page has no bytes.
heads_index :
    handle_client_request 300 thread
      (client (codes "HEAD / HTTP/1.1\r\nHost: a\r\n\r\n"))
      (some blank)
      []
    ≡ closed (
        codes
          "HTTP/1.1 200 OK\r\nDate: Thu, 01 Jan 1970 00:00:00 GMT\r\nContent-Type: text/html; charset=UTF-8\r\nContent-Length: 0\r\n(null)\r\n")
unfolding program loaded_or
heads_index = refl

abbrev index_element : CacheElement
index_element = new_element base_path (codes "/index.html", codes "<p>hello</p>")

abbrev parsed : Bytes → Parser.Outcome (Unit {0}) × Request
parsed text = request_parse 300 (request_get (client text) blank [])

abbrev index_parsed : Request
index_parsed = (parsed index_request).1

index_parsed-done : parsed index_request ≡ (Parser.done tt, index_parsed)
unfolding program
index_parsed-done = refl

index_path : path_of thread.settings index_parsed response_200 ≡ some (codes "/index.html")
unfolding program
index_path = refl

code_200 : code_of (Parser.done tt) ≡ some response_200
unfolding program
code_200 = refl

index_found : lookup (new_elements base_path site) (codes "/index.html") ≡ some index_element
unfolding program
index_found = refl

index-CanSend : CanSend 300 thread response_200 (is_get index_parsed.method) index_element
unfolding program
index-CanSend = record {
  fits = omega arith;
  has_header = refl;
  has_output = refl;
  open_writes = tt;
  short = omega arith;
  enough = omega arith;
}

handle_client_request-page_example :
    handle_client_request 300 thread (client index_request) (some blank) []
    ≡ closed (
        header_of thread response_200 (is_get index_parsed.method) index_element
        ++ body_of (is_get index_parsed.method) index_element)
handle_client_request-page_example =
    handle_client_request-page 300 thread (client index_request) blank [] (Parser.done tt)
      index_parsed response_200 (codes "/index.html") base_path site table index_element
      index_parsed-done code_200 index_path table-loaded refl refl index_found index-CanSend

abbrev absent_request : Bytes
absent_request = codes "GET /x HTTP/1.1\r\nHost: a\r\n\r\n"

abbrev absent_parsed : Request
absent_parsed = (parsed absent_request).1

absent_parsed-done : parsed absent_request ≡ (Parser.done tt, absent_parsed)
unfolding program
absent_parsed-done = refl

absent_uri : absent_parsed.uri ≡ some (codes "/x")
unfolding program
absent_uri = refl

x_absent : lookup (new_elements base_path site) (codes "/x") ≡ none
unfolding program
x_absent = refl

abbrev page_404 : CacheElement
page_404 = new_element base_path (codes "/404.html", codes "<p>nothing</p>")

found_404 : lookup (new_elements base_path site) (codes "/404.html") ≡ some page_404
unfolding program
found_404 = refl

page_404-CanSend : CanSend 300 thread response_404 (is_get absent_parsed.method) page_404
unfolding program
page_404-CanSend = record {
  fits = omega arith;
  has_header = refl;
  has_output = refl;
  open_writes = tt;
  short = omega arith;
  enough = omega arith;
}

handle_client_request-missing_example :
    handle_client_request 300 thread (client absent_request) (some blank) []
    ≡ closed (
        header_of thread response_404 (is_get absent_parsed.method) page_404
        ++ body_of (is_get absent_parsed.method) page_404)
handle_client_request-missing_example =
    handle_client_request-missing 300 thread (client absent_request) blank [] absent_parsed
      (codes "/x") (codes "/404.html") base_path site table page_404 absent_parsed-done absent_uri
      refl table-loaded (omega arith) (omega arith) refl refl x_absent found_404 page_404-CanSend

-- A method that is not implemented.
abbrev delete_request : Bytes
delete_request = codes "DELETE / HTTP/1.1\r\n\r\n"

page_501_absent : lookup (new_elements base_path site) (codes "/501.html") ≡ none
unfolding program
page_501_absent = refl

delete_open : IsOpen (request_get (client delete_request) blank [])
unfolding program
delete_open = record { block = refl; filled = omega arith; arrives = omega arith }

delete_pending :
    pending (request_get (client delete_request) blank [])
    ≡ method_str delete ++ (b' ' ∷ codes "/ HTTP/1.1\r\n\r\n")
unfolding program pending
delete_pending = refl

handle_client_request-refused_example :
    handle_client_request 300 thread (client delete_request) (some blank) [] ≡ undefined
handle_client_request-refused_example =
    handle_client_request-refused 300 thread (client delete_request) blank [] delete b' '
      (codes "/ HTTP/1.1\r\n\r\n") (codes "/501.html") base_path site table refl delete_open
      delete_pending refl refl table-loaded (omega arith) (omega arith) refl page_501_absent

-- Where the site has the page, a DELETE gets the header alone.
abbrev site_501 : List (Bytes × Bytes)
site_501 = (codes "/501.html", codes "<p>no</p>") ∷ site

deletes_page :
    handle_client_request 300
      (record thread {
        cache = some (
            loaded_or
              (record { capacity = 0; mask = 0; count = 0; slots = [] })
              (cache_load true 300 base_path site_501));
      })
      (client delete_request)
      (some blank)
      []
    ≡ closed (
        codes
          "HTTP/1.1 501 Not Implemented\r\nDate: Thu, 01 Jan 1970 00:00:00 GMT\r\nContent-Type: text/html; charset=UTF-8\r\nContent-Length: 0\r\n(null)\r\n")
unfolding program loaded_or
deletes_page = refl

write_loop-sends_example :
    write_loop 9 false (takes 2 ∷ takes 1 ∷ []) (codes "answer") 0 (length (codes "answer")) []
    ≡ closed (codes "answer")
write_loop-sends_example =
    write_loop-sends 9 false (takes 2 ∷ takes 1 ∷ []) (codes "answer") tt (omega arith)
      (omega arith)

write_loop_failed_example :
    write_loop 9 false (write_failed ∷ []) (codes "ab") 0 (length (codes "ab")) [] ≡ undefined
write_loop_failed_example = write_loop_failed 7 [] b'a' (b'b' ∷ []) (omega arith)
