-- ===== src/Server/Response/Tests.antt =====
-- A header, as a client reads it.
use nvhttpd.Base.{◌≡◌, refl, true, some, arith}
use nvhttpd.Base.Chars.{Bytes, codes}
use nvhttpd.Cache.{done}
use nvhttpd.Server.Response.{
  response_404, response_code_str, digits_from, printed_long, header_text, http_response_header,
}
use nvhttpd.Server.Response.Reads.{is_one_line, Shows, http_response_header-Shows}

program : Unit {0}
unfolding response_code_str digits_from printed_long header_text http_response_header is_one_line
program = tt

abbrev date : Bytes
date = codes "Thu, 01 Jan 1970 00:00:00 GMT"

abbrev header : Bytes
header =
    codes
      "HTTP/1.1 404 Not Found\r\nDate: Thu, 01 Jan 1970 00:00:00 GMT\r\nContent-Type: text/html\r\nContent-Length: 1207\r\nServer: a\r\n\r\n"

header_written :
    http_response_header date
      (codes "(null)")
      true
      response_404
      1207
      (codes "text/html")
      (some (codes "Server: a\r\n"))
    ≡ done (some header)
unfolding program
header_written = refl

date_one_line : is_one_line date ≡ true
unfolding program
date_one_line = refl

type_one_line : is_one_line (codes "text/html") ≡ true
unfolding program
type_one_line = refl

http_response_header-Shows_example : Shows header date (codes "text/html") response_404 1207
http_response_header-Shows_example =
    http_response_header-Shows date (codes "(null)") (codes "text/html") header true response_404
      1207 (some (codes "Server: a\r\n")) date_one_line type_one_line (omega arith) header_written
