-- ===== src/Server/Response.antt =====
-- response.c, and the numbers that printf writes.
pub mod Length
pub mod Reads
mod Tests
use nvhttpd.Base.{
  ℕ, zero, suc, ◌+◌, ◌-◌, ◌/◌, ◌%◌, ◌^◌, Bool, List, [], ◌∷◌, Option, none, some, ◌++◌, ltb, ◌==◌,
  if◌then◌else◌, length,
}
use nvhttpd.Base.Chars.{Bytes, codes}
use nvhttpd.Cache.{Result, done, crash}

-- `http_response_code_e`
pub data ResponseCode : Type 0 where
  response_200 response_400 response_404 response_500 response_501 : ResponseCode

unfoldable pub response_code_str : ResponseCode → Bytes
response_code_str response_200 = codes "200 OK"
response_code_str response_400 = codes "400 Bad Request"
response_code_str response_404 = codes "404 Not Found"
response_code_str response_500 = codes "500 Internal Server Error"
response_code_str response_501 = codes "501 Not Implemented"

-- The decimal digits of a number, in front of others.
unfoldable pub digits_from : ℕ → ℕ → Bytes → Bytes
digits_from zero n later = later
digits_from (suc rounds) n later =
    let digit = b'0' + n % 10 in
    let rest = digits_from rounds (n / 10) (digit ∷ later) in
    if ltb n 10 then digit ∷ later else rest

-- `%ld` on a size_t: it is read as a long. A long has at most 19 digits.
unfoldable pub printed_long : ℕ → Bytes
printed_long n =
    if ltb n (2 ^ 63) then digits_from 19 n [] else b'-' ∷ digits_from 19 (2 ^ 64 - n) []

-- What `sprintf` writes. `date` is the text of strftime; `printed_null` is what `%s` writes for
-- NULL, which C leaves open.
unfoldable pub header_text : Bytes → Bytes → ResponseCode → ℕ → Bytes → Option Bytes → Bytes
header_text date printed_null code content_length mime additional_headers =
    let headers : Bytes = elim additional_headers [ some text ↦ text | none ↦ printed_null ] in
    let sized = printed_long content_length ++ (codes "\r\n" ++ (headers ++ codes "\r\n")) in
    let typed = mime ++ (codes "\r\nContent-Length: " ++ sized) in
    let dated = date ++ (codes "\r\nContent-Type: " ++ typed) in
    codes "HTTP/1.1 " ++ (response_code_str code ++ (codes "\r\nDate: " ++ dated))

-- `char header[1024]`
abbrev pub header_size : ℕ
header_size = 1024

-- `http_response_header`; `got` is the result of strdup.
unfoldable pub http_response_header :
    Bytes → Bytes → Bool → ResponseCode → ℕ → Bytes → Option Bytes → Result (Option Bytes)
http_response_header date printed_null got code content_length mime additional_headers =
    let header = header_text date printed_null code content_length mime additional_headers in
    if ltb (length header) header_size
    then (if got then done (some header) else done none)
    else crash
