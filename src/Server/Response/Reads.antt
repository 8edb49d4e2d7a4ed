-- ===== src/Server/Response/Reads.antt =====
-- What a client reads in the header that `http_response_header` writes.
use mathlib.Core.Path.{subst}
use nvhttpd.Base.{
  ℕ, ◌<◌, ◌^◌, Bool, true, false, not, ◌||◌, ◌&&◌, [], ◌∷◌, Option, none, some, ◌++◌, ◌≡◌, refl, ap,
  ◌∙◌, if◌then◌else◌, arith, ◌==◌, ltb, length,
}
use nvhttpd.Base.Chars.{Bytes, codes, strtol_from}
use nvhttpd.Cache.{Result, done, crash}
use nvhttpd.Server.Response.{
  ResponseCode, response_200, response_400, response_404, response_500, response_501,
  response_code_str, printed_long, header_text, header_size, http_response_header,
}
use nvhttpd.Server.Response.Length.{printed_long-strtol_from}

-- A client's reader. What stands behind a prefix:
unfoldable pub strip_prefix : Bytes → Bytes → Option Bytes
strip_prefix [] cs = some cs
strip_prefix (p ∷ ps) [] = none
strip_prefix (p ∷ ps) (c ∷ cs) = if p == c then strip_prefix ps cs else none

-- the text from the value on, of the first field with this name, on a line behind the first;
unfoldable pub field_of : Bytes → Bytes → Option Bytes
field_of name [] = none
field_of name (c ∷ cs) =
    let rest = field_of name cs in
    if c == b'\n'
    then elim (strip_prefix (name ++ codes ": ") cs) [ some value ↦ some value | none ↦ rest ]
    else rest

-- and a text up to the end of its line.
unfoldable pub line_of : Bytes → Bytes
line_of [] = []
line_of (c ∷ cs) = let rest = line_of cs in if c == b'\r' then [] else c ∷ rest

unfoldable pub is_one_line : Bytes → Bool
is_one_line [] = true
is_one_line (c ∷ cs) = not (c == b'\r' || c == b'\n') && is_one_line cs

-- The number of a status, as RFC 9110 has it.
abbrev pub status_of : ResponseCode → ℕ
status_of response_200 = 200
status_of response_400 = 400
status_of response_404 = 404
status_of response_500 = 500
status_of response_501 = 501

field_of-append :
    (name xs ys : Bytes) → is_one_line xs ≡ true → field_of name (xs ++ ys) ≡ field_of name ys
unfolding field_of is_one_line
field_of-append name [] ys h = refl
field_of-append name (c ∷ cs) ys h =
    let inside : c == b'\n' ≡ false = ground arith in
    rw inside (field_of-append name cs ys (ground arith))

line_of-append : (xs ys : Bytes) → is_one_line xs ≡ true → line_of (xs ++ (b'\r' ∷ ys)) ≡ xs
unfolding line_of is_one_line
line_of-append [] ys h = refl
line_of-append (c ∷ cs) ys h =
    let inside : c == b'\r' ≡ false = ground arith in
    rw inside (ap (◌∷◌ c) (line_of-append cs ys (ground arith)))

-- What the client reads: the number of the status behind the version, and the fields.
pub record Shows (header date mime : Bytes) (code : ResponseCode) (content_length : ℕ)
    : Type 0 where
  pub status :
      (text : Bytes) × (strip_prefix (codes "HTTP/1.1 ") header ≡ some text)
      × (strtol_from 0 text ≡ status_of code)
  pub dated : (text : Bytes) × (field_of (codes "Date") header ≡ some text) × (line_of text ≡ date)
  pub typed :
      (text : Bytes) × (field_of (codes "Content-Type") header ≡ some text) × (line_of text ≡ mime)
  pub sized :
      (text : Bytes) × (field_of (codes "Content-Length") header ≡ some text)
      × (strtol_from 0 text ≡ content_length)

-- The line of the status, and the name of the first field.
abbrev opening : ResponseCode → Bytes → Bytes
opening code later = codes "HTTP/1.1 " ++ (response_code_str code ++ (codes "\r\nDate: " ++ later))

opening-status :
    (code : ResponseCode) (later : Bytes)
    → (text : Bytes) × (strip_prefix (codes "HTTP/1.1 ") (opening code later) ≡ some text)
      × (strtol_from 0 text ≡ status_of code)
unfolding strip_prefix strtol_from response_code_str
opening-status response_200 later = (_, refl, refl)
opening-status response_400 later = (_, refl, refl)
opening-status response_404 later = (_, refl, refl)
opening-status response_500 later = (_, refl, refl)
opening-status response_501 later = (_, refl, refl)

opening-fields :
    (code : ResponseCode) (later : Bytes)
    → (field_of (codes "Date") (opening code later) ≡ some later)
      × (field_of (codes "Content-Type") (opening code later)
          ≡ field_of (codes "Content-Type") later)
      × (field_of (codes "Content-Length") (opening code later)
          ≡ field_of (codes "Content-Length") later)
unfolding strip_prefix field_of response_code_str
opening-fields response_200 later = (refl, refl, refl)
opening-fields response_400 later = (refl, refl, refl)
opening-fields response_404 later = (refl, refl, refl)
opening-fields response_500 later = (refl, refl, refl)
opening-fields response_501 later = (refl, refl, refl)

type_line :
    (later : Bytes)
    → (field_of (codes "Content-Type") (codes "\r\nContent-Type: " ++ later) ≡ some later)
      × (field_of (codes "Content-Length") (codes "\r\nContent-Type: " ++ later)
          ≡ field_of (codes "Content-Length") later)
unfolding strip_prefix field_of
type_line later = (refl, refl)

length_line :
    (later : Bytes)
    → field_of (codes "Content-Length") (codes "\r\nContent-Length: " ++ later) ≡ some later
unfolding strip_prefix field_of
length_line later = refl

header_text-Shows :
    (date printed_null mime : Bytes) (code : ResponseCode) (content_length : ℕ)
    (additional_headers : Option Bytes)
    → is_one_line date ≡ true
    → is_one_line mime ≡ true
    → content_length < 2 ^ 63
    → Shows
        (header_text date printed_null code content_length mime additional_headers)
        date
        mime
        code
        content_length
unfolding header_text
header_text-Shows date printed_null mime code content_length additional_headers one one' lt =
    let additional : Bytes = elim additional_headers [ some text ↦ text | none ↦ printed_null ] in
    let after_length = codes "\r\n" ++ (additional ++ codes "\r\n") in
    let number = printed_long content_length ++ after_length in
    let length_on = codes "\r\nContent-Length: " ++ number in
    let type_on = codes "\r\nContent-Type: " ++ (mime ++ length_on) in
    let (to_date, to_type, to_length) = opening-fields code (date ++ type_on) in
    let (type_found, type_passed) = type_line (mime ++ length_on) in
    record {
      status = opening-status code (date ++ type_on);
      dated = (date ++ type_on, to_date, line_of-append date _ one);
      typed = (
        mime ++ length_on,
        to_type ∙ field_of-append (codes "Content-Type") date type_on one ∙ type_found,
        line_of-append mime _ one',
      );
      sized = (
        number,
        to_length
            ∙ field_of-append (codes "Content-Length") date type_on one
            ∙ type_passed
            ∙ field_of-append (codes "Content-Length") mime length_on one'
            ∙ length_line number,
        printed_long-strtol_from content_length (additional ++ codes "\r\n") lt,
      );
    }

-- A client that reads the header that http_response_header returns, finds behind the version the
-- number of the status, and in the fields Date, Content-Type and Content-Length the date, the type and
-- the length that were given, where the date and the type are on one line and the length is below
-- 2 ^ 63; whatever the configured headers are, which stand behind these fields.
pub http_response_header-Shows :
    (date printed_null mime header : Bytes) (got : Bool) (code : ResponseCode) (content_length : ℕ)
    (additional_headers : Option Bytes)
    → is_one_line date ≡ true
    → is_one_line mime ≡ true
    → content_length < 2 ^ 63
    → http_response_header date printed_null got code content_length mime additional_headers
      ≡ done (some header)
    → Shows header date mime code content_length
unfolding http_response_header
http_response_header-Shows date printed_null mime header got code content_length additional_headers
      one one' lt h =
    let text = header_text date printed_null code content_length mime additional_headers in
    subst (λ x. Shows x date mime code content_length)
      (returned (ltb (length text) header_size) got text h)
      (header_text-Shows date printed_null mime code content_length additional_headers one one' lt)
  where
    ended : Result (Option Bytes)
    ended = done (some header)

    returned :
        (b got : Bool) (text : Bytes)
        → (if b then (if got then done (some text) else done none) else crash) ≡ ended
        → text ≡ header
    returned true true text h = cc
    returned true false text h = cc
    returned false got text h = cc
