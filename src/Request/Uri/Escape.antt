-- ===== src/Request/Uri/Escape.antt =====
-- What `get_uri` makes of an escape, against the octet that the escape denotes.
use nvhttpd.Base.{ℕ, ◌+◌, ◌-◌, ◌*◌, ◌%◌, ◌<◌, true, ◌∷◌, ◌≡◌, ◌≢◌, arith, leb, ◌&&◌, if◌then◌else◌}
use nvhttpd.Base.Chars.{Bytes, is_digit, is_xdigit}
use nvhttpd.Request.State.{Request, done}
use nvhttpd.Request.Io.{next_char, peek_char}
use nvhttpd.Request.Uri.{escaped_char, stored_char}
use nvhttpd.Request.Io.Stream.{IsOpen, pending, Reads}
use nvhttpd.Request.Io.Feed.{chain, return-Reads, next_char-Reads, peek_char-Reads}

-- The value of a hexadecimal digit.
abbrev pub hex_value : ℕ → ℕ
hex_value c =
    if is_digit c
    then c - b'0'
    else if leb b'A' c && leb c b'F'
    then c - b'A' + 10
    else c - b'a' + 10

-- The octet that `%de` denotes (RFC 3986, section 2.1).
abbrev pub denoted : ℕ → ℕ → ℕ
denoted d e = hex_value d * 16 + hex_value e

pub is_xdigit-ascii : (c : ℕ) → is_xdigit c ≡ true → c < 128
is_xdigit-ascii c h = ground arith

never_denoted :
    (d e : ℕ) → is_xdigit d ≡ true → is_xdigit e ≡ true → (e + d * 16) % 256 ≢ denoted d e
never_denoted d e hd he = λ h. ground arith

-- On an escape, a percent sign and two hexadecimal digits, the parser reads on to the second digit
-- and takes a value whose low eight bits, which are what it stores, are never the octet that the
-- escape denotes.
pub stored_char-ne-denoted :
    (r : Request) (d e : ℕ) (rest : Bytes)
    → IsOpen r
    → pending r ≡ b'%' ∷ d ∷ e ∷ rest
    → is_xdigit d ≡ true
    → is_xdigit e ≡ true
    → (v : ℕ) × Reads (stored_char b'%') r (done v) (e ∷ rest) × (v % 256 ≢ denoted d e)
unfolding stored_char escaped_char
stored_char-ne-denoted r d e rest o came hd he =
    let percent = next_char-Reads r b'%' (d ∷ e ∷ rest) o came (omega arith) in
    let digit =
      next_char-Reads percent.after d (e ∷ rest) percent.open_after percent.pending_after
        (is_xdigit-ascii d hd) in
    let second =
      peek_char-Reads digit.after e rest digit.open_after digit.pending_after
        (is_xdigit-ascii e he) in
    (
      e + d * 16,
      chain next_char _ r percent (
          chain next_char _ percent.after digit (
            rw hd (
              chain peek_char _ digit.after second (
                rw (he, ← second.pending_after)
                  (return-Reads second.after (e + d * 16) second.open_after))))),
      never_denoted d e hd he,
    )
