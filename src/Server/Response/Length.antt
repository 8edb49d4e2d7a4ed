-- ===== src/Server/Response/Length.antt =====
-- The number in the header.
use nvhttpd.Base.{
  ℕ, zero, suc, ◌+◌, ◌*◌, ◌/◌, ◌%◌, ◌^◌, ◌<◌, Bool, true, false, [], ◌∷◌, ◌++◌, ◌≡◌, refl, ap, ◌∙◌,
  ltb, if◌then◌else◌, arith, ltb→lt, lt→ltb,
}
use nvhttpd.Base.Chars.{Bytes, codes, strtol_from, is_digit}
use nvhttpd.Server.Response.{digits_from, printed_long}

strtol_from-digit :
    (k d : ℕ) (later : Bytes)
    → d < 10
    → strtol_from k ((b'0' + d) ∷ later) ≡ strtol_from (k * 10 + d) later
unfolding strtol_from
strtol_from-digit k d later lt =
    let digit : is_digit (b'0' + d) ≡ true = ground arith in
    rw digit (ap (λ m. strtol_from (k * 10 + m) later) (omega arith))

-- strtol goes on behind the digits as if they were read.
digits_from-strtol_from :
    (rounds n : ℕ) (later : Bytes)
    → n < 10 ^ rounds
    → strtol_from 0 (digits_from rounds n later) ≡ strtol_from n later
unfolding digits_from
digits_from-strtol_from zero n later lt = ap (λ m. strtol_from m later) (omega arith)
digits_from-strtol_from (suc rounds) n later lt =
    go (ltb n 10) refl
      (λ less. digits_from-strtol_from rounds (n / 10) ((b'0' + n % 10) ∷ later) less)
  where
    go :
        (b : Bool)
        → ltb n 10 ≡ b
        → (n / 10 < 10 ^ rounds
            → strtol_from 0 (digits_from rounds (n / 10) ((b'0' + n % 10) ∷ later))
              ≡ strtol_from (n / 10) ((b'0' + n % 10) ∷ later))
        → strtol_from 0 (
            if b
            then (b'0' + n % 10) ∷ later
            else digits_from rounds (n / 10) ((b'0' + n % 10) ∷ later))
          ≡ strtol_from n later
    go true small again =
        strtol_from-digit 0 (n % 10) later (omega arith)
        ∙ ap (λ m. strtol_from m later) (let lt10 = ltb→lt n 10 small in omega arith)
    go false large again =
        again (omega arith)
        ∙ strtol_from-digit (n / 10) (n % 10) later (omega arith)
        ∙ ap (λ m. strtol_from m later) (omega arith)

digits_from-append :
    (rounds n : ℕ) (later more : Bytes)
    → digits_from rounds n later ++ more ≡ digits_from rounds n (later ++ more)
unfolding digits_from
digits_from-append zero n later more = refl
digits_from-append (suc rounds) n later more =
    go (ltb n 10) (digits_from-append rounds (n / 10) ((b'0' + n % 10) ∷ later) more)
  where
    digit : ℕ
    digit = b'0' + n % 10

    go :
        (b : Bool)
        → digits_from rounds (n / 10) (digit ∷ later) ++ more
          ≡ digits_from rounds (n / 10) (digit ∷ (later ++ more))
        → (if b then digit ∷ later else digits_from rounds (n / 10) (digit ∷ later)) ++ more ≡ (
            if b
            then digit ∷ (later ++ more)
            else digits_from rounds (n / 10) (digit ∷ (later ++ more)))
    go true again = refl
    go false again = again

-- strtol, on the number that the header shows for a length below 2 ^ 63 and on what follows it,
-- reads this length.
pub printed_long-strtol_from :
    (n : ℕ) (later : Bytes)
    → n < 2 ^ 63
    → strtol_from 0 (printed_long n ++ (codes "\r\n" ++ later)) ≡ n
unfolding printed_long strtol_from
printed_long-strtol_from n later lt = rw (lt→ltb n (2 ^ 63) lt) (
    ap (strtol_from 0) (digits_from-append 19 n [] (codes "\r\n" ++ later))
    ∙ digits_from-strtol_from 19 n (codes "\r\n" ++ later) (omega arith))
