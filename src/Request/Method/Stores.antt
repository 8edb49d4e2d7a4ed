-- ===== src/Request/Method/Stores.antt =====
-- The parts of `get_method` on a word, one after the other.
use nvhttpd.Base.{
  ℕ, ◌<◌, Bool, true, [], ◌∷◌, ◌++◌, ◌≡◌, refl, ap, ◌∙◌, arith, ◌==◌, if◌then◌else◌, ltb, ◌&&◌,
}
use nvhttpd.Base.Chars.{Bytes, codes, is_space}
use nvhttpd.Request.State.{
  Request, RequestMethod, connect, delete, get, head, options, post, put, trace, Outcome, done,
  fail, io_error, bad, M, return, stop, go_on, ◌>>=◌, ◌>>◌, modify,
}
use nvhttpd.Request.Io.{peek_char, expect}
use nvhttpd.Request.Method.{expect_all, set_method}
use nvhttpd.Request.Io.Stream.{IsOpen, pending, strip, Reads}
use nvhttpd.Request.Io.Feed.{chain, return-Reads, peek_char-Reads, expect-Reads}

-- `method_str`
abbrev pub method_str : RequestMethod → Bytes
method_str connect = codes "CONNECT"
method_str delete = codes "DELETE"
method_str get = codes "GET"
method_str head = codes "HEAD"
method_str options = codes "OPTIONS"
method_str post = codes "POST"
method_str put = codes "PUT"
method_str trace = codes "TRACE"

-- How `get_method` ends on each word.
abbrev pub outcome_of : RequestMethod → Outcome (Unit {0})
outcome_of post = fail io_error
outcome_of put = fail io_error
outcome_of _ = done tt

abbrev AllAscii : Bytes → Type 0
AllAscii [] = Unit
AllAscii (c ∷ cs) = (c < 128) × AllAscii cs

unfoldable pub is_ascii : Bytes → Bool
is_ascii [] = true
is_ascii (c ∷ cs) = ltb c 128 && is_ascii cs

pub is_ascii-AllAscii : (cs : Bytes) → is_ascii cs ≡ true → AllAscii cs
unfolding is_ascii
is_ascii-AllAscii [] e = tt
is_ascii-AllAscii (c ∷ cs) e = (ground arith, is_ascii-AllAscii cs (ground arith))

expect_all-Reads :
    (cs : Bytes) (r : Request) (rest : Bytes)
    → AllAscii cs
    → IsOpen r
    → pending r ≡ cs ++ rest
    → Reads (expect_all cs) r (done tt) rest
unfolding expect_all
expect_all-Reads [] r rest a o e = rw (← e) (return-Reads r tt o)
expect_all-Reads (c ∷ cs) r rest a o e =
    let one : Reads (expect c (fail bad)) r (done tt) (cs ++ rest) =
      rw (same c) at (expect-Reads r c (cs ++ rest) o e a.0 c (fail bad)) in
    chain (expect c (fail bad)) _ r one
      (expect_all-Reads cs one.after rest a.1 one.open_after one.pending_after)
  where
    same : (c : ℕ) → c == c ≡ true
    same c = ground arith

-- A run that ends in `o`, with the method `m` stored and `rest` still to come.
pub record Stores (x : Outcome (Unit {0}) × Request) (o : Outcome (Unit {0})) (m : RequestMethod)
    (rest : Bytes) : Type 0 where
  pub outcome : x.0 ≡ o
  pub stored : x.1.method ≡ m
  pub unread : pending x.1 ≡ rest
  pub still_open : IsOpen x.1

module _ (m : RequestMethod) (rest : Bytes) where
  pub letters-Stores :
      (cs : Bytes) (r : Request)
      → AllAscii cs
      → IsOpen r
      → pending r ≡ cs ++ rest
      → Stores ((expect_all cs >>= λ _. set_method m) r) (done tt) m rest
  unfolding ◌>>=◌ set_method modify pending
  letters-Stores cs r a o e =
      let t = expect_all-Reads cs r rest a o e in
      rw (t.runs, go_on)
        (record {
          outcome = refl;
          stored = refl;
          unread = t.pending_after;
          still_open = record {
            block = t.open_after.block;
            filled = t.open_after.filled;
            arrives = t.open_after.arrives;
          };
        })

  pub refused-Stores :
      (cs : Bytes) (r : Request)
      → AllAscii cs
      → IsOpen r
      → pending r ≡ cs ++ rest
      → Stores ((expect_all cs >> set_method m >> stop (fail io_error)) r) (fail io_error) m rest
  unfolding ◌>>=◌ set_method modify pending stop
  refused-Stores cs r a o e =
      let t = expect_all-Reads cs r rest a o e in
      rw (t.runs, go_on)
        (record {
          outcome = refl;
          stored = refl;
          unread = t.pending_after;
          still_open = record {
            block = t.open_after.block;
            filled = t.open_after.filled;
            arrives = t.open_after.arrives;
          };
        })

-- The blank behind the word.
unfoldable pub blank_test : ℕ → M (Unit {0})
blank_test ch = if is_space ch then return tt else stop (fail bad)

strip-method : (a b : Request) → strip a ≡ strip b → a.method ≡ b.method
strip-method a b e = unfold strip in ap (λ x. x.method) e

pub blank-Stores :
    (q : Request) (m : RequestMethod) (c : ℕ) (rest : Bytes)
    → Stores (done tt, q) (done tt) m (c ∷ rest)
    → is_space c ≡ true
    → Stores ((peek_char >>= blank_test) q) (done tt) m (c ∷ rest)
unfolding ◌>>=◌ blank_test return
blank-Stores q m c rest s blank =
    let p = peek_char-Reads q c rest s.still_open s.unread (space-ascii c blank) in
    rw (p.runs, go_on, blank)
      (record {
        outcome = refl;
        stored = strip-method p.after q p.strip_after ∙ s.stored;
        unread = p.pending_after;
        still_open = p.open_after;
      })
  where
    space-ascii : (c : ℕ) → is_space c ≡ true → c < 128
    space-ascii c e = ground arith
