-- ===== src/Request/Io/Feed.antt =====
-- What the reader does when the bytes to come are known.
use nvhttpd.Base.{
  ℕ, ◌≤◌, ◌<◌, Bool, true, false, ◌∷◌, ◌≡◌, refl, ap, ◌∙◌, arith, ◌==◌, if◌then◌else◌, drop,
}
use nvhttpd.Base.Chars.{Bytes, pos, char_to_int}
use nvhttpd.Request.State.{Request, Outcome, done, M, return, stop, go_on, ◌>>=◌}
use nvhttpd.Request.Io.{read_char, io_next, io_peek, or_io_error, next_char, peek_char, expect}
use nvhttpd.Request.Io.Stream.{IsOpen, pending, Reads, stream_head, read_char-Reads}

-- Two steps, one behind the other.
pub chain :
    {A B : Type 0} (m : M A) (f : A → M B) (r : Request) {a : A} {p : Bytes} {o : Outcome B}
    {q : Bytes} (first : Reads m r (done a) p)
    → Reads (f a) first.after o q
    → Reads (m >>= f) r o q
unfolding ◌>>=◌
chain m f r first then' = record {
  after = then'.after;
  runs = rw (first.runs, go_on) then'.runs;
  open_after = then'.open_after;
  pending_after = then'.pending_after;
  strip_after = then'.strip_after ∙ first.strip_after;
}

pub return-Reads :
    {A : Type 0} (r : Request) (a : A) → IsOpen r → Reads (return a) r (done a) (pending r)
unfolding return
return-Reads r a o = record {
  after = r;
  runs = refl;
  open_after = o;
  pending_after = refl;
  strip_after = refl;
}

pub stop-Reads :
    {A : Type 0} (r : Request) (o : Outcome A) → IsOpen r → Reads (stop o) r o (pending r)
unfolding stop
stop-Reads r o open' = record {
  after = r;
  runs = refl;
  open_after = open';
  pending_after = refl;
  strip_after = refl;
}

checked-Reads :
    (step : ℕ) (r : Request) (c : ℕ) (rest : Bytes)
    → step ≤ 1
    → IsOpen r
    → pending r ≡ c ∷ rest
    → c < 128
    → Reads (read_char step >>= or_io_error) r (done c) (drop step (c ∷ rest))
unfolding ◌>>=◌ or_io_error return char_to_int
checked-Reads step r c rest small o e ascii =
    let s = read_char-Reads step r small o in
    let head : stream_head (pending r) ≡ pos c = ap stream_head e ∙ ground arith in
    record {
      after = s.after;
      runs = rw (s.runs, go_on, head);
      open_after = s.open_after;
      pending_after = s.pending_after ∙ ap (drop step) e;
      strip_after = s.strip_after;
    }

module _ (r : Request) (c : ℕ) (rest : Bytes) (o : IsOpen r) (e : pending r ≡ c ∷ rest)
    (ascii : c < 128) where
  pub next_char-Reads : Reads next_char r (done c) rest
  unfolding next_char io_next
  next_char-Reads = checked-Reads 1 r c rest (omega arith) o e ascii

  pub peek_char-Reads : Reads peek_char r (done c) (c ∷ rest)
  unfolding peek_char io_peek
  peek_char-Reads = checked-Reads 0 r c rest (omega arith) o e ascii

  -- The expected char is read; another one stops the parser.
  pub expect-Reads :
      (d : ℕ) (otherwise : Outcome (Unit {0}))
      → Reads (expect d otherwise) r (if c == d then done tt else otherwise) rest
  unfolding expect
  expect-Reads d otherwise =
      let n = next_char-Reads in
      chain next_char _ r n (rw (← n.pending_after) (decide' (c == d) n.after n.open_after))
    where
      decide' :
          (b : Bool) (q : Request)
          → IsOpen q
          → Reads
              (if b then return tt else stop otherwise)
              q
              (if b then done tt else otherwise)
              (pending q)
      decide' true q open' = return-Reads q tt open'
      decide' false q open' = stop-Reads q otherwise open'
