-- ===== src/Request/Io/Sees.antt =====
-- What a successful read says of the bytes that were to come.
use nvhttpd.Base.{
  ℕ, zero, suc, ◌≤◌, Bool, true, false, [], ◌∷◌, inl, inr, ◌≡◌, refl, sym, ap, ◌∙◌, arith, ◌==◌,
  if◌then◌else◌, drop, Bool-cases, ==_iff,
}
use nvhttpd.Base.Chars.{Bytes, ℤ, pos, negsuc, char_to_int}
use nvhttpd.Request.State.{
  Request, ParseError, Outcome, done, fail, crash, out_of_fuel, M, return, stop, go_on, ◌>>=◌,
}
use nvhttpd.Request.Io.{
  read_char, io_next, io_peek, or_io_error, next_char, peek_char, expect, ends_ws, skip_ws,
}
use nvhttpd.Request.Io.Stream.{IsOpen, pending, strip, stream_head, read_char-Reads}

-- A chain of two that succeeds: the first succeeds, and the chain goes on from there.
pub >>=-eq-done :
    {A B : Type 0} (m : M A) (f : A → M B) (r : Request) {b : B}
    → ((m >>= f) r).0 ≡ done b
    → (a : A) × ((m r).0 ≡ done a) × ((m >>= f) r ≡ f a (m r).1)
unfolding ◌>>=◌ go_on
>>=-eq-done {A} {B} m f r {b} h = go (m r).0 (m r).1 h
  where
    go :
        (o : Outcome A) (q : Request)
        → (go_on (o, q) f).0 ≡ done b
        → (a : A) × (o ≡ done a) × (go_on (o, q) f ≡ f a q)
    go (done a) q e = (a, refl, refl)
    go (fail e') q e = cc
    go crash q e = cc
    go out_of_fuel q e = cc

pub char_to_int-pos : (b c : ℕ) → char_to_int b ≡ pos c → b ≡ c
unfolding char_to_int
char_to_int-pos b c h = ground arith

-- The first of the bytes to come, if it reads as the int `c`.
pub stream_head-pos : (p : Bytes) (c : ℕ) → stream_head p ≡ pos c → (rest : Bytes) × (p ≡ c ∷ rest)
stream_head-pos [] c h = cc
stream_head-pos (b ∷ rest) c h = (rest, ap (λ x. x ∷ rest) (char_to_int-pos b c h))

pub or_io_error-done :
    (z : ℤ) (r : Request) (c : ℕ)
    → (or_io_error z r).0 ≡ done c
    → (z ≡ pos c) × ((or_io_error z r).1 ≡ r)
unfolding or_io_error return stop
or_io_error-done (pos a) r c h = (cc, refl)
or_io_error-done (negsuc n) r c h = cc

-- A char `c` was to come, and `rest` is what comes behind the call.
pub record Sees {A : Type 0} (m : M A) (step : ℕ) (r : Request) (c : ℕ) : Type 0 where
  pub rest : Bytes
  pub came : pending r ≡ c ∷ rest
  pub comes : pending (m r).1 ≡ drop step (c ∷ rest)
  pub open_after : IsOpen (m r).1
  pub strip_after : strip (m r).1 ≡ strip r

checked-Sees :
    (step : ℕ) (r : Request) (c : ℕ)
    → step ≤ 1
    → IsOpen r
    → ((read_char step >>= or_io_error) r).0 ≡ done c
    → Sees (read_char step >>= or_io_error) step r c
checked-Sees step r c small o h =
    let s = read_char-Reads step r small o in
    let e : (read_char step >>= or_io_error) r ≡ or_io_error (stream_head (pending r)) s.after =
      unfold ◌>>=◌ in rw (s.runs, go_on) in
    let (head, stays) =
      or_io_error-done (stream_head (pending r)) s.after c (ap (λ x. x.0) (sym e) ∙ h) in
    let (rest, came) = stream_head-pos (pending r) c head in
    let end : ((read_char step >>= or_io_error) r).1 ≡ s.after = ap (λ x. x.1) e ∙ stays in
    record {
      rest = rest;
      came = came;
      comes = ap pending end ∙ s.pending_after ∙ ap (drop step) came;
      open_after = rw end s.open_after;
      strip_after = ap strip end ∙ s.strip_after;
    }

pub next_char-Sees :
    (r : Request) (c : ℕ) → IsOpen r → (next_char r).0 ≡ done c → Sees next_char 1 r c
unfolding next_char io_next
next_char-Sees r c = checked-Sees 1 r c (omega arith)

pub peek_char-Sees :
    (r : Request) (c : ℕ) → IsOpen r → (peek_char r).0 ≡ done c → Sees peek_char 0 r c
unfolding peek_char io_peek
peek_char-Sees r c = checked-Sees 0 r c (omega arith)

-- A test that stops the run unless it holds.
pub guard-done :
    (b : Bool) (e : ParseError) (q : Request)
    → ((if b then return tt else stop (fail e)) q).0 ≡ done tt
    → (b ≡ true) × (((if b then return tt else stop (fail e)) q).1 ≡ q)
unfolding return stop
guard-done true e q h = (refl, refl)
guard-done false e q h = cc

-- `expect c` succeeds only on `c`.
pub expect-done :
    (c : ℕ) (e : ParseError) (r : Request)
    → IsOpen r
    → (expect c (fail e) r).0 ≡ done tt
    → (rest : Bytes) × (pending r ≡ c ∷ rest)
unfolding expect
expect-done c e r o h =
    let test = λ (ch : ℕ). if ch == c then return tt else stop (fail e) in
    let (ch, read, go) = >>=-eq-done next_char test r h in
    let s = next_char-Sees r ch o read in
    let same = guard-done (ch == c) e (next_char r).1 (ap (λ x. x.0) (sym go) ∙ h) in
    (s.rest, s.came ∙ ap (λ x. x ∷ s.rest) ((==_iff ch c).0 same.0))

-- `skip_ws` leaves the char that it returns to come.
pub skip_ws-stops :
    (fuel : ℕ) (r : Request) (z : ℤ)
    → IsOpen r
    → (skip_ws fuel r).0 ≡ done z
    → z ≡ stream_head (pending (skip_ws fuel r).1)
skip_ws-stops zero r z o h = unfold skip_ws stop in cc
skip_ws-stops (suc fuel) r z o h =
    let p = read_char-Reads 0 r (omega arith) o in
    elim (Bool-cases (ends_ws (stream_head (pending r)))) [
      | inl ends ↦
          let e : skip_ws (suc fuel) r ≡ (done (stream_head (pending r)), p.after) =
            unfold skip_ws ◌>>=◌ io_peek return in rw (p.runs, go_on, ends) in
          let z' : done z ≡ done (stream_head (pending r)) = sym h ∙ ap (λ x. x.0) e in
          rw (ap (λ x. x.1) e, p.pending_after) (cc)
      | inr more ↦
          let n = read_char-Reads 1 p.after (omega arith) p.open_after in
          let e : skip_ws (suc fuel) r ≡ skip_ws fuel n.after =
            unfold skip_ws ◌>>=◌ io_peek io_next in rw (p.runs, go_on, more, n.runs) in
          rw e (skip_ws-stops fuel n.after z n.open_after (ap (λ x. x.0) (sym e) ∙ h))
    ]
