-- ===== src/Request/Chunks/Reader.antt =====
-- The judgement of `Runs` for the functions that read.
use nvhttpd.Base.{
  ℕ, zero, suc, ◌≤◌, ◌<◌, Bool, true, [], ◌∷◌, inl, inr, ◌≡◌, refl, sym, ap, ◌∙◌, arith, Bool-cases,
  ◌==◌, if◌then◌else◌, length, drop, length-drop,
}
use mathlib.Core.Path.{subst}
use nvhttpd.Base.Chars.{Bytes, ℤ, pos, negsuc}
use nvhttpd.Request.State.{
  Request, ParseError, Outcome, done, fail, io_error, M, return, stop, go_on, ◌>>=◌,
}
use nvhttpd.Request.Io.{
  io_eof, read_char, io_next, io_peek, or_io_error, next_char, peek_char, expect, ends_ws, skip_ws,
}
use nvhttpd.Request.Io.Stream.{pending, strip, Reads, stream_head, read_char-Reads}
use nvhttpd.Request.Chunks.Runs.{
  Same, Agrees, Runs, Eats, IsView, bind, bind-Eats, return-Runs, fail-Runs, branch, weaken,
}

view_kept :
    {V : Type 0} {view : Request → V} {q r : Request}
    → IsView view
    → strip q ≡ strip r
    → view q ≡ view r
view_kept {view = view} {q = q} {r = r} w e = w.of_strip q ∙ ap view e ∙ sym (w.of_strip r)

-- One call of the reader on each side.
module _ (step : ℕ) (r s : Request) (small : step ≤ 1) (eq : Same r s) where
  left : Reads (read_char step) r (done (stream_head (pending r))) (drop step (pending r))
  left = read_char-Reads step r small eq.open_left

  right : Reads (read_char step) s (done (stream_head (pending s))) (drop step (pending s))
  right = read_char-Reads step s small eq.open_right

  after-Same : Same left.after right.after
  after-Same = record {
    open_left = left.open_after;
    open_right = right.open_after;
    pending_eq = left.pending_after ∙ ap (drop step) eq.pending_eq ∙ sym right.pending_after;
    strip_eq = left.strip_after ∙ eq.strip_eq ∙ sym right.strip_after;
  }

  read_char-Agrees :
      {V : Type 0} {view : Request → V}
      → IsView view
      → Agrees view (length (pending r)) (view r) (read_char step r) (read_char step s)
  read_char-Agrees w =
      rw (left.runs, right.runs)
        (record {
          outcome = ap (λ p. done (stream_head p)) eq.pending_eq;
          same = after-Same;
          shrinks = omega (arith, ap length left.pending_after, length-drop step (pending r));
          fuelled = λ h. cc;
          kept = view_kept w left.strip_after;
        })

module _ {V : Type 0} {view : Request → V} {k : ℕ} where
  pub or_io_error-Runs : (c : ℤ) → Runs view k (or_io_error c)
  unfolding or_io_error
  or_io_error-Runs (pos c) = return-Runs c
  or_io_error-Runs (negsuc n) = fail-Runs io_error

module _ {V : Type 0} {view : Request → V} (w : IsView view) {k : ℕ} where
  pub io_next-Runs : Runs view k io_next
  unfolding io_next
  io_next-Runs = record { agree = λ r s eq less. read_char-Agrees 1 r s (omega arith) eq w }

  pub io_peek-Runs : Runs view k io_peek
  unfolding io_peek
  io_peek-Runs = record { agree = λ r s eq less. read_char-Agrees 0 r s (omega arith) eq w }

  pub peek_char-Runs : Runs view k peek_char
  unfolding peek_char
  peek_char-Runs = bind or_io_error-Runs io_peek-Runs

or_io_error_state : (z : ℤ) (r : Request) → (or_io_error z r).1 ≡ r
unfolding or_io_error return stop
or_io_error_state (pos c) r = refl
or_io_error_state (negsuc n) r = refl

or_io_error_eats :
    (p : Bytes) (q : Request) (a : ℕ)
    → pending q ≡ drop 1 p
    → (or_io_error (stream_head p) q).0 ≡ done a
    → length (pending (or_io_error (stream_head p) q).1) < length p
or_io_error_eats [] q a e h = unfold or_io_error stop in cc
or_io_error_eats (c ∷ cs) q a e h = rw (or_io_error_state (stream_head (c ∷ cs)) q, e) (omega arith)

pub next_char-Eats :
    {V : Type 0} {view : Request → V} → IsView view → {k : ℕ} → Eats view k next_char
unfolding next_char io_next ◌>>=◌
next_char-Eats w = record {
  run = bind or_io_error-Runs (io_next-Runs w);
  eats = λ r a o less.
      let step = read_char-Reads 1 r (omega arith) o in
      rw (step.runs, go_on) (or_io_error_eats (pending r) step.after a step.pending_after);
}

module _ {V A : Type 0} {view : Request → V} {k : ℕ} where
  pub eat : {m : M A} → Eats view k m → Runs view (suc k) m
  eat e = e.run

pub next_char-Runs :
    {V : Type 0} {view : Request → V} → IsView view → {k : ℕ} → Runs view k next_char
next_char-Runs w {k} = weaken (eat {k = k} (next_char-Eats w)) (omega arith)

module _ {V : Type 0} {view : Request → V} (w : IsView view) {k : ℕ} (c : ℕ) (e : ParseError) where
  pub expect-Eats : Eats view k (expect c (fail e))
  unfolding expect
  expect-Eats = bind-Eats (λ ch. branch (ch == c) (return-Runs tt) (fail-Runs e)) (next_char-Eats w)

  pub expect-Runs : Runs view k (expect c (fail e))
  unfolding expect
  expect-Runs = bind (λ ch. branch (ch == c) (return-Runs tt) (fail-Runs e)) (next_char-Runs w)

relabel :
    {V A : Type 0} {view : Request → V} {n n' : ℕ} {v : V} {x y : Outcome A × Request}
    → n ≡ n'
    → Agrees view n v x y
    → Agrees view n' v x y
relabel {view = view} {v = v} {x = x} {y = y} e h = subst (λ n. Agrees view n v x y) e h

review :
    {V A : Type 0} {view : Request → V} {n : ℕ} {v v' : V} {x y : Outcome A × Request}
    → v ≡ v'
    → Agrees view n v x y
    → Agrees view n v' x y
review {view = view} {n = n} {x = x} {y = y} e h = subst (λ v. Agrees view n v x y) e h

module _ {V A : Type 0} {view : Request → V} (w : IsView view) {k : ℕ} (test : ℤ → Bool)
    (ends : test io_eof ≡ true) where
  module _ {m : ℤ → M A} {n : M A} (p : (c : ℤ) → Runs view (suc k) (m c)) (q : Runs view k n) where
    -- The round behind the peek, on the bytes `bs` to come.
    round :
        (r s : Request) (bs : Bytes)
        → Same r s
        → pending r ≡ bs
        → length bs < suc k
        → Agrees view
            (length bs)
            (view r)
            ((if test (stream_head bs) then m (stream_head bs) else io_next >>= λ _. n) r)
            ((if test (stream_head bs) then m (stream_head bs) else io_next >>= λ _. n) s)
    unfolding ◌>>=◌ io_next
    round r s [] eq e less =
        rw ends (relabel (ap length e) ((p io_eof).agree r s eq (omega (arith, ap length e))))
    round r s (b ∷ bs) eq e less = elim (Bool-cases (test (stream_head (b ∷ bs)))) [
      | inl done' ↦ rw done' (
          relabel (ap length e)
            ((p (stream_head (b ∷ bs))).agree r s eq (omega (arith, ap length e))))
      | inr more ↦
          let l = left 1 r s (omega arith) eq in
          let t = right 1 r s (omega arith) eq in
          let short : pending l.after ≡ bs = l.pending_after ∙ ap (drop 1) e in
          let end =
            q.agree l.after t.after (after-Same 1 r s (omega arith) eq)
              (omega (arith, ap length short)) in
          rw (more, l.runs, t.runs, go_on)
            (record {
              outcome = end.outcome;
              same = end.same;
              shrinks = omega (arith, end.shrinks, ap length short);
              fuelled = end.fuelled;
              kept = end.kept ∙ view_kept w l.strip_after;
            })
    ]

    -- A loop that reads what it has seen, unless a test that the end of the input meets stops it.
    pub peek_then_next :
        Runs view (suc k) (io_peek >>= λ c. if test c then m c else io_next >>= λ _. n)
    unfolding ◌>>=◌ io_peek go_on
    peek_then_next = record {
      agree = λ r s eq less.
          let l = left 0 r s (omega arith) eq in
          let t = right 0 r s (omega arith) eq in
          rw (l.runs, t.runs, ← eq.pending_eq)
            (review (view_kept w l.strip_after) (
              round l.after t.after (pending r) (after-Same 0 r s (omega arith) eq) l.pending_after
                less));
    }

module _ {V : Type 0} {view : Request → V} (w : IsView view) where
  pub skip_ws-Runs : (fuel : ℕ) → Runs view fuel (skip_ws fuel)
  unfolding skip_ws
  skip_ws-Runs zero = record { agree = λ r s eq less. absurd (omega arith) }
  skip_ws-Runs (suc fuel) = peek_then_next w ends_ws refl return-Runs (skip_ws-Runs fuel)
