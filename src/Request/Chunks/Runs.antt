-- ===== src/Request/Chunks/Runs.antt =====
-- What every function of the parser has in common, as one judgement with a rule for each way to put
-- such functions together.
use nvhttpd.Base.{
  ℕ, suc, ◌≤◌, ◌<◌, Bool, true, false, List, ◌≡◌, ◌≢◌, refl, sym, ap, ◌∙◌, arith, if◌then◌else◌,
  length,
}
use mathlib.Core.Path.{subst}
use nvhttpd.Request.State.{
  Request, ParseError, Outcome, done, fail, crash, out_of_fuel, M, return, stop, go_on, ◌>>=◌,
  modify, translate, on_fail,
}
use nvhttpd.Request.Io.Stream.{IsOpen, pending, strip}

-- Two requests that differ in their readers alone, with the same bytes to come.
pub record Same (r s : Request) : Type 0 where
  pub open_left : IsOpen r
  pub open_right : IsOpen s
  pub pending_eq : pending r ≡ pending s
  pub strip_eq : strip r ≡ strip s

pub Same-self : (r : Request) → IsOpen r → Same r r
Same-self r o = record { open_left = o; open_right = o; pending_eq = refl; strip_eq = refl }

-- Two ends that agree, with at most `n` bytes still to come, and `v` in view.
pub record Agrees {V A : Type 0} (view : Request → V) (n : ℕ) (v : V) (x y : Outcome A × Request)
    : Type 0 where
  pub outcome : x.0 ≡ y.0
  pub same : Same x.1 y.1
  pub shrinks : length (pending x.1) ≤ n
  pub fuelled : x.0 ≢ out_of_fuel
  pub kept : view x.1 ≡ v

-- With fewer than `k` bytes to come, the runs from two such requests agree, no fuel runs out, and
-- `view` of the request stays as it is.
pub record Runs {V A : Type 0} (view : Request → V) (k : ℕ) (m : M A) : Type 0 where
  pub agree :
      (r s : Request)
      → Same r s
      → length (pending r) < k
      → Agrees view (length (pending r)) (view r) (m r) (m s)

-- A view that neither the reader nor the allocator changes.
pub record IsView {V : Type 0} (view : Request → V) : Type 0 where
  pub of_strip : (r : Request) → view r ≡ view (strip r)
  pub of_allocations : (r : Request) (l : List Bool) → view (record r { allocations = l }) ≡ view r

-- A function that reads at least one byte where it succeeds.
pub record Eats {V A : Type 0} (view : Request → V) (k : ℕ) (m : M A) : Type 0 where
  pub run : Runs view (suc k) m
  pub eats :
      (r : Request) (a : A)
      → IsOpen r
      → length (pending r) < suc k
      → (m r).0 ≡ done a
      → length (pending (m r).1) < length (pending r)

translate_fuelled :
    {A : Type 0} (g : ParseError → ParseError) (o : Outcome A)
    → o ≢ out_of_fuel
    → translate g o ≢ out_of_fuel
unfolding translate
translate_fuelled g (done a) p = λ h. cc
translate_fuelled g (fail e) p = λ h. cc
translate_fuelled g crash p = λ h. cc
translate_fuelled g out_of_fuel p = absurd (p refl)

-- `P` is what the first part guarantees of its value.
module _ {V A B : Type 0} {view : Request → V} {k : ℕ} {P : A → Type 0} {f : A → M B}
    (rest : (a : A) → P a → Runs view k (f a)) where
  go_on-Same :
      (n : ℕ) (v : V) (o : Outcome A) (r s : Request)
      → ((a : A) → o ≡ done a → P a × (length (pending r) < k))
      → Same r s
      → length (pending r) ≤ n
      → o ≢ out_of_fuel
      → view r ≡ v
      → Agrees view n v (go_on (o, r) f) (go_on (o, s) f)
  unfolding go_on
  go_on-Same n v (done a) r s less eq short p kept =
      let end = (rest a (less a refl).0).agree r s eq (less a refl).1 in
      record {
        outcome = end.outcome;
        same = end.same;
        shrinks = omega (arith, end.shrinks);
        fuelled = end.fuelled;
        kept = end.kept ∙ kept;
      }
  go_on-Same n v (fail e) r s less eq short p kept = record {
    outcome = refl;
    same = eq;
    shrinks = short;
    fuelled = λ h. cc;
    kept = kept;
  }
  go_on-Same n v crash r s less eq short p kept = record {
    outcome = refl;
    same = eq;
    shrinks = short;
    fuelled = λ h. cc;
    kept = kept;
  }
  go_on-Same n v out_of_fuel r s less eq short p kept = absurd (p refl)

  go_on-Agrees :
      (n : ℕ) (v : V) (x y : Outcome A × Request)
      → ((a : A) → x.0 ≡ done a → P a × (length (pending x.1) < k))
      → Agrees view n v x y
      → Agrees view n v (go_on x f) (go_on y f)
  go_on-Agrees n v (o, r) (o', s) less e =
      subst (λ z. Agrees view n v (go_on (o, r) f) (go_on (z, s) f)) e.outcome
        (go_on-Same n v o r s less e.same e.shrinks e.fuelled e.kept)

  pub bind_where :
      {m : M A}
      → ((r : Request) (a : A) → (m r).0 ≡ done a → P a)
      → Runs view k m
      → Runs view k (m >>= f)
  unfolding ◌>>=◌
  bind_where {m} gives first = record {
    agree = λ r s eq less.
        let mid = first.agree r s eq less in
        go_on-Agrees (length (pending r)) (view r) (m r) (m s)
          (λ a h. (gives r a h, omega (arith, mid.shrinks))) mid;
  }

  go_on_eats :
      (n : ℕ) (o : Outcome A) (r : Request) (b : B)
      → ((a : A) → o ≡ done a → P a × (length (pending r) < n) × (length (pending r) < k))
      → IsOpen r
      → (go_on (o, r) f).0 ≡ done b
      → length (pending (go_on (o, r) f).1) < n
  unfolding go_on
  go_on_eats n (done a) r b less open' h =
      let (p, fewer, enough) = less a refl in
      let end = (rest a p).agree r r (Same-self r open') enough in omega (arith, end.shrinks, fewer)
  go_on_eats n (fail e) r b less open' h = cc
  go_on_eats n crash r b less open' h = cc
  go_on_eats n out_of_fuel r b less open' h = cc

  bind-Eats_where : {m : M A} → ((a : A) → P a) → Eats view k m → Eats view k (m >>= f)
  unfolding ◌>>=◌
  bind-Eats_where {m} gives first = record {
    run = record {
      agree = λ r s eq less.
          let mid = first.run.agree r s eq less in
          go_on-Agrees (length (pending r)) (view r) (m r) (m s)
            (λ a h. (gives a, omega (arith, first.eats r a eq.open_left less h))) mid;
    };
    eats = λ r b open' less h.
        let mid = first.run.agree r r (Same-self r open') less in
        go_on_eats (length (pending r)) (m r).0 (m r).1 b
          (λ a e. let fewer = first.eats r a open' less e in (gives a, fewer, omega arith))
          mid.same.open_left h;
  }

module _ {V A B : Type 0} {view : Request → V} {k : ℕ} {f : A → M B}
    (rest : (a : A) → Runs view k (f a)) where
  pub bind : {m : M A} → Runs view k m → Runs view k (m >>= f)
  bind = bind_where {P = λ _. Unit} (λ a u. rest a) (λ r a h. tt)

  -- Behind a function that reads, the rest has fewer bytes to come.
  pub bind-Eats : {m : M A} → Eats view k m → Eats view k (m >>= f)
  bind-Eats = bind-Eats_where {P = λ _. Unit} (λ a u. rest a) (λ a. tt)

module _ {V A : Type 0} {view : Request → V} {k : ℕ} where
  pub return-Runs : (a : A) → Runs view k (return a)
  unfolding return
  return-Runs a = record {
    agree = λ r s eq less. record {
      outcome = refl;
      same = eq;
      shrinks = omega arith;
      fuelled = λ h. cc;
      kept = refl;
    };
  }

  stop-Runs : (o : Outcome A) → o ≢ out_of_fuel → Runs view k (stop o)
  unfolding stop
  stop-Runs o p = record {
    agree = λ r s eq less. record {
      outcome = refl;
      same = eq;
      shrinks = omega arith;
      fuelled = p;
      kept = refl;
    };
  }

  pub fail-Runs : (e : ParseError) → Runs view k (stop {A = A} (fail e))
  fail-Runs e = stop-Runs (fail e) (λ h. cc)

  pub crash-Runs : Runs view k (stop {A = A} crash)
  crash-Runs = stop-Runs crash (λ h. cc)

  pub branch :
      (b : Bool) {m n : M A} → Runs view k m → Runs view k n → Runs view k (if b then m else n)
  branch true p q = p
  branch false p q = q

  -- A smaller bound asks for less.
  pub weaken : {j : ℕ} {m : M A} → Runs view k m → j ≤ k → Runs view j m
  weaken p h = record { agree = λ r s eq less. p.agree r s eq (omega arith) }

  pub on_fail-Runs :
      (g : ParseError → ParseError) {m : M A} → Runs view k m → Runs view k (on_fail m g)
  unfolding on_fail
  on_fail-Runs g {m} p = record {
    agree = λ r s eq less.
        let end = p.agree r s eq less in
        record {
          outcome = ap (translate g) end.outcome;
          same = end.same;
          shrinks = end.shrinks;
          fuelled = translate_fuelled g (m r).0 end.fuelled;
          kept = end.kept;
        };
  }

-- The parse of `q` under the reader of `r`.
unfoldable pub with_reader : Request → Request → Request
with_reader r q = record q {
  client = r.client;
  buffer = r.buffer;
  buffer_len = r.buffer_len;
  buffer_index = r.buffer_index;
}

-- An update of the parse that neither reads nor changes the reader.
abbrev pub IsUpdate : (Request → Request) → Type 0
IsUpdate f = (r : Request) → f r ≡ with_reader r (f (strip r))

module _ {f : Request → Request} (u : IsUpdate f) where
  update-IsOpen : (r : Request) → IsOpen r → IsOpen (f r)
  unfolding with_reader
  update-IsOpen r o = rw (u r) (record { block = o.block; filled = o.filled; arrives = o.arrives })

  pub update-pending : (r : Request) → pending (f r) ≡ pending r
  unfolding pending with_reader
  update-pending r = ap pending (u r)

  strip_update : (r : Request) → strip (f r) ≡ strip (f (strip r))
  unfolding strip with_reader
  strip_update r = ap strip (u r)

  pub update-Same : {r s : Request} → Same r s → Same (f r) (f s)
  update-Same {r} {s} e = record {
    open_left = update-IsOpen r e.open_left;
    open_right = update-IsOpen s e.open_right;
    pending_eq = update-pending r ∙ e.pending_eq ∙ sym (update-pending s);
    strip_eq = strip_update r ∙ ap (λ q. strip (f q)) e.strip_eq ∙ sym (strip_update s);
  }

  pub modify-Runs :
      {V : Type 0} {view : Request → V} {k : ℕ}
      → ((r : Request) → view (f r) ≡ view r)
      → Runs view k (modify f)
  unfolding modify
  modify-Runs keeps = record {
    agree = λ r s eq less. record {
      outcome = refl;
      same = update-Same eq;
      shrinks = omega (arith, ap length (update-pending r));
      fuelled = λ h. cc;
      kept = keeps r;
    };
  }

-- A function that looks at the parse before it goes on.
pub test-Runs :
    {V A : Type 0} {view : Request → V} {k : ℕ} (test : Request → Bool) {m n : M A}
    → ((r : Request) → test r ≡ test (strip r))
    → Runs view k m
    → Runs view k n
    → Runs view k (λ r. (if test r then m else n) r)
test-Runs test {m} {n} t p q = record {
  agree = λ r s eq less.
      let e : test s ≡ test r = t s ∙ ap test (sym eq.strip_eq) ∙ sym (t r) in
      rw e ((branch (test r) p q).agree r s eq less);
}
