-- ===== src/Config/Ends/Still.antt =====
-- The functions of config.c that read nothing end.
use nvhttpd.Base.{ℕ, ◌≤◌, Bool, true, false, ◌≡◌, ◌≢◌, refl, if◌then◌else◌, length}
use nvhttpd.Base.Chars.{Bytes}
use nvhttpd.Config.State.{
  Reader, Core, Outcome, done, fail, crash, out_of_fuel, no_memory, M, return, stop, go_on, ◌>>=◌,
  set_section, allocate, next_allocation,
}
use nvhttpd.Config.Io.Means.{Means}
use nvhttpd.Config.Ends.{Ends, chain, stopped-Means}

module _ {U : Type 0} where
  -- A function that reads nothing.
  pub record Still {A : Type 0} (m : M U A) (c : Core U) : Type 0 where
    pub out : Outcome A
    pub after : Core U
    pub runs : (r : Reader) → m r c ≡ (out, r, after)
    pub fuelled : out ≢ out_of_fuel

  Still-Means :
      {A : Type 0} {m : M U A} {c : Core U} (s : Still m c) (p : Bytes)
      → Means m p c s.out p s.after
  Still-Means s p = record { from = λ r h. (r, s.runs r, h) }

  pub Still-Ends :
      {A : Type 0} {m : M U A} (p : Bytes) {c : Core U} {n : ℕ}
      → length p ≤ n
      → Still m c
      → Ends m p c n
  Still-Ends p short s = record {
    out = s.out;
    rest = p;
    after = s.after;
    means = Still-Means s p;
    short = λ a h. short;
    fuelled = s.fuelled;
  }

  -- What follows such a function begins where it stood.
  pub still :
      {A B : Type 0} {m : M U A} {f : A → M U B} (p : Bytes) {c : Core U} {n : ℕ}
      → Still m c
      → ((a : A) (d : Core U) → Ends (f a) p d n)
      → Ends (m >>= f) p c n
  unfolding go_on
  still {A} {B} {m} {f} p {c} {n} s later = go s.out (Still-Means s p) s.fuelled
    where
      go : (o : Outcome A) → Means m p c o p s.after → o ≢ out_of_fuel → Ends (m >>= f) p c n
      go (done a) first ok =
          let e = later a s.after in
          record {
            out = e.out;
            rest = e.rest;
            after = e.after;
            means = chain m f first e.means;
            short = e.short;
            fuelled = e.fuelled;
          }
      go (fail x) first ok = record {
        out = fail x;
        rest = p;
        after = s.after;
        means = stopped-Means m f (fail x) (fail x) (λ r. refl) first;
        short = λ b h. cc;
        fuelled = λ h. cc;
      }
      go crash first ok = record {
        out = crash;
        rest = p;
        after = s.after;
        means = stopped-Means m f crash crash (λ r. refl) first;
        short = λ b h. cc;
        fuelled = λ h. cc;
      }
      go out_of_fuel first ok = absurd (ok refl)

  pub return-Still : {A : Type 0} (a : A) (c : Core U) → Still (return a) c
  unfolding return
  return-Still a c = record { out = done a; after = c; runs = λ r. refl; fuelled = λ h. cc }

  pub crash-Still : {A : Type 0} (c : Core U) → Still {A = A} (stop crash) c
  unfolding stop
  crash-Still c = record { out = crash; after = c; runs = λ r. refl; fuelled = λ h. cc }

  pub branch-Still :
      {A : Type 0} (b : Bool) {x y : M U A} {c : Core U}
      → Still x c
      → Still y c
      → Still (if b then x else y) c
  branch-Still true x y = x
  branch-Still false x y = y

  pub bind-Still :
      {A B : Type 0} {m : M U A} {f : A → M U B} {c : Core U}
      → Still m c
      → ((a : A) (d : Core U) → Still (f a) d)
      → Still (m >>= f) c
  unfolding go_on ◌>>=◌
  bind-Still {A} {B} {m} {f} {c} s later = go s.out s.runs s.fuelled
    where
      go :
          (o : Outcome A)
          → ((r : Reader) → m r c ≡ (o, r, s.after))
          → o ≢ out_of_fuel
          → Still (m >>= f) c
      go (done a) runs ok =
          let t = later a s.after in
          record {
            out = t.out;
            after = t.after;
            runs = λ r. rw (runs r) (t.runs r);
            fuelled = t.fuelled;
          }
      go (fail x) runs ok = record {
        out = fail x;
        after = s.after;
        runs = λ r. rw (runs r) refl;
        fuelled = λ h. cc;
      }
      go crash runs ok = record {
        out = crash;
        after = s.after;
        runs = λ r. rw (runs r) refl;
        fuelled = λ h. cc;
      }
      go out_of_fuel runs ok = absurd (ok refl)

  pub set_section-Still : (t : Bytes) (c : Core U) → Still (set_section t) c
  unfolding set_section
  set_section-Still t c = record { out = _; after = _; runs = λ r. refl; fuelled = λ h. cc }

  pub allocate-Still : (c : Core U) → Still allocate c
  unfolding allocate
  allocate-Still c = record {
    out = _;
    after = _;
    runs = λ r. refl;
    fuelled = given (next_allocation c.allocations).0;
  }
    where
      given : (b : Bool) → (if b then done tt else fail no_memory) ≢ out_of_fuel
      given true = λ h. cc
      given false = λ h. cc
