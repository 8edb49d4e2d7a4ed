-- ===== src/Config/Ends.antt =====
-- The parser of config.c ends: a judgement on its parts, with a rule for each construct.
pub mod Still
pub mod Values
pub mod File
use nvhttpd.Base.{
  ℕ, suc, ◌≤◌, ◌<◌, Bool, true, false, [], ◌∷◌, ◌≡◌, ◌≢◌, refl, sym, ap, ◌∙◌, arith, ◌==◌,
  if◌then◌else◌, length, Bool-cases, ==_iff, inl, inr,
}
use nvhttpd.Base.Chars.{Bytes}
use nvhttpd.Config.State.{
  ConfigError, Reader, Core, Outcome, done, fail, crash, out_of_fuel, no_memory, M, return, stop,
  go_on, ◌>>=◌, next_line, set_section, allocate, next_allocation, call_handler, Handler,
}
use nvhttpd.Config.Io.{io_eof, io_peek, io_next}
use nvhttpd.Config.Io.Means.{Holds, Means, head_of, io_peek-Means, io_next-Means, io_next_end-Means}
use nvhttpd.Config.Value.{skip}

module _ {U : Type 0} where
  pub stop-Means : {A : Type 0} (o : Outcome A) (p : Bytes) (c : Core U) → Means (stop o) p c o p c
  unfolding stop
  stop-Means o p c = record { from = λ r h. (r, refl, h) }

  pub return-Means :
      {A : Type 0} (a : A) (p : Bytes) (c : Core U) → Means (return a) p c (done a) p c
  unfolding return
  return-Means a p c = record { from = λ r h. (r, refl, h) }

  pub chain :
      {A B : Type 0} (m : M U A) (f : A → M U B) {p q s : Bytes} {c d e : Core U} {a : A}
      {o : Outcome B}
      → Means m p c (done a) q d
      → Means (f a) q d o s e
      → Means (m >>= f) p c o s e
  unfolding ◌>>=◌
  chain m f first then' = record {
    from = λ r h.
        let (r₁, run₁, h₁) = first.from r h in
        let (r₂, run₂, h₂) = then'.from r₁ h₁ in (r₂, rw (run₁, go_on) run₂, h₂);
  }

  pub skip-Means :
      (b : ℕ) (bs : Bytes) (c : Core U) → b == io_eof ≡ false → Means skip (b ∷ bs) c (done tt) bs c
  unfolding skip
  skip-Means b bs c char = chain io_next _ (io_next-Means b bs c char) (return-Means tt bs c)

-- The function ends, no fuel runs out, and where it has a value at most `n` bytes are to come.
pub record Ends {U A : Type 0} (m : M U A) (p : Bytes) (c : Core U) (n : ℕ) : Type 0 where
  pub out : Outcome A
  pub rest : Bytes
  pub after : Core U
  pub means : Means m p c out rest after
  pub short : (a : A) → out ≡ done a → length rest ≤ n
  pub fuelled : out ≢ out_of_fuel

module _ {U : Type 0} where
  pub return-Ends :
      {A : Type 0} (a : A) (p : Bytes) (c : Core U) {n : ℕ} → length p ≤ n → Ends (return a) p c n
  return-Ends a p c short = record {
    out = done a;
    rest = p;
    after = c;
    means = return-Means a p c;
    short = λ a h. short;
    fuelled = λ h. cc;
  }

  pub stopped-Means :
      {A B : Type 0} (m : M U A) (f : A → M U B) {p q : Bytes} {c d : Core U} (o : Outcome A)
      (o' : Outcome B)
      → ((r : Reader) → go_on (o, r, d) f ≡ (o', r, d))
      → Means m p c o q d
      → Means (m >>= f) p c o' q d
  unfolding ◌>>=◌
  stopped-Means m f o o' over first = record {
    from = λ r h. let (r₁, run₁, h₁) = first.from r h in (r₁, rw run₁ (over r₁), h₁);
  }

  pub bind :
      {A B : Type 0} {m : M U A} {f : A → M U B} {p : Bytes} {c : Core U} {k n : ℕ}
      → Ends m p c k
      → ((a : A) (q : Bytes) (d : Core U) → length q ≤ k → Ends (f a) q d n)
      → Ends (m >>= f) p c n
  unfolding go_on
  bind {A} {B} {m} {f} {p} {c} {k} {n} e later = go e.out e.means e.short e.fuelled
    where
      go :
          (o : Outcome A)
          → Means m p c o e.rest e.after
          → ((a : A) → o ≡ done a → length e.rest ≤ k)
          → o ≢ out_of_fuel
          → Ends (m >>= f) p c n
      go (done a) first less ok =
          let l = later a e.rest e.after (less a refl) in
          record {
            out = l.out;
            rest = l.rest;
            after = l.after;
            means = chain m f first l.means;
            short = l.short;
            fuelled = l.fuelled;
          }
      go (fail x) first less ok = record {
        out = fail x;
        rest = e.rest;
        after = e.after;
        means = stopped-Means m f (fail x) (fail x) (λ r. refl) first;
        short = λ b h. cc;
        fuelled = λ h. cc;
      }
      go crash first less ok = record {
        out = crash;
        rest = e.rest;
        after = e.after;
        means = stopped-Means m f crash crash (λ r. refl) first;
        short = λ b h. cc;
        fuelled = λ h. cc;
      }
      go out_of_fuel first less ok = absurd (ok refl)

  pub branch :
      {A : Type 0} (b : Bool) {x y : M U A} {p : Bytes} {c : Core U} {n : ℕ}
      → (b ≡ true → Ends x p c n)
      → (b ≡ false → Ends y p c n)
      → Ends (if b then x else y) p c n
  branch true yes' no' = yes' refl
  branch false yes' no' = no' refl

  pub peek :
      {A : Type 0} (f : ℕ → M U A) (p : Bytes) {c : Core U} {n : ℕ}
      → Ends (f (head_of p)) p c n
      → Ends (io_peek >>= f) p c n
  peek f p {c} e = record {
    out = e.out;
    rest = e.rest;
    after = e.after;
    means = chain io_peek f (io_peek-Means p c) e.means;
    short = e.short;
    fuelled = e.fuelled;
  }

  pub eat :
      {A : Type 0} (f : Unit {0} → M U A) (b : ℕ) (bs : Bytes) {c : Core U} {n : ℕ}
      → b == io_eof ≡ false
      → Ends (f tt) bs c n
      → Ends (skip >>= f) (b ∷ bs) c n
  eat f b bs {c} char e = record {
    out = e.out;
    rest = e.rest;
    after = e.after;
    means = chain skip f (skip-Means b bs c char) e.means;
    short = e.short;
    fuelled = e.fuelled;
  }

  next_line-Means :
      (p : Bytes) (c : Core U) → Means next_line p c (done tt) p (record c { line = suc c.line })
  unfolding next_line
  next_line-Means p c = record { from = λ r h. (r, refl, h) }

  -- `line++`, and what follows.
  pub line_on :
      {A : Type 0} (f : Unit {0} → M U A) (p : Bytes) {c : Core U} {n : ℕ}
      → Ends (f tt) p (record c { line = suc c.line }) n
      → Ends (next_line >>= f) p c n
  line_on f p {c} e = record {
    out = e.out;
    rest = e.rest;
    after = e.after;
    means = chain next_line f (next_line-Means p c) e.means;
    short = e.short;
    fuelled = e.fuelled;
  }

  pub fail-Ends :
      {A : Type 0} (e : ConfigError) (p : Bytes) (c : Core U) {n : ℕ}
      → Ends {A = A} (stop (fail e)) p c n
  fail-Ends e p c = record {
    out = fail e;
    rest = p;
    after = c;
    means = stop-Means (fail e) p c;
    short = λ a h. cc;
    fuelled = λ h. cc;
  }

  pub crash-Ends : {A : Type 0} (p : Bytes) (c : Core U) {n : ℕ} → Ends {A = A} (stop crash) p c n
  crash-Ends p c = record {
    out = crash;
    rest = p;
    after = c;
    means = stop-Means crash p c;
    short = λ a h. cc;
    fuelled = λ h. cc;
  }

  pub skip-Ends :
      (b : ℕ) (bs : Bytes) {c : Core U} {n : ℕ}
      → b == io_eof ≡ false
      → length bs ≤ n
      → Ends skip (b ∷ bs) c n
  skip-Ends b bs {c} char short = record {
    out = done tt;
    rest = bs;
    after = c;
    means = skip-Means b bs c char;
    short = λ a h. short;
    fuelled = λ h. cc;
  }

  -- `io_next()` wherever the reader is.
  pub skip_any-Ends : (p : Bytes) {c : Core U} {n : ℕ} → length p ≤ n → Ends skip p c n
  unfolding skip
  skip_any-Ends p {c} {n} short = go p short
    where
      stays :
          (p : Bytes) → head_of p ≡ io_eof → length p ≤ n → Ends (io_next >>= λ _. return tt) p c n
      stays p last short = record {
        out = done tt;
        rest = p;
        after = c;
        means = chain io_next _ (io_next_end-Means p c last) (return-Means tt p c);
        short = λ a h. short;
        fuelled = λ h. cc;
      }

      go : (p : Bytes) → length p ≤ n → Ends (io_next >>= λ _. return tt) p c n
      go [] short = stays [] refl short
      go (b ∷ bs) short = elim (Bool-cases (b == io_eof)) [
        | inl last ↦ stays (b ∷ bs) ((==_iff _ _).0 last) short
        | inr char ↦ unfold skip in skip-Ends b bs char (omega arith)
      ]
