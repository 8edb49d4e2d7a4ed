-- ===== src/Config/RoundTrip/Quoted.antt =====
-- A quoted value is read back.
use mathlib.Core.Path.{subst}
use nvhttpd.Base.{
  ℕ, zero, suc, ◌≤◌, ◌<◌, false, [], ◌∷◌, Option, ◌++◌, ◌≡◌, refl, sym, ap, ◌∙◌, arith, ◌==◌,
  length, length-append, append_assoc, append-nil, Bool-cases, inl, inr, ==_iff,
}
use nvhttpd.Base.Chars.{Bytes}
use nvhttpd.Config.State.{done, M}
use nvhttpd.Config.Io.Means.{Means}
use nvhttpd.Config.Block.{Block, memory_fragment_size, new_block, make_room, write}
use nvhttpd.Config.Value.{
  escape_char, parse_assignment_operator, delimited_loop, parse_delimited_value, skip_blanks,
  parse_value,
}
use nvhttpd.Config.Ends.{chain, return-Means, skip-Means}
use nvhttpd.Config.RoundTrip.{core, escaped, quoted, NoNul}
use nvhttpd.Config.RoundTrip.Blocks.{
  peeks, eats, on_false, new_block-Means, make_room-Grows, write-Means,
}
use nvhttpd.Config.RoundTrip.Values.{Collects, closed}

module _ {U : Type 0} (s : Option Bytes) (l : ℕ) (u : U) where
  -- A char that stands for itself.
  plain-Collects :
      (fuel x : ℕ) (b : Block) (p q text : Bytes)
      → x == 0 ≡ false
      → x == b'\n' ≡ false
      → x == b'\\' ≡ false
      → x == b'"' ≡ false
      → length b.text ≤ b.total
      → ((b' : Block)
          → b'.text ≡ b.text ++ x ∷ []
          → length b'.text ≤ b'.total
          → Collects s l u (delimited_loop fuel false b') p q text)
      → Collects s l u (delimited_loop (suc fuel) false b) (x ∷ p) q text
  unfolding delimited_loop
  plain-Collects fuel x b p q text t₁ t₂ t₃ t₄ fits later =
      let g = make_room-Grows s l u p b fits in
      let b' : Block = record g.block { text = g.block.text ++ x ∷ [] } in
      let c =
        later b' (ap (λ t. t ++ x ∷ []) g.text_eq)
          (omega (arith, length-append g.block.text (x ∷ []), g.fits, ap length g.text_eq)) in
      record {
        block = c.block;
        means = peeks _ (x ∷ p) (
            on_false _ t₁ (
              on_false _ t₂ (
                eats _ x p t₁ (
                  chain (make_room b) _ g.means (
                    on_false _ t₃ (
                      on_false _ t₄ (
                        chain (write x g.block) _
                          (write-Means s l u p x g.block
                            (omega (arith, g.fits, ap length g.text_eq)))
                          c.means)))))));
        text_eq = c.text_eq;
        fits = c.fits;
      }

  -- A backslash, and the char that it stands before.
  escape-Collects :
      (fuel x : ℕ) (b : Block) (p q text : Bytes)
      → x == 0 ≡ false
      → x == b'\n' ≡ false
      → length b.text ≤ b.total
      → ((b' : Block)
          → b'.text ≡ b.text ++ escape_char x ∷ []
          → length b'.text ≤ b'.total
          → Collects s l u (delimited_loop fuel false b') p q text)
      → Collects s l u (delimited_loop (suc (suc fuel)) false b) (b'\\' ∷ x ∷ p) q text
  unfolding delimited_loop
  escape-Collects fuel x b p q text t₁ t₂ fits later =
      let g = make_room-Grows s l u (x ∷ p) b fits in
      let h = make_room-Grows s l u p g.block (omega (arith, g.fits, ap length g.text_eq)) in
      let b' : Block = record h.block { text = h.block.text ++ escape_char x ∷ [] } in
      let c = later b' (ap (λ t. t ++ escape_char x ∷ []) (h.text_eq ∙ g.text_eq)) (
        omega
          (arith, length-append h.block.text (escape_char x ∷ []), h.fits, ap length h.text_eq)) in
      record {
        block = c.block;
        means = peeks _ (b'\\' ∷ x ∷ p) (
            eats _ b'\\' (x ∷ p) refl (
              chain (make_room b) _ g.means (
                peeks _ (x ∷ p) (
                  on_false _ t₁ (
                    on_false _ t₂ (
                      eats _ x p t₁ (
                        chain (make_room g.block) _ h.means (
                          chain (write (escape_char x) h.block) _
                            (write-Means s l u p (escape_char x) h.block
                              (omega (arith, h.fits, ap length h.text_eq)))
                            c.means))))))));
        text_eq = c.text_eq;
        fits = c.fits;
      }

  -- What reads the rest of a value, from every block.
  abbrev Rest : ℕ → Bytes → Bytes → Type 0
  Rest fuel v rest =
      (b : Block)
      → length b.text ≤ b.total
      → Collects s l u (delimited_loop fuel false b) (quoted v ++ rest) rest (b.text ++ v)

  text-append :
      (m : M U Block) (p q old text : Bytes) (x c : ℕ) (v : Bytes)
      → text ≡ old ++ x ∷ []
      → x ≡ c
      → Collects s l u m p q (text ++ v)
      → Collects s l u m p q (old ++ c ∷ v)
  text-append m p q old text x c v e same =
      subst (Collects s l u m p q)
        (ap (λ t. t ++ v) e ∙ append_assoc old (x ∷ []) v ∙ ap (λ y. old ++ y ∷ v) same)

  special-Collects :
      (fuel c x : ℕ) (b : Block) (v rest : Bytes)
      → escaped c ≡ b'\\' ∷ x ∷ []
      → escape_char x ≡ c
      → x == 0 ≡ false
      → x == b'\n' ≡ false
      → length b.text ≤ b.total
      → Rest fuel v rest
      → Collects s l u
          (delimited_loop (suc (suc fuel)) false b)
          (quoted (c ∷ v) ++ rest)
          rest
          (b.text ++ c ∷ v)
  special-Collects fuel c x b v rest e back t₁ t₂ fits later =
      subst
        (λ z.
          Collects s l u (delimited_loop (suc (suc fuel)) false b) ((z ++ quoted v) ++ rest) rest
            (b.text ++ c ∷ v))
        (sym e)
        (escape-Collects fuel x b (quoted v ++ rest) rest (b.text ++ c ∷ v) t₁ t₂ fits (λ b' te f.
          text-append _ (quoted v ++ rest) rest b.text b'.text (escape_char x) c v te back
            (later b' f)))

  usual-Collects :
      (fuel c : ℕ) (b : Block) (v rest : Bytes)
      → escaped c ≡ c ∷ []
      → c == 0 ≡ false
      → c == b'\n' ≡ false
      → c == b'\\' ≡ false
      → c == b'"' ≡ false
      → length b.text ≤ b.total
      → Rest fuel v rest
      → Collects s l u
          (delimited_loop (suc fuel) false b)
          (quoted (c ∷ v) ++ rest)
          rest
          (b.text ++ c ∷ v)
  usual-Collects fuel c b v rest e t₁ t₂ t₃ t₄ fits later =
      subst
        (λ z.
          Collects s l u (delimited_loop (suc fuel) false b) ((z ++ quoted v) ++ rest) rest
            (b.text ++ c ∷ v))
        (sym e)
        (plain-Collects fuel c b (quoted v ++ rest) rest (b.text ++ c ∷ v) t₁ t₂ t₃ t₄ fits
          (λ b' te f.
            text-append _ (quoted v ++ rest) rest b.text b'.text c c v te refl (later b' f)))

  length-escaped : (c : ℕ) → 0 < length (escaped c)
  length-escaped c = elim (Bool-cases (c == b'"')) [
    | inl quote ↦ rw quote (omega arith)
    | inr no_quote ↦ elim (Bool-cases (c == b'\\')) [
      | inl slash ↦ rw (no_quote, slash) (omega arith)
      | inr no_slash ↦ elim (Bool-cases (c == b'\n')) [
        | inl newline ↦ rw (no_quote, no_slash, newline) (omega arith)
        | inr no_newline ↦ rw (no_quote, no_slash, no_newline) (omega arith)
      ]
    ]
  ]

  length-quoted : (c : ℕ) (v : Bytes) → 0 < length (quoted v)
  length-quoted c [] = omega arith
  length-quoted c (x ∷ v) = omega (arith, length-append (escaped x) (quoted v), length-quoted c v)

  delimited_loop-Collects :
      (fuel : ℕ) (b : Block) (v rest : Bytes)
      → length (quoted v) ≤ fuel
      → NoNul v
      → length b.text ≤ b.total
      → Collects s l u (delimited_loop fuel false b) (quoted v ++ rest) rest (b.text ++ v)
  unfolding delimited_loop escape_char
  delimited_loop-Collects zero b [] rest lt char fits = absurd (omega arith)
  delimited_loop-Collects (suc fuel) b [] rest lt char fits =
      let g = make_room-Grows s l u rest b fits in
      record {
        block = g.block;
        means =
            peeks _ (b'"' ∷ rest)
              (eats _ b'"' rest refl (chain (make_room b) _ g.means (return-Means g.block _ _)));
        text_eq = g.text_eq ∙ sym (append-nil b.text);
        fits = omega (arith, g.fits, ap length g.text_eq);
      }
  delimited_loop-Collects zero b (c ∷ v) rest lt char fits =
      absurd (omega (arith, length-append (escaped c) (quoted v), length-quoted c v))
  delimited_loop-Collects (suc zero) b (c ∷ v) rest lt char fits =
      absurd
        (omega (arith, length-escaped c, length-append (escaped c) (quoted v), length-quoted c v))
  delimited_loop-Collects (suc (suc fuel)) b (c ∷ v) rest lt char fits =
      let whole = length-append (escaped c) (quoted v) in
      elim (Bool-cases (c == b'"')) [
        | inl quote ↦
            let e : escaped c ≡ b'\\' ∷ b'"' ∷ [] = rw quote refl in
            special-Collects fuel c b'"' b v rest e (sym ((==_iff _ _).0 quote)) refl refl fits
              (λ b' f.
                delimited_loop-Collects fuel b' v rest (omega (arith, lt, whole, ap length e))
                  char.1 f)
        | inr no_quote ↦ elim (Bool-cases (c == b'\\')) [
          | inl slash ↦
              let e : escaped c ≡ b'\\' ∷ b'\\' ∷ [] = rw (no_quote, slash) refl in
              special-Collects fuel c b'\\' b v rest e (sym ((==_iff _ _).0 slash)) refl refl fits
                (λ b' f.
                  delimited_loop-Collects fuel b' v rest (omega (arith, lt, whole, ap length e))
                    char.1 f)
          | inr no_slash ↦ elim (Bool-cases (c == b'\n')) [
            | inl newline ↦
                let e : escaped c ≡ b'\\' ∷ b'n' ∷ [] = rw (no_quote, no_slash, newline) refl in
                special-Collects fuel c b'n' b v rest e (sym ((==_iff _ _).0 newline)) refl refl
                  fits
                  (λ b' f.
                    delimited_loop-Collects fuel b' v rest (omega (arith, lt, whole, ap length e))
                      char.1 f)
            | inr no_newline ↦
                let e : escaped c ≡ c ∷ [] = rw (no_quote, no_slash, no_newline) refl in
                let t : c == 0 ≡ false = (let nz = char.0 in ground arith) in
                usual-Collects (suc fuel) c b v rest e t no_newline no_slash no_quote fits (λ b' f.
                  delimited_loop-Collects (suc fuel) b' v rest
                    (omega (arith, lt, whole, ap length e)) char.1 f)
          ]
        ]
      ]

  -- A quoted value, behind the blanks that it has none of.
  pub parse_value-Means :
      (fuel : ℕ) (v rest : Bytes)
      → length (quoted v) ≤ fuel
      → NoNul v
      → Means
          (parse_value (suc fuel))
          (b'"' ∷ (quoted v ++ rest))
          (core s l u)
          (done v)
          rest
          (core s l u)
  unfolding parse_value skip_blanks parse_delimited_value
  parse_value-Means fuel v rest lt char =
      let start : Block = record { total = memory_fragment_size; text = [] } in
      let p = quoted v ++ rest in
      let c = delimited_loop-Collects (suc fuel) start v rest (omega arith) char (omega arith) in
      chain (skip_blanks (suc fuel)) _
        (peeks _ (b'"' ∷ p) (return-Means b'"' (b'"' ∷ p) (core s l u)))
        (eats _ b'"' p refl (
          chain new_block _ (new_block-Means s l u p) (
            chain (delimited_loop (suc fuel) false start) _ c.means
              (closed s l u rest v c.block c.text_eq))))

  pub parse_assignment_operator-Means :
      (fuel : ℕ) (p : Bytes)
      → Means
          (parse_assignment_operator (suc fuel))
          (b'=' ∷ p)
          (core s l u)
          (done tt)
          p
          (core s l u)
  unfolding parse_assignment_operator
  parse_assignment_operator-Means fuel p = peeks _ (b'=' ∷ p) (skip-Means b'=' p (core s l u) refl)
