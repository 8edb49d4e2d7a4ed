-- ===== src/Config/RoundTrip/Sections.antt =====
-- The name of a section is read back.
use mathlib.Core.Path.{subst}
use nvhttpd.Base.{
  ℕ, zero, suc, ◌+◌, ◌<◌, true, false, ◌||◌, [], ◌∷◌, Option, some, ◌++◌, ◌≡◌, refl, sym, arith,
  ◌==◌, length, length-append, append_assoc, append-nil,
}
use nvhttpd.Base.Chars.{Bytes, is_space}
use nvhttpd.Config.State.{done, set_section}
use nvhttpd.Config.Io.Means.{Means}
use nvhttpd.Config.Block.{
  Block, is_key_character, memory_fragment_size, new_block, make_room, write,
}
use nvhttpd.Config.Value.{append}
use nvhttpd.Config.Section.{section_loop, close_section, parse_section}
use nvhttpd.Config.Ends.{chain, return-Means}
use nvhttpd.Config.RoundTrip.{All, is_name_character, core}
use nvhttpd.Config.RoundTrip.Blocks.{peeks, eats, on_true, on_false, new_block-Means, write-Means}

name_char_tests :
    (x : ℕ)
    → is_name_character x ≡ true
    → ((x == 0) ≡ false)
      × ((x == b']') ≡ false)
      × ((x == b';') ≡ false)
      × ((x == b'\n') ≡ false)
      × ((is_key_character x || is_space x) ≡ true)
name_char_tests x h = (ground arith, ground arith, ground arith, ground arith, ground arith)

module _ {U : Type 0} where
  -- A block with room for another char is not made larger.
  append-Means :
      (s : Option Bytes) (l : ℕ) (u : U) (p : Bytes) (x : ℕ) (b : Block)
      → length b.text < b.total
      → Means
          (append x b)
          p
          (core s l u)
          (done (record b { text = b.text ++ x ∷ [] }))
          p
          (core s l u)
  unfolding append make_room
  append-Means s l u p x b fits =
      let room : length b.text == b.total ≡ false = ground arith in
      chain (make_room b) (write x) (on_false _ room (return-Means b p (core s l u)))
        (write-Means s l u p x b fits)

  section_loop-Means :
      (s : Option Bytes) (l : ℕ) (u : U) (fuel : ℕ) (b : Block) (name rest : Bytes)
      → length name < fuel
      → All is_name_character name
      → length b.text + length name < b.total
      → Means
          (section_loop fuel b)
          (name ++ b']' ∷ rest)
          (core s l u)
          (done (record b { text = b.text ++ name }))
          rest
          (core s l u)
  unfolding section_loop
  section_loop-Means s l u zero b name rest lt chars fits = absurd (omega arith)
  section_loop-Means s l u (suc fuel) b [] rest lt chars fits =
      subst
        (λ t.
          Means (section_loop (suc fuel) b) (b']' ∷ rest) (core s l u)
            (done (record b { text = t })) rest (core s l u))
        (sym (append-nil b.text))
        (peeks _ (b']' ∷ rest) (eats _ b']' rest refl (return-Means b rest (core s l u))))
  section_loop-Means s l u (suc fuel) b (x ∷ name) rest lt chars fits =
      let (t₁, t₂, t₃, t₄, t₅) = name_char_tests x chars.0 in
      let b' : Block = record b { text = b.text ++ x ∷ [] } in
      let p = name ++ b']' ∷ rest in
      let later =
        section_loop-Means s l u fuel b' name rest (omega arith) chars.1
          (omega (arith, length-append b.text (x ∷ []))) in
      peeks _ (x ∷ p) (
        on_false _ t₁ (
          on_false _ t₂ (
            on_false _ t₃ (
              on_false _ t₄ (
                on_true _ t₅ (
                  chain (append x b) _ (append-Means s l u (x ∷ p) x b (omega arith)) (
                    eats _ x p t₁ (
                      subst
                        (λ t.
                          Means (section_loop fuel b') p (core s l u) (done (record b { text = t }))
                            rest (core s l u))
                        (append_assoc b.text (x ∷ []) name) later))))))))

  pub parse_section-Means :
      (s : Option Bytes) (l : ℕ) (u : U) (fuel : ℕ) (name rest : Bytes)
      → length name < fuel
      → All is_name_character name
      → length name < memory_fragment_size
      → Means
          (parse_section fuel)
          (name ++ b']' ∷ rest)
          (core s l u)
          (done tt)
          rest
          (core (some name) l u)
  unfolding parse_section close_section set_section
  parse_section-Means s l u fuel name rest lt chars fits =
      let start : Block = record { total = memory_fragment_size; text = [] } in
      let room : length name == memory_fragment_size ≡ false = ground arith in
      chain new_block _ (new_block-Means s l u (name ++ b']' ∷ rest)) (
        chain (section_loop fuel start) _
          (section_loop-Means s l u fuel start name rest lt chars (omega arith))
          (on_false _ room (record { from = λ r h. (r, refl, h) })))
