-- ===== src/Config/RoundTrip/Values.antt =====
-- A key is read back.
use mathlib.Core.Path.{subst}
use nvhttpd.Base.{
  ℕ, zero, suc, ◌≤◌, ◌<◌, true, false, [], ◌∷◌, Option, ◌++◌, ◌≡◌, sym, ap, ◌∙◌, arith, ◌==◌,
  length, append_assoc, append-nil,
}
use nvhttpd.Base.Chars.{Bytes, is_space}
use nvhttpd.Config.State.{done, M}
use nvhttpd.Config.Io.Means.{Means}
use nvhttpd.Config.Block.{Block, is_key_character, memory_fragment_size, new_block, close_block}
use nvhttpd.Config.Value.{append, key_loop, parse_key}
use nvhttpd.Config.Ends.{chain, return-Means}
use nvhttpd.Config.RoundTrip.{core, All}
use nvhttpd.Config.RoundTrip.Blocks.{
  peeks, eats, on_true, on_false, new_block-Means, close_block-Means, append-Appends,
}

pub key_char_tests :
    (x : ℕ)
    → is_key_character x ≡ true
    → ((x == 0) ≡ false)
      × ((x == b'=') ≡ false)
      × ((x == b';') ≡ false)
      × ((x == b'\n') ≡ false)
      × (is_space x ≡ false)
      × ((x == b'[') ≡ false)
      × ((x == b']') ≡ false)
key_char_tests x h = (
  ground arith,
  ground arith,
  ground arith,
  ground arith,
  ground arith,
  ground arith,
  ground arith,
)

module _ {U : Type 0} (s : Option Bytes) (l : ℕ) (u : U) where
  -- From `p` on the function reads up to `q`, and has a block with this text.
  pub record Collects (m : M U Block) (p q text : Bytes) : Type 0 where
    pub block : Block
    pub means : Means m p (core s l u) (done block) q (core s l u)
    pub text_eq : block.text ≡ text
    pub fits : length block.text ≤ block.total

  pub closed :
      (p text : Bytes) (b : Block)
      → b.text ≡ text
      → Means (close_block b) p (core s l u) (done text) p (core s l u)
  closed p text b e =
      subst (λ t. Means (close_block b) p (core s l u) (done t) p (core s l u)) e
        (close_block-Means s l u p b)

  key_loop-Collects :
      (fuel : ℕ) (b : Block) (k rest : Bytes)
      → length k < fuel
      → All is_key_character k
      → length b.text ≤ b.total
      → Collects (key_loop fuel b) (k ++ b'=' ∷ rest) (b'=' ∷ rest) (b.text ++ k)
  unfolding key_loop
  key_loop-Collects zero b k rest lt key fits = absurd (omega arith)
  key_loop-Collects (suc fuel) b [] rest lt key fits = record {
    block = b;
    means = peeks _ (b'=' ∷ rest) (return-Means b _ _);
    text_eq = sym (append-nil b.text);
    fits = fits;
  }
  key_loop-Collects (suc fuel) b (x ∷ k) rest lt key fits =
      let (t₁, t₂, t₃, t₄, t₅, t₆, t₇) = key_char_tests x key.0 in
      let a = append-Appends s l u (k ++ b'=' ∷ rest) x b fits in
      let c = key_loop-Collects fuel a.block k rest (omega arith) key.1 a.fits in
      record {
        block = c.block;
        means = peeks _ (x ∷ (k ++ b'=' ∷ rest)) (
            on_false _ t₁ (
              on_false _ t₂ (
                on_false _ t₃ (
                  on_false _ t₄ (
                    on_false _ t₅ (
                      on_true _ key.0 (
                        eats _ x (k ++ b'=' ∷ rest) t₁
                          (chain (append x b) _ a.means c.means))))))));
        text_eq = c.text_eq ∙ ap (λ t. t ++ k) a.text_eq ∙ append_assoc b.text (x ∷ []) k;
        fits = c.fits;
      }

  pub parse_key-Means :
      (fuel : ℕ) (k rest : Bytes)
      → length k < fuel
      → All is_key_character k
      → Means (parse_key fuel) (k ++ b'=' ∷ rest) (core s l u) (done k) (b'=' ∷ rest) (core s l u)
  unfolding parse_key
  parse_key-Means fuel k rest lt key =
      let start : Block = record { total = memory_fragment_size; text = [] } in
      let c = key_loop-Collects fuel start k rest lt key (omega arith) in
      chain new_block _ (new_block-Means s l u (k ++ b'=' ∷ rest))
        (chain (key_loop fuel start) _ c.means (closed (b'=' ∷ rest) k c.block c.text_eq))
