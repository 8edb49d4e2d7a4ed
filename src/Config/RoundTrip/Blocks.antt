-- ===== src/Config/RoundTrip/Blocks.antt =====
-- The growing blocks, where every allocation succeeds.
use nvhttpd.Base.{
  ℕ, ◌+◌, ◌≤◌, ◌<◌, Bool, true, false, [], ◌∷◌, Option, ◌++◌, ◌≡◌, refl, ap, arith, ◌==◌,
  if◌then◌else◌, length, length-append, Bool-cases, inl, inr, lt→ltb,
}
use nvhttpd.Base.Chars.{Bytes}
use nvhttpd.Config.State.{Core, Outcome, done, M, ◌>>=◌, next_allocation, allocate}
use nvhttpd.Config.Io.{io_eof, io_peek}
use nvhttpd.Config.Io.Means.{Means, head_of, io_peek-Means}
use nvhttpd.Config.Block.{Block, memory_fragment_size, new_block, make_room, write, close_block}
use nvhttpd.Config.Value.{skip, append}
use nvhttpd.Config.Ends.{chain, return-Means, skip-Means}
use nvhttpd.Config.RoundTrip.{core}

module _ {U : Type 0} where
  -- The rules that Config.Ends has for the end of a function, for its outcome.
  pub peeks :
      {A : Type 0} (f : ℕ → M U A) (p : Bytes) {q : Bytes} {c d : Core U} {o : Outcome A}
      → Means (f (head_of p)) p c o q d
      → Means (io_peek >>= f) p c o q d
  peeks f p {q} {c} m = chain io_peek f (io_peek-Means p c) m

  pub eats :
      {A : Type 0} (f : Unit {0} → M U A) (x : ℕ) (xs : Bytes) {q : Bytes} {c d : Core U}
      {o : Outcome A}
      → x == io_eof ≡ false
      → Means (f tt) xs c o q d
      → Means (skip >>= f) (x ∷ xs) c o q d
  eats f x xs {q} {c} char m = chain skip f (skip-Means x xs c char) m

  pub on_true :
      {A : Type 0} {b : Bool} {x : M U A} (y : M U A) {p q : Bytes} {c d : Core U} {o : Outcome A}
      → b ≡ true
      → Means x p c o q d
      → Means (if b then x else y) p c o q d
  on_true y e m = rw e m

  pub on_false :
      {A : Type 0} {b : Bool} (x : M U A) {y : M U A} {p q : Bytes} {c d : Core U} {o : Outcome A}
      → b ≡ false
      → Means y p c o q d
      → Means (if b then x else y) p c o q d
  on_false x e m = rw e m

  module _ (s : Option Bytes) (l : ℕ) (u : U) (p : Bytes) where
    pub allocate-Means : Means allocate p (core s l u) (done tt) p (core s l u)
    unfolding allocate next_allocation
    allocate-Means = record { from = λ r h. (r, refl, h) }

    pub new_block-Means :
        Means new_block p
          (core s l u)
          (done (record { total = memory_fragment_size; text = [] }))
          p
          (core s l u)
    unfolding new_block
    new_block-Means = chain allocate _ allocate-Means (return-Means _ p (core s l u))

    -- Room for one more char.
    pub record Grows (b : Block) : Type 0 where
      pub block : Block
      pub means : Means (make_room b) p (core s l u) (done block) p (core s l u)
      pub text_eq : block.text ≡ b.text
      pub fits : length b.text < block.total

    pub make_room-Grows : (b : Block) → length b.text ≤ b.total → Grows b
    unfolding make_room
    make_room-Grows b fits = elim (Bool-cases (length b.text == b.total)) [
      | inl full ↦ record {
        block = record b { total = b.total + memory_fragment_size };
        means = on_true _ full (chain allocate _ allocate-Means (return-Means _ p (core s l u)));
        text_eq = refl;
        fits = omega (arith, fits);
      }
      | inr room ↦ record {
        block = b;
        means = on_false _ room (return-Means b p (core s l u));
        text_eq = refl;
        fits = ground arith;
      }
    ]

    pub write-Means :
        (ch : ℕ) (b : Block)
        → length b.text < b.total
        → Means
            (write ch b)
            p
            (core s l u)
            (done (record b { text = b.text ++ ch ∷ [] }))
            p
            (core s l u)
    unfolding write
    write-Means ch b fits =
        on_true _ (lt→ltb (length b.text) b.total fits) (return-Means _ p (core s l u))

    pub close_block-Means :
        (b : Block) → Means (close_block b) p (core s l u) (done b.text) p (core s l u)
    unfolding close_block
    close_block-Means b = elim (Bool-cases (length b.text == b.total)) [
      | inl full ↦ on_true _ full (chain allocate _ allocate-Means (return-Means _ p (core s l u)))
      | inr room ↦ on_false _ room (return-Means _ p (core s l u))
    ]

    -- `append`, where the block is not over-full.
    pub record Appends (ch : ℕ) (b : Block) : Type 0 where
      pub block : Block
      pub means : Means (append ch b) p (core s l u) (done block) p (core s l u)
      pub text_eq : block.text ≡ b.text ++ ch ∷ []
      pub fits : length block.text ≤ block.total

    pub append-Appends : (ch : ℕ) (b : Block) → length b.text ≤ b.total → Appends ch b
    unfolding append
    append-Appends ch b fits =
        let g = make_room-Grows b fits in
        record {
          block = record g.block { text = g.block.text ++ ch ∷ [] };
          means =
              chain (make_room b) (write ch) g.means
                (write-Means ch g.block (omega (arith, g.fits, ap length g.text_eq)));
          text_eq = ap (λ t. t ++ ch ∷ []) g.text_eq;
          fits = omega (arith, length-append g.block.text (ch ∷ []), g.fits, ap length g.text_eq);
        }
