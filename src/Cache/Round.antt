-- ===== src/Cache/Round.antt =====
-- A search for a place in a table with an empty slot ends within one round over it.
use mathlib.Core.Path.{subst}
use nvhttpd.Base.{
  ℕ, zero, suc, ◌+◌, ◌-◌, ◌≤◌, ◌<◌, List, [], ◌∷◌, none, some, ◌≡◌, refl, sym, ap, ◌∙◌, inl, inr,
  arith, length, replicate, get_elem?, Bool-cases, le_or_lt,
}
use nvhttpd.Base.Chars.{Bytes}
use nvhttpd.Cache.{CacheElement, Slot, Result, done, same_text, next_index, set_slot, probe}
use nvhttpd.Cache.Probe.{slot-cases}

-- The slots that hold an element.
abbrev pub filled : List Slot → ℕ
filled [] = 0
filled (none ∷ slots) = filled slots
filled (some e ∷ slots) = suc (filled slots)

empty_slot :
    (slots : List Slot)
    → filled slots < length slots
    → (p : ℕ) × (p < length slots) × (get_elem? slots p ≡ some none)
empty_slot [] lt = absurd (omega arith)
empty_slot (none ∷ slots) lt = (0, omega arith, refl)
empty_slot (some e ∷ slots) lt =
    let (p, less, at) = empty_slot slots (omega arith) in (suc p, omega arith, at)

pub length-set_slot :
    (slots : List Slot) (j : ℕ) (x : Slot) → length (set_slot slots j x) ≡ length slots
unfolding set_slot
length-set_slot [] j x = refl
length-set_slot (y ∷ ys) zero x = refl
length-set_slot (y ∷ ys) (suc j) x = ap suc (length-set_slot ys j x)

pub filled-set_slot :
    (slots : List Slot) (j : ℕ) (e : CacheElement)
    → get_elem? slots j ≡ some none
    → filled (set_slot slots j (some e)) ≡ suc (filled slots)
unfolding set_slot
filled-set_slot [] j e h = absurd cc
filled-set_slot (none ∷ ys) zero e h = refl
filled-set_slot (some d ∷ ys) zero e h = absurd cc
filled-set_slot (none ∷ ys) (suc j) e h = filled-set_slot ys j e h
filled-set_slot (some d ∷ ys) (suc j) e h = ap suc (filled-set_slot ys j e h)

pub filled-replicate : (n : ℕ) → filled (replicate n none) ≡ 0
filled-replicate zero = refl
filled-replicate (suc n) = filled-replicate n

pub get_elem?-none : (slots : List Slot) (i : ℕ) → get_elem? slots i ≡ none → length slots ≤ i
get_elem?-none [] i h = omega arith
get_elem?-none (x ∷ xs) zero h = absurd cc
get_elem?-none (x ∷ xs) (suc i) h = omega (arith, get_elem?-none xs i h)

-- A search that ends at a slot.
abbrev pub IsFound : Result (ℕ × Slot) → Type 0
IsFound r = (x : ℕ × Slot) × (r ≡ done x)

-- The indices go up to the last slot, and on at the first one.
pub record Turns (slots : List Slot) (mask : ℕ) : Type 0 where
  pub up : (i : ℕ) → suc i < length slots → next_index mask i ≡ suc i
  pub around : (i : ℕ) → suc i ≡ length slots → next_index mask i ≡ 0

module _ (slots : List Slot) (mask : ℕ) (path : Bytes) (turns : Turns slots mask) where
  -- One round of the probing.
  probe-IsFound_next :
      (fuel i : ℕ)
      → i < length slots
      → IsFound (probe slots mask path fuel (next_index mask i))
      → IsFound (probe slots mask path (suc fuel) i)
  unfolding probe
  probe-IsFound_next fuel i lt later = elim (slot-cases (get_elem? slots i)) [
    | inl outside ↦ absurd (omega (arith, get_elem?-none slots i outside))
    | inr (inl at) ↦ ((i, none), rw (probe, at) refl)
    | inr (inr (e, at)) ↦ elim (Bool-cases (same_text e.path path)) [
      | inl same ↦ ((i, some e), rw (probe, at, same) refl)
      | inr other ↦ (later.0, rw (probe, at, other) later.1)
    ]
  ]

  ahead-IsFound :
      (d fuel i : ℕ)
      → d < fuel
      → i + d < length slots
      → get_elem? slots (i + d) ≡ some none
      → IsFound (probe slots mask path fuel i)
  unfolding probe
  ahead-IsFound d zero i lt less at = absurd (omega arith)
  ahead-IsFound zero (suc fuel) i lt less at =
      let here : i + 0 ≡ i = omega arith in
      ((i, none), rw (probe, ap (get_elem? slots) (sym here) ∙ at) refl)
  ahead-IsFound (suc d) (suc fuel) i lt less at =
      let there : i + suc d ≡ suc i + d = omega arith in
      probe-IsFound_next fuel i (omega arith) (
        subst (λ j. IsFound (probe slots mask path fuel j)) (sym (turns.up i (omega arith)))
          (ahead-IsFound d fuel (suc i) (omega arith) (omega arith)
            (ap (get_elem? slots) (sym there) ∙ at)))

  around-IsFound :
      (n fuel i p : ℕ)
      → i + suc n ≡ length slots
      → suc n + p < fuel
      → p < length slots
      → get_elem? slots p ≡ some none
      → IsFound (probe slots mask path fuel i)
  around-IsFound n zero i p last lt less at = absurd (omega arith)
  around-IsFound zero (suc fuel) i p last lt less at =
      let there : 0 + p ≡ p = omega arith in
      probe-IsFound_next fuel i (omega arith) (
        subst (λ j. IsFound (probe slots mask path fuel j)) (sym (turns.around i (omega arith)))
          (ahead-IsFound p fuel 0 (omega arith) (omega arith) (ap (get_elem? slots) there ∙ at)))
  around-IsFound (suc n) (suc fuel) i p last lt less at = probe-IsFound_next fuel i (omega arith) (
      subst (λ j. IsFound (probe slots mask path fuel j)) (sym (turns.up i (omega arith)))
        (around-IsFound n fuel (suc i) p (omega arith) (omega arith) less at))

  -- Where a slot is empty, a search comes to its end within one round over the table.
  pub probe-IsFound :
      (fuel i : ℕ)
      → i < length slots
      → length slots < fuel
      → filled slots < length slots
      → IsFound (probe slots mask path fuel i)
  probe-IsFound fuel i lt enough room =
      let (p, less, at) = empty_slot slots room in
      elim (le_or_lt i p) [
        | inl before ↦
            let there : i + (p - i) ≡ p = omega arith in
            ahead-IsFound (p - i) fuel i (omega arith) (omega arith)
              (ap (get_elem? slots) there ∙ at)
        | inr behind ↦
            around-IsFound (length slots - i - 1) fuel i p (omega arith) (omega arith) less at
      ]
