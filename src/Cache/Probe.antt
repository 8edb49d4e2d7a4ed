-- ===== src/Cache/Probe.antt =====
-- The slots that a search for a path passes, and how they survive an insertion.
use nvhttpd.Base.{
  ℕ, zero, suc, ◌+◌, ◌<◌, true, false, List, [], ◌∷◌, Option, none, some, ◌≡◌, refl, sym, ap, ◌∙◌,
  ◌⊎◌, inl, inr, arith, get_elem?, Bool-cases,
}
use nvhttpd.Base.Chars.{Bytes}
use nvhttpd.Cache.{CacheElement, Slot, Result, done, crash, same_text, next_index, set_slot, probe}

pub same_text_refl : (s : Bytes) → same_text s s ≡ true
unfolding same_text
same_text_refl [] = refl
same_text_refl (c ∷ cs) = ground (arith, same_text_refl cs)

pub same_text-eq : (s t : Bytes) → same_text s t ≡ true → s ≡ t
unfolding same_text
same_text-eq [] [] h = refl
same_text-eq [] (d ∷ ds) h = ground arith
same_text-eq (c ∷ cs) [] h = ground arith
same_text-eq (c ∷ cs) (d ∷ ds) h =
    let p : (c ≡ d) × (same_text cs ds ≡ true) = ground arith in
    let q = same_text-eq cs ds p.1 in ap (λ x. x ∷ cs) p.0 ∙ ap (λ xs. d ∷ xs) q

-- The slot that a search reaches in `n` steps.
unfoldable pub steps : ℕ → ℕ → ℕ → ℕ
steps mask zero i = i
steps mask (suc n) i = steps mask n (next_index mask i)

-- The first `n` slots from `i` hold elements with other paths.
unfoldable pub Passes : List Slot → ℕ → Bytes → ℕ → ℕ → Type 0
Passes slots mask path zero i = Unit {0}
Passes slots mask path (suc n) i =
    ((e : CacheElement) × (get_elem? slots i ≡ some (some e)) × (same_text e.path path ≡ false))
    × Passes slots mask path n (next_index mask i)

pub steps_add : (mask n k i : ℕ) → steps mask (n + k) i ≡ steps mask k (steps mask n i)
unfolding steps
steps_add mask zero k i = let e : 0 + k ≡ k = omega arith in ap (λ m. steps mask m i) e
steps_add mask (suc n) k i =
    let e : suc n + k ≡ suc (n + k) = omega arith in
    ap (λ m. steps mask m i) e ∙ steps_add mask n k (next_index mask i)

pub passed :
    (slots : List Slot) (mask : ℕ) (path : Bytes) (n k i : ℕ)
    → Passes slots mask path n i
    → k < n
    → (e : CacheElement) × (get_elem? slots (steps mask k i) ≡ some (some e))
      × (same_text e.path path ≡ false)
unfolding steps Passes
passed slots mask path zero k i p lt = absurd (omega arith)
passed slots mask path (suc n) zero i p lt = p.0
passed slots mask path (suc n) (suc k) i p lt =
    passed slots mask path n k (next_index mask i) p.1 (omega arith)

pub set_slot-same :
    (slots : List Slot) (j : ℕ) (x y : Slot)
    → get_elem? slots j ≡ some y
    → get_elem? (set_slot slots j x) j ≡ some x
unfolding set_slot
set_slot-same [] j x y h = cc
set_slot-same (z ∷ zs) zero x y h = refl
set_slot-same (z ∷ zs) (suc j) x y h = set_slot-same zs j x y h

-- A slot that is set was the empty one, and no other slot changes.
pub set_slot-other :
    (slots : List Slot) (i j : ℕ) (x : Slot)
    → (i ≡ j) ⊎ (get_elem? (set_slot slots j x) i ≡ get_elem? slots i)
unfolding set_slot
set_slot-other [] i j x = inr refl
set_slot-other (z ∷ zs) zero zero x = inl refl
set_slot-other (z ∷ zs) zero (suc j) x = inr refl
set_slot-other (z ∷ zs) (suc i) zero x = inr refl
set_slot-other (z ∷ zs) (suc i) (suc j) x = elim (set_slot-other zs i j x) [
  | inl e ↦ inl (ap suc e)
  | inr e ↦ inr e
]

pub set_slot-filled :
    (slots : List Slot) (i j : ℕ) (x : Slot) (e : CacheElement)
    → get_elem? slots j ≡ some none
    → get_elem? slots i ≡ some (some e)
    → get_elem? (set_slot slots j x) i ≡ some (some e)
set_slot-filled slots i j x e empty filled = elim (set_slot-other slots i j x) [
  | inl same ↦ absurd (differ (sym empty ∙ ap (get_elem? slots) (sym same) ∙ filled))
  | inr kept ↦ kept ∙ filled
]
  where
    differ : {a : CacheElement} → some none ≡ some (some a) → ⊥
    differ h = cc

pub Passes-set_slot :
    (slots : List Slot) (mask : ℕ) (path : Bytes) (n i j : ℕ) (x : Slot)
    → get_elem? slots j ≡ some none
    → Passes slots mask path n i
    → Passes (set_slot slots j x) mask path n i
unfolding Passes
Passes-set_slot slots mask path zero i j x empty p = tt
Passes-set_slot slots mask path (suc n) i j x empty ((e, filled, other), later) = (
  (e, set_slot-filled slots i j x e empty filled, other),
  Passes-set_slot slots mask path n (next_index mask i) j x empty later,
)

pub slot-cases :
    (o : Option Slot) → (o ≡ none) ⊎ ((o ≡ some none) ⊎ ((e : CacheElement) × (o ≡ some (some e))))
slot-cases none = inl refl
slot-cases (some none) = inr (inl refl)
slot-cases (some (some e)) = inr (inr (e, refl))

-- Where the probing of an insertion ends.
pub record Stops (slots : List Slot) (mask : ℕ) (path : Bytes) (fuel i j : ℕ) (x : Slot)
    : Type 0 where
  pub count : ℕ
  pub in_fuel : count < fuel
  pub place : steps mask count i ≡ j
  pub slot : get_elem? slots j ≡ some x
  pub passes : Passes slots mask path count i
  pub matches : (e : CacheElement) → x ≡ some e → same_text e.path path ≡ true

abbrev ended : ℕ × Slot → Result (ℕ × Slot)
ended p = done p

stop_here :
    (slots : List Slot) (mask : ℕ) (path : Bytes) (fuel i j : ℕ) (x y : Slot)
    → get_elem? slots i ≡ some y
    → ((e : CacheElement) → y ≡ some e → same_text e.path path ≡ true)
    → ended (i, y) ≡ ended (j, x)
    → Stops slots mask path (suc fuel) i j x
unfolding steps Passes
stop_here slots mask path fuel i j x y at_i match h =
    let place : i ≡ j = cc in
    let found : y ≡ x = cc in
    record {
      count = 0;
      in_fuel = omega arith;
      place = place;
      slot = ap (get_elem? slots) (sym place) ∙ at_i ∙ ap some found;
      passes = tt;
      matches = λ e is. match e (found ∙ is);
    }

step_on :
    (slots : List Slot) (mask : ℕ) (path : Bytes) (fuel i j : ℕ) (x : Slot) (e : CacheElement)
    → get_elem? slots i ≡ some (some e)
    → same_text e.path path ≡ false
    → Stops slots mask path fuel (next_index mask i) j x
    → Stops slots mask path (suc fuel) i j x
unfolding steps Passes
step_on slots mask path fuel i j x e at_i other later = record {
  count = suc later.count;
  in_fuel = omega (arith, later.in_fuel);
  place = later.place;
  slot = later.slot;
  passes = ((e, at_i, other), later.passes);
  matches = later.matches;
}

pub probe-Stops :
    (slots : List Slot) (mask : ℕ) (path : Bytes) (fuel i j : ℕ) (x : Slot)
    → probe slots mask path fuel i ≡ done (j, x)
    → Stops slots mask path fuel i j x
unfolding probe
probe-Stops slots mask path zero i j x h = cc
probe-Stops slots mask path (suc fuel) i j x h = elim (slot-cases (get_elem? slots i)) [
  | inl e ↦ let bad : stuck ≡ done (j, x) = rw (probe, e) at h in absurd (differ bad)
  | inr (inl e) ↦
      stop_here slots mask path fuel i j x none e (λ a is. absurd (unlike is)) (rw (probe, e) at h)
  | inr (inr (e, at_i)) ↦ elim (Bool-cases (same_text e.path path)) [
    | inl same ↦
        stop_here slots mask path fuel i j x (some e) at_i (λ a is. rw (← some_inj is) same)
          (rw (probe, at_i, same) at h)
    | inr other ↦
        step_on slots mask path fuel i j x e at_i other
          (probe-Stops slots mask path fuel (next_index mask i) j x (rw (probe, at_i, other) at h))
  ]
]
  where
    stuck : Result (ℕ × Slot)
    stuck = crash

    differ : stuck ≡ done (j, x) → ⊥
    differ h = cc

    unlike : {a : CacheElement} → none ≡ some a → ⊥
    unlike h = cc

    some_inj : {a b : CacheElement} → some a ≡ some b → a ≡ b
    some_inj h = cc
