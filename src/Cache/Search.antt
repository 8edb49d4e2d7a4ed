-- ===== src/Cache/Search.antt =====
-- The loop of `cache_find` and the probing of an insertion, on the way to an element.
use nvhttpd.Base.{
  ℕ, zero, suc, ◌+◌, ◌<◌, true, false, List, Option, none, some, ◌≡◌, refl, sym, ap, ◌∙◌, ◌⊎◌, inl,
  inr, arith, ◌==◌, get_elem?, ==_iff, Bool-cases,
}
use nvhttpd.Base.Chars.{Bytes}
use nvhttpd.Cache.{
  CacheElement, Slot, Result, done, crash, same_text, next_index, set_slot, find_from,
}
use nvhttpd.Cache.Probe.{
  steps, Passes, steps_add, passed, set_slot-filled, Passes-set_slot, slot-cases, Stops,
}

-- What `cache_find` looks for: the way to an element with this path.
pub record Found (slots : List Slot) (mask : ℕ) (path : Bytes) (fuel start : ℕ) (e : CacheElement)
    : Type 0 where
  pub count : ℕ
  pub in_fuel : count < fuel
  pub passes : Passes slots mask path count start
  pub slot : get_elem? slots (steps mask count start) ≡ some (some e)
  pub matches : same_text e.path path ≡ true

pub Found-set_slot :
    (slots : List Slot) (mask : ℕ) (path : Bytes) (fuel start : ℕ) (e : CacheElement) (j : ℕ)
    (x : Slot)
    → get_elem? slots j ≡ some none
    → Found slots mask path fuel start e
    → Found (set_slot slots j x) mask path fuel start e
Found-set_slot slots mask path fuel start e j x empty f = record {
  count = f.count;
  in_fuel = f.in_fuel;
  passes = Passes-set_slot slots mask path f.count start j x empty f.passes;
  slot = set_slot-filled slots (steps mask f.count start) j x e empty f.slot;
  matches = f.matches;
}

lt_trichotomy : (a b : ℕ) → (a < b) ⊎ ((a ≡ b) ⊎ (b < a))
lt_trichotomy a b = ground arith

abbrev no_element : Option Slot
no_element = some none

empty_not_filled : {e : CacheElement} → no_element ≡ some (some e) → ⊥
empty_not_filled h = cc

abbrev filled : CacheElement → Option Slot
filled e = some (some e)

clash :
    {d e : CacheElement} (path : Bytes)
    → filled d ≡ some (some e)
    → same_text e.path path ≡ false
    → same_text d.path path ≡ true
    → ⊥
clash {d = d} {e = e} path h other match =
    let same : d ≡ e = cc in differ (sym match ∙ ap (λ x. same_text x.path path) same ∙ other)
  where
    differ : true ≡ false → ⊥
    differ h = cc

-- An element that is found is the end of any probing for its path.
pub Stops-Found :
    (slots : List Slot) (mask : ℕ) (path : Bytes) (fuel start : ℕ) (e : CacheElement) (j : ℕ)
    → Found slots mask path fuel start e
    → Stops slots mask path fuel start j none
    → ⊥
Stops-Found slots mask path fuel start e j f s = elim (lt_trichotomy f.count s.count) [
  | inl lt ↦
      let (e', at, other) = passed slots mask path s.count f.count start s.passes lt in
      clash path (sym f.slot ∙ at) other f.matches
  | inr (inl same) ↦
      let at : get_elem? slots (steps mask f.count start) ≡ some none =
        ap (λ m. get_elem? slots (steps mask m start)) same
        ∙ ap (get_elem? slots) s.place
        ∙ s.slot in
      empty_not_filled (sym at ∙ f.slot)
  | inr (inr gt) ↦
      let (e', at, other) = passed slots mask path f.count s.count start f.passes gt in
      empty_not_filled (sym s.slot ∙ ap (get_elem? slots) (sym s.place) ∙ at)
]

steps-suc : (mask n i : ℕ) → steps mask (suc n) i ≡ next_index mask (steps mask n i)
unfolding steps
steps-suc mask zero i = refl
steps-suc mask (suc n) i = steps-suc mask n (next_index mask i)

module _ (slots : List Slot) (mask : ℕ) (path : Bytes) (start : ℕ) (e : CacheElement) (total : ℕ)
    (p : Passes slots mask path total start)
    (at_total : get_elem? slots (steps mask total start) ≡ some (some e))
    (match : same_text e.path path ≡ true) where
  -- The way to an element does not come back to where it began.
  no_return : (k n : ℕ) → suc k + n ≡ total → steps mask (suc k) start ≡ start → ⊥
  no_return k n sum back =
      let (e', at, other) = passed slots mask path total n start p (omega arith) in
      let same : steps mask total start ≡ steps mask n start =
        ap (λ m. steps mask m start) (sym sum)
        ∙ steps_add mask (suc k) n start
        ∙ ap (steps mask n) back in
      clash path (sym at_total ∙ ap (get_elem? slots) same ∙ at) other match

  -- The loop of `cache_find` reaches it.
  find_from-reaches :
      (fuel k n : ℕ)
      → k + n ≡ total
      → n < fuel
      → find_from slots mask path start fuel (steps mask k start) ≡ done (some e)
  unfolding find_from
  find_from-reaches zero k n sum lt = absurd (omega arith)
  find_from-reaches (suc fuel) k zero sum lt =
      let here : k ≡ total = omega arith in
      let at : get_elem? slots (steps mask k start) ≡ some (some e) =
        ap (λ m. get_elem? slots (steps mask m start)) here ∙ at_total in
      rw (find_from, at, match) refl
  find_from-reaches (suc fuel) k (suc n) sum lt =
      let (e', at, other) = passed slots mask path total k start p (omega arith) in
      let next = steps-suc mask k start in
      let sum' : suc k + n ≡ total = omega arith in
      let later = find_from-reaches fuel (suc k) n sum' (omega arith) in
      elim (Bool-cases (next_index mask (steps mask k start) == start)) [
        | inl back ↦ absurd (no_return k n sum' (next ∙ (==_iff _ _).0 back))
        | inr on ↦ rw (find_from, at, other, on) (rw next at later)
      ]

pub find_from-Found :
    (slots : List Slot) (mask : ℕ) (path : Bytes) (fuel start : ℕ) (e : CacheElement)
    → Found slots mask path fuel start e
    → find_from slots mask path start fuel start ≡ done (some e)
unfolding steps
find_from-Found slots mask path fuel start e f =
    find_from-reaches slots mask path start e f.count f.passes f.slot f.matches fuel 0 f.count
      (omega arith) f.in_fuel

-- What `cache_find` returns stands in the table and has the path.
pub find_from_sound :
    (slots : List Slot) (mask : ℕ) (path : Bytes) (start fuel i : ℕ) (e : CacheElement)
    → find_from slots mask path start fuel i ≡ done (some e)
    → (j : ℕ) × (get_elem? slots j ≡ some (some e)) × (same_text e.path path ≡ true)
unfolding find_from
find_from_sound slots mask path start zero i e h = cc
find_from_sound slots mask path start (suc fuel) i e h = elim (slot-cases (get_elem? slots i)) [
  | inl at ↦ let bad : stuck ≡ done (some e) = rw (find_from, at) at h in absurd (differ bad)
  | inr (inl at) ↦
      let bad : missed ≡ done (some e) = rw (find_from, at) at h in absurd (differ' bad)
  | inr (inr (d, at)) ↦ elim (Bool-cases (same_text d.path path)) [
    | inl same ↦
        let got : hit d ≡ done (some e) = rw (find_from, at, same) at h in
        let eq : d ≡ e = cc in
        (i, at ∙ ap filled eq, ap (λ x. same_text x.path path) (sym eq) ∙ same)
    | inr other ↦ elim (Bool-cases (next_index mask i == start)) [
      | inl back ↦
          let bad : missed ≡ done (some e) = rw (find_from, at, other, back) at h in
          absurd (differ' bad)
      | inr on ↦
          find_from_sound slots mask path start fuel (next_index mask i) e
            (rw (find_from, at, other, on) at h)
    ]
  ]
]
  where
    stuck : Result Slot
    stuck = crash

    missed : Result Slot
    missed = done none

    hit : CacheElement → Result Slot
    hit d = done (some d)

    differ : stuck ≡ done (some e) → ⊥
    differ h = cc

    differ' : missed ≡ done (some e) → ⊥
    differ' h = cc
