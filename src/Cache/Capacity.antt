-- ===== src/Cache/Capacity.antt =====
-- The size of the table that `cache_load` allocates.
use native.Mathlib.Omega.{pow_step}
use nvhttpd.Base.{
  ltb→lt, ◌⊎◌, ℕ, zero, suc, ◌+◌, ◌-◌, ◌*◌, ◌%◌, ◌^◌, ◌≤◌, ◌<◌, Bool, true, false, ◌&&◌, ◌||◌, ◌≡◌,
  refl, arith, ltb, leb, ◌==◌, if◌then◌else◌, ==_iff, ◌/◌, inl, inr, Bool-cases, ap, sym, ◌∙◌,
}
use nvhttpd.Cache.{smear, cache_mask, cache_capacity}

-- The test `p` on the numbers of `bits` bits.
unfoldable all_below : ℕ → (ℕ → Bool) → Bool
all_below zero p = p 0
all_below (suc bits) p = all_below bits (λ x. p (x * 2)) && all_below bits (λ x. p (x * 2 + 1))

all_below_sound :
    (bits : ℕ) (p : ℕ → Bool) (k : ℕ) → all_below bits p ≡ true → k < 2 ^ bits → p k ≡ true
unfolding all_below
all_below_sound zero p k h lt = let e : 0 ≡ k = omega arith in ap p (sym e) ∙ h
all_below_sound (suc bits) p k h lt =
    let double : 2 ^ suc bits ≡ 2 ^ bits * 2 = ground (arith, pow_step 2 bits) in
    let parts : (all_below bits (λ x. p (x * 2)) ≡ true)
        × (all_below bits (λ x. p (x * 2 + 1)) ≡ true) =
      ground arith in
    elim (Bool-cases (k % 2 == 0)) [
      | inl even ↦
          let e : k ≡ k / 2 * 2 = ground arith in
          ap p e ∙ all_below_sound bits (λ x. p (x * 2)) (k / 2) parts.0 (ground arith)
      | inr odd ↦
          let e : k ≡ k / 2 * 2 + 1 = ground arith in
          ap p e ∙ all_below_sound bits (λ x. p (x * 2 + 1)) (k / 2) parts.1 (ground arith)
    ]

unfoldable is_power_below : ℕ → ℕ → Bool
is_power_below zero n = false
is_power_below (suc k) n = n == 2 ^ k || is_power_below k n

is_power_below_sound : (k n : ℕ) → is_power_below k n ≡ true → (j : ℕ) × (j < k) × (n ≡ 2 ^ j)
unfolding is_power_below
is_power_below_sound zero n h = ground arith
is_power_below_sound (suc k) n h = elim (Bool-cases (n == 2 ^ k)) [
  | inl here ↦ (k, omega arith, (==_iff _ _).0 here)
  | inr other ↦ let (j, lt, is) = is_power_below_sound k n (ground arith) in (j, omega arith, is)
]

-- What holds of the mask and the capacity for `n` + 1 files.
fits : ℕ → ℕ → ℕ → Bool
fits n mask capacity =
    if ltb n 32768
    then leb (n + 1) capacity
      && ltb capacity (2 * (n + 1))
      && mask + 1 == capacity
      && is_power_below 16 capacity
    else capacity == 0

fits_table : all_below 16 (λ n. fits n (cache_mask (n + 1)) (cache_capacity (n + 1))) ≡ true
unfolding all_below fits cache_capacity cache_mask smear is_power_below
fits_table = refl

-- Up to 32768 files the table is large enough: its capacity is a power of two, at least the number of
-- the files and less than twice that number, and the mask is the capacity less one. For more files, up
-- to the 65534 that cache_load admits, the capacity wraps around to 0.
pub cache_capacity-covers :
    (count : ℕ)
    → 1 ≤ count
    → count ≤ 65534
    → ((count ≤ 32768)
        × (count ≤ cache_capacity count)
        × (cache_capacity count < 2 * count)
        × (cache_mask count + 1 ≡ cache_capacity count)
        × ((j : ℕ) × (j < 16) × (cache_capacity count ≡ 2 ^ j)))
      ⊎ ((32768 < count) × (cache_capacity count ≡ 0))
unfolding fits
cache_capacity-covers count least most =
    let n = count - 1 in
    let back : n + 1 ≡ count = omega arith in
    let all =
      all_below_sound 16 (λ n. fits n (cache_mask (n + 1)) (cache_capacity (n + 1))) n fits_table
        (omega arith) in
    let fit : fits n (cache_mask count) (cache_capacity count) ≡ true =
      ap (λ c. fits n (cache_mask c) (cache_capacity c)) (sym back) ∙ all in
    elim (Bool-cases (ltb n 32768)) [
      | inl small ↦ inl (
        omega (arith, ltb→lt _ _ small),
        ground arith,
        ground arith,
        ground arith,
        is_power_below_sound 16 (cache_capacity count) (ground arith),
      )
      | inr big ↦ inr (ground arith, ground arith)
    ]
