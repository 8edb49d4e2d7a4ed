-- ===== src/Cache/Misses.antt =====
-- The loop of `cache_find` ends within one round over the table, and finds nothing for other paths.
use Prim.Native.Nat.{bit_and}
use nvhttpd.Base.{
  ℕ, zero, suc, ◌+◌, ◌*◌, ◌≤◌, ◌<◌, Bool, true, List, [], ◌∷◌, none, some, ◌≡◌, ◌≢◌, refl, sym, ◌∙◌,
  ◌⊎◌, inl, inr, arith, length, get_elem?, ◌==◌, ==_iff, Bool-cases, le_or_lt,
}
use nvhttpd.Base.Chars.{Bytes}
use nvhttpd.Cache.{
  CacheElement, Slot, Cache, Result, done, on_done, copy_element, same_text, hash, next_index,
  new_elements, find_from, find, cache_find, cache_load,
}
use nvhttpd.Cache.Probe.{slot-cases}
use nvhttpd.Cache.Round.{Turns, get_elem?-none}
use nvhttpd.Cache.Serves.{lookup, done_inj, not_both}
use nvhttpd.Cache.Loads.{cache_load-Turns, cache_capacity-below}
use nvhttpd.Cache.Lookup.{cache_find-finds_loaded}

-- The step from a slot to the next: up, or from the last one to the first.
next_cases :
    (slots : List Slot) (mask i : ℕ)
    → Turns slots mask
    → i < length slots
    → ((suc i < length slots) × (next_index mask i ≡ suc i))
      ⊎ ((suc i ≡ length slots) × (next_index mask i ≡ 0))
next_cases slots mask i t lt = elim (le_or_lt (length slots) (suc i)) [
  | inl last ↦ let at : suc i ≡ length slots = omega arith in inr (at, t.around i at)
  | inr more ↦ inl (more, t.up i more)
]

module _ (slots : List Slot) (mask : ℕ) (path : Bytes) (start : ℕ) (t : Turns slots mask)
    (within : start < length slots) where
  -- From here at most so many slots are looked at, up to the one in front of `start`.
  abbrev IsAhead : ℕ → ℕ → Type 0
  IsAhead i rounds =
      ((i < start) × (start ≤ i + rounds)) ⊎ ((start ≤ i) × (length slots + start ≤ i + rounds))

  next-IsAhead :
      (i fuel next : ℕ)
      → ((suc i < length slots) × (next ≡ suc i)) ⊎ ((suc i ≡ length slots) × (next ≡ 0))
      → IsAhead i (suc fuel)
      → next ≢ start
      → (next < length slots) × IsAhead next fuel
  next-IsAhead i fuel next step ahead apart = (ground arith, later step ahead)
    where
      later :
          ((suc i < length slots) × (next ≡ suc i)) ⊎ ((suc i ≡ length slots) × (next ≡ 0))
          → IsAhead i (suc fuel)
          → IsAhead next fuel
      later (inl (more, at)) (inl (below, most)) =
          let differ = apart in inl (ground arith, omega arith)
      later (inl (more, at)) (inr (above, most)) = inr (omega arith, omega arith)
      later (inr (last, at)) (inl (below, most)) = absurd (omega arith)
      later (inr (last, at)) (inr (above, most)) =
          let differ = apart in inl (ground arith, omega arith)

  find_from_ends :
      (fuel i : ℕ)
      → i < length slots
      → IsAhead i fuel
      → (x : Slot) × (find_from slots mask path start fuel i ≡ done x)
  unfolding find_from
  find_from_ends zero i lt (inl (below, most)) = absurd (omega arith)
  find_from_ends zero i lt (inr (above, most)) = absurd (omega arith)
  find_from_ends (suc fuel) i lt ahead = elim (slot-cases (get_elem? slots i)) [
    | inl at ↦ absurd (omega (arith, get_elem?-none slots i at))
    | inr (inl at) ↦ (none, rw (find_from, at) refl)
    | inr (inr (e, at)) ↦ elim (Bool-cases (same_text e.path path)) [
      | inl same ↦ (some e, rw (find_from, at, same) refl)
      | inr other ↦ elim (Bool-cases (next_index mask i == start)) [
        | inl back ↦ (none, rw (find_from, at, other, back) refl)
        | inr on ↦
            let next = next_index mask i in
            let apart : next ≢ start = λ h. ground (arith, ==_iff next start) in
            let (lt', ahead') =
              next-IsAhead i fuel next (next_cases slots mask i t lt) ahead apart in
            let (x, later) = find_from_ends fuel next lt' ahead' in
            (x, rw (find_from, at, other, on) later)
      ]
    ]
  ]

-- A list of files that a table was made of is not empty.
loaded_some :
    (fuel : ℕ) (base_path : Bytes) (files : List (Bytes × Bytes)) (cache : Cache)
    → cache_load true fuel base_path files ≡ done cache
    → 1 ≤ length files
unfolding cache_load new_elements
loaded_some fuel base_path [] cache h = absurd cc
loaded_some fuel base_path (f ∷ fs) cache h = omega arith

uncopied :
    (got : Bool) (r : Result Slot) (x : Slot)
    → r ≡ done x
    → ((e : CacheElement) → on_done r (copy_element true) ≢ done (some e))
    → on_done r (copy_element got) ≡ done none
unfolding on_done copy_element
uncopied got r none h other = rw h refl
uncopied got r (some e) h other = absurd (other e (rw h refl))

-- Behind a load of at most 32768 files, where the fuel is twice their number, `cache_find` ends for a
-- path that no file has, and finds nothing.
pub cache_find-misses_loaded :
    (fuel : ℕ) (base_path : Bytes) (files : List (Bytes × Bytes)) (cache : Cache)
    → cache_load true fuel base_path files ≡ done cache
    → length files ≤ 32768
    → 2 * length files ≤ fuel
    → (got : Bool) (path : Bytes) → lookup (new_elements base_path files) path ≡ none
    → cache_find got fuel (some cache) path ≡ done none
unfolding cache_find find
cache_find-misses_loaded fuel base_path files cache loaded most enough got path missing =
    let least = loaded_some fuel base_path files cache loaded in
    let below = (cache_capacity-below (length files) least most).1 in
    let (made, is, turns, size, within) =
      cache_load-Turns fuel base_path files least most (omega arith) in
    let same : made ≡ cache = done_inj (sym is ∙ loaded) in
    let start = bit_and (hash path) made.mask in
    let (x, ends) =
      find_from_ends made.slots made.mask path start turns (within (hash path)) fuel start
        (within (hash path)) (inr (omega arith, omega arith)) in
    let absent : (e : CacheElement) → cache_find true fuel (some made) path ≢ done (some e) = λ e h.
      not_both _ missing ((cache_find-finds_loaded fuel base_path files made is path e).0 h) in
    rw (← same) (uncopied got (find fuel made path) x ends absent)
