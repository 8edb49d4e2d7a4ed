-- ===== src/Cache/Loads.antt =====
-- The insertions of `cache_load` come to an end.
use Prim.Native.Nat.{bit_and}
use nvhttpd.Base.{
  ℕ, zero, suc, ◌+◌, ◌-◌, ◌*◌, ◌^◌, ◌≤◌, ◌<◌, true, false, List, [], ◌∷◌, none, some, ◌≡◌, refl, ap,
  ◌∙◌, inl, inr, arith, length, replicate, ltb, ◌==◌,
}
use nvhttpd.Base.Chars.{Bytes}
use nvhttpd.Cache.{
  CacheElement, Slot, Cache, Result, done, on_done, max_cache_elements, next_index, set_slot, probe,
  fill, insert, insert_all, cache_mask, cache_capacity, new_elements, build, cache_load,
}
use nvhttpd.Cache.Bits.{bit_and_at_most, bit_and_low, bit_and_wraps}
use nvhttpd.Cache.Probe.{Stops, probe-Stops}
use nvhttpd.Cache.Capacity.{cache_capacity-covers}
use nvhttpd.Cache.Round.{
  filled, length-set_slot, filled-set_slot, filled-replicate, Turns, probe-IsFound,
}

abbrev no_slot : Slot
no_slot = none

length-replicate : (n : ℕ) → length (replicate n no_slot) ≡ n
length-replicate zero = refl
length-replicate (suc n) = ap suc (length-replicate n)

-- A table of n slots, a power of two, its mask, and room for `more` elements.
record HasRoom (slots : List Slot) (n mask more : ℕ) : Type 0 where
  exponent : ℕ
  size : length slots ≡ n
  power : n ≡ 2 ^ exponent
  ones : mask ≡ 2 ^ exponent - 1
  room : filled slots + more ≤ length slots
  positive : 0 < length slots

HasRoom-Turns : (slots : List Slot) (n mask more : ℕ) → HasRoom slots n mask more → Turns slots mask
unfolding next_index
HasRoom-Turns slots n mask more h = record {
  up = λ i lt.
      let next : i + 1 ≡ suc i = omega arith in
      ap (λ m. bit_and (i + 1) m) h.ones
      ∙ bit_and_low h.exponent (i + 1) (omega (arith, lt, h.size, h.power))
      ∙ next;
  around = λ i last.
      let next : i + 1 ≡ 2 ^ h.exponent = omega (arith, last, h.size, h.power) in
      ap (λ m. bit_and (i + 1) m) h.ones
      ∙ ap (λ x. bit_and x (2 ^ h.exponent - 1)) next
      ∙ bit_and_wraps h.exponent;
}

-- An insertion fills at most one slot.
abbrev IsInserted : ℕ → ℕ → ℕ → Result (List Slot) → Type 0
IsInserted n mask more r = (slots' : List Slot) × (r ≡ done slots') × HasRoom slots' n mask more

insert-IsInserted :
    (fuel n mask more : ℕ) (slots : List Slot) (e : CacheElement)
    → HasRoom slots n mask (suc more)
    → n < fuel
    → IsInserted n mask more (insert fuel mask slots e)
unfolding insert fill
insert-IsInserted fuel n mask more slots e h enough =
    let start = bit_and e.hash mask in
    let ((j, x), found) =
      probe-IsFound slots mask e.path (HasRoom-Turns slots n mask (suc more) h) fuel start
        (omega (arith, bit_and_at_most e.hash mask, h.size, h.power, h.ones, h.positive))
        (omega (arith, h.size, enough)) (omega (arith, h.room)) in
    go j x found (probe-Stops slots mask e.path fuel start j x found)
  where
    go :
        (j : ℕ) (x : Slot)
        → probe slots mask e.path fuel (bit_and e.hash mask) ≡ done (j, x)
        → Stops slots mask e.path fuel (bit_and e.hash mask) j x
        → (slots' : List Slot) × (fill slots e (probe slots mask e.path fuel (bit_and e.hash mask))
            ≡ done slots')
          × HasRoom slots' n mask more
    go j none found s = (
      set_slot slots j (some e),
      rw found refl,
      record {
        exponent = h.exponent;
        size = length-set_slot slots j (some e) ∙ h.size;
        power = h.power;
        ones = h.ones;
        room =
            omega
              (arith, h.room, filled-set_slot slots j e s.slot, length-set_slot slots j (some e));
        positive = omega (arith, h.positive, length-set_slot slots j (some e));
      },
    )
    go j (some old) found s = (
      slots,
      rw found refl,
      record {
        exponent = h.exponent;
        size = h.size;
        power = h.power;
        ones = h.ones;
        room = omega (arith, h.room);
        positive = h.positive;
      },
    )

insert_all-done :
    (fuel n mask : ℕ) (es : List CacheElement) (slots : List Slot)
    → HasRoom slots n mask (length es)
    → n < fuel
    → (slots' : List Slot) × (insert_all fuel mask slots es ≡ done slots') × HasRoom slots' n mask 0
unfolding insert_all on_done
insert_all-done fuel n mask [] slots h enough = (slots, refl, h)
insert_all-done fuel n mask (e ∷ es) slots h enough =
    let (slots₁, inserted, h₁) = insert-IsInserted fuel n mask (length es) slots e h enough in
    let (slots₂, all, h₂) = insert_all-done fuel n mask es slots₁ h₁ enough in
    (slots₂, rw inserted all, h₂)

pub length-new_elements :
    (base_path : Bytes) (files : List (Bytes × Bytes))
    → length (new_elements base_path files) ≡ length files
unfolding new_elements
length-new_elements base_path [] = refl
length-new_elements base_path (f ∷ fs) = ap suc (length-new_elements base_path fs)

empty-HasRoom :
    (count : ℕ)
    → 1 ≤ count
    → count ≤ 32768
    → HasRoom
        (replicate (cache_capacity count) no_slot)
        (cache_capacity count)
        (cache_mask count)
        count
empty-HasRoom count least most = elim (cache_capacity-covers count least (omega arith)) [
  | inl (small, covers, twice, mask, (j, lt, power)) ↦ record {
    exponent = j;
    size = length-replicate (cache_capacity count);
    power = power;
    ones = omega (arith, mask, power);
    room = omega (
      arith,
      filled-replicate (cache_capacity count),
      length-replicate (cache_capacity count),
      covers,
    );
    positive = omega (arith, length-replicate (cache_capacity count), covers);
  }
  | inr (big, wrapped) ↦ absurd (omega arith)
]

pub cache_capacity-below :
    (count : ℕ)
    → 1 ≤ count
    → count ≤ 32768
    → (cache_capacity count < 65536) × (cache_capacity count < 2 * count)
cache_capacity-below count least most = elim (cache_capacity-covers count least (omega arith)) [
  | inl (small, covers, twice, mask, power) ↦ (omega arith, omega arith)
  | inr (big, wrapped) ↦ absurd (omega arith)
]

-- The table is there, with as many slots as its capacity, and its indices go around.
pub cache_load-Turns :
    (fuel : ℕ) (base_path : Bytes) (files : List (Bytes × Bytes))
    → 1 ≤ length files
    → length files ≤ 32768
    → cache_capacity (length files) < fuel
    → (cache : Cache) × (cache_load true fuel base_path files ≡ done cache)
      × Turns cache.slots cache.mask
      × (length cache.slots ≡ cache_capacity (length files))
      × ((i : ℕ) → bit_and i cache.mask < length cache.slots)
unfolding cache_load build on_done
cache_load-Turns fuel base_path files least most enough =
    let es = new_elements base_path files in
    let count = length-new_elements base_path files in
    let mask = cache_mask (length es) in
    let (slots, all, h) =
      insert_all-done fuel (cache_capacity (length es)) mask es
        (replicate (cache_capacity (length es)) no_slot)
        (empty-HasRoom (length es) (omega arith) (omega arith)) (rw count enough) in
    let not_many : ltb max_cache_elements (length es) ≡ false = ground arith in
    let some_there : length es == 0 ≡ false = ground arith in
    (
      record {
        capacity = cache_capacity (length es);
        mask = mask;
        count = length es;
        slots = slots;
      },
      rw (not_many, some_there, all) refl,
      HasRoom-Turns slots (cache_capacity (length es)) mask 0 h,
      h.size ∙ ap cache_capacity count,
      λ i. omega (arith, bit_and_at_most i mask, h.size, h.power, h.ones, h.positive),
    )

-- For 1 to 32768 files, where calloc returns memory, cache_load ends and makes a table; 65536 rounds
-- for each search are enough.
pub cache_load-done :
    (fuel : ℕ) (base_path : Bytes) (files : List (Bytes × Bytes))
    → 1 ≤ length files
    → length files ≤ 32768
    → 65536 ≤ fuel
    → (cache : Cache) × (cache_load true fuel base_path files ≡ done cache)
cache_load-done fuel base_path files least most enough =
    let (cache, loaded, turns, size, within) =
      cache_load-Turns fuel base_path files least most
        (omega (arith, (cache_capacity-below (length files) least most).0)) in
    (cache, loaded)
