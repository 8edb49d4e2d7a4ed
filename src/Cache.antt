-- ===== src/Cache.antt =====
-- cache.c: the hash table of the files of the site.
pub mod Bits
pub mod Probe
pub mod Search
pub mod Serves
pub mod Lookup
pub mod Capacity
pub mod Round
pub mod Loads
pub mod Misses
pub mod Site
mod Tests
use Prim.Native.Nat.{bit_and, bit_or}
use nvhttpd.Base.{
  ℕ, zero, suc, ◌+◌, ◌-◌, ◌*◌, ◌/◌, ◌%◌, ◌^◌, Bool, true, false, ◌&&◌, ◌||◌, List, [], ◌∷◌, Option,
  none, some, ◌++◌, ltb, leb, ◌==◌, if◌then◌else◌, length, replicate, get_elem?,
}
use nvhttpd.Base.Chars.{Bytes, codes}

-- What a `cache_element_s` with a path holds.
pub record CacheElement : Type 0 where
  pub hash : ℕ
  pub len : ℕ
  pub path : Bytes
  pub mime : Bytes
  pub content : Bytes

-- An element of the table; `none` while its path is NULL.
abbrev pub Slot : Type 0
Slot = Option CacheElement

pub record Cache : Type 0 where
  pub capacity : ℕ
  pub mask : ℕ
  pub count : ℕ
  pub slots : List Slot

abbrev pub max_cache_elements : ℕ
max_cache_elements = 65534

-- How a function ends; `crash` is a read outside the table or through NULL.
pub data Result (A : Type 0) : Type 0 where
  done : A → Result A
  error : Result A
  crash : Result A
  out_of_fuel : Result A

-- What follows where a function has a result; any other end is the caller's.
unfoldable pub on_done : {A B : Type 0} → Result A → (A → Result B) → Result B
on_done (done a) f = f a
on_done error f = error
on_done crash f = crash
on_done out_of_fuel f = out_of_fuel

-- `strcmp(s, t) == 0`
unfoldable pub same_text : Bytes → Bytes → Bool
same_text [] [] = true
same_text (c ∷ cs) (d ∷ ds) = c == d && same_text cs ds
same_text _ _ = false

-- A signed char, widened to size_t.
abbrev pub char_to_size : ℕ → ℕ
char_to_size c = if ltb c 128 then c else 2 ^ 64 - 256 + c

-- `((hash << 5) - hash) + key[i]` on 64 bits.
unfoldable pub hash_step : ℕ → ℕ → ℕ
hash_step hash c = (hash * 32 % 2 ^ 64 + (2 ^ 64 - hash) + char_to_size c) % 2 ^ 64

unfoldable pub hash_from : ℕ → Bytes → ℕ
hash_from hash [] = hash
hash_from hash (c ∷ cs) = hash_from (hash_step hash c) cs

unfoldable pub hash : Bytes → ℕ
hash key = hash_from 0 key

-- What stands behind the last dot, as strrchr finds it.
unfoldable pub extension : Bytes → Option Bytes
extension [] = none
extension (c ∷ cs) = elim (extension cs) [
  | some e ↦ some e
  | none ↦ if c == b'.' then some cs else none
]

abbrev pub to_lower : ℕ → ℕ
to_lower c = if leb b'A' c && leb c b'Z' then c + 32 else c

-- `strcasecmp(s, t) == 0`
unfoldable pub same_letters : Bytes → Bytes → Bool
same_letters [] [] = true
same_letters (c ∷ cs) (d ∷ ds) = to_lower c == to_lower d && same_letters cs ds
same_letters _ _ = false

-- The chain of tests on the extension.
unfoldable pub mime_of : Bytes → Bytes
mime_of e =
    if same_letters e (codes "css")
    then codes "text/css"
    else if same_letters e (codes "docx")
    then codes "application/vnd.openxmlformats-officedocument.wordprocessingml.document"
    else if same_letters e (codes "html")
    then codes "text/html; charset=UTF-8"
    else if same_letters e (codes "ico")
    then codes "image/x-icon"
    else if same_letters e (codes "jpg") || same_letters e (codes "jpeg")
    then codes "image/jpeg"
    else if same_letters e (codes "js")
    then codes "application/javascript"
    else if same_letters e (codes "md")
    then codes "text/markdown"
    else if same_letters e (codes "pdf")
    then codes "application/pdf"
    else if same_letters e (codes "png")
    then codes "image/png"
    else if same_letters e (codes "svg")
    then codes "image/svg+xml"
    else if same_letters e (codes "webmanifest")
    then codes "application/manifest+json"
    else if same_letters e (codes "xml")
    then codes "text/xml"
    else codes "application/octet-stream"

unfoldable pub determine_mime : Bytes → Bytes
determine_mime path = elim (extension path) [
  | none ↦ codes "application/octet-stream"
  | some [] ↦ codes "application/octet-stream"
  | some (c ∷ cs) ↦ mime_of (c ∷ cs)
]

-- The element that `load_dir` and `init_element` make of a file: its path without that of the
-- directory of the site, and the bytes in it. The type is that of the full path.
unfoldable pub new_element : Bytes → Bytes × Bytes → CacheElement
unfolding hash determine_mime
new_element base_path (path, content) = record {
  hash = hash path;
  len = length content;
  path = path;
  mime = determine_mime (base_path ++ path);
  content = content;
}

unfoldable pub new_elements : Bytes → List (Bytes × Bytes) → List CacheElement
unfolding new_element
new_elements base_path [] = []
new_elements base_path (f ∷ fs) = new_element base_path f ∷ new_elements base_path fs

-- `capacity |= capacity >> k` on a uint16_t.
abbrev pub or_shifted : ℕ → ℕ → ℕ
or_shifted k capacity = bit_or capacity (capacity / 2 ^ k) % 2 ^ 16

-- `capacity |= capacity >> k`, for k from `first` on, `rounds` times.
unfoldable pub smear : ℕ → ℕ → ℕ → ℕ
smear zero first capacity = capacity
smear (suc rounds) first capacity = smear rounds (suc first) (or_shifted first capacity)

unfoldable pub cache_mask : ℕ → ℕ
cache_mask count = smear 16 1 ((count - 1) % 2 ^ 16)

-- `capacity++`, on a uint16_t.
unfoldable pub cache_capacity : ℕ → ℕ
cache_capacity count = (cache_mask count + 1) % 2 ^ 16

unfoldable pub next_index : ℕ → ℕ → ℕ
next_index mask index = bit_and (index + 1) mask

unfoldable pub set_slot : List Slot → ℕ → Slot → List Slot
set_slot [] i x = []
set_slot (y ∷ ys) zero x = x ∷ ys
set_slot (y ∷ ys) (suc i) x = y ∷ set_slot ys i x

-- `while (data[index].path != NULL && strcmp(data[index].path, path) != 0) ...`: where it stops, and
-- what is there.
unfoldable pub probe : List Slot → ℕ → Bytes → ℕ → ℕ → Result (ℕ × Slot)
probe slots mask path zero index = out_of_fuel
probe slots mask path (suc fuel) index =
    let rest = probe slots mask path fuel (next_index mask index) in
    elim (get_elem? slots index) [
      | none ↦ crash
      | some none ↦ done (index, none)
      | some (some e) ↦ if same_text e.path path then done (index, some e) else rest
    ]

-- The element goes into the empty slot; a path that is there already is left as it is.
unfoldable pub fill : List Slot → CacheElement → Result (ℕ × Slot) → Result (List Slot)
fill slots e (done (index, none)) = done (set_slot slots index (some e))
fill slots e (done (index, some old)) = done slots
fill slots e error = error
fill slots e crash = crash
fill slots e out_of_fuel = out_of_fuel

-- One round of the loop over the files. The source tests the first slot apart, and makes the same
-- assignments there as at the end of the probing.
unfoldable pub insert : ℕ → ℕ → List Slot → CacheElement → Result (List Slot)
insert fuel mask slots e = fill slots e (probe slots mask e.path fuel (bit_and e.hash mask))

unfoldable pub insert_all : ℕ → ℕ → List Slot → List CacheElement → Result (List Slot)
insert_all fuel mask slots [] = done slots
insert_all fuel mask slots (e ∷ es) =
    on_done (insert fuel mask slots e) (λ slots'. insert_all fuel mask slots' es)

-- The loop of `cache_find`.
unfoldable pub find_from : List Slot → ℕ → Bytes → ℕ → ℕ → ℕ → Result Slot
find_from slots mask path start zero index = out_of_fuel
find_from slots mask path start (suc fuel) index =
    let next = next_index mask index in
    let rest = find_from slots mask path start fuel next in
    elim (get_elem? slots index) [
      | none ↦ crash
      | some none ↦ done none
      | some (some e) ↦
          if same_text e.path path then done (some e) else if next == start then done none else rest
    ]

-- The search of `cache_find` in a table that is there.
unfoldable pub find : ℕ → Cache → Bytes → Result Slot
find fuel cache path =
    let start = bit_and (hash path) cache.mask in
    find_from cache.slots cache.mask path start fuel start

-- The result of malloc is not tested before the copy is written.
unfoldable pub copy_element : Bool → Slot → Result Slot
copy_element got none = done none
copy_element got (some e) = if got then done (some e) else crash

-- `cache_find`: the log is read through `cache` before the test for NULL.
unfoldable pub cache_find : Bool → ℕ → Option Cache → Bytes → Result Slot
cache_find got fuel none path = crash
cache_find got fuel (some cache) path = on_done (find fuel cache path) (copy_element got)

-- The table that `cache_load` fills, of the elements in the order of `file_list`.
unfoldable pub build : ℕ → List CacheElement → Result Cache
build fuel es =
    let mask = cache_mask (length es) in
    let capacity = cache_capacity (length es) in
    on_done (insert_all fuel mask (replicate capacity none) es) (λ slots.
      done (record { capacity = capacity; mask = mask; count = length es; slots = slots }))

-- `cache_load` behind `load_dir`, which found these files, the last one first; `got` is the result of
-- calloc.
unfoldable pub cache_load : Bool → ℕ → Bytes → List (Bytes × Bytes) → Result Cache
cache_load got fuel base_path files =
    let es = new_elements base_path files in
    if ltb max_cache_elements (length es)
    then error
    else if length es == 0
    then error
    else if got
    then build fuel es
    else error
