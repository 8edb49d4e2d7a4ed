-- ===== src/Cache/Lookup.antt =====
-- The table that `cache_load` builds, as a map from paths to elements.
use Prim.Native.Nat.{bit_and}
use mathlib.Core.Path.{subst}
use nvhttpd.Base.{
  ℕ, zero, suc, true, List, [], ◌∷◌, Option, none, some, ◌≡◌, refl, sym, ap, ◌∙◌, ◌↔◌, inl, inr,
  get_elem?, replicate, Bool-cases,
}
use nvhttpd.Base.Chars.{Bytes}
use nvhttpd.Cache.{
  CacheElement, Slot, Cache, Result, done, error, crash, out_of_fuel, on_done, copy_element,
  same_text, hash, new_element, new_elements, insert, insert_all, find_from, find, cache_find,
  build, cache_load,
}
use nvhttpd.Cache.Probe.{same_text-eq}
use nvhttpd.Cache.Search.{find_from-Found, find_from_sound}
use nvhttpd.Cache.Serves.{
  lookup, View, or_element, extend, Serves, done_inj, on_done-inv, not_error, not_both,
  insert-Serves,
}

unfoldable extend_all : View → List CacheElement → View
extend_all view [] = view
extend_all view (e ∷ es) = extend_all (extend view e) es

unfoldable Hashed : List CacheElement → Type 0
Hashed [] = Unit {0}
Hashed (e ∷ es) = (e.hash ≡ hash e.path) × Hashed es

insert_all-Serves :
    (mask fuel : ℕ) (es : List CacheElement) (slots slots' : List Slot) (view : View)
    → Hashed es
    → Serves slots mask fuel view
    → insert_all fuel mask slots es ≡ done slots'
    → Serves slots' mask fuel (extend_all view es)
unfolding insert_all extend_all Hashed
insert_all-Serves mask fuel [] slots slots' view a s h =
    subst (λ x. Serves x mask fuel view) (done_inj h) s
insert_all-Serves mask fuel (e ∷ es) slots slots' view a s h =
    let (x, at, later) = on_done-inv (insert fuel mask slots e) _ h in
    insert_all-Serves mask fuel es x slots' (extend view e) a.1
      (insert-Serves slots mask fuel view e s x a.0 at) later

extend_all-lookup :
    (view : View) (es : List CacheElement) (q : Bytes)
    → extend_all view es q ≡ elim (view q) [ some d ↦ some d | none ↦ lookup es q ]
unfolding extend_all or_element lookup
extend_all-lookup view [] q = split (view q)
  where
    split : (o : Option CacheElement) → o ≡ elim o [ some d ↦ some d | none ↦ none ]
    split none = refl
    split (some d) = refl
extend_all-lookup view (e ∷ es) q = extend_all-lookup (extend view e) es q ∙ split (view q)
  where
    split :
        (o : Option CacheElement)
        → elim (or_element o e q) [ some d ↦ some d | none ↦ lookup es q ]
          ≡ elim o [ some d ↦ some d | none ↦ lookup (e ∷ es) q ]
    split (some d) = refl
    split none = elim (Bool-cases (same_text e.path q)) [
      | inl same ↦ rw same refl
      | inr other ↦ rw other refl
    ]

replicate-empty : (n j : ℕ) (e : CacheElement) → get_elem? (replicate n none) j ≡ some (some e) → ⊥
replicate-empty zero j e h = cc
replicate-empty (suc n) zero e h = cc
replicate-empty (suc n) (suc j) e h = replicate-empty n j e h

new_elements-Hashed :
    (base_path : Bytes) (files : List (Bytes × Bytes)) → Hashed (new_elements base_path files)
unfolding Hashed new_elements new_element
new_elements-Hashed base_path [] = tt
new_elements-Hashed base_path (f ∷ fs) = (refl, new_elements-Hashed base_path fs)

empty-Serves : (n mask fuel : ℕ) → Serves (replicate n none) mask fuel (λ q. none)
empty-Serves n mask fuel = record {
  complete = λ q e h. absurd (not_both none refl h);
  sound = λ j e h. absurd (replicate-empty n j e h);
}

-- A search in a table that serves a view.
find_from-Serves :
    (slots : List Slot) (mask fuel : ℕ) (view : View) (path : Bytes) (e : CacheElement)
    → Serves slots mask fuel view
    → (find_from slots mask path (bit_and (hash path) mask) fuel (bit_and (hash path) mask)
        ≡ done (some e))
      ↔ (view path ≡ some e)
find_from-Serves slots mask fuel view path e s = (
  (λ h.
      let (j, at, same) = find_from_sound slots mask path _ fuel _ e h in
      ap view (sym (same_text-eq e.path path same)) ∙ s.sound j e at),
  λ h. find_from-Found slots mask path fuel _ e (s.complete path e h),
)

build-Serves :
    (fuel : ℕ) (es : List CacheElement) (cache : Cache)
    → Hashed es
    → build fuel es ≡ done cache
    → Serves cache.slots cache.mask fuel (extend_all (λ q. none) es)
unfolding build
build-Serves fuel es cache a h =
    let (slots, at, is) = on_done-inv (insert_all fuel _ _ es) _ h in
    subst (λ c. Serves c.slots c.mask fuel (extend_all (λ q. none) es)) (done_inj is)
      (insert_all-Serves _ fuel es _ slots _ a (empty-Serves _ _ fuel) at)

copied :
    (r : Result Slot) (e : CacheElement)
    → (on_done r (copy_element true) ≡ done (some e)) ↔ (r ≡ done (some e))
unfolding on_done copy_element
copied (done none) e = ((λ h. h), λ h. h)
copied (done (some d)) e = ((λ h. h), λ h. h)
copied error e = ((λ h. h), λ h. cc)
copied crash e = ((λ h. h), λ h. cc)
copied out_of_fuel e = ((λ h. h), λ h. cc)

-- The table that cache_load builds is the map from the paths of the files to their elements: where
-- cache_load succeeds, cache_find, given memory for the copy and the fuel that cache_load had, returns
-- an element exactly if it is the first element with this path in the list of the files.
pub cache_find-finds_loaded :
    (fuel : ℕ) (base_path : Bytes) (files : List (Bytes × Bytes)) (cache : Cache)
    → cache_load true fuel base_path files ≡ done cache
    → (path : Bytes) (e : CacheElement)
    → (cache_find true fuel (some cache) path ≡ done (some e))
      ↔ (lookup (new_elements base_path files) path ≡ some e)
unfolding cache_load cache_find find
cache_find-finds_loaded fuel base_path files cache loaded path e =
    let es = new_elements base_path files in
    let built : build fuel es ≡ done cache = not_error _ _ (not_error _ _ loaded) in
    let s = build-Serves fuel es cache (new_elements-Hashed base_path files) built in
    let found = find_from-Serves cache.slots cache.mask fuel _ path e s in
    let copy = copied (find fuel cache path) e in
    let same = extend_all-lookup (λ q. none) es path in
    ((λ h. sym same ∙ found.0 (copy.0 h)), λ h. copy.1 (found.1 (same ∙ h)))
