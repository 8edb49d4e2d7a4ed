-- ===== src/Cache/Serves.antt =====
-- How an insertion into the table extends the map that the searches in it see.
use Prim.Native.Nat.{bit_and}
use mathlib.Core.Path.{subst}
use nvhttpd.Base.{
  ℕ, Bool, true, false, List, [], ◌∷◌, Option, none, some, ◌≡◌, refl, sym, ap, ◌∙◌, ◌⊎◌, inl, inr,
  get_elem?, Bool-cases, if◌then◌else◌,
}
use nvhttpd.Base.Chars.{Bytes}
use nvhttpd.Cache.{
  CacheElement, Slot, Result, done, error, crash, out_of_fuel, on_done, same_text, hash, set_slot,
  probe, fill, insert,
}
use nvhttpd.Cache.Probe.{
  same_text_refl, same_text-eq, Stops, probe-Stops, Passes-set_slot, set_slot-same, set_slot-other,
}
use nvhttpd.Cache.Search.{Found, Found-set_slot, Stops-Found}

-- The first element with the path.
unfoldable pub lookup : List CacheElement → Bytes → Option CacheElement
lookup [] q = none
lookup (e ∷ es) q = if same_text e.path q then some e else lookup es q

abbrev pub View : Type 0
View = Bytes → Option CacheElement

unfoldable pub or_element : Option CacheElement → CacheElement → Bytes → Option CacheElement
or_element (some d) e q = some d
or_element none e q = if same_text e.path q then some e else none

abbrev pub extend : View → CacheElement → View
extend view e q = or_element (view q) e q

-- The searches in the table give what the view gives.
pub record Serves (slots : List Slot) (mask fuel : ℕ) (view : View) : Type 0 where
  pub complete :
      (q : Bytes) (e : CacheElement)
      → view q ≡ some e
      → Found slots mask q fuel (bit_and (hash q) mask) e
  pub sound : (j : ℕ) (e : CacheElement) → get_elem? slots j ≡ some (some e) → view e.path ≡ some e

or_element-some :
    (o : Option CacheElement) (d e : CacheElement) (q : Bytes)
    → o ≡ some d
    → or_element o e q ≡ some d
unfolding or_element
or_element-some o d e q h = rw h refl

or_element-none :
    (o : Option CacheElement) (e : CacheElement) (q : Bytes)
    → o ≡ none
    → same_text e.path q ≡ true
    → or_element o e q ≡ some e
unfolding or_element
or_element-none o e q h same = rw (h, same) refl

or_element-cases :
    (o : Option CacheElement) (d e : CacheElement) (q : Bytes)
    → or_element o e q ≡ some d
    → (o ≡ some d) ⊎ ((o ≡ none) × (e ≡ d) × (same_text e.path q ≡ true))
unfolding or_element
or_element-cases (some c) d e q h = inl h
or_element-cases none d e q h = elim (Bool-cases (same_text e.path q)) [
  | inl same ↦ let got : some e ≡ some d = rw same at h in inr (refl, cc, same)
  | inr other ↦ let got : nothing ≡ some d = rw other at h in absurd (differ got)
]
  where
    nothing : Option CacheElement
    nothing = none

    differ : nothing ≡ some d → ⊥
    differ h = cc

option-cases : (o : Option CacheElement) → (o ≡ none) ⊎ ((d : CacheElement) × (o ≡ some d))
option-cases none = inl refl
option-cases (some d) = inr (d, refl)

abbrev ended : {A : Type 0} → A → Result A
ended a = done a

pub done_inj : {A : Type 0} {a b : A} → ended a ≡ ended b → a ≡ b
done_inj h = cc

pub on_done-inv :
    {A B : Type 0} (r : Result A) (f : A → Result B) {b : B}
    → on_done r f ≡ done b
    → (a : A) × (r ≡ done a) × (f a ≡ done b)
unfolding on_done
on_done-inv (done a) f h = (a, refl, h)
on_done-inv error f h = cc
on_done-inv crash f h = cc
on_done-inv out_of_fuel f h = cc

pub not_error :
    {A : Type 0} (b : Bool) (x : Result A) {a : A} → (if b then error else x) ≡ done a → x ≡ done a
not_error true x h = cc
not_error false x h = h

pub not_both : {d : CacheElement} (o : Option CacheElement) → o ≡ none → o ≡ some d → ⊥
not_both o h k = cc

module _ (slots : List Slot) (mask fuel : ℕ) (view : View) (e : CacheElement)
    (s : Serves slots mask fuel view) where
  module _ (j : ℕ) (stop : Stops slots mask e.path fuel (bit_and (hash e.path) mask) j none) where
    fresh_path : view e.path ≡ none
    fresh_path = elim (option-cases (view e.path)) [
      | inl fresh ↦ fresh
      | inr (d, is) ↦
          absurd (Stops-Found slots mask e.path fuel _ d j (s.complete e.path d is) stop)
    ]

    stored-Found : Found (set_slot slots j (some e)) mask e.path fuel (bit_and (hash e.path) mask) e
    stored-Found = record {
      count = stop.count;
      in_fuel = stop.in_fuel;
      passes = Passes-set_slot slots mask e.path stop.count _ j (some e) stop.slot stop.passes;
      slot =
          ap (get_elem? (set_slot slots j (some e))) stop.place
          ∙ set_slot-same slots j (some e) none stop.slot;
      matches = same_text_refl e.path;
    }

    stored-Serves : Serves (set_slot slots j (some e)) mask fuel (extend view e)
    stored-Serves = record {
      complete = λ q d h. elim (or_element-cases (view q) d e q h) [
        | inl old ↦ Found-set_slot slots mask q fuel _ d j (some e) stop.slot (s.complete q d old)
        | inr (fresh, is, same) ↦ moved q d is (same_text-eq e.path q same)
      ];
      sound = λ i d h. elim (set_slot-other slots i j (some e)) [
        | inl here ↦ own d (
            sym (set_slot-same slots j (some e) none stop.slot)
            ∙ ap (get_elem? (set_slot slots j (some e))) (sym here)
            ∙ h)
        | inr kept ↦ or_element-some (view d.path) d e d.path (s.sound i d (sym kept ∙ h))
      ];
    }
      where
        moved :
            (q : Bytes) (d : CacheElement)
            → e ≡ d
            → e.path ≡ q
            → Found (set_slot slots j (some e)) mask q fuel (bit_and (hash q) mask) d
        moved q d is path =
            subst (λ x. Found (set_slot slots j (some e)) mask q fuel (bit_and (hash q) mask) x) is
              (subst (λ p. Found (set_slot slots j (some e)) mask p fuel (bit_and (hash p) mask) e)
                path stored-Found)

        full : CacheElement → Option Slot
        full x = some (some x)

        own : (d : CacheElement) → full e ≡ full d → extend view e d.path ≡ some d
        own d h =
            let is : e ≡ d = cc in
            subst (λ x. extend view e x.path ≡ some x) is
              (or_element-none (view e.path) e e.path fresh_path (same_text_refl e.path))

  present-Serves :
      (j : ℕ) (d : CacheElement)
      → Stops slots mask e.path fuel (bit_and (hash e.path) mask) j (some d)
      → Serves slots mask fuel (extend view e)
  present-Serves j d stop = record {
    complete = λ q x h. elim (or_element-cases (view q) x e q h) [
      | inl old ↦ s.complete q x old
      | inr (fresh, is, same) ↦
          absurd (not_both (view q) fresh (ap view (sym (same_text-eq e.path q same)) ∙ known))
    ];
    sound = λ i x h. or_element-some (view x.path) x e x.path (s.sound i x h);
  }
    where
      known : view e.path ≡ some d
      known =
          ap view (sym (same_text-eq d.path e.path (stop.matches d refl))) ∙ s.sound j d stop.slot

  filled-Serves :
      (r : Result (ℕ × Slot)) (slots' : List Slot)
      → probe slots mask e.path fuel (bit_and (hash e.path) mask) ≡ r
      → fill slots e r ≡ done slots'
      → Serves slots' mask fuel (extend view e)
  unfolding fill
  filled-Serves (done (j, none)) slots' at h =
      subst (λ x. Serves x mask fuel (extend view e)) (done_inj h)
        (stored-Serves j (probe-Stops slots mask e.path fuel _ j none at))
  filled-Serves (done (j, some d)) slots' at h =
      subst (λ x. Serves x mask fuel (extend view e)) (done_inj h)
        (present-Serves j d (probe-Stops slots mask e.path fuel _ j (some d) at))
  filled-Serves error slots' at h = cc
  filled-Serves crash slots' at h = cc
  filled-Serves out_of_fuel slots' at h = cc

  pub insert-Serves :
      (slots' : List Slot)
      → e.hash ≡ hash e.path
      → insert fuel mask slots e ≡ done slots'
      → Serves slots' mask fuel (extend view e)
  unfolding insert
  insert-Serves slots' hashed h =
      filled-Serves (probe slots mask e.path fuel (bit_and e.hash mask)) slots'
        (ap (λ n. probe slots mask e.path fuel (bit_and n mask)) (sym hashed)) h
