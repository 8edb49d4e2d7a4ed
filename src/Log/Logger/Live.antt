-- ===== src/Log/Logger/Live.antt =====
-- Which outputs are in use: lists without repetition.
use nvhttpd.Base.{
  ℕ, Bool, true, false, ◌||◌, List, [], ◌∷◌, ◌++◌, ◌≡◌, refl, sym, ap, ◌∙◌, arith, ◌==◌,
  if◌then◌else◌,
}
use nvhttpd.Log.Fifo.{Apart}
use nvhttpd.Log.Logger.{without}

unfoldable pub contains : ℕ → List ℕ → Bool
contains a [] = false
contains a (x ∷ xs) = a == x || contains a xs

unfoldable pub Distinct : List ℕ → Type 0
Distinct [] = Unit {0}
Distinct (x ∷ xs) = (contains x xs ≡ false) × Distinct xs

pub contains-append :
    (a : ℕ) (xs ys : List ℕ) → contains a (xs ++ ys) ≡ (contains a xs || contains a ys)
unfolding contains
contains-append a [] ys = refl
contains-append a (x ∷ xs) ys = ground (arith, contains-append a xs ys)

pub contains-Apart : (a : ℕ) (xs : List ℕ) → contains a xs ≡ false → Apart a xs
unfolding contains Apart
contains-Apart a [] h = tt
contains-Apart a (x ∷ xs) h = (ground arith, contains-Apart a xs (ground arith))

-- An element moves to the end.
pub contains_moved :
    (b a : ℕ) (xs ys : List ℕ) → contains b (xs ++ a ∷ ys) ≡ contains b (xs ++ ys ++ a ∷ [])
unfolding contains
contains_moved b a [] [] = refl
contains_moved b a [] (y ∷ ys) = ground (arith, contains_moved b a [] ys)
contains_moved b a (x ∷ xs) ys = ground (arith, contains_moved b a xs ys)

Distinct-last :
    (a : ℕ) (ys : List ℕ) → contains a ys ≡ false → Distinct ys → Distinct (ys ++ a ∷ [])
unfolding contains Distinct
Distinct-last a [] fresh d = (refl, tt)
Distinct-last a (y ∷ ys) fresh d =
    (contains-append y ys (a ∷ []) ∙ ground (arith, d.0), Distinct-last a ys (ground arith) d.1)

pub Distinct-moved :
    (a : ℕ) (xs ys : List ℕ) → Distinct (xs ++ a ∷ ys) → Distinct (xs ++ ys ++ a ∷ [])
unfolding Distinct
Distinct-moved a [] ys d = Distinct-last a ys d.0 d.1
Distinct-moved a (x ∷ xs) ys d = (sym (contains_moved x a xs ys) ∙ d.0, Distinct-moved a xs ys d.1)

-- An element is taken out.
pub Distinct-dropped :
    (a : ℕ) (xs ys : List ℕ)
    → Distinct (xs ++ a ∷ ys)
    → Distinct (xs ++ ys) × (contains a (xs ++ ys) ≡ false)
unfolding contains Distinct
Distinct-dropped a [] ys d = (d.1, d.0)
Distinct-dropped a (x ∷ xs) ys d =
    let rest = Distinct-dropped a xs ys d.1 in
    let first = contains-append x xs (a ∷ ys) in
    let later = contains-append x xs ys in ((ground arith, rest.0), ground arith)

pub contains_dropped :
    (b a : ℕ) (xs ys : List ℕ)
    → contains b (xs ++ a ∷ ys) ≡ (if b == a then true else contains b (xs ++ ys))
unfolding contains
contains_dropped b a [] ys = ground arith
contains_dropped b a (x ∷ xs) ys = ground (arith, contains_dropped b a xs ys)

pub without_lem :
    (a : ℕ) (xs ys : List ℕ) → contains a xs ≡ false → without a (xs ++ a ∷ ys) ≡ xs ++ ys
unfolding contains
without_lem a [] ys h = ground arith
without_lem a (x ∷ xs) ys h =
    let other : x == a ≡ false = ground arith in
    rw other (ap (◌∷◌ x) (without_lem a xs ys (ground arith)))

pub contains_parts :
    (a : ℕ) (xs ys : List ℕ)
    → contains a (xs ++ ys) ≡ false
    → (contains a xs ≡ false) × (contains a ys ≡ false)
contains_parts a xs ys h = let parts = contains-append a xs ys in (ground arith, ground arith)
