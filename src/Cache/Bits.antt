-- ===== src/Cache/Bits.antt =====
-- `&` with a mask of ones, as the indices of the table use it.
use Prim.Native.Nat.{min, bit_and, digits, bit_and-bitwise}
use native.Mathlib.Omega.{pow_step}
use nvhttpd.Base.{ℕ, zero, suc, ◌+◌, ◌-◌, ◌*◌, ◌/◌, ◌%◌, ◌^◌, ◌≤◌, ◌<◌, ◌≡◌, refl, ap, arith}

-- The operation by recursion on the digits of its first argument; more rounds change nothing.
abbrev conj : ℕ → ℕ → ℕ → ℕ
conj rounds x y = digits (λ b. zero) min rounds x y

conj-rounds : (r k x y : ℕ) → x ≤ r → x ≤ k → conj r x y ≡ conj k x y
conj-rounds zero zero x y hr hk = refl
conj-rounds (suc r) (suc k) (suc x) y hr hk =
    let again = conj-rounds r k (suc x / 2) (y / 2) (omega arith) (omega arith) in
    omega (arith, again)
conj-rounds (suc r) (suc k) zero y hr hk = refl
conj-rounds zero (suc k) x y hr hk = let none_left : x ≡ 0 = omega arith in rw none_left refl
conj-rounds (suc r) zero x y hr hk = let none_left : x ≡ 0 = omega arith in rw none_left refl

-- One digit.
bit_and-halves : (x y : ℕ) → bit_and x y ≡ bit_and (x / 2) (y / 2) * 2 + min (x % 2) (y % 2)
bit_and-halves zero y = omega (arith, bit_and-bitwise 0 y, bit_and-bitwise 0 (y / 2))
bit_and-halves (suc x) y =
    let inner = bit_and-bitwise (suc x / 2) (y / 2) in
    let same = conj-rounds x (suc x / 2) (suc x / 2) (y / 2) (omega arith) (omega arith) in
    omega (arith, bit_and-bitwise (suc x) y, inner, same)

at_most_from : (n x y : ℕ) → x + y ≤ n → bit_and x y ≤ y
at_most_from zero x y h =
    let none_left : x ≡ 0 = omega arith in
    omega (arith, ap (λ z. bit_and z y) none_left, bit_and-bitwise 0 y)
at_most_from (suc n) x y h =
    omega (arith, bit_and-halves x y, at_most_from n (x / 2) (y / 2) (omega arith))

pub bit_and_at_most : (x y : ℕ) → bit_and x y ≤ y
bit_and_at_most x y = at_most_from (x + y) x y (omega arith)

pow_double : (j : ℕ) → 2 ^ suc j ≡ 2 ^ j * 2
pow_double j = ground (arith, pow_step 2 j)

pow_pos : (j : ℕ) → 0 < 2 ^ j
pow_pos zero = omega arith
pow_pos (suc j) = omega (arith, pow_double j, pow_pos j)

pub bit_and_low : (j x : ℕ) → x < 2 ^ j → bit_and x (2 ^ j - 1) ≡ x
bit_and_low zero x lt = let none_left : x ≡ 0 = omega arith in rw none_left refl
bit_and_low (suc j) x lt =
    let halves = bit_and-halves x (2 ^ suc j - 1) in
    let double = pow_double j in
    let pos = pow_pos j in
    let half : (2 ^ suc j - 1) / 2 ≡ 2 ^ j - 1 = omega (arith, double, pos) in
    let again = bit_and_low j (x / 2) (omega (arith, double)) in
    omega (arith, halves, double, pos, ap (bit_and (x / 2)) half, again)

pub bit_and_wraps : (j : ℕ) → bit_and (2 ^ j) (2 ^ j - 1) ≡ 0
bit_and_wraps zero = refl
bit_and_wraps (suc j) =
    let halves = bit_and-halves (2 ^ suc j) (2 ^ suc j - 1) in
    let double = pow_double j in
    let pos = pow_pos j in
    let half : (2 ^ suc j - 1) / 2 ≡ 2 ^ j - 1 = omega (arith, double, pos) in
    let whole : 2 ^ suc j / 2 ≡ 2 ^ j = omega (arith, double) in
    omega (
      arith,
      halves,
      double,
      pos,
      ap (λ x. bit_and x ((2 ^ suc j - 1) / 2)) whole,
      ap (bit_and (2 ^ j)) half,
      bit_and_wraps j,
    )
