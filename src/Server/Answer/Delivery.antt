-- ===== src/Server/Answer/Delivery.antt =====
-- The loop that writes the answer.
use nvhttpd.Base.{
  ℕ, zero, suc, ◌+◌, ◌-◌, ◌%◌, ◌^◌, ◌≤◌, ◌<◌, Bool, true, false, List, [], ◌∷◌, ◌++◌, ◌≡◌, refl,
  sym, ap, ◌∙◌, ltb, leb, ◌==◌, if◌then◌else◌, length, take, drop, arith, append-nil, append_assoc,
  Bool-cases, inl, inr,
}
use nvhttpd.Base.Chars.{Bytes}
use nvhttpd.Server.Answer.{
  WriteResult, takes, write_failed, next_write, written, http_write, closed, undefined, write_loop,
}

-- No call of send or SSL_write_ex fails, and each takes at least one byte.
abbrev pub IsOpen : List WriteResult → Type 0
IsOpen [] = Unit
IsOpen (takes zero ∷ xs) = ⊥
IsOpen (takes (suc n) ∷ xs) = IsOpen xs
IsOpen (write_failed ∷ xs) = ⊥

-- A round of the loop: `n` bytes are taken.
record Takes (ssl : Bool) (len : ℕ) (writes : List WriteResult) (n : ℕ) : Type 0 where
  size : http_write ssl len (next_write len writes).0 ≡ n
  out : written len (next_write len writes).0 ≡ n
  some_taken : 0 < n
  within : n ≤ len
  later : IsOpen (next_write len writes).1

if_same : (b : Bool) (n : ℕ) → (if b then n else n) ≡ n
if_same true n = refl
if_same false n = refl

IsOpen-Takes :
    (ssl : Bool) (len : ℕ) (writes : List WriteResult)
    → IsOpen writes
    → 0 < len
    → (n : ℕ) × Takes ssl len writes n
unfolding next_write http_write written
IsOpen-Takes ssl len [] ready pos = (
  len,
  record {
    size = if_same (ltb len len) len;
    out = if_same (ltb len len) len;
    some_taken = pos;
    within = omega arith;
    later = tt;
  },
)
IsOpen-Takes ssl len (takes zero ∷ xs) ready pos = absurd ready
IsOpen-Takes ssl len (write_failed ∷ xs) ready pos = absurd ready
IsOpen-Takes ssl len (takes (suc n) ∷ xs) ready pos = elim (Bool-cases (ltb (suc n) len)) [
  | inl less ↦ (
    suc n,
    record {
      size = rw less refl;
      out = rw less refl;
      some_taken = omega arith;
      within = ground arith;
      later = ready;
    },
  )
  | inr more ↦ (
    len,
    record {
      size = rw more refl;
      out = rw more refl;
      some_taken = pos;
      within = omega arith;
      later = ready;
    },
  )
]

take-drop : (n : ℕ) (xs : Bytes) → take n xs ++ drop n xs ≡ xs
take-drop zero xs = refl
take-drop (suc n) [] = refl
take-drop (suc n) (x ∷ xs) = ap (λ ys. x ∷ ys) (take-drop n xs)

take-drop_behind :
    (n k i : ℕ) (xs : Bytes) → i ≡ k + n → take n (drop k xs) ++ drop i xs ≡ drop k xs
take-drop_behind n zero i xs e = ap (λ j. take n xs ++ drop j xs) (omega arith) ∙ take-drop n xs
take-drop_behind n (suc k) zero xs e = absurd (omega arith)
take-drop_behind zero (suc k) (suc i) [] e = refl
take-drop_behind (suc n) (suc k) (suc i) [] e = refl
take-drop_behind n (suc k) (suc i) (x ∷ xs) e = take-drop_behind n k i xs (omega arith)

drop-all : (k : ℕ) (xs : Bytes) → k ≡ length xs → drop k xs ≡ []
drop-all zero [] e = refl
drop-all zero (x ∷ xs) e = absurd (omega arith)
drop-all (suc k) [] e = refl
drop-all (suc k) (x ∷ xs) e = drop-all k xs (omega arith)

-- The rest of the loop, on the numbers that do not wrap around.
write_loop-round :
    (fuel : ℕ) (ssl : Bool) (writes : List WriteResult) (output : Bytes) (offset n len : ℕ)
    (sent : Bytes)
    → 0 < n
    → n ≤ len
    → offset + len < 2 ^ 64
    → len < 2 ^ 64
    → write_loop fuel ssl writes output (offset + n) (len - n) (sent ++ take n (drop offset output))
      ≡ closed ((sent ++ take n (drop offset output)) ++ drop (offset + n) output)
    → write_loop fuel ssl writes output
        ((offset + n) % 2 ^ 64)
        ((len + (2 ^ 64 - n)) % 2 ^ 64)
        (sent ++ take n (drop offset output))
      ≡ closed (sent ++ drop offset output)
write_loop-round fuel ssl writes output offset n len sent some_taken within short less again =
    let there : (offset + n) % 2 ^ 64 ≡ offset + n = omega arith in
    let left : (len + (2 ^ 64 - n)) % 2 ^ 64 ≡ len - n = omega arith in
    ap
      (λ i.
        write_loop fuel ssl writes output i ((len + (2 ^ 64 - n)) % 2 ^ 64)
          (sent ++ take n (drop offset output)))
      there
    ∙ ap
        (λ i.
          write_loop fuel ssl writes output (offset + n) i (sent ++ take n (drop offset output)))
        left
    ∙ again
    ∙ ap closed (
        append_assoc sent (take n (drop offset output)) (drop (offset + n) output)
        ∙ ap (λ xs. sent ++ xs) (take-drop_behind n offset (offset + n) output refl))

write_loop-rest :
    (fuel : ℕ) (ssl : Bool) (writes : List WriteResult) (output : Bytes) (offset out_len : ℕ)
    (sent : Bytes)
    → IsOpen writes
    → offset + out_len ≡ length output
    → length output < 2 ^ 64
    → out_len < fuel
    → write_loop fuel ssl writes output offset out_len sent ≡ closed (sent ++ drop offset output)
unfolding write_loop
write_loop-rest zero ssl writes output offset out_len sent ready whole short lt =
    absurd (omega arith)
write_loop-rest (suc fuel) ssl writes output offset zero sent ready whole short lt =
    ap closed
      (sym (append-nil sent) ∙ ap (λ xs. sent ++ xs) (sym (drop-all offset output (omega arith))))
write_loop-rest (suc fuel) ssl writes output offset (suc m) sent ready whole short lt =
    let (n, t) = IsOpen-Takes ssl (suc m) writes ready (omega arith) in
    let within = t.within in
    let taken = t.some_taken in
    let fits : leb (offset + suc m) (length output) ≡ true = ground arith in
    let moves : n == 0 ≡ false = ground arith in
    let some_left : suc m == 0 ≡ false = ground arith in
    rw (some_left, fits, t.size, t.out, moves)
      (write_loop-round fuel ssl (next_write (suc m) writes).1 output offset n (suc m) sent taken
        within (omega arith) (omega arith)
        (write_loop-rest fuel ssl (next_write (suc m) writes).1 output (offset + n) (suc m - n)
          (sent ++ take n (drop offset output)) t.later (omega arith) short (omega arith)))

-- Where the connection takes at least one byte at each call, and no call fails, the loop ends and
-- the whole answer has gone out, however it was cut into pieces; the answer is shorter than 2 ^ 64,
-- and the fuel is above its length.
pub write_loop-sends :
    (fuel : ℕ) (ssl : Bool) (writes : List WriteResult) (output : Bytes)
    → IsOpen writes
    → length output < 2 ^ 64
    → length output < fuel
    → write_loop fuel ssl writes output 0 (length output) [] ≡ closed output
write_loop-sends fuel ssl writes output ready short lt =
    write_loop-rest fuel ssl writes output 0 (length output) [] ready (omega arith) short lt

-- Without TLS, where the first call of send fails on an answer that is not empty, the loop goes on
-- and reads in front of the block (for an answer with one byte more below 2 ^ 64).
pub write_loop_failed :
    (fuel : ℕ) (writes : List WriteResult) (c : ℕ) (cs : Bytes)
    → length (c ∷ cs) + 1 < 2 ^ 64
    → write_loop (suc (suc fuel)) false (write_failed ∷ writes) (c ∷ cs) 0 (length (c ∷ cs)) []
      ≡ undefined
unfolding write_loop http_write next_write written
write_loop_failed fuel writes c cs short =
    let some_left : suc (length cs) == 0 ≡ false = ground arith in
    let fits : leb (0 + suc (length cs)) (suc (length cs)) ≡ true = ground arith in
    let more_left : (suc (length cs) + 1) % 2 ^ 64 == 0 ≡ false = ground arith in
    let outside : leb (2 ^ 64 - 1 + (suc (length cs) + 1) % 2 ^ 64) (suc (length cs)) ≡ false =
      ground arith in
    rw (some_left, fits, more_left, outside) refl
