-- ===== src/Config/Io/Means.antt =====
-- What a function of the parser does on the bytes that the file still has, however `read` cuts them
-- into pieces.
use mathlib.Core.Path.{subst}
use nvhttpd.Base.{
  ℕ, zero, suc, ◌+◌, ◌≤◌, ◌<◌, true, false, List, [], ◌∷◌, ◌++◌, ◌≡◌, refl, sym, ap, ◌⊎◌, inl, inr,
  ◌∙◌, arith, ◌==◌, if◌then◌else◌, length, take, drop, length-append, length-drop, take-append,
  get_elem?-of_drop,
}
use nvhttpd.Base.Chars.{Bytes, pos}
use nvhttpd.Http.{ReadResult, received, failed, next_result}
use nvhttpd.Config.State.{Reader, Core, Outcome, done, M, go_on, ◌>>=◌, return}
use nvhttpd.Config.Io.{
  io_eof, buffer_size, load, fill, peek_at, peek, io_peek, pred_int, advance, io_next,
}

-- What calls of `read` that do not fail return before the end of the file.
abbrev pub NoFailure : List ReadResult → Type 0
NoFailure [] = Unit
NoFailure (received bs ∷ xs) = (0 < length bs) × (length bs ≤ buffer_size) × NoFailure xs
NoFailure (failed ∷ xs) = ⊥

abbrev pub flat : List ReadResult → Bytes
flat [] = []
flat (received bs ∷ xs) = bs ++ flat xs
flat (failed ∷ xs) = flat xs

-- The reader has these bytes to come: those of the buffer from `ptr` on, `count` of them, and those
-- of the file.
pub record Holds (r : Reader) (p : Bytes) : Type 0 where
  pub is_open : r.is_open ≡ true
  pub block : length r.buffer ≡ buffer_size
  pub count : ℕ
  pub len : r.len ≡ pos count
  pub fits : r.ptr + count ≤ buffer_size
  pub bytes : take count (drop r.ptr r.buffer) ++ flat r.file ≡ p
  pub arrives : NoFailure r.file

-- The next char, as `io_peek` shows it.
abbrev pub head_of : Bytes → ℕ
head_of [] = io_eof
head_of (c ∷ cs) = c

-- From `p` to come and the variables `c`, the function ends in `o`, with `q` to come and the
-- variables `d`.
pub record Means {U A : Type 0} (m : M U A) (p : Bytes) (c : Core U) (o : Outcome A) (q : Bytes)
    (d : Core U) : Type 0 where
  pub from : (r : Reader) → Holds r p → (s : Reader) × (m r c ≡ (o, s, d)) × Holds s q

abbrev rest_of : Bytes → Bytes
rest_of [] = []
rest_of (c ∷ cs) = cs

-- The reader that has read the block `b ∷ bs`.
abbrev read_block : Reader → ℕ → Bytes → List ReadResult → Reader
read_block r b bs xs = record r {
  file = xs;
  buffer = b ∷ (bs ++ drop (length (b ∷ bs)) r.buffer);
  len = pos (length (b ∷ bs));
  ptr = 0;
}

abbrev moved : Reader → Reader
moved r = record r { len = pred_int r.len; ptr = r.ptr + 1 }

-- A peek that shows the first of the bytes to come, and leaves it in the buffer.
record Shows (x : Outcome ℕ × Reader) (p : Bytes) : Type 0 where
  out : x.0 ≡ done (head_of p)
  holds : Holds x.1 p
  loaded : (b : ℕ) (bs : Bytes) → p ≡ b ∷ bs → Holds (moved x.1) bs

peek_lem : (r : Reader) (n : ℕ) → r.is_open ≡ true → r.len ≡ pos n → peek r ≡ peek_at (pos n) r
unfolding peek
peek_lem r n o l =
    ap (λ b. if b then peek_at r.len r else (done io_eof, r)) o ∙ ap (λ l. peek_at l r) l

-- The buffer is at a byte.
at_byte-Shows :
    (r : Reader) (b : ℕ) (bs : Bytes) (n : ℕ)
    → r.is_open ≡ true
    → length r.buffer ≡ buffer_size
    → r.len ≡ pos (suc n)
    → r.ptr + suc n ≤ buffer_size
    → drop r.ptr r.buffer ≡ b ∷ bs
    → NoFailure r.file
    → Shows (load r) (b ∷ (take n bs ++ flat r.file))
unfolding load
at_byte-Shows r b bs n o l len fits e a =
    let one_on : r.ptr + 1 ≡ suc r.ptr = omega arith in
    let (found, behind) = get_elem?-of_drop r.buffer r.ptr e in
    rw (found, load)
      (record {
        out = refl;
        holds = record {
          is_open = o;
          block = l;
          count = suc n;
          len = len;
          fits = fits;
          bytes = ap (λ xs. take (suc n) xs ++ flat r.file) e;
          arrives = a;
        };
        loaded = λ b' bs' same. record {
          is_open = o;
          block = l;
          count = n;
          len = ap pred_int len;
          fits = omega (arith, fits);
          bytes =
              ap (λ i. take n (drop i r.buffer) ++ flat r.file) one_on
              ∙ ap (λ xs. take n xs ++ flat r.file) behind
              ∙ ap rest_of same;
          arrives = a;
        };
      })

-- The file has a block more, and it is read.
filled-Shows :
    (r : Reader) (b : ℕ) (bs : Bytes) (xs : List ReadResult)
    → r.is_open ≡ true
    → length r.buffer ≡ buffer_size
    → length (b ∷ bs) ≤ buffer_size
    → NoFailure xs
    → Shows (fill (received (b ∷ bs)) (record r { file = xs })) (b ∷ (bs ++ flat xs))
unfolding fill
filled-Shows r b bs xs o l fits a =
    let later = drop (length (b ∷ bs)) r.buffer in
    let all = take-append bs later in
    let some_read : length (b ∷ bs) == 0 ≡ false = ground arith in
    rw some_read (
      subst (λ ys. Shows (load (read_block r b bs xs)) (b ∷ (ys ++ flat xs))) all
        (at_byte-Shows (read_block r b bs xs) b (bs ++ later) (length bs) o
          (omega (arith, length-append bs later, length-drop (length (b ∷ bs)) r.buffer)) refl
          (omega arith) refl a))

peek_filled :
    (r : Reader) (xs : List ReadResult)
    → r.file ≡ xs
    → peek_at (pos 0) r ≡ fill (next_result xs).0 (record r { file = (next_result xs).1 })
unfolding peek_at
peek_filled r xs e = ap (λ f. fill (next_result f).0 (record r { file = (next_result f).1 })) e

ended-Shows :
    (r : Reader)
    → r.is_open ≡ true
    → length r.buffer ≡ buffer_size
    → r.ptr ≤ buffer_size
    → Shows (fill (received []) (record r { file = [] })) []
unfolding fill
ended-Shows r o l fits = record {
  out = refl;
  holds = record {
    is_open = o;
    block = l;
    count = 0;
    len = refl;
    fits = omega arith;
    bytes = refl;
    arrives = tt;
  };
  loaded = λ b bs h. absurd (empty h);
}
  where
    empty : {b : ℕ} {bs : Bytes} → [] ≡ b ∷ bs → ⊥
    empty h = cc

drop-cases : (xs : Bytes) → (xs ≡ []) ⊎ ((b : ℕ) × (bs : Bytes) × (xs ≡ b ∷ bs))
drop-cases [] = inl refl
drop-cases (b ∷ bs) = inr (b, bs, refl)

peek-Shows : (r : Reader) (p : Bytes) → Holds r p → Shows (peek r) p
unfolding next_result peek_at
peek-Shows r p h =
    subst (λ x. Shows x p) (sym (peek_lem r h.count h.is_open h.len))
      (go h.count r.file refl refl h.bytes h.arrives)
  where
    file_only :
        {xs : List ReadResult}
        → h.count ≡ 0
        → r.file ≡ xs
        → take h.count (drop r.ptr r.buffer) ++ flat r.file ≡ p
        → flat xs ≡ p
    file_only n f e =
        ap flat (sym f) ∙ ap (λ k. take k (drop r.ptr r.buffer) ++ flat r.file) (sym n) ∙ e

    from_file :
        (xs : List ReadResult)
        → NoFailure xs
        → Shows (fill (next_result xs).0 (record r { file = (next_result xs).1 })) (flat xs)
    from_file [] a = ended-Shows r h.is_open h.block (omega (arith, h.fits))
    from_file (failed ∷ xs) a = absurd a
    from_file (received [] ∷ xs) a = absurd (omega arith)
    from_file (received (b ∷ bs) ∷ xs) a = filled-Shows r b bs xs h.is_open h.block a.1 a.2

    go :
        (n : ℕ) (xs : List ReadResult)
        → h.count ≡ n
        → r.file ≡ xs
        → take h.count (drop r.ptr r.buffer) ++ flat r.file ≡ p
        → NoFailure r.file
        → Shows (peek_at (pos n) r) p
    go zero xs n f e a =
        subst (λ x. Shows x p) (sym (peek_filled r xs f))
          (subst (Shows _) (file_only n f e) (from_file xs (rw f at a)))
    go (suc n) xs nn f e a = elim (drop-cases (drop r.ptr r.buffer)) [
      | inl none_left ↦
          absurd
            (omega (arith, ap length none_left, length-drop r.ptr r.buffer, h.block, h.fits, nn))
      | inr (b, bs, here) ↦
          subst (Shows (load r))
            (ap (λ ys. take (suc n) ys ++ flat r.file) (sym here)
              ∙ ap (λ k. take k (drop r.ptr r.buffer) ++ flat r.file) (sym nn)
              ∙ e)
            (at_byte-Shows r b bs n h.is_open h.block (h.len ∙ ap pos nn)
              (omega (arith, h.fits, nn)) here a)
    ]

-- `io_peek` shows the next char.
pub io_peek-Means : {U : Type 0} (p : Bytes) (c : Core U) → Means io_peek p c (done (head_of p)) p c
unfolding io_peek
io_peek-Means p c = record {
  from =
      λ r h. let s = peek-Shows r p h in ((peek r).1, ap (λ o. (o, (peek r).1, c)) s.out, s.holds);
}

-- `io_next` reads it, unless it is NUL or the end of the file.
pub io_next-Means :
    {U : Type 0} (b : ℕ) (bs : Bytes) (c : Core U)
    → b == io_eof ≡ false
    → Means io_next (b ∷ bs) c (done b) bs c
unfolding io_next ◌>>=◌ go_on io_peek advance return
io_next-Means b bs c char = record {
  from = λ r h.
      let s = peek-Shows r (b ∷ bs) h in
      (moved (peek r).1, rw (s.out, go_on, char), s.loaded b bs refl);
}

-- At NUL or the end of the file `io_next` moves nothing.
pub io_next_end-Means :
    {U : Type 0} (p : Bytes) (c : Core U) → head_of p ≡ io_eof → Means io_next p c (done io_eof) p c
unfolding io_next ◌>>=◌ go_on io_peek return
io_next_end-Means p c last = record {
  from = λ r h.
      let s = peek-Shows r p h in
      let out : (peek r).0 ≡ done io_eof = s.out ∙ ap done last in
      ((peek r).1, rw (out, go_on), s.holds);
}
