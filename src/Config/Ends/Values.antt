-- ===== src/Config/Ends/Values.antt =====
-- `parse_key`, `parse_assignment_operator` and `parse_value` end.
use nvhttpd.Base.{ℕ, zero, suc, ◌≤◌, ◌<◌, Bool, true, false, [], ◌∷◌, ◌≡◌, arith, ◌==◌, ltb, length}
use nvhttpd.Base.Chars.{Bytes, is_space}
use nvhttpd.Config.State.{Core, unexpected_character, premature_eof, unexpected_eol, ◌>>=◌}
use nvhttpd.Config.Io.{io_eof}
use nvhttpd.Config.Block.{Block, is_key_character, new_block, make_room, write, close_block}
use nvhttpd.Config.Value.{
  append, key_loop, parse_key, parse_assignment_operator, escape_char, delimited_loop,
  parse_delimited_value, raw_loop, parse_raw_value, skip_blanks, parse_value,
}
use nvhttpd.Config.Ends.{
  Ends, return-Ends, bind, branch, peek, eat, line_on, skip-Ends, skip_any-Ends, fail-Ends,
}
use nvhttpd.Config.Ends.Still.{
  Still, still, Still-Ends, return-Still, crash-Still, branch-Still, bind-Still, allocate-Still,
}

module _ {U : Type 0} where
  pub new_block-Still : (c : Core U) → Still new_block c
  unfolding new_block
  new_block-Still c = bind-Still (allocate-Still c) (λ a d. return-Still _ d)

  make_room-Still : (b : Block) (c : Core U) → Still (make_room b) c
  unfolding make_room
  make_room-Still b c =
      branch-Still (length b.text == b.total)
        (bind-Still (allocate-Still c) (λ a d. return-Still _ d)) (return-Still b c)

  write-Still : (ch : ℕ) (b : Block) (c : Core U) → Still (write ch b) c
  unfolding write
  write-Still ch b c = branch-Still (ltb (length b.text) b.total) (return-Still _ c) (crash-Still c)

  pub append-Still : (ch : ℕ) (b : Block) (c : Core U) → Still (append ch b) c
  unfolding append
  append-Still ch b c = bind-Still (make_room-Still b c) (write-Still ch)

  pub close_block-Still : (b : Block) (c : Core U) → Still (close_block b) c
  unfolding close_block
  close_block-Still b c =
      branch-Still (length b.text == b.total)
        (bind-Still (allocate-Still c) (λ a d. return-Still _ d)) (return-Still b.text c)

  key_loop-Ends :
      (fuel : ℕ) (b : Block) (p : Bytes) (c : Core U) {n : ℕ}
      → length p < fuel
      → length p ≤ n
      → Ends (key_loop fuel b) p c n
  unfolding key_loop
  key_loop-Ends zero b p c lt short = absurd (omega arith)
  key_loop-Ends (suc fuel) b [] c lt short = peek _ [] (fail-Ends premature_eof [] c)
  key_loop-Ends (suc fuel) b (x ∷ xs) c lt short = peek _ (x ∷ xs) (
      branch (x == io_eof) (λ eof. fail-Ends premature_eof _ c)
        (λ char.
          branch (x == b'=') (λ t. return-Ends b _ c short)
            (λ t.
              branch (x == b';') (λ t. fail-Ends unexpected_character _ c)
                (λ t.
                  branch (x == b'\n')
                    (λ t. line_on _ (x ∷ xs) (eat _ x xs char (return-Ends b xs _ (omega arith))))
                    (λ t.
                      branch (is_space x) (λ t. eat _ x xs char (return-Ends b xs c (omega arith)))
                        (λ t.
                          branch (is_key_character x)
                            (λ t. eat _ x xs char (
                              still xs (append-Still x b c)
                                (λ b' d. key_loop-Ends fuel b' xs d (omega arith) (omega arith))))
                            (λ t. fail-Ends unexpected_character _ c)))))))

  pub parse_key-Ends :
      (fuel : ℕ) (p : Bytes) (c : Core U) {n : ℕ}
      → length p < fuel
      → length p ≤ n
      → Ends (parse_key fuel) p c n
  unfolding parse_key
  parse_key-Ends fuel p c {n} lt short = still p (new_block-Still c) (λ b d.
      bind {k = n} (key_loop-Ends fuel b p d (omega arith) (omega arith))
        (λ b' q' d' less'. Still-Ends q' less' (close_block-Still b' d')))

  pub parse_assignment_operator-Ends :
      (fuel : ℕ) (p : Bytes) (c : Core U) {n : ℕ}
      → length p < fuel
      → length p ≤ n
      → Ends (parse_assignment_operator fuel) p c n
  unfolding parse_assignment_operator
  parse_assignment_operator-Ends zero p c lt short = absurd (omega arith)
  parse_assignment_operator-Ends (suc fuel) [] c lt short = peek _ [] (fail-Ends premature_eof [] c)
  parse_assignment_operator-Ends (suc fuel) (x ∷ xs) c lt short = peek _ (x ∷ xs) (
      branch (x == io_eof) (λ eof. fail-Ends premature_eof _ c)
        (λ char.
          branch (x == b'=') (λ t. skip-Ends x xs char (omega arith))
            (λ t.
              branch (x == b'\n')
                (λ t. line_on _ (x ∷ xs) (
                  eat _ x xs char
                    (parse_assignment_operator-Ends fuel xs _ (omega arith) (omega arith))))
                (λ t.
                  branch (is_space x)
                    (λ t.
                      eat _ x xs char
                        (parse_assignment_operator-Ends fuel xs c (omega arith) (omega arith)))
                    (λ t. fail-Ends unexpected_character _ c)))))

  delimited_loop-Ends :
      (fuel : ℕ) (flag : Bool) (b : Block) (p : Bytes) (c : Core U) {n : ℕ}
      → length p < fuel
      → length p ≤ n
      → Ends (delimited_loop fuel flag b) p c n
  unfolding delimited_loop
  delimited_loop-Ends zero flag b p c lt short = absurd (omega arith)
  delimited_loop-Ends (suc fuel) flag b [] c lt short = peek _ [] (fail-Ends premature_eof [] c)
  delimited_loop-Ends (suc fuel) flag b (x ∷ xs) c {n} lt short =
      let again : (flag : Bool) (b : Block) (q : Bytes) (d : Core U)
          → length q ≤ length xs
          → Ends (delimited_loop fuel flag b) q d n =
        λ flag b q d less. delimited_loop-Ends fuel flag b q d (omega arith) (omega arith) in
      let stored : (ch : ℕ) (b : Block) (q : Bytes) (d : Core U)
          → length q ≤ length xs
          → Ends (write ch b >>= delimited_loop fuel false) q d n =
        λ ch b q d less. still q (write-Still ch b d) (λ b' d'. again false b' q d' less) in
      peek _ (x ∷ xs) (
        branch (x == io_eof) (λ eof. fail-Ends premature_eof _ c)
          (λ char.
            branch (x == b'\n') (λ t. fail-Ends unexpected_eol _ c)
              (λ t. eat _ x xs char (
                still xs (make_room-Still b c) (λ b' d.
                  branch flag (λ t. stored (escape_char x) b' xs d (omega arith))
                    (λ t.
                      branch (x == b'\\') (λ t. again true b' xs d (omega arith))
                        (λ t.
                          branch (x == b'"') (λ t. return-Ends b' xs d (omega arith))
                            (λ t. stored x b' xs d (omega arith)))))))))

  raw_loop-Ends :
      (fuel : ℕ) (b : Block) (p : Bytes) (c : Core U) {n : ℕ}
      → length p < fuel
      → length p ≤ n
      → Ends (raw_loop fuel b) p c n
  unfolding raw_loop
  raw_loop-Ends zero b p c lt short = absurd (omega arith)
  raw_loop-Ends (suc fuel) b [] c lt short = peek _ [] (return-Ends b [] c short)
  raw_loop-Ends (suc fuel) b (x ∷ xs) c lt short = peek _ (x ∷ xs) (
      branch (x == io_eof) (λ eof. return-Ends b _ c short)
        (λ char.
          branch (x == b'\n') (λ t. return-Ends b _ c short)
            (λ t.
              branch (is_space x) (λ t. return-Ends b _ c short)
                (λ t.
                  branch (x == b';') (λ t. return-Ends b _ c short)
                    (λ t. eat _ x xs char (
                      still xs (append-Still x b c)
                        (λ b' d. raw_loop-Ends fuel b' xs d (omega arith) (omega arith))))))))

  skip_blanks-Ends :
      (fuel : ℕ) (p : Bytes) (c : Core U) {n : ℕ}
      → length p < fuel
      → length p ≤ n
      → Ends (skip_blanks fuel) p c n
  unfolding skip_blanks
  skip_blanks-Ends zero p c lt short = absurd (omega arith)
  skip_blanks-Ends (suc fuel) [] c lt short = peek _ [] (fail-Ends premature_eof [] c)
  skip_blanks-Ends (suc fuel) (x ∷ xs) c lt short = peek _ (x ∷ xs) (
      branch (x == io_eof) (λ eof. fail-Ends premature_eof _ c)
        (λ char.
          branch (x == b';') (λ t. fail-Ends unexpected_character _ c)
            (λ t.
              branch (x == b'\n')
                (λ t.
                  line_on _ (x ∷ xs)
                    (eat _ x xs char (skip_blanks-Ends fuel xs _ (omega arith) (omega arith))))
                (λ t.
                  branch (is_space x)
                    (λ t. eat _ x xs char (skip_blanks-Ends fuel xs c (omega arith) (omega arith)))
                    (λ t. return-Ends x _ c short)))))

  parse_delimited_value-Ends :
      (fuel : ℕ) (p : Bytes) (c : Core U) {n : ℕ}
      → length p < fuel
      → length p ≤ n
      → Ends (parse_delimited_value fuel) p c n
  unfolding parse_delimited_value
  parse_delimited_value-Ends fuel p c {n} lt short =
      bind {k = length p} (skip_any-Ends p (omega arith)) (λ a q d less.
        still q (new_block-Still d) (λ b d'.
          bind {k = n} (delimited_loop-Ends fuel false b q d' (omega arith) (omega arith))
            (λ b' s e less''. Still-Ends s less'' (close_block-Still b' e))))

  parse_raw_value-Ends :
      (fuel : ℕ) (p : Bytes) (c : Core U) {n : ℕ}
      → length p < fuel
      → length p ≤ n
      → Ends (parse_raw_value fuel) p c n
  unfolding parse_raw_value
  parse_raw_value-Ends fuel p c {n} lt short = still p (new_block-Still c) (λ b d.
      bind {k = n} (raw_loop-Ends fuel b p d (omega arith) (omega arith))
        (λ b' s e less'. Still-Ends s less' (close_block-Still b' e)))

  pub parse_value-Ends :
      (fuel : ℕ) (p : Bytes) (c : Core U) {n : ℕ}
      → length p < fuel
      → length p ≤ n
      → Ends (parse_value fuel) p c n
  unfolding parse_value
  parse_value-Ends fuel p c lt short =
      bind {k = length p} (skip_blanks-Ends fuel p c lt (omega arith)) (λ ch q d less.
        branch (ch == b'"') (λ t. parse_delimited_value-Ends fuel q d (omega arith) (omega arith))
          (λ t. parse_raw_value-Ends fuel q d (omega arith) (omega arith)))

  -- At a character of a key, the key is read at least that far.
  pub parse_key-eats :
      (fuel : ℕ) (x : ℕ) (xs : Bytes) (c : Core U) {n : ℕ}
      → is_key_character x ≡ true
      → x == io_eof ≡ false
      → suc (length xs) < fuel
      → length xs ≤ n
      → Ends (parse_key fuel) (x ∷ xs) c n
  unfolding parse_key key_loop
  parse_key-eats zero x xs c key char lt short = absurd (omega arith)
  parse_key-eats (suc fuel) x xs c {n} key char lt short =
      still (x ∷ xs) (new_block-Still c) (λ b d.
        bind {k = n}
          (peek _ (x ∷ xs) (
            branch (x == io_eof) (λ eof. fail-Ends premature_eof _ d)
              (λ t.
                branch (x == b'=') (λ t. absurd (ground arith))
                  (λ t.
                    branch (x == b';') (λ t. absurd (ground arith))
                      (λ t.
                        branch (x == b'\n') (λ t. absurd (ground arith))
                          (λ t.
                            branch (is_space x) (λ t. absurd (ground arith))
                              (λ t.
                                branch (is_key_character x)
                                  (λ t. eat _ x xs char (
                                    still xs (append-Still x b d) (λ b' d'.
                                      key_loop-Ends fuel b' xs d' (omega arith) (omega arith))))
                                  (λ t. fail-Ends unexpected_character _ d))))))))
          (λ b' s e less. Still-Ends s less (close_block-Still b' e)))
