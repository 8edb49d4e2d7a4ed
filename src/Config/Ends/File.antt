-- ===== src/Config/Ends/File.antt =====
-- `read_file` and `config_parse` end.
use nvhttpd.Base.{
  ℕ, zero, suc, ◌≤◌, ◌<◌, true, false, [], ◌∷◌, Option, ◌≡◌, ◌≢◌, refl, ◌||◌, arith, ◌==◌, length,
}
use nvhttpd.Base.Chars.{Bytes, is_space}
use nvhttpd.Config.State.{
  Core, Handler, out_of_fuel, premature_eof, unexpected_character, call_handler,
}
use nvhttpd.Config.Io.{io_eof}
use nvhttpd.Config.Block.{Block, is_key_character}
use nvhttpd.Config.Section.{section_loop, close_section, parse_section, parse_comment}
use nvhttpd.Config.Parse.{parse_assignment, read_file}
use nvhttpd.Config.Ends.{Ends, return-Ends, bind, branch, peek, eat, line_on, fail-Ends, crash-Ends}
use nvhttpd.Config.Ends.Still.{Still, still, Still-Ends, allocate-Still, set_section-Still}
use nvhttpd.Config.Ends.Values.{
  new_block-Still, append-Still, parse_key-eats, parse_assignment_operator-Ends, parse_value-Ends,
}

module _ {U : Type 0} where
  section_loop-Ends :
      (fuel : ℕ) (b : Block) (p : Bytes) (c : Core U) {n : ℕ}
      → length p < fuel
      → length p ≤ n
      → Ends (section_loop fuel b) p c n
  unfolding section_loop
  section_loop-Ends zero b p c lt short = absurd (omega arith)
  section_loop-Ends (suc fuel) b [] c lt short = peek _ [] (fail-Ends premature_eof [] c)
  section_loop-Ends (suc fuel) b (x ∷ xs) c lt short = peek _ (x ∷ xs) (
      branch (x == io_eof) (λ eof. fail-Ends premature_eof _ c)
        (λ char.
          branch (x == b']') (λ t. eat _ x xs char (return-Ends b xs c (omega arith)))
            (λ t.
              branch (x == b';') (λ t. fail-Ends unexpected_character _ c)
                (λ t.
                  branch (x == b'\n') (λ t. fail-Ends unexpected_character _ c)
                    (λ t.
                      branch (is_key_character x || is_space x)
                        (λ t. still (x ∷ xs) (append-Still x b c) (λ b' d.
                          eat _ x xs char
                            (section_loop-Ends fuel b' xs d (omega arith) (omega arith))))
                        (λ t. fail-Ends unexpected_character _ c))))))

  close_section-Ends :
      (b : Block) (p : Bytes) (c : Core U) {n : ℕ} → length p ≤ n → Ends (close_section b) p c n
  unfolding close_section
  close_section-Ends b p c short =
      branch (length b.text == b.total) (λ full. still p (allocate-Still c) (λ a d. crash-Ends p d))
        (λ room. Still-Ends p short (set_section-Still b.text c))

  parse_section-Ends :
      (fuel : ℕ) (p : Bytes) (c : Core U) {n : ℕ}
      → length p < fuel
      → length p ≤ n
      → Ends (parse_section fuel) p c n
  unfolding parse_section
  parse_section-Ends fuel p c {n} lt short = still p (new_block-Still c) (λ b d.
      bind {k = n} (section_loop-Ends fuel b p d (omega arith) (omega arith))
        (λ b' s e less'. close_section-Ends b' s e less'))

  parse_comment-Ends :
      (fuel : ℕ) (p : Bytes) (c : Core U) {n : ℕ}
      → length p < fuel
      → length p ≤ n
      → Ends (parse_comment fuel) p c n
  unfolding parse_comment
  parse_comment-Ends zero p c lt short = absurd (omega arith)
  parse_comment-Ends (suc fuel) [] c lt short = peek _ [] (return-Ends tt [] c short)
  parse_comment-Ends (suc fuel) (x ∷ xs) c lt short = peek _ (x ∷ xs) (
      branch (x == io_eof) (λ eof. return-Ends tt _ c short)
        (λ char.
          branch (x == b'\n') (λ t. return-Ends tt _ c short)
            (λ t. eat _ x xs char (parse_comment-Ends fuel xs c (omega arith) (omega arith)))))

-- A handler that returns.
abbrev pub Returns : {U : Type 0} → Handler U → Type 0
Returns {U} handler =
    (section : Option Bytes) (key value : Bytes) (user : U)
    → (handler section key value user).0 ≢ out_of_fuel

module _ {U : Type 0} (handler : Handler U) (returns : Returns handler) where
  call_handler-Still : (key value : Bytes) (c : Core U) → Still (call_handler handler key value) c
  unfolding call_handler
  call_handler-Still key value c = record {
    out = _;
    after = _;
    runs = λ r. refl;
    fuelled = returns c.section key value c.user;
  }

  parse_assignment-eats :
      (fuel : ℕ) (x : ℕ) (xs : Bytes) (c : Core U) {n : ℕ}
      → is_key_character x ≡ true
      → x == io_eof ≡ false
      → suc (length xs) < fuel
      → length xs ≤ n
      → Ends (parse_assignment handler fuel) (x ∷ xs) c n
  unfolding parse_assignment
  parse_assignment-eats fuel x xs c {n} key char lt short =
      bind {k = length xs} (parse_key-eats fuel x xs c key char lt (omega arith)) (λ k q d less.
        bind {k = length xs} (parse_assignment_operator-Ends fuel q d (omega arith) less)
          (λ a s e less'.
            bind {k = n} (parse_value-Ends fuel s e (omega arith) (omega arith))
              (λ v s' e' less''. Still-Ends s' less'' (call_handler-Still k v e'))))

  pub read_file-Ends :
      (fuel : ℕ) (p : Bytes) (c : Core U) {n : ℕ}
      → suc (length p) < fuel
      → length p ≤ n
      → Ends (read_file handler fuel) p c n
  unfolding read_file
  read_file-Ends zero p c lt short = absurd (omega arith)
  read_file-Ends (suc fuel) [] c lt short = peek _ [] (return-Ends tt [] c short)
  read_file-Ends (suc fuel) (x ∷ xs) c {n} lt short =
      let again : (a : Unit {0}) (q : Bytes) (d : Core U)
          → length q ≤ length xs
          → Ends (read_file handler fuel) q d n =
        λ a q d less. read_file-Ends fuel q d (omega arith) (omega arith) in
      peek _ (x ∷ xs) (
        branch (x == io_eof) (λ eof. return-Ends tt _ c short)
          (λ char.
            branch (x == b'[')
              (λ t.
                eat _ x xs char
                  (bind (parse_section-Ends fuel xs c (omega arith) (omega arith)) again))
              (λ t.
                branch (x == b';')
                  (λ t.
                    eat _ x xs char
                      (bind (parse_comment-Ends fuel xs c (omega arith) (omega arith)) again))
                  (λ t.
                    branch (x == b'\n')
                      (λ t. line_on _ (x ∷ xs) (eat _ x xs char (again tt xs _ (omega arith))))
                      (λ t.
                        branch (is_key_character x)
                          (λ t.
                            bind
                              (parse_assignment-eats fuel x xs c t char (omega arith) (omega arith))
                              again)
                          (λ t.
                            branch (is_space x) (λ t. eat _ x xs char (again tt xs c (omega arith)))
                              (λ t. fail-Ends unexpected_character _ c)))))))
