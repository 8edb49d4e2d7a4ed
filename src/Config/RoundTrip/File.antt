-- ===== src/Config/RoundTrip/File.antt =====
-- A file that is written line by line is read back.
use mathlib.Core.Path.{subst}
use nvhttpd.Base.{
  ℕ, zero, suc, ◌+◌, ◌≤◌, ◌<◌, List, [], ◌∷◌, Option, none, some, ◌++◌, ◌≡◌, refl, sym, ap, ◌∙◌,
  arith, length, length-append, append_assoc,
}
use nvhttpd.Base.Chars.{Bytes}
use nvhttpd.Http.{ReadResult}
use nvhttpd.Config.State.{Core, Outcome, done, next_line, next_allocation, call_handler}
use nvhttpd.Config.Io.Means.{Means}
use nvhttpd.Config.Block.{is_key_character, memory_fragment_size}
use nvhttpd.Config.Value.{parse_key, parse_assignment_operator, parse_value}
use nvhttpd.Config.Section.{parse_section}
use nvhttpd.Config.Parse.{parse_assignment, read_file, opened, outcome_of, config_parse}
use nvhttpd.Config.Ends.{chain, return-Means}
use nvhttpd.Config.Chunks.{Delivers, Delivers-Holds}
use nvhttpd.Config.RoundTrip.{
  Entry, section_line, assignment, quoted, print, print_entry, All, is_name_character, NoNul,
  IsWritten, assigned, last_section, accepting, core,
}
use nvhttpd.Config.RoundTrip.Blocks.{peeks, eats, on_true, on_false}
use nvhttpd.Config.RoundTrip.Values.{key_char_tests, parse_key-Means}
use nvhttpd.Config.RoundTrip.Sections.{parse_section-Means}
use nvhttpd.Config.RoundTrip.Quoted.{parse_value-Means, parse_assignment_operator-Means}

length-section_line :
    (name p : Bytes) → length (print_entry (section_line name) ++ p) ≡ length name + 3 + length p
length-section_line name p = omega (
  arith,
  length-append (print_entry (section_line name)) p,
  length-append name (b']' ∷ b'\n' ∷ []),
)

length-assignment :
    (key value p : Bytes)
    → length (print_entry (assignment key value) ++ p)
      ≡ length key + length (quoted value) + 3 + length p
length-assignment key value p = omega (
  arith,
  length-append (print_entry (assignment key value)) p,
  length-append key (b'=' ∷ b'"' ∷ (quoted value ++ b'\n' ∷ [])),
  length-append (quoted value) (b'\n' ∷ []),
)

length-print : (e : Entry) (p : Bytes) → 1 < length (print_entry e ++ p)
length-print (section_line name) p = omega (arith, length-section_line name p)
length-print (assignment key value) p = omega (arith, length-assignment key value p)

module _ {U : Type 0} (change : Option Bytes → Bytes → Bytes → U → U) where
  newline-Means :
      (s : Option Bytes) (l : ℕ) (u : U) (fuel : ℕ) (p q : Bytes) (o : Outcome (Unit {0}))
      (d : Core U)
      → Means (read_file (accepting change) fuel) p (core s (suc l) u) o q d
      → Means (read_file (accepting change) (suc fuel)) (b'\n' ∷ p) (core s l u) o q d
  unfolding read_file next_line
  newline-Means s l u fuel p q o d later =
      peeks _ (b'\n' ∷ p)
        (chain next_line _ (record { from = λ r h. (r, refl, h) }) (eats _ b'\n' p refl later))

  section-Means :
      (s : Option Bytes) (l : ℕ) (u : U) (fuel : ℕ) (name p q : Bytes) (d : Core U)
      → length name < suc fuel
      → All is_name_character name
      → length name < memory_fragment_size
      → Means (read_file (accepting change) fuel) p (core (some name) (suc l) u) (done tt) q d
      → Means
          (read_file (accepting change) (suc (suc fuel)))
          (print_entry (section_line name) ++ p)
          (core s l u)
          (done tt)
          q
          d
  unfolding read_file
  section-Means s l u fuel name p q d lt chars fits later =
      let tail = name ++ (b']' ∷ b'\n' ∷ p) in
      subst
        (λ z.
          Means (read_file (accepting change) (suc (suc fuel))) (b'[' ∷ z) (core s l u) (done tt) q
            d)
        (sym (append_assoc name (b']' ∷ b'\n' ∷ []) p))
        (peeks _ (b'[' ∷ tail) (
          eats _ b'[' tail refl (
            chain (parse_section (suc fuel)) _
              (parse_section-Means s l u (suc fuel) name (b'\n' ∷ p) lt chars fits)
              (newline-Means (some name) l u fuel p q (done tt) d later))))

  parse_assignment-Means :
      (s : Option Bytes) (l : ℕ) (u : U) (fuel : ℕ) (key value p : Bytes)
      → length key < suc fuel
      → length (quoted value) ≤ fuel
      → All is_key_character key
      → NoNul value
      → Means
          (parse_assignment (accepting change) (suc fuel))
          (key ++ b'=' ∷ b'"' ∷ (quoted value ++ p))
          (core s l u)
          (done tt)
          p
          (core s l (change s key value u))
  unfolding parse_assignment call_handler
  parse_assignment-Means s l u fuel key value p lt less chars no_nul =
      let rest = b'"' ∷ (quoted value ++ p) in
      chain (parse_key (suc fuel)) _ (parse_key-Means s l u (suc fuel) key rest lt chars) (
        chain (parse_assignment_operator (suc fuel)) _
          (parse_assignment_operator-Means s l u fuel rest)
          (chain (parse_value (suc fuel)) _ (parse_value-Means s l u fuel value p less no_nul)
            (record { from = λ r h. (r, refl, h) })))

  assignment-Means :
      (s : Option Bytes) (l : ℕ) (u : U) (fuel x : ℕ) (key value p q : Bytes) (d : Core U)
      → length (x ∷ key) < suc fuel
      → length (quoted value) ≤ fuel
      → All is_key_character (x ∷ key)
      → NoNul value
      → Means
          (read_file (accepting change) fuel)
          p
          (core s (suc l) (change s (x ∷ key) value u))
          (done tt)
          q
          d
      → Means
          (read_file (accepting change) (suc (suc fuel)))
          (print_entry (assignment (x ∷ key) value) ++ p)
          (core s l u)
          (done tt)
          q
          d
  unfolding read_file
  assignment-Means s l u fuel x key value p q d lt less chars no_nul later =
      let (t₁, t₂, t₃, t₄, t₅, t₆, t₇) = key_char_tests x chars.0 in
      let p' = b'\n' ∷ p in
      let whole = x ∷ (key ++ b'=' ∷ b'"' ∷ (quoted value ++ p')) in
      let same : print_entry (assignment (x ∷ key) value) ++ p ≡ whole =
        append_assoc (x ∷ key) (b'=' ∷ b'"' ∷ (quoted value ++ b'\n' ∷ [])) p
        ∙ ap (λ z. x ∷ (key ++ b'=' ∷ b'"' ∷ z)) (append_assoc (quoted value) (b'\n' ∷ []) p) in
      subst
        (λ z. Means (read_file (accepting change) (suc (suc fuel))) z (core s l u) (done tt) q d)
        (sym same)
        (peeks _ whole (
          on_false _ t₁ (
            on_false _ t₆ (
              on_false _ t₃ (
                on_false _ t₄ (
                  on_true _ chars.0 (
                    chain (parse_assignment (accepting change) (suc fuel)) _
                      (parse_assignment-Means s l u fuel (x ∷ key) value p' lt less chars no_nul)
                      (newline-Means s l (change s (x ∷ key) value u) fuel p q (done tt) d
                        later))))))))

  -- The number of the line behind the entries.
  abbrev line_behind : ℕ → List Entry → ℕ
  line_behind l [] = l
  line_behind l (e ∷ es) = line_behind (suc l) es

  line_behind-length : (l : ℕ) (es : List Entry) → line_behind l es ≡ l + length es
  line_behind-length l [] = omega arith
  line_behind-length l (e ∷ es) = omega (arith, line_behind-length (suc l) es)

  read_file-Means :
      (s : Option Bytes) (l : ℕ) (u : U) (fuel : ℕ) (es : List Entry)
      → IsWritten es
      → length (print es) < fuel
      → Means
          (read_file (accepting change) fuel)
          (print es)
          (core s l u)
          (done tt)
          []
          (core (last_section es s) (line_behind l es) (assigned change es s u))
  unfolding read_file
  read_file-Means s l u zero es w lt = absurd (omega arith)
  read_file-Means s l u (suc fuel) [] w lt = peeks _ [] (return-Means tt [] (core s l u))
  read_file-Means s l u (suc zero) (e ∷ es) w lt = absurd (omega (arith, length-print e (print es)))
  read_file-Means s l u (suc (suc fuel)) (section_line name ∷ es) w lt =
      let size = length-section_line name (print es) in
      section-Means s l u fuel name (print es) [] _ (omega (arith, lt, size)) w.0 w.1
        (read_file-Means (some name) (suc l) u fuel es w.2 (omega (arith, lt, size)))
  read_file-Means s l u (suc (suc fuel)) (assignment [] value ∷ es) w lt = absurd (w.0 refl)
  read_file-Means s l u (suc (suc fuel)) (assignment (x ∷ key) value ∷ es) w lt =
      let size = length-assignment (x ∷ key) value (print es) in
      assignment-Means s l u fuel x key value (print es) [] _ (omega (arith, lt, size))
        (omega (arith, lt, size)) w.1 w.2
        (read_file-Means s (suc l) (change s (x ∷ key) value u) fuel es w.3
          (omega (arith, lt, size)))

  -- A file with a printed list of entries, which `read` cuts in any pieces, is read back: where every
  -- allocation succeeds and the handler accepts every assignment, config_parse succeeds behind as
  -- many lines as there are entries, and the handler has had every assignment, in its order, with the
  -- section above it.
  pub config_parse-print :
      (fuel n : ℕ) (ns : Bytes) (file : List ReadResult) (memory : Bytes) (es : List Entry)
      (user : U)
      → Delivers file memory (print es)
      → IsWritten es
      → length (print es) < fuel
      → config_parse (accepting change) fuel (some (n ∷ ns)) (some file) memory [] user
        ≡ (done tt, 1 + length es, assigned change es none user)
  unfolding config_parse next_allocation
  config_parse-print fuel n ns file memory es user d w lt =
      let m = read_file-Means none 1 user fuel es w lt in
      let (after, run, holds) =
        m.from (opened file memory) (Delivers-Holds file memory (print es) d) in
      ap outcome_of run
      ∙ ap (λ l. (done tt, l, assigned change es none user)) (line_behind-length 1 es)
