-- ===== src/Config/Tests.antt =====
-- config.c on a small file, with a handler that keeps the assignments.
use nvhttpd.Base.{
  ℕ, true, false, List, [], ◌∷◌, Option, none, some, ◌++◌, ◌≡◌, ◌≢◌, refl, arith, drop, replicate,
}
use nvhttpd.Base.Chars.{Bytes, codes}
use nvhttpd.Http.{ReadResult, received, failed, next_result}
use nvhttpd.Config.State.{
  Outcome, done, fail, crash, out_of_fuel, unexpected_character, premature_eof, unexpected_eol,
  return, stop, go_on, ◌>>=◌, next_line, set_section, next_allocation, allocate, call_handler,
}
use nvhttpd.Config.Io.{load, fill, peek_at, peek, io_peek, advance, io_next, buffer_size}
use nvhttpd.Config.Block.{new_block, make_room, write, close_block}
use nvhttpd.Config.Value.{
  escape_char, skip, append, key_loop, parse_key, parse_assignment_operator, delimited_loop,
  parse_delimited_value, raw_loop, parse_raw_value, skip_blanks, parse_value,
}
use nvhttpd.Config.Section.{section_loop, close_section, parse_section, parse_comment}
use nvhttpd.Config.Parse.{parse_assignment, read_file, config_parse}
use nvhttpd.Config.RoundTrip.{
  Entry, section_line, assignment, print, IsWritten, assigned, accepting,
}
use nvhttpd.Config.RoundTrip.File.{config_parse-print}
use nvhttpd.Config.Chunks.{Delivers, config_parse_chunks, config_parse_ends}

program : Unit {0}
unfolding next_result return stop go_on ◌>>=◌ next_line set_section next_allocation allocate
    call_handler load fill peek_at peek io_peek advance io_next new_block make_room write
    close_block escape_char skip append key_loop parse_key parse_assignment_operator delimited_loop
    parse_delimited_value raw_loop parse_raw_value skip_blanks parse_value section_loop
    close_section parse_section parse_comment parse_assignment read_file config_parse
program = tt

-- The section, the key and the value of an assignment.
abbrev Triple : Type 0
Triple = Option Bytes × Bytes × Bytes

abbrev keep : Option Bytes → Bytes → Bytes → List Triple → Outcome (Unit {0}) × List Triple
keep section key value kept = (done tt, kept ++ (section, key, value) ∷ [])

abbrev memory : Bytes
memory = replicate buffer_size 0

abbrev parsed : Bytes → Outcome (Unit {0}) × ℕ × List Triple
parsed file = config_parse keep 60 (some (codes "n")) (some (received file ∷ [])) memory [] []

keeps_assignments : parsed (codes "[server]\nport = 80 ; http\nname=\"a\\tb\"\n") ≡ (
  done tt,
  4,
  (some (codes "server"), codes "port", codes "80")
      ∷ (some (codes "server"), codes "name", b'a' ∷ 9 ∷ b'b' ∷ [])
      ∷ [],
)
unfolding program
keeps_assignments = refl

-- An empty value takes the text of the next line.
takes_next_line :
    parsed (codes "ip=\n[server]\n") ≡ (done tt, 3, (none, codes "ip", codes "[server]") ∷ [])
unfolding program
takes_next_line = refl

stops_at_comment : parsed (codes "a=;b\n") ≡ (fail unexpected_character, 1, [])
unfolding program
stops_at_comment = refl

stops_at_eol : parsed (codes "a=\"b\n\"") ≡ (fail unexpected_eol, 1, [])
unfolding program
stops_at_eol = refl

stops_at_eof : parsed (codes "\nab") ≡ (fail premature_eof, 2, [])
unfolding program
stops_at_eof = refl

-- A section name of 32 characters.
writes_behind_block : (parsed (b'[' ∷ (replicate 32 b'a' ++ b']' ∷ []))).0 ≡ crash
unfolding program
writes_behind_block = refl

-- A call of `read` fails behind a raw value: the value is taken, and the next call of io_peek shows
-- the byte behind it in the buffer, which is none of the file.
reads_on_after_failure :
    config_parse keep 60
      (some (codes "n"))
      (some (received (codes "a=b") ∷ failed ∷ []))
      (replicate buffer_size 63)
      []
      []
    ≡ (fail unexpected_character, 1, (none, codes "a", codes "b") ∷ [])
unfolding program
reads_on_after_failure = refl

abbrev text : Bytes
text = codes "[s]\nk=v\n"

abbrev whole : List ReadResult
whole = received text ∷ []

abbrev cut : List ReadResult
cut = received (codes "[s") ∷ received (codes "]\nk") ∷ received (codes "=v\n") ∷ []

whole-Delivers : Delivers whole memory text
whole-Delivers = record { arrives = (omega arith, omega arith, tt); block = refl; whole = refl }

cut-Delivers : Delivers cut memory text
cut-Delivers = record {
  arrives = (omega arith, omega arith, (omega arith, omega arith, (omega arith, omega arith, tt)));
  block = refl;
  whole = refl;
}

config_parse_chunks_example :
    config_parse keep 10 (some (codes "n")) (some whole) memory [] []
    ≡ config_parse keep 10 (some (codes "n")) (some cut) memory [] []
config_parse_chunks_example =
    config_parse_chunks keep (λ s k v u h. cc) 10 (some (codes "n")) whole cut memory memory text []
      [] whole-Delivers cut-Delivers (omega arith)

config_parse_ends_example :
    (config_parse keep 10 (some (codes "n")) (some whole) memory (true ∷ false ∷ []) []).0
    ≢ out_of_fuel
config_parse_ends_example =
    config_parse_ends keep (λ s k v u h. cc) 10 (some (codes "n")) whole memory text
      (true ∷ false ∷ []) [] whole-Delivers (omega arith)

abbrev entries : List Entry
entries =
    section_line (codes "my server")
    ∷ assignment (codes "name") (b'a' ∷ b'"' ∷ b'\n' ∷ b'\\' ∷ [])
    ∷ assignment (codes "port") []
    ∷ []

printed_entries : print entries ≡ codes "[my server]\nname=\"a\\\"\\n\\\\\"\nport=\"\"\n"
printed_entries = refl

abbrev note : Option Bytes → Bytes → Bytes → List Triple → List Triple
note section key value kept = kept ++ (section, key, value) ∷ []

abbrev printed_file : List ReadResult
printed_file = received (codes "[my server]\nname=") ∷ received (drop 17 (print entries)) ∷ []

printed_file-Delivers : Delivers printed_file memory (print entries)
printed_file-Delivers = record {
  arrives = (omega arith, omega arith, (omega arith, omega arith, tt));
  block = refl;
  whole = refl;
}

entries-IsWritten : IsWritten entries
entries-IsWritten = (
  (refl, (refl, (refl, (refl, (refl, (refl, (refl, (refl, (refl, tt))))))))),
  omega arith,
  (
    (λ h. cc),
    (refl, (refl, (refl, (refl, tt)))),
    ((λ h. cc), ((λ h. cc), ((λ h. cc), ((λ h. cc), tt)))),
    ((λ h. cc), (refl, (refl, (refl, (refl, tt)))), tt, tt),
  ),
)

config_parse-print_example :
    config_parse (accepting note) 60 (some (codes "n")) (some printed_file) memory [] []
    ≡ (done tt, 4, assigned note entries none [])
config_parse-print_example =
    config_parse-print note 60 b'n' [] printed_file memory entries [] printed_file-Delivers
      entries-IsWritten (omega arith)
