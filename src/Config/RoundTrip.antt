-- ===== src/Config/RoundTrip.antt =====
-- A configuration file as it is written, and what its assignments do.
pub mod Blocks
pub mod Values
pub mod Quoted
pub mod Sections
pub mod File
use nvhttpd.Base.{
  ℕ, suc, ◌+◌, ◌<◌, Bool, true, ◌||◌, List, [], ◌∷◌, Option, none, some, ◌++◌, ◌≡◌, ◌≢◌, ◌==◌,
  if◌then◌else◌, length,
}
use nvhttpd.Base.Chars.{Bytes}
use nvhttpd.Config.State.{Core, Outcome, done, Handler}
use nvhttpd.Config.Block.{is_key_character, memory_fragment_size}

-- A line of the file: `[name]`, or a key and its value.
pub data Entry : Type 0 where
  section_line : Bytes → Entry
  assignment : Bytes → Bytes → Entry

-- A char between the quotes.
abbrev pub escaped : ℕ → Bytes
escaped c =
    if c == b'"'
    then b'\\' ∷ b'"' ∷ []
    else if c == b'\\'
    then b'\\' ∷ b'\\' ∷ []
    else if c == b'\n'
    then b'\\' ∷ b'n' ∷ []
    else c ∷ []

abbrev pub quoted : Bytes → Bytes
quoted [] = b'"' ∷ []
quoted (c ∷ cs) = escaped c ++ quoted cs

abbrev pub print_entry : Entry → Bytes
print_entry (section_line name) = b'[' ∷ (name ++ b']' ∷ b'\n' ∷ [])
print_entry (assignment key value) = key ++ b'=' ∷ b'"' ∷ (quoted value ++ b'\n' ∷ [])

abbrev pub print : List Entry → Bytes
print [] = []
print (e ∷ es) = print_entry e ++ print es

-- Every char passes the test.
abbrev pub All : (ℕ → Bool) → Bytes → Type 0
All test [] = Unit
All test (c ∷ cs) = (test c ≡ true) × All test cs

abbrev pub is_name_character : ℕ → Bool
is_name_character c = is_key_character c || c == 32

abbrev pub NoNul : Bytes → Type 0
NoNul [] = Unit
NoNul (c ∷ cs) = (c ≢ 0) × NoNul cs

-- A key has a char, and chars of keys only; a value has no NUL; a section's name has chars of
-- keys and blanks only, and fewer than a block holds.
abbrev pub IsWritten : List Entry → Type 0
IsWritten [] = Unit
IsWritten (section_line name ∷ es) =
    All is_name_character name × (length name < memory_fragment_size) × IsWritten es
IsWritten (assignment key value ∷ es) =
    (key ≢ []) × All is_key_character key × NoNul value × IsWritten es

-- What the assignments make of `user`, each in the section that stands before it.
abbrev pub assigned :
    {U : Type 0} → (Option Bytes → Bytes → Bytes → U → U) → List Entry → Option Bytes → U → U
assigned change [] section user = user
assigned change (section_line name ∷ es) section user = assigned change es (some name) user
assigned change (assignment key value ∷ es) section user =
    assigned change es section (change section key value user)

abbrev pub last_section : List Entry → Option Bytes → Option Bytes
last_section [] section = section
last_section (section_line name ∷ es) section = last_section es (some name)
last_section (assignment key value ∷ es) section = last_section es section

-- A handler that accepts every assignment.
abbrev pub accepting : {U : Type 0} → (Option Bytes → Bytes → Bytes → U → U) → Handler U
accepting change section key value user = (done tt, change section key value user)

-- The variables where every allocation succeeds.
abbrev pub core : {U : Type 0} → Option Bytes → ℕ → U → Core U
core section line user = record { section = section; line = line; allocations = []; user = user }
