-- ===== src/Config/Block.antt =====
-- The growing blocks that the parsers of config.c write their texts to, and the character classes.
use nvhttpd.Base.{ℕ, ◌+◌, Bool, ◌||◌, ◌&&◌, [], ◌∷◌, ◌++◌, ltb, leb, ◌==◌, if◌then◌else◌, length}
use nvhttpd.Base.Chars.{Bytes, is_digit}
use nvhttpd.Config.State.{crash, M, return, stop, ◌>>=◌, allocate}

abbrev pub is_alnum : ℕ → Bool
is_alnum c = is_digit c || (leb b'A' c && leb c b'Z') || (leb b'a' c && leb c b'z')

-- `is_key_character` and `is_section_character` test for the same characters.
abbrev pub is_key_character : ℕ → Bool
is_key_character c = is_alnum c || c == b'_' || c == b'-'

abbrev pub memory_fragment_size : ℕ
memory_fragment_size = 32

-- The size of the block and the characters written from its start.
pub record Block : Type 0 where
  pub total : ℕ
  pub text : Bytes

unfoldable pub new_block : {U : Type 0} → M U Block
new_block = allocate >>= λ _. return (record { total = memory_fragment_size; text = [] })

-- `if (now == total) ...`: a larger block, by a fragment.
unfoldable pub make_room : {U : Type 0} → Block → M U Block
make_room b =
    if length b.text == b.total
    then (allocate >>= λ _. return (record b { total = b.total + memory_fragment_size }))
    else return b

-- `text[now++] = ch`
unfoldable pub write : {U : Type 0} → ℕ → Block → M U Block
write ch b =
    if ltb (length b.text) b.total
    then return (record b { text = b.text ++ ch ∷ [] })
    else stop crash

-- `text[now++] = 0`, with one more byte where the block is full; the result is the text.
unfoldable pub close_block : {U : Type 0} → Block → M U Bytes
close_block b =
    if length b.text == b.total then (allocate >>= λ _. return b.text) else return b.text
