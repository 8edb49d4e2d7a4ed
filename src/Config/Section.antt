-- ===== src/Config/Section.antt =====
-- `parse_section` and `parse_comment` of config.c.
use nvhttpd.Base.{ℕ, zero, suc, ◌||◌, ◌==◌, if◌then◌else◌, length}
use nvhttpd.Base.Chars.{is_space}
use nvhttpd.Config.State.{
  fail, crash, out_of_fuel, unexpected_character, premature_eof, M, return, stop, ◌>>=◌, ◌>>◌,
  allocate, set_section,
}
use nvhttpd.Config.Io.{io_eof, io_peek}
use nvhttpd.Config.Block.{Block, is_key_character, new_block}
use nvhttpd.Config.Value.{skip, append}

module _ {U : Type 0} where
  unfoldable pub section_loop : ℕ → Block → M U Block
  section_loop zero b = stop out_of_fuel
  section_loop (suc fuel) b = do
    ch ← io_peek
    if ch == io_eof
        then stop (fail premature_eof)
        else if ch == b']'
        then (do skip; return b)
        else if ch == b';'
        then stop (fail unexpected_character)
        else if ch == b'\n'
        then stop (fail unexpected_character)
        else if is_key_character ch || is_space ch
        then (do b' ← append ch b; skip; section_loop fuel b')
        else stop (fail unexpected_character)

  -- The end of `parse_section`. Where the block is full, the result of realloc is not stored: the
  -- terminator is written through the old pointer, behind the old block.
  unfoldable pub close_section : Block → M U (Unit {0})
  close_section b =
      if length b.text == b.total then (do allocate; stop crash) else set_section b.text

  unfoldable pub parse_section : ℕ → M U (Unit {0})
  parse_section fuel = do b ← new_block; b' ← section_loop fuel b; close_section b'

  unfoldable pub parse_comment : ℕ → M U (Unit {0})
  parse_comment zero = stop out_of_fuel
  parse_comment (suc fuel) = do
    ch ← io_peek
    if ch == io_eof
        then return tt
        else if ch == b'\n'
        then return tt
        else (do skip; parse_comment fuel)
