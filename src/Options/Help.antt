-- ===== src/Options/Help.antt =====
-- `option_show_help` of option.c; the widths, an `int` there, are numbers without a bound.
pub mod Aligned
mod Tests
use nvhttpd.Base.{
  ℕ, zero, suc, ◌+◌, Bool, true, false, List, [], ◌∷◌, Option, none, some, ◌++◌, ltb, leb,
  if◌then◌else◌, length, replicate, drop,
}
use nvhttpd.Base.Chars.{Bytes, codes}
use nvhttpd.Options.{OptionArg, option_arg_none, option_arg_required, option_arg_optional, OptionS}

-- An option with its description.
abbrev pub Described : Type 0
Described = OptionS × Bytes

-- What is added to the length of the name and its dash.
abbrev pub arg_width : OptionArg → ℕ
arg_width option_arg_none = 0
arg_width option_arg_required = 7
arg_width option_arg_optional = 9

abbrev pub wider : ℕ → ℕ → ℕ
wider fld_width len = if ltb fld_width len then len else fld_width

-- The first loop: the greatest width, from `fld_width` on.
unfoldable pub widest : ℕ → List Described → ℕ
widest fld_width [] = fld_width
widest fld_width ((o, text) ∷ os) =
    widest (wider fld_width (length o.name + 1 + arg_width o.arg_type)) os

unfoldable pub help_width : List Described → ℕ
help_width os = widest 0 os + 3

-- What stands behind the name.
abbrev pub arg_text : OptionArg → Bytes
arg_text option_arg_none = codes " "
arg_text option_arg_required = codes " value "
arg_text option_arg_optional = codes "[ value] "

-- The bytes that are written over the dots.
abbrev pub option_text : OptionS → Bytes
option_text o = b'-' ∷ (o.name ++ arg_text o.arg_type)

-- The field of an option: dots up to the width, and the text over them; `none` where the text is
-- longer, and writes over the NUL behind the dots or behind the block.
unfoldable pub help_field : ℕ → OptionS → Option Bytes
help_field width o =
    let text = option_text o in
    if leb (length text) width
    then some (text ++ drop (length text) (replicate width b'.'))
    else none

unfoldable pub help_line : Bytes → Bytes → Bytes
help_line field description = codes "    " ++ field ++ codes " " ++ description ++ codes "\n"

-- The second loop.
unfoldable pub help_lines : ℕ → List Described → Option (List Bytes)
help_lines width [] = some []
help_lines width ((o, text) ∷ os) =
    let rest = help_lines width os in
    elim (help_field width o) [
      | none ↦ none
      | some field ↦ elim rest [ none ↦ none | some lines ↦ some (help_line field text ∷ lines) ]
    ]

-- The lines that are printed; `got` is the result of malloc.
unfoldable pub option_show_help : Bool → Bytes → List Described → Option (List Bytes)
option_show_help got program_name os =
    let usage = codes "Usage: " ++ program_name ++ codes " [options]\n" in
    if got
    then elim (help_lines (help_width os) os) [
      | none ↦ none
      | some lines ↦ some (usage ∷ codes "Options:\n" ∷ lines)
    ]
    else some (usage ∷ codes "Options:\n" ∷ [])
