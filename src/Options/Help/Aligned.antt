-- ===== src/Options/Help/Aligned.antt =====
-- The help stays in its block, and its descriptions stand in one column.
use nvhttpd.Base.{
  ℕ, zero, suc, ◌+◌, ◌≤◌, true, List, [], ◌∷◌, some, ◌++◌, leb, ◌≡◌, refl, ap, arith, length,
  replicate, drop, length-append, length-drop,
}
use nvhttpd.Base.Chars.{Bytes, codes}
use nvhttpd.Options.{OptionArg, option_arg_none, option_arg_required, option_arg_optional, OptionS}
use nvhttpd.Options.Help.{
  Described, arg_width, wider, widest, help_width, arg_text, option_text, help_field, help_line,
  help_lines, option_show_help,
}

abbrev width_of : OptionS → ℕ
width_of o = length o.name + 1 + arg_width o.arg_type

arg_text-le : (a : OptionArg) → length (arg_text a) ≤ arg_width a + 1
arg_text-le option_arg_none = omega arith
arg_text-le option_arg_required = omega arith
arg_text-le option_arg_optional = omega arith

option_text-le : (o : OptionS) → length (option_text o) ≤ width_of o + 1
option_text-le o = omega (arith, length-append o.name (arg_text o.arg_type), arg_text-le o.arg_type)

-- The options are at most so wide.
abbrev AreWithin : ℕ → List Described → Type 0
AreWithin width [] = Unit {0}
AreWithin width ((o, text) ∷ os) = (width_of o ≤ width) × AreWithin width os

wider-le : (n w : ℕ) → (n ≤ wider n w) × (w ≤ wider n w)
wider-le n w = ground arith

widest-le : (n : ℕ) (os : List Described) → n ≤ widest n os
unfolding widest
widest-le n [] = omega arith
widest-le n ((o, text) ∷ os) =
    omega (arith, widest-le (wider n (width_of o)) os, (wider-le n (width_of o)).0)

widest-AreWithin : (n : ℕ) (os : List Described) → AreWithin (widest n os) os
unfolding widest
widest-AreWithin n [] = tt
widest-AreWithin n ((o, text) ∷ os) = (
  omega (arith, widest-le (wider n (width_of o)) os, (wider-le n (width_of o)).1),
  widest-AreWithin (wider n (width_of o)) os,
)

length-replicate : (n c : ℕ) → length (replicate n c) ≡ n
length-replicate zero c = refl
length-replicate (suc n) c = ap suc (length-replicate n c)

help_field-length :
    (width : ℕ) (o : OptionS)
    → width_of o + 1 ≤ width
    → (field : Bytes) × (help_field width o ≡ some field) × (length field ≡ width)
unfolding help_field
help_field-length width o h =
    let text = option_text o in
    let fits : leb (length text) width ≡ true = ground (arith, option_text-le o) in
    let line : Bytes = replicate width b'.' in
    let dots = drop (length text) line in
    (
      text ++ dots,
      rw fits refl,
      omega (
        arith,
        length-append text dots,
        length-drop (length text) line,
        length-replicate width b'.',
        option_text-le o,
      ),
    )

-- Each line has four blanks, a field of this width, a blank, the description of its option and the end
-- of the line.
abbrev pub AreAligned : ℕ → List Described → List Bytes → Type 0
AreAligned width [] [] = Unit {0}
AreAligned width ((o, text) ∷ os) (line ∷ lines) =
    ((field : Bytes) × (line ≡ help_line field text) × (length field ≡ width))
    × AreAligned width os lines
AreAligned width _ _ = ⊥

help_lines-AreAligned :
    (width : ℕ) (os : List Described)
    → AreWithin width os
    → (lines : List Bytes) × (help_lines (width + 3) os ≡ some lines)
      × AreAligned (width + 3) os lines
unfolding help_lines
help_lines-AreAligned width [] h = ([], refl, tt)
help_lines-AreAligned width ((o, text) ∷ os) h =
    let (field, made, long) = help_field-length (width + 3) o (omega arith) in
    let (lines, later, aligned) = help_lines-AreAligned width os h.1 in
    (
      help_line field text ∷ lines,
      rw (help_lines, made, later) refl,
      ((field, refl, long), aligned),
    )

-- Whatever the options, where malloc gives the help its block, it writes nothing outside, and prints a
-- line for each option behind two first lines; the descriptions begin in one column.
pub option_show_help-AreAligned :
    (program_name : Bytes) (os : List Described)
    → (lines : List Bytes) × (option_show_help true program_name os
        ≡ some (
            (codes "Usage: " ++ program_name ++ codes " [options]\n") ∷ codes "Options:\n" ∷ lines))
      × AreAligned (help_width os) os lines
unfolding option_show_help help_width
option_show_help-AreAligned program_name os =
    let (lines, printed, aligned) =
      help_lines-AreAligned (widest 0 os) os (widest-AreWithin 0 os) in
    (lines, rw printed refl, aligned)
