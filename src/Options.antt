-- ===== src/Options.antt =====
-- option.c: the command line.
pub mod Required
pub mod Help
mod Tests
use nvhttpd.Base.{
  ℕ, zero, suc, Bool, true, false, not, List, [], ◌∷◌, Option, none, some, ◌==◌, if◌then◌else◌,
  get_elem?,
}
use nvhttpd.Base.Chars.{Bytes}
use nvhttpd.Cache.{same_text}

pub data OptionArg : Type 0 where
  option_arg_none : OptionArg
  option_arg_required : OptionArg
  option_arg_optional : OptionArg

-- `option_s`, but for the texts of the help. `validated` is whether `validate` is not NULL.
pub record OptionS : Type 0 where
  pub name : Bytes
  pub arg_type : OptionArg
  pub value : Option Bytes
  pub validated : Bool
  pub present : Bool

-- The index of the first option with this name.
unfoldable pub find_name : List OptionS → Bytes → Option ℕ
find_name [] s = none
find_name (o ∷ os) s =
    let rest = find_name os s in
    if same_text o.name s then some 0 else elim rest [ none ↦ none | some k ↦ some (suc k) ]

-- `s[0] != '-'`
abbrev pub is_word : Bytes → Bool
is_word [] = true
is_word (c ∷ cs) = not (c == b'-')

unfoldable pub match_option : List OptionS → Bytes → Option ℕ
match_option os [] = none
match_option os (c ∷ cs) = if c == b'-' then find_name os cs else none

-- `option->present = true`, and `option->value = ...` where there is a value.
abbrev pub marked : Option Bytes → OptionS → OptionS
marked none o = record o { present = true }
marked (some v) o = record o { present = true; value = some v }

unfoldable pub mark : List OptionS → ℕ → Option Bytes → List OptionS
mark [] k v = []
mark (o ∷ os) zero v = marked v o ∷ os
mark (o ∷ os) (suc k) v = o ∷ mark os k v

abbrev pub arg_type_of : Option OptionS → OptionArg
arg_type_of none = option_arg_none
arg_type_of (some o) = o.arg_type

-- The callbacks; whether one returns 0 is a function of the option.
module _ (validate : OptionS → Bool) where
  abbrev pub is_valid : Option OptionS → Bool
  is_valid none = true
  is_valid (some o) = if o.validated then validate o else true

  -- The end of a round: the callback is called, and the loop goes on unless it refuses.
  abbrev pub next_round : ℕ → List OptionS → Bool × List OptionS → Bool × List OptionS
  next_round k os rest = if is_valid (get_elem? os k) then rest else (false, os)

  -- `option_parse_args` on the arguments behind the name of the program: whether it returns 0, and
  -- the options.
  unfoldable pub option_parse_args : List OptionS → List Bytes → Bool × List OptionS
  option_parse_args os [] = (true, os)
  option_parse_args os (a ∷ []) = elim (match_option os a) [
    | none ↦ (false, os)
    | some k ↦ elim (arg_type_of (get_elem? os k)) [
      | option_arg_required ↦ (false, mark os k none)
      | _ ↦ next_round k (mark os k none) (true, mark os k none)
    ]
  ]
  option_parse_args os (a ∷ v ∷ vs) = elim (match_option os a) [
    | none ↦ (false, os)
    | some k ↦
        let alone = next_round k (mark os k none) (option_parse_args (mark os k none) (v ∷ vs)) in
        let taken = next_round k (mark os k (some v)) (option_parse_args (mark os k (some v)) vs) in
        elim (arg_type_of (get_elem? os k)) [
          | option_arg_none ↦ alone
          | option_arg_required ↦ taken
          | option_arg_optional ↦ if is_word v then taken else alone
        ]
  ]
