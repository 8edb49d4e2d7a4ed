-- ===== src/Options/Required.antt =====
-- The values of the options that need one.
use nvhttpd.Base.{
  ℕ, zero, suc, Bool, true, false, List, [], ◌∷◌, Option, none, some, ◌≡◌, refl, ◌⊎◌, inl, inr,
  get_elem?, Bool-cases,
}
use nvhttpd.Base.Chars.{Bytes}
use nvhttpd.Options.{
  OptionArg, option_arg_none, option_arg_required, option_arg_optional, OptionS, is_word,
  match_option, mark, is_valid, next_round, arg_type_of, option_parse_args,
}

-- An option that is present and needs a value has one.
abbrev pub HasValue : OptionS → Type 0
HasValue o = o.present ≡ true → o.arg_type ≡ option_arg_required → (v : Bytes) × (o.value ≡ some v)

unfoldable pub AllHaveValues : List OptionS → Type 0
AllHaveValues [] = Unit {0}
AllHaveValues (o ∷ os) = HasValue o × AllHaveValues os

mark-some-AllHaveValues :
    (os : List OptionS) (k : ℕ) (v : Bytes) → AllHaveValues os → AllHaveValues (mark os k (some v))
unfolding AllHaveValues mark
mark-some-AllHaveValues [] k v a = tt
mark-some-AllHaveValues (o ∷ os) zero v a = ((λ p r. (v, refl)), a.1)
mark-some-AllHaveValues (o ∷ os) (suc k) v a = (a.0, mark-some-AllHaveValues os k v a.1)

mark-none-AllHaveValues :
    (os : List OptionS) (k : ℕ)
    → (arg_type_of (get_elem? os k) ≡ option_arg_required → ⊥)
    → AllHaveValues os
    → AllHaveValues (mark os k none)
unfolding AllHaveValues mark
mark-none-AllHaveValues [] k n a = tt
mark-none-AllHaveValues (o ∷ os) zero n a = ((λ p r. absurd (n r)), a.1)
mark-none-AllHaveValues (o ∷ os) (suc k) n a = (a.0, mark-none-AllHaveValues os k n a.1)

-- What a run without an error leaves.
abbrev Leaves : Bool × List OptionS → Type 0
Leaves x = x.0 ≡ true → AllHaveValues x.1

refused : (os : List OptionS) → Leaves (false, os)
refused os h = cc

next_round-Leaves :
    (validate : OptionS → Bool) (k : ℕ) (os : List OptionS) (rest : Bool × List OptionS)
    → Leaves rest
    → Leaves (next_round validate k os rest)
next_round-Leaves validate k os rest l = elim (Bool-cases (is_valid validate (get_elem? os k))) [
  | inl valid ↦ rw valid l
  | inr bad ↦ rw bad (refused os)
]

match-cases : (m : Option ℕ) → (m ≡ none) ⊎ ((k : ℕ) × (m ≡ some k))
match-cases none = inl refl
match-cases (some k) = inr (k, refl)

arg_type-cases :
    (t : OptionArg)
    → (t ≡ option_arg_none) ⊎ ((t ≡ option_arg_required) ⊎ (t ≡ option_arg_optional))
arg_type-cases option_arg_none = inl refl
arg_type-cases option_arg_required = inr (inl refl)
arg_type-cases option_arg_optional = inr (inr refl)

none_differs : {t : OptionArg} → t ≡ option_arg_none → t ≡ option_arg_required → ⊥
none_differs h k = cc

optional_differs : {t : OptionArg} → t ≡ option_arg_optional → t ≡ option_arg_required → ⊥
optional_differs h k = cc

module _ (validate : OptionS → Bool) where
  parse-Leaves :
      (os : List OptionS) (args : List Bytes)
      → AllHaveValues os
      → Leaves (option_parse_args validate os args)
  unfolding option_parse_args
  parse-Leaves os [] a = λ h. a
  parse-Leaves os (s ∷ []) a = elim (match-cases (match_option os s)) [
    | inl no_match ↦ rw (option_parse_args, no_match) (refused os)
    | inr (k, match) ↦ elim (arg_type-cases (arg_type_of (get_elem? os k))) [
      | inl t ↦
          rw (option_parse_args, match, t)
            (next_round-Leaves validate k _ _
              (λ h. mark-none-AllHaveValues os k (none_differs t) a))
      | inr (inl t) ↦ rw (option_parse_args, match, t) (refused (mark os k none))
      | inr (inr t) ↦
          rw (option_parse_args, match, t)
            (next_round-Leaves validate k _ _
              (λ h. mark-none-AllHaveValues os k (optional_differs t) a))
    ]
  ]
  parse-Leaves os (s ∷ v ∷ vs) a = elim (match-cases (match_option os s)) [
    | inl no_match ↦ rw (option_parse_args, no_match) (refused os)
    | inr (k, match) ↦
        let alone : (arg_type_of (get_elem? os k) ≡ option_arg_required → ⊥)
            → Leaves (
                next_round validate k (mark os k none)
                  (option_parse_args validate (mark os k none) (v ∷ vs))) =
          λ n.
            next_round-Leaves validate k _ _
              (parse-Leaves (mark os k none) (v ∷ vs) (mark-none-AllHaveValues os k n a)) in
        let taken =
          next_round-Leaves validate k (mark os k (some v)) _
            (parse-Leaves (mark os k (some v)) vs (mark-some-AllHaveValues os k v a)) in
        elim (arg_type-cases (arg_type_of (get_elem? os k))) [
          | inl t ↦ rw (option_parse_args, match, t) (alone (none_differs t))
          | inr (inl t) ↦ rw (option_parse_args, match, t) taken
          | inr (inr t) ↦ elim (Bool-cases (is_word v)) [
            | inl word ↦ rw (option_parse_args, match, t, word) taken
            | inr dash ↦ rw (option_parse_args, match, t, dash) (alone (optional_differs t))
          ]
        ]
  ]

  -- Where the options have their values at the start (as when none is present), a command line that
  -- option_parse_args accepts gives a value to every option that is present and needs one.
  pub option_parse_args-AllHaveValues :
      (os : List OptionS) (args : List Bytes)
      → AllHaveValues os
      → (option_parse_args validate os args).0 ≡ true
      → AllHaveValues (option_parse_args validate os args).1
  option_parse_args-AllHaveValues os args a h = parse-Leaves os args a h
