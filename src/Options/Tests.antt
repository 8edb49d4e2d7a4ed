-- ===== src/Options/Tests.antt =====
-- option.c on a command line.
use nvhttpd.Base.{Bool, true, false, List, [], ◌∷◌, none, ◌≡◌, refl}
use nvhttpd.Base.Chars.{Bytes, codes}
use nvhttpd.Cache.{same_text}
use nvhttpd.Options.{
  option_arg_none, option_arg_required, OptionS, find_name, match_option, mark, option_parse_args,
}
use nvhttpd.Options.Required.{AllHaveValues, option_parse_args-AllHaveValues}

program : Unit {0}
unfolding same_text find_name match_option mark option_parse_args AllHaveValues
program = tt

abbrev help : OptionS
help = record {
  name = codes "h";
  arg_type = option_arg_none;
  value = none;
  validated = false;
  present = false;
}

abbrev config_file : OptionS
config_file = record {
  name = codes "c";
  arg_type = option_arg_required;
  value = none;
  validated = true;
  present = false;
}

abbrev known : List OptionS
known = help ∷ config_file ∷ []

abbrev accept : OptionS → Bool
accept o = true

abbrev line : List Bytes
line = codes "-c" ∷ codes "a.conf" ∷ codes "-h" ∷ []

line_accepted : (option_parse_args accept known line).0 ≡ true
unfolding program
line_accepted = refl

value_missing : (option_parse_args accept known (codes "-c" ∷ [])).0 ≡ false
unfolding program
value_missing = refl

known-AllHaveValues : AllHaveValues known
unfolding program
known-AllHaveValues = ((λ p r. cc), ((λ p r. cc), tt))

option_parse_args-AllHaveValues_example : AllHaveValues (option_parse_args accept known line).1
option_parse_args-AllHaveValues_example =
    option_parse_args-AllHaveValues accept known line known-AllHaveValues line_accepted
