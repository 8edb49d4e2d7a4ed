-- ===== src/Options/Help/Tests.antt =====
-- The help of the server's options.
use nvhttpd.Base.{true, false, List, [], ◌∷◌, ◌++◌, none, some, ◌≡◌, refl}
use nvhttpd.Base.Chars.{Bytes, codes}
use nvhttpd.Options.{option_arg_none, option_arg_required, OptionS}
use nvhttpd.Options.Help.{
  Described, widest, help_width, help_field, help_line, help_lines, option_show_help,
}
use nvhttpd.Options.Help.Aligned.{AreAligned, option_show_help-AreAligned}

program : Unit {0}
unfolding widest help_width help_field help_line help_lines option_show_help
program = tt

abbrev config_option : OptionS
config_option = record {
  name = codes "c";
  arg_type = option_arg_required;
  value = none;
  validated = false;
  present = false;
}

abbrev help_option : OptionS
help_option = record {
  name = codes "h";
  arg_type = option_arg_none;
  value = none;
  validated = false;
  present = false;
}

abbrev described : List Described
described = (config_option, codes "Config file") ∷ (help_option, codes "This text") ∷ []

help_printed :
    option_show_help true (codes "nvhttpd") described
    ≡ some (
        codes "Usage: nvhttpd [options]\n"
        ∷ codes "Options:\n"
        ∷ codes "    -c value ... Config file\n"
        ∷ codes "    -h ......... This text\n"
        ∷ [])
unfolding program
help_printed = refl

option_show_help-AreAligned_example :
    (lines : List Bytes) × (option_show_help true (codes "nvhttpd") described
      ≡ some (
          (codes "Usage: " ++ codes "nvhttpd" ++ codes " [options]\n")
          ∷ codes "Options:\n"
          ∷ lines))
    × AreAligned (help_width described) described lines
option_show_help-AreAligned_example = option_show_help-AreAligned (codes "nvhttpd") described
