-- ===== src/SettingsFile/Examples.antt =====
-- Files of two settings.
use andaime.Base.{◌≡◌, refl, List, [], ◌∷◌, ◌++◌, Text, codes, arith}
use andaime.Display.{trim_space}
use andaime.SettingsFile.{
  FileSetting, LineError, ParseError, ok, err, new_settings_parser, parse_string, parse_lines,
  scan_lines, drop_cr, parse_line, split_colon, validate_key, validate_value, trim_quotes,
  all_key_bytes, is_key_byte,
}
use andaime.SettingsFile.Print.{printed_all, parse_string-printed_all}
use andaime.SettingsFile.Sound.{AllAllowed, parse_string-AllAllowed}

abbrev setting_of : Text → Text → FileSetting
setting_of key value = record { key = key; value = value }

abbrev two_settings : List FileSetting
two_settings =
    setting_of (codes "key.a") (codes "value: 1") ∷ setting_of (codes "key.a") (codes "x") ∷ []

abbrev file : Text
file = codes "# comment" ++ (10 ∷ (codes "key.a: \"value: 1\" " ++ (13 ∷ (10 ∷ codes "key.a:x"))))

file_read : parse_string new_settings_parser file ≡ ok two_settings
unfolding parse_string parse_lines scan_lines drop_cr parse_line split_colon validate_key
    validate_value trim_quotes all_key_bytes is_key_byte trim_space
file_read = refl

no_value :
    parse_string new_settings_parser (codes "key:")
    ≡ err (ParseError.at_line 1 LineError.empty_value)
unfolding parse_string parse_lines scan_lines drop_cr parse_line split_colon validate_key
    validate_value trim_quotes all_key_bytes is_key_byte trim_space
no_value = refl

parse_string-printed_all_example :
    parse_string new_settings_parser (printed_all two_settings) ≡ ok two_settings
unfolding all_key_bytes is_key_byte
parse_string-printed_all_example = parse_string-printed_all new_settings_parser two_settings (
  record {
    key_given = refl;
    key_bytes = refl;
    key_length = omega arith;
    value_clean = ((refl, refl), (refl, refl), refl, refl);
    value_line = refl;
    value_length = omega arith;
    line_length = omega arith;
  },
  (
    record {
      key_given = refl;
      key_bytes = refl;
      key_length = omega arith;
      value_clean = ((refl, refl), (refl, refl), refl, refl);
      value_line = refl;
      value_length = omega arith;
      line_length = omega arith;
    },
    tt,
  ),
)

parse_string-AllAllowed_example : AllAllowed new_settings_parser two_settings
parse_string-AllAllowed_example =
    parse_string-AllAllowed new_settings_parser file two_settings file_read
