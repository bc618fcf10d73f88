-- ===== src/SettingsFile.antt =====
-- cmd/beta/provision/settings_parser.go: a settings file, one `key: value` to a line. A line of 65536
-- bytes or more ends the scanner with an error.
pub mod Trim
pub mod Lines
pub mod Print
pub mod Sound
pub mod Examples
use andaime.Base.{
  ℕ, ◌+◌, ltb, leb, ◌==◌, Bool, true, false, ◌&&◌, ◌||◌, not, List, [], ◌∷◌, ◌++◌, reverse, Option,
  none, some, Text, is_empty, is_lower, is_upper, length, if◌then◌else◌, ℤ, pos_part,
}
use andaime.Display.{trim_space}

-- A negative length, which the source can hold for keys, refuses every key, as 0 does.
pub record SettingsParser : Type 0 where
  pub max_key_length : ℕ
  pub max_value_length : ℕ

abbrev pub new_settings_parser : SettingsParser
new_settings_parser = record { max_key_length = 256; max_value_length = 4096 }

abbrev pub with_max_key_length : ℤ → SettingsParser → SettingsParser
with_max_key_length n p = record p { max_key_length = pos_part n }

abbrev pub with_max_value_length : ℤ → SettingsParser → SettingsParser
with_max_value_length n p = record p { max_value_length = pos_part n }

pub record FileSetting : Type 0 where
  pub key : Text
  pub value : Text

pub data LineError : Type 0 where
  no_separator empty_key long_key bad_key empty_value long_value : LineError

pub data ParseError : Type 0 where
  at_line : ℕ → LineError → ParseError
  not_opened not_read : ParseError

pub data Parsed {ℓ} (E : Type 0) (A : Type ℓ) : Type ℓ where
  ok : A → Parsed E A
  err : E → Parsed E A

abbrev newline : ℕ
newline = 10

-- The lines of `bufio.ScanLines`, each still with its carriage return.
abbrev pub push_line : ℕ → List Text → List Text
push_line c [] = (c ∷ []) ∷ []
push_line c (l ∷ ls) = (c ∷ l) ∷ ls

unfoldable pub scan_lines : Text → List Text
scan_lines [] = []
scan_lines (c ∷ s) = let rest = scan_lines s in if c == newline then [] ∷ rest else push_line c rest

unfoldable pub drop_cr : Text → Text
drop_cr [] = []
drop_cr (c ∷ []) = if c == 13 then [] else c ∷ []
drop_cr (c ∷ d ∷ s) = c ∷ drop_cr (d ∷ s)

-- `strings.SplitN(line, ":", 2)`, where a separator is there.
abbrev pub behind_byte : ℕ → Option (Text × Text) → Option (Text × Text)
behind_byte c none = none
behind_byte c (some (k, v)) = some (c ∷ k, v)

unfoldable pub split_colon : Text → Option (Text × Text)
split_colon [] = none
split_colon (c ∷ s) = if c == b':' then some ([], s) else behind_byte c (split_colon s)

-- `strings.Trim(value, "\"")`
unfoldable pub trim_quotes_left : Text → Text
trim_quotes_left [] = []
trim_quotes_left (c ∷ s) = if c == 34 then trim_quotes_left s else c ∷ s

unfoldable pub trim_quotes : Text → Text
unfolding trim_quotes_left
trim_quotes s = reverse (trim_quotes_left (reverse (trim_quotes_left s)))

-- `[a-zA-Z0-9_\-\.]`
unfoldable pub is_key_byte : ℕ → Bool
is_key_byte c =
    is_lower c || is_upper c || (leb b'0' c && leb c b'9') || c == b'_' || c == b'-' || c == b'.'

unfoldable pub all_key_bytes : Text → Bool
all_key_bytes [] = true
all_key_bytes (c ∷ s) = is_key_byte c && all_key_bytes s

-- `validateKey`
unfoldable pub validate_key : SettingsParser → Text → Option LineError
validate_key p key =
    if is_empty key
    then some LineError.empty_key
    else if ltb p.max_key_length (length key)
    then some LineError.long_key
    else if not (all_key_bytes key)
    then some LineError.bad_key
    else none

-- `validateValue`, with the value that it has cleaned.
unfoldable pub validate_value : SettingsParser → Text → Parsed LineError Text
validate_value p value =
    let cleaned = trim_quotes value in
    if is_empty cleaned
    then err LineError.empty_value
    else if ltb p.max_value_length (length cleaned)
    then err LineError.long_value
    else ok cleaned

abbrev pub with_value : Text → Parsed LineError Text → Parsed LineError FileSetting
with_value key (err e) = err e
with_value key (ok value) = ok (record { key = key; value = value })

abbrev pub with_key : Text → Option LineError → Parsed LineError Text → Parsed LineError FileSetting
with_key key (some e) value = err e
with_key key none value = with_value key value

abbrev pub parse_parts : SettingsParser → Option (Text × Text) → Parsed LineError FileSetting
parse_parts p none = err LineError.no_separator
parse_parts p (some (left, right)) =
    with_key (trim_space left) (validate_key p (trim_space left))
      (validate_value p (trim_space right))

-- `parseLine`
unfoldable pub parse_line : SettingsParser → Text → Parsed LineError FileSetting
parse_line p line = parse_parts p (split_colon line)

abbrev pub starts_with_hash : Text → Bool
starts_with_hash [] = false
starts_with_hash (c ∷ s) = c == b'#'

abbrev pub max_token : ℕ
max_token = 65536

abbrev pub then_more :
    ℕ
    → Parsed LineError FileSetting
    → Parsed ParseError (List FileSetting)
    → Parsed ParseError (List FileSetting)
then_more n (err e) rest = err (ParseError.at_line n e)
then_more n (ok s) (err e) = err e
then_more n (ok s) (ok ss) = ok (s ∷ ss)

-- The loop of `parseReader`; `n` is the number of the line.
unfoldable pub parse_lines : SettingsParser → ℕ → List Text → Parsed ParseError (List FileSetting)
parse_lines p n [] = ok []
parse_lines p n (l ∷ ls) =
    let line = trim_space (drop_cr l) in
    let rest = parse_lines p (n + 1) ls in
    if leb max_token (length l)
    then err ParseError.not_read
    else if is_empty line || starts_with_hash line
    then rest
    else then_more n (parse_line p line) rest

-- `ParseString`
unfoldable pub parse_string : SettingsParser → Text → Parsed ParseError (List FileSetting)
parse_string p content = parse_lines p 1 (scan_lines content)

-- `ParseFile`: no path is no settings; `none` is a file that cannot be opened.
unfoldable pub parse_file :
    SettingsParser → (Text → Option Text) → Text → Parsed ParseError (List FileSetting)
parse_file p open_file path = if is_empty path then ok [] else elim (open_file path) [
  | none ↦ err ParseError.not_opened
  | some content ↦ parse_string p content
]
