-- ===== src/SettingsFile/Print.antt =====
-- Settings that are written one to a line are read back.
use mathlib.Core.List.{reverse-append, reverse-reverse, append_assoc}
use andaime.Base.{
  ℕ, ◌+◌, ◌<◌, ◌≤◌, leb, true, false, ◌||◌, List, [], ◌∷◌, ◌++◌, reverse, none, Text, is_empty,
  length, if◌then◌else◌, ◌≡◌, refl, sym, ap, ap₂, ◌∙◌, subst, arith,
}
use andaime.Display.{trim_space, space_width, back_width}
use andaime.SettingsFile.{
  SettingsParser, FileSetting, ParseError, Parsed, ok, err, scan_lines, drop_cr, all_key_bytes,
  validate_key, validate_value, with_key, parse_parts, parse_line, parse_lines, then_more,
  parse_string, starts_with_hash, max_token,
}
use andaime.SettingsFile.Trim.{
  StartsClean, IsClean, StartsClean-append, trim_space-IsClean, trim_space-space,
  trim_quotes-IsClean, back_width-append,
}
use andaime.SettingsFile.Lines.{
  has_newline, key_byte_parts, key_front, key-IsClean, split_colon-key, scan_lines-line,
  has_newline-append, has_newline-key, drop_cr-reverse,
}

-- A line for a setting.
abbrev pub printed : FileSetting → Text
printed s = s.key ++ (58 ∷ (32 ∷ s.value))

-- A line for each setting, one after the other.
abbrev pub printed_all : List FileSetting → Text
printed_all [] = []
printed_all (s ∷ ss) = printed s ++ (10 ∷ printed_all ss)

-- The parser allows the key, and the value is one line that has no space and no quote at its ends; the
-- lengths are those that the parser and the scanner take.
pub record IsWritable (p : SettingsParser) (s : FileSetting) : Type 0 where
  pub key_given : is_empty s.key ≡ false
  pub key_bytes : all_key_bytes s.key ≡ true
  pub key_length : length s.key ≤ p.max_key_length
  pub value_clean : IsClean s.value
  pub value_line : has_newline s.value ≡ false
  pub value_length : length s.value ≤ p.max_value_length
  pub line_length : length (printed s) < max_token

abbrev pub AllWritable : SettingsParser → List FileSetting → Type 0
AllWritable p [] = Unit {0}
AllWritable p (s ∷ ss) = IsWritable p s × AllWritable p ss

-- What begins with a key byte is not empty, no comment, and begins a clean text.
begins_with_key :
    (k t : Text)
    → is_empty k ≡ false
    → all_key_bytes k ≡ true
    → (is_empty (k ++ t) ≡ false) × (starts_with_hash (k ++ t) ≡ false)
unfolding all_key_bytes
begins_with_key [] t e h = cc
begins_with_key (c ∷ k) t e h = (refl, (key_byte_parts c (ground arith)).4)

reverse_value :
    (k v : Text) → StartsClean (reverse v) → StartsClean (reverse (k ++ (58 ∷ (32 ∷ v))))
reverse_value k v h =
    let q : Text = 58 ∷ (32 ∷ []) in
    let tail : StartsClean (reverse (q ++ v)) =
      subst StartsClean (sym (reverse-append q v)) (StartsClean-append (reverse v) (reverse q) h) in
    subst StartsClean (sym (reverse-append k (q ++ v)))
      (StartsClean-append (reverse (q ++ v)) (reverse k) tail)

reverse_printed :
    (k v : Text) → reverse (k ++ (58 ∷ (32 ∷ v))) ≡ reverse v ++ (32 ∷ (58 ∷ reverse k))
reverse_printed k v =
    let q : Text = 58 ∷ (32 ∷ []) in
    reverse-append k (q ++ v)
    ∙ ap (λ (t : Text). t ++ reverse k) (reverse-append q v)
    ∙ append_assoc (reverse v) (32 ∷ (58 ∷ [])) (reverse k)

front_width : (k t : Text) → is_empty k ≡ false → all_key_bytes k ≡ true → space_width (k ++ t) ≡ 0
unfolding all_key_bytes
front_width [] t e h = cc
front_width (c ∷ k) t e h = key_front c (k ++ t) (ground arith)

printed-IsClean : (p : SettingsParser) (s : FileSetting) → IsWritable p s → IsClean (printed s)
printed-IsClean p s w = (
  StartsClean-append s.key _ (key-IsClean s.key w.key_given w.key_bytes).0,
  reverse_value s.key s.value w.value_clean.1,
  front_width s.key _ w.key_given w.key_bytes,
  ap back_width (reverse_printed s.key s.value)
      ∙ back_width-append (reverse s.value) (reverse s.key) w.value_clean.1 w.value_clean.3,
)

validate_key_lem :
    (p : SettingsParser) (s : FileSetting) → IsWritable p s → validate_key p s.key ≡ none
unfolding validate_key
validate_key_lem p s w = ground (arith, w.key_given, w.key_bytes, w.key_length)

clean_given : (s : Text) → StartsClean s → is_empty s ≡ false
clean_given [] h = elim h [ ]
clean_given (c ∷ s) h = refl

validate_value_lem :
    (p : SettingsParser) (s : FileSetting) → IsWritable p s → validate_value p s.value ≡ ok s.value
unfolding validate_value
validate_value_lem p s w =
    rw (trim_quotes-IsClean s.value w.value_clean)
      (ground (arith, clean_given s.value w.value_clean.0, w.value_length))

parse_line-printed :
    (p : SettingsParser) (s : FileSetting) → IsWritable p s → parse_line p (printed s) ≡ ok s
unfolding parse_line
parse_line-printed p s w =
    ap (parse_parts p) (split_colon-key s.key (32 ∷ s.value) w.key_bytes)
    ∙ ap₂ (λ k v. with_key k (validate_key p k) (validate_value p v))
        (trim_space-IsClean s.key (key-IsClean s.key w.key_given w.key_bytes))
        (trim_space-space s.value w.value_clean)
    ∙ ap₂ (with_key s.key) (validate_key_lem p s w) (validate_value_lem p s w)

printed_line :
    (p : SettingsParser) (s : FileSetting)
    → IsWritable p s
    → trim_space (drop_cr (printed s)) ≡ printed s
printed_line p s w =
    let c = printed-IsClean p s w in
    ap trim_space (
      subst (λ l. drop_cr l ≡ l) (reverse-reverse (printed s))
        (drop_cr-reverse (reverse (printed s)) c.1))
    ∙ trim_space-IsClean (printed s) c

short_line : (n : ℕ) → n < max_token → leb max_token n ≡ false
short_line n h = ground arith

parse_lines-printed :
    (p : SettingsParser) (n : ℕ) (s : FileSetting) (ls : List Text) (ss : List FileSetting)
    → IsWritable p s
    → parse_lines p (n + 1) ls ≡ ok ss
    → parse_lines p n (printed s ∷ ls) ≡ ok (s ∷ ss)
unfolding parse_lines
parse_lines-printed p n s ls ss w h =
    let rest = parse_lines p (n + 1) ls in
    let (given, no_comment) = begins_with_key s.key (58 ∷ (32 ∷ s.value)) w.key_given w.key_bytes in
    let read : Text → Parsed ParseError (List FileSetting) = λ line.
      if is_empty line || starts_with_hash line
      then rest
      else then_more n (parse_line p line) rest in
    let short : leb max_token (length (printed s)) ≡ false =
      short_line (length (printed s)) w.line_length in
    ap (λ b. if b then err ParseError.not_read else read (trim_space (drop_cr (printed s)))) short
    ∙ ap read (printed_line p s w)
    ∙ ap₂ (λ a b. if a || b then rest else then_more n (parse_line p (printed s)) rest) given
        no_comment
    ∙ ap₂ (then_more n) (parse_line-printed p s w) h

has_newline-printed :
    (p : SettingsParser) (s : FileSetting) → IsWritable p s → has_newline (printed s) ≡ false
has_newline-printed p s w =
    has_newline-append s.key (58 ∷ (32 ∷ s.value))
    ∙ ground (arith, has_newline-key s.key w.key_bytes, w.value_line)

parse_printed :
    (p : SettingsParser) (n : ℕ) (ss : List FileSetting)
    → AllWritable p ss
    → parse_lines p n (scan_lines (printed_all ss)) ≡ ok ss
unfolding parse_lines scan_lines
parse_printed p n [] w = refl
parse_printed p n (s ∷ ss) (w, ws) =
    ap (parse_lines p n) (scan_lines-line (printed s) (printed_all ss) (has_newline-printed p s w))
    ∙ parse_lines-printed p n s (scan_lines (printed_all ss)) ss w (parse_printed p (n + 1) ss ws)

-- Settings whose key the parser allows and whose value is one line without spaces or quotes at its
-- ends, within the lengths that the parser and its scanner take, are read back as they were when they
-- are written one to a line: in their order, and with a key as often as it was written.
pub parse_string-printed_all :
    (p : SettingsParser) (ss : List FileSetting)
    → AllWritable p ss
    → parse_string p (printed_all ss) ≡ ok ss
unfolding parse_string
parse_string-printed_all p ss w = parse_printed p 1 ss w
