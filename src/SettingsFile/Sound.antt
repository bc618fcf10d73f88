-- ===== src/SettingsFile/Sound.antt =====
-- The settings that a file gives.
use andaime.Base.{
  ℕ, ◌+◌, ◌≤◌, leb, Bool, true, false, ◌||◌, List, [], ◌∷◌, Option, none, some, Text, is_empty,
  length, if◌then◌else◌, ◌≡◌, refl, sym, ap, ◌∙◌, subst, Bool-cases, inl, inr, arith,
}
use andaime.Display.{trim_space}
use andaime.SettingsFile.{
  SettingsParser, FileSetting, LineError, ParseError, Parsed, ok, err, scan_lines, drop_cr,
  split_colon, all_key_bytes, validate_key, validate_value, with_key, parse_parts, parse_line,
  parse_lines, then_more, parse_string, starts_with_hash, max_token,
}

-- The key and the value are given, and as long as the parser allows; the key has key bytes only.
pub record IsAllowed (p : SettingsParser) (s : FileSetting) : Type 0 where
  pub key_given : is_empty s.key ≡ false
  pub key_bytes : all_key_bytes s.key ≡ true
  pub key_length : length s.key ≤ p.max_key_length
  pub value_given : is_empty s.value ≡ false
  pub value_length : length s.value ≤ p.max_value_length

abbrev pub AllAllowed : SettingsParser → List FileSetting → Type 0
AllAllowed p [] = Unit {0}
AllAllowed p (s ∷ ss) = IsAllowed p s × AllAllowed p ss

parsed_eq {ℓ} : {E : Type 0} {A : Type ℓ} (a b : A) → ◌≡◌ {A = Parsed E A} (ok a) (ok b) → a ≡ b
parsed_eq a b h = cc

not_ok {ℓ} : {E : Type 0} {A : Type ℓ} (e : E) (a : A) → ¬ ◌≡◌ {A = Parsed E A} (err e) (ok a)
not_ok e a h = cc

validate_key_inv :
    (p : SettingsParser) (k : Text)
    → validate_key p k ≡ none
    → (is_empty k ≡ false) × (all_key_bytes k ≡ true) × (length k ≤ p.max_key_length)
unfolding validate_key
validate_key_inv p k h = ground arith

validate_value_inv :
    (p : SettingsParser) (v w : Text)
    → validate_value p v ≡ ok w
    → (is_empty w ≡ false) × (length w ≤ p.max_value_length)
unfolding validate_value
validate_value_inv p v w h = ground arith

with_key-IsAllowed :
    (p : SettingsParser) (k v : Text) (s : FileSetting) (e : Option LineError)
    (r : Parsed LineError Text)
    → validate_key p k ≡ e
    → validate_value p v ≡ r
    → with_key k e r ≡ ok s
    → IsAllowed p s
with_key-IsAllowed p k v s (some e) r a b h = cc
with_key-IsAllowed p k v s none (err e) a b h = cc
with_key-IsAllowed p k v s none (ok w) a b h =
    let (given, bytes, short) = validate_key_inv p k a in
    let (given', short') = validate_value_inv p v w b in
    subst (IsAllowed p) (parsed_eq _ s h) (record {
      key_given = given;
      key_bytes = bytes;
      key_length = short;
      value_given = given';
      value_length = short';
    })

parse_line-IsAllowed :
    (p : SettingsParser) (line : Text) (s : FileSetting) → parse_line p line ≡ ok s → IsAllowed p s
unfolding parse_line
parse_line-IsAllowed p line s h = go (split_colon line) h
  where
    go : (o : Option (Text × Text)) → parse_parts p o ≡ ok s → IsAllowed p s
    go none h = cc
    go (some (l, r)) h = with_key-IsAllowed p (trim_space l) (trim_space r) s _ _ refl refl h

then_more-AllAllowed :
    (p : SettingsParser) (n : ℕ) (ss : List FileSetting) (a : Parsed LineError FileSetting)
    (b : Parsed ParseError (List FileSetting))
    → then_more n a b ≡ ok ss
    → ((s : FileSetting) → a ≡ ok s → IsAllowed p s)
    → ((ts : List FileSetting) → b ≡ ok ts → AllAllowed p ts)
    → AllAllowed p ss
then_more-AllAllowed p n ss (err e) b h f g = cc
then_more-AllAllowed p n ss (ok s) (err e) h f g = cc
then_more-AllAllowed p n ss (ok s) (ok ts) h f g =
    subst (AllAllowed p) (parsed_eq (s ∷ ts) ss h) (f s refl, g ts refl)

parse_lines-AllAllowed :
    (p : SettingsParser) (n : ℕ) (ls : List Text) (ss : List FileSetting)
    → parse_lines p n ls ≡ ok ss
    → AllAllowed p ss
unfolding parse_lines
parse_lines-AllAllowed p n [] ss h = subst (AllAllowed p) (parsed_eq [] ss h) tt
parse_lines-AllAllowed p n (l ∷ ls) ss h =
    let line = trim_space (drop_cr l) in
    let rest = parse_lines p (n + 1) ls in
    let read = then_more n (parse_line p line) rest in
    let branch : Bool → Bool → Parsed ParseError (List FileSetting) =
      λ a b. if a then err ParseError.not_read else if b then rest else read in
    let skip = is_empty line || starts_with_hash line in
    elim (Bool-cases (leb max_token (length l))) [
      | inl a ↦ absurd (not_ok ParseError.not_read ss (sym (ap (λ x. branch x skip) a) ∙ h))
      | inr a ↦ elim (Bool-cases skip) [
        | inl b ↦
            parse_lines-AllAllowed p (n + 1) ls ss
              (sym (ap (λ x. branch x skip) a ∙ ap (branch false) b) ∙ h)
        | inr b ↦
            then_more-AllAllowed p n ss (parse_line p line) rest
              (sym (ap (λ x. branch x skip) a ∙ ap (branch false) b) ∙ h)
              (parse_line-IsAllowed p line) (parse_lines-AllAllowed p (n + 1) ls)
      ]
    ]

-- Every setting that a file gives has a key and a value that the parser allows.
pub parse_string-AllAllowed :
    (p : SettingsParser) (content : Text) (ss : List FileSetting)
    → parse_string p content ≡ ok ss
    → AllAllowed p ss
unfolding parse_string
parse_string-AllAllowed p content ss h = parse_lines-AllAllowed p 1 (scan_lines content) ss h
