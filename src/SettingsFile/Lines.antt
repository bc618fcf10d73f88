-- ===== src/SettingsFile/Lines.antt =====
-- The bytes of keys, and how the parser finds lines and their parts.
use mathlib.Core.List.{reverse-append}
use andaime.Base.{
  ℕ, ◌<◌, ◌==◌, Bool, true, false, ◌&&◌, ◌||◌, [], ◌∷◌, ◌++◌, reverse, some, Text, is_empty, ◌≡◌,
  refl, sym, ap, ◌∙◌, arith,
}
use andaime.Display.{is_space, space_width, back_width}
use andaime.SettingsFile.{
  scan_lines, push_line, drop_cr, split_colon, behind_byte, is_key_byte, all_key_bytes,
}
use andaime.SettingsFile.Trim.{StartsClean, IsClean, wide_front-ascii, wide_back-ascii}

abbrev pub has_newline : Text → Bool
has_newline [] = false
has_newline (c ∷ s) = c == 10 || has_newline s

pub key_byte_parts :
    (c : ℕ)
    → is_key_byte c ≡ true
    → (is_space c ≡ false)
      × ((c == 34) ≡ false)
      × ((c == 58) ≡ false)
      × ((c == 10) ≡ false)
      × ((c == 35) ≡ false)
unfolding is_key_byte
key_byte_parts c h = ground arith

all_key_bytes-append : (s t : Text) → all_key_bytes (s ++ t) ≡ (all_key_bytes s && all_key_bytes t)
unfolding all_key_bytes
all_key_bytes-append [] t = refl
all_key_bytes-append (c ∷ s) t = ground (arith, all_key_bytes-append s t)

all_key_bytes-reverse : (s : Text) → all_key_bytes (reverse s) ≡ all_key_bytes s
unfolding all_key_bytes
all_key_bytes-reverse [] = refl
all_key_bytes-reverse (c ∷ s) =
    ap all_key_bytes (reverse-append (c ∷ []) s)
    ∙ all_key_bytes-append (reverse s) (c ∷ [])
    ∙ ground (arith, all_key_bytes-reverse s)

key_byte-ascii : (c : ℕ) → is_key_byte c ≡ true → c < 128
unfolding is_key_byte
key_byte-ascii c h = ground arith

pub key_front : (c : ℕ) (s : Text) → is_key_byte c ≡ true → space_width (c ∷ s) ≡ 0
key_front c s k = rw (key_byte_parts c k).0 (wide_front-ascii c s (key_byte-ascii c k))

space_width-key : (s : Text) → all_key_bytes s ≡ true → space_width s ≡ 0
unfolding all_key_bytes
space_width-key [] h = refl
space_width-key (c ∷ s) h = key_front c s (ground arith)

back_width-key : (s : Text) → all_key_bytes s ≡ true → back_width s ≡ 0
unfolding all_key_bytes
back_width-key [] h = refl
back_width-key (c ∷ s) h =
    let k : is_key_byte c ≡ true = ground arith in
    rw (key_byte_parts c k).0 (wide_back-ascii c s (key_byte-ascii c k))

key_starts : (s : Text) → is_empty s ≡ false → all_key_bytes s ≡ true → StartsClean s
unfolding all_key_bytes
key_starts [] e h = cc
key_starts (c ∷ s) e h = let (a, b, _, _, _) = key_byte_parts c (ground arith) in (a, b)

is_empty-snoc : (s : Text) (c : ℕ) → is_empty (s ++ c ∷ []) ≡ false
is_empty-snoc [] c = refl
is_empty-snoc (d ∷ s) c = refl

is_empty-reverse : (s : Text) → is_empty s ≡ false → is_empty (reverse s) ≡ false
is_empty-reverse [] h = cc
is_empty-reverse (c ∷ s) h = ap is_empty (reverse-append (c ∷ []) s) ∙ is_empty-snoc (reverse s) c

pub key-IsClean : (s : Text) → is_empty s ≡ false → all_key_bytes s ≡ true → IsClean s
key-IsClean s e h = (
  key_starts s e h,
  key_starts (reverse s) (is_empty-reverse s e) (all_key_bytes-reverse s ∙ h),
  space_width-key s h,
  back_width-key (reverse s) (all_key_bytes-reverse s ∙ h),
)

pub split_colon-key :
    (k v : Text) → all_key_bytes k ≡ true → split_colon (k ++ (58 ∷ v)) ≡ some (k, v)
unfolding split_colon all_key_bytes
split_colon-key [] v h = refl
split_colon-key (c ∷ k) v h =
    let (_, _, colon, _, _) = key_byte_parts c (ground arith) in
    rw colon (ap (behind_byte c) (split_colon-key k v (ground arith)))

pub scan_lines-line :
    (l s : Text) → has_newline l ≡ false → scan_lines (l ++ (10 ∷ s)) ≡ l ∷ scan_lines s
unfolding scan_lines
scan_lines-line [] s h = refl
scan_lines-line (c ∷ l) s h =
    let here : (c == 10) ≡ false = ground arith in
    rw here (ap (push_line c) (scan_lines-line l s (ground arith)))

pub has_newline-append : (s t : Text) → has_newline (s ++ t) ≡ (has_newline s || has_newline t)
has_newline-append [] t = refl
has_newline-append (c ∷ s) t = ground (arith, has_newline-append s t)

pub has_newline-key : (s : Text) → all_key_bytes s ≡ true → has_newline s ≡ false
unfolding all_key_bytes
has_newline-key [] h = refl
has_newline-key (c ∷ s) h = ground (arith, has_newline-key s, key_byte_parts c)

drop_cr-snoc : (s : Text) (c : ℕ) → (c == 13) ≡ false → drop_cr (s ++ c ∷ []) ≡ s ++ c ∷ []
unfolding drop_cr
drop_cr-snoc [] c h = rw h refl
drop_cr-snoc (a ∷ []) c h = ap (◌∷◌ a) (drop_cr-snoc [] c h)
drop_cr-snoc (a ∷ b ∷ s) c h = ap (◌∷◌ a) (drop_cr-snoc (b ∷ s) c h)

pub drop_cr-reverse : (r : Text) → StartsClean r → drop_cr (reverse r) ≡ reverse r
drop_cr-reverse [] h = elim h [ ]
drop_cr-reverse (c ∷ r) (a, b) =
    ap drop_cr (reverse-append (c ∷ []) r)
    ∙ drop_cr-snoc (reverse r) c (ground arith)
    ∙ sym (reverse-append (c ∷ []) r)
