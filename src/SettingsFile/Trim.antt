-- ===== src/SettingsFile/Trim.antt =====
-- Text that the parser's trimming leaves as it is.
use mathlib.Core.List.{reverse-reverse}
use andaime.Base.{ℕ, ◌<◌, ◌==◌, false, [], ◌∷◌, ◌++◌, reverse, Text, ◌≡◌, refl, ap, ◌∙◌, arith}
use andaime.Display.{trim_space, trim_by, is_space, space_width, back_width, wide_front, wide_back}
use andaime.SettingsFile.{trim_quotes, trim_quotes_left}

-- The text has a first byte, which is no space and no quote.
abbrev pub StartsClean : Text → Type 0
StartsClean [] = ⊥
StartsClean (c ∷ s) = (is_space c ≡ false) × ((c == 34) ≡ false)

-- The text has a first and a last byte, which are no spaces and no quotes, and it does not begin or
-- end with a space of more bytes.
abbrev pub IsClean : Text → Type 0
IsClean s =
    StartsClean s × StartsClean (reverse s) × (space_width s ≡ 0) × (back_width (reverse s) ≡ 0)

pub StartsClean-append : (s t : Text) → StartsClean s → StartsClean (s ++ t)
StartsClean-append [] t h = elim h [ ]
StartsClean-append (c ∷ s) t h = h

trim_by-none : (width : Text → ℕ) (s : Text) → width s ≡ 0 → trim_by width 0 s ≡ s
unfolding trim_by
trim_by-none width [] h = refl
trim_by-none width (c ∷ s) h = ground arith

trim_quotes_left-StartsClean : (s : Text) → StartsClean s → trim_quotes_left s ≡ s
unfolding trim_quotes_left
trim_quotes_left-StartsClean [] h = elim h [ ]
trim_quotes_left-StartsClean (c ∷ s) (a, b) = rw b refl

pub trim_space-IsClean : (s : Text) → IsClean s → trim_space s ≡ s
unfolding trim_space
trim_space-IsClean s (a, b, v, w) =
    ap (λ t. reverse (trim_by back_width 0 (reverse t))) (trim_by-none space_width s v)
    ∙ ap reverse (trim_by-none back_width (reverse s) w)
    ∙ reverse-reverse s

-- A space in front goes too.
pub trim_space-space : (s : Text) → IsClean s → trim_space (32 ∷ s) ≡ s
unfolding trim_space trim_by
trim_space-space s h = trim_space-IsClean s h

pub trim_quotes-IsClean : (s : Text) → IsClean s → trim_quotes s ≡ s
unfolding trim_quotes
trim_quotes-IsClean s (a, b, _, _) =
    ap (λ t. reverse (trim_quotes_left (reverse t))) (trim_quotes_left-StartsClean s a)
    ∙ ap reverse (trim_quotes_left-StartsClean (reverse s) b)
    ∙ reverse-reverse s

-- An ASCII byte begins and ends no space of more bytes.
pub wide_front-ascii : (c : ℕ) (s : Text) → c < 128 → wide_front c s ≡ 0
wide_front-ascii c [] h = refl
wide_front-ascii c (b ∷ []) h = ground arith
wide_front-ascii c (b ∷ a ∷ s) h = ground arith

pub wide_back-ascii : (c : ℕ) (s : Text) → c < 128 → wide_back c s ≡ 0
wide_back-ascii c [] h = refl
wide_back-ascii c (b ∷ []) h = ground arith
wide_back-ascii c (b ∷ a ∷ s) h = ground arith

-- What stands behind a colon and a space ends with no other space than it would alone.
pub back_width-append :
    (s t : Text) → StartsClean s → back_width s ≡ 0 → back_width (s ++ (32 ∷ (58 ∷ t))) ≡ 0
back_width-append [] t a h = elim a [ ]
back_width-append (c ∷ []) t (a, q) h = ground arith
back_width-append (c ∷ b ∷ []) t (a, q) h = ground arith
back_width-append (c ∷ b ∷ d ∷ s) t (a, q) h = ground arith
