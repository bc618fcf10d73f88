-- ===== src/Base/Strings.antt =====
-- A Go string is a sequence of bytes. What is used of the package `strings`, for ASCII letters.
use Prim.Native.Nat.{ℕ, ◌+◌}
use Prim.Native.Char.{code}
use Prim.Native.String.{String}
use mathlib.Core.Path.{◌≡◌, refl, ap₂}
use mathlib.Core.Logic.{◌↔◌}
use mathlib.Core.Bool.{Bool, true, false, ◌&&◌, ◌||◌}
use mathlib.Core.List.{List, [], ◌∷◌, map, reverse}
use native.Mathlib.Omega.{arith}
use andaime.Base.Tests.{leb, ◌==◌, if◌then◌else◌, ==_refl}

abbrev pub Text : Type 0
Text = List ℕ

-- The bytes of an ASCII literal.
abbrev pub codes : String → Text
codes String.[] = []
codes (String.◌∷◌ c s) = code c ∷ codes s

-- Go's `a == b` on strings.
unfoldable pub same : Text → Text → Bool
same [] [] = true
same [] (_ ∷ _) = false
same (_ ∷ _) [] = false
same (a ∷ s) (b ∷ t) = (a == b) && same s t

pub same_refl : (s : Text) → same s s ≡ true
unfolding same
same_refl [] = refl
same_refl (a ∷ s) = ground (arith, same_refl s, ==_refl a)

pub same→eq : (s t : Text) → same s t ≡ true → s ≡ t
unfolding same
same→eq [] [] h = refl
same→eq [] (_ ∷ _) h = cc
same→eq (_ ∷ _) [] h = cc
same→eq (a ∷ s) (b ∷ t) h = ground (arith, same→eq s t)

pub same_iff : (s t : Text) → (same s t ≡ true) ↔ (s ≡ t)
same_iff s t = (same→eq s t, λ e. ground (arith, same_refl s))

abbrev pub is_empty : Text → Bool
is_empty [] = true
is_empty (_ ∷ _) = false

abbrev pub is_lower : ℕ → Bool
is_lower c = leb b'a' c && leb c b'z'

abbrev pub is_upper : ℕ → Bool
is_upper c = leb b'A' c && leb c b'Z'

unfoldable pub to_lower_byte : ℕ → ℕ
to_lower_byte c = if is_upper c then c + 32 else c

-- `strings.ToLower`
abbrev pub to_lower : Text → Text
to_lower = map to_lower_byte

to_lower_byte_idem : (c : ℕ) → to_lower_byte (to_lower_byte c) ≡ to_lower_byte c
unfolding to_lower_byte
to_lower_byte_idem c = ground arith

pub to_lower_idem : (s : Text) → to_lower (to_lower s) ≡ to_lower s
to_lower_idem [] = refl
to_lower_idem (c ∷ s) = ap₂ ◌∷◌ (to_lower_byte_idem c) (to_lower_idem s)

-- `strings.EqualFold`
abbrev pub equal_fold : Text → Text → Bool
equal_fold s t = same (to_lower s) (to_lower t)

-- `strings.HasPrefix(s, p)`
unfoldable pub has_prefix : Text → Text → Bool
has_prefix s [] = true
has_prefix [] (_ ∷ _) = false
has_prefix (a ∷ s) (b ∷ p) = (a == b) && has_prefix s p

-- `strings.HasSuffix(s, p)`
unfoldable pub has_suffix : Text → Text → Bool
unfolding has_prefix
has_suffix s p = has_prefix (reverse s) (reverse p)

-- `strings.Contains(s, p)`
unfoldable pub contains : Text → Text → Bool
unfolding has_prefix
contains [] p = has_prefix [] p
contains (a ∷ s) p = has_prefix (a ∷ s) p || contains s p
