-- ===== src/Display/Message.antt =====
-- The width of the message that the display stores.
use andaime.Base.{
  ℕ, zero, suc, ◌+◌, ◌-◌, ◌≤◌, ltb, [], ◌∷◌, ◌++◌, Text, length, length-append, take, length-take,
  replicate, ◌≡◌, refl, inl, inr, Bool-cases, arith,
}
use andaime.Display.{trim_space, rune_count, pad_right, ellipsis, shown_message}

rune_count-le : (s : Text) → rune_count s ≤ length s
unfolding rune_count
rune_count-le [] = omega arith
rune_count-le (c ∷ s) = ground (arith, rune_count-le s)

rune_count-append : (s t : Text) → rune_count (s ++ t) ≡ rune_count s + rune_count t
unfolding rune_count
rune_count-append [] t = omega arith
rune_count-append (c ∷ s) t = ground (arith, rune_count-append s t)

rune_count-spaces : (n : ℕ) → rune_count (replicate n 32) ≡ n
unfolding rune_count
rune_count-spaces zero = refl
rune_count-spaces (suc n) = omega (arith, rune_count-spaces n)

ellipsis_width : rune_count ellipsis ≡ 1
unfolding rune_count
ellipsis_width = refl

-- A message of at most 37 bytes once it is trimmed is shown in exactly 40 columns of runes; a
-- longer one is cut to 37 bytes and an ellipsis, 40 bytes and at most 40 runes.
pub shown_message_width :
    (message : Text)
    → (length (trim_space message) ≤ 37 → rune_count (shown_message message) ≡ 40)
      × (rune_count (shown_message message) ≤ 40)
      × (37 + 1 ≤ length (trim_space message) → length (shown_message message) ≡ 40)
unfolding shown_message
shown_message_width message = elim (Bool-cases (ltb 37 (length (trim_space message)))) [
  | inl e ↦
      let long : 37 + 1 ≤ length t = ground arith in
      rw e (
        λ h. absurd (omega (arith, long)),
        omega (
          arith,
          rune_count-append (take 37 t) ellipsis,
          rune_count-le (take 37 t),
          length-take 37 t,
          ellipsis_width,
        ),
        λ _. omega (arith, length-append (take 37 t) ellipsis, length-take 37 t, long),
      )
  | inr e ↦
      let short : length t ≤ 37 = ground arith in
      let width : rune_count (pad_right 40 t) ≡ 40 = omega (
        arith,
        rune_count-append t (replicate (40 - rune_count t) 32),
        rune_count-spaces (40 - rune_count t),
        rune_count-le t,
        short,
      ) in
      rw e (λ _. width, omega (arith, width), λ h. absurd (omega (arith, short)))
]
  where
    t : Text
    t = trim_space message
