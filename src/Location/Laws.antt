-- ===== src/Location/Laws.antt =====
-- How the region and the zone that `ParseRegionZone` gives stand to its input.
use mathlib.Core.List.{append_assoc}
use andaime.Base.{
  ℕ, suc, ◌-◌, ◌<◌, ltb, ◌==◌, Bool, true, false, ◌&&◌, List, [], ◌∷◌, ◌++◌, Text, take, length,
  length-append, if◌then◌else◌, ◌≡◌, refl, ap, sym, ◌∙◌, ◌≢◌, ◌⊎◌, inl, inr, Bool-cases, arith,
  is_lower,
}
use andaime.Location.{
  dash, split, push_byte, join, last_part, init_parts, starts_with_letter, ends_with_letter,
  drop_last, parse_region_zone,
}

length-push_byte : (c : ℕ) (ps : List Text) → 0 < length ps → length (push_byte c ps) ≡ length ps
length-push_byte c [] h = elim h [ ]
length-push_byte c (p ∷ ps) h = refl

pub split-pos : (s : Text) → 0 < length (split s)
unfolding split
split-pos [] = omega arith
split-pos (c ∷ s) = ground (arith, split-pos s, length-push_byte c (split s))

join-push_byte : (c : ℕ) (ps : List Text) → 0 < length ps → join (push_byte c ps) ≡ c ∷ join ps
unfolding join
join-push_byte c [] h = elim h [ ]
join-push_byte c (p ∷ []) h = refl
join-push_byte c (p ∷ q ∷ ps) h = refl

join-empty : (ps : List Text) → 0 < length ps → join ([] ∷ ps) ≡ dash ∷ join ps
unfolding join
join-empty [] h = elim h [ ]
join-empty (p ∷ ps) h = refl

-- Splitting at the dashes and joining again gives the text back.
pub join-split : (s : Text) → join (split s) ≡ s
unfolding split
join-split [] = unfold join in refl
join-split (c ∷ s) = elim (Bool-cases (c == dash)) [
  | inl e ↦ rw e (join-empty (split s) (split-pos s) ∙ ground (arith, join-split s))
  | inr e ↦ rw e (join-push_byte c (split s) (split-pos s) ∙ ap (◌∷◌ c) (join-split s))
]

-- The last of two or more parts comes off behind a dash.
join-init_parts :
    (p q : Text) (ps : List Text)
    → join (p ∷ q ∷ ps) ≡ join (init_parts (p ∷ q ∷ ps)) ++ (dash ∷ last_part (p ∷ q ∷ ps))
unfolding join init_parts last_part
join-init_parts p q [] = refl
join-init_parts p q (r ∷ ps) =
    ap (λ x. p ++ (dash ∷ x)) (join-init_parts q r ps)
    ∙ sym (append_assoc p (dash ∷ join (init_parts (q ∷ r ∷ ps))) (dash ∷ last_part (r ∷ ps)))

take-length : (xs ys : Text) → take (length xs) (xs ++ ys) ≡ xs
take-length [] ys = refl
take-length (x ∷ xs) ys = ap (◌∷◌ x) (take-length xs ys)

drop_last-snoc : (xs : Text) (c : ℕ) → drop_last (xs ++ c ∷ []) ≡ xs
drop_last-snoc xs c =
    let e : length (xs ++ c ∷ []) - 1 ≡ length xs = omega (arith, length-append xs (c ∷ [])) in
    rw e (take-length xs (c ∷ []))

snoc-view : (x : ℕ) (s : Text) → (xs : Text) × (c : ℕ) × (x ∷ s ≡ xs ++ c ∷ [])
snoc-view x [] = ([], x, refl)
snoc-view x (y ∷ s) = let (xs, c, e) = snoc-view y s in (x ∷ xs, c, ap (◌∷◌ x) e)

cut_parts :
    (ps : List Text) → 2 < length ps → join ps ≡ join (init_parts ps) ++ (dash ∷ last_part ps)
cut_parts [] h = absurd (omega arith)
cut_parts (p ∷ []) h = absurd (omega arith)
cut_parts (p ∷ q ∷ ps) h = join-init_parts p q ps

-- The location has at least three parts, of which the last starts with a letter.
abbrev pub is_gcp_zone : Text → Bool
is_gcp_zone s = ltb 2 (length (split s)) && starts_with_letter (last_part (split s))

gcp_zone_parts : (s : Text) → is_gcp_zone s ≡ true → 2 < length (split s)
gcp_zone_parts s h = ground arith

gcp_zone_cut :
    (s : Text)
    → is_gcp_zone s ≡ true
    → s ≡ join (init_parts (split s)) ++ (dash ∷ last_part (split s))
gcp_zone_cut s h = sym (join-split s) ∙ cut_parts (split s) (gcp_zone_parts s h)

-- How a location stands to its region and its zone. The zone of a location that ends like a zone of
-- GCP is the location, and its region what stands before the last dash; of another that ends with a
-- letter it is the location, and the region is the rest of it; of every other location the region
-- is the location, and the zone has an "a" behind it.
abbrev pub Cut : Text → Text × Text → Type 0
Cut s (region, zone) =
    ((is_gcp_zone s ≡ true)
      × (zone ≡ s)
      × (rest : Text) × (s ≡ region ++ (dash ∷ rest))
      × (rest ≡ last_part (split s))
      × (starts_with_letter rest ≡ true))
    ⊎ ((is_gcp_zone s ≡ false)
        × (zone ≡ s)
        × (c : ℕ) × (s ≡ region ++ c ∷ [])
        × (is_lower c ≡ true))
    ⊎ ((is_gcp_zone s ≡ false)
        × (ends_with_letter s ≡ false)
        × (region ≡ s)
        × (zone ≡ s ++ b'a' ∷ []))

parse_gcp :
    (c : ℕ) (s : Text)
    → is_gcp_zone (c ∷ s) ≡ true
    → parse_region_zone (c ∷ s) ≡ (join (init_parts (split (c ∷ s))), c ∷ s)
parse_gcp c s h = unfold parse_region_zone in rw h

parse_region : (s : Text) → Text × Text
parse_region s = if ends_with_letter s then (drop_last s, s) else (s, s ++ b'a' ∷ [])

parse_other :
    (c : ℕ) (s : Text)
    → is_gcp_zone (c ∷ s) ≡ false
    → parse_region_zone (c ∷ s) ≡ parse_region (c ∷ s)
parse_other c s h = unfold parse_region_zone parse_region in rw h

cut_last : (c : ℕ) (s : Text) → (d : ℕ) × (c ∷ s ≡ drop_last (c ∷ s) ++ d ∷ [])
cut_last c s =
    let (xs, d, e) = snoc-view c s in
    (d, e ∙ ap (λ (x : Text). x ++ d ∷ []) (sym (ap drop_last e ∙ drop_last-snoc xs d)))

ends_with_letter-snoc_eq : (xs : Text) (d : ℕ) → ends_with_letter (xs ++ d ∷ []) ≡ is_lower d
unfolding ends_with_letter
ends_with_letter-snoc_eq [] d = refl
ends_with_letter-snoc_eq (c ∷ []) d = refl
ends_with_letter-snoc_eq (c ∷ x ∷ xs) d = ends_with_letter-snoc_eq (x ∷ xs) d

cut_letter :
    (c : ℕ) (s : Text)
    → ends_with_letter (c ∷ s) ≡ true
    → (d : ℕ) × (c ∷ s ≡ drop_last (c ∷ s) ++ d ∷ []) × (is_lower d ≡ true)
cut_letter c s h =
    let (d, e) = cut_last c s in
    (d, e, sym (ends_with_letter-snoc_eq (drop_last (c ∷ s)) d) ∙ sym (ap ends_with_letter e) ∙ h)

parse_region-Cut :
    (c : ℕ) (s : Text) → is_gcp_zone (c ∷ s) ≡ false → Cut (c ∷ s) (parse_region (c ∷ s))
unfolding parse_region
parse_region-Cut c s g = elim (Bool-cases (ends_with_letter (c ∷ s))) [
  | inl e ↦ let (d, cut, lower) = cut_letter c s e in rw e (inr (inl (g, refl, d, cut, lower)))
  | inr e ↦ rw e (inr (inr (g, refl, refl, refl)))
]

parse_region_zone_of : (s : Text) → ((parse_region s).1 ≡ s) ⊎ ((parse_region s).1 ≡ s ++ b'a' ∷ [])
unfolding parse_region
parse_region_zone_of s = ground arith

gcp_letter : (s : Text) → is_gcp_zone s ≡ true → starts_with_letter (last_part (split s)) ≡ true
gcp_letter s h = ground arith

-- Every input but the empty one is cut in one of three ways. If it has at least three parts between
-- dashes and the last starts with a letter, it is the zone, and the region is what stands before
-- the last dash; if not and it ends with a letter, it is the zone, and the region is all but this
-- letter; else it is the region, and the zone has an "a" behind it.
pub parse_region_zone-Cut : (s : Text) → s ≢ [] → Cut s (parse_region_zone s)
parse_region_zone-Cut [] h = absurd (h refl)
parse_region_zone-Cut (c ∷ s) h = elim (Bool-cases (is_gcp_zone (c ∷ s))) [
  | inl e ↦
      rw (parse_gcp c s e) (
        inl
          (e, refl, last_part (split (c ∷ s)), gcp_zone_cut (c ∷ s) e, refl, gcp_letter (c ∷ s) e))
  | inr e ↦ rw (parse_other c s e) (parse_region-Cut c s e)
]

-- The parts of a text with an "a" behind it.
add_last : List Text → List Text
add_last [] = []
add_last (p ∷ []) = (p ++ b'a' ∷ []) ∷ []
add_last (p ∷ q ∷ ps) = p ∷ add_last (q ∷ ps)

push_byte-add_last :
    (c : ℕ) (ps : List Text) → 0 < length ps → push_byte c (add_last ps) ≡ add_last (push_byte c ps)
unfolding add_last
push_byte-add_last c [] h = elim h [ ]
push_byte-add_last c (p ∷ []) h = refl
push_byte-add_last c (p ∷ q ∷ ps) h = refl

add_last-cons : (p : Text) (ps : List Text) → 0 < length ps → add_last (p ∷ ps) ≡ p ∷ add_last ps
unfolding add_last
add_last-cons p [] h = elim h [ ]
add_last-cons p (q ∷ ps) h = refl

split-snoc : (s : Text) → split (s ++ b'a' ∷ []) ≡ add_last (split s)
unfolding split
split-snoc [] = unfold add_last in refl
split-snoc (c ∷ s) = elim (Bool-cases (c == dash)) [
  | inl e ↦ rw e (ap (◌∷◌ []) (split-snoc s) ∙ sym (add_last-cons [] (split s) (split-pos s)))
  | inr e ↦ rw e (ap (push_byte c) (split-snoc s) ∙ push_byte-add_last c (split s) (split-pos s))
]

length-add_last : (ps : List Text) → length (add_last ps) ≡ length ps
unfolding add_last
length-add_last [] = refl
length-add_last (p ∷ []) = refl
length-add_last (p ∷ q ∷ ps) = ap suc (length-add_last (q ∷ ps))

last_part-add_last :
    (ps : List Text) → 0 < length ps → last_part (add_last ps) ≡ last_part ps ++ b'a' ∷ []
unfolding add_last last_part
last_part-add_last [] h = elim h [ ]
last_part-add_last (p ∷ []) h = refl
last_part-add_last (p ∷ q ∷ []) h = refl
last_part-add_last (p ∷ q ∷ r ∷ ps) h = last_part-add_last (q ∷ r ∷ ps) (omega arith)

starts_with_letter-snoc :
    (s : Text) → s ≢ [] → starts_with_letter (s ++ b'a' ∷ []) ≡ starts_with_letter s
starts_with_letter-snoc [] h = absurd (h refl)
starts_with_letter-snoc (c ∷ s) h = refl

is_gcp_zone-snoc :
    (s : Text) → last_part (split s) ≢ [] → is_gcp_zone (s ++ b'a' ∷ []) ≡ is_gcp_zone s
is_gcp_zone-snoc s h = ground (
  arith,
  split-snoc s,
  length-add_last (split s),
  last_part-add_last (split s) (split-pos s),
  starts_with_letter-snoc (last_part (split s)) h,
)

ends_with_letter-snoc : (s : Text) → ends_with_letter (s ++ b'a' ∷ []) ≡ true
unfolding ends_with_letter
ends_with_letter-snoc [] = refl
ends_with_letter-snoc (c ∷ []) = refl
ends_with_letter-snoc (c ∷ d ∷ s) = ends_with_letter-snoc (d ∷ s)

parse_region-zone : (s : Text) → parse_region (parse_region s).1 ≡ parse_region s
unfolding parse_region
parse_region-zone s = elim (Bool-cases (ends_with_letter s)) [
  | inl e ↦ rw e (rw e)
  | inr e ↦ rw e (
      rw (ends_with_letter-snoc s) (ap (λ (x : Text). (x, s ++ b'a' ∷ [])) (drop_last-snoc s b'a')))
]

parse_zone_other :
    (c : ℕ) (s : Text)
    → last_part (split (c ∷ s)) ≢ []
    → is_gcp_zone (c ∷ s) ≡ false
    → (((parse_region (c ∷ s)).1 ≡ c ∷ s) ⊎ ((parse_region (c ∷ s)).1 ≡ c ∷ s ++ b'a' ∷ []))
    → parse_region_zone (parse_region (c ∷ s)).1 ≡ parse_region (parse_region (c ∷ s)).1
parse_zone_other c s l e (inl z) = rw z (parse_other c s e)
parse_zone_other c s l e (inr z) =
    rw z (parse_other c (s ++ b'a' ∷ []) (is_gcp_zone-snoc (c ∷ s) l ∙ e))

-- Parsing the zone that was found gives the same region and zone again, unless the input ends
-- with a dash.
pub parse_region_zone_stable :
    (s : Text)
    → s ≢ []
    → last_part (split s) ≢ []
    → parse_region_zone (parse_region_zone s).1 ≡ parse_region_zone s
parse_region_zone_stable [] h l = absurd (h refl)
parse_region_zone_stable (c ∷ s) h l = elim (Bool-cases (is_gcp_zone (c ∷ s))) [
  | inl e ↦ rw (parse_gcp c s e) (parse_gcp c s e)
  | inr e ↦
      rw (parse_other c s e)
        (parse_zone_other c s l e (parse_region_zone_of (c ∷ s)) ∙ parse_region-zone (c ∷ s))
]
