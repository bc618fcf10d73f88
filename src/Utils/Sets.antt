-- ===== src/Utils/Sets.antt =====
-- The lists of strings as sets.
use andaime.Base.{
  true, false, ◌&&◌, not, List, [], ◌∷◌, Text, same_iff, same_refl, ◌≡◌, refl, ap, arith,
  Bool-cases, inl, inr,
}
use andaime.Utils.{mem, difference, unseen, remove_duplicates}

-- An element is in the difference exactly when it is in the first list and not in the second.
pub mem-difference :
    (x : Text) (a b : List Text) → mem x (difference a b) ≡ (mem x a && not (mem x b))
unfolding mem difference
mem-difference x [] b = refl
mem-difference x (y ∷ a) b = ground (arith, mem-difference x a b, same_iff y x)

-- No element stands in the list twice.
abbrev pub Distinct : List Text → Type 0
Distinct [] = Unit {0}
Distinct (x ∷ xs) = (mem x xs ≡ false) × Distinct xs

mem-unseen : (x : Text) (seen s : List Text) → mem x (unseen seen s) ≡ (mem x s && not (mem x seen))
unfolding mem unseen
mem-unseen x seen [] = refl
mem-unseen x seen (v ∷ s) =
    ground (arith, mem-unseen x seen s, mem-unseen x (v ∷ seen) s, same_iff v x)

mem_self : (v : Text) (s : List Text) → mem v (v ∷ s) ≡ true
unfolding mem
mem_self v s = ground (arith, same_refl v)

unseen-Distinct : (seen s : List Text) → Distinct (unseen seen s)
unfolding unseen
unseen-Distinct seen [] = tt
unseen-Distinct seen (v ∷ s) = elim (Bool-cases (mem v seen)) [
  | inl e ↦ rw e (unseen-Distinct seen s)
  | inr e ↦
      rw e
        (ground (arith, mem-unseen v (v ∷ seen) s, mem_self v seen), unseen-Distinct (v ∷ seen) s)
]

mem-unseen_nil : (x : Text) (s : List Text) → mem x (unseen [] s) ≡ mem x s
unfolding mem
mem-unseen_nil x s = ground (arith, mem-unseen x [] s)

mem_later :
    (v x : Text) (seen s : List Text)
    → mem v s ≡ false
    → mem x s ≡ true
    → mem x seen ≡ false
    → mem x (v ∷ seen) ≡ false
unfolding mem
mem_later v x seen s a b c = ground (arith, same_iff v x)

mem_cons : (v x : Text) (s : List Text) → mem x s ≡ true → mem x (v ∷ s) ≡ true
unfolding mem
mem_cons v x s h = ground arith

unseen_fresh :
    (seen s : List Text)
    → Distinct s
    → ((x : Text) → mem x s ≡ true → mem x seen ≡ false)
    → unseen seen s ≡ s
unfolding unseen
unseen_fresh seen [] d h = refl
unseen_fresh seen (v ∷ s) d h =
    let here : mem v seen ≡ false = h v (mem_self v s) in
    rw here (
      ap (◌∷◌ v) (
        unseen_fresh (v ∷ seen) s d.1 (λ x e. mem_later v x seen s d.0 e (h x (mem_cons v x s e)))))

mem_nil : (x : Text) → mem x [] ≡ false
unfolding mem
mem_nil x = refl

-- `RemoveDuplicates` keeps the elements, and each of them once; a list without duplicates is left
-- as it is.
pub remove_duplicates-Distinct :
    (s : List Text)
    → Distinct (remove_duplicates s)
      × ((x : Text) → mem x (remove_duplicates s) ≡ mem x s)
      × (Distinct s → remove_duplicates s ≡ s)
unfolding remove_duplicates
remove_duplicates-Distinct s =
    (unseen-Distinct [] s, λ x. mem-unseen_nil x s, λ d. unseen_fresh [] s d (λ x h. mem_nil x))
