-- ===== src/Azure/Groups.antt =====
-- Runs that end well, and the groups of the machines.
use andaime.Base.{
  Bool, true, false, ◌||◌, List, [], ◌∷◌, ◌++◌, some, Text, Dict, lookup, insert, same,
  if◌then◌else◌, ◌≡◌, refl, ap, ◌∙◌, Bool-cases, inl, inr, arith, keys,
}
use andaime.Machine.{Machine}
use andaime.Machine.Services.{listed}
use andaime.Azure.{Deploy, Outcome, ok, err, panic, D, pure, fail, after, either}
use andaime.Azure.Create.{with_rest, combined_error, machines_by_location, members}
use andaime.Azure.Rules.{IsOk}

combined_error-IsOk : (e : Text) (r : Outcome (Unit {0})) → ¬ IsOk (combined_error (err e) r)
combined_error-IsOk e (ok a) i = i
combined_error-IsOk e (err f) i = i
combined_error-IsOk e panic i = i

module _ {W : Type 0} where
  -- Both runs of a sequence that ends well do so.
  pub after-IsOk :
      {B : Type 0} (x : Outcome (Unit {0}) × Deploy W) (k : D W B)
      → IsOk (after x (λ _. k)).0
      → IsOk x.0 × (after x (λ _. k) ≡ k x.1)
  after-IsOk (ok a, s) k i = (tt, refl)
  after-IsOk (err e, s) k i = absurd i
  after-IsOk (panic, s) k i = absurd i

  pub with_rest-IsOk :
      (x : Outcome (Unit {0}) × Deploy W) (rest : D W (Unit {0}))
      → IsOk (with_rest x rest).0
      → IsOk x.0 × (with_rest x rest ≡ rest x.1)
  with_rest-IsOk (ok a, s) rest i = (tt, refl)
  with_rest-IsOk (err e, s) rest i = absurd (combined_error-IsOk e (rest s).0 i)
  with_rest-IsOk (panic, s) rest i = absurd i

  pub either-IsOk :
      (x : Outcome (Unit {0}) × Deploy W) (f : Text → Text)
      → IsOk (either x pure (λ e. fail (f e))).0
      → IsOk x.0 × ((either x pure (λ e. fail (f e))).1 ≡ x.1)
  unfolding pure fail
  either-IsOk (ok a, s) f i = (tt, refl)
  either-IsOk (err e, s) f i = absurd i
  either-IsOk (panic, s) f i = absurd i

-- The name is in one of the groups.
abbrev pub grouped : Text → Dict (List Text) → Bool
grouped k [] = false
grouped k ((l, names) ∷ ls) = listed k names || grouped k ls

listed-snoc : (k n : Text) (ns : List Text) → listed k (ns ++ n ∷ []) ≡ (listed k ns || same n k)
listed-snoc k n [] = ground arith
listed-snoc k n (m ∷ ns) = ground (arith, listed-snoc k n ns)

grouped-insert :
    (k r n : Text) (g : Dict (List Text))
    → grouped k (insert r (members (lookup r g) ++ n ∷ []) g) ≡ (grouped k g || same n k)
unfolding insert lookup
grouped-insert k r n [] = ground arith
grouped-insert k r n ((l, ns) ∷ g) = elim (Bool-cases (same l r)) [
  | inl e ↦ rw e (ground (arith, listed-snoc k n ns))
  | inr e ↦
      ap (λ o. grouped k (insert r (members o ++ n ∷ []) ((l, ns) ∷ g)))
        (ap (λ b. if b then some ns else lookup r g) e)
      ∙ ap
          (λ b. grouped k (
            if b
            then (l, members (lookup r g) ++ n ∷ []) ∷ g
            else (l, ns) ∷ insert r (members (lookup r g) ++ n ∷ []) g))
          e
      ∙ ground (arith, grouped-insert k r n g)
]

-- Every machine is in the group of a region.
pub machines_by_location-grouped :
    (k : Text) (ms : Dict Machine) (g : Dict (List Text))
    → (listed k (keys ms) || grouped k g) ≡ true
    → grouped k (machines_by_location ms g) ≡ true
unfolding machines_by_location
machines_by_location-grouped k [] g h = h
machines_by_location-grouped k ((n, m) ∷ ms) g h =
    machines_by_location-grouped k ms (insert m.region (members (lookup m.region g) ++ n ∷ []) g)
      (ground (arith, grouped-insert k m.region n g))
