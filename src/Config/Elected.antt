-- ===== src/Config/Elected.antt =====
-- The orchestrator that is looked for, or chosen, at the end.
use andaime.Base.{
  ◌≤◌, ltb, true, false, List, [], ◌∷◌, Text, is_empty, Dict, length, ◌≡◌, refl, sym, ap, ◌∙◌,
  subst, Bool-cases, inl, inr, arith,
}
use andaime.Machine.{Machine}
use andaime.Remote as Remote
use andaime.Cluster.{find_orchestrator_machine}
use andaime.Cluster.Find.{orchestrators_of, find_orchestrator_machine_iff}
use andaime.Config.Create.{ok}
use andaime.Config.{tell_machines, elected}
use andaime.Config.Created.{ok_eq}
use andaime.Config.Orchestrators.{count_orchestrators, NoneFailed, get_machines-NoneFailed}

pub tell_machines-found :
    (ip : Text) (ms : Dict Machine)
    → is_empty ip ≡ true
    → tell_machines ip ms ≡ (ms, ltb 0 (count_orchestrators ms))
unfolding tell_machines
tell_machines-found ip [] e = refl
tell_machines-found ip ((k, m) ∷ ms) e = ground (arith, tell_machines-found ip ms e)

-- One orchestrator, and no machine that has failed.
abbrev pub Elected : Dict Machine → Type 0
Elected ms = (count_orchestrators ms ≡ 1) × NoneFailed ms

pub elected-Elected :
    (ms ms' : Dict Machine)
    → elected (ms, ltb 0 (count_orchestrators ms)) ≡ ok ms'
    → count_orchestrators ms ≤ 1
    → NoneFailed ms
    → Elected ms'
elected-Elected ms ms' h c f = elim (Bool-cases (ltb 0 (count_orchestrators ms))) [
  | inl e ↦ subst Elected (ok_eq ms ms' (sym (ap (λ b. elected (ms, b)) e) ∙ h)) (ground arith, f)
  | inr e ↦ chosen ms (sym (ap (λ b. elected (ms, b)) e) ∙ h) e f
]
  where
    chosen :
        (ms : Dict Machine)
        → elected (ms, false) ≡ ok ms'
        → ltb 0 (count_orchestrators ms) ≡ false
        → NoneFailed ms
        → Elected ms'
    chosen [] h e f = cc
    chosen ((k, m) ∷ ms) h e (g, f) = subst Elected (ok_eq _ ms' h) (ground arith, (g, f))

length_one {ℓ} : {A : Type ℓ} (xs : List A) → length xs ≡ 1 → (x : A) × (xs ≡ x ∷ [])
length_one [] h = absurd (omega arith)
length_one (x ∷ []) h = (x, refl)
length_one (x ∷ y ∷ xs) h = absurd (omega arith)

pub Elected-found :
    (ms : Dict Machine) → Elected ms → (m : Machine) × (find_orchestrator_machine ms ≡ Remote.ok m)
Elected-found ms (c, f) =
    let (m, e) = length_one (orchestrators_of ms) c in
    (
      m,
      (find_orchestrator_machine_iff ms m).1
          (ap orchestrators_of (get_machines-NoneFailed ms f) ∙ e),
    )
