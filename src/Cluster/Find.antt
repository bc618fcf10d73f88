-- ===== src/Cluster/Find.antt =====
-- Which machine `FindOrchestratorMachine` finds.
use andaime.Base.{
  ℕ, ◌+◌, List, [], ◌∷◌, Option, none, some, Dict, length, if◌then◌else◌, ◌≡◌, refl, ◌↔◌, ap, ◌∙◌,
  subst, arith, sym,
}
use andaime.Machine.{Machine}
use andaime.Remote.{ok}
use andaime.Cluster.{get_machines, scan_orchestrators, one_orchestrator, find_orchestrator_machine}

-- The orchestrators among the machines, in their order.
abbrev pub orchestrators_of : Dict Machine → List Machine
orchestrators_of [] = []
orchestrators_of ((k, m) ∷ ms) =
    if m.orchestrator then m ∷ orchestrators_of ms else orchestrators_of ms

last_of : Option Machine → List Machine → Option Machine
last_of o [] = o
last_of o (m ∷ ms) = last_of (some m) ms

last_some : (m : Machine) (ms : List Machine) → (x : Machine) × (last_of (some m) ms ≡ some x)
unfolding last_of
last_some m [] = (m, refl)
last_some m (n ∷ ms) = last_some n ms

scan-orchestrators_of :
    (ms : Dict Machine) (o : Option Machine) (n : ℕ)
    → scan_orchestrators ms o n
      ≡ (last_of o (orchestrators_of ms), n + length (orchestrators_of ms))
unfolding scan_orchestrators last_of
scan-orchestrators_of [] o n = ap (λ (k : ℕ). (o, k)) (omega arith)
scan-orchestrators_of ((k, m) ∷ ms) o n =
    ground (arith, scan-orchestrators_of ms (some m) (n + 1), scan-orchestrators_of ms o n)

one_iff :
    (os : List Machine) (m : Machine)
    → (one_orchestrator (last_of none os, length os) ≡ ok m) ↔ (os ≡ m ∷ [])
unfolding last_of
one_iff [] m = (λ h. cc, λ h. cc)
one_iff (x ∷ []) m = (λ h. cc, λ h. cc)
one_iff (x ∷ y ∷ os) m = (λ h. absurd (ground (arith, last_some y os)), λ h. cc)

-- A machine is found exactly when it is the only orchestrator among the machines that have not
-- failed.
pub find_orchestrator_machine_iff :
    (ms : Dict Machine) (m : Machine)
    → (find_orchestrator_machine ms ≡ ok m) ↔ (orchestrators_of (get_machines ms) ≡ m ∷ [])
unfolding find_orchestrator_machine
find_orchestrator_machine_iff ms m =
    subst
      (λ (x : Option Machine × ℕ).
        (one_orchestrator x ≡ ok m) ↔ (orchestrators_of (get_machines ms) ≡ m ∷ []))
      (sym (
        scan-orchestrators_of (get_machines ms) none 0
        ∙ ap (λ (k : ℕ). (last_of none (orchestrators_of (get_machines ms)), k)) (omega arith)))
      (one_iff (orchestrators_of (get_machines ms)) m)
