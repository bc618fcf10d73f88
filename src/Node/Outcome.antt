-- ===== src/Node/Outcome.antt =====
-- How `ProvisionBacalhauNodeWithCallback` ends.
use andaime.Base.{
  ℕ, Bool, true, false, not, ◌&&◌, List, [], ◌∷◌, Option, none, some, Text, same, is_empty, ◌≡◌,
  refl, ap, arith, ◌∙◌, ◌⊎◌, inl, inr, Bool-cases, sym, subst,
}
use andaime.Types.{
  ServiceState, service_docker, service_core_packages, service_bacalhau, service_script,
}
use andaime.Machine.{Machine, set_service_state, get_service_state, set_complete}
use andaime.Machine.Services.{get_service_state-set_ne, get_service_state-set_self}
use andaime.Remote.{Error, Remote}
use andaime.Exec.{ProvisioningStep, Update, started, errored, Run, M, ◌>>◌, gets}
use andaime.Exec.Rules.{Ends, good, Ensures, then-Ensures, bind-Ensures}
use andaime.Exec.Keeps.{At, set_service-Ensures, weaken-Ensures}
use andaime.Node.{
  Context, Setting, node_guard, guarded, provision_step, node_steps, provision_bacalhau_node,
}
use andaime.Node.Guards.{guard_kept}
use andaime.Node.Plan.{log, node_plan, StoppedLog, Reached, Stopped, Finished, node_steps-Ensures}
use andaime.Node.Provision.{
  Untouched, shown-done, shown-service, ShowClosed, last_shown, NotProvisioned,
  provision_step-Ensures,
}

module _ {W : Type 0} where
  gets-Ensures :
      {A : Type 0} (P : Run W → Type 0) (E : Run W → Type 0) (f : Machine → A)
      → Ensures P (gets f) (λ a s. P s × (a ≡ f s.machine)) E
  unfolding gets
  gets-Ensures P E f s p = good (f s.machine) s (p, refl)

  guarded-Ensures :
      (P : Run W → Type 0) (Q : Unit {0} → Run W → Type 0) (E : Run W → Type 0) (g : Option Error)
      (rest : M W (Unit {0}))
      → g ≡ none
      → Ensures P rest Q E
      → Ensures P (guarded g rest) Q E
  guarded-Ensures P Q E none rest h k = k
  guarded-Ensures P Q E (some e) rest h k = cc

-- The machine of a run while its node is set up, and after a step that failed.
abbrev Working : Bool → Machine → Type 0
Working d m = (get_service_state m service_bacalhau ≡ ServiceState.updating) × (m.done ≡ d)

abbrev Broken : Bool → Machine → Type 0
Broken d m = (get_service_state m service_bacalhau ≡ ServiceState.failed) × (m.done ≡ d)

Untouched-bacalhau : Untouched service_bacalhau
unfolding same
Untouched-bacalhau = (refl, refl)

set_other-Working :
    (d : Bool) (t : Text) (v : ServiceState) (m : Machine)
    → same t service_bacalhau ≡ false
    → Working d m
    → Working d (set_service_state m t v)
unfolding set_service_state
set_other-Working d t v m h p =
    (unfold set_service_state in get_service_state-set_ne m t service_bacalhau v h ∙ p.0, p.1)

set_bacalhau-Broken :
    (d : Bool) (m : Machine)
    → Working d m
    → Broken d (set_service_state m service_bacalhau ServiceState.failed)
set_bacalhau-Broken d m p = (
  get_service_state-set_self m service_bacalhau ServiceState.failed,
  unfold set_service_state in p.1,
)

docker_other : same service_docker service_bacalhau ≡ false
unfolding same
docker_other = refl

core_other : same service_core_packages service_bacalhau ≡ false
unfolding same
core_other = refl

script_other : same service_script service_bacalhau ≡ false
unfolding same
script_other = refl

module _ {W : Type 0} (remote : Remote W) (ctx : Context) where
  shown-Working : (d : Bool) → ShowClosed ctx (Working d)
  shown-Working d state text m p = (
    shown-service ctx.tables state text m service_bacalhau Untouched-bacalhau ∙ p.0,
    shown-done ctx.tables state text m ∙ p.1,
  )

  last-Working : (d : Bool) (m : Machine) → Working d m → Working d (last_shown ctx m)
  last-Working d m p = elim (Bool-cases (ctx.shown && not (is_empty m.name))) [
    | inl e ↦ rw e (shown-Working d _ _ m p)
    | inr e ↦ rw e p
  ]

-- A node that is up: the Bacalhau service has succeeded, the machine is done, and the updates are
-- those of the whole plan, in its order.
abbrev pub NodeUp : List Update → Machine → List Update → Type 0
NodeUp old m us =
    (get_service_state m service_bacalhau ≡ ServiceState.succeeded)
    × (m.done ≡ true)
    × (us ≡ log node_plan old)

-- A node that is not up: the machine is as done as before. If the first step failed, the Bacalhau
-- service is left "updating"; if a step behind it did, it is "failed", and the updates stop there.
abbrev pub NodeDown : Bool → List Update → Machine → List Update → Type 0
NodeDown d old m us =
    (m.done ≡ d)
    × (((get_service_state m service_bacalhau ≡ ServiceState.updating)
          × (e : Error) × (us
              ≡ errored ProvisioningStep.node_provisioning e
                ∷ started ProvisioningStep.node_provisioning
                ∷ old))
        ⊎ ((get_service_state m service_bacalhau ≡ ServiceState.failed) × StoppedLog old us))

set_complete-done : (t : ℕ) (m : Machine) → (set_complete t m).done ≡ true
unfolding set_complete
set_complete-done t m = ground arith

pub set_complete-service :
    (t : ℕ) (m : Machine) (name : Text)
    → get_service_state (set_complete t m) name ≡ get_service_state m name
unfolding set_complete get_service_state
set_complete-service t m name = ground arith

module _ {W : Type 0} (remote : Remote W) (ctx : Context) (settings : List Setting) where
  Finished-NodeUp :
      (d : Bool) (old : List Update) (m : Machine) (us : List Update)
      → Finished old (Working d) ctx m us
      → NodeUp old m us
  Finished-NodeUp d old m us (x, k, eq, l) =
      let y = set_service_state x service_bacalhau ServiceState.succeeded in
      (
        ap (λ z. get_service_state z service_bacalhau) eq
            ∙ set_complete-service ctx.now y service_bacalhau
            ∙ get_service_state-set_self x service_bacalhau ServiceState.succeeded,
        ap (λ z. z.done) eq ∙ set_complete-done ctx.now y,
        l,
      )

  body :
      (d : Bool) (old : List Update)
      → Ensures
          (At (Reached old (Working d) []))
          (provision_step remote ctx >> node_steps remote ctx settings)
          (λ _. At (NodeUp old))
          (At (NodeDown d old))
  body d old =
      let P = At {W = W} (Reached old (Working d) []) in
      let Q = At {W = W} (Reached old (Working d) (ProvisioningStep.node_provisioning ∷ [])) in
      let D = At {W = W} (NodeDown d old) in
      then-Ensures P Q (λ _. At (NodeUp old)) D _ _
        (weaken-Ensures P (λ _. Q) (λ _. Q) (At (NotProvisioned (Working d) old)) D _
          (provision_step-Ensures remote ctx (Working d) (Working d) (shown-Working remote ctx d)
            (λ v m p. set_other-Working d service_docker v m docker_other p)
            (λ v m p. set_other-Working d service_core_packages v m core_other p)
            (last-Working remote ctx d) old)
          (λ a s q. q) (λ s q. (q.0.1, inl (q.0.0, q.1, q.2))))
        (weaken-Ensures Q (λ _. At (Finished old (Working d) ctx)) (λ _. At (NodeUp old))
          (At (Stopped old (Broken d))) D _
          (node_steps-Ensures old (Working d) (Broken d)
            (λ m v p. set_other-Working d service_script v m script_other p) (set_bacalhau-Broken d)
            remote ctx settings)
          (λ a s q. Finished-NodeUp d old s.machine s.updates q) (λ s q. (q.0.1, inr (q.0.0, q.1))))

  -- Past the guards, a run is that of its steps on the machine whose service is "updating".
  pub enter :
      (K : Machine → Type 0) (Q : Unit {0} → Run W → Type 0) (E : Run W → Type 0) (s : Run W)
      → node_guard s.machine ≡ none
      → K (set_service_state s.machine service_bacalhau ServiceState.updating)
      → Ensures
          (At (Reached s.updates K []))
          (provision_step remote ctx >> node_steps remote ctx settings)
          Q
          E
      → Ends Q E (provision_bacalhau_node remote ctx settings s)
  enter K Q E s h k steps =
      let P : Machine → List Update → Type 0 = λ m us. (m ≡ s.machine) × (us ≡ s.updates) in
      let R : Machine → List Update → Type 0 =
        λ m us. (node_guard m ≡ none) × Reached s.updates K [] m us in
      unfold provision_bacalhau_node in
      then-Ensures (At P) (At R) Q E _ _
        (set_service-Ensures P R E service_bacalhau ServiceState.updating (λ m us p. (
          guard_kept m ∙ ap node_guard p.0 ∙ h,
          (
            subst (λ x. K (set_service_state x service_bacalhau ServiceState.updating)) (sym p.0) k,
            p.1,
          ),
        )))
        (bind-Ensures (At R) (λ m t. At R t × (m ≡ t.machine)) Q E _ _
          (gets-Ensures (At R) E (λ m. m))
          (λ m t p.
            guarded-Ensures (At (Reached s.updates K [])) Q E (node_guard m) _
              (ap node_guard p.1 ∙ p.0.0) steps t p.0.1))
        s (refl, refl)

  -- Past the guards a run ends in one of two ways. It returns, and the node is up: its Bacalhau
  -- service is "succeeded", the machine is done, and the updates are the start and the end of the
  -- nine steps in their order. Or it gives an error, and the machine is as done as before: either
  -- the first step failed, and the Bacalhau service is left "updating", or a later one did, the
  -- service is "failed", and the last updates are the start and the error of that step, behind
  -- those of all the steps before it, of which the first step is always one.
  pub provision_bacalhau_node-outcome :
      (s : Run W)
      → node_guard s.machine ≡ none
      → Ends
          (λ _. At (NodeUp s.updates))
          (At (NodeDown s.machine.done s.updates))
          (provision_bacalhau_node remote ctx settings s)
  provision_bacalhau_node-outcome s h =
      enter (Working s.machine.done) (λ _. At (NodeUp s.updates))
        (At (NodeDown s.machine.done s.updates)) s h
        (
          get_service_state-set_self s.machine service_bacalhau ServiceState.updating,
          unfold set_service_state in refl,
        )
        (body s.machine.done s.updates)
