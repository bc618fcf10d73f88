-- ===== src/Node/Completion.antt =====
-- What a node that is up says of its core packages.
use andaime.Base.{true, false, List, [], ◌∷◌, Text, same, is_empty, ◌≡◌, refl, ap, arith, ◌∙◌, none}
use andaime.Types.{
  ServiceState, MachineResourceState, service_docker, service_core_packages, service_bacalhau,
  service_script,
}
use andaime.Types.Resources.{azure_vm}
use andaime.Machine.{
  Machine, set_service_state, get_service_state, get_machine_resource, is_complete,
}
use andaime.Machine.Services.{get_service_state-set_ne}
use andaime.Display.{instance_is_up}
use andaime.Display.Services.{with_text_resets_core_packages, incomplete_of}
use andaime.Remote.{Remote}
use andaime.Exec.{ProvisioningStep, Update, Run}
use andaime.Exec.Rules.{Ends, then-Ensures}
use andaime.Exec.Keeps.{At, weaken-Ensures}
use andaime.Node.{Context, Setting, node_guard, provision_bacalhau_node}
use andaime.Node.Plan.{Reached, Stopped, Finished, node_steps-Ensures}
use andaime.Node.Provision.{
  shown-name, shown-up, ShowClosed, last_shown, success_text, NotProvisioned,
  provision_step-Ensures,
}
use andaime.Node.Outcome.{enter, set_complete-service}

-- A machine with a name whose instance is not known to be up.
abbrev Hidden : Machine → Type 0
Hidden m = (instance_is_up m ≡ false) × (is_empty m.name ≡ false)

abbrev Reset : Machine → Type 0
Reset m = get_service_state m service_core_packages ≡ ServiceState.not_started

set_service-Hidden :
    (t : Text) (v : ServiceState) (m : Machine) → Hidden m → Hidden (set_service_state m t v)
unfolding set_service_state instance_is_up get_machine_resource
set_service-Hidden t v m p = p

shown-Hidden : (ctx : Context) → ShowClosed ctx Hidden
shown-Hidden ctx state text m p =
    (shown-up ctx.tables state text m ∙ p.0, ap is_empty (shown-name ctx.tables state text m) ∙ p.1)

last-Reset :
    (ctx : Context) → ctx.shown ≡ true → (m : Machine) → Hidden m → Reset (last_shown ctx m)
last-Reset ctx h m p =
    rw (h, p.1)
      (with_text_resets_core_packages ctx.tables m.name azure_vm MachineResourceState.succeeded
        success_text m p.0).0

script_core : same service_script service_core_packages ≡ false
unfolding same
script_core = refl

bacalhau_core : same service_bacalhau service_core_packages ≡ false
unfolding same
bacalhau_core = refl

abbrev pub CoreReset : Machine → List Update → Type 0
CoreReset m us = Reset m × (is_complete m ≡ false)

module _ {W : Type 0} (remote : Remote W) (ctx : Context) (settings : List Setting) where
  Finished-CoreReset :
      (old : List Update) (m : Machine) (us : List Update)
      → Finished old Reset ctx m us
      → CoreReset m us
  Finished-CoreReset old m us (x, k, eq, l) =
      let y = set_service_state x service_bacalhau ServiceState.succeeded in
      let reset : Reset m =
        ap (λ z. get_service_state z service_core_packages) eq
        ∙ set_complete-service ctx.now y service_core_packages
        ∙ get_service_state-set_ne x service_bacalhau service_core_packages ServiceState.succeeded
            bacalhau_core
        ∙ k in
      (reset, incomplete_of m (λ e. ground (arith, reset)))

  -- If the machine stands in the display under its name and its instance is not known to be up,
  -- then behind a run that returns, so for a node that is up, the core packages are "not started",
  -- though they have been installed, and the machine is not complete: the last status of the first
  -- step has put them back.
  pub provision_bacalhau_node_resets_core_packages :
      (s : Run W)
      → node_guard s.machine ≡ none
      → ctx.shown ≡ true
      → instance_is_up s.machine ≡ false
      → is_empty s.machine.name ≡ false
      → Ends (λ _. At CoreReset) (λ _. Unit {0}) (provision_bacalhau_node remote ctx settings s)
  provision_bacalhau_node_resets_core_packages s h shown up named =
      let old = s.updates in
      let P = At {W = W} (Reached old Hidden []) in
      let Q = At {W = W} (Reached old Reset (ProvisioningStep.node_provisioning ∷ [])) in
      enter remote ctx settings Hidden (λ _. At CoreReset) (λ _. Unit {0}) s h
        (set_service-Hidden service_bacalhau ServiceState.updating s.machine (up, named))
        (then-Ensures P Q (λ _. At CoreReset) (λ _. Unit {0}) _ _
          (weaken-Ensures P (λ _. Q) (λ _. Q) (At (NotProvisioned Hidden old)) (λ _. Unit {0}) _
            (provision_step-Ensures remote ctx Hidden Reset (shown-Hidden ctx)
              (set_service-Hidden service_docker) (set_service-Hidden service_core_packages)
              (last-Reset ctx shown) old)
            (λ a t q. q) (λ t q. tt))
          (weaken-Ensures Q (λ _. At (Finished old Reset ctx)) (λ _. At CoreReset)
            (At (Stopped old (λ _. Unit {0}))) (λ _. Unit {0}) _
            (node_steps-Ensures old Reset (λ _. Unit {0})
              (λ m v p.
                get_service_state-set_ne m service_script service_core_packages v script_core ∙ p)
              (λ m p. tt) remote ctx settings)
            (λ a t q. Finished-CoreReset old t.machine t.updates q) (λ t q. tt)))
