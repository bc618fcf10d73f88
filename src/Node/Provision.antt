-- ===== src/Node/Provision.antt =====
-- The first step of a node: the installation, between two statuses that are shown.
use andaime.Base.{
  Bool, true, false, not, ◌&&◌, List, [], ◌∷◌, Text, codes, same, is_empty, if◌then◌else◌, ◌≡◌, ap,
  arith, inl, inr, Bool-cases,
}
use andaime.Types.{
  ServiceState, MachineResourceState, service_ssh, service_docker, service_core_packages,
}
use andaime.Types.Resources.{azure_vm}
use andaime.Location.{Tables}
use andaime.Machine.{Machine, set_service_state, get_service_state, get_machine_resource}
use andaime.Status.{new_display_status_with_text}
use andaime.Display.{
  update_machine_status, instance_is_up, update_service_states, service_switch,
  update_orchestrator_status, update_elapsed_time, update_ips, update_location,
  update_status_message,
}
use andaime.Display.Services.{with_text_service, text_target}
use andaime.Remote.{Error, Remote}
use andaime.Exec.{ProvisioningStep, Update, started, completed, errored}
use andaime.Exec.Rules.{Ensures, then-Ensures}
use andaime.Exec.Keeps.{
  At, Keeps, fail-Keeps, then-Keeps, on_err-Ensures, modify-Ensures, send-Ensures, fail-Ensures,
  weaken-Ensures,
}
use andaime.Install.{install_docker_and_core_packages}
use andaime.Install.Outcome.{install-outcome}
use andaime.Node.{Context, show, provision_machine, provision_step}
use andaime.Node.Plan.{Reached}

-- What `show` puts in place of the machine.
abbrev pub shown_machine : Tables → MachineResourceState → Text → Machine → Machine
shown_machine tables state text m =
    (update_machine_status tables (new_display_status_with_text m.name azure_vm state text) m).1

pub shown-done :
    (tables : Tables) (state : MachineResourceState) (text : Text) (m : Machine)
    → (shown_machine tables state text m).done ≡ m.done
unfolding update_machine_status update_service_states service_switch update_orchestrator_status
    update_elapsed_time update_ips update_location update_status_message
    new_display_status_with_text set_service_state
shown-done tables state text m = ground arith

pub shown-name :
    (tables : Tables) (state : MachineResourceState) (text : Text) (m : Machine)
    → (shown_machine tables state text m).name ≡ m.name
unfolding update_machine_status update_service_states service_switch update_orchestrator_status
    update_elapsed_time update_ips update_location update_status_message
    new_display_status_with_text set_service_state
shown-name tables state text m = ground arith

shown-instance :
    (tables : Tables) (state : MachineResourceState) (text : Text) (m : Machine)
    → ((shown_machine tables state text m).public_ip ≡ m.public_ip)
      × ((shown_machine tables state text m).machine_resources ≡ m.machine_resources)
unfolding update_machine_status update_service_states service_switch update_orchestrator_status
    update_elapsed_time update_ips update_location update_status_message
    new_display_status_with_text set_service_state
shown-instance tables state text m = (ground arith, ground arith)

up-instance :
    (m m' : Machine)
    → m.public_ip ≡ m'.public_ip
    → m.machine_resources ≡ m'.machine_resources
    → instance_is_up m ≡ instance_is_up m'
unfolding instance_is_up get_machine_resource
up-instance m m' p q = ground (arith, p, q)

pub shown-up :
    (tables : Tables) (state : MachineResourceState) (text : Text) (m : Machine)
    → instance_is_up (shown_machine tables state text m) ≡ instance_is_up m
shown-up tables state text m =
    let (p, q) = shown-instance tables state text m in
    up-instance (shown_machine tables state text m) m p q

-- Neither of the two services that such a status writes.
abbrev pub Untouched : Text → Type 0
Untouched t = (same service_ssh t ≡ false) × (same service_core_packages t ≡ false)

target_ne : (b : Bool) (t : Text) → Untouched t → same (text_target b) t ≡ false
target_ne true t u = u.0
target_ne false t u = u.1

pub shown-service :
    (tables : Tables) (state : MachineResourceState) (text : Text) (m : Machine) (t : Text)
    → Untouched t
    → get_service_state (shown_machine tables state text m) t ≡ get_service_state m t
shown-service tables state text m t u = ground (
  arith,
  with_text_service tables m.name azure_vm state text m t,
  target_ne (instance_is_up m) t u,
)

-- A predicate that every shown status keeps.
abbrev pub ShowClosed : Context → (Machine → Type 0) → Type 0
ShowClosed ctx K =
    (state : MachineResourceState) (text : Text) (m : Machine)
    → K m
    → K (shown_machine ctx.tables state text m)

abbrev pub With : (Machine → Type 0) → List Update → Machine → List Update → Type 0
With K us m us' = K m × (us' ≡ us)

abbrev pub success_text : Text
success_text = codes "Provisioned Docker & packages on machine"

-- The machine behind the last status of the step.
abbrev pub last_shown : Context → Machine → Machine
last_shown ctx m =
    if ctx.shown && not (is_empty m.name)
    then shown_machine ctx.tables MachineResourceState.succeeded success_text m
    else m

-- What is known of a node whose first step failed: the error goes to the callback alone.
abbrev pub NotProvisioned : (Machine → Type 0) → List Update → Machine → List Update → Type 0
NotProvisioned K old m us =
    K m
    × (e : Error) × (us
        ≡ errored ProvisioningStep.node_provisioning e
          ∷ started ProvisioningStep.node_provisioning
          ∷ old)

module _ {W : Type 0} (remote : Remote W) (ctx : Context) where
  show-Ensures :
      (K : Machine → Type 0) (us : List Update) (state : MachineResourceState) (text : Text)
      → ShowClosed ctx K
      → Keeps (With K us) (show remote ctx state text)
  unfolding show
  show-Ensures K us state text closed =
      modify-Ensures (With K us) (With K us) (At (With K us)) _ (λ m us' p.
        elim (Bool-cases (ctx.shown && not (is_empty m.name))) [
          | inl e ↦ rw e (closed state text m p.0, p.1)
          | inr e ↦ rw e p
        ])

  module _ (K L : Machine → Type 0) (shown : ShowClosed ctx K)
      (docker : (v : ServiceState) (m : Machine) → K m → K (set_service_state m service_docker v))
      (core : (v : ServiceState) (m : Machine)
        → K m
        → K (set_service_state m service_core_packages v))
      (last : (m : Machine) → K m → L (last_shown ctx m)) where
    install-With : (us : List Update) → Keeps (With K us) (install_docker_and_core_packages remote)
    install-With us s p =
        weaken-Ensures (λ r. At (With K us) r × Unit {0}) _ (λ _. At (With K us)) _ (At (With K us))
          (install_docker_and_core_packages remote)
          (install-outcome remote (With K us) (λ v m us' q. (docker v m q.0, q.1))
            (λ v m us' q. (core v m q.0, q.1)))
          (λ a r q. q.0) (λ r q. q.0) s (p, tt)

    last-Ensures :
        (us : List Update)
        → Ensures
            (At (With K us))
            (show remote ctx MachineResourceState.succeeded success_text)
            (λ _. At (With L us))
            (At (With K us))
    unfolding show
    last-Ensures us =
        modify-Ensures (With K us) (With L us) (At (With K us)) _ (λ m us' p. (last m p.0, p.1))

    provision_machine-Ensures :
        (us : List Update)
        → Ensures
            (At (With K us))
            (provision_machine remote ctx)
            (λ _. At (With L us))
            (At (With K us))
    unfolding provision_machine
    provision_machine-Ensures us =
        let S = At {W = W} (With K us) in
        then-Ensures S S (λ _. At (With L us)) S _ _ (show-Ensures K us _ _ shown)
          (then-Ensures S S (λ _. At (With L us)) S _ _
            (on_err-Ensures S (λ _. S) S S _ _ (install-With us)
              (λ e.
                then-Keeps (With K us) _ _ (show-Ensures K us _ _ shown)
                  (fail-Keeps (With K us) e)))
            (last-Ensures us))

    pub provision_step-Ensures :
        (old : List Update)
        → Ensures
            (At (Reached old K []))
            (provision_step remote ctx)
            (λ _. At (Reached old L (ProvisioningStep.node_provisioning ∷ [])))
            (At (NotProvisioned K old))
    unfolding provision_step
    provision_step-Ensures old =
        let us = started ProvisioningStep.node_provisioning ∷ old in
        let P = At {W = W} (Reached old K []) in
        let S = At {W = W} (With K us) in
        let T = At {W = W} (With L us) in
        let Q = At {W = W} (Reached old L (ProvisioningStep.node_provisioning ∷ [])) in
        let E = At {W = W} (NotProvisioned K old) in
        then-Ensures P S (λ _. Q) E _ _
          (send-Ensures (Reached old K []) (With K us) E _
            (λ m us' p. (p.0, ap (◌∷◌ (started ProvisioningStep.node_provisioning)) p.1)))
          (then-Ensures S T (λ _. Q) E _ _
            (on_err-Ensures S (λ _. T) S E _ _ (provision_machine-Ensures us)
              (λ e.
                then-Ensures S E (λ _. T) E _ _
                  (send-Ensures (With K us) (NotProvisioned K old) E _ (λ m us' p.
                    (p.0, e, ap (◌∷◌ (errored ProvisioningStep.node_provisioning e)) p.1)))
                  (fail-Ensures E (λ _. T) E e (λ s p. p))))
            (send-Ensures (With L us) (Reached old L (ProvisioningStep.node_provisioning ∷ [])) E _
              (λ m us' p. (p.0, ap (◌∷◌ (completed ProvisioningStep.node_provisioning)) p.1))))
