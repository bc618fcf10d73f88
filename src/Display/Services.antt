-- ===== src/Display/Services.antt =====
-- What a status does to the services of a machine.
use andaime.Base.{
  Bool, true, false, Text, same, same_refl, if◌then◌else◌, ◌≡◌, ◌≢◌, inl, inr, ◌∙◌, Bool-cases,
  arith,
}
use andaime.Types.{
  ServiceState, MachineResourceState, ResourceType, service_code, service_ssh,
  service_core_packages,
}
use andaime.Location.{Tables}
use andaime.Machine.{
  Machine, get_machine_resource, get_service_state, set_service_state, is_complete,
}
use andaime.Machine.Services.{get_service_state-set}
use andaime.Machine.Resources.{is_complete_iff}
use andaime.Status.{DisplayStatus, new_display_status_with_text}
use andaime.Display.{
  update_status_message, update_location, update_ips, update_elapsed_time,
  update_orchestrator_status, instance_is_up, service_switch, update_service_states,
  update_machine_status,
}

-- The updates that run before the services are looked at.
before_services : Tables → DisplayStatus → Machine → Machine
before_services tables n m =
    update_orchestrator_status n
      (update_elapsed_time n (update_ips n (update_location tables n (update_status_message n m))))

-- Two machines with the same services, resources and address.
SameCore : Machine → Machine → Type 0
SameCore m m' =
    (m.machine_services ≡ m'.machine_services)
    × (m.machine_resources ≡ m'.machine_resources)
    × (m.public_ip ≡ m'.public_ip)

with_text_before :
    (tables : Tables) (id : Text) (t : ResourceType) (s : MachineResourceState) (text : Text)
    (m : Machine)
    → SameCore (before_services tables (new_display_status_with_text id t s text) m) m
unfolding SameCore before_services update_orchestrator_status update_elapsed_time update_ips
    update_location update_status_message new_display_status_with_text
with_text_before tables id t s text m = (ground arith, ground arith, ground arith)

instance_is_up-SameCore : (m m' : Machine) → SameCore m m' → instance_is_up m ≡ instance_is_up m'
unfolding SameCore instance_is_up get_machine_resource
instance_is_up-SameCore m m' h = ground (arith, h.0, h.1, h.2)

-- The one service that the switch writes for such a status.
abbrev pub text_target : Bool → Text
text_target true = service_ssh
text_target false = service_core_packages

abbrev pub text_state : Bool → ServiceState
text_state true = ServiceState.succeeded
text_state false = ServiceState.not_started

switch_with_text :
    (id : Text) (t : ResourceType) (s : MachineResourceState) (text : Text) (m : Machine)
    → (service_switch (new_display_status_with_text id t s text) m).1
      ≡ set_service_state m (text_target (instance_is_up m)) (text_state (instance_is_up m))
unfolding service_switch new_display_status_with_text service_code
switch_with_text id t s text m = elim (Bool-cases (instance_is_up m)) [
  | inl e ↦ rw e
  | inr e ↦ rw e
]

after_switch :
    (n : DisplayStatus) (m : Machine)
    → (update_service_states n m).1.machine_services ≡ (service_switch n m).1.machine_services
unfolding update_service_states
after_switch n m = ground arith

service-of_services :
    (m m' : Machine) (t : Text)
    → m.machine_services ≡ m'.machine_services
    → get_service_state m t ≡ get_service_state m' t
unfolding get_service_state
service-of_services m m' t h = ground arith

-- The services after a status of `NewDisplayStatusWithText`.
pub with_text_service :
    (tables : Tables) (id : Text) (r : ResourceType) (s : MachineResourceState) (text : Text)
    (m : Machine) (t : Text)
    → get_service_state
        (update_machine_status tables (new_display_status_with_text id r s text) m).1
        t
      ≡ (if same (text_target (instance_is_up m)) t
          then text_state (instance_is_up m)
          else get_service_state m t)
unfolding update_machine_status before_services
with_text_service tables id r s text m t =
    let n = new_display_status_with_text id r s text in
    let b = before_services tables n m in
    let core = with_text_before tables id r s text m in
    let up : instance_is_up b ≡ instance_is_up m = instance_is_up-SameCore b m core in
    let old : get_service_state b t ≡ get_service_state m t =
      service-of_services b m t (unfold SameCore in core.0) in
    service-of_services (update_service_states n b).1 (service_switch n b).1 t (after_switch n b)
    ∙ ground (
      arith,
      up,
      old,
      switch_with_text id r s text b,
      get_service_state-set b (text_target (instance_is_up m)) t (text_state (instance_is_up m)),
    )

pub incomplete_of :
    (m : Machine)
    → get_service_state m service_core_packages ≢ ServiceState.succeeded
    → is_complete m ≡ false
incomplete_of m h = elim (Bool-cases (is_complete m)) [
  | inl e ↦ absurd (h ((is_complete_iff m).0 e).2.1.1.0)
  | inr e ↦ e
]

-- The status that reports on the provisioning of a machine carries, for the core packages, the
-- zero value "not started". Unless the machine's instance is known to be up, showing that status
-- stores it: the core packages are "not started" afterwards, whatever they were before, and the
-- machine is not complete.
pub with_text_resets_core_packages :
    (tables : Tables) (id : Text) (r : ResourceType) (s : MachineResourceState) (text : Text)
    (m : Machine)
    → instance_is_up m ≡ false
    → let m' = (update_machine_status tables (new_display_status_with_text id r s text) m).1 in
      (get_service_state m' service_core_packages ≡ ServiceState.not_started)
      × (is_complete m' ≡ false)
with_text_resets_core_packages tables id r s text m h =
    let m' = (update_machine_status tables (new_display_status_with_text id r s text) m).1 in
    let reset : get_service_state m' service_core_packages ≡ ServiceState.not_started = ground (
      arith,
      with_text_service tables id r s text m service_core_packages,
      same_refl service_core_packages,
    ) in
    (reset, incomplete_of m' (λ e. ground arith))
