-- ===== src/Display.antt =====
-- pkg/display/display_model.go and update_processor.go: how a status changes a machine. The log
-- and the terminal are left out. `SetDisplayLocation` takes the location tables.
pub mod Message
pub mod Services
pub mod Updates
pub mod Batch
pub mod Examples
use andaime.Base.{
  ℕ, zero, suc, ◌+◌, ◌-◌, ltb, leb, ◌==◌, Bool, true, false, ◌&&◌, ◌||◌, not, List, [], ◌∷◌, ◌++◌,
  reverse, Option, none, some, Text, codes, same, is_empty, Dict, lookup, insert, length, take,
  replicate, if◌then◌else◌,
}
use andaime.Types.{
  ServiceState, MachineResourceState, ProvisioningStage, same_service, same_resource, service_ssh,
  service_docker, service_core_packages, service_bacalhau, service_script,
}
use andaime.Location.{Tables}
use andaime.Machine.{
  Machine, get_machine_resource_state, set_machine_resource_state, set_service_state, is_complete,
  set_complete,
}
use andaime.Machine.Create.{set_display_location}
use andaime.Ring.{CircularBuffer, add}
use andaime.Status.{DisplayStatus, stage_text}

abbrev pub status_length : ℕ
status_length = 40

abbrev pub is_space : ℕ → Bool
is_space c = c == 32 || (leb 9 c && leb c 13)

-- The spaces of two and of three bytes: U+0085 and U+00A0; U+1680, U+2000 to U+200A, U+2028, U+2029,
-- U+202F, U+205F and U+3000.
abbrev pub is_space2 : ℕ → ℕ → Bool
is_space2 a b = a == 0xC2 && (b == 0x85 || b == 0xA0)

abbrev pub is_space3 : ℕ → ℕ → ℕ → Bool
is_space3 a b c =
    (a == 0xE1 && b == 0x9A && c == 0x80)
    || (a == 0xE2
        && b == 0x80
        && ((leb 0x80 c && leb c 0x8A) || c == 0xA8 || c == 0xA9 || c == 0xAF))
    || (a == 0xE2 && b == 0x81 && c == 0x9F)
    || (a == 0xE3 && b == 0x80 && c == 0x80)

-- How many bytes the space has that a text begins with; 0 where it begins with none.
abbrev pub wide_front : ℕ → Text → ℕ
wide_front a [] = 0
wide_front a (b ∷ []) = if is_space2 a b then 2 else 0
wide_front a (b ∷ c ∷ s) = if is_space2 a b then 2 else if is_space3 a b c then 3 else 0

abbrev pub space_width : Text → ℕ
space_width [] = 0
space_width (a ∷ s) = if is_space a then 1 else wide_front a s

-- The same for a text that is read from its end.
abbrev pub wide_back : ℕ → Text → ℕ
wide_back c [] = 0
wide_back c (b ∷ []) = if is_space2 b c then 2 else 0
wide_back c (b ∷ a ∷ s) = if is_space2 b c then 2 else if is_space3 a b c then 3 else 0

abbrev pub back_width : Text → ℕ
back_width [] = 0
back_width (c ∷ s) = if is_space c then 1 else wide_back c s

-- Spaces are taken off; `k` is how many bytes of one are still to go.
unfoldable pub trim_by : (Text → ℕ) → ℕ → Text → Text
trim_by width k [] = []
trim_by width (suc k) (c ∷ s) = trim_by width k s
trim_by width zero (c ∷ s) =
    let rest = trim_by width (width (c ∷ s) - 1) s in if width (c ∷ s) == 0 then c ∷ s else rest

-- `strings.TrimSpace`, for text in UTF-8.
unfoldable pub trim_space : Text → Text
unfolding trim_by
trim_space s = reverse (trim_by back_width 0 (reverse (trim_by space_width 0 s)))

-- How many runes a text has: the bytes of UTF-8 that continue no rune.
unfoldable pub rune_count : Text → ℕ
rune_count [] = 0
rune_count (c ∷ s) = (if leb 128 c && ltb c 192 then 0 else 1) + rune_count s

-- `fmt.Sprintf("%-*s", width, s)`
abbrev pub pad_right : ℕ → Text → Text
pad_right width s = s ++ replicate (width - rune_count s) 32

abbrev pub ellipsis : Text
ellipsis = 0xE2 ∷ 0x80 ∷ 0xA6 ∷ []

-- What `updateStatusMessage` stores.
unfoldable pub shown_message : Text → Text
unfolding trim_space rune_count
shown_message message =
    let trimmed = trim_space message in
    if ltb (status_length - 3) (length trimmed)
    then take (status_length - 3) trimmed ++ ellipsis
    else pad_right status_length trimmed

unfoldable pub update_status_message : DisplayStatus → Machine → Machine
update_status_message n m =
    if is_empty n.status_message
    then m
    else record m { status_message = shown_message n.status_message }

-- The error of `SetDisplayLocation` is dropped.
unfoldable pub update_location : Tables → DisplayStatus → Machine → Machine
update_location tables n m =
    if is_empty n.location
    then m
    else elim (set_display_location tables m n.location) [ none ↦ m | some m' ↦ m' ]

unfoldable pub update_ips : DisplayStatus → Machine → Machine
update_ips n m = record m {
  public_ip = if is_empty n.public_ip then m.public_ip else n.public_ip;
  private_ip = if is_empty n.private_ip then m.private_ip else n.private_ip;
}

unfoldable pub update_elapsed_time : DisplayStatus → Machine → Machine
update_elapsed_time n m =
    if ltb 0 n.elapsed_time && not (is_complete m)
    then record m { elapsed_time = n.elapsed_time }
    else m

unfoldable pub update_orchestrator_status : DisplayStatus → Machine → Machine
update_orchestrator_status n m =
    if n.orchestrator then record m { orchestrator = n.orchestrator } else m

-- The stage for a service that has succeeded, has failed, or is on its way.
abbrev stage_for :
    ServiceState → ProvisioningStage → ProvisioningStage → ProvisioningStage → ProvisioningStage
stage_for s success failure other =
    if same_service s ServiceState.succeeded
    then success
    else if same_service s ServiceState.failed
    then failure
    else other

abbrev is_known : ServiceState → Bool
is_known s = not (same_service s ServiceState.unknown)

-- The second case of the switch: the machine has an address, and its instance has succeeded.
unfoldable pub instance_is_up : Machine → Bool
instance_is_up m =
    not (is_empty m.public_ip)
    && (same_resource (get_machine_resource_state m (codes "compute.googleapis.com/Instance"))
          MachineResourceState.succeeded
        || same_resource (get_machine_resource_state m (codes "aws.compute/Instance"))
            MachineResourceState.succeeded)

-- The switch of `updateServiceStates`: the stage of the status afterwards, and the machine.
unfoldable pub service_switch : DisplayStatus → Machine → ProvisioningStage × Machine
service_switch n m =
    if n.spot_instance
    then (n.stage, record m { provisioning_stage = n.stage })
    else if instance_is_up m
    then (ProvisioningStage.vm_provisioned, set_service_state m service_ssh ServiceState.succeeded)
    else if is_known n.ssh
    then (
      stage_for n.ssh ProvisioningStage.ssh_configured ProvisioningStage.ssh_failed
          ProvisioningStage.ssh_configuring,
      set_service_state m service_ssh n.ssh,
    )
    else if is_known n.docker
    then (
      stage_for n.docker ProvisioningStage.docker_installed ProvisioningStage.docker_failed
          ProvisioningStage.docker_installing,
      set_service_state m service_docker n.docker,
    )
    else if is_known n.core_packages
    then (n.stage, set_service_state m service_core_packages n.core_packages)
    else if is_known n.bacalhau
    then (
      stage_for n.bacalhau ProvisioningStage.bacalhau_installed ProvisioningStage.bacalhau_failed
          ProvisioningStage.bacalhau_installing,
      set_service_state m service_bacalhau n.bacalhau,
    )
    else if is_known n.custom_script
    then (
      stage_for n.custom_script ProvisioningStage.script_completed ProvisioningStage.script_failed
          ProvisioningStage.script_executing,
      set_service_state m service_script n.custom_script,
    )
    else (n.stage, m)

abbrev is_vm_unknown : ProvisioningStage → Bool
is_vm_unknown ProvisioningStage.vm_unknown = true
is_vm_unknown _ = false

-- `updateServiceStates`, which also writes the stage and the message of the status.
unfoldable pub update_service_states : DisplayStatus → Machine → DisplayStatus × Machine
update_service_states n m =
    let (stage, m') = service_switch n m in
    (
      record n {
        stage = stage;
        status_message =
            if n.spot_instance then codes "[Spot] " ++ n.status_message else n.status_message;
      },
      if is_vm_unknown stage then m' else record m' { provisioning_stage = stage },
    )

-- `updateMachineStatus` on a machine that the deployment has.
unfoldable pub update_machine_status : Tables → DisplayStatus → Machine → DisplayStatus × Machine
update_machine_status tables n m = update_service_states n (
    update_orchestrator_status n
      (update_elapsed_time n (update_ips n (update_location tables n (update_status_message n m)))))

pub record DisplayModel : Type 0 where
  pub machines : Dict Machine
  pub update_buffer : CircularBuffer DisplayStatus
  pub batched_updates : List (Option DisplayStatus)

abbrev pub updated_machines : Tables → DisplayStatus → Dict Machine → Option Machine → Dict Machine
updated_machines tables n ms none = ms
updated_machines tables n ms (some m) = insert n.name (update_machine_status tables n m).1 ms

-- `UpdateStatus`. `none` is the panic of the buffer.
unfoldable pub update_status : Tables → DisplayModel → DisplayStatus → Option DisplayModel
update_status tables d n = if is_empty n.name then some d else elim (add d.update_buffer n) [
  | none ↦ none
  | some buffer ↦ some (record d {
    machines = updated_machines tables n d.machines (lookup n.name d.machines);
    update_buffer = buffer;
  })
]

abbrev pub then_rest :
    Option DisplayModel → (DisplayModel → Option DisplayModel) → Option DisplayModel
then_rest none rest = none
then_rest (some d) rest = rest d

-- The loop of `applyBatchedUpdates`; a nil status is passed over.
unfoldable pub update_statuses :
    Tables → List (Option DisplayStatus) → DisplayModel → Option DisplayModel
update_statuses tables [] d = some d
update_statuses tables (none ∷ ns) d = update_statuses tables ns d
update_statuses tables (some n ∷ ns) d =
    then_rest (update_status tables d n) (update_statuses tables ns)

abbrev pub emptied : Option DisplayModel → Option DisplayModel
emptied none = none
emptied (some d) = some (record d { batched_updates = [] })

-- `applyBatchedUpdates`
unfoldable pub apply_batched_updates : Tables → DisplayModel → Option DisplayModel
apply_batched_updates tables d = emptied (update_statuses tables d.batched_updates d)

-- `UpdateType`; `other` is every other string.
pub data UpdateType : Type 0 where
  complete resource service other : UpdateType

pub record UpdateData : Type 0 where
  pub update_type : UpdateType
  pub resource_type : Text
  pub resource_state : MachineResourceState
  pub service_type : Text
  pub service_state : ServiceState

-- The function that `NewUpdateAction` puts into the action.
unfoldable pub update_func : UpdateType → UpdateData → Machine → Machine
update_func UpdateType.resource u m = set_machine_resource_state m u.resource_type u.resource_state
update_func UpdateType.service u m = set_service_state m u.service_type u.service_state
update_func _ u m = m

-- The switch of `ProcessUpdate`, and the call of the action's function behind it.
unfoldable pub process_switch : ℕ → UpdateType → UpdateData → Machine → Machine
process_switch now UpdateType.complete u m = update_func UpdateType.complete u (set_complete now m)
process_switch now UpdateType.resource u m =
    update_func UpdateType.resource u
      (set_machine_resource_state m u.resource_type u.resource_state)
process_switch now UpdateType.service u m =
    update_func UpdateType.service u (set_service_state m u.service_type u.service_state)
process_switch now UpdateType.other u m = m

-- `ProcessUpdate` of an action that `NewUpdateAction` made for the machine of this name.
unfoldable pub process_update : ℕ → Text → UpdateData → Dict Machine → Dict Machine
process_update now name u ms = elim (lookup name ms) [
  | none ↦ ms
  | some m ↦ insert name (process_switch now u.update_type u m) ms
]
