-- ===== src/Status.antt =====
-- pkg/models/types.go: the status that is sent to the display. Times are numbers, and 0 is the
-- zero time. Emoji are their UTF-8 bytes.
pub mod Laws
pub mod Monotone
pub mod Examples
use andaime.Base.{
  ℕ, ltb, ◌==◌, Bool, true, false, ◌&&◌, ◌||◌, not, List, [], ◌∷◌, ◌++◌, Text, codes, same,
  is_empty, contains, has_prefix, if◌then◌else◌,
}
use andaime.Types.{
  ServiceState, MachineResourceState, ResourceType, MachineResource, ProvisioningStage,
  same_resource, resource_code,
}
use andaime.Types.Resources.{azure_vm, convert_from_azure_string_to_resource_state}
use andaime.Machine.{Machine, get_machine_resource, set_machine_resource}

-- The text of a stage; `unset` is the empty string.
unfoldable pub stage_text : ProvisioningStage → Text
stage_text ProvisioningStage.unset = []
stage_text ProvisioningStage.vm_requested = codes "Requesting VM"
stage_text ProvisioningStage.vm_provisioning = codes "Provisioning VM"
stage_text ProvisioningStage.vm_provisioned = codes "VM Provisioned"
stage_text ProvisioningStage.vm_failed = codes "VM Provisioning Failed"
stage_text ProvisioningStage.vm_unknown = codes "VM Provisioning Unknown"
stage_text ProvisioningStage.spot_requested = codes "Requesting Spot Instance"
stage_text ProvisioningStage.spot_bidding = codes "Spot Instance Bid Pending"
stage_text ProvisioningStage.spot_provisioning = codes "Spot Instance Provisioning"
stage_text ProvisioningStage.spot_provisioned = codes "Spot Instance Provisioned"
stage_text ProvisioningStage.spot_failed = codes "Spot Instance Failed"
stage_text ProvisioningStage.spot_fallback = codes "Falling Back to On-Demand"
stage_text ProvisioningStage.ssh_configuring = codes "Configuring SSH"
stage_text ProvisioningStage.ssh_configured = codes "SSH Configured"
stage_text ProvisioningStage.ssh_failed = codes "SSH Configuration Failed"
stage_text ProvisioningStage.docker_installing = codes "Installing Docker"
stage_text ProvisioningStage.docker_installed = codes "Docker Installed"
stage_text ProvisioningStage.docker_failed = codes "Docker Installation Failed"
stage_text ProvisioningStage.bacalhau_installing = codes "Installing Bacalhau"
stage_text ProvisioningStage.bacalhau_installed = codes "Bacalhau Installed"
stage_text ProvisioningStage.bacalhau_failed = codes "Bacalhau Installation Failed"
stage_text ProvisioningStage.script_executing = codes "Executing Script"
stage_text ProvisioningStage.script_completed = codes "Script Completed"
stage_text ProvisioningStage.script_failed = codes "Script Execution Failed"

-- `DisplayStatus`, less the fields that none of the operations here reads.
pub record DisplayStatus : Type 0 where
  pub name : Text
  pub resource_type : ResourceType
  pub location : Text
  pub status_message : Text
  pub detailed_status : Text
  pub elapsed_time : ℕ
  pub start_time : ℕ
  pub instance_id : Text
  pub public_ip : Text
  pub private_ip : Text
  pub orchestrator : Bool
  pub stage : ProvisioningStage
  pub spot_instance : Bool
  pub ssh : ServiceState
  pub docker : ServiceState
  pub core_packages : ServiceState
  pub bacalhau : ServiceState
  pub custom_script : ServiceState

-- `DisplayStatus{}`: the zero value of a service state is `ServiceStateNotStarted`.
abbrev pub no_status : DisplayStatus
no_status = record {
  name = [];
  resource_type = record { resource_string = []; short_resource_name = [] };
  location = [];
  status_message = [];
  detailed_status = [];
  elapsed_time = 0;
  start_time = 0;
  instance_id = [];
  public_ip = [];
  private_ip = [];
  orchestrator = false;
  stage = ProvisioningStage.unset;
  spot_instance = false;
  ssh = ServiceState.not_started;
  docker = ServiceState.not_started;
  core_packages = ServiceState.not_started;
  bacalhau = ServiceState.not_started;
  custom_script = ServiceState.not_started;
}

-- The emoji and the word that `CreateStateMessage` picks; two states have neither.
unfoldable pub state_emoji : MachineResourceState → Text
state_emoji MachineResourceState.not_started = 0xE2 ∷ 0xAC ∷ 0x9B ∷ 0xEF ∷ 0xB8 ∷ 0x8F ∷ []
state_emoji MachineResourceState.pending = 0xE2 ∷ 0x8F ∷ 0xB3 ∷ []
state_emoji MachineResourceState.running = 0xE2 ∷ 0x9C ∷ 0x85 ∷ []
state_emoji MachineResourceState.failed = 0xE2 ∷ 0x9D ∷ 0x8C ∷ []
state_emoji MachineResourceState.succeeded = 0xE2 ∷ 0x9C ∷ 0x85 ∷ []
state_emoji MachineResourceState.unknown = 0xE2 ∷ 0x9D ∷ 0x93 ∷ []
state_emoji MachineResourceState.stopping = []
state_emoji MachineResourceState.terminated = []

unfoldable pub state_word : MachineResourceState → Text
state_word MachineResourceState.not_started = codes "Not Started"
state_word MachineResourceState.pending = codes "Pending"
state_word MachineResourceState.running = codes "Running"
state_word MachineResourceState.failed = codes "Failed"
state_word MachineResourceState.succeeded = codes "Succeeded"
state_word MachineResourceState.unknown = codes "Unknown"
state_word MachineResourceState.stopping = []
state_word MachineResourceState.terminated = []

abbrev space : Text
space = codes " "

unfoldable pub create_state_message : ResourceType → MachineResourceState → Text → Text
unfolding state_emoji state_word same
create_state_message r state name =
    if same r.short_resource_name (codes "Instance")
    then state_emoji state ++ (space ++ (name ++ (space ++ state_word state)))
    else r.short_resource_name
      ++ (space ++ (state_emoji state ++ (codes " - " ++ (name ++ (space ++ state_word state)))))

-- `NewDisplayStatusWithText`: it sets three of the five service states.
unfoldable pub new_display_status_with_text :
    Text → ResourceType → MachineResourceState → Text → DisplayStatus
unfolding create_state_message
new_display_status_with_text id type state text = record no_status {
  name = id;
  resource_type = type;
  status_message = create_state_message type state id ++ (space ++ text);
  ssh = ServiceState.unknown;
  docker = ServiceState.unknown;
  bacalhau = ServiceState.unknown;
}

unfoldable pub new_display_status :
    Text → Text → ResourceType → MachineResourceState → DisplayStatus
unfolding create_state_message
new_display_status machine_name id type state = record no_status {
  name = machine_name;
  resource_type = type;
  status_message = create_state_message type state id;
  stage = ProvisioningStage.vm_requested;
  ssh = ServiceState.unknown;
  docker = ServiceState.unknown;
  core_packages = ServiceState.unknown;
  bacalhau = ServiceState.unknown;
  custom_script = ServiceState.unknown;
}

-- The switch of `NewDisplayVMStatus`, for a spot instance and for another.
unfoldable pub spot_stage : MachineResourceState → ProvisioningStage
spot_stage MachineResourceState.pending = ProvisioningStage.spot_bidding
spot_stage MachineResourceState.running = ProvisioningStage.spot_provisioning
spot_stage MachineResourceState.succeeded = ProvisioningStage.spot_provisioned
spot_stage MachineResourceState.failed = ProvisioningStage.spot_failed
spot_stage _ = ProvisioningStage.spot_requested

unfoldable pub vm_stage : MachineResourceState → ProvisioningStage
vm_stage MachineResourceState.pending = ProvisioningStage.vm_provisioning
vm_stage MachineResourceState.running = ProvisioningStage.vm_provisioned
vm_stage MachineResourceState.succeeded = ProvisioningStage.vm_provisioned
vm_stage MachineResourceState.failed = ProvisioningStage.vm_failed
vm_stage _ = ProvisioningStage.vm_requested

unfoldable pub new_display_vm_status : Text → MachineResourceState → Bool → DisplayStatus
unfolding new_display_status spot_stage vm_stage
new_display_vm_status machine_name state spot =
    record (new_display_status machine_name machine_name azure_vm state) {
      stage = if spot then spot_stage state else vm_stage state;
      spot_instance = spot;
    }

-- `old` where the new text is empty
abbrev pub changed : Text → Text → Text
changed old new = if is_empty new then old else new

-- The message with the stage in front, unless it names the stage already.
abbrev pub with_stage : ProvisioningStage → Text → Text
with_stage stage message =
    if contains message (stage_text stage)
    then message
    else codes "[" ++ (stage_text stage ++ (codes "] " ++ message))

abbrev pub with_spot : Bool → Text → Text
with_spot spot message =
    if spot && not (has_prefix message (codes "[Spot]"))
    then codes "[Spot] " ++ message
    else message

-- The message with what the two ifs at the end put in front of it.
unfoldable pub label : ProvisioningStage → Bool → Text → Text
label stage spot message =
    with_spot spot (if is_empty (stage_text stage) then message else with_stage stage message)

-- `UpdateOnlyChangedStatus`, at the time `now`
unfoldable pub update_only_changed_status : ℕ → DisplayStatus → DisplayStatus → DisplayStatus
update_only_changed_status now status new = record status {
  status_message =
      label new.stage new.spot_instance (changed status.status_message new.status_message);
  detailed_status = changed status.detailed_status new.detailed_status;
  public_ip = changed status.public_ip new.public_ip;
  private_ip = changed status.private_ip new.private_ip;
  instance_id = changed status.instance_id new.instance_id;
  location = changed status.location new.location;
  start_time = if status.start_time == 0 then now else status.start_time;
  elapsed_time = new.elapsed_time;
  stage = if is_empty (stage_text new.stage) then status.stage else new.stage;
  spot_instance = new.spot_instance;
}

-- `r == MachineResource{}`
unfoldable pub is_no_resource : MachineResource → Bool
unfolding resource_code
is_no_resource r =
    is_empty r.resource_name
    && (is_empty r.resource_type.resource_string
        && (is_empty r.resource_type.short_resource_name
            && (same_resource r.resource_state MachineResourceState.unknown
                && is_empty r.resource_value)))

-- `machineNeedsUpdating` for the machine that the name finds.
unfoldable pub machine_needs_updating : Machine → Text → Text → Bool × Machine
machine_needs_updating m resource_type resource_state =
    let current = convert_from_azure_string_to_resource_state resource_state in
    let old = get_machine_resource m resource_type in
    if is_no_resource old || ltb (resource_code old.resource_state) (resource_code current)
    then (true, set_machine_resource m resource_type current)
    else (false, m)
