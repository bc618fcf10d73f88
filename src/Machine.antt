-- ===== src/Machine.antt =====
-- pkg/models/machine.go: the record of a machine and the methods that change it. A nil map of the
-- source reads as an empty one, and every write makes it, so both are the empty dictionary.
pub mod Services
pub mod Resources
pub mod Create
pub mod Made
pub mod Examples
use andaime.Base.{
  ℕ, ◌+◌, ltb, ◌==◌, Bool, true, false, ◌&&◌, ◌||◌, List, [], ◌∷◌, Option, none, some, Text,
  to_lower, Dict, lookup, insert, length, map, if◌then◌else◌,
}
use andaime.Types.{
  DeploymentType, ServiceState, ServiceType, MachineResourceState, MachineResource, no_resource,
  no_resource_type, ResourceType, ProvisioningStage, same_service, same_resource, required_services,
}
use andaime.Types.Resources.{required_resources, get_azure_resource_type}

-- `Machine`, less the fields that none of the operations here reads or writes.
pub record Machine : Type 0 where
  pub name : Text
  pub resource_type : ResourceType
  pub display_location : Text
  pub region : Text
  pub zone : Text
  pub node_type : Text
  pub stage : ProvisioningStage
  pub provisioning_stage : ProvisioningStage
  pub status_message : Text
  pub public_ip : Text
  pub private_ip : Text
  pub failed : Bool
  pub vm_size : Text
  pub disk_size_gb : ℕ
  pub disk_image_family : Text
  pub disk_image_url : Text
  pub elapsed_time : ℕ
  pub orchestrator : Bool
  pub orchestrator_ip : Text
  pub ssh_user : Text
  pub ssh_private_key_path : Text
  pub ssh_port : ℕ
  pub deployment_end_time : ℕ
  pub done : Bool
  pub cloud_provider : DeploymentType
  pub machine_resources : Dict MachineResource
  pub machine_services : Dict ServiceType

-- `getMachineResourceUnsafe`
unfoldable pub get_machine_resource : Machine → Text → MachineResource
get_machine_resource m resource_type = elim (lookup (to_lower resource_type) m.machine_resources) [
  | none ↦ no_resource
  | some r ↦ r
]

abbrev pub get_machine_resource_state : Machine → Text → MachineResourceState
get_machine_resource_state m name = (get_machine_resource m name).resource_state

-- `setMachineResourceUnsafe`
unfoldable pub set_machine_resource : Machine → Text → MachineResourceState → Machine
set_machine_resource m resource_type state = record m {
  machine_resources =
      insert (to_lower resource_type)
        (record {
          resource_name = resource_type;
          resource_type = get_azure_resource_type resource_type;
          resource_state = state;
          resource_value = [];
        })
        m.machine_resources;
}

-- What `SetMachineResourceState` stores: the old entry with its state changed, or a new one.
abbrev pub with_state : Option MachineResource → Text → MachineResourceState → MachineResource
with_state none name state = record no_resource { resource_name = name; resource_state = state }
with_state (some r) name state = record r { resource_state = state }

unfoldable pub set_machine_resource_state : Machine → Text → MachineResourceState → Machine
set_machine_resource_state m name state =
    let key = to_lower name in
    record m {
      machine_resources =
          insert key (with_state (lookup key m.machine_resources) name state) m.machine_resources;
    }

abbrev pub is_completed : MachineResourceState → Bool
is_completed s =
    same_resource s MachineResourceState.succeeded || same_resource s MachineResourceState.running

-- The loop of `countCompletedResources`.
unfoldable pub count_resources : Machine → List ResourceType → ℕ
unfolding get_machine_resource
count_resources m [] = 0
count_resources m (r ∷ rs) =
    (if is_completed (get_machine_resource m (to_lower r.resource_string)).resource_state
      then 1
      else 0)
    + count_resources m rs

-- `countCompletedResources`: for an unknown provider the list is empty, so the result is (0, 0).
unfoldable pub resources_complete : Machine → ℕ × ℕ
unfolding count_resources required_resources
resources_complete m = (
  count_resources m (required_resources m.cloud_provider),
  length (required_resources m.cloud_provider),
)

-- `getServiceStateUnsafe`
unfoldable pub get_service_state : Machine → Text → ServiceState
get_service_state m service = elim (lookup service m.machine_services) [
  | none ↦ ServiceState.unknown
  | some s ↦ s.state
]

abbrev pub with_service : Option ServiceType → Text → ServiceState → ServiceType
with_service none name state = record { name = name; state = state }
with_service (some s) name state = record s { state = state }

-- `setServiceStateUnsafe`
unfoldable pub set_service_state : Machine → Text → ServiceState → Machine
set_service_state m service state = record m {
  machine_services =
      insert service (with_service (lookup service m.machine_services) service state)
        m.machine_services;
}

-- The loop of `countCompletedServices`.
unfoldable pub count_services : Machine → List Text → ℕ
unfolding get_service_state
count_services m [] = 0
count_services m (s ∷ ss) =
    (if same_service (get_service_state m s) ServiceState.succeeded then 1 else 0)
    + count_services m ss

unfoldable pub services_complete : Machine → ℕ × ℕ
unfolding count_services
services_complete m = (count_services m required_services, length required_services)

-- The test of `resourcesComplete` and `servicesComplete`.
abbrev pub all_counted : ℕ × ℕ → Bool
all_counted (completed, total) = completed == total && ltb 0 total

unfoldable pub is_complete : Machine → Bool
unfolding resources_complete services_complete
is_complete m = all_counted (resources_complete m) && all_counted (services_complete m)

-- `SetComplete`, at the time `now`
unfoldable pub set_complete : ℕ → Machine → Machine
set_complete now m = if m.done then m else record m { done = true; deployment_end_time = now }

-- The loop of `EnsureMachineServices` and of `NewMachine`.
unfoldable pub set_services : Machine → List Text → ServiceState → Machine
unfolding set_service_state
set_services m [] state = m
set_services m (s ∷ ss) state = set_services (set_service_state m s state) ss state

unfoldable pub ensure_machine_services : Machine → Machine
unfolding set_services
ensure_machine_services m = set_services m required_services ServiceState.not_started
