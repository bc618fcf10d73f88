-- ===== src/Types.antt =====
-- The constants and small structs of pkg/models/types.go, deployment.go, types_azure.go,
-- types_gcp.go and types_aws.go. An `iota` constant is a constructor, in the order of the source.
pub mod Resources
use andaime.Base.{ℕ, ◌==◌, Bool, List, [], ◌∷◌, Text, codes, to_lower}

-- Every other string is `unknown`: the code treats it by its default branch.
pub data DeploymentType : Type 0 where
  unknown azure aws gcp : DeploymentType

pub data ServiceState : Type 0 where
  not_started created updating succeeded failed unknown : ServiceState

pub data MachineResourceState : Type 0 where
  unknown not_started pending running succeeded stopping failed terminated : MachineResourceState

-- The integer behind a `ServiceState`.
unfoldable pub service_code : ServiceState → ℕ
service_code ServiceState.not_started = 0
service_code ServiceState.created = 1
service_code ServiceState.updating = 2
service_code ServiceState.succeeded = 3
service_code ServiceState.failed = 4
service_code ServiceState.unknown = 5

-- The integer behind a `MachineResourceState`.
unfoldable pub resource_code : MachineResourceState → ℕ
resource_code MachineResourceState.unknown = 0
resource_code MachineResourceState.not_started = 1
resource_code MachineResourceState.pending = 2
resource_code MachineResourceState.running = 3
resource_code MachineResourceState.succeeded = 4
resource_code MachineResourceState.stopping = 5
resource_code MachineResourceState.failed = 6
resource_code MachineResourceState.terminated = 7

-- `a == b` on the two integer types
abbrev pub same_service : ServiceState → ServiceState → Bool
same_service a b = service_code a == service_code b

abbrev pub same_resource : MachineResourceState → MachineResourceState → Bool
same_resource a b = resource_code a == resource_code b

-- `ProvisioningStage`; `unset` is the empty string.
pub data ProvisioningStage : Type 0 where
  unset vm_requested vm_provisioning vm_provisioned vm_failed vm_unknown : ProvisioningStage
  spot_requested spot_bidding spot_provisioning spot_provisioned spot_failed : ProvisioningStage
  spot_fallback ssh_configuring ssh_configured ssh_failed : ProvisioningStage
  docker_installing docker_installed docker_failed : ProvisioningStage
  bacalhau_installing bacalhau_installed bacalhau_failed : ProvisioningStage
  script_executing script_completed script_failed : ProvisioningStage

pub record ResourceType : Type 0 where
  pub resource_string : Text
  pub short_resource_name : Text

-- `ResourceType{}`
abbrev pub no_resource_type : ResourceType
no_resource_type = record { resource_string = []; short_resource_name = [] }

pub record MachineResource : Type 0 where
  pub resource_name : Text
  pub resource_type : ResourceType
  pub resource_state : MachineResourceState
  pub resource_value : Text

-- `MachineResource{}`
abbrev pub no_resource : MachineResource
no_resource = record {
  resource_name = [];
  resource_type = no_resource_type;
  resource_state = MachineResourceState.unknown;
  resource_value = [];
}

-- A `ServiceType` is stored under its own name; the map of a machine keeps the pair.
pub record ServiceType : Type 0 where
  pub name : Text
  pub state : ServiceState

abbrev pub service_ssh : Text
service_ssh = codes "ssh"

abbrev pub service_docker : Text
service_docker = codes "docker"

abbrev pub service_core_packages : Text
service_core_packages = codes "core-packages"

abbrev pub service_bacalhau : Text
service_bacalhau = codes "bacalhau"

abbrev pub service_script : Text
service_script = codes "script"

-- `RequiredServices`
abbrev pub required_services : List Text
required_services =
    service_ssh ∷ service_docker ∷ service_core_packages ∷ service_bacalhau ∷ service_script ∷ []

abbrev pub node_type_compute : Text
node_type_compute = codes "compute"

abbrev pub node_type_orchestrator : Text
node_type_orchestrator = codes "requester"
