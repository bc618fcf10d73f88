-- ===== src/Machine/Create.antt =====
-- `NewMachine` and `SetDisplayLocation` of pkg/models/machine.go. `id` is what `CreateShortID`
-- draws; `none` is the error of a location that the tables do not hold.
use andaime.Base.{
  ℕ, true, false, List, [], ◌∷◌, ◌++◌, Option, none, some, Text, codes, to_lower, same,
  if◌then◌else◌, ◌≡◌, refl, Bool, inl, inr, Bool-cases, Option-cases, arith,
}
use andaime.Types.{
  DeploymentType, ServiceState, MachineResourceState, ResourceType, no_resource_type,
  ProvisioningStage, required_services, not_started, service_ssh,
}
use andaime.Types.Resources.{required_resources, gcp_instance}
use andaime.Location.{
  Tables, normalize_location, provider_name, is_valid_location, is_valid_azure_region,
  is_valid_gcp_zone, is_valid_aws_region,
}
use andaime.Machine.{Machine, set_services, set_machine_resource, get_service_state, is_complete}
use andaime.Machine.Services.{listed, get_service_state-set_services}
use andaime.Machine.Resources.{is_complete_iff}

-- `Machine{}`
abbrev pub no_machine : Machine
no_machine = record {
  name = [];
  resource_type = no_resource_type;
  display_location = [];
  region = [];
  zone = [];
  node_type = [];
  stage = ProvisioningStage.unset;
  provisioning_stage = ProvisioningStage.unset;
  status_message = [];
  public_ip = [];
  private_ip = [];
  failed = false;
  vm_size = [];
  disk_size_gb = 0;
  disk_image_family = [];
  disk_image_url = [];
  elapsed_time = 0;
  orchestrator = false;
  orchestrator_ip = [];
  ssh_user = [];
  ssh_private_key_path = [];
  ssh_port = 0;
  deployment_end_time = 0;
  done = false;
  cloud_provider = DeploymentType.unknown;
  machine_resources = [];
  machine_services = [];
}

-- The loop over the required resources of the provider.
unfoldable pub start_resources : Machine → List ResourceType → Machine
start_resources m [] = m
start_resources m (r ∷ rs) =
    start_resources
      (set_machine_resource m (to_lower r.resource_string) MachineResourceState.not_started) rs

abbrev type_of : DeploymentType → ResourceType
type_of DeploymentType.gcp = gcp_instance
type_of _ = no_resource_type

-- What `NewMachine` does once the location is set.
unfoldable pub start_machine : Machine → Machine
start_machine m =
    record (start_resources (set_services m required_services ServiceState.not_started)
      (required_resources m.cloud_provider)) { resource_type = type_of m.cloud_provider }

-- The fields that `SetDisplayLocation` writes.
abbrev pub placed : Machine → Text → Text × Text → Machine
placed m location rz = record m { region = rz.0; zone = rz.1; display_location = location }

-- The literal that `NewMachine` starts from.
abbrev pub requested : Text → DeploymentType → Text → ℕ → Machine
requested id provider vm_size disk = record no_machine {
  name = id ++ codes "-vm";
  stage = ProvisioningStage.vm_requested;
  vm_size = vm_size;
  disk_size_gb = disk;
  cloud_provider = provider;
}

module _ (tables : Tables) where
  -- The switch of `SetDisplayLocation`.
  abbrev pub accepts_region_zone : DeploymentType → Text × Text → Bool
  accepts_region_zone DeploymentType.azure (region, zone) = is_valid_azure_region tables region
  accepts_region_zone DeploymentType.gcp (region, zone) = is_valid_gcp_zone tables zone
  accepts_region_zone DeploymentType.aws (region, zone) = is_valid_aws_region tables region
  accepts_region_zone DeploymentType.unknown (region, zone) = false

  -- The part of `SetDisplayLocation` behind the normalization.
  abbrev accept_location : Machine → Text → Option (Text × Text) → Option Machine
  accept_location m location none = none
  accept_location m location (some (region, zone)) =
      if accepts_region_zone m.cloud_provider (region, zone)
      then some (placed m location (region, zone))
      else none

  unfoldable pub set_display_location : Machine → Text → Option Machine
  set_display_location m location =
      accept_location m location (normalize_location (provider_name m.cloud_provider) location)

  unfoldable pub new_machine : Text → DeploymentType → Text → Text → ℕ → Option Machine
  new_machine id provider location vm_size disk =
      if is_valid_location tables provider location
      then elim (set_display_location (requested id provider vm_size disk) location) [
        | none ↦ none
        | some m ↦ some (start_machine m)
      ]
      else none

ssh_listed : listed service_ssh required_services ≡ true
unfolding same
ssh_listed = refl

start_resources_frame :
    (m : Machine) (rs : List ResourceType)
    → ((start_resources m rs).machine_services ≡ m.machine_services)
      × ((start_resources m rs).cloud_provider ≡ m.cloud_provider)
unfolding start_resources set_machine_resource
start_resources_frame m [] = (refl, refl)
start_resources_frame m (r ∷ rs) =
    start_resources_frame
      (set_machine_resource m (to_lower r.resource_string) MachineResourceState.not_started) rs

start_machine_service :
    (m : Machine) (t : Text)
    → listed t required_services ≡ true
    → get_service_state (start_machine m) t ≡ not_started
unfolding start_machine get_service_state
start_machine_service m t h =
    let m' = set_services m required_services ServiceState.not_started in
    ground (
      arith,
      start_resources_frame m' (required_resources m.cloud_provider),
      get_service_state-set_services m required_services ServiceState.not_started t,
    )

made_from :
    (tables : Tables) (id : Text) (provider : DeploymentType) (location vm_size : Text) (disk : ℕ)
    (m : Machine)
    → new_machine tables id provider location vm_size disk ≡ some m
    → (x : Machine) × (m ≡ start_machine x)
unfolding new_machine
made_from tables id provider location vm_size disk m h =
    elim (Option-cases
      (set_display_location tables (requested id provider vm_size disk) location)) [
        | inl e ↦ absurd (ground arith)
        | inr (x, e) ↦ (x, ground arith)
      ]

-- In a machine that `NewMachine` has just made, each of the five required services is "not
-- started", and the machine is not complete.
pub new_machine_incomplete :
    (tables : Tables) (id : Text) (provider : DeploymentType) (location vm_size : Text) (disk : ℕ)
    (m : Machine)
    → new_machine tables id provider location vm_size disk ≡ some m
    → ((t : Text) → listed t required_services ≡ true → get_service_state m t ≡ not_started)
      × (is_complete m ≡ false)
new_machine_incomplete tables id provider location vm_size disk m h =
    let (x, e) = made_from tables id provider location vm_size disk m h in
    let starts : (t : Text)
        → listed t required_services ≡ true
        → get_service_state m t ≡ not_started =
      λ t l. rw e (start_machine_service x t l) in
    (
      starts,
      elim (Bool-cases (is_complete m)) [
        | inl c ↦
            absurd (ground (arith, starts service_ssh ssh_listed, ((is_complete_iff m).0 c).2.0))
        | inr c ↦ c
      ],
    )
