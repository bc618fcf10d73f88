-- ===== src/Machine/Examples.antt =====
-- A machine of Azure.
use andaime.Base.{
  lookup, insert, true, [], ◌∷◌, some, Text, codes, same, to_lower_byte, ◌≡◌, refl, ◌↔◌, ◌≢◌, false,
  ◌++◌, none,
}
use andaime.Types.{DeploymentType, ServiceState, service_docker, not_started, required_services}
use andaime.Types.Resources.{required_resources}
use andaime.Location.{
  Tables, is_valid_location, normalize_location, provider_name, is_valid_region_zone,
  is_valid_azure_region,
}
use andaime.Machine.{Machine, get_service_state, set_service_state, is_complete}
use andaime.Machine.Services.{listed, AllSucceeded}
use andaime.Machine.Resources.{AllCompleted, is_complete_iff}
use andaime.Machine.Made.{new_machine_iff}
use andaime.Machine.Create.{
  no_machine, requested, placed, start_machine, set_display_location, new_machine,
  new_machine_incomplete,
}

abbrev pub azure_machine : Machine
azure_machine = record no_machine {
  name = codes "one-vm";
  cloud_provider = DeploymentType.azure;
  node_type = codes "compute";
  orchestrator_ip = codes "10.0.0.1";
}

abbrev pub azure_tables : Tables
azure_tables = record {
  azure_locations = codes "eastus" ∷ [];
  gcp_locations = [];
  aws_locations = [];
}

docker_read :
    get_service_state
      (set_service_state azure_machine service_docker ServiceState.updating)
      service_docker
    ≡ ServiceState.updating
unfolding get_service_state set_service_state same lookup insert
docker_read = refl

is_complete_iff_example : (is_complete azure_machine ≡ true) ↔ (
    (azure_machine.cloud_provider ≢ DeploymentType.unknown)
    × AllCompleted azure_machine (required_resources azure_machine.cloud_provider)
    × AllSucceeded azure_machine required_services)
is_complete_iff_example = is_complete_iff azure_machine

new_machine_iff_example :
    ((is_valid_location azure_tables DeploymentType.azure (codes "eastus") ≡ true) ↔ (
      (m : Machine) × (rz : Text × Text) × (new_machine azure_tables
          (codes "one")
          DeploymentType.azure
          (codes "eastus")
          (codes "B2s")
          30
        ≡ some m)
      × (normalize_location (provider_name DeploymentType.azure) (codes "eastus") ≡ some rz)
      × (m.region ≡ rz.0)
      × (m.zone ≡ rz.1)
      × (m.display_location ≡ codes "eastus")
      × (m.name ≡ codes "one" ++ codes "-vm")
      × (m.cloud_provider ≡ DeploymentType.azure)
      × (m.vm_size ≡ codes "B2s")
      × (m.disk_size_gb ≡ 30)))
    × ((is_valid_location azure_tables DeploymentType.azure (codes "eastus") ≡ false) ↔ (
        new_machine azure_tables
          (codes "one")
          DeploymentType.azure
          (codes "eastus")
          (codes "B2s")
          30
        ≡ none))
new_machine_iff_example =
    new_machine_iff azure_tables (codes "one") DeploymentType.azure (codes "eastus") (codes "B2s")
      30

abbrev made : Machine
made = start_machine (
    placed (requested (codes "one") DeploymentType.azure (codes "B2s") 30) (codes "eastus")
      (codes "eastus", codes "eastus"))

new_machine_run :
    new_machine azure_tables (codes "one") DeploymentType.azure (codes "eastus") (codes "B2s") 30
    ≡ some made
unfolding new_machine set_display_location is_valid_location normalize_location provider_name
    is_valid_region_zone is_valid_azure_region same to_lower_byte
new_machine_run = refl

new_machine_incomplete_example :
    ((t : Text) → listed t required_services ≡ true → get_service_state made t ≡ not_started)
    × (is_complete made ≡ false)
new_machine_incomplete_example =
    new_machine_incomplete azure_tables (codes "one") DeploymentType.azure (codes "eastus")
      (codes "B2s") 30 made new_machine_run
