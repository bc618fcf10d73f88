-- ===== src/Config/Examples.antt =====
-- A configuration of an orchestrator and a worker on Azure, and one with a negative count.
use andaime.Base.{
  ◌<◌, Bool, true, false, List, [], ◌∷◌, Option, none, some, codes, Dict, lookup, insert, same,
  to_lower_byte, length, ℤ, replicate, ◌≡◌, refl, arith,
}
use andaime.Types.{DeploymentType}
use andaime.Types.Resources.{
  find_resource_type, get_all_azure_resources, get_azure_resource_type, required_azure_resources,
  required_resources,
}
use andaime.Location.{
  normalize_location, provider_name, is_valid_location, is_valid_region_zone, is_valid_azure_region,
  has_key,
}
use andaime.Machine.{
  Machine, ensure_machine_services, set_machine_resource, set_machine_resource_state,
  set_service_state, set_services,
}
use andaime.Machine.Create.{new_machine, set_display_location, start_machine, start_resources}
use andaime.Machine.Examples.{azure_tables, azure_machine}
use andaime.Remote as Remote
use andaime.Cluster.{find_orchestrator_machine}
use andaime.Config.Create.{
  Config, Checked, ok, err, RawMachine, orchestrator_locations, get_count_of_machines,
  create_new_machine, set_image,
}
use andaime.Config.{
  ConfigState, check_config, process_machines_config, check_defaults, check_keys, build_machines,
  add_raws, add_raw, add_machines, finish_machines, tell_machines,
}
use andaime.Config.Orchestrators.{count_orchestrators}
use andaime.Config.Process.{process_machines_config_elects, process_machines_config_tells}
use andaime.Config.Accepted.{process_machines_config_accepts}

abbrev raw_machine : Bool → ℤ → RawMachine
raw_machine orchestrator count = record {
  location = codes "eastus";
  parameters = record {
    count = count;
    type = [];
    orchestrator = orchestrator;
    disk_size_gb = ℤ.pos 0;
    disk_image_url = [];
    disk_image_family = [];
    spot = false;
  };
}

abbrev raws : List RawMachine
raws = raw_machine true (ℤ.pos 0) ∷ raw_machine false (ℤ.pos 1) ∷ []

abbrev config_of : ℤ → List RawMachine → Config
config_of default_count raws = record {
  provider = DeploymentType.azure;
  tables = azure_tables;
  disk_images = [];
  validate_machine_type = λ location type. some true;
  new_id = λ n. replicate n 97;
  machines = some raws;
  default_count_per_zone = default_count;
  default_machine_type = codes "B2s";
  default_disk_image_family = [];
  default_disk_image_url = [];
  default_disk_size_gb = 30;
  ssh_private_key_path = codes "key";
  ssh_public_key_path = codes "key.pub";
  can_read_private_key = λ path. true;
  can_read_public_key = λ path. true;
  ssh_port = none;
  ssh_user = [];
}

abbrev no_address : ConfigState
no_address = record { orchestrator_ip = []; ssh_port = 0 }

abbrev an_address : ConfigState
an_address = record { orchestrator_ip = codes "10.0.0.1"; ssh_port = 0 }

abbrev machines_of : Checked (Dict Machine × Dict Bool) → Dict Machine
machines_of (ok r) = r.0
machines_of (err e) = []

abbrev two_machines : ConfigState → Dict Machine
two_machines s = machines_of (process_machines_config (config_of (ℤ.pos 1) raws) s).0

abbrev eastus : Dict Bool
eastus = (codes "eastus", true) ∷ []

two_given : length (two_machines no_address) ≡ 2
unfolding process_machines_config check_config check_defaults check_keys build_machines
    orchestrator_locations add_raws add_raw normalize_location same provider_name to_lower_byte
    add_machines get_count_of_machines create_new_machine new_machine is_valid_location
    is_valid_region_zone insert lookup finish_machines set_image tell_machines is_valid_azure_region
    has_key set_display_location start_machine start_resources ensure_machine_services
    set_machine_resource set_machine_resource_state set_service_state set_services
    find_resource_type get_all_azure_resources get_azure_resource_type required_azure_resources
    required_resources
two_given = refl

-- A negative count passes the test for several orchestrators, and gives the default count of them.
negative_count :
    count_orchestrators (
      machines_of
        (process_machines_config
          (config_of (ℤ.pos 2) (raw_machine true (ℤ.negsuc 0) ∷ []))
          no_address).0)
    ≡ 2
unfolding process_machines_config check_config check_defaults check_keys build_machines
    orchestrator_locations add_raws add_raw normalize_location same provider_name to_lower_byte
    add_machines get_count_of_machines create_new_machine new_machine is_valid_location
    is_valid_region_zone insert lookup finish_machines set_image tell_machines is_valid_azure_region
    has_key set_display_location start_machine start_resources ensure_machine_services
    set_machine_resource set_machine_resource_state set_service_state set_services
    find_resource_type get_all_azure_resources get_azure_resource_type required_azure_resources
    required_resources
negative_count = refl

process_machines_config_accepts_example :
    (ms : Dict Machine) × (ls : Dict Bool) × (process_machines_config
        (config_of (ℤ.pos 1) raws)
        no_address
      ≡ (ok (ms, ls), record no_address { ssh_port = 22 }))
    × (0 < length ms)
unfolding check_config check_defaults check_keys orchestrator_locations is_valid_location
    normalize_location same provider_name to_lower_byte is_valid_region_zone is_valid_azure_region
    has_key
process_machines_config_accepts_example =
    process_machines_config_accepts (config_of (ℤ.pos 1) raws) no_address raws refl (omega arith)
      refl ((refl, refl, tt), ((refl, refl, tt), tt)) (omega arith)

process_machines_config_elects_example :
    (m : Machine) × (find_orchestrator_machine (two_machines no_address) ≡ Remote.ok m)
unfolding process_machines_config check_config check_defaults check_keys build_machines
    orchestrator_locations add_raws add_raw normalize_location same provider_name to_lower_byte
    add_machines get_count_of_machines create_new_machine new_machine is_valid_location
    is_valid_region_zone insert lookup finish_machines set_image tell_machines is_valid_azure_region
    has_key set_display_location start_machine start_resources ensure_machine_services
    set_machine_resource set_machine_resource_state set_service_state set_services
    find_resource_type get_all_azure_resources get_azure_resource_type required_azure_resources
    required_resources
process_machines_config_elects_example =
    process_machines_config_elects (config_of (ℤ.pos 1) raws) no_address
      (record no_address { ssh_port = 22 }) raws (two_machines no_address) eastus refl
      (refl, (refl, tt)) refl refl

abbrev or_else : Option Machine → Machine
or_else none = azure_machine
or_else (some m) = m

abbrev given_machine : Machine
given_machine = or_else (lookup (codes "-vm") (two_machines an_address))

process_machines_config_tells_example : given_machine.orchestrator_ip ≡ codes "10.0.0.1"
unfolding process_machines_config check_config check_defaults check_keys build_machines
    orchestrator_locations add_raws add_raw normalize_location same provider_name to_lower_byte
    add_machines get_count_of_machines create_new_machine new_machine is_valid_location
    is_valid_region_zone insert lookup finish_machines set_image tell_machines is_valid_azure_region
    has_key set_display_location start_machine start_resources ensure_machine_services
    set_machine_resource set_machine_resource_state set_service_state set_services
    find_resource_type get_all_azure_resources get_azure_resource_type required_azure_resources
    required_resources
process_machines_config_tells_example =
    process_machines_config_tells (config_of (ℤ.pos 1) raws) an_address
      (record an_address { ssh_port = 22 }) (two_machines an_address) eastus (codes "-vm")
      given_machine refl refl refl
