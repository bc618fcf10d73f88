-- ===== src/Config.antt =====
-- pkg/providers/common/machine_config.go: the machines that a configuration asks for. `Config` holds
-- what ProcessMachinesConfig reads: the answers of viper, the key files, the tables of the clouds,
-- the caller's test of a machine type, and `new_id`, the ids that CreateShortID draws one after the
-- other. Key material is left out. The machines of a map are visited in the order of its entries,
-- which stands for any order.
pub mod Image
pub mod Create
pub mod Created
pub mod Orchestrators
pub mod Elected
pub mod Process
pub mod Accepted
pub mod Examples
use andaime.Base.{
  ℕ, zero, suc, ◌+◌, ltb, ◌==◌, Bool, true, false, ◌&&◌, ◌||◌, not, List, [], ◌∷◌, ◌++◌, Option,
  none, some, Text, codes, is_empty, Dict, insert, length, replicate, if◌then◌else◌, ℤ, pos_part,
  is_zero, is_positive,
}
use andaime.Types.{DeploymentType, ServiceState, MachineResourceState, required_services}
use andaime.Location.{Tables, normalize_location, provider_name}
use andaime.Machine.{Machine, ensure_machine_services, set_services, set_machine_resource_state}
use andaime.Machine.Create.{new_machine}
use andaime.Cluster.{with_orchestrator_ip}
use andaime.Config.Create.{
  RawMachineParams, RawMachine, Config, ConfigError, Checked, ok, err, ◌>>=◌, ◌>>◌, refuse_if,
  is_zero_params, get_count_of_machines, orchestrator_locations, first_of, port_of,
  create_new_machine,
}
use andaime.Config.Image.{DiskImage, ImageUrl, is_valid_gcp_disk_image_family}

-- What the second loop builds; `next` counts the ids that were drawn.
pub record Built : Type 0 where
  pub machines : Dict Machine
  pub locations : Dict Bool
  pub bad : List (Text × Text)
  pub next : ℕ

abbrev pub marked : RawMachineParams → Machine → Machine
marked params m =
    if not (is_zero_params params) && params.orchestrator
    then record m { orchestrator = true }
    else m

abbrev pub with_machine : Config → RawMachineParams → Built → Machine → Built
with_machine cfg params b m = record b {
  machines =
      insert m.name
        (set_machine_resource_state (marked params m) (provider_name cfg.provider ++ codes "VM")
          MachineResourceState.not_started)
        b.machines;
  next = b.next + 1;
}

-- The loop over the count of one configured machine.
unfoldable pub add_machines : Config → RawMachine → Text → Text → Text → ℕ → Built → Checked Built
add_machines cfg r type family url zero b = ok b
add_machines cfg r type family url (suc n) b =
    create_new_machine cfg (cfg.new_id b.next) r.location type family url >>= λ m.
    add_machines cfg r type family url n (with_machine cfg r.parameters b m)

abbrev pub is_valid_type : Option Bool → Bool
is_valid_type none = false
is_valid_type (some valid) = valid

abbrev pub at_location : Text → Built → Checked Built
at_location location b = ok (record b { locations = insert location true b.locations })

abbrev pub add_at : Config → RawMachine → Text → Built → Option (Text × Text) → Checked Built
add_at cfg r type b none = err (ConfigError.bad_location r.location)
add_at cfg r type b (some _) =
    add_machines cfg r type (first_of r.parameters.disk_image_family cfg.default_disk_image_family)
      (first_of r.parameters.disk_image_url cfg.default_disk_image_url)
      (pos_part (get_count_of_machines r.parameters cfg.default_count_per_zone)) b
    >>= at_location r.location

-- One turn of the second loop.
unfoldable pub add_raw : Config → RawMachine → Built → Checked Built
add_raw cfg r b =
    let type = first_of r.parameters.type cfg.default_machine_type in
    if is_valid_type (cfg.validate_machine_type r.location type)
    then add_at cfg r type b (normalize_location (provider_name cfg.provider) r.location)
    else ok (record b { bad = b.bad ++ (r.location, type) ∷ [] })

unfoldable pub add_raws : Config → List RawMachine → Built → Checked Built
add_raws cfg [] b = ok b
add_raws cfg (r ∷ rs) b = add_raw cfg r b >>= add_raws cfg rs

-- The loop that tells the machines the orchestrator's address, or looks for an orchestrator.
unfoldable pub tell_machines : Text → Dict Machine → Dict Machine × Bool
tell_machines ip [] = ([], false)
tell_machines ip ((k, m) ∷ ms) =
    let (ms', found) = tell_machines ip ms in
    if is_empty ip
    then ((k, m) ∷ ms', m.orchestrator || found)
    else ((k, with_orchestrator_ip ip m) ∷ ms', true)

abbrev pub elected : Dict Machine × Bool → Checked (Dict Machine)
elected (ms, true) = ok ms
elected ([], false) = err ConfigError.no_orchestrator
elected ((k, m) ∷ ms, false) = ok ((k, record m { orchestrator = true }) ∷ ms)

abbrev pub refuse_bad : List (Text × Text) → Checked (Unit {0})
refuse_bad [] = ok tt
refuse_bad (c ∷ cs) = err (ConfigError.bad_combinations (c ∷ cs))

-- `ProcessMachinesConfig` behind the second loop.
unfoldable pub finish_machines : Text → Built → Checked (Dict Machine × Dict Bool)
finish_machines ip b =
    refuse_bad b.bad >> (elected (tell_machines ip b.machines) >>= λ ms. ok (ms, b.locations))

abbrev pub none_built : Built
none_built = record { machines = []; locations = []; bad = []; next = 0 }

-- `ProcessMachinesConfig` from the first loop on.
unfoldable pub build_machines : Config → Text → List RawMachine → Checked (Dict Machine × Dict Bool)
build_machines cfg ip raws =
    refuse_if (ltb 1 (length (orchestrator_locations cfg.default_count_per_zone raws)))
      ConfigError.multiple_orchestrators
    >> (add_raws cfg raws none_built >>= finish_machines ip)

abbrev pub unmarshalled : Option (List RawMachine) → Checked (List RawMachine)
unmarshalled none = err ConfigError.bad_machines
unmarshalled (some raws) = ok raws

-- The guards on the defaults.
unfoldable pub check_defaults : Config → Checked (Unit {0})
check_defaults cfg = do
  refuse_if (is_zero cfg.default_count_per_zone) ConfigError.no_default_count
  refuse_if (is_empty cfg.default_machine_type) ConfigError.no_default_type
  refuse_if (cfg.default_disk_size_gb == 0) ConfigError.no_default_disk_size

-- The guards on the two key files.
unfoldable pub check_keys : Config → Checked (Unit {0})
check_keys cfg = do
  refuse_if (is_empty cfg.ssh_private_key_path) ConfigError.no_private_key_path
  refuse_if (not (cfg.can_read_private_key cfg.ssh_private_key_path))
      ConfigError.unreadable_private_key
  refuse_if (is_empty cfg.ssh_public_key_path) ConfigError.no_public_key_path
  refuse_if (not (cfg.can_read_public_key cfg.ssh_public_key_path))
      ConfigError.unreadable_public_key

-- The guards before the port is stored.
unfoldable pub check_config : Config → Checked (List RawMachine)
check_config cfg = do raws ← unmarshalled cfg.machines; check_defaults cfg; check_keys cfg; ok raws

-- What ProcessMachinesConfig reads and writes of the global deployment.
pub record ConfigState : Type 0 where
  pub orchestrator_ip : Text
  pub ssh_port : ℕ

-- `ProcessMachinesConfig`
unfoldable pub process_machines_config :
    Config → ConfigState → Checked (Dict Machine × Dict Bool) × ConfigState
process_machines_config cfg s = elim (check_config cfg) [
  | err e ↦ (err e, s)
  | ok raws ↦
      (build_machines cfg s.orchestrator_ip raws, record s { ssh_port = port_of cfg.ssh_port })
]
