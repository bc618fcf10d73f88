-- ===== src/Config/Create.antt =====
-- What a configuration holds, and `createNewMachine` of pkg/providers/common/machine_config.go.
use andaime.Base.{
  ℕ, Bool, true, false, ◌&&◌, not, List, [], ◌∷◌, ◌++◌, Option, none, some, Text, codes, is_empty,
  replicate, if◌then◌else◌, ℤ, pos_part, is_zero, is_positive,
}
use andaime.Types.{DeploymentType, ServiceState, required_services}
use andaime.Location.{Tables}
use andaime.Machine.{Machine, ensure_machine_services, set_services}
use andaime.Machine.Create.{new_machine}
use andaime.Config.Image.{DiskImage, ImageUrl, is_valid_gcp_disk_image_family}

-- `RawMachineParams`
pub record RawMachineParams : Type 0 where
  pub count : ℤ
  pub type : Text
  pub orchestrator : Bool
  pub disk_size_gb : ℤ
  pub disk_image_url : Text
  pub disk_image_family : Text
  pub spot : Bool

pub record RawMachine : Type 0 where
  pub location : Text
  pub parameters : RawMachineParams

pub record Config : Type 0 where
  pub provider : DeploymentType
  pub tables : Tables
  pub disk_images : List DiskImage
  -- `validateMachineTypeFn`; `none` is its error.
  pub validate_machine_type : Text → Text → Option Bool
  pub new_id : ℕ → Text
  -- `none` is the error of `UnmarshalKey`.
  pub machines : Option (List RawMachine)
  pub default_count_per_zone : ℤ
  pub default_machine_type : Text
  pub default_disk_image_family : Text
  pub default_disk_image_url : Text
  pub default_disk_size_gb : ℕ
  pub ssh_private_key_path : Text
  pub ssh_public_key_path : Text
  pub can_read_private_key : Text → Bool
  pub can_read_public_key : Text → Bool
  -- `strconv.Atoi`; `none` is its error.
  pub ssh_port : Option ℕ
  pub ssh_user : Text

pub data ConfigError : Type 0 where
  bad_machines no_default_count no_default_type no_default_disk_size : ConfigError
  no_private_key_path unreadable_private_key : ConfigError
  no_public_key_path unreadable_public_key : ConfigError
  multiple_orchestrators no_orchestrator : ConfigError
  bad_location not_created bad_disk_image : Text → ConfigError
  bad_combinations : List (Text × Text) → ConfigError
  -- The panic of an index out of range.
  panicked : ConfigError

pub data Checked {ℓ} (A : Type ℓ) : Type ℓ where
  ok : A → Checked A
  err : ConfigError → Checked A

infixl 5 ◌>>=◌ ◌>>◌
abbrev pub ◌>>=◌ {ℓ κ} : {A : Type ℓ} {B : Type κ} → Checked A → (A → Checked B) → Checked B
ok a >>= f = f a
err e >>= f = err e

abbrev pub ◌>>◌ {ℓ} : {B : Type ℓ} → Checked (Unit {0}) → Checked B → Checked B
m >> k = m >>= λ _. k

abbrev pub refuse_if : Bool → ConfigError → Checked (Unit {0})
refuse_if true e = err e
refuse_if false e = ok tt

-- `params == RawMachineParams{}`
abbrev pub is_zero_params : RawMachineParams → Bool
is_zero_params p =
    is_zero p.count
    && is_empty p.type
    && not p.orchestrator
    && is_zero p.disk_size_gb
    && is_empty p.disk_image_url
    && is_empty p.disk_image_family
    && not p.spot

-- `getCountOfMachines`
unfoldable pub get_count_of_machines : RawMachineParams → ℤ → ℤ
get_count_of_machines params default_count =
    if is_positive params.count
    then params.count
    else if is_zero default_count
    then ℤ.pos 1
    else default_count

-- The first loop: the location of each orchestrator, once for each of its machines.
unfoldable pub orchestrator_locations : ℤ → List RawMachine → List Text
orchestrator_locations default_count [] = []
orchestrator_locations default_count (r ∷ rs) =
    let count = if is_zero r.parameters.count then default_count else r.parameters.count in
    (if r.parameters.orchestrator then replicate (pos_part count) r.location else [])
    ++ orchestrator_locations default_count rs

abbrev pub first_of : Text → Text → Text
first_of a b = if is_empty a then b else a

abbrev pub ubuntu_family : Text
ubuntu_family = codes "ubuntu-2004-lts"

abbrev pub ubuntu_url : Text
ubuntu_url =
    codes
      "https://www.googleapis.com/compute/v1/projects/ubuntu-os-cloud/global/images/ubuntu-2004-lts"

abbrev pub with_image : Text → Text → Machine → Machine
with_image family url m = record m { disk_image_family = family; disk_image_url = url }

-- The image of a machine on GCP: a family is looked up even where only a URL is given.
abbrev pub checked_image : Text → Text → Machine → ImageUrl → Checked Machine
checked_image family url m ImageUrl.panics = err ConfigError.panicked
checked_image family url m ImageUrl.invalid = err (ConfigError.bad_disk_image family)
checked_image family url m (ImageUrl.found returned) =
    ok (with_image family (first_of url returned) m)

unfoldable pub set_image : Config → Text → Text → Machine → DeploymentType → Checked Machine
set_image cfg family url m DeploymentType.gcp =
    if is_empty family && is_empty url
    then ok (with_image ubuntu_family ubuntu_url m)
    else checked_image family url m (is_valid_gcp_disk_image_family cfg.disk_images family)
set_image cfg family url m DeploymentType.azure = ok m
set_image cfg family url m DeploymentType.aws = ok m
set_image cfg family url m DeploymentType.unknown = ok m

abbrev pub port_of : Option ℕ → ℕ
port_of none = 22
port_of (some port) = port

-- What `createNewMachine` does to a machine that `NewMachine` has made, on every provider.
abbrev pub equipped : Config → Machine → Machine
equipped cfg m =
    record (set_services (ensure_machine_services m) required_services ServiceState.not_started) {
      ssh_user = first_of cfg.ssh_user (codes "andaimeuser");
      ssh_port = port_of cfg.ssh_port;
      ssh_private_key_path = cfg.ssh_private_key_path;
    }

abbrev pub created : Text → Option Machine → (Machine → Checked Machine) → Checked Machine
created location none rest = err (ConfigError.not_created location)
created location (some m) rest = rest m

-- `createNewMachine`
unfoldable pub create_new_machine : Config → Text → Text → Text → Text → Text → Checked Machine
create_new_machine cfg id location type family url =
    created location (new_machine cfg.tables id cfg.provider location type cfg.default_disk_size_gb)
      (λ m. set_image cfg family url (equipped cfg m) cfg.provider)
