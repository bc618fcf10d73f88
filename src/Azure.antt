-- ===== src/Azure.antt =====
-- pkg/providers/azure/deploy.go and the errors of client.go. The SDK of Azure is an interface; the
-- machine that a function is given is the one that the deployment has under its name.
pub mod Address
pub mod Template
pub mod Create
pub mod Prepare
pub mod Rules
pub mod Keeps
pub mod Asking
pub mod Frame
pub mod Turn
pub mod Groups
pub mod Deployed
pub mod Retry
pub mod Same
pub mod Examples
use andaime.Base.{
  ℕ, ◌+◌, Bool, true, false, List, [], ◌∷◌, ◌++◌, Option, none, some, Text, codes, same, is_empty,
  Dict, lookup, insert, if◌then◌else◌,
}
use andaime.Location.{Tables}
use andaime.Machine.{Machine}
use andaime.Display.{updated_machines}
use andaime.Status.{DisplayStatus}

-- An error of the client: its text, the code and the message where it is an `AzureError`, and
-- whether it is `context.Canceled`.
pub record ClientError : Type 0 where
  pub text : Text
  pub azure_error : Option (Text × Text)
  pub canceled : Bool

pub data Reply (A : Type 0) : Type 0 where
  got : A → Reply A
  failed : ClientError → Reply A

-- What `PollUntilDone` answers, with its text for `%v`.
pub record Poll : Type 0 where
  pub provisioning_state : Option Text
  pub message : Option Text
  pub shown : Text
  pub error : Option ClientError

-- The properties of an IP configuration: its private address, and whether it has a public one.
pub record IpConfiguration : Type 0 where
  pub private_ip : Option Text
  pub has_public_ip : Bool

-- A label is a string, or the map that a retry puts in its place.
pub data DnsLabel : Type 0 where
  plain boxed : Text → DnsLabel

-- The parameters of the template that differ between machines.
pub record Params : Type 0 where
  pub vm_name : Text
  pub admin_username : Text
  pub ssh_public_key : Text
  pub dns_label_prefix : DnsLabel
  pub vm_size : Text
  pub virtual_network_name : Text
  pub subnet_name : Text
  pub network_security_group_name : Text
  pub location : Text
  pub allowed_ports : List ℕ

-- The client, `utils.GenerateUniqueID`, the clock and the SSH of a machine, over a state `W`. The
-- interfaces of a VM are none without a network profile.
pub record AzureClient (W : Type 0) : Type 0 where
  pub get_or_create_resource_group : Text → Text → W → Option ClientError × W
  pub get_arm_template : Reply Text
  pub unmarshal : Text → Reply Text
  pub deploy_template : Text → Text → Text → Params → W → Option ClientError × W
  pub poll_until_done : W → Poll × W
  pub get_virtual_machine : Text → Text → W → Reply (Option (List (Option Text))) × W
  pub get_network_interface : Text → Text → W → Reply (List (Option IpConfiguration)) × W
  pub get_public_ip_address : Text → Text → W → Reply (Option Text) × W
  pub generate_unique_id : W → Text × W
  pub since_start : W → ℕ × W
  pub new_ssh_config : Text → ℕ → Text → Text → W → Option ClientError × W
  pub wait_for_ssh : W → Option ClientError × W

-- What is only read.
pub record AzurePlan : Type 0 where
  pub tables : Tables
  pub provider_group : Text
  pub unique_id : Text
  pub ssh_user : Text
  pub ssh_public_key_material : Text
  pub allowed_ports : List ℕ
  pub machine_id : Machine → Text
  pub machine_key : Machine → Text

-- `viperMachineStruct`
pub record ViperMachine : Type 0 where
  pub location : Text
  pub size : Text
  pub public_ip : Text
  pub private_ip : Text
  pub bacalhau_provisioned : Bool

-- The deployment, the statuses that the display was given, newest first, and the machines that viper
-- holds under the path of the deployment.
pub record Deploy (W : Type 0) : Type 0 where
  pub machines : Dict Machine
  pub locations : List Text
  pub resource_group_name : Text
  pub resource_group_location : Text
  pub viper_path : Text
  pub statuses : List DisplayStatus
  pub recorded : Dict ViperMachine
  pub world : W

-- A panic is a nil pointer that is followed.
pub data Outcome (A : Type 0) : Type 0 where
  ok : A → Outcome A
  err : Text → Outcome A
  panic : Outcome A

abbrev pub D : Type 0 → Type 0 → Type 0
D W A = Deploy W → Outcome A × Deploy W

-- `IsRetriableError`; a cancelled context is no `AzureError`.
unfoldable pub is_retriable_error : ClientError → Bool
is_retriable_error e = elim e.azure_error [
  | none ↦ false
  | some (code, message) ↦ same code (codes "ResourceNotFound")
]

module _ {W : Type 0} where
  unfoldable pub pure : {A : Type 0} → A → D W A
  pure a s = (ok a, s)

  unfoldable pub fail : {A : Type 0} → Text → D W A
  fail e s = (err e, s)

  unfoldable pub halt : {A : Type 0} → D W A
  halt s = (panic, s)

  abbrev pub after : {A B : Type 0} → Outcome A × Deploy W → (A → D W B) → Outcome B × Deploy W
  after (ok a, s) f = f a s
  after (err e, s) f = (err e, s)
  after (panic, s) f = (panic, s)

  infixl 5 ◌>>=◌ ◌>>◌
  unfoldable pub ◌>>=◌ : {A B : Type 0} → D W A → (A → D W B) → D W B
  ◌>>=◌ m f s = after (m s) f

  unfoldable pub ◌>>◌ : {B : Type 0} → D W (Unit {0}) → D W B → D W B
  ◌>>◌ m k s = after (m s) (λ _. k)

  abbrev pub either :
      {A B : Type 0} → Outcome A × Deploy W → (A → D W B) → (Text → D W B) → Outcome B × Deploy W
  either (ok a, s) f g = f a s
  either (err e, s) f g = g e s
  either (panic, s) f g = (panic, s)

  -- `a, err := m; if err != nil { g }; f`
  unfoldable pub try : {A B : Type 0} → D W A → (A → D W B) → (Text → D W B) → D W B
  try m f g s = either (m s) f g

  -- A call that touches the world alone.
  unfoldable pub call : {A : Type 0} → (W → A × W) → D W A
  call f s = let (a, w) = f s.world in (ok a, record s { world = w })

  unfoldable pub update_machines : (Dict Machine → Dict Machine) → D W (Unit {0})
  update_machines f s = (ok tt, record s { machines = f s.machines })

  -- `m.Deployment.Machines[name]`, which a method is called on.
  abbrev pub on_machine : {A : Type 0} → Option Machine → (Machine → D W A) → D W A
  on_machine none f = halt
  on_machine (some m) f = f m

  unfoldable pub at_machine : {A : Type 0} → Text → (Machine → D W A) → D W A
  at_machine k f s = on_machine (lookup k s.machines) f s

  unfoldable pub modify : Text → (Machine → Machine) → D W (Unit {0})
  modify k f = at_machine k (λ m. update_machines (insert k (f m)))

  -- `m.UpdateStatus(status)`, as far as machines go.
  unfoldable pub show_status : Tables → DisplayStatus → D W (Unit {0})
  show_status tables n s = if is_empty n.name then (ok tt, s) else (
    ok tt,
    record s {
      machines = updated_machines tables n s.machines (lookup n.name s.machines);
      statuses = n ∷ s.statuses;
    },
  )

-- `fmt.Sprintf("%d", n)` of one digit.
abbrev pub digit : ℕ → Text
digit n = (48 + n) ∷ []
