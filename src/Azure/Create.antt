-- ===== src/Azure/Create.antt =====
-- deployMachine and CreateResources of pkg/providers/azure/deploy.go. The
-- locations, which the code deploys side by side, run one after the other, each of them whatever
-- the others gave; a panic ends them all.
use andaime.Base.{
  Bool, true, false, List, [], ◌∷◌, ◌++◌, Option, none, some, Text, codes, is_empty, contains, Dict,
  lookup, insert, if◌then◌else◌,
}
use andaime.Types.{ServiceState, MachineResourceState, service_ssh, service_bacalhau, same_service}
use andaime.Types.Resources.{azure_vm}
use andaime.Machine.{Machine, set_service_state, get_service_state}
use andaime.Cluster.{get_machines}
use andaime.Utils.{remove_duplicates}
use andaime.Status.{new_display_vm_status, new_display_status}
use andaime.Azure.{
  ClientError, Reply, got, failed, AzureClient, AzurePlan, ViperMachine, Deploy, Outcome, ok, err,
  panic, D, pure, fail, call, modify, at_machine, try, ◌>>=◌, ◌>>◌,
}
use andaime.Azure.Template.{
  update_display, text_status, vm_succeeded, prepare_deployment_params, deploy_template_with_retry,
}

abbrev pub template_text : Text
template_text = codes "failed to get template: "

abbrev pub map_text : Text
map_text = codes "failed to convert struct to map: "

abbrev pub is_nil : {A : Type 0} → List A → Bool
is_nil [] = true
is_nil (a ∷ l) = false

unfoldable pub viper_machine : Machine → ViperMachine
viper_machine m = record {
  location = m.region;
  size = m.vm_size;
  public_ip = m.public_ip;
  private_ip = m.private_ip;
  bacalhau_provisioned = same_service (get_service_state m service_bacalhau) ServiceState.succeeded;
}

abbrev pub ssh_state : ServiceState → Machine → Machine
ssh_state state m = set_service_state m service_ssh state

-- `errgroup`: all run, and the first error counts.
abbrev pub combined_error : Outcome (Unit {0}) → Outcome (Unit {0}) → Outcome (Unit {0})
combined_error panic r = panic
combined_error (ok _) r = r
combined_error (err e) (ok _) = err e
combined_error (err e) (err _) = err e
combined_error (err e) panic = panic

-- `machinesByLocation`: the names of the machines of each region.
abbrev pub members : Option (List Text) → List Text
members none = []
members (some names) = names

unfoldable pub machines_by_location : Dict Machine → Dict (List Text) → Dict (List Text)
machines_by_location [] groups = groups
machines_by_location ((name, m) ∷ ms) groups =
    machines_by_location ms (insert m.region (members (lookup m.region groups) ++ name ∷ []) groups)

abbrev pub with_rest :
    {W : Type 0} → Outcome (Unit {0}) × Deploy W → D W (Unit {0}) → Outcome (Unit {0}) × Deploy W
with_rest (panic, s) rest = (panic, s)
with_rest (ok u, s) rest = rest s
with_rest (err e, s) rest = (combined_error (err e) (rest s).0, (rest s).1)

module _ {W : Type 0} (client : AzureClient W) (plan : AzurePlan) where
  abbrev pub from_answer : Text → Reply Text → D W Text
  from_answer doing (got t) = pure t
  from_answer doing (failed e) = fail (doing ++ e.text)

  -- `getAndPrepareTemplate`
  unfoldable pub get_and_prepare_template : D W Text
  get_and_prepare_template = from_answer template_text client.get_arm_template >>= λ t.
      from_answer map_text (client.unmarshal t)

  abbrev pub record_machine : Text → D W (Unit {0})
  record_machine name =
      at_machine name
        (λ m s. (ok tt, record s { recorded = insert name (viper_machine m) s.recorded }))

  abbrev pub deploy_template_of : Text → D W (Unit {0})
  deploy_template_of name = at_machine name (λ m. call client.generate_unique_id >>= λ unique.
      get_and_prepare_template >>= λ template.
      deploy_template_with_retry client plan name template
        (prepare_deployment_params plan m unique))

  -- `deployMachine`
  unfoldable pub deploy_machine : Text → D W (Unit {0})
  deploy_machine name = do
    update_display plan (new_display_status name name azure_vm MachineResourceState.not_started)
    (if is_empty plan.ssh_public_key_material
        then fail (codes "ssh public key material is not set")
        else (do deploy_template_of name; modify name vm_succeeded; record_machine name))

  -- The status and the error of a machine that was not deployed.
  abbrev pub not_deployed : Text → Text → Text → D W (Unit {0})
  not_deployed location name e =
      if contains e (codes "QuotaExceeded")
      then (do
        update_display plan (
            text_status name MachineResourceState.failed
              (codes "Quota exceeded for location: " ++ location))
        fail (codes "quota exceeded for location " ++ location))
      else (do
        update_display plan
            (text_status name MachineResourceState.failed (codes "Failed to deploy machine."))
        fail (
            codes "failed to deploy machine "
            ++ (name ++ (codes " in location " ++ (location ++ (codes ": " ++ e))))))

  abbrev pub after_config : Text → Text → Option ClientError → D W (Unit {0}) → D W (Unit {0})
  after_config location name none rest = rest
  after_config location name (some e) rest = do
    update_display plan
        (text_status name MachineResourceState.failed (codes "Failed to start SSH Testing."))
    fail (
        codes "failed to create SSH config for machine "
        ++ (name ++ (codes " in location " ++ (location ++ (codes ": " ++ e.text)))))

  abbrev pub after_wait : Text → Text → Option ClientError → D W (Unit {0})
  after_wait location name none = do
    update_display plan
        (text_status name MachineResourceState.succeeded (codes "SSH Config Deployed"))
    modify name (ssh_state ServiceState.succeeded)
  after_wait location name (some e) = do
    update_display plan
        (text_status name MachineResourceState.failed (codes "Failed to test for SSH liveness."))
    modify name (ssh_state ServiceState.failed)
    fail (
        codes "failed to wait for SSH connection to machine "
        ++ (name ++ (codes " in location " ++ (location ++ (codes ": " ++ e.text)))))

  -- The SSH of a machine that was deployed.
  abbrev pub configure_ssh : Text → Text → D W (Unit {0})
  configure_ssh location name = do
    update_display plan
        (text_status name MachineResourceState.pending (codes "Deploying SSH Config"))
    modify name (ssh_state ServiceState.updating)
    at_machine name (λ m.
        call (client.new_ssh_config m.public_ip m.ssh_port m.ssh_user m.ssh_private_key_path)
        >>= λ e.
            after_config location name e (call client.wait_for_ssh >>= after_wait location name))

  -- A turn of the loop over the machines of a location.
  unfoldable pub create_machine : Text → Text → D W (Unit {0})
  create_machine location name = do
    update_display plan (new_display_vm_status name MachineResourceState.pending false)
    try (deploy_machine name) (λ _. configure_ssh location name) (not_deployed location name)

  unfoldable pub create_machines : Text → List Text → D W (Unit {0})
  create_machines location [] = pure tt
  create_machines location (name ∷ names) =
      create_machine location name >> create_machines location names

  -- The function that runs for a location.
  unfoldable pub create_location : Text → List Text → D W (Unit {0})
  create_location location names =
      if is_nil names
      then fail (codes "no machines to deploy in location " ++ location)
      else if is_empty plan.ssh_public_key_material
      then fail (codes "ssh public key material is not set on the deployment")
      else create_machines location names

  unfoldable pub create_locations : List (Text × List Text) → D W (Unit {0})
  create_locations [] s = (ok tt, s)
  create_locations ((location, names) ∷ ls) s =
      with_rest (create_location location names s) (create_locations ls)

  -- `CreateResources`
  unfoldable pub create_resources : D W (Unit {0})
  create_resources s =
      if is_nil (get_machines s.machines)
      then (err (codes "no machines provided"), s)
      else if is_nil s.locations
      then (err (codes "no locations provided"), s)
      else try (create_locations (machines_by_location (get_machines s.machines) [])) pure
          (λ e. fail (codes "deployment failed: " ++ e))
          (record s { locations = remove_duplicates s.locations })
