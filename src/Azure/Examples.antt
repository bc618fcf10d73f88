-- ===== src/Azure/Examples.antt =====
-- Deployments to Azure with a client that answers every call, and with one whose polls give an error.
use andaime.Base.{
  ℕ, ◌+◌, true, false, [], ◌∷◌, none, some, codes, lookup, insert, same, ◌≡◌, ◌≢◌, refl,
}
use andaime.Machine.Examples.{azure_machine, azure_tables}
use andaime.Types.{service_code}
use andaime.Status.{new_display_vm_status, new_display_status, new_display_status_with_text}
use andaime.Display.{
  update_machine_status, update_service_states, service_switch, instance_is_up,
  update_orchestrator_status, update_elapsed_time, update_ips, update_location,
  update_status_message,
}
use andaime.Cluster.{get_machines}
use andaime.Utils.{remove_duplicates}
use andaime.Azure.{
  ClientError, got, AzureClient, AzurePlan, Params, Deploy, ok, pure, fail, ◌>>=◌, ◌>>◌, try, call,
  update_machines, at_machine, modify, show_status,
}
use andaime.Azure.Address.{address_attempts, get_vm_ip_addresses}
use andaime.Azure.Template.{
  prepare_deployment_params, poll_fault, deploy_attempts, address_turns, deploy_template_with_retry,
}
use andaime.Azure.Create.{
  get_and_prepare_template, deploy_machine, create_machine, create_machines, create_location,
  create_locations, machines_by_location, create_resources,
}
use andaime.Azure.Prepare.{prepare_resource_group}
use andaime.Azure.Turn.{Up}
use andaime.Azure.Deployed.{create_resources-Up}
use andaime.Azure.Retry.{ErrorsAreBare, deploy_attempts_once}
use andaime.Azure.Same.{get_vm_ip_addresses_same}

abbrev client : AzureClient ℕ
client = record {
  get_or_create_resource_group = λ name location w. (none, w);
  get_arm_template = got (codes "{}");
  unmarshal = λ t. got t;
  deploy_template = λ group name template params w. (none, w + 1);
  poll_until_done = λ w. (
    record {
      provisioning_state = some (codes "Succeeded");
      message = none;
      shown = [];
      error = none;
    },
    w,
  );
  get_virtual_machine = λ group name w. (got (some (some (codes "nic") ∷ [])), w);
  get_network_interface = λ group name w.
      (got (some (record { private_ip = some (codes "10.0.0.4"); has_public_ip = true }) ∷ []), w);
  get_public_ip_address = λ group name w. (got (some (codes "4.4.4.4")), w);
  generate_unique_id = λ w. (codes "abcdefgh", w);
  since_start = λ w. (5, w);
  new_ssh_config = λ host port user key w. (none, w);
  wait_for_ssh = λ w. (none, w);
}

abbrev taken : ClientError
taken = record { text = codes "DnsRecordCreateConflict"; azure_error = none; canceled = false }

abbrev conflicting_client : AzureClient ℕ
conflicting_client = record client {
  poll_until_done = λ w.
      (record { provisioning_state = none; message = none; shown = []; error = some taken }, w);
}

abbrev azure_plan : AzurePlan
azure_plan = record {
  tables = azure_tables;
  provider_group = codes "group";
  unique_id = codes "id";
  ssh_user = codes "azureuser";
  ssh_public_key_material = codes "key";
  allowed_ports = 22 ∷ [];
  machine_id = λ m. codes "one";
  machine_key = λ m. codes "key";
}

abbrev new_deployment : Deploy ℕ
new_deployment = record {
  machines =
      (codes "one-vm", azure_machine)
      ∷ (codes "two-vm", record azure_machine { name = codes "two-vm" })
      ∷ [];
  locations = codes "eastus" ∷ codes "eastus" ∷ [];
  resource_group_name = codes "group";
  resource_group_location = codes "eastus";
  viper_path = [];
  statuses = [];
  recorded = [];
  world = 0;
}

abbrev params : Params
params = prepare_deployment_params azure_plan azure_machine (codes "abcdef")

create_resources-Up_example :
    Up (codes "two-vm") (create_resources client azure_plan new_deployment).1.machines
unfolding create_resources create_locations create_location create_machines create_machine
    deploy_machine get_and_prepare_template deploy_template_with_retry deploy_attempts address_turns
    address_attempts get_vm_ip_addresses poll_fault show_status pure fail ◌>>=◌ ◌>>◌ try call modify
    at_machine update_machines machines_by_location lookup insert same get_machines
    remove_duplicates new_display_vm_status update_machine_status update_service_states
    service_switch instance_is_up update_orchestrator_status update_elapsed_time update_ips
    update_location update_status_message service_code new_display_status_with_text
create_resources-Up_example =
    create_resources-Up client azure_plan new_deployment (codes "two-vm") refl tt

errors_are_bare : ErrorsAreBare conflicting_client
errors_are_bare w e h = refl

deploy_attempts_once_example :
    (deploy_attempts conflicting_client azure_plan 3 0
        (codes "group")
        (codes "one-vm")
        (codes "one")
        (codes "{}")
        params
        new_deployment
      ≡ deploy_attempts conflicting_client azure_plan 1 0
          (codes "group")
          (codes "one-vm")
          (codes "one")
          (codes "{}")
          params
          new_deployment)
    × ((deploy_attempts conflicting_client azure_plan 3 0
          (codes "group")
          (codes "one-vm")
          (codes "one")
          (codes "{}")
          params
          new_deployment).0
        ≢ ok true)
deploy_attempts_once_example =
    deploy_attempts_once conflicting_client azure_plan errors_are_bare 2 0 (codes "group")
      (codes "one-vm") (codes "one") (codes "{}") params new_deployment

get_vm_ip_addresses_same_example :
    get_vm_ip_addresses client (codes "group") (codes "one-vm") new_deployment
    ≡ get_vm_ip_addresses client (codes "group") (codes "two-vm") new_deployment
get_vm_ip_addresses_same_example =
    get_vm_ip_addresses_same client (codes "group") (codes "one-vm") (codes "two-vm")
      (λ w. (w, (codes "nic", [], refl), (codes "nic", [], refl))) new_deployment

-- Both VMs are given the addresses of the one interface.
addresses_of_two_vm :
    (get_vm_ip_addresses client (codes "group") (codes "two-vm") new_deployment).0
    ≡ ok (codes "4.4.4.4", codes "10.0.0.4")
unfolding get_vm_ip_addresses address_attempts ◌>>=◌ call pure
addresses_of_two_vm = refl

-- The group is placed in the region of the first machine.
group_placed :
    (prepare_resource_group client azure_plan
      (record new_deployment { resource_group_location = [] })).1.resource_group_location
    ≡ azure_machine.region
unfolding prepare_resource_group ◌>>=◌ ◌>>◌ call pure show_status new_display_vm_status
    new_display_status get_machines
group_placed = refl
