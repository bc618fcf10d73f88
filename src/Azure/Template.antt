-- ===== src/Azure/Template.antt =====
-- deployTemplateWithRetry of pkg/providers/azure/deploy.go, with the parameters of the template.
use andaime.Base.{
  ℕ, zero, suc, ◌+◌, ◌==◌, Bool, true, false, ◌++◌, Option, none, some, Text, codes, same, contains,
  to_lower, take, lookup, if◌then◌else◌,
}
use andaime.Types.{MachineResourceState}
use andaime.Types.Resources.{azure_vm}
use andaime.Machine.{Machine, set_machine_resource_state}
use andaime.Display.{trim_space}
use andaime.Status.{DisplayStatus, new_display_vm_status, new_display_status_with_text}
use andaime.Azure.{
  ClientError, Poll, DnsLabel, Params, AzureClient, AzurePlan, D, pure, fail, call, modify,
  at_machine, show_status, try, digit, ◌>>=◌, ◌>>◌,
}
use andaime.Azure.Address.{ip_retries, get_vm_ip_addresses}

abbrev pub max_retries : ℕ
max_retries = 3

-- `SetStatusMessage`
abbrev pub with_message : Text → Machine → Machine
with_message text m = record m { status_message = text }

-- `SetPublicIP` and `SetPrivateIP`
abbrev pub with_ips : Text → Text → Machine → Machine
with_ips public_ip private_ip m = record m { public_ip = public_ip; private_ip = private_ip }

-- `SetElapsedTime`
abbrev pub with_elapsed : ℕ → Machine → Machine
with_elapsed t m = record m { elapsed_time = t }

abbrev pub vm_succeeded : Machine → Machine
vm_succeeded m =
    set_machine_resource_state m azure_vm.resource_string MachineResourceState.succeeded

abbrev pub text_status : Text → MachineResourceState → Text → DisplayStatus
text_status name state text = new_display_status_with_text name azure_vm state text

-- `vm-<id>-<six letters>`
abbrev pub dns_label : Text → Text → Text
dns_label id unique = codes "vm-" ++ (to_lower id ++ (codes "-" ++ take 6 unique))

abbrev pub conflict_code : Text
conflict_code = codes "DnsRecordCreateConflict"

-- `prepareDeploymentParams`
unfoldable pub prepare_deployment_params : AzurePlan → Machine → Text → Params
unfolding trim_space
prepare_deployment_params plan m unique = record {
  vm_name = m.name;
  admin_username = plan.ssh_user;
  ssh_public_key = trim_space (plan.machine_key m);
  dns_label_prefix = DnsLabel.plain (dns_label (plan.machine_id m) unique);
  vm_size = m.vm_size;
  virtual_network_name = m.zone ++ codes "-vnet";
  subnet_name = m.zone ++ codes "-subnet";
  network_security_group_name = m.zone ++ codes "-nsg";
  location = m.zone;
  allowed_ports = plan.allowed_ports;
}

-- What the answer of a poll says before its error is looked at; `none` goes on.
unfoldable pub poll_fault : Poll → Option Text
poll_fault r = elim r.provisioning_state [
  | none ↦ some (elim r.error [
    | none ↦ codes "deployment response or provisioning state is nil: " ++ r.shown
    | some e ↦ codes "deployment response or provisioning state is nil: " ++ e.text
  ])
  | some state ↦
      if same state (codes "Failed")
      then some (elim r.message [
        | none ↦ codes "deployment failed with unknown error"
        | some text ↦ codes "deployment failed: " ++ text
      ])
      else none
]

abbrev pub on_deploy : {W : Type 0} → Option ClientError → D W Bool → D W Bool
on_deploy none rest = rest
on_deploy (some e) rest = fail e.text

abbrev pub retry_status : Text → ℕ → DisplayStatus
retry_status name n = record (new_display_vm_status name MachineResourceState.pending false) {
  status_message =
      codes "DNS Conflict - Retrying... " ++ (digit n ++ (codes "/" ++ digit max_retries));
}

abbrev pub waiting_status : Text → ℕ → DisplayStatus
waiting_status name n =
    let count = codes "Retry: " ++ (digit n ++ (codes "/" ++ digit ip_retries)) in
    record (text_status name MachineResourceState.pending (codes "Waiting for IP addresses")) {
      public_ip = count;
      private_ip = count;
    }

abbrev pub provisioned_status : Text → Text → Text → ℕ → DisplayStatus
provisioned_status name public_ip private_ip t =
    record (text_status name MachineResourceState.succeeded (codes "IPs Provisioned")) {
      public_ip = public_ip;
      private_ip = private_ip;
      elapsed_time = t;
    }

module _ {W : Type 0} (plan : AzurePlan) where
  abbrev pub update_display : DisplayStatus → D W (Unit {0})
  update_display = show_status plan.tables

  -- The poll of an attempt, with what a conflict leads to; `false` is a deployment without one.
  abbrev pub on_poll : Text → Option Text → Option ClientError → D W Bool → D W Bool
  on_poll name (some text) e retry = fail text
  on_poll name none none retry = pure false
  on_poll name none (some e) retry = if contains e.text conflict_code then retry else (do
    update_display (text_status name MachineResourceState.failed e.text)
    fail (codes "error deploying template: " ++ e.text))

module _ {W : Type 0} (client : AzureClient W) (plan : AzurePlan) where
  -- The loop, with the turns that are left, the number of the turn, the name and the id of the
  -- machine; it gives whether the last turn was a conflict.
  unfoldable pub deploy_attempts : ℕ → ℕ → Text → Text → Text → Text → Params → D W Bool
  deploy_attempts zero n group name id template params = pure true
  deploy_attempts (suc left) n group name id template params =
      let again : Text → D W Bool = λ unique.
        deploy_attempts left (n + 1) group name id template
          (record params { dns_label_prefix = DnsLabel.boxed (dns_label id unique) }) in
      call (client.deploy_template group (codes "deployment-" ++ name) template params) >>= λ e.
      on_deploy e (
        call client.poll_until_done >>= λ r. on_poll plan name (poll_fault r) r.error (
          call client.generate_unique_id >>= λ unique. do
            update_display plan (retry_status name (n + 1))
            again unique))

  -- The elapsed time is set where there is none yet.
  abbrev pub take_time : Text → Machine → D W (Unit {0})
  take_time name m =
      if m.elapsed_time == 0
      then (call client.since_start >>= λ t. modify name (with_elapsed t))
      else pure tt

  -- The addresses are there.
  abbrev pub on_addresses : Text → Text × Text → D W (Unit {0})
  on_addresses name (public_ip, private_ip) = do
    modify name (with_ips public_ip private_ip)
    at_machine name (take_time name)
    at_machine name
        (λ m. update_display plan (provisioned_status name public_ip private_ip m.elapsed_time))
    modify name vm_succeeded

  -- An error of the addresses in the turn `n`; `last` is whether there is no other.
  abbrev pub on_no_addresses : Text → Bool → ℕ → D W (Unit {0}) → Text → D W (Unit {0})
  on_no_addresses name last n more e =
      if contains e (codes "exceeded maximum retries")
      then (do
        update_display plan
            (text_status name MachineResourceState.failed (codes "Network interface error: " ++ e))
        modify name (with_message (codes "Failed to get IP addresses: " ++ e))
        fail (
            codes "failed to get IP addresses for VM "
            ++ (name ++ (codes ": exceeded maximum retries: " ++ e))))
      else if last
      then (do
        modify name (with_message (codes "Failed to get IP addresses"))
        fail (codes "failed to get IP addresses for VM " ++ (name ++ (codes ": " ++ e))))
      else (do update_display plan (waiting_status name n); more)

  -- The loop that waits for the addresses.
  unfoldable pub address_turns : ℕ → ℕ → Text → Text → D W (Unit {0})
  address_turns zero n group name = pure tt
  address_turns (suc left) n group name =
      try (get_vm_ip_addresses client group name) (on_addresses name)
        (on_no_addresses name (left == 0) (n + 1) (address_turns left (n + 1) group name))

  abbrev pub after_deploy : Bool → Text → Text → D W (Unit {0})
  after_deploy false group name = address_turns ip_retries 0 group name
  after_deploy true group name = do
    update_display plan (
        text_status name MachineResourceState.failed
          (codes "Failed to deploy due to DNS conflict."))
    modify name (with_message (codes "Failed to deploy due to DNS conflict"))

  -- A machine that the deployment has.
  abbrev pub deploy_present : Text → Text → Params → Text → Machine → D W (Unit {0})
  deploy_present name template params group m =
      update_display plan (new_display_vm_status name MachineResourceState.pending false)
      >> (deploy_attempts max_retries 0 group name (plan.machine_id m) template params
          >>= λ conflict. after_deploy conflict group name)

  abbrev pub if_present : Text → Option Machine → (Machine → D W (Unit {0})) → D W (Unit {0})
  if_present name none f = fail (codes "machine " ++ (name ++ codes " not found in deployment"))
  if_present name (some m) f = f m

  -- `deployTemplateWithRetry`
  unfoldable pub deploy_template_with_retry : Text → Text → Params → D W (Unit {0})
  deploy_template_with_retry name template params s =
      if_present name (lookup name s.machines)
        (deploy_present name template params s.resource_group_name) s
