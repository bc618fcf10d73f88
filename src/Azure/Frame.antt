-- ===== src/Azure/Frame.antt =====
-- What the deployment of one machine keeps: the other machines, and a VM that has succeeded.
use andaime.Base.{
  ℕ, zero, suc, ◌+◌, ◌==◌, Bool, true, false, Option, none, some, Text, Dict, lookup, ◌≡◌, refl,
  ◌∙◌, same_refl, to_lower, arith,
}
use andaime.Types.{MachineResourceState, ServiceState}
use andaime.Types.Resources.{azure_vm}
use andaime.Machine.{Machine, get_machine_resource, get_machine_resource_state, set_service_state}
use andaime.Machine.Resources.{get_machine_resource_state-set}
use andaime.Status.{
  DisplayStatus, new_display_status_with_text, new_display_vm_status, new_display_status,
}
use andaime.Azure.{ClientError, Params, AzureClient, AzurePlan, D, modify}
use andaime.Azure.Address.{ip_retries, get_vm_ip_addresses}
use andaime.Azure.Template.{
  max_retries, with_message, with_ips, with_elapsed, vm_succeeded, text_status, update_display,
  poll_fault, on_poll, retry_status, on_deploy, deploy_attempts, waiting_status, provisioned_status,
  take_time, on_addresses, on_no_addresses, address_turns, after_deploy, if_present,
  deploy_template_with_retry,
}
use andaime.Azure.Create.{ssh_state}
use andaime.Azure.Rules.{
  Keeps, bind-Keeps, then-Keeps, try-Keeps, pure-Keeps, fail-Keeps, call-Keeps, if-Keeps, at-Keeps,
}
use andaime.Azure.Keeps.{Closed, shown-machine_resources, modify-Keeps, show-Keeps}
use andaime.Azure.Asking.{address_attempts-Keeps}

-- The VM of the machine has succeeded.
abbrev pub HasVm : Machine → Type 0
HasVm m = get_machine_resource_state m azure_vm.resource_string ≡ MachineResourceState.succeeded

abbrev pub KeepsVm : Machine → Machine → Type 0
KeepsVm m m' = HasVm m → HasVm m'

vm-of_resources : (m m' : Machine) → m'.machine_resources ≡ m.machine_resources → KeepsVm m m'
unfolding get_machine_resource
vm-of_resources m m' e h = ground (arith, e, h)

pub vm_succeeded-HasVm : (m : Machine) → HasVm (vm_succeeded m)
vm_succeeded-HasVm m =
    get_machine_resource_state-set m azure_vm.resource_string azure_vm.resource_string
      MachineResourceState.succeeded
    ∙ ground (arith, same_refl (to_lower azure_vm.resource_string))

ssh_state-KeepsVm : (v : ServiceState) (m : Machine) → KeepsVm m (ssh_state v m)
unfolding set_service_state
ssh_state-KeepsVm v m = vm-of_resources m (ssh_state v m) refl

text_status-name : (k : Text) (v : MachineResourceState) (t : Text) → (text_status k v t).name ≡ k
unfolding new_display_status_with_text
text_status-name k v t = refl

module _ {W : Type 0} (client : AzureClient W) (plan : AzurePlan) (k : Text)
    (P : Dict Machine → Type 0) (c : Closed k KeepsVm P) where
  pub shown-Keeps : (n : DisplayStatus) → n.name ≡ k → Keeps P (update_display {W = W} plan n)
  shown-Keeps n e =
      show-Keeps k KeepsVm P c plan.tables n e
        (λ m. vm-of_resources m _ (shown-machine_resources plan.tables n m))

  pub text-Keeps :
      (v : MachineResourceState) (t : Text)
      → Keeps P (update_display {W = W} plan (text_status k v t))
  text-Keeps v t = shown-Keeps (text_status k v t) (text_status-name k v t)

  pub vm_status-Keeps :
      (v : MachineResourceState)
      → Keeps P (update_display {W = W} plan (new_display_vm_status k v false))
  unfolding new_display_vm_status new_display_status
  vm_status-Keeps v = shown-Keeps (new_display_vm_status k v false) refl

  pub written-Keeps :
      (f : Machine → Machine) → ((m : Machine) → KeepsVm m (f m)) → Keeps P (modify {W = W} k f)
  written-Keeps = modify-Keeps k KeepsVm P c

  message-Keeps : (t : Text) → Keeps P (modify {W = W} k (with_message t))
  message-Keeps t = written-Keeps (with_message t) (λ m. vm-of_resources m _ refl)

  pub vm-Keeps : Keeps P (modify {W = W} k vm_succeeded)
  vm-Keeps = written-Keeps vm_succeeded (λ m _. vm_succeeded-HasVm m)

  pub ssh-Keeps : (v : ServiceState) → Keeps P (modify {W = W} k (ssh_state v))
  ssh-Keeps v = written-Keeps (ssh_state v) (ssh_state-KeepsVm v)

  on_poll-Keeps :
      (t : Option Text) (e : Option ClientError) (m : D W Bool)
      → Keeps P m
      → Keeps P (on_poll plan k t e m)
  on_poll-Keeps (some t) e m h = fail-Keeps P _ _
  on_poll-Keeps none none m h = pure-Keeps P _
  on_poll-Keeps none (some e) m h =
      if-Keeps P _ _ _ h (then-Keeps P _ _ (text-Keeps _ _) (fail-Keeps P _ _))

  on_deploy-Keeps : (e : Option ClientError) (m : D W Bool) → Keeps P m → Keeps P (on_deploy e m)
  on_deploy-Keeps none m h = h
  on_deploy-Keeps (some e) m h = fail-Keeps P _ _

  retry_status-Keeps : (n : ℕ) → Keeps P (update_display {W = W} plan (retry_status k n))
  unfolding new_display_vm_status new_display_status
  retry_status-Keeps n = shown-Keeps (retry_status k n) refl

  deploy_attempts-Keeps :
      (left n : ℕ) (group id template : Text) (params : Params)
      → Keeps P (deploy_attempts client plan left n group k id template params)
  unfolding deploy_attempts
  deploy_attempts-Keeps zero n group id template params = pure-Keeps P _
  deploy_attempts-Keeps (suc left) n group id template params =
      bind-Keeps P _ _ (call-Keeps P _) (λ e. on_deploy-Keeps e _ (
        bind-Keeps P _ _ (call-Keeps P _) (λ r. on_poll-Keeps (poll_fault r) r.error _ (
          bind-Keeps P _ _ (call-Keeps P _) (λ unique.
            then-Keeps P _ _ (retry_status-Keeps (n + 1))
              (deploy_attempts-Keeps left (n + 1) group id template _))))))

  take_time-Keeps : (m : Machine) → Keeps P (take_time client plan k m)
  take_time-Keeps m =
      if-Keeps P _ _ _
        (bind-Keeps P _ _ (call-Keeps P _)
          (λ t. written-Keeps (with_elapsed t) (λ m. vm-of_resources m _ refl)))
        (pure-Keeps P _)

  provisioned-Keeps :
      (a b : Text) (t : ℕ) → Keeps P (update_display {W = W} plan (provisioned_status k a b t))
  unfolding new_display_status_with_text
  provisioned-Keeps a b t = shown-Keeps (provisioned_status k a b t) refl

  on_addresses-Keeps : (ips : Text × Text) → Keeps P (on_addresses client plan k ips)
  on_addresses-Keeps (a, b) =
      then-Keeps P _ _ (written-Keeps (with_ips a b) (λ m. vm-of_resources m _ refl)) (
        then-Keeps P _ _ (at-Keeps P k _ take_time-Keeps)
          (then-Keeps P _ _ (at-Keeps P k _ (λ m. provisioned-Keeps a b m.elapsed_time)) vm-Keeps))

  waiting-Keeps : (n : ℕ) → Keeps P (update_display {W = W} plan (waiting_status k n))
  unfolding new_display_status_with_text
  waiting-Keeps n = shown-Keeps (waiting_status k n) refl

  on_no_addresses-Keeps :
      (last : Bool) (n : ℕ) (more : D W (Unit {0})) (e : Text)
      → Keeps P more
      → Keeps P (on_no_addresses client plan k last n more e)
  on_no_addresses-Keeps last n more e h =
      if-Keeps P _ _ _
        (then-Keeps P _ _ (text-Keeps _ _) (then-Keeps P _ _ (message-Keeps _) (fail-Keeps P _ _)))
        (if-Keeps P last _ _ (then-Keeps P _ _ (message-Keeps _) (fail-Keeps P _ _))
          (then-Keeps P _ _ (waiting-Keeps n) h))

  address_turns-Keeps :
      (left n : ℕ) (group : Text) → Keeps P (address_turns client plan left n group k)
  unfolding address_turns get_vm_ip_addresses
  address_turns-Keeps zero n group = pure-Keeps P _
  address_turns-Keeps (suc left) n group =
      try-Keeps P _ _ _ (address_attempts-Keeps client group P ip_retries k) on_addresses-Keeps
        (λ e.
          on_no_addresses-Keeps (left == 0) (n + 1) _ e (address_turns-Keeps left (n + 1) group))

  after_deploy-Keeps : (b : Bool) (group : Text) → Keeps P (after_deploy client plan b group k)
  after_deploy-Keeps false group = address_turns-Keeps ip_retries 0 group
  after_deploy-Keeps true group = then-Keeps P _ _ (text-Keeps _ _) (message-Keeps _)

  if_present-Keeps :
      (o : Option Machine) (f : Machine → D W (Unit {0}))
      → ((m : Machine) → Keeps P (f m))
      → Keeps P (if_present client plan k o f)
  if_present-Keeps none f h = fail-Keeps P _ _
  if_present-Keeps (some m) f h = h m

  pub deploy_template_with_retry-Keeps :
      (template : Text) (params : Params)
      → Keeps P (deploy_template_with_retry client plan k template params)
  unfolding deploy_template_with_retry
  deploy_template_with_retry-Keeps template params s p =
      if_present-Keeps (lookup k s.machines) _
        (λ m. then-Keeps P _ _ (vm_status-Keeps MachineResourceState.pending) (
          bind-Keeps P _ _
            (deploy_attempts-Keeps max_retries 0 s.resource_group_name _ template params)
            (λ b. after_deploy-Keeps b s.resource_group_name)))
        s p
