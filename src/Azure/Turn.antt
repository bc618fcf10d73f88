-- ===== src/Azure/Turn.antt =====
-- What the turn for one machine keeps, and what it gives: a machine that is up.
use andaime.Base.{
  false, Option, none, some, Text, Dict, lookup, insert, lookup-insert, same, ◌≡◌, refl, ◌∙◌, sym,
  subst, same_refl, arith, some_eq,
}
use andaime.Types.{MachineResourceState, ServiceState, service_ssh}
use andaime.Types.Resources.{azure_vm}
use andaime.Machine.{Machine, get_service_state}
use andaime.Machine.Services.{get_service_state-set_self}
use andaime.Status.{new_display_status}
use andaime.Azure.{ClientError, Reply, got, failed, AzureClient, AzurePlan, D, modify}
use andaime.Azure.Template.{vm_succeeded, update_display, prepare_deployment_params}
use andaime.Azure.Create.{
  get_and_prepare_template, from_answer, template_text, map_text, record_machine, deploy_machine,
  not_deployed, ssh_state, after_config, after_wait, configure_ssh, create_machine,
}
use andaime.Azure.Rules.{
  Keeps, Gives, bind-Keeps, then-Keeps, try-Keeps, pure-Keeps, fail-Keeps, call-Keeps, if-Keeps,
  at-Keeps, bind-Gives, then-Gives, then-Gives_first, try-Gives, try-Gives_last, fail-Gives,
  if-Gives, at-Gives, modify-Gives,
}
use andaime.Azure.Keeps.{Closed}
use andaime.Azure.Frame.{
  HasVm, KeepsVm, vm_succeeded-HasVm, shown-Keeps, text-Keeps, vm_status-Keeps, vm-Keeps, ssh-Keeps,
  deploy_template_with_retry-Keeps,
}

-- The VM and the SSH of the machine have succeeded.
abbrev pub HasSsh : Machine → Type 0
HasSsh m = get_service_state m service_ssh ≡ ServiceState.succeeded

abbrev pub At : Text → (Machine → Type 0) → Dict Machine → Type 0
At k Q ms = (m : Machine) × (lookup k ms ≡ some m) × Q m

abbrev pub Up : Text → Dict Machine → Type 0
Up k ms = At k (λ m. HasVm m × HasSsh m) ms

pub insert-At :
    (k : Text) (Q : Machine → Type 0) (ms : Dict Machine) (m : Machine)
    → Q m
    → At k Q (insert k m ms)
insert-At k Q ms m q = (m, lookup-insert k k m ms ∙ ground (arith, same_refl k), q)

vm-Closed : (k : Text) → Closed k KeepsVm (At k HasVm)
vm-Closed k ms m m' e r (n, e', h) =
    insert-At k HasVm ms m' (r (subst HasVm (some_eq n m (sym e' ∙ e)) h))

-- A write of one machine leaves the others up.
pub other-Closed : (j k : Text) → same j k ≡ false → Closed j KeepsVm (Up k)
other-Closed j k d ms m m' e r (n, e', h) = (n, lookup-insert j k m' ms ∙ ground (arith, d, e'), h)

module _ {W : Type 0} (client : AzureClient W) (plan : AzurePlan) where
  module _ (k : Text) (P : Dict Machine → Type 0) (c : Closed k KeepsVm P) where
    from_answer-Keeps : (t : Text) (a : Reply Text) → Keeps P (from_answer client plan t a)
    from_answer-Keeps t (got x) = pure-Keeps P _
    from_answer-Keeps t (failed e) = fail-Keeps P _ _

    template-Keeps : Keeps P (get_and_prepare_template client plan)
    unfolding get_and_prepare_template
    template-Keeps =
        bind-Keeps P _ _ (from_answer-Keeps template_text client.get_arm_template)
          (λ t. from_answer-Keeps map_text (client.unmarshal t))

    record-Keeps : Keeps P (record_machine client plan k)
    record-Keeps = at-Keeps P k _ (λ m s p. p)

    new_status-Keeps :
        (v : MachineResourceState)
        → Keeps P (update_display {W = W} plan (new_display_status k k azure_vm v))
    unfolding new_display_status
    new_status-Keeps v = shown-Keeps client plan k P c (new_display_status k k azure_vm v) refl

    deploy_machine-Keeps : Keeps P (deploy_machine client plan k)
    unfolding deploy_machine
    deploy_machine-Keeps = then-Keeps P _ _ (new_status-Keeps _) (
        if-Keeps P _ _ _ (fail-Keeps P _ _) (
          then-Keeps P _ _
            (at-Keeps P k _ (λ m. bind-Keeps P _ _ (call-Keeps P _) (λ u.
              bind-Keeps P _ _ template-Keeps (λ t.
                deploy_template_with_retry-Keeps client plan k P c t
                  (prepare_deployment_params plan m u)))))
            (then-Keeps P _ _ (vm-Keeps client plan k P c) record-Keeps)))

    not_deployed-Keeps : (location e : Text) → Keeps P (not_deployed client plan location k e)
    not_deployed-Keeps location e =
        if-Keeps P _ _ _ (then-Keeps P _ _ (text-Keeps client plan k P c _ _) (fail-Keeps P _ _))
          (then-Keeps P _ _ (text-Keeps client plan k P c _ _) (fail-Keeps P _ _))

    after_wait-Keeps :
        (location : Text) (e : Option ClientError) → Keeps P (after_wait client plan location k e)
    after_wait-Keeps location none =
        then-Keeps P _ _ (text-Keeps client plan k P c _ _) (ssh-Keeps client plan k P c _)
    after_wait-Keeps location (some e) =
        then-Keeps P _ _ (text-Keeps client plan k P c _ _)
          (then-Keeps P _ _ (ssh-Keeps client plan k P c _) (fail-Keeps P _ _))

    after_config-Keeps :
        (location : Text) (e : Option ClientError) (m : D W (Unit {0}))
        → Keeps P m
        → Keeps P (after_config client plan location k e m)
    after_config-Keeps location none m h = h
    after_config-Keeps location (some e) m h =
        then-Keeps P _ _ (text-Keeps client plan k P c _ _) (fail-Keeps P _ _)

    configure_ssh-Keeps : (location : Text) → Keeps P (configure_ssh client plan location k)
    configure_ssh-Keeps location = then-Keeps P _ _ (text-Keeps client plan k P c _ _) (
        then-Keeps P _ _ (ssh-Keeps client plan k P c _) (
          at-Keeps P k _ (λ m. bind-Keeps P _ _ (call-Keeps P _) (λ e.
            after_config-Keeps location e _
              (bind-Keeps P _ _ (call-Keeps P _) (after_wait-Keeps location))))))

    pub create_machine-Keeps : (location : Text) → Keeps P (create_machine client plan location k)
    unfolding create_machine
    create_machine-Keeps location = then-Keeps P _ _ (vm_status-Keeps client plan k P c _) (
        try-Keeps P _ _ _ deploy_machine-Keeps (λ _. configure_ssh-Keeps location)
          (not_deployed-Keeps location))

  write-HasVm : (k : Text) → Gives {W = W} (At k HasVm) (modify k vm_succeeded)
  write-HasVm k =
      modify-Gives (At k HasVm) k vm_succeeded
        (λ ms m e. insert-At k HasVm ms (vm_succeeded m) (vm_succeeded-HasVm m))

  write-HasSsh :
      (k : Text) → Gives {W = W} (At k HasSsh) (modify k (ssh_state ServiceState.succeeded))
  write-HasSsh k = modify-Gives (At k HasSsh) k (ssh_state ServiceState.succeeded) (λ ms m e.
      insert-At k HasSsh ms (ssh_state ServiceState.succeeded m)
        (get_service_state-set_self m service_ssh ServiceState.succeeded))

  pub deploy_machine-HasVm : (k : Text) → Gives (At k HasVm) (deploy_machine client plan k)
  unfolding deploy_machine
  deploy_machine-HasVm k =
      let P = At k HasVm in
      then-Gives P _ _ (
        if-Gives P _ _ _ (fail-Gives P _ _) (
          then-Gives P _ _
            (then-Gives_first P _ _ (write-HasVm k) (record-Keeps k P (vm-Closed k)))))

  not_deployed-Gives :
      (P : Dict Machine → Type 0) (location k e : Text)
      → Gives P (not_deployed client plan location k e)
  not_deployed-Gives P location k e =
      if-Gives P _ _ _ (then-Gives P _ _ (fail-Gives P _ _)) (then-Gives P _ _ (fail-Gives P _ _))

  after_wait-HasSsh :
      (location k : Text) (e : Option ClientError)
      → Gives (At k HasSsh) (after_wait client plan location k e)
  after_wait-HasSsh location k none = then-Gives (At k HasSsh) _ _ (write-HasSsh k)
  after_wait-HasSsh location k (some e) =
      then-Gives (At k HasSsh) _ _ (then-Gives (At k HasSsh) _ _ (fail-Gives (At k HasSsh) _ _))

  after_config-HasSsh :
      (location k : Text) (e : Option ClientError) (m : D W (Unit {0}))
      → Gives (At k HasSsh) m
      → Gives (At k HasSsh) (after_config client plan location k e m)
  after_config-HasSsh location k none m h = h
  after_config-HasSsh location k (some e) m h =
      then-Gives (At k HasSsh) _ _ (fail-Gives (At k HasSsh) _ _)

  configure_ssh-HasSsh :
      (location k : Text) → Gives (At k HasSsh) (configure_ssh client plan location k)
  configure_ssh-HasSsh location k =
      let P = At k HasSsh in
      then-Gives P _ _ (
        then-Gives P _ _ (
          at-Gives P k _ (λ m. bind-Gives P _ _ (λ e.
            after_config-HasSsh location k e _ (bind-Gives P _ _ (after_wait-HasSsh location k))))))

  both-Up : (k : Text) (ms : Dict Machine) → At k HasVm ms → At k HasSsh ms → Up k ms
  both-Up k ms (m, e, v) (n, e', s) = (m, e, (v, subst HasSsh (some_eq n m (sym e' ∙ e)) s))

  -- A turn that ends well leaves its machine up.
  pub create_machine-Up : (location k : Text) → Gives (Up k) (create_machine client plan location k)
  unfolding create_machine
  create_machine-Up location k s i =
      let vm : Gives (At k HasVm) (create_machine client plan location k) =
        then-Gives (At k HasVm) _ _ (
          try-Gives (At k HasVm) _ _ _ (deploy_machine-HasVm k)
            (λ _. configure_ssh-Keeps k (At k HasVm) (vm-Closed k) location)
            (not_deployed-Gives (At k HasVm) location k)) in
      let ssh : Gives (At k HasSsh) (create_machine client plan location k) =
        then-Gives (At k HasSsh) _ _ (
          try-Gives_last (At k HasSsh) _ _ _ (λ _. configure_ssh-HasSsh location k)
            (not_deployed-Gives (At k HasSsh) location k)) in
      both-Up k _ (vm s i) (ssh s i)
