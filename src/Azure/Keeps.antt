-- ===== src/Azure/Keeps.antt =====
-- What a status and a write do to a property of the machines.
use andaime.Base.{
  Option, none, some, Text, Dict, lookup, insert, is_empty, ◌≡◌, refl, ◌∙◌, sym, subst, Bool-cases,
  Option-cases, inl, inr, arith,
}
use andaime.Location.{Tables}
use andaime.Machine.{Machine, set_service_state}
use andaime.Machine.Create.{set_display_location}
use andaime.Status.{DisplayStatus}
use andaime.Display.{
  updated_machines, update_machine_status, update_service_states, service_switch,
  update_orchestrator_status, update_elapsed_time, update_ips, update_location,
  update_status_message,
}
use andaime.Azure.{modify, at_machine, update_machines, show_status, halt}
use andaime.Azure.Rules.{Keeps}

-- Every write of the machine `k` that allows what it replaces keeps `P`.
abbrev pub Closed : Text → (Machine → Machine → Type 0) → (Dict Machine → Type 0) → Type 0
Closed k R P =
    (ms : Dict Machine) (m m' : Machine) → lookup k ms ≡ some m → R m m' → P ms → P (insert k m' ms)

update_status_message-resources :
    (n : DisplayStatus) (m : Machine)
    → (update_status_message n m).machine_resources ≡ m.machine_resources
unfolding update_status_message
update_status_message-resources n m = ground arith

update_location-resources :
    (tables : Tables) (n : DisplayStatus) (m : Machine)
    → (update_location tables n m).machine_resources ≡ m.machine_resources
unfolding update_location set_display_location
update_location-resources tables n m = ground arith

update_ips-resources :
    (n : DisplayStatus) (m : Machine) → (update_ips n m).machine_resources ≡ m.machine_resources
unfolding update_ips
update_ips-resources n m = ground arith

update_elapsed_time-resources :
    (n : DisplayStatus) (m : Machine)
    → (update_elapsed_time n m).machine_resources ≡ m.machine_resources
unfolding update_elapsed_time
update_elapsed_time-resources n m = ground arith

update_orchestrator_status-resources :
    (n : DisplayStatus) (m : Machine)
    → (update_orchestrator_status n m).machine_resources ≡ m.machine_resources
unfolding update_orchestrator_status
update_orchestrator_status-resources n m = ground arith

service_switch-resources :
    (n : DisplayStatus) (m : Machine)
    → (service_switch n m).1.machine_resources ≡ m.machine_resources
unfolding service_switch set_service_state
service_switch-resources n m = ground arith

update_service_states-resources :
    (n : DisplayStatus) (m : Machine)
    → (update_service_states n m).1.machine_resources ≡ m.machine_resources
unfolding update_service_states
update_service_states-resources n m = ground (arith, service_switch-resources n m)

-- No status changes the resources of a machine.
pub shown-machine_resources :
    (tables : Tables) (n : DisplayStatus) (m : Machine)
    → (update_machine_status tables n m).1.machine_resources ≡ m.machine_resources
unfolding update_machine_status
shown-machine_resources tables n m =
    let a = update_status_message n m in
    let b = update_location tables n a in
    let d = update_ips n b in
    let e = update_elapsed_time n d in
    update_service_states-resources n (update_orchestrator_status n e)
    ∙ update_orchestrator_status-resources n e
    ∙ update_elapsed_time-resources n d
    ∙ update_ips-resources n b
    ∙ update_location-resources tables n a
    ∙ update_status_message-resources n m

module _ (k : Text) (R : Machine → Machine → Type 0) (P : Dict Machine → Type 0)
    (c : Closed k R P) where
  updated-Keeps :
      (tables : Tables) (n : DisplayStatus)
      → n.name ≡ k
      → ((m : Machine) → R m (update_machine_status tables n m).1)
      → (ms : Dict Machine) → P ms
      → (o : Option Machine) → lookup n.name ms ≡ o
      → P (updated_machines tables n ms o)
  updated-Keeps tables n e r ms p none h = p
  updated-Keeps tables n e r ms p (some m) h =
      subst (λ j. Closed j R P) (sym e) c ms m (update_machine_status tables n m).1 h (r m) p

module _ {W : Type 0} (k : Text) (R : Machine → Machine → Type 0) (P : Dict Machine → Type 0)
    (c : Closed k R P) where
  pub modify-Keeps :
      (f : Machine → Machine) → ((m : Machine) → R m (f m)) → Keeps P (modify {W = W} k f)
  unfolding modify at_machine update_machines halt
  modify-Keeps f r s p = elim (Option-cases (lookup k s.machines)) [
    | inl e ↦ rw e p
    | inr (m, e) ↦ rw e (c s.machines m (f m) e (r m) p)
  ]

  pub show-Keeps :
      (tables : Tables) (n : DisplayStatus)
      → n.name ≡ k
      → ((m : Machine) → R m (update_machine_status tables n m).1)
      → Keeps P (show_status {W = W} tables n)
  unfolding show_status
  show-Keeps tables n e r s p = elim (Bool-cases (is_empty n.name)) [
    | inl h ↦ rw h p
    | inr h ↦ rw h (updated-Keeps k R P c tables n e r s.machines p (lookup n.name s.machines) refl)
  ]
