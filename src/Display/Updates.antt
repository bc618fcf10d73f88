-- ===== src/Display/Updates.antt =====
-- The queue's updates: what `ProcessUpdate` does to the machines.
use mathlib.Core.Option
use andaime.Base.{
  ℕ, same_iff, [], ◌∷◌, Text, same, same_refl, to_lower, Dict, lookup, insert, lookup-insert,
  lookup-insert_self, if◌then◌else◌, ◌≡◌, refl, inl, inr, Option-cases, arith,
}
use andaime.Types.{ServiceState, MachineResourceState}
use andaime.Machine.{
  Machine, set_machine_resource_state, set_service_state, set_complete, with_state, with_service,
}
use andaime.Display.{UpdateType, UpdateData, update_func, process_switch, process_update}

insert-insert {ℓ} :
    {V : Type ℓ} (k : Text) (v w : V) (m : Dict V) → insert k w (insert k v m) ≡ insert k w m
unfolding insert
insert-insert k v w [] = rw (same_refl k)
insert-insert k v w ((j, u) ∷ m) = ground (arith, insert-insert k v w m)

-- Storing the state of a resource twice is storing it once; so for a service.
set_state_twice :
    (m : Machine) (n : Text) (v : MachineResourceState)
    → set_machine_resource_state (set_machine_resource_state m n v) n v
      ≡ set_machine_resource_state m n v
unfolding set_machine_resource_state
set_state_twice m n v =
    let r = with_state (lookup (to_lower n) m.machine_resources) n v in
    ground (
      arith,
      lookup-insert_self (to_lower n) r m.machine_resources,
      insert-insert (to_lower n) r r m.machine_resources,
    )

set_service_twice :
    (m : Machine) (n : Text) (v : ServiceState)
    → set_service_state (set_service_state m n v) n v ≡ set_service_state m n v
unfolding set_service_state
set_service_twice m n v =
    let s = with_service (lookup n m.machine_services) n v in
    ground
      (arith, lookup-insert_self n s m.machine_services, insert-insert n s s m.machine_services)

-- The specification of an update: its one effect on a machine.
abbrev pub effect : ℕ → UpdateType → UpdateData → Machine → Machine
effect now UpdateType.complete u m = set_complete now m
effect now UpdateType.resource u m = set_machine_resource_state m u.resource_type u.resource_state
effect now UpdateType.service u m = set_service_state m u.service_type u.service_state
effect now UpdateType.other u m = m

process_switch-effect :
    (now : ℕ) (t : UpdateType) (u : UpdateData) (m : Machine)
    → process_switch now t u m ≡ effect now t u m
unfolding process_switch update_func
process_switch-effect now UpdateType.complete u m = refl
process_switch-effect now UpdateType.resource u m =
    set_state_twice m u.resource_type u.resource_state
process_switch-effect now UpdateType.service u m =
    set_service_twice m u.service_type u.service_state
process_switch-effect now UpdateType.other u m = refl

-- An update has its effect once, although `ProcessUpdate` writes the state and then calls the
-- action's own function, which writes it again. Every other machine is left, and no update adds
-- a machine.
pub process_update_once :
    (now : ℕ) (name k : Text) (u : UpdateData) (ms : Dict Machine)
    → lookup k (process_update now name u ms) ≡ (
        if same name k
        then Option.map (effect now u.update_type u) (lookup name ms)
        else lookup k ms)
unfolding process_update
process_update_once now name k u ms = elim (Option-cases (lookup name ms)) [
  | inl e ↦ rw (e, process_update) (ground (arith, same_iff name k))
  | inr (m, e) ↦
      rw (e, process_update)
        (ground (
          arith,
          lookup-insert name k (process_switch now u.update_type u m) ms,
          process_switch-effect now u.update_type u m,
        ))
]
