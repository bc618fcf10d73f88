-- ===== src/Status/Monotone.antt =====
-- What `machineNeedsUpdating` does to the stored state of a resource.
use Prim.Native.Nat.{max}
use andaime.Base.{true, false, [], ◌∷◌, Text, same, same_refl, to_lower, ◌≡◌, refl, ◌≢◌, arith}
use andaime.Types.{MachineResource, MachineResourceState, resource_code}
use andaime.Types.Resources.{convert_from_azure_string_to_resource_state, get_azure_resource_type}
use andaime.Machine.{
  Machine, get_machine_resource, get_machine_resource_state, set_machine_resource,
}
use andaime.Machine.Resources.{get_machine_resource-set_resource}
use andaime.Status.{is_no_resource, machine_needs_updating}

is_no_resource-state :
    (r : MachineResource) → is_no_resource r ≡ true → resource_code r.resource_state ≡ 0
unfolding is_no_resource
is_no_resource-state r h = ground arith

stored_state :
    (m : Machine) (t : Text) (v : MachineResourceState)
    → get_machine_resource_state (set_machine_resource m t v) t ≡ v
stored_state m t v =
    ground (arith, get_machine_resource-set_resource m t t v, same_refl (to_lower t))

-- After a report on a resource its stored state is the later of the old one and the reported
-- one, in the order of the constants, so a report never moves a state back. Every other resource
-- keeps its entry, and a report that is not called an update changes nothing.
pub machine_needs_updating-max :
    (m : Machine) (t s : Text)
    → let current = convert_from_azure_string_to_resource_state s in
      let (updated, m') = machine_needs_updating m t s in
      (resource_code (get_machine_resource_state m' t)
        ≡ max (resource_code (get_machine_resource_state m t)) (resource_code current))
      × ((k : Text)
          → same (to_lower t) (to_lower k) ≡ false
          → get_machine_resource m' k ≡ get_machine_resource m k)
      × (updated ≡ false → m' ≡ m)
unfolding machine_needs_updating
machine_needs_updating-max m t s =
    let current = convert_from_azure_string_to_resource_state s in
    (
      ground (arith, stored_state m t current, is_no_resource-state (get_machine_resource m t)),
      λ k h. ground (arith, get_machine_resource-set_resource m t k current),
      ground arith,
    )

new_entry :
    (t : Text) (v : MachineResourceState)
    → t ≢ []
    → is_no_resource (record {
      resource_name = t;
      resource_type = get_azure_resource_type t;
      resource_state = v;
      resource_value = [];
    })
      ≡ false
unfolding is_no_resource
new_entry [] v h = absurd (h refl)
new_entry (c ∷ t) v h = refl

-- The same report, repeated, is not an update: the display is told once.
pub machine_needs_updating_once :
    (m : Machine) (t s : Text)
    → t ≢ []
    → let m' = (machine_needs_updating m t s).1 in machine_needs_updating m' t s ≡ (false, m')
unfolding machine_needs_updating
machine_needs_updating_once m t s h =
    let current = convert_from_azure_string_to_resource_state s in
    ground (
      arith,
      get_machine_resource-set_resource m t t current,
      same_refl (to_lower t),
      new_entry t current h,
    )
