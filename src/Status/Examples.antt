-- ===== src/Status/Examples.antt =====
-- Statuses and reports on one machine.
use andaime.Base.{true, false, Text, codes, same, to_lower, contains, has_prefix, ◌≡◌, refl}
use Prim.Native.Nat.{max}
use andaime.Types.{ProvisioningStage, resource_code}
use andaime.Types.Resources.{convert_from_azure_string_to_resource_state}
use andaime.Machine.{get_machine_resource, get_machine_resource_state}
use andaime.Machine.Create.{no_machine}
use andaime.Status.{
  DisplayStatus, no_status, label, stage_text, update_only_changed_status, machine_needs_updating,
}
use andaime.Status.Monotone.{machine_needs_updating-max}

abbrev spot_update : DisplayStatus
spot_update = record no_status {
  status_message = codes "up";
  stage = ProvisioningStage.ssh_configured;
  spot_instance = true;
}

spot_message :
    (update_only_changed_status 7 no_status spot_update).status_message
    ≡ codes "[Spot] [SSH Configured] up"
unfolding update_only_changed_status label stage_text contains has_prefix
spot_message = refl

machine_needs_updating-max_example :
    let current = convert_from_azure_string_to_resource_state (codes "Succeeded") in
    let (updated, m') = machine_needs_updating no_machine (codes "VM") (codes "Succeeded") in
    (resource_code (get_machine_resource_state m' (codes "VM"))
      ≡ max
          (resource_code (get_machine_resource_state no_machine (codes "VM")))
          (resource_code current))
    × ((k : Text)
        → same (to_lower (codes "VM")) (to_lower k) ≡ false
        → get_machine_resource m' k ≡ get_machine_resource no_machine k)
    × (updated ≡ false → m' ≡ no_machine)
machine_needs_updating-max_example =
    machine_needs_updating-max no_machine (codes "VM") (codes "Succeeded")
