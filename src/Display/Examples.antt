-- ===== src/Display/Examples.antt =====
-- Statuses that are shown for one machine.
use mathlib.Core.Option
use andaime.Base.{
  false, [], ◌∷◌, codes, same, lookup, if◌then◌else◌, ◌≡◌, refl, ◌++◌, some, none, Text, arith,
}
use andaime.Types.{ServiceState, MachineResourceState, service_core_packages, service_docker}
use andaime.Types.Resources.{azure_vm}
use andaime.Machine.{get_service_state, is_complete}
use andaime.Machine.Examples.{azure_machine, azure_tables}
use andaime.Status.{DisplayStatus, no_status, new_display_status_with_text}
use andaime.Ring.{get_lines}
use andaime.Ring.Window.{IsValid, keep}
use andaime.Display.Batch.{apply_batched_updates-shown_all, shown_all}
use andaime.Display.{
  DisplayModel, apply_batched_updates, shown_message, trim_space, rune_count, instance_is_up,
  update_machine_status, UpdateType, UpdateData, process_update,
}
use andaime.Display.Services.{with_text_resets_core_packages}
use andaime.Display.Updates.{effect, process_update_once}

short_message : rune_count (shown_message (codes "  up ")) ≡ 40
unfolding shown_message trim_space rune_count
short_message = refl

instance_is_down : instance_is_up azure_machine ≡ false
unfolding instance_is_up
instance_is_down = refl

with_text_resets_core_packages_example :
    let m' =
      (update_machine_status azure_tables
        (new_display_status_with_text
          (codes "one-vm")
          azure_vm
          MachineResourceState.succeeded
          (codes "done"))
        azure_machine).1 in
    (get_service_state m' service_core_packages ≡ ServiceState.not_started)
    × (is_complete m' ≡ false)
with_text_resets_core_packages_example =
    with_text_resets_core_packages azure_tables (codes "one-vm") azure_vm
      MachineResourceState.succeeded (codes "done") azure_machine instance_is_down

abbrev docker_update : UpdateData
docker_update = record {
  update_type = UpdateType.service;
  resource_type = [];
  resource_state = MachineResourceState.unknown;
  service_type = service_docker;
  service_state = ServiceState.succeeded;
}

process_update_once_example :
    lookup
      (codes "one-vm")
      (process_update 5 (codes "one-vm") docker_update ((codes "one-vm", azure_machine) ∷ []))
    ≡ (if same (codes "one-vm") (codes "one-vm")
        then Option.map
            (effect 5 docker_update.update_type docker_update)
            (lookup (codes "one-vm") ((codes "one-vm", azure_machine) ∷ []))
        else lookup (codes "one-vm") ((codes "one-vm", azure_machine) ∷ []))
process_update_once_example =
    process_update_once 5 (codes "one-vm") (codes "one-vm") docker_update
      ((codes "one-vm", azure_machine) ∷ [])

abbrev status_of_one_vm : DisplayStatus
status_of_one_vm = record no_status { name = codes "one-vm"; status_message = codes "up" }

abbrev batch_of_three : DisplayModel
batch_of_three = record {
  machines = (codes "one-vm", azure_machine) ∷ [];
  update_buffer = record { lines = no_status ∷ no_status ∷ []; cur = 0; full = false };
  batched_updates = some status_of_one_vm ∷ none ∷ some no_status ∷ [];
}

batch_of_three-IsValid : IsValid batch_of_three.update_buffer
batch_of_three-IsValid = record { in_bounds = omega arith }

apply_batched_updates-shown_all_example :
    (d' : DisplayModel) × (apply_batched_updates azure_tables batch_of_three ≡ some d')
    × (d'.batched_updates ≡ [])
    × (get_lines d'.update_buffer
        ≡ keep 2 (get_lines batch_of_three.update_buffer ++ status_of_one_vm ∷ []))
    × ((k : Text)
        → lookup k d'.machines
          ≡ Option.map
              (shown_all azure_tables k (status_of_one_vm ∷ []))
              (lookup k batch_of_three.machines))
apply_batched_updates-shown_all_example =
    apply_batched_updates-shown_all azure_tables batch_of_three batch_of_three-IsValid
