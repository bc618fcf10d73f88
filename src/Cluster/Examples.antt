-- ===== src/Cluster/Examples.antt =====
-- An orchestrator and a worker, on hosts that answer every call.
use andaime.Base.{
  ℕ, true, false, [], ◌∷◌, none, some, Text, codes, same, same_iff, is_empty, Dict, lookup, insert,
  ◌≡◌, refl, ◌↔◌, List, has_prefix, contains, to_lower_byte, arith,
}
use andaime.Types.{MachineResourceState, resource_code, service_code}
use andaime.Machine.{
  Machine, set_machine_resource_state, get_machine_resource, set_service_state, set_complete,
}
use andaime.Machine.Examples.{azure_machine, azure_tables}
use andaime.Cluster.Wait.{
  Turn, wait_for_all_machines_to_reach_state, ReachedInTime, wait_for_all_machines_iff,
}
use andaime.Remote.{ok}
use andaime.Exec.{
  pure, ◌>>=◌, ◌>>◌, on_err, wrapped, finally, on_world, exec, from_result, gets, modify,
  set_service, send,
}
use andaime.Install.{
  new_ssh_config, run_script, install_service, verify_docker, install_core,
  install_docker_and_core_packages, restart_service, restart_error,
}
use andaime.Install.Examples.{host}
use andaime.Node.{
  node_guard, provision_bacalhau_node, check, show, provision_machine, push_and_run,
  setup_node_config_metadata, install_by_script, setup_bacalhau_service, strip_and_parse_json,
  verify_bacalhau_deployment, apply_if_any, run_step, provision_step, node_steps,
}
use andaime.Display.{
  update_machine_status, update_service_states, service_switch, instance_is_up,
  update_orchestrator_status, update_elapsed_time, update_ips, update_location,
  update_status_message,
}
use andaime.Status.{new_display_status_with_text}
use andaime.Cluster.{
  Cluster, Plan, get_machines, find_orchestrator_machine, provision_stored, provision_orchestrator,
  assign_workers, update_machine,
}
use andaime.Cluster.Find.{orchestrators_of, find_orchestrator_machine_iff}
use andaime.Cluster.Assign.{Named, assign_workers-lookup, visited}
use andaime.Cluster.Workers.{HasAddressOf, AllTold, provision_orchestrator_tells_workers}
use andaime.Machine.Services.{listed}

abbrev orchestrator_machine : Machine
orchestrator_machine = record azure_machine { orchestrator = true; public_ip = codes "4.4.4.4" }

abbrev worker_machine : Machine
worker_machine = record azure_machine { name = codes "two-vm"; orchestrator_ip = [] }

abbrev two_machines : Dict Machine
two_machines = (codes "one-vm", orchestrator_machine) ∷ (codes "two-vm", worker_machine) ∷ []

abbrev two : Cluster ℕ
two = record { machines = two_machines; orchestrator_ip = []; world = 0 }

abbrev plan : Plan
plan = record {
  tables = azure_tables;
  settings = [];
  project_id = [];
  custom_script_path = [];
  now = 5;
}

two_machines-Named : Named two_machines
unfolding lookup
two_machines-Named k m h = ground (arith, same_iff (codes "one-vm") k, same_iff (codes "two-vm") k)

orchestrator_runs : (provision_orchestrator host plan two (codes "one-vm")).0 ≡ ok tt
unfolding provision_orchestrator provision_stored assign_workers update_machine get_machines
    provision_bacalhau_node provision_step node_steps run_step provision_machine show check
    push_and_run setup_node_config_metadata install_by_script setup_bacalhau_service
    strip_and_parse_json verify_bacalhau_deployment apply_if_any restart_service restart_error
    install_docker_and_core_packages install_core install_service run_script verify_docker
    new_ssh_config pure ◌>>=◌ ◌>>◌ on_err wrapped finally on_world exec from_result gets modify
    set_service send contains has_prefix same set_service_state update_machine_status
    update_service_states service_switch instance_is_up update_orchestrator_status
    update_elapsed_time update_ips update_location update_status_message
    new_display_status_with_text lookup insert set_complete resource_code service_code
    get_machine_resource
orchestrator_runs = refl

find_orchestrator_machine_iff_example :
    (find_orchestrator_machine two_machines ≡ ok orchestrator_machine)
    ↔ (orchestrators_of (get_machines two_machines) ≡ orchestrator_machine ∷ [])
find_orchestrator_machine_iff_example =
    find_orchestrator_machine_iff two_machines orchestrator_machine

assign_workers-lookup_example :
    (ms' : Dict Machine) × (assign_workers (codes "4.4.4.4") (codes "two-vm" ∷ []) two_machines
      ≡ some ms')
    × Named ms'
    × ((j : Text)
        → lookup j ms'
          ≡ visited (codes "4.4.4.4") (listed j (codes "two-vm" ∷ [])) (lookup j two_machines))
assign_workers-lookup_example =
    assign_workers-lookup (codes "4.4.4.4") (codes "two-vm" ∷ []) two_machines two_machines-Named

provision_orchestrator_tells_workers_example :
    let c' = (provision_orchestrator host plan two (codes "one-vm")).1 in
    HasAddressOf (codes "one-vm") c'
    × AllTold c'
    × (is_empty c'.orchestrator_ip ≡ false
        → (j : Text) (m : Machine) → lookup j c'.machines ≡ some m
        → m.failed ≡ false
        → m.orchestrator ≡ false
        → node_guard m ≡ none)
provision_orchestrator_tells_workers_example =
    provision_orchestrator_tells_workers host plan two (codes "one-vm") two_machines-Named
      orchestrator_runs

abbrev running_worker : Machine
running_worker = set_machine_resource_state worker_machine (codes "vm") MachineResourceState.running

-- The worker is not up in the first turn, and is in the second.
abbrev two_turns : List Turn
two_turns =
    record { machines = (codes "w", worker_machine) ∷ []; done = false }
    ∷ record { machines = (codes "w", running_worker) ∷ []; done = true }
    ∷ []

waits_two_turns :
    wait_for_all_machines_to_reach_state (codes "vm") MachineResourceState.running two_turns
    ≡ some true
unfolding wait_for_all_machines_to_reach_state resource_code get_machine_resource lookup
    set_machine_resource_state insert same to_lower_byte
waits_two_turns = refl

wait_for_all_machines_iff_example :
    (wait_for_all_machines_to_reach_state (codes "vm") MachineResourceState.running two_turns
      ≡ some true)
    ↔ ReachedInTime (codes "vm") MachineResourceState.running two_turns
wait_for_all_machines_iff_example =
    wait_for_all_machines_iff (codes "vm") MachineResourceState.running two_turns
