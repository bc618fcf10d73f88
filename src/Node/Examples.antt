-- ===== src/Node/Examples.antt =====
-- A compute node, on a host that answers every call.
use andaime.Base.{
  ℕ, true, false, List, [], ◌∷◌, ◌++◌, none, some, codes, same, ◌≡◌, ◌≢◌, refl, has_prefix,
  contains,
}
use andaime.Types.{node_type_compute, node_type_orchestrator}
use andaime.Machine.{set_service_state}
use andaime.Machine.Examples.{azure_machine, azure_tables}
use andaime.Display.{instance_is_up}
use andaime.Remote.{errorf, ok}
use andaime.Exec.{
  Run, pure, ◌>>=◌, ◌>>◌, on_err, wrapped, finally, on_world, exec, from_result, gets, modify,
  set_service, send,
}
use andaime.Exec.Rules.{Ends}
use andaime.Exec.Keeps.{At}
use andaime.Install.{
  new_ssh_config, run_script, install_service, verify_docker, install_core,
  install_docker_and_core_packages, restart_service, restart_error,
}
use andaime.Install.Examples.{host, start_run}
use andaime.Node.{
  Context, Setting, str, node_guard, provision_bacalhau_node, check, show, provision_machine,
  push_and_run, setup_node_config_metadata, install_by_script, setup_bacalhau_service,
  strip_and_parse_json, verify_bacalhau_deployment, apply_settings, verify_settings,
  apply_bacalhau_configs, apply_if_any, run_step, provision_step, node_steps,
}
use andaime.Node.Guards.{TurnedDown, guard_stops}
use andaime.Node.Outcome.{NodeUp, NodeDown, provision_bacalhau_node-outcome}
use andaime.Node.Completion.{CoreReset, provision_bacalhau_node_resets_core_packages}

abbrev context : Context
context = record {
  tables = azure_tables;
  shown = true;
  orchestrator_ip = [];
  project_id = [];
  custom_script_path = [];
  now = 5;
}

abbrev settings : List Setting
settings = record { key = codes "LogLevel"; value = str (codes "debug") } ∷ []

abbrev hidden : Context
hidden = record context { shown = false }

node_is_up : (provision_bacalhau_node host hidden settings start_run).0 ≡ ok tt
unfolding provision_bacalhau_node provision_step node_steps run_step provision_machine show check
    push_and_run setup_node_config_metadata install_by_script setup_bacalhau_service
    strip_and_parse_json verify_bacalhau_deployment apply_settings verify_settings
    apply_bacalhau_configs apply_if_any restart_service restart_error
    install_docker_and_core_packages install_core install_service run_script verify_docker
    new_ssh_config pure ◌>>=◌ ◌>>◌ on_err wrapped finally on_world exec from_result gets modify
    set_service send contains has_prefix same set_service_state
node_is_up = refl

abbrev storage_run : Run ℕ
storage_run = record start_run { machine = record azure_machine { node_type = codes "storage" } }

storage_guard :
    node_guard storage_run.machine ≡ some (errorf (codes "invalid node type: " ++ codes "storage"))
unfolding same
storage_guard = refl

compute_guard : node_guard start_run.machine ≡ none
unfolding same
compute_guard = refl

instance_is_down : instance_is_up start_run.machine ≡ false
unfolding instance_is_up
instance_is_down = refl

-- A compute node that has not been told the address of an orchestrator.
abbrev untold_run : Run ℕ
untold_run = record start_run {
  machine = record azure_machine { node_type = node_type_compute; orchestrator_ip = [] };
}

untold_guard : node_guard untold_run.machine ≡ some (errorf (codes "no orchestrator IP found"))
unfolding same
untold_guard = refl

guard_stops_example :
    (untold_run.machine.node_type ≢ node_type_compute
      → untold_run.machine.node_type ≢ node_type_orchestrator
      → TurnedDown untold_run
          (errorf (codes "invalid node type: " ++ untold_run.machine.node_type))
          (provision_bacalhau_node host context settings untold_run))
    × (untold_run.machine.node_type ≡ node_type_compute
        → untold_run.machine.orchestrator_ip ≡ []
        → TurnedDown untold_run
            (errorf (codes "no orchestrator IP found"))
            (provision_bacalhau_node host context settings untold_run))
guard_stops_example = guard_stops host context settings untold_run

provision_bacalhau_node-outcome_example :
    Ends
      (λ _. At (NodeUp start_run.updates))
      (At (NodeDown start_run.machine.done start_run.updates))
      (provision_bacalhau_node host context settings start_run)
provision_bacalhau_node-outcome_example =
    provision_bacalhau_node-outcome host context settings start_run compute_guard

provision_bacalhau_node_resets_core_packages_example :
    Ends
      (λ _. At CoreReset)
      (λ _. Unit {0})
      (provision_bacalhau_node host context settings start_run)
provision_bacalhau_node_resets_core_packages_example =
    provision_bacalhau_node_resets_core_packages host context settings start_run compute_guard refl
      instance_is_down refl
