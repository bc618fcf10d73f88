-- ===== src/Node.antt =====
-- pkg/providers/common/cluster_deployer.go: how one machine becomes a node,
-- `ProvisionBacalhauNodeWithCallback` with the steps that it calls.
pub mod Steps
pub mod Plan
pub mod Provision
pub mod Guards
pub mod Outcome
pub mod Completion
pub mod Examples
use andaime.Base.{
  ℕ, Bool, true, false, ◌&&◌, ◌||◌, not, ◌==◌, List, [], ◌∷◌, ◌++◌, Option, none, some, Text, codes,
  same, is_empty, contains, if◌then◌else◌,
}
use andaime.Types.{
  ServiceState, MachineResourceState, service_bacalhau, service_script, node_type_compute,
  node_type_orchestrator,
}
use andaime.Types.Resources.{azure_vm}
use andaime.Location.{Tables}
use andaime.Machine.{Machine, set_complete}
use andaime.Status.{DisplayStatus, new_display_status_with_text}
use andaime.Display.{update_machine_status}
use andaime.Remote.{Error, errorf, wrap, Result, ok, err, Script, Remote}
use andaime.Exec.{
  ProvisioningStep, Update, started, completed, errored, Run, M, pure, fail, after, ◌>>=◌, ◌>>◌,
  on_err, wrapped, on_world, exec, from_result, gets, modify, set_service, send,
}
use andaime.Install.{install_docker_and_core_packages, restart_service}

-- The value of a setting: a string, a list whose items are formatted by `%v`, or anything else
-- formatted by `%v`.
pub data Value : Type 0 where
  str : Text → Value
  list : List Text → Value
  other : Text → Value

pub record Setting : Type 0 where
  pub key : Text
  pub value : Value

-- What the steps read of the deployment and of the program: `shown` says that the machine stands
-- in the deployment of the display, under its own name; `project_id` is the result of the ifs of
-- `SetupNodeConfigMetadata`.
pub record Context : Type 0 where
  pub tables : Tables
  pub shown : Bool
  pub orchestrator_ip : Text
  pub project_id : Text
  pub custom_script_path : Text
  pub now : ℕ

-- `strings.Join(values, ",")`
unfoldable pub join_comma : List Text → Text
join_comma [] = []
join_comma (v ∷ []) = v
join_comma (v ∷ w ∷ vs) = v ++ (codes "," ++ join_comma (w ∷ vs))

unfoldable pub value_text : Value → Text
value_text (str v) = v
value_text (list vs) = join_comma vs
value_text (other v) = v

abbrev pub is_node_type : Text → Bool
is_node_type t = same t node_type_compute || same t node_type_orchestrator

-- The guard in front of a step: an error if the test fails.
unfoldable pub check : {W : Type 0} → Bool → Text → M W (Unit {0})
check true t = pure tt
check false t = fail (errorf t)

unfoldable pub handle_deployment_error : {W : Type 0} → Error → M W (Unit {0})
handle_deployment_error e = do set_service service_bacalhau ServiceState.failed; fail e

-- A step between its two updates; on an error the update of the error, and the handler.
unfoldable pub run_step : {W : Type 0} → ProvisioningStep → M W (Unit {0}) → M W (Unit {0})
run_step step action = do
  send (started step)
  on_err action λ e. do send (errored step e); handle_deployment_error e
  send (completed step)

-- The guards in front of the first step.
abbrev pub node_guard : Machine → Option Error
node_guard m =
    if not (is_node_type m.node_type)
    then some (errorf (codes "invalid node type: " ++ m.node_type))
    else if same m.node_type node_type_compute && is_empty m.orchestrator_ip
    then some (errorf (codes "no orchestrator IP found"))
    else none

abbrev pub guarded : {W : Type 0} → Option Error → M W (Unit {0}) → M W (Unit {0})
guarded (some e) rest = handle_deployment_error e
guarded none rest = rest

abbrev pub need : {W : Type 0} → Option Text → Text → M W Text
need none t = fail (errorf t)
need (some a) t = pure a

module _ {W : Type 0} (remote : Remote W) (ctx : Context) where
  -- `m.UpdateStatus(status)` on the machine of the run.
  unfoldable pub show : MachineResourceState → Text → M W (Unit {0})
  show state text = modify λ m.
      if ctx.shown && not (is_empty m.name)
      then (update_machine_status ctx.tables
          (new_display_status_with_text m.name azure_vm state text) m).1
      else m

  unfoldable pub provision_machine : M W (Unit {0})
  provision_machine = do
    show MachineResourceState.pending (codes "Provisioning Docker & packages on machine")
    on_err (install_docker_and_core_packages remote) λ e. do
      show MachineResourceState.failed (codes "Failed to provision Docker & packages on machine")
      fail e
    show MachineResourceState.succeeded (codes "Provisioned Docker & packages on machine")

  -- Which orchestrators `SetupNodeConfigMetadata` names; `none` is its error.
  abbrev pub orchestrators : Machine → Option Text
  orchestrators m =
      if same m.node_type node_type_orchestrator
      then some (codes "0.0.0.0")
      else if not (is_empty m.orchestrator_ip)
      then some m.orchestrator_ip
      else if not (is_empty ctx.orchestrator_ip)
      then some ctx.orchestrator_ip
      else none

  -- The push of a script and its run, which several steps share.
  unfoldable pub push_and_run : Text → Text → Text → M W (Unit {0})
  push_and_run path content what = do
    wrapped (codes "failed to push " ++ what) (on_world (remote.push_file path content true))
    _ ← wrapped (codes "failed to execute " ++ what) (exec remote (codes "sudo " ++ path))
    pure tt

  unfoldable pub setup_node_config_metadata : M W (Unit {0})
  setup_node_config_metadata = do
    script ←
        wrapped (codes "failed to get node config metadata script")
          (from_result (remote.get_script Script.get_node_config_metadata))
    wrapped (codes "failed to parse node metadata script template")
        (from_result (remote.parse_template script))
    m ← gets (λ m. m)
    hosts ← need (orchestrators m) (codes "no orchestrator IP found")
    check (is_node_type m.node_type) (codes "invalid node type")
    rendered ← wrapped (codes "failed to execute node metadata script template") (
        from_result (
          remote.execute_template script (
            (codes "MachineType", m.vm_size)
            ∷ (codes "MachineName", m.name)
            ∷ (codes "Location", m.region)
            ∷ (codes "Orchestrators", hosts)
            ∷ (codes "IP", m.public_ip)
            ∷ (codes "Token", [])
            ∷ (codes "NodeType", m.node_type)
            ∷ (codes "ProjectID", ctx.project_id)
            ∷ [])))
    push_and_run (codes "/tmp/get-node-config-metadata.sh") rendered
        (codes "node config metadata script")

  -- `InstallBacalhau` and `InstallBacalhauRunScript`
  unfoldable pub install_by_script : Script → Text → M W (Unit {0})
  install_by_script script path = do
    content ←
        wrapped (codes "failed to get install Bacalhau script")
          (from_result (remote.get_script script))
    push_and_run path content (codes "install Bacalhau script")

  unfoldable pub setup_bacalhau_service : M W (Unit {0})
  setup_bacalhau_service = do
    content ←
        wrapped (codes "failed to get Bacalhau service script")
          (from_result (remote.get_script Script.bacalhau_service))
    wrapped (codes "failed to install Bacalhau systemd service")
        (on_world (remote.install_systemd_service (codes "bacalhau") content))
    wrapped (codes "failed to restart Bacalhau service")
        (on_world (restart_service remote (codes "bacalhau")))

  -- `StripAndParseJSON` of pkg/utils/config.go, down to the number of items.
  unfoldable pub strip_and_parse_json : Text → Result ℕ
  strip_and_parse_json [] = err (errorf (codes "no JSON array found in input"))
  strip_and_parse_json (c ∷ s) =
      let rest = strip_and_parse_json s in if c == b'[' then remote.json_length (c ∷ s) else rest

  unfoldable pub verify_bacalhau_deployment : M W (Unit {0})
  verify_bacalhau_deployment = do
    m ← gets (λ m. m)
    output ← wrapped (codes "failed to list Bacalhau nodes") (
        exec remote (
          codes "bacalhau node list --output json --api-host "
          ++ (if is_empty m.orchestrator_ip then codes "0.0.0.0" else m.orchestrator_ip)))
    nodes ←
        wrapped (codes "failed to strip and parse JSON") (from_result (strip_and_parse_json output))
    check (not (nodes == 0)) (codes "no Bacalhau nodes found in the output")

  -- The error of one setting of `applySettings`.
  abbrev pub setting_error : Text → Text × Option Error × W → Result (Unit {0}) × W
  setting_error key (out, none, w) = (ok tt, w)
  setting_error key (out, some e, w) = (
    if contains out (codes "invalid configuration key \"" ++ (key ++ codes "\": not found"))
        then err (errorf (codes "bad setting detected: " ++ key))
        else err (wrap (codes "failed to apply Bacalhau config " ++ key) e),
    w,
  )

  unfoldable pub apply_settings : List Setting → M W (Unit {0})
  apply_settings [] = pure tt
  apply_settings (s ∷ ss) = do
    on_world λ w. setting_error s.key (
        remote.execute
          (codes "sudo bacalhau config set '"
            ++ (s.key ++ (codes "'='" ++ (value_text s.value ++ codes "'"))))
          w)
    apply_settings ss

  -- The comparison behind the two calls of `verifySettings` only writes to the log.
  unfoldable pub verify_settings : M W (Unit {0})
  verify_settings = do
    output ←
        wrapped (codes "failed to get Bacalhau config")
          (exec remote (codes "sudo bacalhau config list --output json"))
    _ ← wrapped (codes "failed to parse Bacalhau config") (from_result (remote.json_length output))
    pure tt

  unfoldable pub apply_bacalhau_configs : List Setting → M W (Unit {0})
  apply_bacalhau_configs settings = do
    wrapped (codes "failed to apply Bacalhau configs") (apply_settings settings)
    wrapped (codes "failed to verify Bacalhau configs") verify_settings

  -- `if len(bacalhauSettings) > 0`
  unfoldable pub apply_if_any : List Setting → M W (Unit {0})
  apply_if_any [] = pure tt
  apply_if_any (s ∷ ss) = apply_bacalhau_configs (s ∷ ss)

  unfoldable pub execute_custom_script : M W (Unit {0})
  execute_custom_script = do
    content ←
        wrapped (codes "failed to read custom script")
          (on_world (remote.read_file ctx.custom_script_path))
    wrapped (codes "failed to push custom script")
        (on_world (remote.push_file (codes "/tmp/custom_script.sh") content true))
    _ ← wrapped (codes "failed to execute custom script") (
        exec remote
          (codes "sudo bash /tmp/custom_script.sh | sudo tee /var/log/andaime-custom-script.log"))
    set_service service_script ServiceState.succeeded

  -- The first step, whose error does not go through the handler.
  unfoldable pub provision_step : M W (Unit {0})
  provision_step = do
    send (started ProvisioningStep.node_provisioning)
    on_err provision_machine λ e. do send (errored ProvisioningStep.node_provisioning e); fail e
    send (completed ProvisioningStep.node_provisioning)

  -- The steps behind it.
  unfoldable pub node_steps : List Setting → M W (Unit {0})
  node_steps settings = do
    run_step ProvisioningStep.node_configuration setup_node_config_metadata
    run_step ProvisioningStep.bacalhau_install
        (install_by_script Script.install_bacalhau (codes "/tmp/install-bacalhau.sh"))
    run_step ProvisioningStep.service_script
        (install_by_script Script.install_run_bacalhau (codes "/tmp/install-run-bacalhau.sh"))
    run_step ProvisioningStep.systemd_service setup_bacalhau_service
    run_step ProvisioningStep.node_verification verify_bacalhau_deployment
    run_step ProvisioningStep.configuration_apply (apply_if_any settings)
    run_step ProvisioningStep.service_restart (on_world (restart_service remote (codes "bacalhau")))
    run_step ProvisioningStep.running_custom_script
        (if is_empty ctx.custom_script_path then pure tt else execute_custom_script)
    set_service service_bacalhau ServiceState.succeeded
    modify (set_complete ctx.now)

  -- `ProvisionBacalhauNodeWithCallback`
  unfoldable pub provision_bacalhau_node : List Setting → M W (Unit {0})
  provision_bacalhau_node settings = do
    set_service service_bacalhau ServiceState.updating
    m ← gets (λ m. m)
    guarded (node_guard m) (do provision_step; node_steps settings)
