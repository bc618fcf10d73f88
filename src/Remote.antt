-- ===== src/Remote.antt =====
-- The interface that the deployer talks to a host through: pkg/models/interfaces/sshutils, the
-- embedded scripts, templates and JSON. A host is a state `W`; a call gives its answer and the
-- next state. The context's deadline is left out: none of the calls below reads it.
use andaime.Base.{ℕ, Bool, List, Option, Text}

-- `fmt.Errorf` with a message, and with a message that wraps another error by `%w`.
pub data Error : Type 0 where
  errorf : Text → Error
  wrap : Text → Error → Error

pub data Result (A : Type 0) : Type 0 where
  ok : A → Result A
  err : Error → Result A

-- The script of pkg/models/machine.go and cluster_deployer.go that a getter reads.
pub data Script : Type 0 where
  install_docker install_core_packages get_node_config_metadata : Script
  install_bacalhau install_run_bacalhau bacalhau_service : Script

pub record Remote (W : Type 0) : Type 0 where
  -- `NewSSHConfigFunc(host, port, user, privateKeyPath)`
  pub new_config : Text → ℕ → Text → Text → W → Result (Unit {0}) × W
  pub connect : W → Result (Unit {0}) × W
  pub close : W → W
  -- `PushFile(path, content, executable)`
  pub push_file : Text → Text → Bool → W → Result (Unit {0}) × W
  -- `ExecuteCommand`, which gives the output also where it fails.
  pub execute : Text → W → Text × Option Error × W
  pub install_systemd_service : Text → Text → W → Result (Unit {0}) × W
  pub get_script : Script → Result Text
  -- `Parse` and `ExecuteTemplate` of text/template
  pub parse_template : Text → Result (Unit {0})
  pub execute_template : Text → List (Text × Text) → Result Text
  pub read_file : Text → W → Result Text × W
  -- `json.Unmarshal` into a list: how many items it has.
  pub json_length : Text → Result ℕ
