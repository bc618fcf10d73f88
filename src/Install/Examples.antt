-- ===== src/Install/Examples.antt =====
-- A host that answers every call, and one on which no command works. The host counts the calls.
use andaime.Base.{ℕ, suc, List, [], none, some, Text, codes, has_prefix, contains, ◌≡◌, refl}
use andaime.Types.{ServiceState, service_docker, service_core_packages}
use andaime.Machine.{Machine, set_service_state}
use andaime.Machine.Examples.{azure_machine}
use andaime.Remote.{errorf, ok, err, Remote}
use andaime.Exec.{
  Run, Update, pure, fail, ◌>>=◌, ◌>>◌, on_err, finally, on_world, exec, from_result, gets, modify,
  set_service,
}
use andaime.Exec.Rules.{Ends}
use andaime.Exec.Keeps.{At}
use andaime.Install.{
  new_ssh_config, run_script, install_service, verify_docker, fail_service, install_core,
  install_docker_and_core_packages,
}
use andaime.Install.Outcome.{Services, Both, OneFailed, install_docker_and_core_packages-outcome}

abbrev pub host : Remote ℕ
host = record {
  new_config = λ _ _ _ _ w. (ok tt, w);
  connect = λ w. (ok tt, suc w);
  close = λ w. w;
  push_file = λ _ _ _ w. (ok tt, suc w);
  execute = λ _ w. (codes "Hello from Docker![]", none, suc w);
  install_systemd_service = λ _ _ w. (ok tt, suc w);
  get_script = λ _. ok [];
  parse_template = λ _. ok tt;
  execute_template = λ _ _. ok [];
  read_file = λ _ w. (ok [], w);
  json_length = λ _. ok 1;
}

abbrev broken_host : Remote ℕ
broken_host = record host { execute = λ _ w. ([], some (errorf (codes "exit status 1")), suc w) }

abbrev pub start_run : Run ℕ
start_run = record { machine = azure_machine; world = 0; updates = [] }

installed : (install_docker_and_core_packages host start_run).0 ≡ ok tt
unfolding install_docker_and_core_packages install_core install_service run_script verify_docker
    new_ssh_config pure ◌>>=◌ ◌>>◌ on_err finally on_world exec from_result gets modify set_service
    contains has_prefix
installed = refl

not_installed :
    (install_docker_and_core_packages broken_host start_run).0
    ≡ err (errorf (codes "exit status 1"))
unfolding install_docker_and_core_packages install_service run_script fail_service new_ssh_config
    pure fail ◌>>=◌ ◌>>◌ on_err finally on_world exec from_result gets modify set_service
not_installed = refl

abbrev IsNamed : Machine → List Update → Type 0
IsNamed m us = m.name ≡ codes "one-vm"

set_service-IsNamed :
    (t : Text) (v : ServiceState) (m : Machine) (us : List Update)
    → IsNamed m us
    → IsNamed (set_service_state m t v) us
unfolding set_service_state
set_service-IsNamed t v m us h = h

install_docker_and_core_packages-outcome_example :
    Ends
      (λ _. At (Services IsNamed Both))
      (At (Services IsNamed OneFailed))
      (install_docker_and_core_packages broken_host start_run)
install_docker_and_core_packages-outcome_example =
    install_docker_and_core_packages-outcome broken_host IsNamed
      (set_service-IsNamed service_docker) (set_service-IsNamed service_core_packages) start_run
      refl
