-- ===== src/Install/Keeps.antt =====
-- What the installation leaves alone: a predicate that the writes for one service keep is kept by
-- the installation of that service.
use andaime.Base.{List, Text}
use andaime.Types.{ServiceState}
use andaime.Machine.{Machine, set_service_state}
use andaime.Remote.{Script, Remote}
use andaime.Exec.{Update}
use andaime.Exec.Keeps.{
  Keeps, pure-Keeps, fail-Keeps, gets-Keeps, from_result-Keeps, on_world-Keeps, exec-Keeps,
  bind-Keeps, then-Keeps, on_err-Keeps, set_service-Keeps, test-Keeps, finally-Keeps,
}
use andaime.Install.{new_ssh_config, run_script, install_service, verify_docker}

-- The writes for a service keep the predicate.
abbrev pub Closed : (Machine → List Update → Type 0) → Text → Type 0
Closed I service =
    (v : ServiceState) (m : Machine) (us : List Update)
    → I m us
    → I (set_service_state m service v) us

module _ {W : Type 0} (remote : Remote W) (I : Machine → List Update → Type 0) where
  pub new_ssh_config-Keeps : Keeps I (new_ssh_config remote)
  unfolding new_ssh_config
  new_ssh_config-Keeps = bind-Keeps I _ _ (gets-Keeps I _) (λ m. on_world-Keeps I _)

  pub verify_docker-Keeps : Keeps I (verify_docker remote)
  unfolding verify_docker
  verify_docker-Keeps = then-Keeps I _ _ new_ssh_config-Keeps (
      bind-Keeps I _ _ (exec-Keeps I remote _)
        (λ output. test-Keeps I _ _ _ (pure-Keeps I _) (fail-Keeps I _)))

  module _ (service : Text) (closed : Closed I service) where
    pub run_script-Keeps :
        (script_name : Text) (script : Script)
        → Keeps I (run_script remote service script_name script)
    unfolding run_script
    run_script-Keeps script_name script = bind-Keeps I _ _ (from_result-Keeps I _) (λ content.
        then-Keeps I _ _ (on_world-Keeps I _) (
          bind-Keeps I _ _
            (on_err-Keeps I _ _ (exec-Keeps I remote _) (λ e.
              then-Keeps I _ _ (set_service-Keeps I _ _ (closed ServiceState.failed))
                (fail-Keeps I e)))
            (λ _. set_service-Keeps I _ _ (closed ServiceState.succeeded))))

    pub install_service-Keeps :
        (script_name : Text) (script : Script)
        → Keeps I (install_service remote service script_name script)
    unfolding install_service
    install_service-Keeps script_name script =
        then-Keeps I _ _ (set_service-Keeps I _ _ (closed ServiceState.updating)) (
          then-Keeps I _ _ new_ssh_config-Keeps (
            then-Keeps I _ _ (on_world-Keeps I _)
              (finally-Keeps I _ _ (run_script-Keeps script_name script))))
