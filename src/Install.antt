-- ===== src/Install.antt =====
-- The installation of Docker and the core packages: `InstallDockerAndCorePackages` of
-- pkg/models/machine.go with what it calls, and `RestartService` of pkg/sshutils/ssh_config.go.
pub mod Keeps
pub mod Outcome
pub mod Restart
pub mod Examples
use andaime.Base.{
  ℕ, Bool, true, false, List, [], ◌∷◌, ◌++◌, Option, none, some, Text, codes, contains,
  if◌then◌else◌,
}
use andaime.Types.{ServiceState, service_docker, service_core_packages}
use andaime.Machine.{Machine}
use andaime.Remote.{Error, errorf, wrap, Result, ok, err, Script, Remote}
use andaime.Exec.{
  Run, M, pure, fail, after, ◌>>=◌, ◌>>◌, on_err, wrapped, finally, on_world, exec, from_result,
  gets, modify, set_service, send,
}

-- `mach.SetServiceState(service, ServiceStateFailed); return err`
unfoldable pub fail_service : {W : Type 0} → Text → Error → M W (Unit {0})
fail_service service e = do set_service service ServiceState.failed; fail e

-- The error that `RestartService` puts together: the last one wraps, those before are text.
unfoldable pub restart_error : Option Error → Option Error → Option Error → Option Error
restart_error none none none = none
restart_error (some e) none none = some (wrap (codes "stop service failed") e)
restart_error none (some e) none = some (wrap (codes "start service failed") e)
restart_error (some _) (some e) none = some (wrap (codes "stop failed; start service failed") e)
restart_error none none (some e) = some (wrap (codes "status check failed") e)
restart_error (some _) none (some e) = some (wrap (codes "stop failed; status check failed") e)
restart_error none (some _) (some e) = some (wrap (codes "start failed; status check failed") e)
restart_error (some _) (some _) (some e) =
    some (wrap (codes "stop failed; start failed; status check failed") e)

abbrev pub of_error : Option Error → Result (Unit {0})
of_error none = ok tt
of_error (some e) = err e

module _ {W : Type 0} (remote : Remote W) where
  -- `NewSSHConfigFunc` for the machine of the run.
  unfoldable pub new_ssh_config : M W (Unit {0})
  new_ssh_config = do
    m ← gets (λ m. m)
    on_world (remote.new_config m.public_ip m.ssh_port m.ssh_user m.ssh_private_key_path)

  -- What `installService` does between connecting and closing.
  unfoldable pub run_script : Text → Text → Script → M W (Unit {0})
  run_script service script_name script = do
    content ← from_result (remote.get_script script)
    on_world (remote.push_file (codes "/tmp/" ++ script_name) content true)
    _ ←
        on_err (exec remote (codes "sudo " ++ (codes "/tmp/" ++ script_name)))
          λ e. do set_service service ServiceState.failed; fail e
    set_service service ServiceState.succeeded

  unfoldable pub install_service : Text → Text → Script → M W (Unit {0})
  install_service service script_name script = do
    set_service service ServiceState.updating
    new_ssh_config
    on_world remote.connect
    finally (run_script service script_name script) remote.close

  unfoldable pub verify_docker : M W (Unit {0})
  verify_docker = do
    new_ssh_config
    output ← exec remote (codes "sudo docker run hello-world")
    if contains output (codes "Hello from Docker!")
        then pure tt
        else fail (errorf (codes "docker verify ran, but did not get expected output"))

  -- The second half of `InstallDockerAndCorePackages`
  unfoldable pub install_core : M W (Unit {0})
  install_core = do
    set_service service_core_packages ServiceState.updating
    on_err
        (install_service service_core_packages (codes "install-core-packages.sh")
          Script.install_core_packages)
        (fail_service service_core_packages)
    set_service service_core_packages ServiceState.succeeded

  unfoldable pub install_docker_and_core_packages : M W (Unit {0})
  install_docker_and_core_packages = do
    set_service service_docker ServiceState.updating
    on_err (install_service service_docker (codes "install-docker.sh") Script.install_docker)
        (fail_service service_docker)
    on_err verify_docker (fail_service service_docker)
    set_service service_docker ServiceState.succeeded
    install_core

  -- `RestartService` runs all three commands, whatever the first ones gave.
  unfoldable pub restart_service : Text → W → Result (Unit {0}) × W
  restart_service name w =
      let (_, stop, w1) = remote.execute (codes "sudo systemctl stop " ++ name) w in
      let (_, start, w2) = remote.execute (codes "sudo systemctl start " ++ name) w1 in
      let (_, status, w3) = remote.execute (codes "sudo systemctl status " ++ name) w2 in
      (of_error (restart_error stop start status), w3)
