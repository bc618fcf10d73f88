-- ===== src/Node/Steps.antt =====
-- The steps of a node: what each of them leaves alone, and how the steps end in their order.
use andaime.Base.{Bool, true, false, List, [], ◌∷◌, Option, none, some, Text}
use andaime.Types.{ServiceState, service_script}
use andaime.Machine.{Machine}
use andaime.Remote.{Result, Script, Remote}
use andaime.Exec.{Update, wrapped, on_world, exec, from_result}
use andaime.Exec.Keeps.{
  Keeps, pure-Keeps, fail-Keeps, gets-Keeps, from_result-Keeps, on_world-Keeps, exec-Keeps,
  bind-Keeps, then-Keeps, wrapped-Keeps, set_service-Keeps,
}
use andaime.Install.Keeps.{Closed}
use andaime.Node.{
  Context, Setting, check, need, orchestrators, push_and_run, setup_node_config_metadata,
  install_by_script, setup_bacalhau_service, verify_bacalhau_deployment, apply_settings,
  verify_settings, apply_bacalhau_configs, apply_if_any, execute_custom_script,
}

module _ {W : Type 0} (remote : Remote W) (ctx : Context) (I : Machine → List Update → Type 0) where
  check-Keeps : (b : Bool) (t : Text) → Keeps {W = W} I (check b t)
  unfolding check
  check-Keeps true t = pure-Keeps I _
  check-Keeps false t = fail-Keeps I _

  need-Keeps : (o : Option Text) (t : Text) → Keeps {W = W} I (need o t)
  need-Keeps none t = fail-Keeps I _
  need-Keeps (some a) t = pure-Keeps I _

  result-Keeps :
      {A : Type 0} (t : Text) (r : Result A) → Keeps {W = W} I (wrapped t (from_result r))
  result-Keeps t r = wrapped-Keeps I _ _ (from_result-Keeps I _)

  world-Keeps :
      {A : Type 0} (t : Text) (f : W → Result A × W) → Keeps {W = W} I (wrapped t (on_world f))
  world-Keeps t f = wrapped-Keeps I _ _ (on_world-Keeps I _)

  command-Keeps : (t c : Text) → Keeps {W = W} I (wrapped t (exec remote c))
  command-Keeps t c = wrapped-Keeps I _ _ (exec-Keeps I remote c)

  push_and_run-Keeps :
      (path content what : Text) → Keeps I (push_and_run remote ctx path content what)
  unfolding push_and_run
  push_and_run-Keeps path content what =
      then-Keeps I _ _ (world-Keeps _ _)
        (bind-Keeps I _ _ (command-Keeps _ _) (λ _. pure-Keeps I _))

  pub setup_node_config_metadata-Keeps : Keeps I (setup_node_config_metadata remote ctx)
  unfolding setup_node_config_metadata
  setup_node_config_metadata-Keeps = bind-Keeps I _ _ (result-Keeps _ _) (λ script.
      then-Keeps I _ _ (result-Keeps _ _) (
        bind-Keeps I _ _ (gets-Keeps I _) (λ m.
          bind-Keeps I _ _ (need-Keeps (orchestrators remote ctx m) _) (λ hosts.
            then-Keeps I _ _ (check-Keeps _ _)
              (bind-Keeps I _ _ (result-Keeps _ _) (λ rendered. push_and_run-Keeps _ _ _))))))

  pub install_by_script-Keeps :
      (script : Script) (path : Text) → Keeps I (install_by_script remote ctx script path)
  unfolding install_by_script
  install_by_script-Keeps script path =
      bind-Keeps I _ _ (result-Keeps _ _) (λ content. push_and_run-Keeps _ _ _)

  pub setup_bacalhau_service-Keeps : Keeps I (setup_bacalhau_service remote ctx)
  unfolding setup_bacalhau_service
  setup_bacalhau_service-Keeps =
      bind-Keeps I _ _ (result-Keeps _ _)
        (λ content. then-Keeps I _ _ (world-Keeps _ _) (world-Keeps _ _))

  pub verify_bacalhau_deployment-Keeps : Keeps I (verify_bacalhau_deployment remote ctx)
  unfolding verify_bacalhau_deployment
  verify_bacalhau_deployment-Keeps = bind-Keeps I _ _ (gets-Keeps I _) (λ m.
      bind-Keeps I _ _ (command-Keeps _ _)
        (λ output. bind-Keeps I _ _ (result-Keeps _ _) (λ nodes. check-Keeps _ _)))

  apply_settings-Keeps : (ss : List Setting) → Keeps I (apply_settings remote ctx ss)
  unfolding apply_settings
  apply_settings-Keeps [] = pure-Keeps I _
  apply_settings-Keeps (s ∷ ss) = then-Keeps I _ _ (on_world-Keeps I _) (apply_settings-Keeps ss)

  verify_settings-Keeps : Keeps I (verify_settings remote ctx)
  unfolding verify_settings
  verify_settings-Keeps =
      bind-Keeps I _ _ (command-Keeps _ _)
        (λ output. bind-Keeps I _ _ (result-Keeps _ _) (λ _. pure-Keeps I _))

  pub apply_if_any-Keeps : (ss : List Setting) → Keeps I (apply_if_any remote ctx ss)
  unfolding apply_if_any apply_bacalhau_configs
  apply_if_any-Keeps [] = pure-Keeps I _
  apply_if_any-Keeps (s ∷ ss) =
      then-Keeps I _ _ (wrapped-Keeps I _ _ (apply_settings-Keeps (s ∷ ss)))
        (wrapped-Keeps I _ _ verify_settings-Keeps)

  pub execute_custom_script-Keeps :
      Closed I service_script → Keeps I (execute_custom_script remote ctx)
  unfolding execute_custom_script
  execute_custom_script-Keeps closed = bind-Keeps I _ _ (world-Keeps _ _) (λ content.
      then-Keeps I _ _ (world-Keeps _ _) (
        bind-Keeps I _ _ (command-Keeps _ _)
          (λ _. set_service-Keeps I _ _ (closed ServiceState.succeeded))))
