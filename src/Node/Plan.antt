-- ===== src/Node/Plan.antt =====
-- How the steps of a node end: all of them in the order of the plan, or stopped at one of them.
use andaime.Base.{take, drop, List, [], ◌∷◌, ◌++◌, ◌≡◌, refl, ap, sym, ◌∙◌}
use andaime.Types.{ServiceState, service_script, service_bacalhau}
use andaime.Machine.{Machine, set_service_state, set_complete}
use andaime.Remote.{Error, Remote}
use andaime.Exec.{
  ProvisioningStep, Update, started, completed, errored, Run, M, ◌>>◌, modify, set_service, send,
}
use andaime.Exec.Rules.{Ensures, then-Ensures}
use andaime.Exec.Keeps.{
  At, Keeps, pure-Keeps, test-Keeps, on_world-Keeps, on_err-Ensures, set_service-Ensures,
  fail-Ensures, modify-Ensures, send-Ensures,
}
use andaime.Install.Keeps.{Closed}
use andaime.Node.{Context, Setting, handle_deployment_error, run_step, node_steps}
use andaime.Node.Steps.{
  setup_node_config_metadata-Keeps, install_by_script-Keeps, setup_bacalhau_service-Keeps,
  verify_bacalhau_deployment-Keeps, apply_if_any-Keeps, execute_custom_script-Keeps,
}

-- The steps of a node, in their order.
abbrev pub node_plan : List ProvisioningStep
node_plan =
    ProvisioningStep.node_provisioning ∷ ProvisioningStep.node_configuration
    ∷ ProvisioningStep.bacalhau_install ∷ ProvisioningStep.service_script
    ∷ ProvisioningStep.systemd_service ∷ ProvisioningStep.node_verification
    ∷ ProvisioningStep.configuration_apply ∷ ProvisioningStep.service_restart
    ∷ ProvisioningStep.running_custom_script ∷ []

-- The steps behind the first.
abbrev later_steps : List ProvisioningStep
later_steps = drop 1 node_plan

-- The updates of steps that have run, on top of earlier ones: newest first.
abbrev pub log : List ProvisioningStep → List Update → List Update
log [] us = us
log (step ∷ steps) us = log steps (completed step ∷ started step ∷ us)

log-snoc :
    (steps : List ProvisioningStep) (step : ProvisioningStep) (us : List Update)
    → log (steps ++ step ∷ []) us ≡ completed step ∷ started step ∷ log steps us
log-snoc [] step us = refl
log-snoc (x ∷ steps) step us = log-snoc steps step (completed x ∷ started x ∷ us)

-- The first step of the plan, and steps behind it.
abbrev pub behind_first : List ProvisioningStep → List ProvisioningStep
behind_first steps = ProvisioningStep.node_provisioning ∷ steps

-- The updates of a plan that stopped at one of the steps behind its first.
abbrev pub StoppedLog : List Update → List Update → Type 0
StoppedLog old us =
    (before : List ProvisioningStep) × (step : ProvisioningStep) × (rest : List ProvisioningStep)
    × (e : Error) × (behind_first before ++ step ∷ rest ≡ node_plan)
    × (us ≡ errored step e ∷ started step ∷ log (behind_first before) old)

-- The steps that have run, with what is known of the machine; one that has started; the end at a
-- step that failed, and the end of the plan.
abbrev pub Reached :
    List Update → (Machine → Type 0) → List ProvisioningStep → Machine → List Update → Type 0
Reached old K steps m us = K m × (us ≡ log steps old)

abbrev Started :
    List Update
    → (Machine → Type 0)
    → ProvisioningStep
    → List ProvisioningStep
    → Machine
    → List Update
    → Type 0
Started old K step steps m us = K m × (us ≡ started step ∷ log steps old)

abbrev pub Stopped : List Update → (Machine → Type 0) → Machine → List Update → Type 0
Stopped old F m us = F m × StoppedLog old us

abbrev pub Finished : List Update → (Machine → Type 0) → Context → Machine → List Update → Type 0
Finished old K ctx m us =
    (x : Machine) × K x
    × (m ≡ set_complete ctx.now (set_service_state x service_bacalhau ServiceState.succeeded))
    × (us ≡ log node_plan old)

module _ {W : Type 0} (old : List Update) (K F : Machine → Type 0)
    (script : (m : Machine) (v : ServiceState) → K m → K (set_service_state m service_script v))
    (failed : (m : Machine)
      → K m
      → F (set_service_state m service_bacalhau ServiceState.failed)) where
  step_error :
      (before : List ProvisioningStep) (step : ProvisioningStep) (rest : List ProvisioningStep)
      (e : Error) (Q : Unit {0} → Run W → Type 0)
      → behind_first before ++ step ∷ rest ≡ node_plan
      → Ensures
          (At (Started old K step (behind_first before)))
          (send (errored step e) >> handle_deployment_error e)
          Q
          (At (Stopped old F))
  unfolding handle_deployment_error
  step_error before step rest e Q h =
      let L : Machine → List Update → Type 0 =
        λ m us. K m × (us ≡ errored step e ∷ started step ∷ log (behind_first before) old) in
      then-Ensures (At (Started old K step (behind_first before))) (At L) Q (At (Stopped old F)) _ _
        (send-Ensures (Started old K step (behind_first before)) L (At (Stopped old F))
          (errored step e) (λ m us p. (p.0, ap (◌∷◌ (errored step e)) p.1)))
        (then-Ensures (At L) (At (Stopped old F)) Q (At (Stopped old F)) _ _
          (set_service-Ensures L (Stopped old F) (At (Stopped old F)) service_bacalhau
            ServiceState.failed (λ m us p. (failed m p.0, (before, step, rest, e, h, p.1))))
          (fail-Ensures (At (Stopped old F)) Q (At (Stopped old F)) e (λ s p. p)))

  run_step-Ensures :
      (before : List ProvisioningStep) (step : ProvisioningStep) (rest : List ProvisioningStep)
      (action : M W (Unit {0}))
      → behind_first before ++ step ∷ rest ≡ node_plan
      → Keeps (Started old K step (behind_first before)) action
      → Ensures
          (At (Reached old K (behind_first before)))
          (run_step step action)
          (λ _. At (Reached old K (behind_first before ++ step ∷ [])))
          (At (Stopped old F))
  unfolding run_step
  run_step-Ensures before step rest action h keeps =
      let S = At {W = W} (Started old K step (behind_first before)) in
      let Q = At {W = W} (Reached old K (behind_first before ++ step ∷ [])) in
      then-Ensures (At (Reached old K (behind_first before))) S (λ _. Q) (At (Stopped old F)) _ _
        (send-Ensures (Reached old K (behind_first before))
          (Started old K step (behind_first before)) (At (Stopped old F)) (started step)
          (λ m us p. (p.0, ap (◌∷◌ (started step)) p.1)))
        (then-Ensures S S (λ _. Q) (At (Stopped old F)) _ _
          (on_err-Ensures S (λ _. S) S (At (Stopped old F)) _ _ keeps
            (λ e. step_error before step rest e (λ _. S) h))
          (send-Ensures (Started old K step (behind_first before))
            (Reached old K (behind_first before ++ step ∷ [])) (At (Stopped old F)) (completed step)
            (λ m us p. (
              p.0,
              ap (◌∷◌ (completed step)) p.1 ∙ sym (log-snoc (behind_first before) step old),
            ))))

  -- One step of the plan in front of the rest of it.
  step-then :
      (Q : Unit {0} → Run W → Type 0) (before : List ProvisioningStep) (step : ProvisioningStep)
      (rest : List ProvisioningStep) (action next : M W (Unit {0}))
      → behind_first before ++ step ∷ rest ≡ node_plan
      → Keeps (Started old K step (behind_first before)) action
      → Ensures (At (Reached old K (behind_first before ++ step ∷ []))) next Q (At (Stopped old F))
      → Ensures
          (At (Reached old K (behind_first before)))
          (run_step step action >> next)
          Q
          (At (Stopped old F))
  step-then Q before step rest action next h keeps go =
      then-Ensures (At (Reached old K (behind_first before)))
        (At (Reached old K (behind_first before ++ step ∷ []))) Q (At (Stopped old F))
        (run_step step action) next (run_step-Ensures before step rest action h keeps) go

  module _ (remote : Remote W) (ctx : Context) (settings : List Setting) where
    custom-Keeps :
        (before : List ProvisioningStep) (step : ProvisioningStep)
        → Closed (Started old K step (behind_first before)) service_script
    custom-Keeps before step v m us p = (script m v p.0, p.1)

    finish :
        Ensures {W = W}
          (At (Reached old K node_plan))
          (set_service service_bacalhau ServiceState.succeeded >> modify (set_complete ctx.now))
          (λ _. At (Finished old K ctx))
          (At (Stopped old F))
    finish =
        let G : Machine → List Update → Type 0 = λ m us.
          (x : Machine) × K x
          × (m ≡ set_service_state x service_bacalhau ServiceState.succeeded)
          × (us ≡ log node_plan old) in
        then-Ensures (At (Reached old K node_plan)) (At G) (λ _. At (Finished old K ctx))
          (At (Stopped old F)) _ _
          (set_service-Ensures (Reached old K node_plan) G (At (Stopped old F)) _ _
            (λ m us p. (m, p.0, refl, p.1)))
          (modify-Ensures G (Finished old K ctx) (At (Stopped old F)) _
            (λ m us p. (p.0, p.1, ap (set_complete ctx.now) p.2, p.3)))

    pub node_steps-Ensures :
        Ensures
          (At (Reached old K (ProvisioningStep.node_provisioning ∷ [])))
          (node_steps remote ctx settings)
          (λ _. At (Finished old K ctx))
          (At (Stopped old F))
    unfolding node_steps
    node_steps-Ensures =
        step-then _ [] _ (drop 2 node_plan) _ _ refl (setup_node_config_metadata-Keeps remote ctx _)
          (step-then _ (take 1 later_steps) _ (drop 3 node_plan) _ _ refl
            (install_by_script-Keeps remote ctx _ _ _)
            (step-then _ (take 2 later_steps) _ (drop 4 node_plan) _ _ refl
              (install_by_script-Keeps remote ctx _ _ _)
              (step-then _ (take 3 later_steps) _ (drop 5 node_plan) _ _ refl
                (setup_bacalhau_service-Keeps remote ctx _)
                (step-then _ (take 4 later_steps) _ (drop 6 node_plan) _ _ refl
                  (verify_bacalhau_deployment-Keeps remote ctx _)
                  (step-then _ (take 5 later_steps) _ (drop 7 node_plan) _ _ refl
                    (apply_if_any-Keeps remote ctx _ settings)
                    (step-then _ (take 6 later_steps) _ (drop 8 node_plan) _ _ refl
                      (on_world-Keeps _ _)
                      (step-then _ (take 7 later_steps) _ (drop 9 node_plan) _ _ refl
                        (test-Keeps _ _ _ _ (pure-Keeps _ _) (
                          execute_custom_script-Keeps remote ctx _ (
                            custom-Keeps (take 7 later_steps)
                              ProvisioningStep.running_custom_script)))
                        finish)))))))
