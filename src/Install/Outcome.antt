-- ===== src/Install/Outcome.antt =====
-- How the installation ends, and that it touches no other service.
use andaime.Base.{false, List, same, ◌≡◌, refl, ◌⊎◌, inl, inr, arith}
use andaime.Types.{ServiceState, service_docker, service_core_packages}
use andaime.Machine.{Machine, get_service_state, set_service_state}
use andaime.Machine.Services.{get_service_state-set_self, get_service_state-set_ne}
use andaime.Remote.{Error, Remote}
use andaime.Exec.{Update, Run, set_service}
use andaime.Exec.Rules.{Ends, Ensures, then-Ensures}
use andaime.Exec.Keeps.{At, on_err-Ensures, set_service-Ensures, fail-Ensures}
use andaime.Install.{fail_service, install_core, install_docker_and_core_packages}
use andaime.Install.Keeps.{Closed, install_service-Keeps, verify_docker-Keeps}

-- The two services of the installation, beside what is known of the rest.
abbrev pub Services :
    (Machine → List Update → Type 0)
    → (ServiceState → ServiceState → Type 0)
    → Machine
    → List Update
    → Type 0
Services I R m us =
    I m us × R (get_service_state m service_docker) (get_service_state m service_core_packages)

abbrev pub Any : ServiceState → ServiceState → Type 0
Any d c = Unit {0}

abbrev pub Docker : ServiceState → ServiceState → ServiceState → Type 0
Docker s d c = d ≡ s

abbrev pub Both : ServiceState → ServiceState → Type 0
Both d c = (d ≡ ServiceState.succeeded) × (c ≡ ServiceState.succeeded)

-- One of the two has failed: Docker, or the core packages behind an installed Docker.
abbrev pub OneFailed : ServiceState → ServiceState → Type 0
OneFailed d c =
    (d ≡ ServiceState.failed) ⊎ ((d ≡ ServiceState.succeeded) × (c ≡ ServiceState.failed))

docker-core : same service_docker service_core_packages ≡ false
unfolding same
docker-core = refl

core-docker : same service_core_packages service_docker ≡ false
unfolding same
core-docker = refl

module _ {W : Type 0} (remote : Remote W) (I : Machine → List Update → Type 0)
    (docker : Closed I service_docker) (core : Closed I service_core_packages) where
  set-Docker :
      (s : ServiceState) (E : Run W → Type 0)
      → Ensures
          (At (Services I Any))
          (set_service service_docker s)
          (λ _. At (Services I (Docker s)))
          E
  set-Docker s E =
      set_service-Ensures (Services I Any) (Services I (Docker s)) E service_docker s
        (λ m us p. (docker s m us p.0, get_service_state-set_self m service_docker s))

  Any-docker : Closed (Services I Any) service_docker
  Any-docker v m us p = (docker v m us p.0, tt)

  Docker-core : (s : ServiceState) → Closed (Services I (Docker s)) service_core_packages
  Docker-core s v m us p = (
    core v m us p.0,
    ground
        (arith, p.1, get_service_state-set_ne m service_core_packages service_docker v core-docker),
  )

  set_core :
      (s : ServiceState) (R : ServiceState → ServiceState → Type 0) (E : Run W → Type 0)
      → ((d c : ServiceState) → d ≡ ServiceState.succeeded → c ≡ s → R d c)
      → Ensures
          (At (Services I (Docker ServiceState.succeeded)))
          (set_service service_core_packages s)
          (λ _. At (Services I R))
          E
  set_core s R E h =
      set_service-Ensures (Services I (Docker ServiceState.succeeded)) (Services I R) E
        service_core_packages s
        (λ m us p. (
          core s m us p.0,
          h (get_service_state (set_service_state m service_core_packages s) service_docker)
              (get_service_state (set_service_state m service_core_packages s)
                service_core_packages)
              (Docker-core ServiceState.succeeded s m us p).1
              (get_service_state-set_self m service_core_packages s),
        ))

  docker_failed :
      (e : Error) (Q : Unit {0} → Run W → Type 0)
      → Ensures (At (Services I Any)) (fail_service service_docker e) Q (At (Services I OneFailed))
  unfolding fail_service
  docker_failed e Q =
      then-Ensures (At (Services I Any)) (At (Services I (Docker ServiceState.failed))) Q
        (At (Services I OneFailed)) _ _ (set-Docker ServiceState.failed (At (Services I OneFailed)))
        (fail-Ensures (At (Services I (Docker ServiceState.failed))) Q (At (Services I OneFailed)) e
          (λ s p. (p.0, inl p.1)))

  core_failed :
      (e : Error) (Q : Unit {0} → Run W → Type 0)
      → Ensures
          (At (Services I (Docker ServiceState.succeeded)))
          (fail_service service_core_packages e)
          Q
          (At (Services I OneFailed))
  unfolding fail_service
  core_failed e Q =
      then-Ensures (At (Services I (Docker ServiceState.succeeded))) (At (Services I OneFailed)) Q
        (At (Services I OneFailed)) _ _
        (set_core ServiceState.failed OneFailed (At (Services I OneFailed)) (λ d c p q. inr (p, q)))
        (fail-Ensures (At (Services I OneFailed)) Q (At (Services I OneFailed)) e (λ s p. p))

  core_part :
      Ensures
        (At (Services I (Docker ServiceState.succeeded)))
        (install_core remote)
        (λ _. At (Services I Both))
        (At (Services I OneFailed))
  unfolding install_core
  core_part =
      then-Ensures (At (Services I (Docker ServiceState.succeeded)))
        (At (Services I (Docker ServiceState.succeeded))) (λ _. At (Services I Both))
        (At (Services I OneFailed)) _ _
        (set_core ServiceState.updating (Docker ServiceState.succeeded) (At (Services I OneFailed))
          (λ d c p q. p))
        (then-Ensures (At (Services I (Docker ServiceState.succeeded)))
          (At (Services I (Docker ServiceState.succeeded))) (λ _. At (Services I Both))
          (At (Services I OneFailed)) _ _
          (on_err-Ensures (At (Services I (Docker ServiceState.succeeded)))
            (λ _. At (Services I (Docker ServiceState.succeeded)))
            (At (Services I (Docker ServiceState.succeeded))) (At (Services I OneFailed)) _ _
            (install_service-Keeps remote (Services I (Docker ServiceState.succeeded))
              service_core_packages (Docker-core ServiceState.succeeded) _ _)
            (λ e. core_failed e (λ _. At (Services I (Docker ServiceState.succeeded)))))
          (set_core ServiceState.succeeded Both (At (Services I OneFailed)) (λ d c p q. (p, q))))

  -- The same with the state left to the rules of runs.
  pub install-outcome :
      Ensures
        (At (Services I Any))
        (install_docker_and_core_packages remote)
        (λ _. At (Services I Both))
        (At (Services I OneFailed))
  unfolding install_docker_and_core_packages
  install-outcome =
      let F = At {W = W} (Services I OneFailed) in
      let D = At {W = W} (Services I (Docker ServiceState.succeeded)) in
      let S = At {W = W} (Services I Any) in
      then-Ensures S S (λ _. At (Services I Both)) F _ _
        (set_service-Ensures (Services I Any) (Services I Any) F _ _
          (Any-docker ServiceState.updating))
        (then-Ensures S S (λ _. At (Services I Both)) F _ _
          (on_err-Ensures S (λ _. S) S F _ _
            (install_service-Keeps remote (Services I Any) service_docker Any-docker _ _)
            (λ e. docker_failed e (λ _. S)))
          (then-Ensures S S (λ _. At (Services I Both)) F _ _
            (on_err-Ensures S (λ _. S) S F _ _ (verify_docker-Keeps remote (Services I Any))
              (λ e. docker_failed e (λ _. S)))
            (then-Ensures S D (λ _. At (Services I Both)) F _ _
              (set-Docker ServiceState.succeeded F) core_part)))

  -- The installation ends in one of two ways. It returns, with Docker and the core packages
  -- "succeeded"; or it gives an error, with Docker "failed", or with Docker "succeeded" and the core
  -- packages "failed". What the writes for these two services keep is kept in both cases, if it
  -- holds at the start.
  pub install_docker_and_core_packages-outcome :
      (s : Run W)
      → I s.machine s.updates
      → Ends
          (λ _. At (Services I Both))
          (At (Services I OneFailed))
          (install_docker_and_core_packages remote s)
  install_docker_and_core_packages-outcome s p = install-outcome s (p, tt)
