-- ===== src/Machine/Services.antt =====
-- The services of a machine: reads after writes, the reset, and completion.
use andaime.Base.{
  ℕ, ◌≤◌, Bool, true, false, List, [], ◌∷◌, Text, same, same_iff, same_refl, lookup, lookup-insert,
  length, if◌then◌else◌, ◌≡◌, refl, inl, inr, Bool-cases, arith,
}
use andaime.Types.{ServiceState, succeeded, same_service, service_code, required_services}
use andaime.Machine.{
  Machine, get_service_state, set_service_state, with_service, count_services, set_services,
  ensure_machine_services, set_complete,
}

-- A service reads back the state that was last stored for it, and a write for one service
-- leaves the state of every other.
pub get_service_state-set :
    (m : Machine) (s t : Text) (v : ServiceState)
    → get_service_state (set_service_state m s v) t
      ≡ (if same s t then v else get_service_state m t)
unfolding get_service_state set_service_state
get_service_state-set m s t v = ground (
  arith,
  same_iff s t,
  lookup-insert s t (with_service (lookup s m.machine_services) s v) m.machine_services,
)

pub get_service_state-set_self :
    (m : Machine) (s : Text) (v : ServiceState) → get_service_state (set_service_state m s v) s ≡ v
get_service_state-set_self m s v = ground (arith, get_service_state-set m s s v, same_refl s)

pub get_service_state-set_ne :
    (m : Machine) (s t : Text) (v : ServiceState)
    → same s t ≡ false
    → get_service_state (set_service_state m s v) t ≡ get_service_state m t
get_service_state-set_ne m s t v h = ground (arith, get_service_state-set m s t v)

pub count_services-le : (m : Machine) (ss : List Text) → count_services m ss ≤ length ss
unfolding count_services
count_services-le m [] = omega arith
count_services-le m (s ∷ ss) = ground (arith, count_services-le m ss)

-- Every listed service has succeeded.
abbrev pub AllSucceeded : Machine → List Text → Type 0
AllSucceeded m [] = Unit {0}
AllSucceeded m (s ∷ ss) = (get_service_state m s ≡ succeeded) × AllSucceeded m ss

same_service-succeeded :
    (s : ServiceState) → same_service s ServiceState.succeeded ≡ true → s ≡ ServiceState.succeeded
unfolding service_code
same_service-succeeded s h = ground arith

succeeded_same :
    (s : ServiceState) → s ≡ ServiceState.succeeded → same_service s ServiceState.succeeded ≡ true
unfolding service_code
succeeded_same s h = ground arith

pub count_services-AllSucceeded :
    (m : Machine) (ss : List Text) → count_services m ss ≡ length ss → AllSucceeded m ss
unfolding count_services
count_services-AllSucceeded m [] h = tt
count_services-AllSucceeded m (s ∷ ss) h =
    let t = get_service_state m s in
    elim (Bool-cases (same_service t ServiceState.succeeded)) [
      | inl e ↦ (same_service-succeeded t e, count_services-AllSucceeded m ss (ground arith))
      | inr e ↦ absurd (ground (arith, count_services-le m ss))
    ]

pub AllSucceeded-count_services :
    (m : Machine) (ss : List Text) → AllSucceeded m ss → count_services m ss ≡ length ss
unfolding count_services
AllSucceeded-count_services m [] h = refl
AllSucceeded-count_services m (s ∷ ss) h =
    ground (arith, succeeded_same (get_service_state m s), AllSucceeded-count_services m ss h.1)

-- The state of a service after the reset: `state` if it is listed, the old one if not.
abbrev pub listed : Text → List Text → Bool
listed t [] = false
listed t (s ∷ ss) = if same s t then true else listed t ss

pub get_service_state-set_services :
    (m : Machine) (ss : List Text) (v : ServiceState) (t : Text)
    → get_service_state (set_services m ss v) t ≡ (if listed t ss then v else get_service_state m t)
unfolding set_services
get_service_state-set_services m [] v t = refl
get_service_state-set_services m (s ∷ ss) v t = ground (
  arith,
  get_service_state-set_services (set_service_state m s v) ss v t,
  get_service_state-set m s t v,
)

-- `EnsureMachineServices` puts the five required services back to "not started", whatever was
-- stored, and leaves every other service.
pub ensure_machine_services_resets :
    (m : Machine) (t : Text)
    → get_service_state (ensure_machine_services m) t
      ≡ (if listed t required_services then ServiceState.not_started else get_service_state m t)
unfolding ensure_machine_services
ensure_machine_services_resets m t =
    get_service_state-set_services m required_services ServiceState.not_started t

-- Completing a machine again, at any later time, changes nothing: the first end time is kept.
pub set_complete-set_complete :
    (t u : ℕ) (m : Machine) → set_complete u (set_complete t m) ≡ set_complete t m
unfolding set_complete
set_complete-set_complete t u m = ground arith
