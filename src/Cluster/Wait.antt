-- ===== src/Cluster/Wait.antt =====
-- WaitForAllMachinesToReachState of pkg/providers/common/cluster_deployer.go. The loop polls a
-- deployment that others change: a run is given by its turns, each with the machines that the turn
-- reads and with whether the context is done at its `select`.
use andaime.Base.{
  Bool, true, false, List, [], ◌∷◌, ◌++◌, Option, none, some, Text, Dict, if◌then◌else◌, ◌≡◌, refl,
  sym, ap, ◌∙◌, ◌↔◌, ◌⊎◌, inl, inr, Bool-cases, arith, ◌==◌, ==_refl, ==_iff, ℕ,
}
use andaime.Types.{MachineResourceState, same_resource, resource_code}
use andaime.Machine.{Machine, get_machine_resource_state}
use andaime.Cluster.{get_machines}

pub record Turn : Type 0 where
  pub machines : Dict Machine
  pub done : Bool

-- The inner loop: `allReady`.
unfoldable pub all_ready : Text → MachineResourceState → Dict Machine → Bool
all_ready type state [] = true
all_ready type state ((k, m) ∷ ms) =
    let rest = all_ready type state ms in
    if same_resource (get_machine_resource_state m type) state then rest else false

-- The loop over the turns: `some true` is the return of nil, `some false` the error of the context,
-- and `none` says that the loop still waits behind the last turn.
unfoldable pub wait_for_all_machines_to_reach_state :
    Text → MachineResourceState → List Turn → Option Bool
unfolding all_ready get_machines
wait_for_all_machines_to_reach_state type state [] = none
wait_for_all_machines_to_reach_state type state (t ∷ ts) =
    let rest = wait_for_all_machines_to_reach_state type state ts in
    if all_ready type state (get_machines t.machines)
    then some true
    else if t.done
    then some false
    else rest

-- Every machine has failed or has its resource in the state.
abbrev pub Reached : Text → MachineResourceState → Dict Machine → Type 0
Reached type state [] = Unit {0}
Reached type state ((k, m) ∷ ms) =
    ((m.failed ≡ true) ⊎ (get_machine_resource_state m type ≡ state)) × Reached type state ms

-- The context is done in none of the turns.
abbrev pub NotDone : List Turn → Type 0
NotDone [] = Unit {0}
NotDone (t ∷ ts) = (t.done ≡ false) × NotDone ts

-- One of the turns finds every machine in the state, and the context is done in none before.
abbrev pub ReachedInTime : Text → MachineResourceState → List Turn → Type 0
ReachedInTime type state ts =
    (before : List Turn) × (t : Turn) × (after : List Turn) × (ts ≡ before ++ t ∷ after)
    × NotDone before
    × Reached type state t.machines

state_of : ℕ → MachineResourceState
state_of c =
    if c == 0
    then MachineResourceState.unknown
    else if c == 1
    then MachineResourceState.not_started
    else if c == 2
    then MachineResourceState.pending
    else if c == 3
    then MachineResourceState.running
    else if c == 4
    then MachineResourceState.succeeded
    else if c == 5
    then MachineResourceState.stopping
    else if c == 6
    then MachineResourceState.failed
    else MachineResourceState.terminated

state_of-resource_code : (a : MachineResourceState) → state_of (resource_code a) ≡ a
unfolding state_of resource_code
state_of-resource_code MachineResourceState.unknown = refl
state_of-resource_code MachineResourceState.not_started = refl
state_of-resource_code MachineResourceState.pending = refl
state_of-resource_code MachineResourceState.running = refl
state_of-resource_code MachineResourceState.succeeded = refl
state_of-resource_code MachineResourceState.stopping = refl
state_of-resource_code MachineResourceState.failed = refl
state_of-resource_code MachineResourceState.terminated = refl

same_resource→eq : (a b : MachineResourceState) → same_resource a b ≡ true → a ≡ b
same_resource→eq a b h =
    sym (state_of-resource_code a)
    ∙ ap state_of ((==_iff (resource_code a) (resource_code b)).0 h)
    ∙ state_of-resource_code b

same_resource_refl : (a : MachineResourceState) → same_resource a a ≡ true
same_resource_refl a = ==_refl (resource_code a)

module _ (type : Text) (state : MachineResourceState) where
  ready-Reached :
      (ms : Dict Machine) → all_ready type state (get_machines ms) ≡ true → Reached type state ms
  unfolding all_ready get_machines
  ready-Reached [] h = tt
  ready-Reached ((k, m) ∷ ms) h = elim (Bool-cases m.failed) [
    | inl f ↦ (
      inl f,
      ready-Reached ms (
          sym (
            ap (λ c. all_ready type state (if c then get_machines ms else (k, m) ∷ get_machines ms))
              f)
          ∙ h),
    )
    | inr f ↦
        let e : all_ready type state ((k, m) ∷ get_machines ms) ≡ true =
          sym (
            ap (λ c. all_ready type state (if c then get_machines ms else (k, m) ∷ get_machines ms))
              f)
          ∙ h in
        (
          inr (same_resource→eq (get_machine_resource_state m type) state (ground arith)),
          ready-Reached ms (ground arith),
        )
  ]

  Reached-ready :
      (ms : Dict Machine) → Reached type state ms → all_ready type state (get_machines ms) ≡ true
  unfolding all_ready get_machines
  Reached-ready [] r = refl
  Reached-ready ((k, m) ∷ ms) (inl f, r) = rw f (Reached-ready ms r)
  Reached-ready ((k, m) ∷ ms) (inr e, r) = elim (Bool-cases m.failed) [
    | inl f ↦ rw f (Reached-ready ms r)
    | inr f ↦
        ap (λ c. all_ready type state (if c then get_machines ms else (k, m) ∷ get_machines ms)) f
        ∙ ap (λ b. if b then all_ready type state (get_machines ms) else false)
            (ap (λ q. same_resource q state) e ∙ same_resource_refl state)
        ∙ Reached-ready ms r
  ]

  wait-ReachedInTime :
      (ts : List Turn)
      → wait_for_all_machines_to_reach_state type state ts ≡ some true
      → ReachedInTime type state ts
  unfolding wait_for_all_machines_to_reach_state
  wait-ReachedInTime [] h = cc
  wait-ReachedInTime (t ∷ ts) h =
      elim (Bool-cases (all_ready type state (get_machines t.machines))) [
        | inl a ↦ ([], t, ts, refl, tt, ready-Reached t.machines a)
        | inr a ↦ elim (Bool-cases t.done) [
          | inl d ↦ ground arith
          | inr d ↦
              let (before, u, after, e, n, r) = wait-ReachedInTime ts (ground arith) in
              (t ∷ before, u, after, ap (◌∷◌ t) e, (d, n), r)
        ]
      ]

  wait-behind :
      (before : List Turn) (t : Turn) (after : List Turn)
      → NotDone before
      → Reached type state t.machines
      → wait_for_all_machines_to_reach_state type state (before ++ t ∷ after) ≡ some true
  unfolding wait_for_all_machines_to_reach_state
  wait-behind [] t after n r = rw (Reached-ready t.machines r) refl
  wait-behind (b ∷ before) t after (d, n) r =
      elim (Bool-cases (all_ready type state (get_machines b.machines))) [
        | inl a ↦ rw a refl
        | inr a ↦ rw a (rw d (wait-behind before t after n r))
      ]

  in_time :
      (ts : List Turn)
      → ReachedInTime type state ts
      → wait_for_all_machines_to_reach_state type state ts ≡ some true
  in_time ts (before, t, after, e, n, r) =
      ap (wait_for_all_machines_to_reach_state type state) e ∙ wait-behind before t after n r

  -- The wait returns without an error exactly when one of its turns finds every machine that has not
  -- failed in the state, and the context is done in none of the turns before.
  pub wait_for_all_machines_iff :
      (ts : List Turn)
      → (wait_for_all_machines_to_reach_state type state ts ≡ some true)
        ↔ ReachedInTime type state ts
  wait_for_all_machines_iff ts = (wait-ReachedInTime ts, λ r. in_time ts r)
