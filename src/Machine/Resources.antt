-- ===== src/Machine/Resources.antt =====
-- The resources of a machine, and when a machine is complete.
use andaime.Base.{
  ℕ, ◌≤◌, ◌<◌, Bool, true, ◌&&◌, List, [], ◌∷◌, Text, same, to_lower, to_lower_idem, lookup,
  lookup-insert, length, if◌then◌else◌, ◌≡◌, refl, ap₂, ◌⊎◌, inl, inr, ◌≢◌, ◌↔◌, Bool-cases, arith,
}
use andaime.Types.{
  DeploymentType, MachineResourceState, ResourceType, resource_code, required_services, running,
  succeeded,
}
use andaime.Types.Resources.{required_resources, get_azure_resource_type}
use andaime.Machine.{
  Machine, get_machine_resource, get_machine_resource_state, set_machine_resource_state,
  set_machine_resource, with_state, is_completed, count_resources, count_services, all_counted,
  is_complete,
}
use andaime.Machine.Services.{
  AllSucceeded, count_services-AllSucceeded, AllSucceeded-count_services,
}

-- A resource's state reads back under any spelling of its name in upper and lower case, and a
-- write for one resource leaves the state of every other.
pub get_machine_resource_state-set :
    (m : Machine) (n k : Text) (v : MachineResourceState)
    → get_machine_resource_state (set_machine_resource_state m n v) k
      ≡ (if same (to_lower n) (to_lower k) then v else get_machine_resource_state m k)
unfolding get_machine_resource set_machine_resource_state
get_machine_resource_state-set m n k v = ground (
  arith,
  lookup-insert (to_lower n) (to_lower k) (with_state (lookup (to_lower n) m.machine_resources) n v)
      m.machine_resources,
)

-- The same of `SetMachineResource`, which makes the entry anew.
pub get_machine_resource-set_resource :
    (m : Machine) (n k : Text) (v : MachineResourceState)
    → get_machine_resource (set_machine_resource m n v) k ≡ (
        if same (to_lower n) (to_lower k)
        then record {
          resource_name = n;
          resource_type = get_azure_resource_type n;
          resource_state = v;
          resource_value = [];
        }
        else get_machine_resource m k)
unfolding get_machine_resource set_machine_resource
get_machine_resource-set_resource m n k v = ground (
  arith,
  lookup-insert (to_lower n) (to_lower k)
      (record {
        resource_name = n;
        resource_type = get_azure_resource_type n;
        resource_state = v;
        resource_value = [];
      })
      m.machine_resources,
)

-- Every listed resource is running or has succeeded.
abbrev pub AllCompleted : Machine → List ResourceType → Type 0
AllCompleted m [] = Unit {0}
AllCompleted m (r ∷ rs) =
    ((get_machine_resource_state m r.resource_string ≡ succeeded)
      ⊎ (get_machine_resource_state m r.resource_string ≡ running))
    × AllCompleted m rs

is_completed→state :
    (s : MachineResourceState) → is_completed s ≡ true → (s ≡ succeeded) ⊎ (s ≡ running)
unfolding resource_code
is_completed→state s h = ground arith

state→is_completed :
    (s : MachineResourceState) → (s ≡ succeeded) ⊎ (s ≡ running) → is_completed s ≡ true
unfolding resource_code
state→is_completed s h = ground arith

get_machine_resource-to_lower :
    (m : Machine) (k : Text) → get_machine_resource m (to_lower k) ≡ get_machine_resource m k
unfolding get_machine_resource
get_machine_resource-to_lower m k = ground (arith, to_lower_idem k)

pub count_resources-le : (m : Machine) (rs : List ResourceType) → count_resources m rs ≤ length rs
unfolding count_resources
count_resources-le m [] = omega arith
count_resources-le m (r ∷ rs) = ground (arith, count_resources-le m rs)

count_resources-AllCompleted :
    (m : Machine) (rs : List ResourceType) → count_resources m rs ≡ length rs → AllCompleted m rs
unfolding count_resources
count_resources-AllCompleted m [] h = tt
count_resources-AllCompleted m (r ∷ rs) h =
    let k = r.resource_string in
    let s = (get_machine_resource m (to_lower k)).resource_state in
    elim (Bool-cases (is_completed s)) [
      | inl e ↦ (
        rw (get_machine_resource-to_lower m k) at (is_completed→state s e),
        count_resources-AllCompleted m rs (ground arith),
      )
      | inr e ↦ absurd (ground (arith, count_resources-le m rs))
    ]

AllCompleted-count_resources :
    (m : Machine) (rs : List ResourceType) → AllCompleted m rs → count_resources m rs ≡ length rs
unfolding count_resources
AllCompleted-count_resources m [] h = refl
AllCompleted-count_resources m (r ∷ rs) h = ground (
  arith,
  get_machine_resource-to_lower m r.resource_string,
  state→is_completed (get_machine_resource_state m r.resource_string) h.0,
  AllCompleted-count_resources m rs h.1,
)

required_resources_pos :
    (t : DeploymentType) → t ≢ DeploymentType.unknown → 0 < length (required_resources t)
unfolding required_resources
required_resources_pos DeploymentType.unknown h = absurd (h refl)
required_resources_pos DeploymentType.azure h = omega arith
required_resources_pos DeploymentType.gcp h = omega arith
required_resources_pos DeploymentType.aws h = omega arith

all_counted→eq : (c t : ℕ) → all_counted (c, t) ≡ true → (c ≡ t) × (0 < t)
all_counted→eq c t h = ground arith

eq→all_counted : (c t : ℕ) → c ≡ t → 0 < t → all_counted (c, t) ≡ true
eq→all_counted c t e h = ground arith

both_true : (a b : Bool) → (a && b) ≡ true → (a ≡ true) × (b ≡ true)
both_true a b h = ground arith

no_resources : (t : DeploymentType) → t ≡ DeploymentType.unknown → length (required_resources t) ≡ 0
unfolding required_resources
no_resources t e = ground arith

-- A machine is complete exactly when its provider is known, every resource that the provider
-- requires is running or has succeeded, and each of the five required services has succeeded.
pub is_complete_iff :
    (m : Machine)
    → (is_complete m ≡ true) ↔ (
        (m.cloud_provider ≢ DeploymentType.unknown)
        × AllCompleted m (required_resources m.cloud_provider)
        × AllSucceeded m required_services)
unfolding is_complete
is_complete_iff m = (
  λ h.
      let (hr, hs) = both_true _ _ h in
      let (er, pr) = all_counted→eq (count_resources m rs) (length rs) hr in
      let (es, ps) =
        all_counted→eq (count_services m required_services) (length required_services) hs in
      (
        λ e. absurd (omega (arith, no_resources m.cloud_provider e, pr)),
        count_resources-AllCompleted m rs er,
        count_services-AllSucceeded m required_services es,
      ),
  λ h.
      ap₂ ◌&&◌
        (eq→all_counted (count_resources m rs) (length rs) (AllCompleted-count_resources m rs h.1)
          (required_resources_pos m.cloud_provider h.0))
        (eq→all_counted (count_services m required_services) (length required_services)
          (AllSucceeded-count_services m required_services h.2) (omega arith)),
)
  where
    rs : List ResourceType
    rs = required_resources m.cloud_provider
