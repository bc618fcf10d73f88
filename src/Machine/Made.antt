-- ===== src/Machine/Made.antt =====
-- What `NewMachine` makes of a location.
use andaime.Base.{
  ℕ, true, false, List, [], ◌∷◌, ◌++◌, none, some, Text, codes, to_lower, ◌≡◌, ◌≢◌, refl, sym, ap,
  ◌∙◌, inl, inr, ◌↔◌, Bool-cases, Option-cases, arith,
}
use andaime.Types.{
  DeploymentType, ServiceState, MachineResourceState, ResourceType, required_services,
}
use andaime.Types.Resources.{required_resources}
use andaime.Location.{
  Tables, normalize_location, provider_name, is_valid_region_zone, is_valid_location,
}
use andaime.Machine.{Machine, set_service_state, set_services, set_machine_resource}
use andaime.Machine.Create.{
  start_resources, start_machine, placed, requested, accepts_region_zone, set_display_location,
  new_machine,
}

-- What a machine is asked for with.
abbrev basics : Machine → Text × Text × Text × Text × DeploymentType × Text × ℕ
basics m =
    (m.region, m.zone, m.display_location, m.name, m.cloud_provider, m.vm_size, m.disk_size_gb)

set_services-basics :
    (m : Machine) (ts : List Text) (v : ServiceState) → basics (set_services m ts v) ≡ basics m
unfolding set_services set_service_state
set_services-basics m [] v = refl
set_services-basics m (t ∷ ts) v = set_services-basics (set_service_state m t v) ts v

start_resources-basics :
    (m : Machine) (rs : List ResourceType) → basics (start_resources m rs) ≡ basics m
unfolding start_resources set_machine_resource
start_resources-basics m [] = refl
start_resources-basics m (r ∷ rs) =
    start_resources-basics
      (set_machine_resource m (to_lower r.resource_string) MachineResourceState.not_started) rs

start_machine-basics : (m : Machine) → basics (start_machine m) ≡ basics m
unfolding start_machine
start_machine-basics m =
    start_resources-basics (set_services m required_services ServiceState.not_started)
      (required_resources m.cloud_provider)
    ∙ set_services-basics m required_services ServiceState.not_started

none-some {ℓ} : {A : Type ℓ} (a : A) → none ≢ some a
none-some a e = cc

module _ (tables : Tables) where
  valid_parts :
      (provider : DeploymentType) (location : Text)
      → is_valid_location tables provider location ≡ true
      → (rz : Text × Text) × (normalize_location (provider_name provider) location ≡ some rz)
        × (is_valid_region_zone tables provider rz ≡ true)
  unfolding is_valid_location
  valid_parts provider location h =
      elim (Option-cases (normalize_location (provider_name provider) location)) [
        | inl e ↦ absurd (ground arith)
        | inr (rz, e) ↦ (rz, e, ground arith)
      ]

  not_made :
      (id : Text) (provider : DeploymentType) (location vm_size : Text) (disk : ℕ)
      → is_valid_location tables provider location ≡ false
      → new_machine tables id provider location vm_size disk ≡ none
  unfolding new_machine
  not_made id provider location vm_size disk h = ground arith

  made_valid :
      (id : Text) (provider : DeploymentType) (location vm_size : Text) (disk : ℕ) (m : Machine)
      → new_machine tables id provider location vm_size disk ≡ some m
      → is_valid_location tables provider location ≡ true
  made_valid id provider location vm_size disk m e =
      elim (Bool-cases (is_valid_location tables provider location)) [
        | inl h ↦ h
        | inr h ↦ absurd (none-some m (sym (not_made id provider location vm_size disk h) ∙ e))
      ]

  -- The two switches agree.
  accepts_valid :
      (provider : DeploymentType) (rz : Text × Text)
      → accepts_region_zone tables provider rz ≡ is_valid_region_zone tables provider rz
  unfolding is_valid_region_zone
  accepts_valid DeploymentType.azure (region, zone) = refl
  accepts_valid DeploymentType.gcp (region, zone) = refl
  accepts_valid DeploymentType.aws (region, zone) = refl
  accepts_valid DeploymentType.unknown (region, zone) = refl

  made_of :
      (id : Text) (provider : DeploymentType) (location vm_size : Text) (disk : ℕ)
      (rz : Text × Text)
      → is_valid_location tables provider location ≡ true
      → normalize_location (provider_name provider) location ≡ some rz
      → is_valid_region_zone tables provider rz ≡ true
      → new_machine tables id provider location vm_size disk
        ≡ some (start_machine (placed (requested id provider vm_size disk) location rz))
  unfolding new_machine set_display_location
  made_of id provider location vm_size disk rz h e v =
      let a : accepts_region_zone tables provider rz ≡ true = accepts_valid provider rz ∙ v in
      ground arith

  pub new_machine_valid :
      (id : Text) (provider : DeploymentType) (location vm_size : Text) (disk : ℕ)
      → is_valid_location tables provider location ≡ true
      → (rz : Text × Text) × (normalize_location (provider_name provider) location ≡ some rz)
        × (new_machine tables id provider location vm_size disk
            ≡ some (start_machine (placed (requested id provider vm_size disk) location rz)))
  new_machine_valid id provider location vm_size disk h =
      let (rz, e, v) = valid_parts provider location h in
      (rz, e, made_of id provider location vm_size disk rz h e v)

  -- A machine is made exactly when its location is valid: the second look at the location, in
  -- `SetDisplayLocation`, never fails where the first has passed. The machine has the region and
  -- the zone that the location is normalized to, and the name, the provider and the sizes that were
  -- asked for; of a location that is not valid no machine is made.
  pub new_machine_iff :
      (id : Text) (provider : DeploymentType) (location vm_size : Text) (disk : ℕ)
      → ((is_valid_location tables provider location ≡ true) ↔ (
          (m : Machine) × (rz : Text × Text) × (new_machine tables id provider location vm_size disk
            ≡ some m)
          × (normalize_location (provider_name provider) location ≡ some rz)
          × (m.region ≡ rz.0)
          × (m.zone ≡ rz.1)
          × (m.display_location ≡ location)
          × (m.name ≡ id ++ codes "-vm")
          × (m.cloud_provider ≡ provider)
          × (m.vm_size ≡ vm_size)
          × (m.disk_size_gb ≡ disk)))
        × ((is_valid_location tables provider location ≡ false)
            ↔ (new_machine tables id provider location vm_size disk ≡ none))
  new_machine_iff id provider location vm_size disk =
      let made : is_valid_location tables provider location ≡ true
          → (m : Machine) × (rz : Text × Text) × (new_machine tables id provider location vm_size
                disk
              ≡ some m)
            × (normalize_location (provider_name provider) location ≡ some rz)
            × (basics m ≡ basics (placed (requested id provider vm_size disk) location rz)) =
        λ h.
          let (rz, e, n) = new_machine_valid id provider location vm_size disk h in
          let x = placed (requested id provider vm_size disk) location rz in
          (start_machine x, rz, n, e, start_machine-basics x) in
      (
        (
          λ h.
              let (m, rz, n, e, b) = made h in
              (
                m,
                rz,
                n,
                e,
                ap (λ y. y.0) b,
                ap (λ y. y.1) b,
                ap (λ y. y.2) b,
                ap (λ y. y.3) b,
                ap (λ y. y.4) b,
                ap (λ y. y.5) b,
                ap (λ y. y.6) b,
              ),
          λ w. made_valid id provider location vm_size disk w.0 w.2,
        ),
        (
          not_made id provider location vm_size disk,
          λ n. elim (Bool-cases (is_valid_location tables provider location)) [
            | inl h ↦ absurd (none-some _ (sym n ∙ (made h).2))
            | inr h ↦ h
          ],
        ),
      )
