-- ===== src/Config/Created.antt =====
-- A machine that `createNewMachine` has made: no orchestrator, and not failed.
use andaime.Base.{
  ℕ, false, List, [], ◌∷◌, some, Text, is_empty, ◌≡◌, refl, sym, ap, ◌∙◌, ◌&&◌, to_lower, subst,
  some_eq, Bool-cases, Option-cases, inl, inr, arith,
}
use andaime.Types.{
  DeploymentType, ServiceState, MachineResourceState, ResourceType, required_services,
}
use andaime.Types.Resources.{required_resources}
use andaime.Location.{Tables, is_valid_location}
use andaime.Machine.{
  Machine, set_services, set_service_state, ensure_machine_services, set_machine_resource,
}
use andaime.Machine.Create.{
  start_resources, start_machine, set_display_location, new_machine, requested, placed,
}
use andaime.Machine.Made.{new_machine_valid}
use andaime.Config.Image.{ImageUrl, is_valid_gcp_disk_image_family}
use andaime.Config.Create.{
  Config, Checked, ok, err, ◌>>=◌, set_image, checked_image, with_image, ubuntu_family, ubuntu_url,
  equipped, created, create_new_machine,
}

-- Inversion of a successful chain.
pub >>=-eq-ok {ℓ κ} :
    {A : Type ℓ} {B : Type κ} (m : Checked A) (f : A → Checked B) (b : B)
    → (m >>= f) ≡ ok b
    → (a : A) × (m ≡ ok a) × (f a ≡ ok b)
>>=-eq-ok (ok a) f b h = (a, refl, h)
>>=-eq-ok (err e) f b h = cc

-- The machine is no orchestrator and has not failed.
abbrev pub IsFresh : Machine → Type 0
IsFresh m = (m.orchestrator ≡ false) × (m.failed ≡ false)

set_services-IsFresh :
    (m : Machine) (ss : List Text) (state : ServiceState)
    → IsFresh m
    → IsFresh (set_services m ss state)
unfolding set_services set_service_state
set_services-IsFresh m [] state h = h
set_services-IsFresh m (s ∷ ss) state h =
    set_services-IsFresh (set_service_state m s state) ss state h

start_resources-IsFresh :
    (m : Machine) (rs : List ResourceType) → IsFresh m → IsFresh (start_resources m rs)
unfolding start_resources set_machine_resource
start_resources-IsFresh m [] h = h
start_resources-IsFresh m (r ∷ rs) h =
    start_resources-IsFresh
      (set_machine_resource m (to_lower r.resource_string) MachineResourceState.not_started) rs h

start_machine-IsFresh : (m : Machine) → IsFresh m → IsFresh (start_machine m)
unfolding start_machine
start_machine-IsFresh m h =
    start_resources-IsFresh (set_services m required_services ServiceState.not_started)
      (required_resources m.cloud_provider)
      (set_services-IsFresh m required_services ServiceState.not_started h)

new_machine-IsFresh :
    (tables : Tables) (id : Text) (provider : DeploymentType) (location type : Text) (disk : ℕ)
    (m : Machine)
    → new_machine tables id provider location type disk ≡ some m
    → IsFresh m
unfolding new_machine set_display_location start_machine
new_machine-IsFresh tables id provider location type disk m h =
    elim (Bool-cases (is_valid_location tables provider location)) [
      | inl v ↦
          let (rz, _, e) = new_machine_valid tables id provider location type disk v in
          let x = placed (requested id provider type disk) location rz in
          subst IsFresh (some_eq (start_machine x) m (sym e ∙ h))
            (start_machine-IsFresh x (refl, refl))
      | inr v ↦ absurd (ground arith)
    ]

pub ok_eq {ℓ} : {A : Type ℓ} (a b : A) → ok a ≡ ok b → a ≡ b
ok_eq a b e = cc

checked_image-IsFresh :
    (family url : Text) (m n : Machine) (found : ImageUrl)
    → checked_image family url m found ≡ ok n
    → IsFresh m
    → IsFresh n
checked_image-IsFresh family url m n ImageUrl.panics h f = cc
checked_image-IsFresh family url m n ImageUrl.invalid h f = cc
checked_image-IsFresh family url m n (ImageUrl.found u) h f = subst IsFresh (ok_eq _ n h) f

set_image-IsFresh :
    (cfg : Config) (family url : Text) (m n : Machine) (provider : DeploymentType)
    → set_image cfg family url m provider ≡ ok n
    → IsFresh m
    → IsFresh n
unfolding set_image
set_image-IsFresh cfg family url m n DeploymentType.gcp h f =
    elim (Bool-cases (is_empty family && is_empty url)) [
      | inl e ↦
          subst IsFresh
            (ok_eq (with_image ubuntu_family ubuntu_url m) n (sym (rw (e, set_image) refl) ∙ h)) f
      | inr e ↦
          checked_image-IsFresh family url m n
            (is_valid_gcp_disk_image_family cfg.disk_images family)
            (sym (rw (e, set_image) refl) ∙ h) f
    ]
set_image-IsFresh cfg family url m n DeploymentType.azure h f = subst IsFresh (ok_eq m n h) f
set_image-IsFresh cfg family url m n DeploymentType.aws h f = subst IsFresh (ok_eq m n h) f
set_image-IsFresh cfg family url m n DeploymentType.unknown h f = subst IsFresh (ok_eq m n h) f

equipped-IsFresh : (cfg : Config) (m : Machine) → IsFresh m → IsFresh (equipped cfg m)
unfolding ensure_machine_services
equipped-IsFresh cfg m h =
    set_services-IsFresh (ensure_machine_services m) required_services ServiceState.not_started
      (set_services-IsFresh m required_services ServiceState.not_started h)

pub create_new_machine-IsFresh :
    (cfg : Config) (id location type family url : Text) (m : Machine)
    → create_new_machine cfg id location type family url ≡ ok m
    → IsFresh m
unfolding create_new_machine
create_new_machine-IsFresh cfg id location type family url m h =
    let made = new_machine cfg.tables id cfg.provider location type cfg.default_disk_size_gb in
    let rest : Machine → Checked Machine =
      λ x. set_image cfg family url (equipped cfg x) cfg.provider in
    elim (Option-cases made) [
      | inl e ↦ absurd (ground arith)
      | inr (x, e) ↦
          set_image-IsFresh cfg family url (equipped cfg x) m cfg.provider
            (sym (ap (λ o. created location o rest) e) ∙ h)
            (equipped-IsFresh cfg x (
              new_machine-IsFresh cfg.tables id cfg.provider location type cfg.default_disk_size_gb
                x e))
    ]
