-- ===== src/Config/Accepted.antt =====
-- A configuration that is accepted.
use andaime.Base.{
  ℕ, zero, suc, ◌+◌, ◌<◌, ◌≤◌, ltb, Bool, true, false, ◌&&◌, List, [], ◌∷◌, ◌++◌, Option, some,
  Text, is_empty, Dict, insert, length, pos_part, is_positive, ℤ, codes, if◌then◌else◌, ◌≡◌, refl,
  ap, ◌∙◌, ◌⊎◌, Bool-cases, inl, inr, arith,
}
use andaime.Types.{MachineResourceState, DeploymentType}
use andaime.Location.{normalize_location, provider_name, is_valid_location}
use andaime.Machine.{Machine, set_machine_resource_state}
use andaime.Machine.Create.{start_machine, placed, requested}
use andaime.Machine.Made.{new_machine_valid}
use andaime.Config.Image.{ImageUrl, is_valid_gcp_disk_image_family}
use andaime.Config.Create.{
  Config, ConfigError, Checked, ok, ◌>>◌, RawMachine, RawMachineParams, ◌>>=◌, refuse_if, port_of,
  create_new_machine, created, equipped, set_image, checked_image, with_image, ubuntu_family,
  ubuntu_url, first_of, get_count_of_machines, orchestrator_locations,
}
use andaime.Config.{
  ConfigState, marked, Built, refuse_bad, add_raws, add_raw, add_at, add_machines, with_machine,
  is_valid_type, tell_machines, elected, finish_machines, build_machines, none_built,
  process_machines_config, check_config, at_location,
}

-- An image is found for a family and a URL: on GCP both are empty, or the table has the family.
abbrev pub HasImage : Config → DeploymentType → Text → Text → Type 0
HasImage cfg DeploymentType.gcp family url =
    ((is_empty family && is_empty url) ≡ true)
    ⊎ ((found : Text) × (is_valid_gcp_disk_image_family cfg.disk_images family
          ≡ ImageUrl.found found))
HasImage cfg DeploymentType.azure family url = Unit {0}
HasImage cfg DeploymentType.aws family url = Unit {0}
HasImage cfg DeploymentType.unknown family url = Unit {0}

-- A configured machine has a valid type and location, and an image.
abbrev pub IsAcceptable : Config → RawMachine → Type 0
IsAcceptable cfg r =
    (cfg.validate_machine_type r.location (first_of r.parameters.type cfg.default_machine_type)
      ≡ some true)
    × (is_valid_location cfg.tables cfg.provider r.location ≡ true)
    × HasImage cfg cfg.provider
        (first_of r.parameters.disk_image_family cfg.default_disk_image_family)
        (first_of r.parameters.disk_image_url cfg.default_disk_image_url)

abbrev pub AllAcceptable : Config → List RawMachine → Type 0
AllAcceptable cfg [] = Unit {0}
AllAcceptable cfg (r ∷ rs) = IsAcceptable cfg r × AllAcceptable cfg rs

set_image-HasImage :
    (cfg : Config) (family url : Text) (m : Machine) (provider : DeploymentType)
    → HasImage cfg provider family url
    → (n : Machine) × (set_image cfg family url m provider ≡ ok n)
unfolding set_image
set_image-HasImage cfg family url m DeploymentType.gcp (inl e) =
    (with_image ubuntu_family ubuntu_url m, rw e refl)
set_image-HasImage cfg family url m DeploymentType.gcp (inr (found, e)) =
    elim (Bool-cases (is_empty family && is_empty url)) [
      | inl x ↦ (with_image ubuntu_family ubuntu_url m, rw x refl)
      | inr x ↦ (with_image family (first_of url found) m, rw x (ap (checked_image family url m) e))
    ]
set_image-HasImage cfg family url m DeploymentType.azure h = (m, refl)
set_image-HasImage cfg family url m DeploymentType.aws h = (m, refl)
set_image-HasImage cfg family url m DeploymentType.unknown h = (m, refl)

create_new_machine_accepts :
    (cfg : Config) (id location type family url : Text)
    → is_valid_location cfg.tables cfg.provider location ≡ true
    → HasImage cfg cfg.provider family url
    → (m : Machine) × (create_new_machine cfg id location type family url ≡ ok m)
unfolding create_new_machine
create_new_machine_accepts cfg id location type family url v h =
    let (rz, _, e) =
      new_machine_valid cfg.tables id cfg.provider location type cfg.default_disk_size_gb v in
    let x =
      start_machine
        (placed (requested id cfg.provider type cfg.default_disk_size_gb) location rz) in
    let (m, k) = set_image-HasImage cfg family url (equipped cfg x) cfg.provider h in
    (
      m,
      ap (λ o. created location o (λ m. set_image cfg family url (equipped cfg m) cfg.provider)) e
          ∙ k,
    )

length-insert :
    (k : Text) (m : Machine) (ms : Dict Machine)
    → (length ms ≤ length (insert k m ms)) × (0 < length (insert k m ms))
unfolding insert
length-insert k m [] = omega arith
length-insert k m ((j, n) ∷ ms) = ground (arith, length-insert k m ms)

-- Nothing was refused, and there are machines if there were some or `n` is not 0.
abbrev Accepts : ℕ → Built → Built → Type 0
Accepts n b b' = (b'.bad ≡ b.bad) × (0 < length b.machines + n → 0 < length b'.machines)

count_pos :
    (p : RawMachineParams) (d : ℤ) → is_positive d ≡ true → 0 < pos_part (get_count_of_machines p d)
unfolding get_count_of_machines
count_pos p d h = ground arith

module _ (cfg : Config) where
  add_machines-Accepts :
      (r : RawMachine) (type family url : Text) (n : ℕ) (b : Built)
      → is_valid_location cfg.tables cfg.provider r.location ≡ true
      → HasImage cfg cfg.provider family url
      → (b' : Built) × (add_machines cfg r type family url n b ≡ ok b') × Accepts n b b'
  unfolding add_machines
  add_machines-Accepts r type family url zero b v h = (b, refl, (refl, λ x. omega arith))
  add_machines-Accepts r type family url (suc n) b v h =
      let (m, e) =
        create_new_machine_accepts cfg (cfg.new_id b.next) r.location type family url v h in
      let next = with_machine cfg r.parameters b m in
      let put =
        set_machine_resource_state (marked r.parameters m)
          (provider_name cfg.provider ++ codes "VM") MachineResourceState.not_started in
      let (b', k, (bad, some_machine)) = add_machines-Accepts r type family url n next v h in
      (
        b',
        ap
              (λ c.
                c >>= λ m. add_machines cfg r type family url n (with_machine cfg r.parameters b m))
              e
            ∙ k,
        (bad, λ x. some_machine (omega (arith, length-insert m.name put b.machines))),
      )

  add_raw-Accepts :
      (r : RawMachine) (b : Built)
      → is_positive cfg.default_count_per_zone ≡ true
      → IsAcceptable cfg r
      → (b' : Built) × (add_raw cfg r b ≡ ok b') × Accepts 1 b b'
  unfolding add_raw
  add_raw-Accepts r b d (t, v, h) =
      let type = first_of r.parameters.type cfg.default_machine_type in
      let family = first_of r.parameters.disk_image_family cfg.default_disk_image_family in
      let url = first_of r.parameters.disk_image_url cfg.default_disk_image_url in
      let n = pos_part (get_count_of_machines r.parameters cfg.default_count_per_zone) in
      let (rz, place, _) =
        new_machine_valid cfg.tables [] cfg.provider r.location type cfg.default_disk_size_gb v in
      let (b', e, (bad, some_machine)) = add_machines-Accepts r type family url n b v h in
      let branch : Option Bool → Checked Built = λ o.
        if is_valid_type o
        then add_at cfg r type b (normalize_location (provider_name cfg.provider) r.location)
        else ok (record b { bad = b.bad ++ (r.location, type) ∷ [] }) in
      (
        record b' { locations = insert r.location true b'.locations },
        ap branch t ∙ ap (add_at cfg r type b) place ∙ ap (λ c. c >>= at_location r.location) e,
        (
          bad,
          λ x. some_machine (omega (arith, count_pos r.parameters cfg.default_count_per_zone d)),
        ),
      )

  add_raws-Accepts :
      (rs : List RawMachine) (b : Built)
      → is_positive cfg.default_count_per_zone ≡ true
      → AllAcceptable cfg rs
      → (b' : Built) × (add_raws cfg rs b ≡ ok b') × Accepts (length rs) b b'
  unfolding add_raws
  add_raws-Accepts [] b d h = (b, refl, (refl, λ x. omega arith))
  add_raws-Accepts (r ∷ rs) b d (h, hs) =
      let (b', e, (bad, more)) = add_raw-Accepts r b d h in
      let (b'', k, (bad', more')) = add_raws-Accepts rs b' d hs in
      (
        b'',
        ap (λ c. c >>= add_raws cfg rs) e ∙ k,
        (bad' ∙ bad, λ x. more' (omega (arith, more (omega arith)))),
      )

length-tell_machines : (ip : Text) (ms : Dict Machine) → length (tell_machines ip ms).0 ≡ length ms
unfolding tell_machines
length-tell_machines ip [] = refl
length-tell_machines ip ((k, m) ∷ ms) = ground (arith, length-tell_machines ip ms)

elected_accepts :
    (p : Dict Machine × Bool)
    → 0 < length p.0
    → (ms : Dict Machine) × (elected p ≡ ok ms) × (length ms ≡ length p.0)
elected_accepts (ms, true) h = (ms, refl, refl)
elected_accepts ([], false) h = absurd (omega arith)
elected_accepts ((k, m) ∷ ms, false) h = ((k, record m { orchestrator = true }) ∷ ms, refl, refl)

process-passed :
    (cfg : Config) (s : ConfigState) (raws : List RawMachine)
    → check_config cfg ≡ ok raws
    → process_machines_config cfg s
      ≡ (build_machines cfg s.orchestrator_ip raws, record s { ssh_port = port_of cfg.ssh_port })
unfolding process_machines_config
process-passed cfg s raws c = rw (c, process_machines_config) refl

-- If the guards let a configuration with a positive default count pass, its first loop finds at most
-- one orchestrator, and it has a machine and each of its machines has a valid type and location and
-- an image, then it is accepted: there are machines, and the port is stored.
pub process_machines_config_accepts :
    (cfg : Config) (s : ConfigState) (raws : List RawMachine)
    → check_config cfg ≡ ok raws
    → length (orchestrator_locations cfg.default_count_per_zone raws) ≤ 1
    → is_positive cfg.default_count_per_zone ≡ true
    → AllAcceptable cfg raws
    → 0 < length raws
    → (ms : Dict Machine) × (ls : Dict Bool) × (process_machines_config cfg s
        ≡ (ok (ms, ls), record s { ssh_port = port_of cfg.ssh_port }))
      × (0 < length ms)
unfolding build_machines finish_machines
process_machines_config_accepts cfg s raws c few d h n =
    let ip = s.orchestrator_ip in
    let many = ltb 1 (length (orchestrator_locations cfg.default_count_per_zone raws)) in
    let none_many : many ≡ false = ground arith in
    let (b, e, (bad, some_machine)) = add_raws-Accepts cfg raws none_built d h in
    let (ms, k, l) =
      elected_accepts (tell_machines ip b.machines)
        (omega (arith, some_machine (omega arith), length-tell_machines ip b.machines)) in
    (
      ms,
      b.locations,
      process-passed cfg s raws c
          ∙ (ap (λ x. (x, record s { ssh_port = port_of cfg.ssh_port }))
              (ap
                  (λ x.
                    refuse_if x ConfigError.multiple_orchestrators
                    >> (add_raws cfg raws none_built >>= finish_machines ip))
                  none_many
                ∙ ap (λ x. x >>= finish_machines ip) e
                ∙ ap
                    (λ x.
                      refuse_bad x
                      >> (elected (tell_machines ip b.machines) >>= λ ms. ok (ms, b.locations)))
                    bad
                ∙ ap (λ x. x >>= λ ms. ok (ms, b.locations)) k)),
      omega (arith, some_machine (omega arith), length-tell_machines ip b.machines),
    )
