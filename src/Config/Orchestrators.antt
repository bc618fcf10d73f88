-- ===== src/Config/Orchestrators.antt =====
-- How many orchestrators a configuration gives.
use andaime.Base.{
  ℕ, zero, suc, ◌+◌, ◌≤◌, Bool, true, false, List, [], ◌∷◌, ◌++◌, Option, none, some, Text, same,
  Dict, insert, length, replicate, length-append, length-replicate, ℤ, pos_part, is_zero,
  is_negative, if◌then◌else◌, ◌≡◌, refl, sym, ap, ◌∙◌, subst, Bool-cases, inl, inr, arith, codes,
}
use andaime.Types.{MachineResourceState}
use andaime.Location.{normalize_location, provider_name}
use andaime.Machine.{Machine, set_machine_resource_state}
use andaime.Cluster.{get_machines}
use andaime.Cluster.Find.{orchestrators_of}
use andaime.Config.Create.{
  Config, Checked, ok, RawMachine, RawMachineParams, create_new_machine, first_of,
  get_count_of_machines, orchestrator_locations,
}
use andaime.Config.{
  Built, marked, with_machine, add_machines, add_at, add_raw, add_raws, at_location, is_valid_type,
}
use andaime.Config.Created.{>>=-eq-ok, ok_eq, IsFresh, create_new_machine-IsFresh}

-- The number of orchestrators.
abbrev pub count_orchestrators : Dict Machine → ℕ
count_orchestrators ms = length (orchestrators_of ms)

-- None of the machines has failed.
abbrev pub NoneFailed : Dict Machine → Type 0
NoneFailed [] = Unit {0}
NoneFailed ((k, m) ∷ ms) = (m.failed ≡ false) × NoneFailed ms

-- No count of the configuration is negative.
abbrev pub NoNegative : List RawMachine → Type 0
NoNegative [] = Unit {0}
NoNegative (r ∷ rs) = (is_negative r.parameters.count ≡ false) × NoNegative rs

abbrev of_bool : Bool → ℕ
of_bool b = if b then 1 else 0

count-insert :
    (k : Text) (m : Machine) (ms : Dict Machine)
    → count_orchestrators (insert k m ms) ≤ count_orchestrators ms + of_bool m.orchestrator
unfolding insert
count-insert k m [] = ground arith
count-insert k m ((j, n) ∷ ms) = ground (arith, count-insert k m ms)

NoneFailed-insert :
    (k : Text) (m : Machine) (ms : Dict Machine)
    → m.failed ≡ false
    → NoneFailed ms
    → NoneFailed (insert k m ms)
unfolding insert
NoneFailed-insert k m [] f h = (f, tt)
NoneFailed-insert k m ((j, n) ∷ ms) f (g, h) = elim (Bool-cases (same j k)) [
  | inl e ↦ rw e (f, h)
  | inr e ↦ rw e (g, NoneFailed-insert k m ms f h)
]

pub get_machines-NoneFailed : (ms : Dict Machine) → NoneFailed ms → get_machines ms ≡ ms
unfolding get_machines
get_machines-NoneFailed [] h = refl
get_machines-NoneFailed ((k, m) ∷ ms) (f, h) =
    ap (λ c. if c then get_machines ms else (k, m) ∷ get_machines ms) f
    ∙ ap (◌∷◌ (k, m)) (get_machines-NoneFailed ms h)

-- At most `n` orchestrators more, and none of the machines failed.
abbrev pub Grown : ℕ → Built → Built → Type 0
Grown n b b' =
    (count_orchestrators b'.machines ≤ count_orchestrators b.machines + n)
    × (NoneFailed b.machines → NoneFailed b'.machines)

marked_orchestrator :
    (p : RawMachineParams) (m : Machine)
    → IsFresh m
    → ((marked p m).orchestrator ≡ p.orchestrator) × ((marked p m).failed ≡ false)
marked_orchestrator p m (o, f) = ground arith

Grown-trans : (m n : ℕ) (a b c : Built) → Grown m a b → Grown n b c → Grown (m + n) a c
Grown-trans m n a b c (h, f) (k, g) = (omega arith, λ x. g (f x))

counts_agree :
    (p : RawMachineParams) (d : ℤ)
    → is_negative p.count ≡ false
    → is_zero d ≡ false
    → pos_part (get_count_of_machines p d) ≡ pos_part (if is_zero p.count then d else p.count)
unfolding get_count_of_machines
counts_agree p d h e = ground arith

length-locations :
    (b : Bool) (n : ℕ) (x : Text) → length (if b then replicate n x else []) ≡ (if b then n else 0)
length-locations true n x = length-replicate n x
length-locations false n x = refl

module _ (cfg : Config) where
  with_machine-Grown :
      (p : RawMachineParams) (b : Built) (m : Machine)
      → IsFresh m
      → Grown (of_bool p.orchestrator) b (with_machine cfg p b m)
  unfolding set_machine_resource_state
  with_machine-Grown p b m h =
      let name = provider_name cfg.provider ++ codes "VM" in
      let x = set_machine_resource_state (marked p m) name MachineResourceState.not_started in
      let (o, f) = marked_orchestrator p m h in
      (
        subst
            (λ c.
              count_orchestrators (insert m.name x b.machines)
              ≤ count_orchestrators b.machines + of_bool c)
            o (count-insert m.name x b.machines),
        NoneFailed-insert m.name x b.machines f,
      )

  add_machines-Grown :
      (r : RawMachine) (type family url : Text) (n : ℕ) (b b' : Built)
      → add_machines cfg r type family url n b ≡ ok b'
      → Grown (if r.parameters.orchestrator then n else 0) b b'
  unfolding add_machines
  add_machines-Grown r type family url zero b b' h =
      subst (λ x. Grown (if r.parameters.orchestrator then 0 else 0) b x) (ok_eq b b' h)
        (ground arith, λ x. x)
  add_machines-Grown r type family url (suc n) b b' h =
      let id = cfg.new_id b.next in
      let (m, e, k) =
        >>=-eq-ok (create_new_machine cfg id r.location type family url)
          (λ m. add_machines cfg r type family url n (with_machine cfg r.parameters b m)) b' h in
      let fresh = create_new_machine-IsFresh cfg id r.location type family url m e in
      let next = with_machine cfg r.parameters b m in
      let o = r.parameters.orchestrator in
      subst (λ k. Grown k b b') (each o n)
        (Grown-trans (of_bool o) (if o then n else 0) b next b'
          (with_machine-Grown r.parameters b m fresh)
          (add_machines-Grown r type family url n next b' k))
    where
      each : (o : Bool) (n : ℕ) → of_bool o + (if o then n else 0) ≡ (if o then suc n else 0)
      each o n = ground arith

  add_at-Grown :
      (r : RawMachine) (type : Text) (b b' : Built) (place : Option (Text × Text))
      → add_at cfg r type b place ≡ ok b'
      → Grown
          (if r.parameters.orchestrator
            then pos_part (get_count_of_machines r.parameters cfg.default_count_per_zone)
            else 0)
          b
          b'
  add_at-Grown r type b b' none h = cc
  add_at-Grown r type b b' (some _) h =
      let family = first_of r.parameters.disk_image_family cfg.default_disk_image_family in
      let url = first_of r.parameters.disk_image_url cfg.default_disk_image_url in
      let n = pos_part (get_count_of_machines r.parameters cfg.default_count_per_zone) in
      let (b'', e, k) =
        >>=-eq-ok (add_machines cfg r type family url n b) (at_location r.location) b' h in
      let g = add_machines-Grown r type family url n b b'' e in
      subst (λ x. Grown (if r.parameters.orchestrator then n else 0) b x) (ok_eq _ b' k) g

  -- What one configured machine adds to the list of the first loop.
  abbrev share : RawMachine → List Text
  share r =
      if r.parameters.orchestrator
      then replicate
          (pos_part
            (if is_zero r.parameters.count then cfg.default_count_per_zone else r.parameters.count))
          r.location
      else []

  length-share :
      (r : RawMachine)
      → is_negative r.parameters.count ≡ false
      → is_zero cfg.default_count_per_zone ≡ false
      → (if r.parameters.orchestrator
          then pos_part (get_count_of_machines r.parameters cfg.default_count_per_zone)
          else 0)
        ≡ length (share r)
  length-share r n d =
      ap (λ (k : ℕ). if r.parameters.orchestrator then k else 0)
        (counts_agree r.parameters cfg.default_count_per_zone n d)
      ∙ sym (length-locations r.parameters.orchestrator _ r.location)

  add_raw-Grown :
      (r : RawMachine) (b b' : Built)
      → is_negative r.parameters.count ≡ false
      → is_zero cfg.default_count_per_zone ≡ false
      → add_raw cfg r b ≡ ok b'
      → Grown (length (share r)) b b'
  unfolding add_raw
  add_raw-Grown r b b' n d h =
      let type = first_of r.parameters.type cfg.default_machine_type in
      let place = normalize_location (provider_name cfg.provider) r.location in
      let bad = record b { bad = b.bad ++ (r.location, type) ∷ [] } in
      let branch : Bool → Checked Built = λ c. if c then add_at cfg r type b place else ok bad in
      elim (Bool-cases (is_valid_type (cfg.validate_machine_type r.location type))) [
        | inl v ↦
            subst (λ k. Grown k b b') (length-share r n d)
              (add_at-Grown r type b b' place (sym (ap branch v) ∙ h))
        | inr v ↦
            subst (λ x. Grown (length (share r)) b x) (ok_eq bad b' (sym (ap branch v) ∙ h))
              (omega arith, λ x. x)
      ]

  pub add_raws-Grown :
      (rs : List RawMachine) (b b' : Built)
      → NoNegative rs
      → is_zero cfg.default_count_per_zone ≡ false
      → add_raws cfg rs b ≡ ok b'
      → Grown (length (orchestrator_locations cfg.default_count_per_zone rs)) b b'
  unfolding add_raws orchestrator_locations
  add_raws-Grown [] b b' n d h = subst (λ x. Grown 0 b x) (ok_eq b b' h) (omega arith, λ x. x)
  add_raws-Grown (r ∷ rs) b b' (m, n) d h =
      let (b'', e, k) = >>=-eq-ok (add_raw cfg r b) (add_raws cfg rs) b' h in
      let rest = orchestrator_locations cfg.default_count_per_zone rs in
      subst (λ k. Grown k b b') (sym (length-append (share r) rest))
        (Grown-trans (length (share r)) (length rest) b b'' b' (add_raw-Grown r b b'' m d e)
          (add_raws-Grown rs b'' b' n d k))
