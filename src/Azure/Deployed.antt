-- ===== src/Azure/Deployed.antt =====
-- What CreateResources gives where it returns without an error: machines that are up.
use andaime.Base.{
  Bool, true, false, List, [], ◌∷◌, ◌++◌, Text, Dict, same, is_empty, codes, if◌then◌else◌, ◌≡◌,
  refl, sym, subst, same_iff, Bool-cases, inl, inr, arith, keys,
}
use andaime.Machine.{Machine}
use andaime.Machine.Services.{listed}
use andaime.Cluster.{get_machines}
use andaime.Utils.{remove_duplicates}
use andaime.Azure.{AzureClient, AzurePlan, Deploy, err, D, pure, fail, try, ◌>>◌}
use andaime.Azure.Create.{
  create_machine, create_machines, create_location, create_locations, create_resources,
  machines_by_location, is_nil,
}
use andaime.Azure.Rules.{IsOk}
use andaime.Azure.Groups.{
  after-IsOk, with_rest-IsOk, either-IsOk, grouped, machines_by_location-grouped,
}
use andaime.Azure.Turn.{Up, other-Closed, create_machine-Keeps, create_machine-Up}

module _ {W : Type 0} (client : AzureClient W) (plan : AzurePlan) where
  Up-same : (j k : Text) (ms : Dict Machine) → same j k ≡ true → Up j ms → Up k ms
  Up-same j k ms e = subst (λ n. Up n ms) ((same_iff j k).0 e)

  -- A turn that ends well leaves up what was up.
  turn-Up :
      (location j k : Text) (s : Deploy W)
      → Up k s.machines
      → IsOk (create_machine client plan location j s).0
      → Up k (create_machine client plan location j s).1.machines
  turn-Up location j k s u i = elim (Bool-cases (same j k)) [
    | inl e ↦ Up-same j k _ e (create_machine-Up client plan location j s i)
    | inr e ↦ create_machine-Keeps client plan j (Up k) (other-Closed j k e) location s u
  ]

  turns-Up :
      (location : Text) (names : List Text) (k : Text) (s : Deploy W)
      → Up k s.machines
      → IsOk (create_machines client plan location names s).0
      → Up k (create_machines client plan location names s).1.machines
  unfolding create_machines pure ◌>>◌
  turns-Up location [] k s u i = u
  turns-Up location (n ∷ ns) k s u i =
      let x = create_machine client plan location n s in
      let (first, same_end) = after-IsOk x (create_machines client plan location ns) i in
      subst (λ r. Up k r.1.machines) (sym same_end)
        (turns-Up location ns k x.1 (turn-Up location n k s u first)
          (subst (λ r. IsOk r.0) same_end i))

  create_machines-Up :
      (location : Text) (names : List Text) (k : Text) (s : Deploy W)
      → listed k names ≡ true
      → IsOk (create_machines client plan location names s).0
      → Up k (create_machines client plan location names s).1.machines
  unfolding create_machines pure ◌>>◌
  create_machines-Up location [] k s l i = cc
  create_machines-Up location (n ∷ ns) k s l i =
      let x = create_machine client plan location n s in
      let (first, same_end) = after-IsOk x (create_machines client plan location ns) i in
      let rest : IsOk (create_machines client plan location ns x.1).0 =
        subst (λ r. IsOk r.0) same_end i in
      subst (λ r. Up k r.1.machines) (sym same_end)
        (elim (Bool-cases (same n k)) [
          | inl e ↦
              turns-Up location ns k x.1
                (Up-same n k _ e (create_machine-Up client plan location n s first)) rest
          | inr e ↦ create_machines-Up location ns k x.1 (ground arith) rest
        ])

  -- A location that ends well ran the turns of its machines.
  past_guards :
      (a b : Bool) (t u : Text) (m : D W (Unit {0})) (s : Deploy W)
      → IsOk ((if a then fail t else if b then fail u else m) s).0
      → (if a then fail t else if b then fail u else m) s ≡ m s
  unfolding fail
  past_guards true b t u m s i = absurd i
  past_guards false true t u m s i = absurd i
  past_guards false false t u m s i = refl

  location_turns :
      (location : Text) (names : List Text) (s : Deploy W)
      → IsOk (create_location client plan location names s).0
      → create_location client plan location names s ≡ create_machines client plan location names s
  unfolding create_location
  location_turns location names s i =
      past_guards (is_nil names) (is_empty plan.ssh_public_key_material) _ _
        (create_machines client plan location names) s i

  later_locations_Up :
      (ls : List (Text × List Text)) (k : Text) (s : Deploy W)
      → Up k s.machines
      → IsOk (create_locations client plan ls s).0
      → Up k (create_locations client plan ls s).1.machines
  unfolding create_locations
  later_locations_Up [] k s u i = u
  later_locations_Up ((location, names) ∷ ls) k s u i =
      let x = create_location client plan location names s in
      let (first, same_end) = with_rest-IsOk x (create_locations client plan ls) i in
      let turns = location_turns location names s first in
      subst (λ r. Up k r.1.machines) (sym same_end)
        (later_locations_Up ls k x.1
          (subst (λ r. Up k r.1.machines) (sym turns)
            (turns-Up location names k s u (subst (λ r. IsOk r.0) turns first)))
          (subst (λ r. IsOk r.0) same_end i))

  create_locations-Up :
      (ls : List (Text × List Text)) (k : Text) (s : Deploy W)
      → grouped k ls ≡ true
      → IsOk (create_locations client plan ls s).0
      → Up k (create_locations client plan ls s).1.machines
  unfolding create_locations
  create_locations-Up [] k s l i = cc
  create_locations-Up ((location, names) ∷ ls) k s l i =
      let x = create_location client plan location names s in
      let (first, same_end) = with_rest-IsOk x (create_locations client plan ls) i in
      let turns = location_turns location names s first in
      let rest : IsOk (create_locations client plan ls x.1).0 = subst (λ r. IsOk r.0) same_end i in
      subst (λ r. Up k r.1.machines) (sym same_end)
        (elim (Bool-cases (listed k names)) [
          | inl e ↦
              later_locations_Up ls k x.1
                (subst (λ r. Up k r.1.machines) (sym turns)
                  (create_machines-Up location names k s e (subst (λ r. IsOk r.0) turns first)))
                rest
          | inr e ↦ create_locations-Up ls k x.1 (ground arith) rest
        ])

  create_tail-Up :
      (a b : Bool) (t u : Text) (k : Text) (s s' : Deploy W)
      → listed k (keys (get_machines s.machines)) ≡ true
      → (let all =
            try
              (create_locations client plan (machines_by_location (get_machines s.machines) []))
              pure
              (λ e. fail (codes "deployment failed: " ++ e)) in
          let r = if a then (err t, s) else if b then (err u, s) else all s' in
          IsOk r.0 → Up k r.1.machines)
  unfolding try
  create_tail-Up true b t u k s s' l i = absurd i
  create_tail-Up false true t u k s s' l i = absurd i
  create_tail-Up false false t u k s s' l i =
      let groups = machines_by_location (get_machines s.machines) [] in
      let (done, same_end) = either-IsOk (create_locations client plan groups s') _ i in
      subst (λ r. Up k r.machines) (sym same_end)
        (create_locations-Up groups k s'
          (machines_by_location-grouped k (get_machines s.machines) [] (ground arith)) done)

-- If the creation of the resources returns without an error, every machine that had not failed before
-- has a VM that has succeeded, and its SSH has succeeded.
pub create_resources-Up :
    {W : Type 0} (client : AzureClient W) (plan : AzurePlan) (s : Deploy W) (k : Text)
    → listed k (keys (get_machines s.machines)) ≡ true
    → IsOk (create_resources client plan s).0
    → Up k (create_resources client plan s).1.machines
unfolding create_resources
create_resources-Up client plan s k l i =
    create_tail-Up client plan (is_nil (get_machines s.machines)) (is_nil s.locations)
      (codes "no machines provided") (codes "no locations provided") k s
      (record s { locations = remove_duplicates s.locations }) l i
