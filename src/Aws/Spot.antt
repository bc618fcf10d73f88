-- ===== src/Aws/Spot.antt =====
-- The instances of a spot VM and of an on-demand VM.
use andaime.Base.{
  ℕ, zero, suc, Bool, true, false, List, [], ◌∷◌, ◌++◌, Option, none, some, Text, codes, is_empty,
  if◌then◌else◌, ◌≡◌, refl, ap, ◌∙◌, subst,
}
use andaime.Remote.{Error, Result, ok, err}
use andaime.Exec.{Run, M, pure, fail, wrapped, on_world, gets}
use andaime.Exec.Rules.{Ends, good, bad, Ensures, bind-Ensures}
use andaime.Cluster.Names.{ends_ok}
use andaime.Aws.{
  InstanceInput, Ec2, Vpc, VmPlan, Fleet, attempted, add_launched, request_limit, both_text,
  fallback_text, run_text, run_instance, after_request, spot_requests, after_requests, launch,
  input_of, in_subnet, in_vpc, deploy_vm,
}
use andaime.Aws.Launch.{
  Of, Keeping, Always, AllSpot, Launched, wrapped-Ensures, fail-Ensures,
  get_latest_ubuntu_ami-Keeping, settle-Keeping,
}

-- Only spot instances were launched since `old`.
abbrev Since : List (Bool × Text) → List (Bool × Text) → Type 0
Since old new = (rest : List (Bool × Text)) × AllSpot rest × (new ≡ rest ++ old)

module _ {V : Type 0} (ec2 : Ec2 V) where
  run-Ends :
      (spot : Bool) (l : List (Bool × Text)) (s : Run (Fleet V)) (x : Result Text × V)
      → s.world.launched ≡ l
      → Ends
          (λ id. Of (λ new. new ≡ (spot, id) ∷ l))
          (Of (λ new. new ≡ l))
          (
            (add_launched spot s.world.launched x).0,
            record s { world = (add_launched spot s.world.launched x).1 },
          )
  run-Ends spot l s (ok id, v) p = good id _ (ap (◌∷◌ (spot, id)) p)
  run-Ends spot l s (err e, v) p = bad e _ p

  run_instance-Ensures :
      (l : List (Bool × Text)) (input : InstanceInput)
      → Ensures
          (Of (λ new. new ≡ l))
          (run_instance ec2 input)
          (λ id. Of (λ new. new ≡ (input.spot, id) ∷ l))
          (Of (λ new. new ≡ l))
  unfolding run_instance on_world
  run_instance-Ensures l input s p =
      run-Ends input.spot l s (ec2.run_instances input s.world.world) p

  weaker :
      {A : Type 0} (Q : A → Run (Fleet V) → Type 0) (E : Run (Fleet V) → Type 0)
      (x : Result A × Run (Fleet V))
      → Ends Q E x
      → Ends Q Always x
  weaker Q E x (good a s q) = good a s q
  weaker Q E x (bad e s p) = bad e s tt

  on_demand-Ensures :
      (l : List (Bool × Text)) (t : Text) (input : InstanceInput)
      → input.spot ≡ false
      → Ensures
          (Of (λ new. new ≡ l))
          (wrapped t (run_instance ec2 input))
          (λ id. Of (λ new. new ≡ (false, id) ∷ l))
          Always
  on_demand-Ensures l t input h =
      wrapped-Ensures (λ new. new ≡ l) _ _ t _
        (λ s p. weaker _ (Of (λ new. new ≡ l)) _ (
          subst
            (λ b.
              Ends (λ id. Of (λ new. new ≡ (b, id) ∷ l)) (Of (λ new. new ≡ l))
                (run_instance ec2 input s))
            h (run_instance-Ensures l input s p)))

  attempted-Ends :
      (old l : List (Bool × Text)) (x : Result Text × Run (Fleet V))
      → Ends (λ id. Of (λ new. new ≡ (true, id) ∷ l)) (Of (λ new. new ≡ l)) x
      → Since old l
      → Ends {A = Result Text} (λ _. Of (Since old)) Always (ok x.0, x.1)
  attempted-Ends old l x (good id s q) (rest, a, e) =
      good (ok id) s ((true, id) ∷ rest, (refl, a), q ∙ ap (◌∷◌ (true, id)) e)
  attempted-Ends old l x (bad e s q) (rest, a, e') = good (err e) s (rest, a, q ∙ e')

  request-Ensures :
      (old : List (Bool × Text)) (input : InstanceInput)
      → Keeping (Since old) (attempted (run_instance ec2 (record input { spot = true })))
  request-Ensures old input s p =
      attempted-Ends old s.world.launched _
        (run_instance-Ensures s.world.launched (record input { spot = true }) s refl) p

  after_request-Since :
      (old : List (Bool × Text)) (last : Option Error)
      (more : Option Error → M (Fleet V) (Option Error)) (r : Result Text)
      → ((e : Error) → Keeping (Since old) (more (some e)))
      → Keeping (Since old) (after_request ec2 last more r)
  unfolding pure
  after_request-Since old last more (ok id) h = λ s p. good last s p
  after_request-Since old last more (err e) h = h e

  spot_requests-Since :
      (old : List (Bool × Text)) (left : ℕ) (input : InstanceInput) (last : Option Error)
      → Keeping (Since old) (spot_requests ec2 left input last)
  unfolding spot_requests pure
  spot_requests-Since old zero input last = λ s p. good last s p
  spot_requests-Since old (suc left) input last =
      bind-Ensures (Of (Since old)) (λ _. Of (Since old)) (λ _. Of (Since old)) Always _ _
        (request-Ensures old input)
        (λ r.
          after_request-Since old last (spot_requests ec2 left input) r
            (λ e. spot_requests-Since old left input (some e)))

  after_requests-Launched :
      (old : List (Bool × Text)) (input : InstanceInput) (last : Option Error)
      → input.spot ≡ false
      → Ensures
          (Of (Since old))
          (after_requests ec2 input last)
          (λ _. Of (Launched true old))
          Always
  after_requests-Launched old input none h = fail-Ensures (Since old) _ _
  after_requests-Launched old input (some e) h = λ s (rest, spots, p).
      bind-Ensures (Of (λ new. new ≡ rest ++ old))
        (λ a. Of (λ new. new ≡ (false, a) ∷ (rest ++ old))) (λ _. Of (Launched true old)) Always _ _
        (on_demand-Ensures (rest ++ old) both_text input h)
        (λ a s' q.
          told rest spots a
            (on_demand-Ensures ((false, a) ∷ (rest ++ old)) fallback_text input h s' q))
        s p
    where
      told :
          (rest : List (Bool × Text)) (spots : AllSpot rest) (a : Text)
          {x : Result Text × Run (Fleet V)}
          → Ends (λ b. Of (λ new. new ≡ (false, b) ∷ ((false, a) ∷ (rest ++ old)))) Always x
          → Ends (λ _. Of (Launched true old)) Always x
      told rest spots a (good b s' q) = good b s' (a, b, rest, spots, q)
      told rest spots a (bad e s' q) = bad e s' tt

  launch-Launched :
      (spot : Bool) (old : List (Bool × Text)) (input : InstanceInput)
      → input.spot ≡ false
      → Ensures (Of (λ new. new ≡ old)) (launch ec2 spot input) (λ _. Of (Launched spot old)) Always
  unfolding launch
  launch-Launched true old input h = λ s p.
      bind-Ensures (Of (Since old)) (λ _. Of (Since old)) (λ _. Of (Launched true old)) Always _ _
        (spot_requests-Since old request_limit input none)
        (λ last. after_requests-Launched old input last h) s ([], tt, p)
  launch-Launched false old input h = λ s p. one (on_demand-Ensures old run_text input h s p)
    where
      one :
          {x : Result Text × Run (Fleet V)}
          → Ends (λ id. Of (λ new. new ≡ (false, id) ∷ old)) Always x
          → Ends (λ _. Of (Launched false old)) Always x
      one (good id s q) = good id s (id, q)
      one (bad e s q) = bad e s tt

  in_subnet-Launched :
      (plan : VmPlan) (vpc : Vpc) (old : List (Bool × Text)) (subnets : List Text)
      → Ensures
          (Of (λ new. new ≡ old))
          (in_subnet ec2 plan vpc subnets)
          (λ _. Of (Launched plan.spot old))
          Always
  unfolding gets input_of
  in_subnet-Launched plan vpc old [] = fail-Ensures (λ new. new ≡ old) _ _
  in_subnet-Launched plan vpc old (subnet ∷ subnets) =
      let P = Of (λ new. new ≡ old) in
      let Q : Run (Fleet V) → Type 0 = Of (Launched plan.spot old) in
      guarded (is_empty vpc.security_group_id) _ _ (
        bind-Ensures P (λ _. P) (λ _. Q) Always _ _ (λ s p. good s.machine s p)
          (λ m.
            bind-Ensures P (λ _. P) (λ _. Q) Always _ _
              (wrapped-Ensures (λ new. new ≡ old) P (λ _. P) _ _
                (get_latest_ubuntu_ami-Keeping (λ new. new ≡ old) ec2 m.region (codes "x86_64")))
              (λ image.
                bind-Ensures P (λ _. Q) (λ _. Q) Always _ _
                  (launch-Launched plan.spot old (input_of ec2 plan vpc subnet image m) refl)
                  (λ id. settle-Keeping (Launched plan.spot old) ec2 id))))
    where
      guarded :
          (b : Bool) (e : Error) (m : M (Fleet V) (Unit {0}))
          → Ensures (Of (λ new. new ≡ old)) m (λ _. Of (Launched plan.spot old)) Always
          → Ensures
              (Of (λ new. new ≡ old))
              (if b then fail e else m)
              (λ _. Of (Launched plan.spot old))
              Always
      guarded true e m h = fail-Ensures (λ new. new ≡ old) _ e
      guarded false e m h = h

  in_vpc-Launched :
      (plan : VmPlan) (vpc : Option Vpc) (old : List (Bool × Text))
      → Ensures
          (Of (λ new. new ≡ old))
          (in_vpc ec2 plan vpc)
          (λ _. Of (Launched plan.spot old))
          Always
  in_vpc-Launched plan none old = fail-Ensures (λ new. new ≡ old) _ _
  in_vpc-Launched plan (some vpc) old = in_subnet-Launched plan vpc old vpc.public_subnet_ids

  -- A deployment of a VM that ends without an error has launched one instance for an on-demand VM; for
  -- a spot VM it has launched two on-demand instances, after spot instances only.
  pub deploy_vm-Launched :
      (plan : VmPlan) (s : Run (Fleet V))
      → (deploy_vm ec2 plan s).0 ≡ ok tt
      → Launched plan.spot s.world.launched (deploy_vm ec2 plan s).1.world.launched
  unfolding deploy_vm
  deploy_vm-Launched plan s h =
      ends_ok (Of (Launched plan.spot s.world.launched)) _
        (in_vpc-Launched plan plan.vpc s.world.launched s refl) h
