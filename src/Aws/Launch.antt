-- ===== src/Aws/Launch.antt =====
-- Which instances a deployment of a VM has launched.
use andaime.Base.{ℕ, zero, suc, Bool, true, false, List, [], ◌∷◌, ◌++◌, Text, ◌≡◌}
use andaime.Remote.{Error, wrap, Result, ok, err}
use andaime.Exec.{Run, M, pure, fail, ◌>>=◌, wrapped, on_world, modify}
use andaime.Exec.Rules.{Ends, good, bad, Ensures, bind-Ensures, then-Ensures}
use andaime.Exec.Keeps.{on_err-Ensures}
use andaime.Aws.{
  Image, Instance, Ec2, Fleet, on_ec2, attempted, request_limit, first_image, get_latest_ubuntu_ami,
  after_describe, describe_attempts, take_instance, settle, newest,
}

-- A property of the instances that were launched, read off a run.
abbrev pub Of : {V : Type 0} → (List (Bool × Text) → Type 0) → Run (Fleet V) → Type 0
Of I s = I s.world.launched

abbrev pub Keeping : {V A : Type 0} → (List (Bool × Text) → Type 0) → M (Fleet V) A → Type 0
Keeping I m = Ensures (Of I) m (λ _. Of I) (λ _. Unit {0})

abbrev pub Always : {V : Type 0} → Run (Fleet V) → Type 0
Always s = Unit {0}

-- Every instance is a spot one.
abbrev pub AllSpot : List (Bool × Text) → Type 0
AllSpot [] = Unit {0}
AllSpot (i ∷ is) = (i.0 ≡ true) × AllSpot is

-- An on-demand VM has launched one instance. A spot VM has launched two on-demand instances, after
-- spot instances only.
abbrev pub Launched : Bool → List (Bool × Text) → List (Bool × Text) → Type 0
Launched false old new = (id : Text) × (new ≡ (false, id) ∷ old)
Launched true old new =
    (a : Text) × (b : Text) × (rest : List (Bool × Text)) × AllSpot rest
    × (new ≡ (false, b) ∷ ((false, a) ∷ (rest ++ old)))

module _ {V : Type 0} (I : List (Bool × Text) → Type 0) where
  pub wrapped-Ensures :
      {A : Type 0} (P : Run (Fleet V) → Type 0) (Q : A → Run (Fleet V) → Type 0) (t : Text)
      (m : M (Fleet V) A)
      → Ensures P m Q Always
      → Ensures P (wrapped t m) Q Always
  unfolding wrapped fail
  wrapped-Ensures P Q t m h =
      on_err-Ensures P Q Always Always m (λ e. fail (wrap t e)) h (λ e s p. bad (wrap t e) s tt)

  pub fail-Ensures :
      {A : Type 0} (Q : A → Run (Fleet V) → Type 0) (e : Error) → Ensures (Of I) (fail e) Q Always
  unfolding fail
  fail-Ensures Q e s p = bad e s tt

  pure-Keeping : {A : Type 0} (a : A) → Keeping {V = V} I (pure a)
  unfolding pure
  pure-Keeping a s p = good a s p

  ec2-Ends :
      {A : Type 0} (s : Run (Fleet V)) (x : Result A × V)
      → Of I s
      → Ends (λ _. Of I) Always (x.0, record s { world = record s.world { world = x.1 } })
  ec2-Ends s (ok a, v) p = good a _ p
  ec2-Ends s (err e, v) p = bad e _ tt

  on_ec2-Keeping : {A : Type 0} (f : V → Result A × V) → Keeping I (on_ec2 f)
  unfolding on_world
  on_ec2-Keeping f s p = ec2-Ends s (f s.world.world) p

  attempted-Ends :
      {A : Type 0} (x : Result A × Run (Fleet V)) → Of I x.1 → Ends (λ _. Of I) Always (ok x.0, x.1)
  attempted-Ends (r, s) p = good r s p

  attempted_ec2-Keeping : {A : Type 0} (f : V → Result A × V) → Keeping I (attempted (on_ec2 f))
  unfolding on_world
  attempted_ec2-Keeping f s p =
      good (f s.world.world).0 (record s { world = record s.world { world = (f s.world.world).1 } })
        p

  pub bind-Keeping :
      {A B : Type 0} (m : M (Fleet V) A) (f : A → M (Fleet V) B)
      → Keeping I m
      → ((a : A) → Keeping I (f a))
      → Keeping I (m >>= f)
  bind-Keeping m f h k = bind-Ensures (Of I) (λ _. Of I) (λ _. Of I) Always m f h k

  module _ (ec2 : Ec2 V) where
    first_image-Keeping :
        (region arch : Text) (is : List Image) → Keeping I (first_image ec2 region arch is)
    first_image-Keeping region arch [] = fail-Ensures (λ _. Of I) _
    first_image-Keeping region arch (i ∷ is) = pure-Keeping (newest i is).image_id

    pub get_latest_ubuntu_ami-Keeping :
        (region arch : Text) → Keeping I (get_latest_ubuntu_ami ec2 region arch)
    unfolding get_latest_ubuntu_ami
    get_latest_ubuntu_ami-Keeping region arch =
        then-Ensures (Of I) (Of I) (λ _. Of I) Always _ _
          (wrapped-Ensures (Of I) (λ _. Of I) _ _ (on_ec2-Keeping (ec2.get_client region)))
          (bind-Keeping _ _
            (wrapped-Ensures (Of I) (λ _. Of I) _ _
              (on_ec2-Keeping (ec2.describe_images region arch)))
            (first_image-Keeping region arch))

    after_describe-Keeping :
        (left : ℕ) (more : M (Fleet V) (List (List Instance))) (r : Result (List (List Instance)))
        → Keeping I more
        → Keeping I (after_describe ec2 left more r)
    after_describe-Keeping left more (ok rs) h = pure-Keeping rs
    after_describe-Keeping zero more (err e) h = fail-Ensures (λ _. Of I) _
    after_describe-Keeping (suc left) more (err e) h = h

    describe_attempts-Keeping : (left : ℕ) (id : Text) → Keeping I (describe_attempts ec2 left id)
    unfolding describe_attempts
    describe_attempts-Keeping zero id = pure-Keeping []
    describe_attempts-Keeping (suc left) id =
        bind-Keeping _ _ (attempted_ec2-Keeping (ec2.describe_instances id))
          (λ r. after_describe-Keeping left _ r (describe_attempts-Keeping left id))

    take_instance-Keeping : (rs : List (List Instance)) → Keeping I (take_instance ec2 rs)
    unfolding modify
    take_instance-Keeping [] = fail-Ensures (λ _. Of I) _
    take_instance-Keeping ([] ∷ rs) = fail-Ensures (λ _. Of I) _
    take_instance-Keeping ((i ∷ is) ∷ rs) = λ s p. good tt _ p

    pub settle-Keeping : (id : Text) → Keeping I (settle ec2 id)
    unfolding settle
    settle-Keeping id =
        then-Ensures (Of I) (Of I) (λ _. Of I) Always _ _
          (wrapped-Ensures (Of I) (λ _. Of I) _ _ (on_ec2-Keeping (ec2.wait_running id)))
          (bind-Keeping _ _ (describe_attempts-Keeping request_limit id) take_instance-Keeping)
