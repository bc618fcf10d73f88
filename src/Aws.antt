-- ===== src/Aws.antt =====
-- deployVM of pkg/providers/aws/aws_compute_operations.go and GetLatestUbuntuAMI of provider.go, over
-- the client of EC2 as an interface. The user data of an instance, the pauses between attempts and
-- the metadata that is only logged are left out.
pub mod Launch
pub mod Spot
pub mod Granted
pub mod Examples
use andaime.Base.{
  ℕ, zero, suc, ltb, Bool, true, false, List, [], ◌∷◌, ◌++◌, Option, none, some, Text, Dict, codes,
  is_empty, map, if◌then◌else◌,
}
use andaime.Machine.{Machine}
use andaime.Remote.{Error, errorf, wrap, Result, ok, err}
use andaime.Exec.{Run, M, pure, fail, ◌>>=◌, ◌>>◌, wrapped, on_world, gets, modify}

-- An image, with its creation date as a time; a date that cannot be parsed is 0.
pub record Image : Type 0 where
  pub image_id : Text
  pub creation_date : ℕ

pub record InstanceInput : Type 0 where
  pub image_id : Text
  pub machine_type : Text
  pub subnet_id : Text
  pub security_group : Text
  pub tag_specifications : List (Dict Text)
  pub spot : Bool

pub record Instance : Type 0 where
  pub public_ip : Option Text
  pub private_ip : Option Text

-- The EC2 client of a region. `RunInstances` of one instance gives the id of it; `describe_instances`
-- gives the instances of each reservation.
pub record Ec2 (V : Type 0) : Type 0 where
  pub get_client : Text → V → Result (Unit {0}) × V
  pub describe_images : Text → Text → V → Result (List Image) × V
  pub run_instances : InstanceInput → V → Result Text × V
  pub wait_running : Text → V → Result (Unit {0}) × V
  pub describe_instances : Text → V → Result (List (List Instance)) × V

-- `AWSVPC`
pub record Vpc : Type 0 where
  pub vpc_id : Text
  pub security_group_id : Text
  pub public_subnet_ids : List Text

-- What is read of the machine and the deployment beside the machine's own record.
pub record VmPlan : Type 0 where
  pub vpc : Option Vpc
  pub tags : Dict Text
  pub machine_id : Text
  pub spot : Bool

-- The instances that were launched, newest first, each with whether it is a spot instance.
pub record Fleet (V : Type 0) : Type 0 where
  pub launched : List (Bool × Text)
  pub world : V

abbrev pub on_ec2 : {V A : Type 0} → (V → Result A × V) → M (Fleet V) A
on_ec2 f = on_world (λ w. let (r, v) = f w.world in (r, record w { world = v }))

-- `a, err := m`, which goes on with the error.
abbrev pub attempted : {W A : Type 0} → M W A → M W (Result A)
attempted m s = let (r, s') = m s in (ok r, s')

-- The first of the newest images.
unfoldable pub newest : Image → List Image → Image
newest i [] = i
newest i (j ∷ js) = newest (if ltb i.creation_date j.creation_date then j else i) js

abbrev pub add_launched :
    {V : Type 0} → Bool → List (Bool × Text) → Result Text × V → Result Text × Fleet V
add_launched spot old (ok id, v) = (ok id, record { launched = (spot, id) ∷ old; world = v })
add_launched spot old (err e, v) = (err e, record { launched = old; world = v })

abbrev pub request_limit : ℕ
request_limit = 3

abbrev pub both_text : Text
both_text = codes "failed to run instance (both spot and on-demand): "

abbrev pub fallback_text : Text
fallback_text = codes "failed to create fallback on-demand instance: "

abbrev pub run_text : Text
run_text = codes "failed to run instance: "

-- `instance.PublicIpAddress` and `PrivateIpAddress`, where they are there.
abbrev pub or_old : Text → Option Text → Text
or_old old none = old
or_old old (some ip) = ip

abbrev pub with_addresses : Instance → Machine → Machine
with_addresses i m = record m {
  public_ip = or_old m.public_ip i.public_ip;
  private_ip = or_old m.private_ip i.private_ip;
}

-- A specification for each tag of the deployment, and one of the machine.
abbrev pub tag_specifications_of : VmPlan → Text → List (Dict Text)
tag_specifications_of plan name =
    map (λ t. t ∷ []) plan.tags
    ++ ((codes "Name", name)
        ∷ (codes "AndaimeMachineID", plan.machine_id)
        ∷ (codes "AndaimeDeployment", codes "AndaimeDeployment")
        ∷ [])
      ∷ []

module _ {V : Type 0} (ec2 : Ec2 V) where
  abbrev pub first_image : Text → Text → List Image → M (Fleet V) Text
  first_image region arch [] = fail (
      errorf (
        codes "no matching Ubuntu AMI found in region "
        ++ (region ++ (codes " for architecture: " ++ arch))))
  first_image region arch (i ∷ is) = pure (newest i is).image_id

  -- `GetLatestUbuntuAMI`
  unfoldable pub get_latest_ubuntu_ami : Text → Text → M (Fleet V) Text
  get_latest_ubuntu_ami region arch = do
    wrapped (codes "failed to get EC2 client for region " ++ (region ++ codes ": "))
        (on_ec2 (ec2.get_client region))
    wrapped (codes "failed to describe images in region " ++ (region ++ codes ": "))
          (on_ec2 (ec2.describe_images region arch))
        >>= first_image region arch

  -- `RunInstances`
  unfoldable pub run_instance : InstanceInput → M (Fleet V) Text
  run_instance input =
      on_world (λ w. add_launched input.spot w.launched (ec2.run_instances input w.world))

  -- The loop over the spot requests, with those that are left: `lastErr` behind it.
  abbrev pub after_request :
      Option Error
      → (Option Error → M (Fleet V) (Option Error))
      → Result Text
      → M (Fleet V) (Option Error)
  after_request last more (ok id) = pure last
  after_request last more (err e) = more (some e)

  unfoldable pub spot_requests : ℕ → InstanceInput → Option Error → M (Fleet V) (Option Error)
  spot_requests zero input last = pure last
  spot_requests (suc left) input last =
      attempted (run_instance (record input { spot = true }))
      >>= after_request last (spot_requests left input)

  -- What follows the loop; without an error it is the error that wraps nil.
  abbrev pub after_requests : InstanceInput → Option Error → M (Fleet V) Text
  after_requests input none = fail (errorf (run_text ++ codes "%!w(<nil>)"))
  after_requests input (some e) =
      wrapped both_text (run_instance input) >>= λ id. wrapped fallback_text (run_instance input)

  unfoldable pub launch : Bool → InstanceInput → M (Fleet V) Text
  launch true input = spot_requests request_limit input none >>= after_requests input
  launch false input = wrapped run_text (run_instance input)

  abbrev pub after_describe :
      ℕ
      → M (Fleet V) (List (List Instance))
      → Result (List (List Instance))
      → M (Fleet V) (List (List Instance))
  after_describe left more (ok rs) = pure rs
  after_describe zero more (err e) =
      fail (wrap (codes "failed to describe instance after 3 attempts: ") e)
  after_describe (suc left) more (err e) = more

  -- The loop over `DescribeInstances`, with the attempts that are left.
  unfoldable pub describe_attempts : ℕ → Text → M (Fleet V) (List (List Instance))
  describe_attempts zero id = pure []
  describe_attempts (suc left) id =
      attempted (on_ec2 (ec2.describe_instances id))
      >>= after_describe left (describe_attempts left id)

  abbrev pub take_instance : List (List Instance) → M (Fleet V) (Unit {0})
  take_instance [] = fail (errorf (codes "no reservations found for instance"))
  take_instance ([] ∷ rs) = fail (errorf (codes "no instances found in reservation"))
  take_instance ((i ∷ is) ∷ rs) = modify (with_addresses i)

  -- The part of `deployVM` behind the launch.
  unfoldable pub settle : Text → M (Fleet V) (Unit {0})
  settle id = do
    wrapped (codes "failed waiting for instance to be running: ") (on_ec2 (ec2.wait_running id))
    describe_attempts request_limit id >>= take_instance

  unfoldable pub input_of : VmPlan → Vpc → Text → Text → Machine → InstanceInput
  input_of plan vpc subnet image m = record {
    image_id = image;
    machine_type = m.vm_size;
    subnet_id = subnet;
    security_group = vpc.security_group_id;
    tag_specifications = tag_specifications_of plan m.name;
    spot = false;
  }

  abbrev pub in_subnet : VmPlan → Vpc → List Text → M (Fleet V) (Unit {0})
  in_subnet plan vpc [] = fail (errorf (codes "no public subnets available in VPC " ++ vpc.vpc_id))
  in_subnet plan vpc (subnet ∷ subnets) =
      if is_empty vpc.security_group_id
      then fail (errorf (codes "no security group ID set for VPC " ++ vpc.vpc_id))
      else (gets (λ m. m) >>= λ m.
          wrapped (codes "failed to get latest AMI: ")
            (get_latest_ubuntu_ami m.region (codes "x86_64"))
          >>= λ image. launch plan.spot (input_of plan vpc subnet image m) >>= settle)

  abbrev pub in_vpc : VmPlan → Option Vpc → M (Fleet V) (Unit {0})
  in_vpc plan none = fail (errorf (codes "vpc is nil"))
  in_vpc plan (some vpc) = in_subnet plan vpc vpc.public_subnet_ids

  -- `deployVM`
  unfoldable pub deploy_vm : VmPlan → M (Fleet V) (Unit {0})
  deploy_vm plan = in_vpc plan plan.vpc
