-- ===== src/Aws/Examples.antt =====
-- An on-demand VM and a spot VM, with a client that grants every request, and with one that grants no
-- spot request.
use andaime.Base.{ℕ, ◌+◌, true, false, [], ◌∷◌, none, some, Text, codes, ◌≡◌, refl, if◌then◌else◌}
use andaime.Machine.Examples.{azure_machine}
use andaime.Remote.{errorf, ok, err}
use andaime.Exec.{Run, pure, ◌>>=◌, ◌>>◌, on_err, wrapped, on_world, gets, modify}
use andaime.Aws.{
  Image, Ec2, Vpc, VmPlan, Fleet, newest, get_latest_ubuntu_ami, run_instance, spot_requests,
  launch, describe_attempts, settle, input_of, deploy_vm,
}
use andaime.Aws.Launch.{Launched}
use andaime.Aws.Spot.{deploy_vm-Launched}
use andaime.Aws.Granted.{refused, deploy_vm_granted}

abbrev image_of : Text → ℕ → Image
image_of id date = record { image_id = id; creation_date = date }

abbrev ec2 : Ec2 ℕ
ec2 = record {
  get_client = λ region v. (ok tt, v);
  describe_images = λ region arch v. (
    ok (image_of (codes "ami-1") 3 ∷ image_of (codes "ami-2") 7 ∷ image_of (codes "ami-3") 7 ∷ []),
    v,
  );
  run_instances = λ input v. (ok (codes "i-"), v + 1);
  wait_running = λ id v. (ok tt, v);
  describe_instances = λ id v.
      (ok ((record { public_ip = some (codes "3.3.3.3"); private_ip = none } ∷ []) ∷ []), v);
}

-- Spot requests are refused.
abbrev no_spot : Ec2 ℕ
no_spot = record ec2 {
  run_instances =
      λ input v. (if input.spot then err (errorf (codes "capacity")) else ok (codes "i-"), v + 1);
}

abbrev vpc : Vpc
vpc = record {
  vpc_id = codes "vpc-1";
  security_group_id = codes "sg-1";
  public_subnet_ids = codes "subnet-1" ∷ [];
}

abbrev spot_plan : VmPlan
spot_plan = record { vpc = some vpc; tags = []; machine_id = codes "one"; spot = true }

abbrev start : Run (Fleet ℕ)
start = record {
  machine = azure_machine;
  world = record { launched = []; world = 0 };
  updates = [];
}

newest_image :
    (get_latest_ubuntu_ami ec2 (codes "us-east-1") (codes "x86_64") start).0 ≡ ok (codes "ami-2")
unfolding get_latest_ubuntu_ami newest wrapped on_err on_world ◌>>=◌ ◌>>◌ pure
newest_image = refl

-- Three refused spot requests and two on-demand instances, the second of which is used.
deploy_vm-Launched_example : Launched true [] (deploy_vm no_spot spot_plan start).1.world.launched
unfolding deploy_vm get_latest_ubuntu_ami newest launch spot_requests run_instance settle
    describe_attempts input_of wrapped on_err on_world ◌>>=◌ ◌>>◌ pure gets modify
deploy_vm-Launched_example = deploy_vm-Launched no_spot spot_plan start refl

two_instances :
    (deploy_vm no_spot spot_plan start).1.world.launched
    ≡ (false, codes "i-") ∷ (false, codes "i-") ∷ []
unfolding deploy_vm get_latest_ubuntu_ami newest launch spot_requests run_instance settle
    describe_attempts input_of wrapped on_err on_world ◌>>=◌ ◌>>◌ pure gets modify
two_instances = refl

deploy_vm_granted_example : deploy_vm ec2 spot_plan start ≡ refused ec2 (codes "i-") 1 start
unfolding get_latest_ubuntu_ami newest wrapped on_err on_world ◌>>=◌ ◌>>◌ pure
deploy_vm_granted_example =
    deploy_vm_granted ec2 spot_plan vpc (codes "subnet-1") [] start start (codes "ami-2")
      (codes "i-") 1 refl refl refl refl refl refl
