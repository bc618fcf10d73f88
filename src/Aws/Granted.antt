-- ===== src/Aws/Granted.antt =====
-- A spot VM whose first request is granted.
use andaime.Base.{true, false, List, ◌∷◌, ◌++◌, some, Text, codes, is_empty, ◌≡◌, refl}
use andaime.Remote.{errorf, Result, ok, err}
use andaime.Exec.{Run, pure, fail, ◌>>=◌, on_err, wrapped, on_world, gets}
use andaime.Aws.{
  InstanceInput, Ec2, Vpc, VmPlan, Fleet, run_text, get_latest_ubuntu_ami, run_instance,
  spot_requests, launch, settle, input_of, deploy_vm,
}

module _ {V : Type 0} (ec2 : Ec2 V) where
  -- The instance of the request, and the error that wraps nil.
  abbrev pub refused : Text → V → Run (Fleet V) → Result (Unit {0}) × Run (Fleet V)
  refused id v s = (
    err (errorf (run_text ++ codes "%!w(<nil>)")),
    record s { world = record { launched = (true, id) ∷ s.world.launched; world = v } },
  )

  launch_granted :
      (input : InstanceInput) (s : Run (Fleet V)) (id : Text) (v : V)
      → ec2.run_instances (record input { spot = true }) s.world.world ≡ (ok id, v)
      → launch ec2 true input s
        ≡ (err (errorf (run_text ++ codes "%!w(<nil>)")), (refused id v s).1)
  unfolding launch spot_requests run_instance on_world ◌>>=◌ pure fail
  launch_granted input s id v h = rw h refl

  -- If the first request for a spot VM is granted, deployVM returns an error that wraps nil, and leaves
  -- the spot instance running.
  pub deploy_vm_granted :
      (plan : VmPlan) (vpc : Vpc) (subnet : Text) (subnets : List Text) (s s' : Run (Fleet V))
      (image id : Text) (v : V)
      → plan.vpc ≡ some vpc
      → vpc.public_subnet_ids ≡ subnet ∷ subnets
      → is_empty vpc.security_group_id ≡ false
      → plan.spot ≡ true
      → get_latest_ubuntu_ami ec2 s.machine.region (codes "x86_64") s ≡ (ok image, s')
      → ec2.run_instances
          (record (input_of ec2 plan vpc subnet image s.machine) { spot = true })
          s'.world.world
        ≡ (ok id, v)
      → deploy_vm ec2 plan s ≡ refused id v s'
  unfolding deploy_vm gets wrapped on_err ◌>>=◌ launch spot_requests run_instance on_world input_of
      settle
  deploy_vm_granted plan vpc subnet subnets s s' image id v in_plan in_list grouped asked found
        granted =
      rw in_plan (
        rw in_list (
          rw grouped (
            rw asked (
              rw found (
                rw (launch_granted (input_of ec2 plan vpc subnet image s.machine) s' id v granted)
                  refl)))))
