-- ===== src/Cluster/Workers.antt =====
-- The workers of a cluster: what they are told.
use andaime.Base.{
  Bool, true, false, ◌&&◌, not, if◌then◌else◌, [], ◌∷◌, Option, none, some, Text, codes, same,
  is_empty, Dict, lookup, insert, lookup-insert_self, keys, ◌≡◌, refl, sym, ◌∙◌, ap, subst, inl,
  inr, Option-cases, some_eq, arith,
}
use andaime.Types.{node_type_compute}
use andaime.Machine.{Machine}
use andaime.Machine.Services.{listed}
use andaime.Remote.{errorf, Result, ok, err, Remote}
use andaime.Exec.{Run}
use andaime.Node.{node_guard, provision_bacalhau_node}
use andaime.Cluster.{
  Cluster, Plan, get_machines, get_machine, unless_failed, with_orchestrator_ip, update_machine,
  context, provision_stored, as_orchestrator, announce, announced, assigned, provision_orchestrator,
  configured,
}
use andaime.Cluster.Names.{err_not_ok, provisioned-name}
use andaime.Cluster.Assign.{
  Named, worker_of, insert-Named, visited, assign_workers-lookup, update_machine-stored,
}

found_stored : (o : Option Machine) (m : Machine) → unless_failed o ≡ some m → o ≡ some m
found_stored none m h = h
found_stored (some x) m h = ground arith

listed_unfailed :
    (j : Text) (ms : Dict Machine) (m : Machine)
    → lookup j ms ≡ some m
    → m.failed ≡ false
    → listed j (keys (get_machines ms)) ≡ true
unfolding lookup get_machines
listed_unfailed j [] m h f = cc
listed_unfailed j ((k, x) ∷ ms) m h f = ground (arith, listed_unfailed j ms m)

-- A machine that is told the address of its orchestrator.
abbrev pub Told : Text → Machine → Type 0
Told ip m = (m.node_type ≡ node_type_compute) × (m.orchestrator_ip ≡ ip)

visited-Told :
    (ip : Text) (here : Bool) (o : Option Machine) (m : Machine)
    → visited ip here o ≡ some m
    → ((x : Machine) → o ≡ some x → x.failed ≡ false → here ≡ true)
    → m.failed ≡ false
    → m.orchestrator ≡ false
    → Told ip m
visited-Told ip here none m v w f o = cc
visited-Told ip true (some x) m v w f o = (ground arith, ground arith)
visited-Told ip false (some x) m v w f o =
    let e : x ≡ m = cc in
    let wrong : false ≡ true = w x refl (ap (λ y. y.failed) e ∙ f) in absurd (ground arith)

guard_of_Told : (ip : Text) (m : Machine) → Told ip m → is_empty ip ≡ false → node_guard m ≡ none
unfolding same
guard_of_Told ip m t h = rw t.0 (rw t.1 (rw h refl))

-- The state of a cluster whose machine of this name has been provisioned.
abbrev AfterNode : {W : Type 0} → Text → Cluster W → Type 0
AfterNode name c = Named c.machines × (m : Machine) × (lookup name c.machines ≡ some m)

-- What `ProvisionOrchestrator` tells the other machines.
abbrev pub AllTold : {W : Type 0} → Cluster W → Type 0
AllTold c =
    (j : Text) (m : Machine)
    → lookup j c.machines ≡ some m
    → m.failed ≡ false
    → m.orchestrator ≡ false
    → Told c.orchestrator_ip m

-- The deployment's address is the public one of its machine of this name.
abbrev pub HasAddressOf : {W : Type 0} → Text → Cluster W → Type 0
HasAddressOf name c =
    (o : Machine) × (lookup name c.machines ≡ some o) × (o.public_ip ≡ c.orchestrator_ip)

-- A visit leaves the public address of a machine.
visited-public_ip :
    (ip : Text) (here : Bool) (o : Option Machine) (m : Machine)
    → o ≡ some m
    → (m' : Machine) × (visited ip here o ≡ some m') × (m'.public_ip ≡ m.public_ip)
visited-public_ip ip here none m h = cc
visited-public_ip ip here (some x) m h = either_way (here && not x.orchestrator)
  where
    either_way :
        (b : Bool)
        → (m' : Machine) × ((if b then some (worker_of ip x) else some x) ≡ some m')
          × (m'.public_ip ≡ m.public_ip)
    either_way true = (worker_of ip x, refl, ap (λ y. y.public_ip) (some_eq x m h))
    either_way false = (x, refl, ap (λ y. y.public_ip) (some_eq x m h))

announced-AllTold :
    {W : Type 0} (c : Cluster W) (name ip : Text) (ms : Dict Machine) (m : Machine)
    → Named ms
    → lookup name ms ≡ some m
    → m.public_ip ≡ ip
    → HasAddressOf name (announced c ip (assigned ip (some ms))).1
      × AllTold (announced c ip (assigned ip (some ms))).1
announced-AllTold c name ip ms m named at_name address =
    let (ms', r, named', l) = assign_workers-lookup ip (keys (get_machines ms)) ms named in
    let (o, v, same_ip) =
      visited-public_ip ip (listed name (keys (get_machines ms))) (lookup name ms) m at_name in
    rw r (
      (o, l name ∙ v, same_ip ∙ address),
      λ j m v f o.
          visited-Told ip (listed j (keys (get_machines ms))) (lookup j ms) m (sym (l j) ∙ v)
            (λ x e g. listed_unfailed j ms x e g) f o,
    )

announce-found :
    {W : Type 0} (name : Text) (u : Unit {0}) (c : Cluster W) (m : Machine)
    → lookup name c.machines ≡ some m
    → announce name (ok u, c)
      ≡ announced c m.public_ip (
          assigned m.public_ip
            (update_machine m.name (with_orchestrator_ip m.public_ip) c.machines))
announce-found name u c m e = rw (e, announce) refl

announce-stored :
    {W : Type 0} (name : Text) (u : Unit {0}) (c : Cluster W) (m : Machine) (ms : Dict Machine)
    → lookup name c.machines ≡ some m
    → update_machine m.name (with_orchestrator_ip m.public_ip) c.machines ≡ some ms
    → announce name (ok u, c) ≡ announced c m.public_ip (assigned m.public_ip (some ms))
announce-stored name u c m ms e h =
    announce-found name u c m e ∙ ap (λ o. announced c m.public_ip (assigned m.public_ip o)) h

announce-AllTold :
    {W : Type 0} (name : Text) (x : Result (Unit {0}) × Cluster W)
    → x.0 ≡ ok tt
    → AfterNode name x.1
    → HasAddressOf name (announce name x).1 × AllTold (announce name x).1
announce-AllTold name (err e, c) h w = absurd (err_not_ok e h)
announce-AllTold name (ok u, c) h (named, m, e) =
    let f = with_orchestrator_ip m.public_ip in
    let n = named name m e in
    let stored_at : lookup m.name c.machines ≡ some m =
      subst (λ k. lookup k c.machines ≡ some m) (sym n) e in
    let ms = insert m.name (f m) c.machines in
    subst (λ y. HasAddressOf name y.1 × AllTold y.1)
      (sym
        (announce-stored name u c m ms e (update_machine-stored m.name f m c.machines stored_at)))
      (announced-AllTold c name m.public_ip ms (f m)
        (insert-Named m.name (f m) c.machines named refl)
        (subst (λ k. lookup k ms ≡ some (f m)) n (lookup-insert_self m.name (f m) c.machines)) refl)

module _ {W : Type 0} (remote : Remote W) (plan : Plan) where
  configured-AfterNode :
      (c : Cluster W) (name : Text) (m : Machine) (x : Result (Unit {0}) × W)
      → Named c.machines
      → m.name ≡ name
      → (configured remote plan c name m x).0 ≡ ok tt
      → AfterNode name (configured remote plan c name m x).1
  configured-AfterNode c name m (err e, w) named n h = absurd (err_not_ok _ h)
  configured-AfterNode c name m (ok u, w) named n h =
      let s : Run W = record { machine = m; world = w; updates = [] } in
      let run = provision_bacalhau_node remote (context remote plan c name m) plan.settings s in
      let kept : run.1.machine.name ≡ m.name =
        provisioned-name remote (context remote plan c name m) plan.settings s h in
      (
        insert-Named name run.1.machine c.machines named (kept ∙ n),
        run.1.machine,
        lookup-insert_self name run.1.machine c.machines,
      )

  node_done :
      (name : Text) (x : Result (Unit {0}) × Cluster W) → (announce name x).0 ≡ ok tt → x.0 ≡ ok tt
  node_done name (err e, c) h = absurd (err_not_ok e h)
  node_done name (ok u, c) h = refl

  orchestrator-AllTold :
      (c : Cluster W) (name : Text) (m : Machine)
      → Named c.machines
      → lookup name c.machines ≡ some m
      → (announce name (provision_stored remote plan c name m as_orchestrator)).0 ≡ ok tt
      → let c' = (announce name (provision_stored remote plan c name m as_orchestrator)).1 in
        HasAddressOf name c' × AllTold c'
  unfolding provision_stored
  orchestrator-AllTold c name m named e h =
      let x = remote.new_config m.public_ip m.ssh_port m.ssh_user m.ssh_private_key_path c.world in
      let y = configured remote plan c name (as_orchestrator m) x in
      let done = node_done name y h in
      announce-AllTold name y done
        (configured-AfterNode c name (as_orchestrator m) x named (named name m e) done)

  provision_orchestrator-found :
      (c : Cluster W) (name : Text) (m : Machine)
      → get_machine name c.machines ≡ some m
      → provision_orchestrator remote plan c name
        ≡ announce name (provision_stored remote plan c name m as_orchestrator)
  unfolding provision_orchestrator provision_stored
  provision_orchestrator-found c name m e = rw (e, provision_orchestrator) refl

  provision_orchestrator-missing :
      (c : Cluster W) (name : Text)
      → get_machine name c.machines ≡ none
      → (provision_orchestrator remote plan c name).0
        ≡ err (errorf (codes "orchestrator machine is nil"))
  unfolding provision_orchestrator
  provision_orchestrator-missing c name e = rw (e, provision_orchestrator) refl

  -- Once the orchestrator is up, every other machine that has not failed is a compute node that
  -- knows the address that the deployment holds, and this is the public address of the machine that
  -- the orchestrator stands under. If that address is not
  -- empty, the guards of the deployer let each of these machines pass. The machines stand under
  -- their own names.
  pub provision_orchestrator_tells_workers :
      (c : Cluster W) (name : Text)
      → Named c.machines
      → (provision_orchestrator remote plan c name).0 ≡ ok tt
      → let c' = (provision_orchestrator remote plan c name).1 in
        HasAddressOf name c'
        × AllTold c'
        × (is_empty c'.orchestrator_ip ≡ false
            → (j : Text) (m : Machine) → lookup j c'.machines ≡ some m
            → m.failed ≡ false
            → m.orchestrator ≡ false
            → node_guard m ≡ none)
  provision_orchestrator_tells_workers c name named h =
      let c' = (provision_orchestrator remote plan c name).1 in
      let told : HasAddressOf name c' × AllTold c' =
        elim (Option-cases (get_machine name c.machines)) [
          | inl g ↦ absurd (err_not_ok _ (sym (provision_orchestrator-missing c name g) ∙ h))
          | inr (m, g) ↦
              let run = provision_orchestrator-found c name m g in
              subst (λ y. HasAddressOf name y.1 × AllTold y.1) (sym run)
                (orchestrator-AllTold c name m named (found_stored (lookup name c.machines) m g)
                  (sym (ap (λ y. y.0) run) ∙ h))
        ] in
      (told.0, told.1, λ ip j m e f o. guard_of_Told c'.orchestrator_ip m (told.1 j m e f o) ip)
