-- ===== src/Cluster.antt =====
-- pkg/providers/common/cluster_deployer.go: how the machines of a deployment become a cluster, and
-- the machines of pkg/models/deployment.go. The machines of a map are visited in the order of its
-- entries, which stands for any order; the workers, which the code runs side by side, run one
-- after the other, each of them whatever the others gave. A nil machine, where Go panics, is an
-- error of its own.
pub mod Find
pub mod Assign
pub mod Names
pub mod Workers
pub mod Wait
pub mod Examples
use andaime.Base.{
  ℕ, ◌+◌, ltb, ◌==◌, Bool, true, false, not, List, [], ◌∷◌, ◌++◌, Option, none, some, Text, codes,
  same, is_empty, Dict, lookup, insert, keys, if◌then◌else◌,
}
use andaime.Types.{node_type_compute, node_type_orchestrator}
use andaime.Location.{Tables}
use andaime.Machine.{Machine, get_machine_resource_state}
use andaime.Remote.{Error, errorf, wrap, Result, ok, err, Remote}
use andaime.Exec.{Run}
use andaime.Node.{Context, Setting, provision_bacalhau_node}

-- What the deployer reads and writes of a deployment, and the hosts of its machines.
pub record Cluster (W : Type 0) : Type 0 where
  pub machines : Dict Machine
  pub orchestrator_ip : Text
  pub world : W

-- What the deployer only reads.
pub record Plan : Type 0 where
  pub tables : Tables
  pub settings : List Setting
  pub project_id : Text
  pub custom_script_path : Text
  pub now : ℕ

-- `GetMachines` and `GetMachine`, which pass over the machines that have failed.
unfoldable pub get_machines : Dict Machine → Dict Machine
get_machines [] = []
get_machines ((k, m) ∷ ms) = if m.failed then get_machines ms else (k, m) ∷ get_machines ms

abbrev pub unless_failed : Option Machine → Option Machine
unless_failed none = none
unless_failed (some m) = if m.failed then none else some m

abbrev pub get_machine : Text → Dict Machine → Option Machine
get_machine name ms = unless_failed (lookup name ms)

-- The loop of `FindOrchestratorMachine`: the last orchestrator that was seen, and how many.
unfoldable pub scan_orchestrators : Dict Machine → Option Machine → ℕ → Option Machine × ℕ
scan_orchestrators [] last count = (last, count)
scan_orchestrators ((k, m) ∷ ms) last count =
    let more = scan_orchestrators ms (some m) (count + 1) in
    let same_as_before = scan_orchestrators ms last count in
    if m.orchestrator then more else same_as_before

abbrev pub one_orchestrator : Option Machine × ℕ → Result Machine
one_orchestrator (none, count) = err (errorf (codes "no orchestrator node found"))
one_orchestrator (some m, count) =
    if count == 0
    then err (errorf (codes "no orchestrator node found"))
    else if ltb 1 count
    then err (errorf (codes "multiple orchestrator nodes found"))
    else ok m

-- `FindOrchestratorMachine`
unfoldable pub find_orchestrator_machine : Dict Machine → Result Machine
find_orchestrator_machine ms = one_orchestrator (scan_orchestrators (get_machines ms) none 0)

-- `UpdateMachine`; `none` is the error of a machine that is not there.
unfoldable pub update_machine : Text → (Machine → Machine) → Dict Machine → Option (Dict Machine)
update_machine name updater ms = elim (lookup name ms) [
  | none ↦ none
  | some m ↦ some (insert name (updater m) ms)
]

-- `mach.SetOrchestratorIP(ip)`
abbrev pub with_orchestrator_ip : Text → Machine → Machine
with_orchestrator_ip ip m = record m { orchestrator_ip = ip }

-- One turn of the loop at the end of `ProvisionOrchestrator`: an orchestrator is passed over, and
-- an error of `UpdateMachine` ends the loop.
abbrev pub turn :
    Bool
    → Dict Machine
    → Option (Dict Machine)
    → (Dict Machine → Option (Dict Machine))
    → Option (Dict Machine)
turn true ms updated rest = rest ms
turn false ms none rest = none
turn false ms (some ms') rest = rest ms'

-- That loop, over the names that the map has.
unfoldable pub assign_workers : Text → List Text → Dict Machine → Option (Dict Machine)
assign_workers ip [] ms = some ms
assign_workers ip (k ∷ ks) ms = elim (lookup k ms) [
  | none ↦ assign_workers ip ks ms
  | some m ↦
      turn m.orchestrator ms
        (update_machine m.name (with_orchestrator_ip ip)
          (insert k (record m { node_type = node_type_compute }) ms))
        (assign_workers ip ks)
]

-- The names of the machines that are no orchestrators.
unfoldable pub worker_names : Dict Machine → List Text
worker_names [] = []
worker_names ((k, m) ∷ ms) = if m.orchestrator then worker_names ms else m.name ∷ worker_names ms

abbrev pub as_orchestrator : Machine → Machine
as_orchestrator m = record m {
  orchestrator_ip = codes "0.0.0.0";
  node_type = node_type_orchestrator;
}

abbrev pub assigned : Text → Option (Dict Machine) → Option (Dict Machine)
assigned ip none = none
assigned ip (some ms) = assign_workers ip (keys (get_machines ms)) ms

-- What `ProvisionOrchestrator` does once its node is up.
abbrev pub announced :
    {W : Type 0} → Cluster W → Text → Option (Dict Machine) → Result (Unit {0}) × Cluster W
announced c ip none =
    (err (errorf (codes "failed to set orchestrator IP")), record c { orchestrator_ip = ip })
announced c ip (some ms) = (ok tt, record c { orchestrator_ip = ip; machines = ms })

abbrev pub announce :
    {W : Type 0} → Text → Result (Unit {0}) × Cluster W → Result (Unit {0}) × Cluster W
announce name (err e, c) = (err e, c)
announce name (ok _, c) = elim (lookup name c.machines) [
  | none ↦ (ok tt, c)
  | some m ↦
      announced c m.public_ip
        (assigned m.public_ip (update_machine m.name (with_orchestrator_ip m.public_ip) c.machines))
]

module _ {W : Type 0} (remote : Remote W) (plan : Plan) where
  abbrev pub context : Cluster W → Text → Machine → Context
  context c name m = record {
    tables = plan.tables;
    shown = same m.name name;
    orchestrator_ip = c.orchestrator_ip;
    project_id = plan.project_id;
    custom_script_path = plan.custom_script_path;
    now = plan.now;
  }

  -- `createSSHConfig`, and then `ProvisionBacalhauNode` for the machine stored under the name. The
  -- updates of that call go to a callback that does nothing.
  abbrev pub stored : {A : Type 0} → Cluster W → Text → Result A × Run W → Result A × Cluster W
  stored c name (r, s) =
      (r, record c { machines = insert name s.machine c.machines; world = s.world })

  abbrev pub configured :
      Cluster W → Text → Machine → Result (Unit {0}) × W → Result (Unit {0}) × Cluster W
  configured c name m (err e, w) =
      (err (wrap (codes "failed to create SSH config") e), record c { world = w })
  configured c name m (ok _, w) = stored c name (
      provision_bacalhau_node remote (context c name m) plan.settings
        (record { machine = m; world = w; updates = [] }))

  unfoldable pub provision_stored :
      Cluster W → Text → Machine → (Machine → Machine) → Result (Unit {0}) × Cluster W
  provision_stored c name m prepare =
      configured c name (prepare m)
        (remote.new_config m.public_ip m.ssh_port m.ssh_user m.ssh_private_key_path c.world)

  -- `ProvisionOrchestrator`
  unfoldable pub provision_orchestrator : Cluster W → Text → Result (Unit {0}) × Cluster W
  provision_orchestrator c name = elim (get_machine name c.machines) [
    | none ↦ (err (errorf (codes "orchestrator machine is nil")), c)
    | some m ↦ announce name (provision_stored c name m as_orchestrator)
  ]

  -- `ProvisionWorker`
  unfoldable pub provision_worker : Cluster W → Text → Result (Unit {0}) × Cluster W
  provision_worker c name = elim (get_machine name c.machines) [
    | none ↦ (err (errorf (codes "nil machine")), c)
    | some m ↦ elim m.orchestrator [
      | true ↦
          (err (errorf (codes "is an orchestrator, and should not be deployed as a worker")), c)
      | false ↦ provision_stored c name m (λ x. x)
    ]
  ]

  -- The first of two errors.
  abbrev first_error : Result (Unit {0}) → Result (Unit {0}) → Result (Unit {0})
  first_error (err e) r = err e
  first_error (ok _) r = r

  abbrev wrap_worker : Result (Unit {0}) → Result (Unit {0})
  wrap_worker (ok _) = ok tt
  wrap_worker (err e) = err (wrap (codes "failed to provision Bacalhau worker") e)

  -- The loop of `ProvisionBacalhauCluster` with the wait behind it: the first error is kept.
  unfoldable pub provision_workers : Cluster W → List Text → Result (Unit {0}) × Cluster W
  provision_workers c [] = (ok tt, c)
  provision_workers c (k ∷ ks) =
      let (r, c1) = provision_worker c k in
      let (r', c2) = provision_workers c1 ks in (first_error (wrap_worker r) r', c2)

  -- What `ProvisionBacalhauCluster` does once its orchestrator is up: `return err`, where `err` is
  -- nil, if the orchestrator has no public address.
  abbrev pub deploy_workers : Text → Result (Unit {0}) × Cluster W → Result (Unit {0}) × Cluster W
  deploy_workers name (err e, c) = (err e, c)
  deploy_workers name (ok _, c) = elim (lookup name c.machines) [
    | none ↦ (ok tt, c)
    | some m ↦ elim (is_empty m.public_ip) [
      | true ↦ (ok tt, c)
      | false ↦
          provision_workers (record c { orchestrator_ip = m.public_ip })
            (worker_names (get_machines c.machines))
    ]
  ]

  -- `ProvisionBacalhauCluster`
  unfoldable pub provision_bacalhau_cluster : Cluster W → Result (Unit {0}) × Cluster W
  provision_bacalhau_cluster c = elim (find_orchestrator_machine c.machines) [
    | err e ↦ (err e, c)
    | ok m ↦ deploy_workers m.name (provision_orchestrator c m.name)
  ]
