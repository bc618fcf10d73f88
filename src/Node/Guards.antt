-- ===== src/Node/Guards.antt =====
-- The guards in front of the first step of a node.
use andaime.Base.{
  List, [], Option, none, some, Text, same, if◌then◌else◌, ◌≡◌, ◌≢◌, ◌++◌, codes, same_iff, refl,
  ap, arith,
}
use andaime.Types.{node_type_compute, node_type_orchestrator, ServiceState, service_bacalhau}
use andaime.Machine.{Machine, set_service_state, get_service_state}
use andaime.Machine.Services.{get_service_state-set}
use andaime.Remote.{Error, errorf, Result, err, Remote}
use andaime.Exec.{Run, M, fail, ◌>>=◌, ◌>>◌, gets, modify, set_service}
use andaime.Node.{
  Context, Setting, node_guard, guarded, handle_deployment_error, provision_bacalhau_node,
}

-- The machine of a node that is given up before its first step.
abbrev pub turned_down : Machine → Machine
turned_down m =
    set_service_state (set_service_state m service_bacalhau ServiceState.updating) service_bacalhau
      ServiceState.failed

pub guard_kept :
    (m : Machine)
    → node_guard (set_service_state m service_bacalhau ServiceState.updating) ≡ node_guard m
unfolding set_service_state
guard_kept m = refl

guarded_stops :
    {W : Type 0} (g : Option Error) (rest : M W (Unit {0})) (s : Run W) (e : Error)
    → g ≡ some e
    → guarded g rest s ≡ (
      err e,
      record s { machine = set_service_state s.machine service_bacalhau ServiceState.failed },
    )
unfolding handle_deployment_error set_service modify ◌>>◌ fail
guarded_stops none rest s e h = cc
guarded_stops (some x) rest s e h =
    let eq : x ≡ e = cc in
    ap
      (λ y. (
        err y,
        record s { machine = set_service_state s.machine service_bacalhau ServiceState.failed },
      ))
      eq

pub guard_run :
    {W : Type 0} (remote : Remote W) (ctx : Context) (settings : List Setting) (s : Run W)
    (e : Error)
    → node_guard s.machine ≡ some e
    → provision_bacalhau_node remote ctx settings s
      ≡ (err e, record s { machine = turned_down s.machine })
unfolding provision_bacalhau_node set_service modify gets ◌>>=◌ ◌>>◌ set_service_state
guard_run remote ctx settings s e h = guarded_stops _ _ _ e h

-- A run that is turned down: the error is returned, the host is not touched, no update is sent, and
-- of the machine only the Bacalhau service is changed.
abbrev pub TurnedDown : {W : Type 0} → Run W → Error → Result (Unit {0}) × Run W → Type 0
TurnedDown s e x =
    (x ≡ (err e, record s { machine = turned_down s.machine }))
    × ((t : Text)
        → get_service_state (turned_down s.machine) t ≡ (
            if same service_bacalhau t then ServiceState.failed else get_service_state s.machine t))

guard-TurnedDown :
    {W : Type 0} (remote : Remote W) (ctx : Context) (settings : List Setting) (s : Run W)
    (e : Error)
    → node_guard s.machine ≡ some e
    → TurnedDown s e (provision_bacalhau_node remote ctx settings s)
guard-TurnedDown remote ctx settings s e h = (
  guard_run remote ctx settings s e h,
  λ t.
      let m = set_service_state s.machine service_bacalhau ServiceState.updating in
      ground (
        arith,
        get_service_state-set m service_bacalhau t ServiceState.failed,
        get_service_state-set s.machine service_bacalhau t ServiceState.updating,
      ),
)

guard-type :
    (m : Machine)
    → m.node_type ≢ node_type_compute
    → m.node_type ≢ node_type_orchestrator
    → node_guard m ≡ some (errorf (codes "invalid node type: " ++ m.node_type))
guard-type m c o = ground (
  arith,
  same_iff m.node_type node_type_compute,
  same_iff m.node_type node_type_orchestrator,
  c,
  o,
)

guard-compute :
    (m : Machine)
    → m.node_type ≡ node_type_compute
    → m.orchestrator_ip ≡ []
    → node_guard m ≡ some (errorf (codes "no orchestrator IP found"))
unfolding same
guard-compute m c o = rw c (rw o refl)

-- A machine whose node type is neither of the two, or a compute node without the address of an
-- orchestrator, is turned down: the error that says so is returned, the host is not touched and no
-- update is sent, and of the machine only the Bacalhau service is changed, which is then "failed".
pub guard_stops :
    {W : Type 0} (remote : Remote W) (ctx : Context) (settings : List Setting) (s : Run W)
    → (s.machine.node_type ≢ node_type_compute
        → s.machine.node_type ≢ node_type_orchestrator
        → TurnedDown s
            (errorf (codes "invalid node type: " ++ s.machine.node_type))
            (provision_bacalhau_node remote ctx settings s))
      × (s.machine.node_type ≡ node_type_compute
          → s.machine.orchestrator_ip ≡ []
          → TurnedDown s
              (errorf (codes "no orchestrator IP found"))
              (provision_bacalhau_node remote ctx settings s))
guard_stops remote ctx settings s = (
  λ c o. guard-TurnedDown remote ctx settings s _ (guard-type s.machine c o),
  λ c o. guard-TurnedDown remote ctx settings s _ (guard-compute s.machine c o),
)
