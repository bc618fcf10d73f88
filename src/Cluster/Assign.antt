-- ===== src/Cluster/Assign.antt =====
-- What the workers know of their orchestrator once it is up.
use andaime.Base.{
  subst, Bool, true, false, ◌&&◌, not, List, [], ◌∷◌, Option, none, some, Text, same, same_iff,
  Dict, lookup, insert, lookup-insert, lookup-insert_self, if◌then◌else◌, ◌≡◌, refl, sym, ◌∙◌, ap,
  inl, inr, Bool-cases, Option-cases, arith,
}
use andaime.Types.{node_type_compute}
use andaime.Machine.{Machine}
use andaime.Machine.Services.{listed}
use andaime.Cluster.{update_machine, with_orchestrator_ip, turn, assign_workers}

-- Every machine is stored under its own name.
abbrev pub Named : Dict Machine → Type 0
Named ms = (k : Text) (m : Machine) → lookup k ms ≡ some m → m.name ≡ k

-- What the loop makes of a machine that is no orchestrator.
abbrev pub worker_of : Text → Machine → Machine
worker_of ip m = record m { node_type = node_type_compute; orchestrator_ip = ip }

abbrev pub visited : Text → Bool → Option Machine → Option Machine
visited ip here none = none
visited ip here (some m) = if here && not m.orchestrator then some (worker_of ip m) else some m

pub insert-Named :
    (k : Text) (m : Machine) (ms : Dict Machine) → Named ms → m.name ≡ k → Named (insert k m ms)
insert-Named k m ms w e j x h = ground (arith, lookup-insert k j m ms, w j x, same_iff k j)

pub update_machine-stored :
    (n : Text) (f : Machine → Machine) (x : Machine) (ms : Dict Machine)
    → lookup n ms ≡ some x
    → update_machine n f ms ≡ some (insert n (f x) ms)
unfolding update_machine
update_machine-stored n f x ms h = rw (h, update_machine) refl

-- The machines behind one visit of the loop.
abbrev compute_of : Machine → Machine
compute_of m = record m { node_type = node_type_compute }

abbrev visit : Text → Text → Machine → Dict Machine → Dict Machine
visit ip k m ms = insert m.name (worker_of ip m) (insert k (compute_of m) ms)

update-visit :
    (ip k : Text) (m : Machine) (ms : Dict Machine)
    → m.name ≡ k
    → update_machine m.name (with_orchestrator_ip ip) (insert k (compute_of m) ms)
      ≡ some (visit ip k m ms)
update-visit ip k m ms e =
    update_machine-stored m.name (with_orchestrator_ip ip) (compute_of m)
      (insert k (compute_of m) ms)
      (subst (λ n. lookup n (insert k (compute_of m) ms) ≡ some (compute_of m)) (sym e)
        (lookup-insert_self k (compute_of m) ms))

visit-Named :
    (ip k : Text) (m : Machine) (ms : Dict Machine)
    → Named ms
    → m.name ≡ k
    → Named (visit ip k m ms)
visit-Named ip k m ms w e =
    insert-Named m.name (worker_of ip m) (insert k (compute_of m) ms)
      (insert-Named k (compute_of m) ms w e) refl

lookup-visit :
    (ip k j : Text) (m : Machine) (ms : Dict Machine)
    → m.name ≡ k
    → lookup j (visit ip k m ms) ≡ (if same k j then some (worker_of ip m) else lookup j ms)
lookup-visit ip k j m ms e = ground (
  arith,
  lookup-insert m.name j (worker_of ip m) (insert k (compute_of m) ms),
  lookup-insert k j (compute_of m) ms,
)

visited_not : (ip : Text) (o : Option Machine) → o ≡ visited ip false o
visited_not ip none = refl
visited_not ip (some m) = refl

assign_workers-stored :
    (ip k : Text) (ks : List Text) (m : Machine) (ms : Dict Machine)
    → lookup k ms ≡ some m
    → assign_workers ip (k ∷ ks) ms
      ≡ turn m.orchestrator ms
          (update_machine m.name (with_orchestrator_ip ip) (insert k (compute_of m) ms))
          (assign_workers ip ks)
unfolding assign_workers
assign_workers-stored ip k ks m ms e = rw (e, assign_workers) refl

assign_workers-none :
    (ip k : Text) (ks : List Text) (ms : Dict Machine)
    → lookup k ms ≡ none
    → assign_workers ip (k ∷ ks) ms ≡ assign_workers ip ks ms
unfolding assign_workers
assign_workers-none ip k ks ms e = rw (e, assign_workers) refl

assign_workers-passed :
    (ip k : Text) (ks : List Text) (m : Machine) (ms : Dict Machine)
    → lookup k ms ≡ some m
    → m.orchestrator ≡ true
    → assign_workers ip (k ∷ ks) ms ≡ assign_workers ip ks ms
assign_workers-passed ip k ks m ms e o =
    assign_workers-stored ip k ks m ms e
    ∙ ap
        (λ b.
          turn b ms (update_machine m.name (with_orchestrator_ip ip) (insert k (compute_of m) ms))
            (assign_workers ip ks))
        o

assign_workers-visited :
    (ip k : Text) (ks : List Text) (m : Machine) (ms : Dict Machine)
    → lookup k ms ≡ some m
    → m.name ≡ k
    → m.orchestrator ≡ false
    → assign_workers ip (k ∷ ks) ms ≡ assign_workers ip ks (visit ip k m ms)
assign_workers-visited ip k ks m ms e n o =
    assign_workers-stored ip k ks m ms e
    ∙ ap
        (λ b.
          turn b ms (update_machine m.name (with_orchestrator_ip ip) (insert k (compute_of m) ms))
            (assign_workers ip ks))
        o
    ∙ ap (λ u. turn false ms u (assign_workers ip ks)) (update-visit ip k m ms n)

-- The loop never fails on machines that stand under their own names. Each machine whose name it
-- visits, and that is no orchestrator, is then a compute node that knows the address; every other
-- machine is left as it was.
pub assign_workers-lookup :
    (ip : Text) (ks : List Text) (ms : Dict Machine)
    → Named ms
    → (ms' : Dict Machine) × (assign_workers ip ks ms ≡ some ms')
      × Named ms'
      × ((j : Text) → lookup j ms' ≡ visited ip (listed j ks) (lookup j ms))
assign_workers-lookup ip [] ms w =
    (ms, unfold assign_workers in refl, w, λ j. visited_not ip (lookup j ms))
assign_workers-lookup ip (k ∷ ks) ms w = elim (Option-cases (lookup k ms)) [
  | inl e ↦
      let (ms', r, w', l) = assign_workers-lookup ip ks ms w in
      (ms', assign_workers-none ip k ks ms e ∙ r, w', λ j. ground (arith, l j, e, same_iff k j))
  | inr (m, e) ↦ elim (Bool-cases m.orchestrator) [
    | inl o ↦
        let (ms', r, w', l) = assign_workers-lookup ip ks ms w in
        (
          ms',
          assign_workers-passed ip k ks m ms e o ∙ r,
          w',
          λ j. ground (arith, l j, e, o, same_iff k j),
        )
    | inr o ↦
        let n = w k m e in
        let (ms', r, w', l) =
          assign_workers-lookup ip ks (visit ip k m ms) (visit-Named ip k m ms w n) in
        (
          ms',
          assign_workers-visited ip k ks m ms e n o ∙ r,
          w',
          λ j. ground (arith, l j, e, o, same_iff k j, lookup-visit ip k j m ms n),
        )
  ]
]
