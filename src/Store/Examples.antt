-- ===== src/Store/Examples.antt =====
-- A store with one node, and a package that writes one of two lists.
use andaime.Base.{
  some_eq, ◌==◌, Bool, true, false, List, [], ◌∷◌, Option, none, some, Text, codes, if◌then◌else◌,
  ◌≡◌, refl, sym, ap, ◌∙◌, arith, same, same→eq, ◌&&◌, not, ℕ, Bool-cases, Option-cases, inl, inr,
}
use andaime.Store.{
  NodeInfo, Yaml, File, NodeStore, AddResult, WriteCall, read_nodes, get_nodes, validate,
  already_exists, add_node, write_nodes, write_temp, add_read,
}
use andaime.Store.Add.{RoundTrip}
use andaime.Store.Unique.{ListsUnique, add_node-ListsUnique}

abbrev same_flag : Bool → Bool → Bool
same_flag true b = b
same_flag false b = not b

same_flag→eq : (a b : Bool) → same_flag a b ≡ true → a ≡ b
same_flag→eq true b h = ground arith
same_flag→eq false b h = ground arith

abbrev node_at : Text → NodeInfo
node_at ip = record {
  name = codes "n";
  node_ip = ip;
  orchestrator_ip = [];
  docker_installed = true;
  bacalhau_installed = true;
  custom_script = false;
  ssh_username = codes "u";
  ssh_key_path = codes "k";
}

abbrev first_node : NodeInfo
first_node = node_at (codes "1")

abbrev second_node : NodeInfo
second_node = node_at (codes "2")

same_node : NodeInfo → NodeInfo → Bool
same_node a b =
    same a.name b.name
    && same a.node_ip b.node_ip
    && same a.orchestrator_ip b.orchestrator_ip
    && same_flag a.docker_installed b.docker_installed
    && same_flag a.bacalhau_installed b.bacalhau_installed
    && same_flag a.custom_script b.custom_script
    && same a.ssh_username b.ssh_username
    && same a.ssh_key_path b.ssh_key_path

same_node→eq : (a b : NodeInfo) → same_node a b ≡ true → a ≡ b
unfolding same_node
same_node→eq a b h =
    let e1 : a.name ≡ b.name = same→eq a.name b.name (ground arith) in
    let e2 : a.node_ip ≡ b.node_ip = same→eq a.node_ip b.node_ip (ground arith) in
    let e3 : a.orchestrator_ip ≡ b.orchestrator_ip =
      same→eq a.orchestrator_ip b.orchestrator_ip (ground arith) in
    let e4 : a.docker_installed ≡ b.docker_installed =
      same_flag→eq a.docker_installed b.docker_installed (ground arith) in
    let e5 : a.bacalhau_installed ≡ b.bacalhau_installed =
      same_flag→eq a.bacalhau_installed b.bacalhau_installed (ground arith) in
    let e6 : a.custom_script ≡ b.custom_script =
      same_flag→eq a.custom_script b.custom_script (ground arith) in
    let e7 : a.ssh_username ≡ b.ssh_username =
      same→eq a.ssh_username b.ssh_username (ground arith) in
    let e8 : a.ssh_key_path ≡ b.ssh_key_path =
      same→eq a.ssh_key_path b.ssh_key_path (ground arith) in
    λ i. record {
      name = e1 i;
      node_ip = e2 i;
      orchestrator_ip = e3 i;
      docker_installed = e4 i;
      bacalhau_installed = e5 i;
      custom_script = e6 i;
      ssh_username = e7 i;
      ssh_key_path = e8 i;
    }

-- A package that writes the lists of these two nodes only: one byte for each node.
node_mark : NodeInfo → Option ℕ
node_mark n =
    if same_node n first_node then some 1 else if same_node n second_node then some 2 else none

node_of : ℕ → Option NodeInfo
node_of k = if k == 1 then some first_node else if k == 2 then some second_node else none

none-some {ℓ} : {A : Type ℓ} (a : A) → ¬ (none ≡ some a)
none-some a e = cc

node_of-node_mark : (n : NodeInfo) (k : ℕ) → node_mark n ≡ some k → node_of k ≡ some n
unfolding node_of node_mark
node_of-node_mark n k h = elim (Bool-cases (same_node n first_node)) [
  | inl a ↦
      ap node_of (sym (some_eq 1 k (sym (rw (a, node_mark) refl) ∙ h)))
      ∙ ap some (sym (same_node→eq n first_node a))
  | inr a ↦ elim (Bool-cases (same_node n second_node)) [
    | inl b ↦
        ap node_of (sym (some_eq 2 k (sym (rw (a, node_mark) (rw b refl)) ∙ h)))
        ∙ ap some (sym (same_node→eq n second_node b))
    | inr b ↦ elim (none-some k (sym (rw (a, node_mark) (rw b refl)) ∙ h)) [ ]
  ]
]

abbrev both {ℓ} : {A : Type ℓ} → Option A → Option (List A) → Option (List A)
both none o = none
both (some x) none = none
both (some x) (some xs) = some (x ∷ xs)

marks : List NodeInfo → Option Text
marks [] = some []
marks (n ∷ ns) = both (node_mark n) (marks ns)

nodes_of : Text → Option (List NodeInfo)
nodes_of [] = some []
nodes_of (k ∷ ks) = both (node_of k) (nodes_of ks)

two_nodes_yaml : Yaml
two_nodes_yaml = record { marshal = marks; unmarshal = nodes_of }

marks-nodes_of : RoundTrip two_nodes_yaml
unfolding marks nodes_of two_nodes_yaml
marks-nodes_of [] text h = ap nodes_of (sym (some_eq [] text h))
marks-nodes_of (n ∷ ns) text h = elim (Option-cases (node_mark n)) [
  | inl a ↦ elim (none-some text (sym (ap (λ o. both o (marks ns)) a) ∙ h)) [ ]
  | inr (k, a) ↦ elim (Option-cases (marks ns)) [
    | inl b ↦
        elim (none-some text
          (sym (ap (both (some k)) b) ∙ sym (ap (λ o. both o (marks ns)) a) ∙ h)) [ ]
    | inr (ks, b) ↦
        ap nodes_of (
          sym (
            some_eq (k ∷ ks) text
              (sym (ap (both (some k)) b) ∙ sym (ap (λ o. both o (marks ns)) a) ∙ h)))
        ∙ ap (λ o. both o (nodes_of ks)) (node_of-node_mark n k a)
        ∙ ap (both (some n)) (marks-nodes_of ns ks b)
  ]
]

abbrev all_work : WriteCall → Bool
all_work call = false

abbrev one_node : NodeStore
one_node = record { file = File.contents (1 ∷ []); temps = 0 }

add_node-ListsUnique_example :
    ListsUnique (get_nodes two_nodes_yaml (record one_node { file = File.contents (1 ∷ 2 ∷ []) }))
unfolding add_node add_read read_nodes validate already_exists two_nodes_yaml nodes_of node_of
    get_nodes write_nodes write_temp marks node_mark same_node same
add_node-ListsUnique_example =
    add_node-ListsUnique two_nodes_yaml all_work one_node
      (record one_node { file = File.contents (1 ∷ 2 ∷ []) }) second_node AddResult.added
      marks-nodes_of refl (refl, tt)
