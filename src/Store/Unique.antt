-- ===== src/Store/Unique.antt =====
-- No two nodes of the file have the same name and address, and `AddNode` keeps it so.
use andaime.Base.{
  some_eq, Bool, false, List, [], ◌∷◌, ◌++◌, Option, none, some, same_iff, ◌≡◌, refl, sym, ap, ◌∙◌,
  subst, inl, inr, Bool-cases, Option-cases, arith, if◌then◌else◌,
}
use andaime.Store.{
  NodeInfo, Yaml, NodeStore, ReadResult, AddResult, WriteCall, read_nodes, get_nodes, listed,
  write_nodes, validate, already_exists, write_result, add_read, add_valid, add_node,
}
use andaime.Store.Add.{RoundTrip, Written, write_nodes-Written}

-- No two nodes have the same name and address.
abbrev pub Unique : List NodeInfo → Type 0
Unique [] = Unit {0}
Unique (n ∷ ns) = (already_exists n ns ≡ false) × Unique ns

-- The nodes of a file that can be read are unique.
abbrev pub ListsUnique : Option (List NodeInfo) → Type 0
ListsUnique none = Unit {0}
ListsUnique (some ns) = Unique ns

exists-behind :
    (n m : NodeInfo) (ns : List NodeInfo)
    → already_exists m ns ≡ false
    → already_exists n (m ∷ ns) ≡ false
    → already_exists m (ns ++ n ∷ []) ≡ false
unfolding already_exists
exists-behind n m [] h e = ground (
  arith,
  same_iff m.name n.name,
  same_iff n.name m.name,
  same_iff m.node_ip n.node_ip,
  same_iff n.node_ip m.node_ip,
)
exists-behind n m (k ∷ ns) h e = ground (arith, exists-behind n m ns)

Unique-behind :
    (n : NodeInfo) (ns : List NodeInfo)
    → already_exists n ns ≡ false
    → Unique ns
    → Unique (ns ++ n ∷ [])
unfolding already_exists
Unique-behind n [] e u = (refl, tt)
Unique-behind n (m ∷ ns) e (f, u) = (exists-behind n m ns f e, Unique-behind n ns (ground arith) u)

module _ (yaml : Yaml) (fails : WriteCall → Bool) where
  Written-ListsUnique :
      (s : NodeStore) (ns : List NodeInfo) (w : NodeStore × Option WriteCall)
      → Written yaml fails s ns w
      → Unique ns
      → ListsUnique (get_nodes yaml s)
      → ListsUnique (get_nodes yaml (write_result w).0)
  unfolding get_nodes
  Written-ListsUnique s ns (s', none) (inl (e, t, h)) u v = rw h u
  Written-ListsUnique s ns (s', some c) (inl (e, t, h)) u v = rw h u
  Written-ListsUnique s ns (s', none) (inr (c, e, h, t)) u v = rw h v
  Written-ListsUnique s ns (s', some c) (inr (_, e, h, t)) u v = rw h v

  same_file :
      (s : NodeStore) (p : NodeStore × AddResult)
      → s ≡ p.0
      → ListsUnique (get_nodes yaml s)
      → ListsUnique (get_nodes yaml p.0)
  same_file s p e u = subst (λ s'. ListsUnique (get_nodes yaml s')) e u

  add_read-ListsUnique :
      (s : NodeStore) (n : NodeInfo) (q : ReadResult) (p : NodeStore × AddResult)
      → RoundTrip yaml
      → read_nodes yaml s.file ≡ q
      → add_read yaml fails s n q ≡ some p
      → ListsUnique (get_nodes yaml s)
      → ListsUnique (get_nodes yaml p.0)
  unfolding add_read get_nodes
  add_read-ListsUnique s n ReadResult.not_exist p r e h u = cc
  add_read-ListsUnique s n ReadResult.read_failed p r e h u =
      same_file s p (ap (λ a. a.0) (some_eq (s, AddResult.not_read) p h)) u
  add_read-ListsUnique s n ReadResult.parse_failed p r e h u =
      same_file s p (ap (λ a. a.0) (some_eq (s, AddResult.not_read) p h)) u
  add_read-ListsUnique s n (ReadResult.nodes ns) p r e h u =
      let before : Unique ns = subst (λ q. ListsUnique (listed q)) e u in
      let all = ns ++ n ∷ [] in
      let answer : Bool → NodeStore × AddResult =
        λ b. if b then (s, AddResult.duplicate) else write_result (write_nodes yaml fails s all) in
      let k : answer (already_exists n ns) ≡ p = some_eq (answer (already_exists n ns)) p h in
      elim (Bool-cases (already_exists n ns)) [
        | inl x ↦ same_file s p (ap (λ a. a.0) (ap answer (sym x) ∙ k)) u
        | inr x ↦
            subst (λ a. ListsUnique (get_nodes yaml a.0)) (ap answer (sym x) ∙ k)
              (Written-ListsUnique s all (write_nodes yaml fails s all)
                (write_nodes-Written yaml fails s all r) (Unique-behind n ns x before) u)
      ]

  -- If the YAML package reads back what it wrote, a call of `AddNode` that does not panic keeps
  -- every two nodes that the store lists apart by name or address, whatever the call answers.
  pub add_node-ListsUnique :
      (s s' : NodeStore) (n : NodeInfo) (answer : AddResult)
      → RoundTrip yaml
      → add_node yaml fails s n ≡ some (s', answer)
      → ListsUnique (get_nodes yaml s)
      → ListsUnique (get_nodes yaml s')
  unfolding add_node
  add_node-ListsUnique s s' n answer r e u = elim (Option-cases (validate n)) [
    | inl v ↦
        add_read-ListsUnique s n (read_nodes yaml s.file) (s', answer) r refl
          (sym (ap (add_valid yaml fails s n) v) ∙ e) u
    | inr (fault, v) ↦
        same_file s (s', answer)
          (ap (λ a. a.0)
            (some_eq (s, AddResult.invalid fault) (s', answer)
              (sym (ap (add_valid yaml fails s n) v) ∙ e)))
          u
  ]
