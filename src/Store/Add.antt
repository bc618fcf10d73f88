-- ===== src/Store/Add.antt =====
-- What `AddNode` leaves in the file, whichever call of the operating system fails.
use andaime.Base.{
  ◌+◌, Bool, true, arith, List, Option, none, some, Text, ◌≡◌, refl, ap, ◌⊎◌, inl, inr, Bool-cases,
  Option-cases,
}
use andaime.Store.{
  NodeInfo, Yaml, NodeStore, without_temp, removed, ReadResult, AddResult, WriteCall, parsed,
  read_nodes, get_nodes, write_temp, write_nodes,
}

-- What the store relies on: a list that was marshalled is read back.
abbrev pub RoundTrip : Yaml → Type 0
RoundTrip yaml =
    (ns : List NodeInfo) (text : Text) → yaml.marshal ns ≡ some text → yaml.unmarshal text ≡ some ns

module _ (yaml : Yaml) (fails : WriteCall → Bool) where
  -- The temporary file of a call that failed is gone, or it is there because its removal failed too.
  abbrev pub Cleaned : NodeStore → NodeStore → Type 0
  Cleaned s s' = (s'.temps ≡ s.temps) ⊎ ((fails WriteCall.remove ≡ true) × (s'.temps ≡ s.temps + 1))

  -- A write either leaves a file that reads as the list and no temporary file, or names the call
  -- that failed and leaves the file as it was.
  abbrev pub Written : NodeStore → List NodeInfo → NodeStore × Option WriteCall → Type 0
  Written s ns (s', o) =
      ((o ≡ none) × (s'.temps ≡ s.temps) × (read_nodes yaml s'.file ≡ ReadResult.nodes ns))
      ⊎ ((call : WriteCall) × (o ≡ some call) × (s'.file ≡ s.file) × Cleaned s s')

  abbrev with_temp : NodeStore → NodeStore
  with_temp s = record s { temps = s.temps + 1 }

  gone : (s : NodeStore) → (without_temp (with_temp s)).temps ≡ s.temps
  gone s = omega arith

  removed-Cleaned :
      (s : NodeStore)
      → ((removed fails (with_temp s)).file ≡ s.file) × Cleaned s (removed fails (with_temp s))
  removed-Cleaned s = elim (Bool-cases (fails WriteCall.remove)) [
    | inl e ↦ rw e (refl, inr (refl, refl))
    | inr e ↦ rw e (refl, inl (gone s))
  ]

  write_temp-Written :
      (s : NodeStore) (ns : List NodeInfo) (text : Text)
      → yaml.unmarshal text ≡ some ns
      → Written s ns (write_temp fails (with_temp s) text)
  unfolding write_temp read_nodes
  write_temp-Written s ns text h = elim (Bool-cases (fails WriteCall.mkdir_all)) [
    | inl a ↦ rw a (inr (WriteCall.mkdir_all, refl, (removed-Cleaned s).0, (removed-Cleaned s).1))
    | inr a ↦ rw a (elim (Bool-cases (fails WriteCall.write_file)) [
      | inl b ↦
          rw b (inr (WriteCall.write_file, refl, (removed-Cleaned s).0, (removed-Cleaned s).1))
      | inr b ↦ rw b (elim (Bool-cases (fails WriteCall.rename)) [
        | inl c ↦ rw c (elim (Bool-cases (fails WriteCall.remove_at_once)) [
          | inl d ↦
              rw d (inr (WriteCall.rename, refl, (removed-Cleaned s).0, (removed-Cleaned s).1))
          | inr d ↦ rw d (inr (WriteCall.rename, refl, refl, inl (gone s)))
        ])
        | inr c ↦ rw c (inl (refl, gone s, ap parsed h))
      ])
    ])
  ]

  pub write_nodes-Written :
      (s : NodeStore) (ns : List NodeInfo)
      → RoundTrip yaml
      → Written s ns (write_nodes yaml fails s ns)
  unfolding write_nodes
  write_nodes-Written s ns r = elim (Option-cases (yaml.marshal ns)) [
    | inl e ↦ rw (e, write_nodes) (inr (WriteCall.marshal, refl, refl, inl refl))
    | inr (text, e) ↦
        rw (e, write_nodes)
          (elim (Bool-cases (fails WriteCall.create_temp)) [
            | inl c ↦ rw c (inr (WriteCall.create_temp, refl, refl, inl refl))
            | inr c ↦ rw c (write_temp-Written s ns text (r ns text e))
          ])
  ]

  -- The answers of a store that can add the node.
  abbrev pub Added : NodeStore → NodeStore → List NodeInfo → AddResult → Type 0
  Added s s' ns answer =
      ((answer ≡ AddResult.added) × (s'.temps ≡ s.temps) × (get_nodes yaml s' ≡ some ns))
      ⊎ ((call : WriteCall) × (answer ≡ AddResult.not_written call)
          × (s'.file ≡ s.file)
          × Cleaned s s')
