-- ===== src/Display/Batch.antt =====
-- A batch of statuses: what it leaves in the buffer and in the machines.
use mathlib.Core.Option
use andaime.Base.{
  Bool, true, false, List, [], ◌∷◌, ◌++◌, Option, none, some, Text, same, same_iff, is_empty, Dict,
  lookup, lookup-insert, length, if◌then◌else◌, ◌≡◌, refl, sym, ap, ◌∙◌, arith, Bool-cases,
  Option-cases, inl, inr,
}
use andaime.Location.{Tables}
use andaime.Machine.{Machine}
use andaime.Status.{DisplayStatus}
use andaime.Ring.{CircularBuffer, add, add_all, get_lines}
use andaime.Ring.Window.{IsValid, keep, add_all-keep}
use andaime.Display.{
  DisplayModel, update_machine_status, updated_machines, update_status, update_statuses, then_rest,
  emptied, apply_batched_updates,
}

-- The statuses of a batch that are not nil and have a name.
abbrev pub named_statuses : List (Option DisplayStatus) → List DisplayStatus
named_statuses [] = []
named_statuses (none ∷ ns) = named_statuses ns
named_statuses (some n ∷ ns) = if is_empty n.name then named_statuses ns else n ∷ named_statuses ns

-- All statuses of the list that name the machine, shown one after the other.
abbrev pub shown_all : Tables → Text → List DisplayStatus → Machine → Machine
shown_all tables k [] m = m
shown_all tables k (n ∷ ns) m =
    let here = shown_all tables k ns (update_machine_status tables n m).1 in
    let there = shown_all tables k ns m in if same n.name k then here else there

module _ (tables : Tables) where
  machines_after : List DisplayStatus → Dict Machine → Dict Machine
  machines_after [] ms = ms
  machines_after (n ∷ ns) ms = machines_after ns (updated_machines tables n ms (lookup n.name ms))

  with_buffer :
      List DisplayStatus
      → DisplayModel
      → Option (CircularBuffer DisplayStatus)
      → Option DisplayModel
  with_buffer ns d none = none
  with_buffer ns d (some b) =
      some (record d { machines = machines_after ns d.machines; update_buffer = b })

  -- The model behind one named status.
  abbrev behind : DisplayModel → DisplayStatus → CircularBuffer DisplayStatus → DisplayModel
  behind d n b = record d {
    machines = updated_machines tables n d.machines (lookup n.name d.machines);
    update_buffer = b;
  }

  abbrev stored_status :
      DisplayModel → DisplayStatus → Option (CircularBuffer DisplayStatus) → Option DisplayModel
  stored_status d n none = none
  stored_status d n (some b) = some (behind d n b)

  update_status-unnamed :
      (d : DisplayModel) (n : DisplayStatus)
      → is_empty n.name ≡ true
      → update_status tables d n ≡ some d
  unfolding update_status
  update_status-unnamed d n e = rw (e, update_status) refl

  update_status-named :
      (d : DisplayModel) (n : DisplayStatus)
      → is_empty n.name ≡ false
      → update_status tables d n ≡ stored_status d n (add d.update_buffer n)
  unfolding update_status
  update_status-named d n e = elim (Option-cases (add d.update_buffer n)) [
    | inl a ↦ rw (e, update_status) (rw a refl)
    | inr (b, a) ↦ rw (e, update_status) (rw a refl)
  ]

  with_buffer-behind :
      (d : DisplayModel) (n : DisplayStatus) (b : CircularBuffer DisplayStatus)
      (ns : List DisplayStatus) (o : Option (CircularBuffer DisplayStatus))
      → with_buffer ns (behind d n b) o ≡ with_buffer (n ∷ ns) d o
  unfolding with_buffer machines_after
  with_buffer-behind d n b ns none = refl
  with_buffer-behind d n b ns (some c) = refl

  update_statuses-with_buffer :
      (ns : List (Option DisplayStatus)) (d : DisplayModel)
      → update_statuses tables ns d
        ≡ with_buffer (named_statuses ns) d (add_all d.update_buffer (named_statuses ns))
  unfolding update_statuses with_buffer machines_after add_all
  update_statuses-with_buffer [] d = refl
  update_statuses-with_buffer (none ∷ ns) d = update_statuses-with_buffer ns d
  update_statuses-with_buffer (some n ∷ ns) d =
      let names = named_statuses ns in
      let rest : DisplayModel → Option DisplayModel = update_statuses tables ns in
      let result : Bool → Option DisplayModel = λ c.
        with_buffer (if c then names else n ∷ names) d
          (add_all d.update_buffer (if c then names else n ∷ names)) in
      elim (Bool-cases (is_empty n.name)) [
        | inl e ↦
            ap (λ o. then_rest o rest) (update_status-unnamed d n e)
            ∙ update_statuses-with_buffer ns d
            ∙ ap result (sym e)
        | inr e ↦
            ap (λ o. then_rest o rest) (update_status-named d n e)
            ∙ elim (Option-cases (add d.update_buffer n)) [
              | inl a ↦ ap (λ o. then_rest (stored_status d n o) rest) a ∙ rw (a, add_all) refl
              | inr (b, a) ↦
                  ap (λ o. then_rest (stored_status d n o) rest) a
                  ∙ rw (a, add_all)
                      (update_statuses-with_buffer ns (behind d n b)
                        ∙ with_buffer-behind d n b names (add_all b names))
            ]
            ∙ ap result (sym e)
      ]

  lookup-updated :
      (n : DisplayStatus) (k : Text) (ms : Dict Machine)
      → lookup k (updated_machines tables n ms (lookup n.name ms))
        ≡ Option.map
            (λ m. if same n.name k then (update_machine_status tables n m).1 else m)
            (lookup k ms)
  lookup-updated n k ms = elim (Option-cases (lookup n.name ms)) [
    | inl e ↦ rw e (elim (Option-cases (lookup k ms)) [
      | inl h ↦ rw h refl
      | inr (x, h) ↦ rw h (ground (arith, same_iff n.name k, e, h))
    ])
    | inr (m, e) ↦ rw e (elim (Option-cases (lookup k ms)) [
      | inl h ↦ rw h (
          ground (
            arith,
            lookup-insert n.name k (update_machine_status tables n m).1 ms,
            same_iff n.name k,
            e,
            h,
          ))
      | inr (x, h) ↦ rw h (
          ground (
            arith,
            lookup-insert n.name k (update_machine_status tables n m).1 ms,
            same_iff n.name k,
            e,
            h,
          ))
    ])
  ]

  shown_first :
      (k : Text) (n : DisplayStatus) (ns : List DisplayStatus) (m : Machine)
      → shown_all tables k ns (if same n.name k then (update_machine_status tables n m).1 else m)
        ≡ shown_all tables k (n ∷ ns) m
  shown_first k n ns m = elim (Bool-cases (same n.name k)) [ inl e ↦ rw e refl | inr e ↦ rw e refl ]

  lookup-machines_after :
      (k : Text) (ns : List DisplayStatus) (ms : Dict Machine)
      → lookup k (machines_after ns ms) ≡ Option.map (shown_all tables k ns) (lookup k ms)
  unfolding machines_after
  lookup-machines_after k [] ms = elim (Option-cases (lookup k ms)) [
    | inl h ↦ rw h refl
    | inr (x, h) ↦ rw h refl
  ]
  lookup-machines_after k (n ∷ ns) ms =
      lookup-machines_after k ns (updated_machines tables n ms (lookup n.name ms))
      ∙ ap (Option.map (shown_all tables k ns)) (lookup-updated n k ms)
      ∙ elim (Option-cases (lookup k ms)) [
        | inl h ↦ rw h refl
        | inr (x, h) ↦ rw h (ap some (shown_first k n ns x))
      ]

  -- A batch that is applied to a model with a valid buffer does not panic. It leaves no batch, and
  -- the buffer gives back the last of its old lines and the named statuses of the batch, as many as
  -- it has room for; each machine has been shown the statuses with its name, in their order, and no
  -- machine is added.
  pub apply_batched_updates-shown_all :
      (d : DisplayModel)
      → IsValid d.update_buffer
      → (d' : DisplayModel) × (apply_batched_updates tables d ≡ some d')
        × (d'.batched_updates ≡ [])
        × (get_lines d'.update_buffer
            ≡ keep
                (length d.update_buffer.lines)
                (get_lines d.update_buffer ++ named_statuses d.batched_updates))
        × ((k : Text)
            → lookup k d'.machines
              ≡ Option.map
                  (shown_all tables k (named_statuses d.batched_updates))
                  (lookup k d.machines))
  unfolding apply_batched_updates with_buffer
  apply_batched_updates-shown_all d w =
      let ns = named_statuses d.batched_updates in
      let (b, e, read) = add_all-keep d.update_buffer ns w in
      (
        record d {
          machines = machines_after ns d.machines;
          update_buffer = b;
          batched_updates = [];
        },
        ap emptied (update_statuses-with_buffer d.batched_updates d ∙ ap (with_buffer ns d) e),
        refl,
        read,
        λ k. lookup-machines_after k ns d.machines,
      )
