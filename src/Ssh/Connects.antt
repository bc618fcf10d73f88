-- ===== src/Ssh/Connects.antt =====
-- When WaitForSSH connects, and that it ends.
use andaime.Base.{
  ℕ, zero, suc, ◌+◌, ◌-◌, ◌<◌, ◌≤◌, ltb, true, false, Option, none, some, if◌then◌else◌, ℤ,
  pos_part, ◌≡◌, sym, ap, ◌∙◌, ◌↔◌, ◌⊎◌, subst, Bool-cases, Option-cases, inl, inr, arith,
}
use andaime.Remote.{Error}
use andaime.Ssh.Wait.{
  Attempts, WaitResult, stopped, after_dial, wait_turns, max_retries_of, wait_for_ssh,
}

le_split : (k i : ℕ) → k ≤ i → (k ≡ i) ⊎ (k + 1 ≤ i)
le_split k i h = omega arith

ltb_of : (m n : ℕ) → m < n → ltb m n ≡ true
ltb_of m n h = ground arith

-- The call fails.
abbrev pub Fails : Option Error → Type 0
Fails o = (e : Error) × (o ≡ some e)

module _ (a : Attempts) (deadline : ℕ) where
  -- The calls from `k` on, up to `j`, fail, and the one with the number `j` does not; before each of
  -- them the deadline is not reached and the context not done.
  abbrev pub ReachedAt : ℕ → ℕ → Type 0
  ReachedAt k j =
      (a.dial j ≡ none)
      × ((i : ℕ) → k ≤ i → i < j → Fails (a.dial i))
      × ((i : ℕ) → k ≤ i → i ≤ j → (a.now i < deadline) × (a.done i ≡ false))

  ReachedAt-step :
      (k j : ℕ)
      → Fails (a.dial k)
      → (a.now k < deadline) × (a.done k ≡ false)
      → ReachedAt (k + 1) j
      → ReachedAt k j
  ReachedAt-step k j f o (d, fs, os) = (
    d,
    λ i p q. elim (le_split k i p) [ inl x ↦ subst (λ i. Fails (a.dial i)) x f | inr x ↦ fs i x q ],
    λ i p q. elim (le_split k i p) [
      | inl x ↦ subst (λ i. (a.now i < deadline) × (a.done i ≡ false)) x o
      | inr x ↦ os i x q
    ],
  )

  ReachedAt-here :
      (k : ℕ) → a.dial k ≡ none → (a.now k < deadline) × (a.done k ≡ false) → ReachedAt k k
  ReachedAt-here k d o = (
    d,
    λ i p q. absurd (omega arith),
    λ i p q. subst (λ i. (a.now i < deadline) × (a.done i ≡ false)) (omega arith) o,
  )

  -- A turn that is in time.
  wait_turns-suc :
      (n k : ℕ) (e : Error)
      → a.now k < deadline
      → a.done k ≡ false
      → wait_turns a deadline (suc n) k e
        ≡ after_dial k (a.dial k) (wait_turns a deadline n (k + 1))
  unfolding wait_turns
  wait_turns-suc n k e t d =
      let turn = after_dial k (a.dial k) (wait_turns a deadline n (k + 1)) in
      ap
        (λ b.
          if b
          then (if a.done k then (WaitResult.cancelled e, k) else turn)
          else (stopped a deadline e k, k))
        (ltb_of (a.now k) deadline t)
      ∙ ap (λ b. if b then (WaitResult.cancelled e, k) else turn) d

  wait_turns-ReachedAt :
      (n k : ℕ) (e : Error)
      → (wait_turns a deadline n k e).0 ≡ WaitResult.connected
      → (j : ℕ) × (k ≤ j) × (j < k + n) × ReachedAt k j
  unfolding wait_turns
  wait_turns-ReachedAt zero k e h = cc
  wait_turns-ReachedAt (suc n) k e h = elim (Bool-cases (ltb (a.now k) deadline)) [
    | inr t ↦ absurd (ground arith)
    | inl t ↦ elim (Bool-cases (a.done k)) [
      | inl d ↦ absurd (ground arith)
      | inr d ↦
          let lt : a.now k < deadline = ground arith in
          let step = ap (λ x. x.0) (sym (wait_turns-suc n k e lt d)) ∙ h in
          elim (Option-cases (a.dial k)) [
            | inl x ↦ (k, omega arith, omega arith, ReachedAt-here k x (lt, d))
            | inr (e', x) ↦
                let rest : Error → WaitResult × ℕ = wait_turns a deadline n (k + 1) in
                let (j, p, q, r) =
                  wait_turns-ReachedAt n (k + 1) e'
                    (sym (ap (λ o. (after_dial k o rest).0) x) ∙ step) in
                (j, omega arith, omega arith, ReachedAt-step k j (e', x) (lt, d) r)
          ]
    ]
  ]

  wait_turns_reach :
      (n k j : ℕ) (e : Error)
      → k ≤ j
      → j < k + n
      → ReachedAt k j
      → wait_turns a deadline n k e ≡ (WaitResult.connected, j + 1)
  unfolding wait_turns
  wait_turns_reach zero k j e p q r = absurd (omega arith)
  wait_turns_reach (suc n) k j e p q (d, fs, os) =
      let (t, o) = os k (omega arith) p in
      let rest : Error → WaitResult × ℕ = wait_turns a deadline n (k + 1) in
      wait_turns-suc n k e t o ∙ elim (le_split k j p) [
        | inl x ↦
            ap (λ o. after_dial k o rest) (ap a.dial x ∙ d)
            ∙ ap (λ (i : ℕ). (WaitResult.connected, i + 1)) x
        | inr x ↦
            let (e', f) = fs k (omega arith) (omega arith) in
            ap (λ o. after_dial k o rest) f
            ∙ wait_turns_reach n (k + 1) j e' x (omega arith)
                (d, λ i p q. fs i (omega arith) q, λ i p q. os i (omega arith) q)
      ]

  wait_turns_bound :
      (n k : ℕ) (e : Error)
      → (k ≤ (wait_turns a deadline n k e).1) × ((wait_turns a deadline n k e).1 ≤ k + n)
  unfolding wait_turns
  wait_turns_bound zero k e = omega arith
  wait_turns_bound (suc n) k e = elim (Option-cases (a.dial k)) [
    | inl x ↦ ground (arith, x)
    | inr (e', x) ↦ ground (arith, x, wait_turns_bound n (k + 1) e')
  ]

module _ (a : Attempts) (configured retry : ℤ) (timeout : ℕ) where
  -- The wait ends: it makes at least one call of NewClient, and at most as many as the retries that
  -- are asked for, or one if these are none.
  pub wait_for_ssh_bound :
      let (r, calls) = wait_for_ssh a configured retry timeout in
      (1 ≤ calls) × (calls ≤ 1 + (pos_part (max_retries_of retry configured) - 1))
  unfolding wait_for_ssh
  wait_for_ssh_bound = elim (Option-cases (a.dial 0)) [
    | inl x ↦ ground (arith, x)
    | inr (e, x) ↦ ground (
      arith,
      x,
      wait_turns_bound a (a.start + timeout) (pos_part (max_retries_of retry configured) - 1) 1 e,
    )
  ]

  -- The call with the number `j` succeeds, the calls before it fail, and before each of them but the
  -- first the deadline is not reached and the context not done.
  abbrev pub ConnectsAt : ℕ → Type 0
  ConnectsAt j =
      (a.dial j ≡ none)
      × ((i : ℕ) → i < j → Fails (a.dial i))
      × ((i : ℕ) → 1 ≤ i → i ≤ j → (a.now i < a.start + timeout) × (a.done i ≡ false))

  connects_in_time :
      (wait_for_ssh a configured retry timeout).0 ≡ WaitResult.connected
      → (j : ℕ) × (j ≤ pos_part (max_retries_of retry configured) - 1) × ConnectsAt j
  unfolding wait_for_ssh
  connects_in_time h =
      let n = pos_part (max_retries_of retry configured) - 1 in
      let rest : Error → WaitResult × ℕ = wait_turns a (a.start + timeout) n 1 in
      elim (Option-cases (a.dial 0)) [
        | inl x ↦ (0, omega arith, (x, λ i p. absurd (omega arith), λ i p q. absurd (omega arith)))
        | inr (e, x) ↦
            let (j, p, q, (d, fs, os)) =
              wait_turns-ReachedAt a (a.start + timeout) n 1 e
                (sym (ap (λ o. (after_dial 0 o rest).0) x) ∙ h) in
            (
              j,
              omega arith,
              (
                d,
                λ i l. elim (le_split 0 i (omega arith)) [
                  | inl z ↦ subst (λ i. Fails (a.dial i)) z (e, x)
                  | inr z ↦ fs i (omega arith) l
                ],
                os,
              ),
            )
      ]

  connects :
      (j : ℕ)
      → j ≤ pos_part (max_retries_of retry configured) - 1
      → ConnectsAt j
      → wait_for_ssh a configured retry timeout ≡ (WaitResult.connected, j + 1)
  unfolding wait_for_ssh
  connects j l (d, fs, os) =
      let n = pos_part (max_retries_of retry configured) - 1 in
      let rest : Error → WaitResult × ℕ = wait_turns a (a.start + timeout) n 1 in
      elim (le_split 0 j (omega arith)) [
        | inl z ↦
            ap (λ o. after_dial 0 o rest) (ap a.dial z ∙ d)
            ∙ ap (λ (i : ℕ). (WaitResult.connected, i + 1)) z
        | inr z ↦
            let (e, f) = fs 0 (omega arith) in
            ap (λ o. after_dial 0 o rest) f
            ∙ wait_turns_reach a (a.start + timeout) n 1 j e (omega arith) (omega arith)
                (d, λ i p q. fs i q, os)
      ]

  -- The wait returns nil after so many calls of NewClient exactly when the last of them, which the
  -- retries allow, succeeds, those before it fail, and before each of them but the first the deadline
  -- is not reached and the context not done.
  pub wait_for_ssh_connects_iff :
      (calls : ℕ)
      → (wait_for_ssh a configured retry timeout ≡ (WaitResult.connected, calls)) ↔ (
          (j : ℕ) × (calls ≡ j + 1)
          × (j ≤ pos_part (max_retries_of retry configured) - 1)
          × ConnectsAt j)
  wait_for_ssh_connects_iff calls = (
    λ h.
        let (j, l, c) = connects_in_time (ap (λ x. x.0) h) in
        (j, ap (λ x. x.1) (sym h ∙ connects j l c), l, c),
    λ w. connects w.0 w.2 w.3 ∙ ap (λ (i : ℕ). (WaitResult.connected, i)) (sym w.1),
  )
