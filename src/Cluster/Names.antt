-- ===== src/Cluster/Names.antt =====
-- A node keeps the name of its machine.
use andaime.Base.{
  ℕ, ◌&&◌, not, List, [], ◌∷◌, none, Text, is_empty, ◌≡◌, refl, ◌≢◌, sym, ◌∙◌, ap, inl, inr,
  Bool-cases, Option-cases, arith,
}
use andaime.Types.{ServiceState, service_bacalhau}
use andaime.Machine.{Machine, set_service_state, set_complete}
use andaime.Remote.{Error, Result, ok, err, Remote}
use andaime.Exec.{ProvisioningStep, Update, Run}
use andaime.Exec.Rules.{Ends, good, bad, then-Ensures}
use andaime.Exec.Keeps.{At, weaken-Ensures}
use andaime.Node.{Context, Setting, node_guard, provision_bacalhau_node}
use andaime.Node.Plan.{Reached, Stopped, Finished, node_steps-Ensures}
use andaime.Node.Provision.{
  shown-name, ShowClosed, last_shown, NotProvisioned, provision_step-Ensures,
}
use andaime.Node.Guards.{guard_run}
use andaime.Node.Outcome.{enter}

-- The name of the machine of a run.
abbrev NameIs : Text → Machine → Type 0
NameIs n m = m.name ≡ n

set_service-NameIs :
    (n t : Text) (v : ServiceState) (m : Machine) → NameIs n m → NameIs n (set_service_state m t v)
unfolding set_service_state
set_service-NameIs n t v m p = p

shown-NameIs : (n : Text) (ctx : Context) → ShowClosed ctx (NameIs n)
shown-NameIs n ctx state text m p = shown-name ctx.tables state text m ∙ p

last-NameIs : (n : Text) (ctx : Context) (m : Machine) → NameIs n m → NameIs n (last_shown ctx m)
last-NameIs n ctx m p = elim (Bool-cases (ctx.shown && not (is_empty m.name))) [
  | inl e ↦ rw e (shown-NameIs n ctx _ _ m p)
  | inr e ↦ rw e p
]

set_complete-name : (t : ℕ) (m : Machine) → (set_complete t m).name ≡ m.name
unfolding set_complete
set_complete-name t m = ground arith

pub ends_ok :
    {W : Type 0} {E : Run W → Type 0} (Q : Run W → Type 0) (x : Result (Unit {0}) × Run W)
    → Ends (λ _. Q) E x
    → x.0 ≡ ok tt
    → Q x.1
ends_ok Q x (good a s q) h = q
ends_ok Q x (bad e s p) h = cc

pub err_not_ok : (e : Error) → ◌≢◌ {A = Result (Unit {0})} (err e) (ok tt)
err_not_ok e h = cc

module _ {W : Type 0} (remote : Remote W) (ctx : Context) (settings : List Setting) where
  Finished-name :
      (n : Text) (old : List Update) (m : Machine) (us : List Update)
      → Finished old (NameIs n) ctx m us
      → m.name ≡ n
  Finished-name n old m us (x, k, eq, l) =
      let y = set_service_state x service_bacalhau ServiceState.succeeded in
      ap (λ z. z.name) eq
      ∙ set_complete-name ctx.now y
      ∙ set_service-NameIs n service_bacalhau ServiceState.succeeded x k

  guarded-name :
      (s : Run W)
      → node_guard s.machine ≡ none
      → Ends
          (λ _ t. t.machine.name ≡ s.machine.name)
          (λ _. Unit {0})
          (provision_bacalhau_node remote ctx settings s)
  guarded-name s h =
      let n = s.machine.name in
      let K = NameIs n in
      let old = s.updates in
      let P = At {W = W} (Reached old K []) in
      let Q = At {W = W} (Reached old K (ProvisioningStep.node_provisioning ∷ [])) in
      let G : Unit {0} → Run W → Type 0 = λ _ t. t.machine.name ≡ n in
      enter remote ctx settings K G (λ _. Unit {0}) s h
        (set_service-NameIs n service_bacalhau ServiceState.updating s.machine refl)
        (then-Ensures P Q G (λ _. Unit {0}) _ _
          (weaken-Ensures P (λ _. Q) (λ _. Q) (At (NotProvisioned K old)) (λ _. Unit {0}) _
            (provision_step-Ensures remote ctx K K (shown-NameIs n ctx) (set_service-NameIs n _)
              (set_service-NameIs n _) (last-NameIs n ctx) old)
            (λ a t q. q) (λ t q. tt))
          (weaken-Ensures Q (λ _. At (Finished old K ctx)) G (At (Stopped old (λ _. Unit {0})))
            (λ _. Unit {0}) _
            (node_steps-Ensures old K (λ _. Unit {0}) (λ m v p. set_service-NameIs n _ v m p)
              (λ m p. tt) remote ctx settings)
            (λ a t q. Finished-name n old t.machine t.updates q) (λ t q. tt)))

  pub provisioned-name :
      (s : Run W)
      → (provision_bacalhau_node remote ctx settings s).0 ≡ ok tt
      → (provision_bacalhau_node remote ctx settings s).1.machine.name ≡ s.machine.name
  provisioned-name s h = elim (Option-cases (node_guard s.machine)) [
    | inl g ↦ ends_ok (λ t. t.machine.name ≡ s.machine.name) _ (guarded-name s g) h
    | inr (e, g) ↦
        absurd (err_not_ok e (sym (ap (λ x. x.0) (guard_run remote ctx settings s e g)) ∙ h))
  ]
