-- ===== src/Azure/Retry.antt =====
-- The loop of deployTemplateWithRetry with a poller that gives an error without a response.
use andaime.Base.{
  ℕ, suc, Bool, true, ◌++◌, Option, none, some, Text, codes, ◌≡◌, ◌≢◌, refl, sym, ◌∙◌,
}
use andaime.Azure.{
  ClientError, Poll, Params, AzureClient, AzurePlan, Deploy, ok, D, pure, fail, call, ◌>>=◌,
}
use andaime.Azure.Template.{poll_fault, on_deploy, on_poll, deploy_attempts}

-- A poll that ends with an error has no response.
abbrev pub ErrorsAreBare : {W : Type 0} → AzureClient W → Type 0
ErrorsAreBare {W} client =
    (w : W) (e : ClientError)
    → (client.poll_until_done w).0.error ≡ some e
    → (client.poll_until_done w).0.provisioning_state ≡ none

none-some {ℓ} : {A : Type ℓ} (a : A) → none ≢ some a
none-some a e = cc

bare_fault_text : (r : Poll) → r.provisioning_state ≡ none → (t : Text) × (poll_fault r ≡ some t)
unfolding poll_fault
bare_fault_text r h = rw (h, poll_fault) (_, refl)

bare_fault : (r : Poll) → r.provisioning_state ≡ none → poll_fault r ≢ none
bare_fault r h e = let (t, q) = bare_fault_text r h in none-some t (sym e ∙ q)

module _ {W : Type 0} (plan : AzurePlan) (name : Text) where
  -- An attempt without a conflict that is retried.
  abbrev Settled : (D W Bool → D W Bool) → Type 0
  Settled m = (a b : D W Bool) (s : Deploy W) → (m a s ≡ m b s) × ((m a s).0 ≢ ok true)

  on_poll-Settled :
      (t : Option Text) (o : Option ClientError)
      → ((e : ClientError) → o ≡ some e → t ≢ none)
      → Settled (on_poll plan name t o)
  unfolding fail pure
  on_poll-Settled (some t) o h a b s = (refl, λ q. cc)
  on_poll-Settled none none h a b s = (refl, λ q. cc)
  on_poll-Settled none (some e) h a b s = absurd (h e refl refl)

  on_deploy-Settled :
      (o : Option ClientError) (m : D W Bool → D W Bool)
      → Settled m
      → Settled (λ a. on_deploy o (m a))
  unfolding fail
  on_deploy-Settled none m h a b s = h a b s
  on_deploy-Settled (some e) m h a b s = (refl, λ q. cc)

module _ {W : Type 0} (client : AzureClient W) (plan : AzurePlan)
    (bare : ErrorsAreBare client) where
  turn-Settled :
      (group name template : Text) (params : Params)
      → Settled plan name (λ again.
        call (client.deploy_template group (codes "deployment-" ++ name) template params) >>= λ e.
        on_deploy e
          (call client.poll_until_done >>= λ r. on_poll plan name (poll_fault r) r.error again))
  unfolding ◌>>=◌ call
  turn-Settled group name template params a b s =
      let d = client.deploy_template group (codes "deployment-" ++ name) template params s.world in
      on_deploy-Settled plan name d.0
        (λ again.
          call client.poll_until_done >>= λ r. on_poll plan name (poll_fault r) r.error again)
        (λ a b t.
          let r = (client.poll_until_done t.world).0 in
          on_poll-Settled plan name (poll_fault r) r.error (λ e h. bare_fault r (bare t.world e h))
            a b _)
        a b (record s { world = d.1 })

  -- If a poll that ends with an error has no response, no attempt is repeated: whatever the number
  -- of the attempts, the loop does what it does with a single one, and it never ends with the DNS
  -- conflict for which it was written.
  pub deploy_attempts_once :
      (left n : ℕ) (group name id template : Text) (params : Params) (s : Deploy W)
      → (deploy_attempts client plan (suc left) n group name id template params s
          ≡ deploy_attempts client plan 1 n group name id template params s)
        × ((deploy_attempts client plan (suc left) n group name id template params s).0 ≢ ok true)
  unfolding deploy_attempts
  deploy_attempts_once left n group name id template params s =
      turn-Settled group name template params _ _ s
