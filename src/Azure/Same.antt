-- ===== src/Azure/Same.antt =====
-- The addresses that GetVMIPAddresses gives are those of one interface, whatever VM it is asked for.
use andaime.Base.{ℕ, zero, suc, List, [], ◌∷◌, Option, some, Text, ◌≡◌, refl, ap, ◌∙◌, sym}
use andaime.Azure.{got, AzureClient, Deploy, call, ◌>>=◌}
use andaime.Azure.Address.{ip_retries, from_vm, address_attempts, get_vm_ip_addresses}

-- The VM has an interface with an id.
abbrev pub HasInterface : {W : Type 0} → AzureClient W → Text → Text → W → W → Type 0
HasInterface client group name w w' =
    (id : Text) × (rest : List (Option Text)) × (client.get_virtual_machine group name w
      ≡ (got (some (some id ∷ rest)), w'))

module _ {W : Type 0} (client : AzureClient W) (group a b : Text)
    (found : (w : W)
      → (w' : W) × HasInterface client group a w w' × HasInterface client group b w w') where
  first_attempt :
      (name : Text) (left : ℕ) (s : Deploy W) (w : W)
      → HasInterface client group name s.world w
      → address_attempts client group (suc left) name s
        ≡ from_vm client group left
            (address_attempts client group left name)
            (got (some (some [] ∷ [])))
            (record s { world = w })
  unfolding address_attempts ◌>>=◌ call
  first_attempt name left s w (id, rest, e) = rw e refl

  attempts_same :
      (n : ℕ) (s : Deploy W)
      → address_attempts client group n a s ≡ address_attempts client group n b s
  unfolding address_attempts
  attempts_same zero s = refl
  attempts_same (suc left) s =
      let (w, in_a, in_b) = found s.world in
      first_attempt a left s w in_a
      ∙ ap
          (λ more.
            from_vm client group left more (got (some (some [] ∷ []))) (record s { world = w }))
          (λ i t. attempts_same left t i)
      ∙ sym (first_attempt b left s w in_b)

  -- If asking for either of two VMs always finds an interface and leaves the same world, GetVMIPAddresses
  -- gives the two the same answer.
  pub get_vm_ip_addresses_same :
      (s : Deploy W) → get_vm_ip_addresses client group a s ≡ get_vm_ip_addresses client group b s
  unfolding get_vm_ip_addresses
  get_vm_ip_addresses_same s = attempts_same ip_retries s
