-- ===== src/Azure/Address.antt =====
-- GetVMIPAddresses of pkg/providers/azure/deploy.go: the addresses of a virtual machine.
use andaime.Base.{
  ℕ, zero, suc, Bool, true, false, List, [], ◌∷◌, ◌++◌, Option, none, some, Text, codes,
  if◌then◌else◌,
}
use andaime.Azure.{
  ClientError, Reply, got, failed, IpConfiguration, AzureClient, D, pure, fail, halt, call, ◌>>=◌,
  is_retriable_error,
}

abbrev pub ip_retries : ℕ
ip_retries = 3

abbrev pub nic_name : Text
nic_name = codes "test-network-interface"

abbrev pub public_ip_name : Text
public_ip_name = codes "test-public-ip"

abbrev pub nic_text : Text
nic_text = codes "exceeded maximum retries while getting network interface: "

abbrev pub vm_text : Text
vm_text = codes "exceeded maximum retries while getting VM details: "

abbrev is_last : ℕ → Bool
is_last zero = true
is_last (suc n) = false

-- The error that is no reason for another attempt.
abbrev pub plain_text : ClientError → Text
plain_text e = elim e.azure_error [ none ↦ e.text | some (code, message) ↦ message ]

module _ {W : Type 0} (client : AzureClient W) (group : Text) where
  -- What follows an error: `left` attempts remain, which `more` makes.
  abbrev pub again : {A : Type 0} → Text → ClientError → ℕ → D W A → D W A
  again doing e left more =
      if is_retriable_error e
      then (if is_last left then fail (doing ++ e.text) else more)
      else fail (plain_text e)

  abbrev pub with_public : Text → Reply (Option Text) → D W (Text × Text)
  with_public private_ip (failed e) = pure ([], private_ip)
  with_public private_ip (got none) = pure ([], private_ip)
  with_public private_ip (got (some public_ip)) = pure (public_ip, private_ip)

  abbrev pub from_private : Bool → Option Text → D W (Text × Text)
  from_private has_public none = halt
  from_private false (some private_ip) = pure ([], private_ip)
  from_private true (some private_ip) =
      call (client.get_public_ip_address group public_ip_name) >>= with_public private_ip

  abbrev pub from_configurations : List (Option IpConfiguration) → D W (Text × Text)
  from_configurations [] = pure ([], [])
  from_configurations (none ∷ cs) = pure ([], [])
  from_configurations (some c ∷ cs) = from_private c.has_public_ip c.private_ip

  abbrev pub from_nic :
      ℕ → D W (Text × Text) → Reply (List (Option IpConfiguration)) → D W (Text × Text)
  from_nic left more (failed e) = if e.canceled then fail e.text else again nic_text e left more
  from_nic left more (got cs) = from_configurations cs

  abbrev pub from_vm :
      ℕ → D W (Text × Text) → Reply (Option (List (Option Text))) → D W (Text × Text)
  from_vm left more (failed e) = again vm_text e left more
  from_vm left more (got none) = fail (codes "VM network profile is nil")
  from_vm left more (got (some [])) = fail (codes "VM has no network interfaces")
  from_vm left more (got (some (none ∷ nics))) = fail (codes "network interface ID is nil")
  from_vm left more (got (some (some nic ∷ nics))) =
      call (client.get_network_interface group nic_name) >>= from_nic left more

  -- The loop, with the attempts that are left; the last one always returns.
  unfoldable pub address_attempts : ℕ → Text → D W (Text × Text)
  address_attempts zero name = fail (codes "failed to get IP addresses after 3 attempts")
  address_attempts (suc left) name =
      call (client.get_virtual_machine group name) >>= from_vm left (address_attempts left name)

  -- `GetVMIPAddresses`
  unfoldable pub get_vm_ip_addresses : Text → D W (Text × Text)
  get_vm_ip_addresses name = address_attempts ip_retries name
