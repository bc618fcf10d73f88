-- ===== src/Azure/Asking.antt =====
-- Asking for the addresses of a VM writes no machine.
use andaime.Base.{ℕ, zero, suc, Bool, true, false, List, [], ◌∷◌, Option, none, some, Text, Dict}
use andaime.Machine.{Machine}
use andaime.Azure.{
  ClientError, Reply, got, failed, IpConfiguration, AzureClient, D, is_retriable_error,
}
use andaime.Azure.Address.{
  nic_name, nic_text, vm_text, public_ip_name, again, with_public, from_private,
  from_configurations, from_nic, from_vm, address_attempts,
}
use andaime.Azure.Rules.{
  Keeps, bind-Keeps, pure-Keeps, fail-Keeps, halt-Keeps, call-Keeps, if-Keeps,
}

module _ {W : Type 0} (client : AzureClient W) (group : Text) (P : Dict Machine → Type 0) where
  again-Keeps :
      {A : Type 0} (doing : Text) (e : ClientError) (left : ℕ) (more : D W A)
      → Keeps P more
      → Keeps P (again client group doing e left more)
  again-Keeps doing e left more h =
      if-Keeps P (is_retriable_error e) _ _ (if-Keeps P _ _ _ (fail-Keeps P _ _) h)
        (fail-Keeps P _ _)

  with_public-Keeps :
      (ip : Text) (a : Reply (Option Text)) → Keeps P (with_public client group ip a)
  with_public-Keeps ip (failed e) = pure-Keeps P _
  with_public-Keeps ip (got none) = pure-Keeps P _
  with_public-Keeps ip (got (some p)) = pure-Keeps P _

  from_private-Keeps : (b : Bool) (o : Option Text) → Keeps P (from_private client group b o)
  from_private-Keeps b none = halt-Keeps P _
  from_private-Keeps false (some ip) = pure-Keeps P _
  from_private-Keeps true (some ip) =
      bind-Keeps P _ _ (call-Keeps P (client.get_public_ip_address group public_ip_name))
        (with_public-Keeps ip)

  from_configurations-Keeps :
      (cs : List (Option IpConfiguration)) → Keeps P (from_configurations client group cs)
  from_configurations-Keeps [] = pure-Keeps P _
  from_configurations-Keeps (none ∷ cs) = pure-Keeps P _
  from_configurations-Keeps (some c ∷ cs) = from_private-Keeps c.has_public_ip c.private_ip

  from_nic-Keeps :
      (left : ℕ) (more : D W (Text × Text)) (a : Reply (List (Option IpConfiguration)))
      → Keeps P more
      → Keeps P (from_nic client group left more a)
  from_nic-Keeps left more (failed e) h =
      if-Keeps P e.canceled _ _ (fail-Keeps P _ _) (again-Keeps nic_text e left more h)
  from_nic-Keeps left more (got cs) h = from_configurations-Keeps cs

  from_vm-Keeps :
      (left : ℕ) (more : D W (Text × Text)) (a : Reply (Option (List (Option Text))))
      → Keeps P more
      → Keeps P (from_vm client group left more a)
  from_vm-Keeps left more (failed e) h = again-Keeps vm_text e left more h
  from_vm-Keeps left more (got none) h = fail-Keeps P _ _
  from_vm-Keeps left more (got (some [])) h = fail-Keeps P _ _
  from_vm-Keeps left more (got (some (none ∷ nics))) h = fail-Keeps P _ _
  from_vm-Keeps left more (got (some (some nic ∷ nics))) h =
      bind-Keeps P _ _ (call-Keeps P (client.get_network_interface group nic_name))
        (λ a. from_nic-Keeps left more a h)

  pub address_attempts-Keeps :
      (n : ℕ) (name : Text) → Keeps P (address_attempts client group n name)
  unfolding address_attempts
  address_attempts-Keeps zero name = fail-Keeps P _ _
  address_attempts-Keeps (suc left) name =
      bind-Keeps P _ _ (call-Keeps P (client.get_virtual_machine group name))
        (λ a. from_vm-Keeps left _ a (address_attempts-Keeps left name))
