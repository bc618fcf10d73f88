-- ===== src/Gcp.antt =====
-- CreateAndConfigureVM of pkg/providers/gcp/provider.go with the allocation and the release of its
-- address, over the client of GCP as an interface. Pauses between attempts are left out.
pub mod Release
pub mod Examples
use andaime.Base.{
  ℕ, zero, suc, ◌+◌, ltb, ◌==◌, Bool, true, false, ◌&&◌, not, List, [], ◌∷◌, ◌++◌, Option, none,
  some, Text, codes, same, is_empty, length, if◌then◌else◌,
}
use andaime.Location.{Tables, split, join, init_parts}
use andaime.Types.{MachineResourceState}
use andaime.Types.Resources.{gcp_instance}
use andaime.Machine.{Machine}
use andaime.Remote.{Error, errorf, wrap, Result, ok, err}
use andaime.Exec.{Run, M, pure, fail, ◌>>=◌, ◌>>◌, on_err, wrapped, on_world, gets, modify}
use andaime.Status.{new_display_status_with_text}
use andaime.Display.{update_machine_status}

-- `computepb.Address`: its status is RESERVED or not, and it has users or not.
pub record Address : Type 0 where
  pub name : Text
  pub address : Text
  pub is_reserved : Bool
  pub has_users : Bool

-- The first interface of an instance: its first access configuration and its private address.
pub record VmInstance : Type 0 where
  pub nat_ip : Option Text
  pub network_ip : Option Text

pub record GcpClient (V : Type 0) : Type 0 where
  -- What the iterator over the addresses of a region gives until its end, `none`, or an error.
  pub addresses : Text → V → (List Address × Option Error) × V
  pub create_ip : Text → Text → V → Result Address × V
  pub delete_ip : Text → Text → V → Result (Unit {0}) × V
  pub create_vm : Text → Text → V → Result (Option VmInstance) × V
  -- `randomString(6)`
  pub random_string : V → Result Text × V
  -- `ctx.Err()`
  pub context_error : V → Option Error

-- `extractRegionFromZone`
unfoldable pub extract_region_from_zone : Text → Text
unfolding split join init_parts
extract_region_from_zone zone =
    if ltb (length (split zone)) 3 then zone else join (init_parts (split zone))

-- The loop of `findAvailableIP`.
unfoldable pub first_unused : List Address → Option Address
first_unused [] = none
first_unused (a ∷ l) = if a.is_reserved && not a.has_users then some a else first_unused l

-- The loop of `releaseIP`: the name of the first address with these numbers.
unfoldable pub first_named : Text → List Address → Option Text
first_named ip [] = none
first_named ip (a ∷ l) = if same a.address ip then some a.name else first_named ip l

-- `iterator.Done`
abbrev pub iterator_done : Error
iterator_done = errorf (codes "no more items in iterator")

-- What `ListAddresses` returns at the end of the iterator: the error that ended it, which is
-- `iterator.Done` where all went well. An error that `%v` prints is wrapped like one of `%w`.
abbrev pub list_result : List Address × Option Error → Result (List Address)
list_result (l, none) = err iterator_done
list_result (l, some e) = err (wrap (codes "failed to list IP addresses: ") e)

abbrev pub max_allocations : ℕ
max_allocations = 3

abbrev pub with_failed : Machine → Machine
with_failed m = record m { failed = true }

abbrev pub with_vm_ips : Text → Text → Machine → Machine
with_vm_ips public_ip private_ip m = record m { public_ip = public_ip; private_ip = private_ip }

abbrev pub attempt : {V A : Type 0} → M V A → M V (Result A)
attempt m s = let (r, s') = m s in (ok r, s')

module _ {V : Type 0} (client : GcpClient V) (project : Text) where
  -- `ListAddresses`
  unfoldable pub list_addresses : Text → M V (List Address)
  list_addresses region =
      on_world (λ v. let (r, v') = client.addresses region v in (list_result r, v'))

  abbrev pub found_or_fail : Option Address → M V Address
  found_or_fail none = fail (errorf (codes "no available IP addresses found"))
  found_or_fail (some a) = pure a

  -- `findAvailableIP`
  unfoldable pub find_available_ip : Text → M V Address
  find_available_ip region =
      if is_empty project
      then fail (errorf (codes "projectID is not set in findAvailableIP"))
      else (wrapped (codes "failed to list IP addresses: ") (list_addresses region) >>= λ l.
          found_or_fail (first_unused l))

  abbrev pub or_reserve : Text → Text → Result Address → M V Address
  or_reserve name region (ok a) = pure a
  or_reserve name region (err e) = on_world client.random_string >>= λ r.
      wrapped (codes "failed to reserve IP address: ")
        (on_world (client.create_ip region (name ++ (codes "-ip-" ++ r))))

  -- `tryAllocateIP`
  unfoldable pub try_allocate_ip : Text → Text → M V Address
  try_allocate_ip name region =
      if is_empty project
      then fail (errorf (codes "projectID is not set in tryAllocateIP"))
      else (attempt (find_available_ip region) >>= or_reserve name region)

  abbrev pub unless_cancelled : M V Address → M V Address
  unless_cancelled more s = elim (client.context_error s.world) [
    | none ↦ more s
    | some e ↦ fail (wrap (codes "context canceled during IP allocation: ") e) s
  ]

  abbrev pub after_attempt : (Error → M V Address) → Result Address → M V Address
  after_attempt more (ok a) = pure a
  after_attempt more (err e) = unless_cancelled (more e)

  -- The loop of `allocateIPWithRetries`, with the attempts that are left and the last error.
  unfoldable pub allocations : ℕ → Error → Text → Text → M V Address
  allocations zero last name region =
      fail (wrap (codes "failed to allocate IP after 3 attempts: ") last)
  allocations (suc left) last name region =
      if is_empty project
      then fail (errorf (codes "projectID is not set in allocateIPWithRetries"))
      else (attempt (try_allocate_ip name region)
          >>= after_attempt (λ e. allocations left e name region))

  abbrev pub delete_named : Text → Text → Option Text → M V (Unit {0})
  delete_named ip region none = fail (errorf (codes "IP address " ++ (ip ++ codes " not found")))
  delete_named ip region (some name) =
      wrapped (codes "failed to delete IP address: ") (on_world (client.delete_ip region name))

  -- `releaseIP`
  unfoldable pub release_ip : Text → Text → M V (Unit {0})
  release_ip ip region =
      wrapped (codes "failed to list IP addresses: ") (list_addresses region) >>= λ l.
      delete_named ip region (first_named ip l)

  abbrev pub no_ip : Text → Text → Text → M V (Unit {0})
  no_ip name what which =
      modify with_failed
      >> fail (
          errorf (
            what
            ++ (codes " found for instance " ++ (name ++ (codes " - could not get " ++ which)))))

  abbrev pub configure : Text → Option Text → Option Text → M V (Unit {0})
  configure name none private_ip = no_ip name (codes "no access configs") (codes "public IP")
  configure name (some public_ip) none =
      no_ip name (codes "no network interface") (codes "private IP")
  configure name (some public_ip) (some private_ip) = modify (with_vm_ips public_ip private_ip)

  -- An instance without an interface has no access configuration.
  abbrev pub configure_vm : Text → Option VmInstance → M V (Unit {0})
  configure_vm name none = configure name none none
  configure_vm name (some i) = configure name i.nat_ip i.network_ip

  -- The VM, with the address that it was allocated.
  abbrev pub after_create : Text → Text → Text → Result (Option VmInstance) → M V (Unit {0})
  after_create name ip region (ok i) = configure_vm name i
  after_create name ip region (err e) =
      attempt (release_ip ip region) >>= λ _. fail (wrap (codes "failed to create VM instance: ") e)

  abbrev pub with_address : Text → Text → Address → M V (Unit {0})
  with_address name region a =
      attempt (on_world (client.create_vm name a.address)) >>= after_create name a.address region

  abbrev pub creating : Tables → Machine → Machine
  creating tables m =
      if is_empty m.name
      then m
      else (update_machine_status tables
          (new_display_status_with_text m.name gcp_instance MachineResourceState.pending
            (codes "Creating VM"))
          m).1

  -- `CreateAndConfigureVM`
  unfoldable pub create_and_configure_vm : Tables → M V (Unit {0})
  create_and_configure_vm tables = do
    modify (creating tables)
    gets (λ m. m) >>= λ m.
        let region = extract_region_from_zone m.zone in
        wrapped (codes "failed to allocate IP for VM " ++ (m.name ++ codes ": "))
          (allocations max_allocations iterator_done m.name region)
        >>= with_address m.name region
