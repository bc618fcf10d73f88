-- ===== src/Gcp/Release.antt =====
-- The list of addresses always comes with an error, so no address is found and none is released.
use andaime.Base.{◌++◌, false, List, Option, none, some, Text, codes, is_empty, ◌≡◌, refl}
use andaime.Remote.{Error, wrap, Result, ok, err}
use andaime.Exec.{Run, M, fail, ◌>>=◌, on_err, wrapped, on_world}
use andaime.Gcp.{
  Address, GcpClient, iterator_done, list_result, list_addresses, find_available_ip,
  try_allocate_ip, first_unused, found_or_fail, release_ip, with_address,
}

module _ {V : Type 0} (client : GcpClient V) (project : Text) where
  -- The state behind a listing.
  abbrev pub listed_in : Text → Run V → Run V
  listed_in region s = record s { world = (client.addresses region s.world).1 }

  list_result_err : (r : List Address × Option Error) → (e : Error) × (list_result r ≡ err e)
  list_result_err (l, none) = (iterator_done, refl)
  list_result_err (l, some e) = (wrap (codes "failed to list IP addresses: ") e, refl)

  -- A listing comes with an error whatever the iterator gave, and what follows it is not run.
  list_first :
      {B : Type 0} (region : Text) (f : List Address → M V B) (s : Run V)
      → (e : Error) × ((wrapped
                (codes "failed to list IP addresses: ")
                (list_addresses client project region)
              >>= f)
            s
          ≡ (err e, listed_in region s))
  unfolding list_addresses on_world wrapped on_err fail ◌>>=◌
  list_first region f s =
      let (e, h) = list_result_err (client.addresses region s.world).0 in
      (wrap (codes "failed to list IP addresses: ") e, rw h refl)

  -- releaseIP always returns an error, and all that it does is to list the addresses: nothing is deleted.
  pub release_ip_fails :
      (ip region : Text) (s : Run V)
      → (e : Error) × (release_ip client project ip region s ≡ (err e, listed_in region s))
  unfolding release_ip
  release_ip_fails ip region s = list_first region _ s

  find_available_ip_fails :
      (region : Text) (s : Run V)
      → is_empty project ≡ false
      → (e : Error) × (find_available_ip client project region s ≡ (err e, listed_in region s))
  unfolding find_available_ip
  find_available_ip_fails region s h =
      let (e, q) = list_first region (λ l. found_or_fail client project (first_unused l)) s in
      (e, rw h q)

  -- The answer of tryAllocateIP to that of the request for an address.
  abbrev pub reserved : Result Address → Result Address
  reserved (ok a) = ok a
  reserved (err e) = err (wrap (codes "failed to reserve IP address: ") e)

  abbrev ip_name : Text → Text → Text
  ip_name name r = name ++ (codes "-ip-" ++ r)

  request_answer :
      (region name : Text) (s : Run V) (x : Result Address) (v : V)
      → client.create_ip region name s.world ≡ (x, v)
      → wrapped (codes "failed to reserve IP address: ") (on_world (client.create_ip region name)) s
        ≡ (reserved x, record s { world = v })
  unfolding wrapped on_err fail on_world
  request_answer region name s (ok a) v h = rw h refl
  request_answer region name s (err e) v h = rw h refl

  -- With a project, tryAllocateIP asks for a new address whatever addresses the region has: after
  -- the listing it draws a random name and, if it is given one, asks for an address under that name;
  -- its answer is that address, or the error of this call.
  pub try_allocate_ip_reserves :
      (name region r : Text) (s : Run V) (v : V)
      → is_empty project ≡ false
      → client.random_string (client.addresses region s.world).1 ≡ (ok r, v)
      → let x = client.create_ip region (name ++ (codes "-ip-" ++ r)) v in
        try_allocate_ip client project name region s ≡ (reserved x.0, record s { world = x.1 })
  unfolding try_allocate_ip ◌>>=◌ on_world
  try_allocate_ip_reserves name region r s v h d =
      let (e, q) = find_available_ip_fails region s h in
      rw h (rw q (rw d (request_answer region (ip_name name r) (record s { world = v }) _ _ refl)))

  -- If the VM cannot be created, its address is listed but not released, and the error is that of the VM.
  pub with_address_leaks :
      (name region : Text) (a : Address) (s : Run V) (e : Error) (v : V)
      → client.create_vm name a.address s.world ≡ (err e, v)
      → with_address client project name region a s ≡ (
        err (wrap (codes "failed to create VM instance: ") e),
        listed_in region (record s { world = v }),
      )
  unfolding on_world ◌>>=◌ fail
  with_address_leaks name region a s e v h =
      let (e', q) = release_ip_fails a.address region (record s { world = v }) in rw h (rw q refl)
