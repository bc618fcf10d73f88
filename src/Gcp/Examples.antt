-- ===== src/Gcp/Examples.antt =====
-- A region with a free address, which is neither used nor released.
use andaime.Base.{ℕ, ◌+◌, true, false, [], ◌∷◌, none, some, Text, codes, ◌≡◌, refl}
use andaime.Location.{split, join, init_parts}
use andaime.Machine.Examples.{azure_machine, azure_tables}
use andaime.Remote.{errorf, wrap, ok, err}
use andaime.Exec.{Run, pure, fail, ◌>>=◌, ◌>>◌, on_err, wrapped, on_world, gets, modify}
use andaime.Gcp.{
  Address, GcpClient, extract_region_from_zone, list_addresses, find_available_ip, try_allocate_ip,
  allocations, with_address, create_and_configure_vm,
}
use andaime.Gcp.Release.{listed_in, reserved, try_allocate_ip_reserves, with_address_leaks}

abbrev address_of : Text → Address
address_of ip = record { name = codes "a"; address = ip; is_reserved = true; has_users = false }

abbrev client : GcpClient ℕ
client = record {
  addresses = λ region v. ((address_of (codes "5.5.5.5") ∷ [], none), v);
  create_ip = λ region name v. (ok (address_of (codes "6.6.6.6")), v + 1);
  delete_ip = λ region name v. (ok tt, v);
  create_vm = λ name ip v.
      (ok (some (record { nat_ip = some ip; network_ip = some (codes "10.0.0.2") })), v);
  random_string = λ v. (ok (codes "abcdef"), v);
  context_error = λ v. none;
}

abbrev no_vm : GcpClient ℕ
no_vm = record client { create_vm = λ name ip v. (err (errorf (codes "quota")), v) }

abbrev start : Run ℕ
start = record { machine = azure_machine; world = 0; updates = [] }

region_of : extract_region_from_zone (codes "us-central1-a") ≡ codes "us-central1"
unfolding extract_region_from_zone split join init_parts
region_of = refl

short_zone : extract_region_from_zone (codes "us-central1") ≡ codes "us-central1"
unfolding extract_region_from_zone split join init_parts
short_zone = refl

-- The free address is not taken: a new one is reserved.
vm_address :
    (create_and_configure_vm client (codes "p") azure_tables start).1.machine.public_ip
    ≡ codes "6.6.6.6"
unfolding create_and_configure_vm allocations try_allocate_ip find_available_ip list_addresses
    wrapped on_err on_world ◌>>=◌ ◌>>◌ pure fail gets modify
vm_address = refl

try_allocate_ip_reserves_example :
    try_allocate_ip client (codes "p") (codes "vm") (codes "r") start
    ≡ (reserved client (codes "p") (ok (address_of (codes "6.6.6.6"))), record start { world = 1 })
try_allocate_ip_reserves_example =
    try_allocate_ip_reserves client (codes "p") (codes "vm") (codes "r") (codes "abcdef") start 0
      refl refl

with_address_leaks_example :
    with_address no_vm (codes "p") (codes "vm") (codes "r") (address_of (codes "6.6.6.6")) start ≡ (
      err (wrap (codes "failed to create VM instance: ") (errorf (codes "quota"))),
      listed_in no_vm (codes "p") (codes "r") start,
    )
with_address_leaks_example =
    with_address_leaks no_vm (codes "p") (codes "vm") (codes "r") (address_of (codes "6.6.6.6"))
      start (errorf (codes "quota")) 0 refl
