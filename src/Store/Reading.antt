-- ===== src/Store/Reading.antt =====
-- pkg/lease/state.go: the methods that read the tree, and the hook.
pub mod Owners
pub mod Sets
use sig0lease.Base.{
  ℕ, ◌-◌, ◌≡◌, ◌∙◌, Bool, Option, none, some, List, [], ◌∷◌, map, Bytes, Assoc, get, put, member,
  add,
}
use sig0lease.Name.{normalize}
use sig0lease.Dns.{DnsLibrary}
use sig0lease.NodeLocks.{sorted}
use sig0lease.NodeLocks.Table.{member-sorted}
use sig0lease.Store.{Record, NonKeyRecord, LeaseStore, values}
use sig0lease.Store.Invariant.{IsWellFormed, is_child_of}

-- `TimeRemaining`, in nanoseconds: subtraction stops at 0, as the code does.
unfoldable pub time_remaining : ℕ → Record → ℕ
time_remaining now r = r.expires_at - now

unfoldable pub children_of : Bytes → LeaseStore → List Bytes
children_of node st = sorted (values (normalize node) st.children)

unfoldable pub list_all : LeaseStore → List Record
list_all st = map (λ e. e.1) st.leases

lease_keys : Assoc Record → List Bytes → List Bytes
lease_keys [] seen = seen
lease_keys ((n, r) ∷ m) seen = lease_keys m (add n seen)

owner_keys : Assoc NonKeyRecord → List Bytes → List Bytes
owner_keys [] seen = seen
owner_keys ((id, e) ∷ m) seen = owner_keys m (add e.parent_key_name seen)

unfoldable pub list_owners : LeaseStore → List Bytes
unfolding lease_keys owner_keys
list_owners st = sorted (owner_keys st.non_key_records (lease_keys st.leases []))

unfoldable pub set_persistence_hook : Bool → LeaseStore → LeaseStore
set_persistence_hook installed st = record st { has_hook = installed }

-- The loop of `GetNonKEYRecordSet`: the records, and the zone of the last one.
record_or_key :
    Option NonKeyRecord → Bytes → Assoc NonKeyRecord × Bytes → Assoc NonKeyRecord × Bytes
record_or_key none id acc = acc
record_or_key (some e) id (records, zone) = (put id e records, e.upstream_zone)

record_set_loop :
    List Bytes → Assoc NonKeyRecord → Assoc NonKeyRecord × Bytes → Assoc NonKeyRecord × Bytes
unfolding record_or_key
record_set_loop [] all acc = acc
record_set_loop (k ∷ kids) all acc = record_set_loop kids all (record_or_key (get k all) k acc)

non_empty_set : Assoc NonKeyRecord × Bytes → Option (Assoc NonKeyRecord × Bytes)
non_empty_set ([], zone) = none
non_empty_set ((e ∷ records), zone) = some (e ∷ records, zone)

unfoldable pub get_non_key_record_set : Bytes → LeaseStore → Option (Assoc NonKeyRecord × Bytes)
unfolding record_set_loop non_empty_set
get_non_key_record_set owner st =
    non_empty_set
      (record_set_loop (values (normalize owner) st.children) st.non_key_records ([], []))

-- The records of a set; a nil set has none.
unfoldable pub set_records : Option (Assoc NonKeyRecord × Bytes) → Assoc NonKeyRecord
set_records none = []
set_records (some (records, zone)) = records
