-- ===== src/Store/Tests.antt =====
-- The lease store at work: tests, and the theorems at concrete inputs.
use sig0lease.Base.{◌≡◌, ◌↔◌, true, false, none, some, [], ◌∷◌, In, Bytes, bytes, same, get, member}
use sig0lease.Name.{normalize}
use sig0lease.Store.{NonKeyRecord, register_with_parent, renew_lease}
use sig0lease.Store.{find_by_name, is_expired}
use sig0lease.Store.Finding.{find_by_name_iff}
use sig0lease.Store.Subtree.{list_subtree_keys}
use sig0lease.Store.Subtree.Traversal.{Below}
use sig0lease.Store.Subtree.Listing.{list_subtree_keys_iff}
use sig0lease.Store.Edges.{is_link}
use sig0lease.Store.NonKey.{upsert_non_key_records, remove_non_key_records}
use sig0lease.Store.Subtree.{delete_subtree}
use sig0lease.Store.Invariant.{IsWellFormed}
use sig0lease.Store.Steps.{reachable-IsWellFormed}
use sig0lease.Store.Invariant.Removal.{remove_non_key_records-exactly}
use sig0lease.Store.Subtree.Exact.{DeleteOutcome, delete_subtree-Outcome}
use sig0lease.Store.Registration.{RegisterOutcome, register_with_parent-Outcome}
use sig0lease.Store.Renewal.{RenewOutcome, renew_lease-Outcome}
use sig0lease.Store.Samples.{
  fixed, host, note, host_node, with_host, Reach-host, well_formed, host_record,
}
use sig0lease.Store.Ownership.Batches.{UpsertOutcome, upsert_non_key_records-Outcome}

reachable-IsWellFormed_example : IsWellFormed fixed with_host
reachable-IsWellFormed_example = reachable-IsWellFormed fixed with_host Reach-host

delete_subtree-Outcome_example :
    DeleteOutcome (normalize host_node) with_host (delete_subtree host_node with_host)
delete_subtree-Outcome_example = delete_subtree-Outcome fixed host_node with_host well_formed

register_with_parent-Outcome_example :
    RegisterOutcome fixed 9000 host_node host 60 90 [] with_host
      (register_with_parent fixed 9000 host_node (some host) 60 90 [] with_host)
register_with_parent-Outcome_example =
    register_with_parent-Outcome fixed 9000 host_node host 60 90 [] with_host

renew_lease-Outcome_example :
    RenewOutcome fixed 9000 host 60 90 with_host
      (renew_lease fixed 9000 (some host) 60 90 with_host)
renew_lease-Outcome_example = renew_lease-Outcome fixed 9000 host 60 90 with_host

upsert_non_key_records-Outcome_example :
    UpsertOutcome fixed 9000
      (normalize host_node)
      (some note ∷ none ∷ [])
      60
      (normalize [])
      with_host
      (upsert_non_key_records fixed 9000 host_node (some note ∷ none ∷ []) 60 [] with_host)
upsert_non_key_records-Outcome_example =
    upsert_non_key_records-Outcome fixed 9000 host_node (some note ∷ none ∷ []) 60 [] with_host

remove_non_key_records-exactly_example :
    ((id : Bytes) (e : NonKeyRecord)
      → (get id (remove_non_key_records host_node with_host).non_key_records ≡ some e) ↔ (
          (get id with_host.non_key_records ≡ some e)
          × (is_link e.parent_key_name (normalize host_node) ≡ false)))
    × ((remove_non_key_records host_node with_host).leases ≡ with_host.leases)
remove_non_key_records-exactly_example =
    remove_non_key_records-exactly fixed host_node with_host well_formed

find_by_name_iff_example : In host_record (find_by_name 6000 (bytes "HOST") with_host) ↔ (
    (n : Bytes) × (get n with_host.leases ≡ some host_record)
    × (host_record.key_name ≡ normalize (bytes "HOST"))
    × (is_expired 6000 host_record ≡ false))
find_by_name_iff_example =
    find_by_name_iff fixed 6000 (bytes "HOST") with_host host_record well_formed

list_subtree_keys_iff_example :
    (member host_node (list_subtree_keys host_node with_host) ≡ true) ↔ (
      Below with_host.children (normalize host_node) host_node
      × (same (normalize host_node) host_node ≡ false))
list_subtree_keys_iff_example = list_subtree_keys_iff host_node with_host host_node
