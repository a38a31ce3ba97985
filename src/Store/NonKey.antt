-- ===== src/Store/NonKey.antt =====
-- pkg/lease/state.go: the non-KEY records of the store.
use sig0lease.Base.{
  ℕ, Bool, false, not, Option, none, some, List, [], ◌∷◌, if◌then◌else◌, Bytes, same, empty, Assoc,
  get, put, del, Result, ok, err, ◌>>=◌,
}
use sig0lease.Name.{normalize}
use sig0lease.Dns.{Rr, DnsLibrary}
use sig0lease.NodeKey.{record_key}
use sig0lease.Store.{
  NonKeyRecord, LeaseStore, StoreError, owner_empty, different_owner, non_key, attach_node,
  detach_known, store_kids, after_seconds, values,
}

-- The record with the new lease; its identity and its owner stay.
unfoldable pub refreshed : DnsLibrary → ℕ → Rr → ℕ → Bytes → NonKeyRecord → NonKeyRecord
refreshed lib now rr lease_duration zone entry = record entry {
  base = record (entry.base) {
    rr_type = lib.rr_type rr.rdata;
    lease_duration = lease_duration;
    registered_at = now;
    expires_at = after_seconds now lease_duration;
  };
  rr = rr;
  upstream_zone = zone;
}

unfoldable pub new_entry : Bytes → Bytes → Rr → NonKeyRecord
new_entry id owner rr = record {
  base = record {
    node_kind = non_key;
    rr_type = 0;
    expires_at = 0;
    lease_duration = 0;
    registered_at = 0;
    parent_key_name = owner;
  };
  rr_key = id;
  rr = rr;
  upstream_zone = [];
}

-- A record that exists under another owner.
unfoldable pub owned_elsewhere : Bytes → Option NonKeyRecord → Bool
owned_elsewhere owner none = false
owned_elsewhere owner (some existing) = not (same existing.parent_key_name owner)

module _ (lib : DnsLibrary) where
  -- The first loop of `UpsertNonKEYRecords`: every record is checked before any is written. A nil
  -- record is skipped.
  unfoldable pub candidates :
      Bytes → List (Option Rr) → LeaseStore → Result StoreError (List (Bytes × Rr))
  candidates owner [] st = ok []
  candidates owner (none ∷ rrs) st = candidates owner rrs st
  candidates owner (some rr ∷ rrs) st =
      let id = record_key lib rr in
      let more = candidates owner rrs st in
      if empty id
      then more
      else if owned_elsewhere owner (get id st.non_key_records)
      then err different_owner
      else (do cs ← more; ok ((id, rr) ∷ cs))

  module _ (now : ℕ) where
    -- One turn of the second loop, at the entry that is there or a new one.
    unfoldable pub apply_found :
        Option NonKeyRecord → Bytes → Bytes → Rr → ℕ → Bytes → LeaseStore → LeaseStore
    apply_found (some entry) owner id rr lease_duration zone st = record st {
      non_key_records = put id (refreshed lib now rr lease_duration zone entry) st.non_key_records;
    }
    apply_found none owner id rr lease_duration zone st = record st {
      non_key_records =
          put id (refreshed lib now rr lease_duration zone (new_entry id owner rr))
            st.non_key_records;
      children = attach_node id owner st.children;
    }

    unfoldable pub apply_all : Bytes → ℕ → Bytes → List (Bytes × Rr) → LeaseStore → LeaseStore
    apply_all owner lease_duration zone [] st = st
    apply_all owner lease_duration zone ((id, rr) ∷ cs) st =
        apply_all owner lease_duration zone cs
          (apply_found (get id st.non_key_records) owner id rr lease_duration zone st)

    -- The second loop, where the first has found no fault.
    unfoldable pub write_candidates :
        Bytes
        → ℕ
        → Bytes
        → Result StoreError (List (Bytes × Rr))
        → LeaseStore
        → Result StoreError (Unit {0}) × LeaseStore
    write_candidates owner lease_duration zone (err e) st = (err e, st)
    write_candidates owner lease_duration zone (ok cs) st =
        (ok tt, apply_all owner lease_duration zone cs st)

    -- `UpsertNonKEYRecords`: what it returns, and the store as it leaves it in any case.
    unfoldable pub upsert_non_key_records :
        Bytes
        → List (Option Rr)
        → ℕ
        → Bytes
        → LeaseStore
        → Result StoreError (Unit {0}) × LeaseStore
    upsert_non_key_records owner rrs lease_duration zone st =
        let o = normalize owner in
        if empty o
        then (err owner_empty, st)
        else write_candidates o lease_duration (normalize zone) (candidates o rrs st) st

-- The loop of `RemoveNonKEYRecords` over the owner's children: the records that go, and the
-- children that stay.
unfoldable pub drop_records : List Bytes → Assoc NonKeyRecord → Assoc NonKeyRecord
drop_records [] records = records
drop_records (k ∷ kids) records = drop_records kids (del k records)

unfoldable pub key_kids : List Bytes → Assoc NonKeyRecord → List Bytes
key_kids [] records = []
key_kids (k ∷ kids) records = elim (get k records) [
  | none ↦ k ∷ key_kids kids records
  | some r ↦ key_kids kids records
]

unfoldable pub remove_non_key_records : Bytes → LeaseStore → LeaseStore
remove_non_key_records owner st =
    let o = normalize owner in
    let kids = values o st.children in
    record st {
      non_key_records = drop_records kids st.non_key_records;
      children = store_kids o (key_kids kids st.non_key_records) st.children;
    }

unfoldable pub remove_found :
    Option NonKeyRecord → Bytes → Bytes → LeaseStore → Result StoreError LeaseStore
remove_found none owner id st = ok st
remove_found (some entry) owner id st =
    if not (same entry.parent_key_name owner)
    then err different_owner
    else ok (record st {
      non_key_records = del id st.non_key_records;
      children = detach_known (get owner st.children) id owner st.children;
    })

-- `RemoveSingleNonKEYRecord`.
unfoldable pub remove_single_non_key_record :
    Bytes → Bytes → LeaseStore → Result StoreError LeaseStore
remove_single_non_key_record owner id st =
    remove_found (get id st.non_key_records) (normalize owner) id st

-- `LookupNonKEYRecord` of a record that is there.
unfoldable pub lookup_non_key_record : DnsLibrary → Rr → LeaseStore → Option NonKeyRecord
lookup_non_key_record lib rr st =
    if empty (record_key lib rr) then none else get (record_key lib rr) st.non_key_records
