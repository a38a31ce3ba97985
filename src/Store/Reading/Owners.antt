-- ===== src/Store/Reading/Owners.antt =====
-- What `ListOwners` lists.
use sig0lease.Base.{
  ◌≡◌, refl, ◌∙◌, inl, inr, true, ◌||◌, Option, some, List, [], ◌∷◌, arith, Bool-cases, Bytes, same,
  same_refl, Assoc, get, member, add, member-add, is_some,
}
use sig0lease.NodeLocks.Table.{member-sorted}
use sig0lease.Store.{Record, NonKeyRecord, LeaseStore}
use sig0lease.Store.Reading.{lease_keys, owner_keys, list_owners}

member-lease_keys :
    (m : Assoc Record) (seen : List Bytes) (j : Bytes)
    → member j (lease_keys m seen) ≡ (is_some (get j m) || member j seen)
unfolding lease_keys get
member-lease_keys [] seen j = refl
member-lease_keys ((n, r) ∷ m) seen j =
    member-lease_keys m (add n seen) j ∙ ground (arith, member-add n seen j)

owner_keys-seen :
    (m : Assoc NonKeyRecord) (seen : List Bytes) (j : Bytes)
    → member j seen ≡ true
    → member j (owner_keys m seen) ≡ true
unfolding owner_keys
owner_keys-seen [] seen j h = h
owner_keys-seen ((id, e) ∷ m) seen j h =
    owner_keys-seen m (add e.parent_key_name seen) j
      (ground (arith, member-add e.parent_key_name seen j))

owner_keys-parent :
    (m : Assoc NonKeyRecord) (seen : List Bytes) (id : Bytes) (e : NonKeyRecord)
    → get id m ≡ some e
    → member e.parent_key_name (owner_keys m seen) ≡ true
unfolding owner_keys get
owner_keys-parent [] seen id e h = cc
owner_keys-parent ((j, x) ∷ m) seen id e h = elim (Bool-cases (same j id)) [
  | inl q ↦
      let it : Path (Option NonKeyRecord) (some x) (some e) = rw q at h in
      owner_keys-seen m (add x.parent_key_name seen) e.parent_key_name (
        ground
          (arith, member-add x.parent_key_name seen e.parent_key_name, same_refl e.parent_key_name))
  | inr q ↦ owner_keys-parent m (add x.parent_key_name seen) id e (rw q at h)
]

-- Every KEY node is listed, and the owner of every non-KEY record.
pub list_owners-key :
    (st : LeaseStore) (n : Bytes)
    → is_some (get n st.leases) ≡ true
    → member n (list_owners st) ≡ true
unfolding list_owners
list_owners-key st n h =
    member-sorted n _
    ∙ owner_keys-seen st.non_key_records (lease_keys st.leases []) n
        (member-lease_keys st.leases [] n ∙ rw h refl)

pub list_owners-owner :
    (st : LeaseStore) (id : Bytes) (e : NonKeyRecord)
    → get id st.non_key_records ≡ some e
    → member e.parent_key_name (list_owners st) ≡ true
unfolding list_owners
list_owners-owner st id e h =
    member-sorted e.parent_key_name _
    ∙ owner_keys-parent st.non_key_records (lease_keys st.leases []) id e h
