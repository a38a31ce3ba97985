-- ===== src/UpdateHandler/Removing.antt =====
-- Removing records and deleting KEYs for a request: neither fails, and the store stays in order.
use sig0lease.Base.{
  ◌≡◌, refl, sym, ◌∙◌, inl, inr, true, false, some, List, [], ◌∷◌, map, Bool-cases, All, Bytes,
  same_iff, empty, get, Result, ok, err, ◌>>=◌,
}
use sig0lease.Dns.{Key, Rr, DnsLibrary}
use sig0lease.NodeKey.{node_key, record_key}
use sig0lease.Store.{NonKeyRecord, LeaseStore, StoreError}
use sig0lease.Store.NonKey.{lookup_non_key_record, remove_single_non_key_record}
use sig0lease.Store.Subtree.{list_subtree_keys}
use sig0lease.Store.Registration.{normalize-node_key}
use sig0lease.Store.Identities.{
  IsIdentified, Shrunk, kept_if, Shrunk-IsIdentified, delete_subtree-shrinks,
}
use sig0lease.Expiry.{ExpiryTimers}
use sig0lease.Expiry.Events.{DueRecord, remove_due, disarm_all}
use sig0lease.Expiry.Forgetting.{IsOwnIfThere, remove_due-DueGone}
use sig0lease.UpdateHandler.Cases.{is_owned, to_delete}
use sig0lease.UpdateHandler.Deletion.{remove_records, delete_keys, delete_all}

module _ (lib : DnsLibrary) where
  -- The records of a request, as an event's.
  abbrev pub dues : Bytes → List Rr → List DueRecord
  dues owner = map λ rr. record { owner = owner; rr_key = record_key lib rr; rr = rr }

  -- No record of the list stands under another node.
  abbrev pub AllOwn : LeaseStore → Bytes → List Rr → Type 0
  AllOwn st owner rrs = All (IsOwnIfThere st) (dues owner rrs)

  remove_records-due :
      (owner : Bytes) (rrs : List Rr) (st : LeaseStore)
      → remove_records lib owner rrs st ≡ remove_due (dues owner rrs) st
  unfolding remove_records remove_due
  remove_records-due owner [] st = refl
  remove_records-due owner (rr ∷ rrs) st =
      go (λ st'. remove_records-due owner rrs st')
        (remove_single_non_key_record owner (record_key lib rr) st)
    where
      go :
          ((st' : LeaseStore) → remove_records lib owner rrs st' ≡ remove_due (dues owner rrs) st')
          → (r : Result StoreError LeaseStore)
          → (r >>= λ st'. remove_records lib owner rrs st')
            ≡ (r >>= λ st'. remove_due (dues owner rrs) st')
      go later (err e) = refl
      go later (ok st') = later st'

  pub remove_records-IsIdentified :
      (owner : Bytes) (rrs : List Rr) (st : LeaseStore)
      → IsIdentified lib st
      → AllOwn st owner rrs
      → (st' : LeaseStore) × (remove_records lib owner rrs st ≡ ok st')
        × IsIdentified lib st'
        × Shrunk st st'
  remove_records-IsIdentified owner rrs st i own =
      let (st', q, w, gone) = remove_due-DueGone lib (dues owner rrs) st i.well_formed own in
      let s : Shrunk st st' =
        λ id e h. kept_if _ (get id st.non_key_records) e (sym (gone.records id) ∙ h) in
      (st', remove_records-due owner rrs st ∙ q, Shrunk-IsIdentified lib st st' i w s, s)

  pub AllOwn-Shrunk :
      (owner : Bytes) (rrs : List Rr) (st st' : LeaseStore)
      → Shrunk st st'
      → AllOwn st owner rrs
      → AllOwn st' owner rrs
  AllOwn-Shrunk owner [] st st' s all = tt
  AllOwn-Shrunk owner (rr ∷ rrs) st st' s all =
      (λ e h. all.0 e (s (record_key lib rr) e h), AllOwn-Shrunk owner rrs st st' s all.1)

  owned_by :
      (st : LeaseStore) (rr : Rr) (node : Bytes) (e : NonKeyRecord)
      → is_owned lib node (lookup_non_key_record lib rr st) ≡ true
      → get (record_key lib rr) st.non_key_records ≡ some e
      → e.parent_key_name ≡ node
  unfolding is_owned lookup_non_key_record
  owned_by st rr node e o h = elim (Bool-cases (empty (record_key lib rr))) [
    | inl n ↦ let bad : false ≡ true = rw n at o in cc
    | inr n ↦ (same_iff e.parent_key_name node).0 (rw (n, h) at o)
  ]

  -- What is chosen for deletion stands under the KEY.
  pub to_delete-AllOwn :
      (st : LeaseStore) (k : Key) (rrs : List Rr)
      → AllOwn st (node_key lib k) (to_delete lib st (node_key lib k) rrs).0
  unfolding to_delete
  to_delete-AllOwn st k [] = tt
  to_delete-AllOwn st k (rr ∷ rrs) =
      elim (Bool-cases (is_owned lib (node_key lib k) (lookup_non_key_record lib rr st))) [
        | inl o ↦ rw o (
          λ e h. owned_by st rr (node_key lib k) e o h ∙ sym (normalize-node_key lib k),
          to_delete-AllOwn st k rrs,
        )
        | inr o ↦ rw o (to_delete-AllOwn st k rrs)
      ]

  delete_keys-IsIdentified :
      (ks : List Key) (st : LeaseStore) (t : ExpiryTimers)
      → IsIdentified lib st
      → (st' : LeaseStore) × (t' : ExpiryTimers) × (delete_keys lib ks st t ≡ ok (st', t'))
        × IsIdentified lib st'
  unfolding delete_keys
  delete_keys-IsIdentified [] st t i = (st, t, refl, i)
  delete_keys-IsIdentified (k ∷ ks) st t i =
      let (mid, q, i1) = delete_subtree-shrinks lib k st i in
      let (st', t', q', i2) =
        delete_keys-IsIdentified ks mid
          (disarm_all (node_key lib k ∷ list_subtree_keys (node_key lib k) st) t) i1 in
      (st', t', rw q q', i2)

  pub delete_all-IsIdentified :
      (owner : Bytes) (rrs : List Rr) (ks : List Key) (st : LeaseStore) (t : ExpiryTimers)
      → IsIdentified lib st
      → AllOwn st owner rrs
      → (st' : LeaseStore) × (t' : ExpiryTimers) × (delete_all lib owner rrs ks st t ≡ ok (st', t'))
        × IsIdentified lib st'
  unfolding delete_all
  delete_all-IsIdentified owner rrs ks st t i own =
      let (mid, q, i1, s) = remove_records-IsIdentified owner rrs st i own in
      let (st', t', q', i2) = delete_keys-IsIdentified ks mid t i1 in (st', t', rw q q', i2)
