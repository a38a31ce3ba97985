-- ===== src/UpdateHandler/Deletion.antt =====
-- handlers/opcode5_handle.go: a request that deletes (Case C).
use sig0lease.Base.{
  ℕ, Bool, false, ◌&&◌, ◌||◌, Option, none, some, List, [], ◌∷◌, ◌++◌, map, if◌then◌else◌, Bytes,
  same, Result, ok, err, ◌>>=◌,
}
use sig0lease.Dns.{Key, Rr, DnsLibrary}
use sig0lease.NodeKey.{node_key, record_key}
use sig0lease.Store.{Record, LeaseStore, StoreError, lookup_by_key}
use sig0lease.Store.NonKey.{remove_single_non_key_record}
use sig0lease.Store.Subtree.{delete_subtree, list_subtree_keys}
use sig0lease.Expiry.{ExpiryTimers}
use sig0lease.Expiry.Events.{key_as_rr, as_deletes, record_deletes, subtree_leases, disarm_all}
use sig0lease.UpdateHandler.{
  KeyId, key_id_from_key, key_id_from_sig, same_id, format_error, server_failure, Note,
  key_not_found, Verified,
}
use sig0lease.UpdateHandler.Cases.{is_nil, to_delete}

-- What a request comes to: the store, the timers and the answer; a panic ends the process.
pub data Answer : Type 0 where
  not_relevant : Answer
  nil_message : Answer
  error : ℕ → Answer
  processed : ℕ → ℕ → List Note → Answer

pub data Handled : Type 0 where
  panics : Handled
  answers : Answer → LeaseStore → ExpiryTimers → Handled

module _ (lib : DnsLibrary) where
  -- A KEY may be deleted by itself and by its parent.
  unfoldable pub may_delete : KeyId → Bytes → Key → Option Record → Bool
  may_delete signer signer_node k none = false
  may_delete signer signer_node k (some r) =
      same_id (key_id_from_key lib k) signer || same r.parent_key_name signer_node

  unfoldable pub keys_to_delete : ℕ → KeyId → Bytes → List Key → LeaseStore → List Key × List Note
  keys_to_delete now signer signer_node [] st = ([], [])
  keys_to_delete now signer signer_node (k ∷ ks) st =
      let rest = keys_to_delete now signer signer_node ks st in
      if may_delete signer signer_node k (lookup_by_key lib now k st)
      then (k ∷ rest.0, rest.1)
      else (rest.0, key_not_found k ∷ rest.1)

  unfoldable pub subtree_deletes : List Key → LeaseStore → List Rr
  subtree_deletes [] st = []
  subtree_deletes (k ∷ ks) st =
      let both = subtree_leases st (node_key lib k) in
      (as_deletes (map key_as_rr (both.0)) ++ record_deletes (both.1)) ++ subtree_deletes ks st

  unfoldable pub remove_records : Bytes → List Rr → LeaseStore → Result StoreError LeaseStore
  remove_records owner [] st = ok st
  remove_records owner (rr ∷ rrs) st = do
    st' ← remove_single_non_key_record owner (record_key lib rr) st
    remove_records owner rrs st'

  unfoldable pub delete_keys :
      List Key → LeaseStore → ExpiryTimers → Result StoreError (LeaseStore × ExpiryTimers)
  delete_keys [] st t = ok (st, t)
  delete_keys (k ∷ ks) st t =
      let node = node_key lib k in
      do
        st' ← delete_subtree node st
        delete_keys ks st' (disarm_all (node ∷ list_subtree_keys node st) t)

  -- After the confirmation: the records, then the KEYs.
  unfoldable pub delete_all :
      Bytes
      → List Rr
      → List Key
      → LeaseStore
      → ExpiryTimers
      → Result StoreError (LeaseStore × ExpiryTimers)
  delete_all owner rrs ks st t = do st' ← remove_records owner rrs st; delete_keys ks st' t

  unfoldable pub deleted : Answer → Result StoreError (LeaseStore × ExpiryTimers) → Handled
  deleted answer (err e) = panics
  deleted answer (ok (st, t)) = answers answer st t

  module _ (send : List Rr → Bool) (now : ℕ) where
    unfoldable pub send_deletes :
        Bytes → List Rr → List Key → Answer → LeaseStore → ExpiryTimers → Handled
    send_deletes owner rrs ks answer st t =
        if is_nil ks && is_nil rrs
        then answers answer st t
        else if send (as_deletes rrs ++ subtree_deletes ks st)
        then deleted answer (delete_all owner rrs ks st t)
        else answers (error server_failure) st t

    unfoldable pub case_c : Verified → LeaseStore → ExpiryTimers → Handled
    case_c v st t =
        let owner = node_key lib v.signer_key in
        let ks = keys_to_delete now (key_id_from_sig v.sig) owner v.keys st in
        let rrs = to_delete lib st owner v.others in
        if is_nil v.keys && is_nil v.others
        then answers (error format_error) st t
        else send_deletes owner (rrs.0) (ks.0) (processed v.lease v.key_lease (ks.1 ++ rrs.1)) st t
