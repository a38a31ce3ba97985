-- ===== src/UpdateHandler/Changes.antt =====
-- handlers/opcode5_handle.go: the changes of the lease store, made once the upstream server has
-- confirmed. A change that fails leaves what was done before it.
use sig0lease.Base.{
  ℕ, Bool, false, not, ◌||◌, some, List, [], ◌∷◌, map, if◌then◌else◌, Bytes, same, Result, ok, err,
}
use sig0lease.Dns.{Key, Rr, DnsLibrary}
use sig0lease.NodeKey.{node_key}
use sig0lease.Store.{LeaseStore, StoreError, register_with_parent, renew_lease}
use sig0lease.Store.NonKey.{upsert_non_key_records}
use sig0lease.Expiry.{ExpiryTimers, schedule}
use sig0lease.UpdateHandler.{
  Sig, UpdateHandler, Mutation, registers, refreshes, adds, restores, key_only,
}
use sig0lease.UpdateHandler.Cases.{is_nil, sig_node}
use sig0lease.UpdateHandler.Deletion.{remove_records}

-- The store and the timers after a change.
pub data Applied : Type 0 where
  panics : Applied
  fails : LeaseStore → ExpiryTimers → Applied
  applies : LeaseStore → ExpiryTimers → Applied

unfoldable pub then_apply : Applied → (LeaseStore → ExpiryTimers → Applied) → Applied
then_apply panics next = panics
then_apply (fails st t) next = fails st t
then_apply (applies st t) next = next st t

-- A call on the store, whose error is returned.
unfoldable pub store_result : LeaseStore → ExpiryTimers → Result StoreError LeaseStore → Applied
store_result old t (err e) = fails old t
store_result old t (ok st) = applies st t

-- A call that leaves a store also with an error.
unfoldable pub written : ExpiryTimers → Result StoreError (Unit {0}) × LeaseStore → Applied
written t (err e, st) = fails st t
written t (ok u, st) = applies st t

-- A call whose error is a panic.
unfoldable pub must : ExpiryTimers → Result StoreError LeaseStore → Applied
must t (err e) = panics
must t (ok st) = applies st t

module _ (lib : DnsLibrary) (h : UpdateHandler) (now : ℕ) (sig : Sig) (lease : ℕ) where
  -- `registerKeyLease`: the signer is the parent, unless the KEY is its own.
  unfoldable pub register_key_lease : Key → ℕ → ℕ → LeaseStore → Result StoreError LeaseStore
  register_key_lease k lease_duration key_lease_duration st =
      register_with_parent lib now
        (if same (sig_node sig) (node_key lib k) then [] else sig_node sig) (some k) lease_duration
        key_lease_duration h.upstream_zone st

  unfoldable pub renew_key : Key → ℕ → LeaseStore → ExpiryTimers → Applied
  renew_key k key_lease st t =
      store_result st t (renew_lease lib now (some k) key_lease key_lease st)

  unfoldable pub register_key : Key → ℕ → LeaseStore → ExpiryTimers → Applied
  register_key k key_lease st t = store_result st t (register_key_lease k key_lease key_lease st)

  unfoldable pub upsert : Bytes → List Rr → LeaseStore → ExpiryTimers → Applied
  upsert node rrs st t =
      written t
        (upsert_non_key_records lib now node (map (λ rr. some rr) rrs) lease h.upstream_zone st)

  -- Nothing is written where there is no record, unless the flag is set.
  unfoldable pub upsert_if : Bool → Bytes → List Rr → LeaseStore → ExpiryTimers → Applied
  upsert_if always node rrs st t =
      if always || not (is_nil rrs) then upsert node rrs st t else applies st t

  unfoldable pub schedule_node : Bytes → LeaseStore → ExpiryTimers → Applied
  schedule_node node st t = applies st (schedule now st node t)

  unfoldable pub apply : Mutation → LeaseStore → ExpiryTimers → Applied
  apply (registers k key_lease rrs) st t = then_apply (register_key k key_lease st t) λ st1 t1.
      then_apply (upsert_if false (node_key lib k) rrs st1 t1) (schedule_node (node_key lib k))
  apply (refreshes always k key_lease rrs) st t = then_apply (renew_key k key_lease st t) λ st1 t1.
      then_apply (upsert_if always (node_key lib k) rrs st1 t1) (schedule_node (node_key lib k))
  apply (adds node rrs) st t = then_apply (upsert node rrs st t) (schedule_node node)
  apply (restores k key_lease) st t = renew_key k key_lease st t
  apply (key_only is_refresh k key_lease rrs) st t =
      then_apply (if is_refresh then renew_key k key_lease st t else register_key k key_lease st t)
        λ st1 t1.
          then_apply (must t1 (remove_records lib (node_key lib k) rrs st1))
            (schedule_node (node_key lib k))

  unfoldable pub apply_each : List Mutation → LeaseStore → ExpiryTimers → Applied
  apply_each [] st t = applies st t
  apply_each (m ∷ ms) st t = then_apply (apply m st t) (λ st' t'. apply_each ms st' t')
