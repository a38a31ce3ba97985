-- ===== src/Expiry/Events.antt =====
-- handlers/opcode5_lease.go: leaseExpirer, one lease event of one node, and handlers.go:
-- asDeletes. Sending the UPDATE upstream is the parameter `send`, which tells whether it was
-- confirmed; the clock is read when the event starts and when the send has returned.
use sig0lease.Base.{
  ℕ, Bool, true, false, not, ◌&&◌, Option, none, some, List, [], ◌∷◌, ◌++◌, map, ltb, leb,
  if◌then◌else◌, length, Bytes, Assoc, Result, ok, err, ◌>>=◌, is_some,
}
use sig0lease.Dns.{Key, Rr, key_data, class_none}
use sig0lease.NodeLocks.{NodeLocks, NodeLockSet, before, try_acquire, release}
use sig0lease.Store.{Record, NonKeyRecord, LeaseStore, StoreError, is_expired, get_record}
use sig0lease.Store.NonKey.{remove_single_non_key_record}
use sig0lease.Store.Subtree.{delete_subtree, list_subtree_keys}
use sig0lease.Store.Reading.{get_non_key_record_set, set_records}
use sig0lease.Expiry.{ExpiryTimers, disarm, finish}

pub record DueRecord : Type 0 where
  pub owner : Bytes
  pub rr_key : Bytes
  pub rr : Rr

-- A KEY as an RR.
unfoldable pub key_as_rr : Key → Rr
key_as_rr k = record { hdr = k.hdr; rdata = key_data k.flags k.protocol k.algorithm k.public_key }

unfoldable pub as_delete : Rr → Rr
as_delete rr = record rr { hdr = record (rr.hdr) { class = class_none; ttl = 0 } }

unfoldable pub as_deletes : List Rr → List Rr
as_deletes [] = []
as_deletes (rr ∷ rrs) = as_delete rr ∷ as_deletes rrs

unfoldable pub record_deletes : List DueRecord → List Rr
record_deletes [] = []
record_deletes (r ∷ rs) = as_delete r.rr ∷ record_deletes rs

-- The time of `due`; `none` is the zero time.
unfoldable pub is_due : Option ℕ → NonKeyRecord → Bool
is_due none e = true
is_due (some due) e = not (ltb due e.expires_at)

unfoldable pub due_records : Bytes → Option ℕ → Assoc NonKeyRecord → List DueRecord
due_records owner due [] = []
due_records owner due ((id, e) ∷ es) =
    let rest = due_records owner due es in
    if is_due due e then (record { owner = owner; rr_key = id; rr = e.rr }) ∷ rest else rest

unfoldable pub insert_due : DueRecord → List DueRecord → List DueRecord
insert_due r [] = r ∷ []
insert_due r (s ∷ rs) =
    let rest = insert_due r rs in if before r.rr_key s.rr_key then r ∷ s ∷ rs else s ∷ rest

-- `slices.SortFunc` by the records' keys.
unfoldable pub sort_due : List DueRecord → List DueRecord
sort_due [] = []
sort_due (r ∷ rs) = insert_due r (sort_due rs)

module _ (st : LeaseStore) where
  unfoldable pub own_records : Bytes → Option ℕ → List DueRecord
  own_records owner due =
      sort_due (due_records owner due (set_records (get_non_key_record_set owner st)))

  unfoldable pub key_of : Option Record → List Key
  key_of none = []
  key_of (some r) = r.key_rr ∷ []

  unfoldable pub leases_of : List Bytes → List Key × List DueRecord
  leases_of [] = ([], [])
  leases_of (owner ∷ owners) =
      let rest = leases_of owners in
      (key_of (get_record owner st) ++ rest.0, own_records owner none ++ rest.1)

  unfoldable pub subtree_leases : Bytes → List Key × List DueRecord
  subtree_leases node = leases_of (node ∷ list_subtree_keys node st)

  -- All data of those nodes that have a KEY.
  unfoldable pub key_nodes_records : List Bytes → List DueRecord
  key_nodes_records [] = []
  key_nodes_records (child ∷ children) =
      let rest = key_nodes_records children in
      if is_some (get_record child st) then own_records child none ++ rest else rest

  unfoldable pub cascaded : Bool → Bytes → List DueRecord → List DueRecord
  cascaded data_cascade node [] = []
  cascaded false node (r ∷ rs) = r ∷ rs
  cascaded true node (r ∷ rs) = (r ∷ rs) ++ key_nodes_records (list_subtree_keys node st)

-- What a lease event ends.
pub record Due : Type 0 where
  pub key_expired : Bool
  pub keys : List Key
  pub records : List DueRecord

-- The KEY's lease has ended by `now`.
unfoldable pub key_is_due : ℕ → Option Record → Bool
key_is_due now none = false
key_is_due now (some r) = not (ltb now r.expires_at)

unfoldable pub due_by : Bool → ℕ → LeaseStore → Bytes → Due
due_by data_cascade now st node =
    if key_is_due now (get_record node st)
    then (let both = subtree_leases st node in
        record { key_expired = true; keys = both.0; records = both.1 })
    else (record {
      key_expired = false;
      keys = [];
      records = cascaded st data_cascade node (own_records st node (some now));
    })

unfoldable pub is_nothing : Due → Bool
is_nothing d = leb (length d.keys) 0 && leb (length d.records) 0

-- The instructions that are sent.
unfoldable pub deletes_of : Due → List Rr
deletes_of d = as_deletes (map key_as_rr d.keys) ++ record_deletes d.records

unfoldable pub disarm_all : List Bytes → ExpiryTimers → ExpiryTimers
disarm_all [] t = t
disarm_all (node ∷ nodes) t = disarm_all nodes (disarm node t)

unfoldable pub remove_due : List DueRecord → LeaseStore → Result StoreError LeaseStore
remove_due [] st = ok st
remove_due (r ∷ rs) st = do
  st' ← remove_single_non_key_record r.owner r.rr_key st
  remove_due rs st'

-- How an event ends: by a panic, or with the store, the timers and whether anything was removed.
pub data Ended : Type 0 where
  panics : Ended
  ends : LeaseStore → ExpiryTimers → Bool → Ended

-- A record that is there and has not expired.
unfoldable pub is_live : ℕ → Option Record → Bool
is_live now none = false
is_live now (some r) = not (is_expired now r)

module _ (finished : ℕ) (node : Bytes) where
  -- The store is what is left of it, or a removal failed.
  unfoldable pub forgotten : ExpiryTimers → Result StoreError LeaseStore → Ended
  forgotten t (err e) = panics
  forgotten t (ok st) = ends st (finish finished st node true t).0 true

  unfoldable pub forget : Due → LeaseStore → ExpiryTimers → Ended
  forget d st t =
      if d.key_expired
      then (if is_live finished (get_record node st)
          then panics
          else forgotten (disarm_all (list_subtree_keys node st) t) (delete_subtree node st))
      else forgotten t (remove_due d.records st)

module _ (send : List Rr → Bool) (data_cascade : Bool) (started finished : ℕ) where
  unfoldable pub expire_due : Bytes → Due → LeaseStore → ExpiryTimers → Ended
  expire_due node d st t =
      if is_nothing d
      then ends st (finish finished st node true t).0 false
      else if send (deletes_of d)
      then forget finished node d st t
      else ends st (finish finished st node false t).0 false

  unfoldable pub expire : Bytes → LeaseStore → ExpiryTimers → Ended
  expire node st t = expire_due node (due_by data_cascade started st node) st t

  released : Option (NodeLocks × NodeLockSet) → Ended → NodeLocks → Ended × NodeLocks
  released none e n = (panics, n)
  released (some (n', s)) e n = (e, n')

  run_locked :
      Result (List Bytes) (NodeLocks × NodeLockSet)
      → Bytes
      → NodeLocks
      → LeaseStore
      → ExpiryTimers
      → Ended × NodeLocks
  unfolding released
  run_locked (err busy) node n st t = (ends st (finish finished st node false t).0 false, n)
  run_locked (ok (n', locks)) node n st t = released (release n' locks) (expire node st t) n'

  -- `run`, where `lock_ids` are the handler's ids for the node and its subtree.
  unfoldable pub run :
      (Bytes → LeaseStore → List Bytes)
      → Bytes
      → NodeLocks
      → LeaseStore
      → ExpiryTimers
      → Ended × NodeLocks
  unfolding run_locked
  run lock_ids node n st t = run_locked (try_acquire n (lock_ids node st)) node n st t

-- One firing of a node's timer: when the event starts, when the send has returned, and whether
-- the UPDATE was confirmed.
pub record Firing : Type 0 where
  pub started : ℕ
  pub finished : ℕ
  pub confirmed : Bool

unfoldable pub fire_next : Ended → (LeaseStore → ExpiryTimers → Ended) → Ended
fire_next panics next = panics
fire_next (ends st t true) next = ends st t true
fire_next (ends st t false) next = next st t

-- The firings one after the other, until one removes something.
unfoldable pub fire_all : Bool → Bytes → List Firing → LeaseStore → ExpiryTimers → Ended
fire_all data_cascade node [] st t = ends st t false
fire_all data_cascade node (f ∷ fs) st t =
    fire_next (expire (λ _. f.confirmed) data_cascade f.started f.finished node st t)
      (λ st' t'. fire_all data_cascade node fs st' t')
