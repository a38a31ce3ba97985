-- ===== src/Store/Steps.antt =====
-- The operations on the store, in any order.
use sig0lease.Base.{ℕ, ◌≡◌, refl, subst, Option, none, some, List, Bytes, get, member, ok}
use sig0lease.Dns.{Key, Rr, DnsLibrary}
use sig0lease.NodeKey.{node_key}
use sig0lease.Store.{LeaseStore, new_in_memory_manager, register_with_parent, renew_lease}
use sig0lease.Store.NonKey.{
  upsert_non_key_records, remove_non_key_records, remove_single_non_key_record,
}
use sig0lease.Store.Subtree.{delete_subtree}
use sig0lease.Store.Invariant.{IsWellFormed}
use sig0lease.Store.Invariant.Keys.{register_with_parent-IsWellFormed}
use sig0lease.Store.Invariant.Records.{NoKeyAmong, upsert_non_key_records-IsWellFormed}
use sig0lease.Store.Invariant.Removal.{
  remove_non_key_records-IsWellFormed, remove_single-IsWellFormed,
}
use sig0lease.Store.Renewal.{renew_lease-IsWellFormed}
use sig0lease.Store.Subtree.Exact.{delete_subtree-IsWellFormed}

-- One call, at some reading of the clock, that returned no error. The identity of a KEY and that
-- of a non-KEY record are taken to differ.
pub data Step (lib : DnsLibrary) (st st' : LeaseStore) : Type 0 where
  registers :
      (now : ℕ) (parent : Bytes) (k : Key) (lease key_lease : ℕ) (zone : Bytes)
      → get (node_key lib k) st.non_key_records ≡ none
      → register_with_parent lib now parent (some k) lease key_lease zone st ≡ ok st'
      → Step lib st st'
  renews :
      (now : ℕ) (k : Key) (lease key_lease : ℕ)
      → renew_lease lib now (some k) lease key_lease st ≡ ok st'
      → Step lib st st'
  upserts :
      (now : ℕ) (owner : Bytes) (rrs : List (Option Rr)) (lease : ℕ) (zone : Bytes)
      → NoKeyAmong lib st rrs
      → upsert_non_key_records lib now owner rrs lease zone st ≡ (ok tt, st')
      → Step lib st st'
  removes_all : (owner : Bytes) → remove_non_key_records owner st ≡ st' → Step lib st st'
  removes_one :
      (owner id : Bytes) → remove_single_non_key_record owner id st ≡ ok st' → Step lib st st'
  deletes : (node : Bytes) → delete_subtree node st ≡ ok st' → Step lib st st'

pub data Reach (lib : DnsLibrary) : LeaseStore → Type 0 where
  at_start : Reach lib new_in_memory_manager
  after : {y z : LeaseStore} → Reach lib y → Step lib y z → Reach lib z

Step-IsWellFormed :
    (lib : DnsLibrary) (st st' : LeaseStore)
    → Step lib st st'
    → IsWellFormed lib st
    → IsWellFormed lib st'
Step-IsWellFormed lib st st' (registers now parent k lease key_lease zone apart h) w =
    register_with_parent-IsWellFormed lib now parent k lease key_lease zone st st' w apart h
Step-IsWellFormed lib st st' (renews now k lease key_lease h) w =
    renew_lease-IsWellFormed lib now k lease key_lease st st' w h
Step-IsWellFormed lib st st' (upserts now owner rrs lease zone apart h) w =
    subst (λ out. IsWellFormed lib out.1) h
      (upsert_non_key_records-IsWellFormed lib now owner rrs lease zone st w apart)
Step-IsWellFormed lib st st' (removes_all owner h) w =
    subst (IsWellFormed lib) h (remove_non_key_records-IsWellFormed lib owner st w)
Step-IsWellFormed lib st st' (removes_one owner id h) w =
    remove_single-IsWellFormed lib owner id st st' w h
Step-IsWellFormed lib st st' (deletes node h) w = delete_subtree-IsWellFormed lib node st st' w h

pub new-IsWellFormed : (lib : DnsLibrary) → IsWellFormed lib new_in_memory_manager
unfolding get member
new-IsWellFormed lib = record {
  keyed = λ n r h. cc;
  edges = λ p c. refl;
  names = λ name n. refl;
  disjoint = λ n. refl;
}

-- From a new store on, whatever calls succeed in whatever order: each KEY record is stored under
-- its KEY's node key, the sets of children hold each node under exactly the parent that its record
-- names, the name index lists exactly the KEY nodes of each name, and no node is in both maps.
pub reachable-IsWellFormed :
    (lib : DnsLibrary) (st : LeaseStore) → Reach lib st → IsWellFormed lib st
reachable-IsWellFormed lib st at_start = new-IsWellFormed lib
reachable-IsWellFormed lib st (after {y} r s) =
    Step-IsWellFormed lib y st s (reachable-IsWellFormed lib y r)
