-- ===== src/Store/Registration.antt =====
-- What registering a KEY does.
use sig0lease.Base.{
  ℕ, ◌≡◌, refl, sym, ap, ◌∙◌, ◌≢◌, ◌⊎◌, inl, inr, true, false, not, ◌&&◌, Option, none, some, [],
  ◌∷◌, ltb, if◌then◌else◌, Bool-cases, and_right, Bytes, same_refl, same_ne, empty, get, put,
  get-put, Result, ok, err, is_some,
}
use sig0lease.Name.{normalize}
use sig0lease.Dns.{Key, DnsLibrary}
use sig0lease.NodeKey.{node_key}
use sig0lease.NodeKey.Parse.{normalize-node_key_from_sig}
use sig0lease.Store.{
  Record, LeaseStore, StoreError, key_name_empty, non_key_parent, after_seconds, is_expired,
  unexpired, index_node, put_record, call_hook, stored_parent, new_record, register_with_parent,
  lookup_by_key, get_record,
}

-- The store after a KEY was registered.
pub record Registered (lib : DnsLibrary) (now : ℕ) (parent : Bytes) (k : Key) (lease key_lease : ℕ)
    (zone : Bytes) (st st' : LeaseStore) : Type 0 where
  pub record_ : Record
  pub stored : get (node_key lib k) st'.leases ≡ some record_
  pub expires : record_.expires_at ≡ after_seconds now lease
  pub under : record_.parent_key_name ≡ stored_parent parent (node_key lib k)
  pub key : record_.key_rr ≡ k
  pub named : record_.key_name ≢ []
  pub parent_is_no_record :
      record_.parent_key_name ≢ [] → get record_.parent_key_name st.non_key_records ≡ none
  pub found_until :
      (t : ℕ)
      → lookup_by_key lib t k st' ≡ (if ltb (after_seconds now lease) t then none else some record_)
  pub found_by_node : get_record (node_key lib k) st' ≡ some record_
  pub others : (n : Bytes) → n ≢ node_key lib k → get n st'.leases ≡ get n st.leases
  pub records : st'.non_key_records ≡ st.non_key_records

-- The errors, each with what it means.
pub data Refused (lib : DnsLibrary) (parent : Bytes) (k : Key) (st : LeaseStore)
    : StoreError → Type 0 where
  unnamed : normalize k.hdr.name ≡ [] → Refused lib parent k st key_name_empty
  under_record :
      is_some (get (stored_parent parent (node_key lib k)) st.non_key_records) ≡ true
      → Refused lib parent k st non_key_parent

abbrev pub RegisterOutcome :
    DnsLibrary
    → ℕ
    → Bytes
    → Key
    → ℕ
    → ℕ
    → Bytes
    → LeaseStore
    → Result StoreError LeaseStore
    → Type 0
RegisterOutcome lib now parent k lease key_lease zone st (ok st') =
    Registered lib now parent k lease key_lease zone st st'
RegisterOutcome lib now parent k lease key_lease zone st (err e) = Refused lib parent k st e

pub normalize-node_key : (lib : DnsLibrary) (k : Key) → normalize (node_key lib k) ≡ node_key lib k
unfolding node_key
normalize-node_key lib k = normalize-node_key_from_sig k.hdr.name k.algorithm (lib.key_tag k)

index_node-leases :
    (o : Option Record) (node name : Bytes) (st : LeaseStore)
    → ((index_node o node name st).leases ≡ st.leases)
      × ((index_node o node name st).non_key_records ≡ st.non_key_records)
unfolding index_node
index_node-leases none node name st = (refl, refl)
index_node-leases (some r) node name st = (refl, refl)

put_record-leases :
    (node : Bytes) (r : Record) (st : LeaseStore)
    → ((put_record node r st).leases ≡ put node r st.leases)
      × ((put_record node r st).non_key_records ≡ st.non_key_records)
unfolding put_record call_hook
put_record-leases node r st =
    let (a, b) = index_node-leases (get node st.leases) node r.key_name st in (ap (put node r) a, b)

empty-cases : (s : Bytes) → ((empty s ≡ true) × (s ≡ [])) ⊎ ((empty s ≡ false) × (s ≢ []))
unfolding empty
empty-cases [] = inl (refl, refl)
empty-cases (c ∷ s) = inr (refl, λ h. cc)

no_record :
    {V : Type 0} (p : Bytes) (o : Option V)
    → (not (empty p) && is_some o) ≡ false
    → p ≢ []
    → o ≡ none
unfolding empty
no_record [] o h ne = absurd (ne refl)
no_record (c ∷ p) none h ne = refl
no_record (c ∷ p) (some v) h ne = cc

module _ (lib : DnsLibrary) (now : ℕ) (parent : Bytes) (k : Key) (lease key_lease : ℕ)
    (zone : Bytes) (st : LeaseStore) where
  abbrev p : Bytes
  p = stored_parent parent (node_key lib k)

  abbrev r : Record
  r = new_record now k p lease key_lease zone

  stored_node : get (node_key lib k) (put_record (node_key lib k) r st).leases ≡ some r
  stored_node =
      ap (get (node_key lib k)) (put_record-leases (node_key lib k) r st).0
      ∙ get-put (node_key lib k) r st.leases (node_key lib k)
      ∙ rw (same_refl (node_key lib k)) refl

  put_record-Registered :
      normalize k.hdr.name ≢ []
      → (not (empty p) && is_some (get p st.non_key_records)) ≡ false
      → Registered lib now parent k lease key_lease zone st (put_record (node_key lib k) r st)
  unfolding new_record lookup_by_key unexpired is_expired get_record
  put_record-Registered named free = record {
    record_ = r;
    stored = stored_node;
    expires = refl;
    under = refl;
    key = refl;
    named = named;
    parent_is_no_record = no_record p (get p st.non_key_records) free;
    found_until = λ t. ap (unexpired t) stored_node;
    found_by_node =
        ap (λ n. get n (put_record (node_key lib k) r st).leases) (normalize-node_key lib k)
        ∙ stored_node;
    others = λ n ne.
        ap (get n) (put_record-leases (node_key lib k) r st).0
        ∙ get-put (node_key lib k) r st.leases n
        ∙ rw (same_ne (node_key lib k) n (λ q. ne (sym q))) refl;
    records = (put_record-leases (node_key lib k) r st).1;
  }

  -- `RegisterWithParent` fails only for a KEY without a name or under a non-KEY record. Otherwise
  -- the KEY's record is found by its KEY until its lease ends and by its node key even after that,
  -- under its parent, and all other records are as they were.
  pub register_with_parent-Outcome :
      RegisterOutcome lib now parent k lease key_lease zone st
        (register_with_parent lib now parent (some k) lease key_lease zone st)
  unfolding register_with_parent
  register_with_parent-Outcome = elim (empty-cases (normalize k.hdr.name)) [
    | inl e ↦ rw e.0 (unnamed e.1)
    | inr e ↦ rw e.0 (elim (Bool-cases (not (empty p) && is_some (get p st.non_key_records))) [
      | inl q ↦ rw q (under_record (and_right (not (empty p)) _ q))
      | inr q ↦ rw q (put_record-Registered e.1 q)
    ])
  ]
