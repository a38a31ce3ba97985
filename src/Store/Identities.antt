-- ===== src/Store/Identities.antt =====
-- The identities of the non-KEY records, and what each operation on the store leaves of them.
use sig0lease.Base.{
  ℕ, ◌≡◌, refl, sym, ap, ◌∙◌, subst, ◌≢◌, inl, inr, Bool, true, false, Option, none, some, List, [],
  ◌∷◌, if◌then◌else◌, Bool-cases, Bytes, same, same_iff, empty, get, member, Result, ok, err,
}
use sig0lease.Name.{normalize}
use sig0lease.Dns.{Key, Rr, DnsLibrary}
use sig0lease.NodeKey.{node_key, record_key}
use sig0lease.NodeKey.Parse.{node_key_from_sig-nonempty}
use sig0lease.Store.{
  Record, NonKeyRecord, LeaseStore, StoreError, register_with_parent, renew_lease,
}
use sig0lease.Store.NonKey.{upsert_non_key_records}
use sig0lease.Store.Invariant.{IsWellFormed}
use sig0lease.Store.Invariant.Keys.{register_with_parent-IsWellFormed}
use sig0lease.Store.Invariant.Records.{NoKeyAmong, upsert_non_key_records-IsWellFormed}
use sig0lease.Store.Ownership.{ids_of}
use sig0lease.Store.Ownership.Batches.{UpsertOutcome, upsert_non_key_records-Outcome}
use sig0lease.Store.Registration.{RegisterOutcome, register_with_parent-Outcome, normalize-node_key}
use sig0lease.Store.Renewal.{RenewOutcome, renew_lease-Outcome, renew_lease-IsWellFormed}
use sig0lease.Store.Subtree.{subtree_keys, delete_subtree}
use sig0lease.Store.Subtree.Exact.{
  DeleteOutcome, DeletedExactly, subtree_keys_iff, delete_subtree-Outcome,
  delete_subtree-IsWellFormed,
}

-- No KEY and no non-KEY record have one identity.
abbrev pub IsApart : DnsLibrary → Type 0
IsApart lib = (k : Key) (rr : Rr) → node_key lib k ≢ record_key lib rr

-- A well-formed store, each of whose non-KEY records stands under the identity of a record.
pub record IsIdentified (lib : DnsLibrary) (st : LeaseStore) : Type 0 where
  pub well_formed : IsWellFormed lib st
  pub of_record :
      (id : Bytes) (e : NonKeyRecord)
      → get id st.non_key_records ≡ some e
      → (rr : Rr) × (record_key lib rr ≡ id)

-- Every non-KEY record that is there was there.
abbrev pub Shrunk : LeaseStore → LeaseStore → Type 0
Shrunk st st' =
    (id : Bytes) (e : NonKeyRecord)
    → get id st'.non_key_records ≡ some e
    → get id st.non_key_records ≡ some e

-- A record is among those that a test lets through.
pub kept_if :
    {V : Type 0} (b : Bool) (o : Option V) (e : V) → (if b then none else o) ≡ some e → o ≡ some e
kept_if true o e h = cc
kept_if false o e h = h

module _ (lib : DnsLibrary) where
  pub Shrunk-IsIdentified :
      (st st' : LeaseStore)
      → IsIdentified lib st
      → IsWellFormed lib st'
      → Shrunk st st'
      → IsIdentified lib st'
  Shrunk-IsIdentified st st' i w s = record {
    well_formed = w;
    of_record = λ id e h. i.of_record id e (s id e h);
  }

  among :
      (rrs : List (Option Rr)) (id : Bytes)
      → member id (ids_of lib rrs) ≡ true
      → (rr : Rr) × (record_key lib rr ≡ id)
  unfolding member
  among [] id m = cc
  among (none ∷ rrs) id m = among rrs id m
  among (some rr ∷ rrs) id m = elim (Bool-cases (empty (record_key lib rr))) [
    | inl e ↦ among rrs id (rw e at m)
    | inr e ↦ elim (Bool-cases (same (record_key lib rr) id)) [
      | inl q ↦ (rr, (same_iff (record_key lib rr) id).0 q)
      | inr q ↦ among rrs id (rw (e, q) at m)
    ]
  ]

  node_key-nonempty : (k : Key) → node_key lib k ≢ []
  unfolding node_key
  node_key-nonempty k = node_key_from_sig-nonempty k.hdr.name k.algorithm (lib.key_tag k)

  -- The same non-KEY records.
  same_records : (st st' : LeaseStore) → st'.non_key_records ≡ st.non_key_records → Shrunk st st'
  same_records st st' q id e h = ap (get id) (sym q) ∙ h

  module _ (apart : IsApart lib) (st : LeaseStore) (i : IsIdentified lib st) where
    no_record_at : (k : Key) → get (node_key lib k) st.non_key_records ≡ none
    no_record_at k = go (get (node_key lib k) st.non_key_records) refl
      where
        go :
            (o : Option NonKeyRecord)
            → get (node_key lib k) st.non_key_records ≡ o
            → get (node_key lib k) st.non_key_records ≡ none
        go none h = h
        go (some e) h =
            let (rr, q) = i.of_record (node_key lib k) e h in absurd (apart k rr (sym q))

    no_key_at : (rr : Rr) → get (record_key lib rr) st.leases ≡ none
    no_key_at rr = go (get (record_key lib rr) st.leases) refl
      where
        go :
            (o : Option Record)
            → get (record_key lib rr) st.leases ≡ o
            → get (record_key lib rr) st.leases ≡ none
        go none h = h
        go (some r) h = let w = i.well_formed in absurd (apart r.key_rr rr ((w.keyed _ r h).node))

    no_key_among : (rrs : List (Option Rr)) → NoKeyAmong lib st rrs
    no_key_among [] = tt
    no_key_among (none ∷ rrs) = no_key_among rrs
    no_key_among (some rr ∷ rrs) = (no_key_at rr, no_key_among rrs)

    pub upsert_non_key_records-IsIdentified :
        (now : ℕ) (owner : Bytes) (rrs : List (Option Rr)) (lease : ℕ) (zone : Bytes)
        → IsIdentified lib (upsert_non_key_records lib now owner rrs lease zone st).1
    upsert_non_key_records-IsIdentified now owner rrs lease zone =
        go (upsert_non_key_records lib now owner rrs lease zone st)
          (upsert_non_key_records-Outcome lib now owner rrs lease zone st)
          (upsert_non_key_records-IsWellFormed lib now owner rrs lease zone st i.well_formed
            (no_key_among rrs))
      where
        go :
            (r : Result StoreError (Unit {0}) × LeaseStore)
            → UpsertOutcome lib now (normalize owner) rrs lease (normalize zone) st r
            → IsWellFormed lib r.1
            → IsIdentified lib r.1
        go (err e, st') out w = subst (IsIdentified lib) (sym (out.0)) i
        go (ok u, st') out w = record {
          well_formed = w;
          of_record = λ id e q. elim (Bool-cases (member id (ids_of lib rrs))) [
            | inl m ↦ among rrs id m
            | inr m ↦ i.of_record id e (sym ((out.1).others id m) ∙ q)
          ];
        }

    module _ (now : ℕ) (st' : LeaseStore) where
      pub register_with_parent-IsIdentified :
          (parent : Bytes) (k : Key) (lease key_lease : ℕ) (zone : Bytes)
          → register_with_parent lib now parent (some k) lease key_lease zone st ≡ ok st'
          → IsIdentified lib st' × Shrunk st st'
      register_with_parent-IsIdentified parent k lease key_lease zone h =
          let out =
            subst (RegisterOutcome lib now parent k lease key_lease zone st) h
              (register_with_parent-Outcome lib now parent k lease key_lease zone st) in
          let s = same_records st st' out.records in
          (
            Shrunk-IsIdentified st st' i
                (register_with_parent-IsWellFormed lib now parent k lease key_lease zone st st'
                  i.well_formed (no_record_at k) h)
                s,
            s,
          )

      pub renew_lease-IsIdentified :
          (k : Key) (lease key_lease : ℕ)
          → renew_lease lib now (some k) lease key_lease st ≡ ok st'
          → IsIdentified lib st' × Shrunk st st'
      renew_lease-IsIdentified k lease key_lease h =
          let out =
            subst (RenewOutcome lib now k lease key_lease st) h
              (renew_lease-Outcome lib now k lease key_lease st) in
          let s = same_records st st' out.records in
          (
            Shrunk-IsIdentified st st' i
                (renew_lease-IsWellFormed lib now k lease key_lease st st' i.well_formed h) s,
            s,
          )

  -- `DeleteSubtree` of a KEY.
  pub delete_subtree-shrinks :
      (k : Key) (st : LeaseStore)
      → IsIdentified lib st
      → (st' : LeaseStore) × (delete_subtree (node_key lib k) st ≡ ok st') × IsIdentified lib st'
  delete_subtree-shrinks k st i =
      go (delete_subtree (node_key lib k) st) refl
        (delete_subtree-Outcome lib (node_key lib k) st i.well_formed)
    where
      never_empty : normalize (node_key lib k) ≢ []
      never_empty h = node_key-nonempty k (sym (normalize-node_key lib k) ∙ h)

      none_some : {V : Type 0} {o : Option V} {e : V} → o ≡ none → o ≡ some e → ⊥
      none_some h q = cc

      shrunk :
          (st' : LeaseStore) → DeletedExactly (normalize (node_key lib k)) st st' → Shrunk st st'
      shrunk st' d id e h =
          elim (Bool-cases (member id (subtree_keys (normalize (node_key lib k)) st))) [
            | inl m ↦ absurd (none_some (d.gone id ((subtree_keys_iff _ st id).0 m)).1 h)
            | inr m ↦ sym ((d.kept id (λ b. cc (m, (subtree_keys_iff _ st id).1 b))).1) ∙ h
          ]

      go :
          (r : Result StoreError LeaseStore)
          → delete_subtree (node_key lib k) st ≡ r
          → DeleteOutcome (normalize (node_key lib k)) st r
          → (st' : LeaseStore) × (r ≡ ok st') × IsIdentified lib st'
      go (err e) q (_, bad) = absurd (never_empty bad)
      go (ok st') q d = (
        st',
        refl,
        Shrunk-IsIdentified st st' i
            (delete_subtree-IsWellFormed lib (node_key lib k) st st' i.well_formed q)
            (shrunk st' d),
      )
