-- ===== src/Store/Ownership/Batches.antt =====
-- A batch of non-KEY records as a whole.
use sig0lease.Base.{
  ℕ, ◌≡◌, refl, sym, ap, ◌∙◌, subst, ◌⊎◌, inl, inr, true, false, Option, none, some, List, [], ◌∷◌,
  arith, Bool-cases, Bytes, same, same_refl, same_iff, empty, get, member, Result, ok, err, ◌>>=◌,
}
use sig0lease.Name.{normalize}
use sig0lease.Dns.{Rr, DnsLibrary}
use sig0lease.NodeKey.{record_key}
use sig0lease.Store.{LeaseStore, StoreError, owner_empty, different_owner}
use sig0lease.Store.NonKey.{
  owned_elsewhere, candidates, apply_found, apply_all, write_candidates, upsert_non_key_records,
}
use sig0lease.Store.Ownership.{
  ids_of, first_ids, Freshly, not_elsewhere, apply_found-Applied, AllApplied, NotElsewhere,
  after_one,
}

module _ (lib : DnsLibrary) (now : ℕ) (owner : Bytes) (lease : ℕ) (zone : Bytes) where
  apply_all-AllApplied :
      (cs : List (Bytes × Rr)) (st : LeaseStore)
      → NotElsewhere lib now owner lease zone st (first_ids cs)
      → AllApplied lib now owner lease zone
          (first_ids cs)
          st
          (apply_all lib now owner lease zone cs st)
  unfolding apply_all member
  apply_all-AllApplied [] st h = record {
    fresh = λ j q. cc;
    stays = λ j f. f;
    others = λ j q. refl;
    leases = refl;
  }
  apply_all-AllApplied ((id, rr) ∷ cs) st h =
      let st' = apply_found lib now (get id st.non_key_records) owner id rr lease zone st in
      let one = apply_found-Applied lib now owner lease zone id rr st in
      let fresh_id : Freshly lib now owner lease zone (get id st'.non_key_records) =
        one.here (h id (ground (arith, same_refl id))) in
      let fresh_at : (j : Bytes)
          → same id j ≡ true
          → Freshly lib now owner lease zone (get j st'.non_key_records) =
        λ j e.
          subst (λ i. Freshly lib now owner lease zone (get i st'.non_key_records))
            ((same_iff id j).0 e) fresh_id in
      let later : NotElsewhere lib now owner lease zone st' (first_ids cs) = λ j q.
        after_one lib now owner lease zone id j (λ o. owned_elsewhere owner o ≡ false) st st' one
          (λ e. not_elsewhere lib now owner lease zone _ (fresh_at j e))
          (h j (ground (arith, q))) in
      let rest = apply_all-AllApplied cs st' later in
      record {
        fresh = λ j q. elim (Bool-cases (same id j)) [
          | inl e ↦ rest.stays j (fresh_at j e)
          | inr e ↦ rest.fresh j (rw e at q)
        ];
        stays = λ j f. rest.stays j (
            after_one lib now owner lease zone id j (Freshly lib now owner lease zone) st st' one
              (fresh_at j) f);
        others = λ j q. rest.others j (ground (arith, q)) ∙ one.others j (ground (arith, q));
        leases = rest.leases ∙ one.leases;
      }

  -- What the check of the whole batch returns.
  CandidatesOutcome : List Bytes → LeaseStore → Result StoreError (List (Bytes × Rr)) → Type 0
  CandidatesOutcome ids st (ok cs) =
      (first_ids cs ≡ ids) × NotElsewhere lib now owner lease zone st ids
  CandidatesOutcome ids st (err e) =
      (e ≡ different_owner)
      × ((j : Bytes) × (member j ids ≡ true)
          × (owned_elsewhere owner (get j st.non_key_records) ≡ true))

  candidates_more :
      (id : Bytes) (rr : Rr) (ids : List Bytes) (st : LeaseStore)
      (r : Result StoreError (List (Bytes × Rr)))
      → owned_elsewhere owner (get id st.non_key_records) ≡ false
      → CandidatesOutcome ids st r
      → CandidatesOutcome (id ∷ ids) st (r >>= λ cs. ok ((id, rr) ∷ cs))
  unfolding CandidatesOutcome member
  candidates_more id rr ids st (ok cs) h (e, f) = (
    ap (◌∷◌ id) e,
    λ j q. elim (Bool-cases (same id j)) [
      | inl s ↦
          subst (λ i. owned_elsewhere owner (get i st.non_key_records) ≡ false)
            ((same_iff id j).0 s) h
      | inr s ↦ f j (rw s at q)
    ],
  )
  candidates_more id rr ids st (err x) h (e, found) =
      (e, (found.0, ground (arith, found.1), found.2))

  candidates-Outcome :
      (rrs : List (Option Rr)) (st : LeaseStore)
      → CandidatesOutcome (ids_of lib rrs) st (candidates lib owner rrs st)
  unfolding CandidatesOutcome candidates member
  candidates-Outcome [] st = (refl, λ j q. cc)
  candidates-Outcome (none ∷ rrs) st = candidates-Outcome rrs st
  candidates-Outcome (some rr ∷ rrs) st = elim (Bool-cases (empty (record_key lib rr))) [
    | inl e ↦ rw e (candidates-Outcome rrs st)
    | inr e ↦
        elim (Bool-cases (owned_elsewhere owner (get (record_key lib rr) st.non_key_records))) [
          | inl q ↦
              rw (e, q)
                (refl, (record_key lib rr, ground (arith, same_refl (record_key lib rr)), q))
          | inr q ↦
              rw (e, q)
                (candidates_more (record_key lib rr) rr (ids_of lib rrs) st
                  (candidates lib owner rrs st) q (candidates-Outcome rrs st))
        ]
  ]

-- A batch that was refused, and one that was written.
abbrev pub UpsertOutcome :
    DnsLibrary
    → ℕ
    → Bytes
    → List (Option Rr)
    → ℕ
    → Bytes
    → LeaseStore
    → Result StoreError (Unit {0}) × LeaseStore
    → Type 0
UpsertOutcome lib now owner rrs lease zone st (ok u, st') =
    NotElsewhere lib now owner lease zone st (ids_of lib rrs)
    × AllApplied lib now owner lease zone (ids_of lib rrs) st st'
UpsertOutcome lib now owner rrs lease zone st (err e, st') =
    (st' ≡ st)
    × (((e ≡ owner_empty) × (owner ≡ []))
        ⊎ ((e ≡ different_owner)
            × ((id : Bytes) × (member id (ids_of lib rrs) ≡ true)
                × (owned_elsewhere owner (get id st.non_key_records) ≡ true))))

is_empty : (s : Bytes) → empty s ≡ true → s ≡ []
unfolding empty
is_empty [] h = refl
is_empty (c ∷ s) h = cc

-- `UpsertNonKEYRecords` writes all of a batch or nothing: it fails if some record of the batch
-- exists under another owner, and then changes nothing; otherwise each record of the batch has
-- this owner and the new lease afterwards, all other records are as they were, and so are all
-- KEY records.
pub upsert_non_key_records-Outcome :
    (lib : DnsLibrary) (now : ℕ) (owner : Bytes) (rrs : List (Option Rr)) (lease : ℕ) (zone : Bytes)
    (st : LeaseStore)
    → UpsertOutcome lib now
        (normalize owner)
        rrs
        lease
        (normalize zone)
        st
        (upsert_non_key_records lib now owner rrs lease zone st)
unfolding upsert_non_key_records write_candidates CandidatesOutcome
upsert_non_key_records-Outcome lib now owner rrs lease zone st =
    elim (Bool-cases (empty (normalize owner))) [
      | inl e ↦ rw e (refl, inl (refl, is_empty (normalize owner) e))
      | inr e ↦ rw e (
          go (candidates lib (normalize owner) rrs st)
            (candidates-Outcome lib now (normalize owner) lease (normalize zone) rrs st))
    ]
  where
    go :
        (r : Result StoreError (List (Bytes × Rr)))
        → CandidatesOutcome lib now (normalize owner) lease (normalize zone) (ids_of lib rrs) st r
        → UpsertOutcome lib now
            (normalize owner)
            rrs
            lease
            (normalize zone)
            st
            (write_candidates lib now (normalize owner) lease (normalize zone) r st)
    go (err x) (e, j) = (refl, inr (e, j))
    go (ok cs) (e, free) =
        let ids_free : NotElsewhere lib now (normalize owner) lease (normalize zone) st
            (first_ids cs) =
          subst (NotElsewhere lib now (normalize owner) lease (normalize zone) st) (sym e) free in
        (
          free,
          subst
              (λ ids.
                AllApplied lib now (normalize owner) lease (normalize zone) ids st
                  (apply_all lib now (normalize owner) lease (normalize zone) cs st))
              e
              (apply_all-AllApplied lib now (normalize owner) lease (normalize zone) cs st
                ids_free),
        )
