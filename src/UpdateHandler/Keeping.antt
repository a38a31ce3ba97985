-- ===== src/UpdateHandler/Keeping.antt =====
-- A request as a whole never panics, and leaves the store in order.
use sig0lease.Base.{
  ℕ, ◌≡◌, refl, subst, inl, inr, Bool, true, false, not, ◌&&◌, Option, none, some, List, [], ◌∷◌,
  ◌++◌, if◌then◌else◌, Bool-cases, All, All-append, Bytes, Result, ok, err, ok-injective,
}
use sig0lease.Dns.{Key, Rr, DnsLibrary}
use sig0lease.NodeKey.{node_key}
use sig0lease.Store.{Record, LeaseStore, lookup_by_sig}
use sig0lease.Store.Identities.{IsApart, IsIdentified}
use sig0lease.NodeLocks.{NodeLocks}
use sig0lease.Expiry.{ExpiryTimers}
use sig0lease.Expiry.Events.{as_deletes}
use sig0lease.UpdateHandler.{
  UpdateHandler, Query, Mutation, Plan, no_plan, joined, Verified, key_id_from_sig, key_id_from_key,
}
use sig0lease.UpdateHandler.Records.{records_of}
use sig0lease.UpdateHandler.Cases.{
  is_nil, in_update, refreshed_key, case_a_key, case_a_keys, case_a_signer, case_a, restored_key,
  added_under, case_b_signer, case_b, case_d_keys,
}
use sig0lease.UpdateHandler.Inversion.{
  case_a_key-new, case_a_key-refresh, case_a_keys-cons, case_a_signer-cons, case_a_ok,
  case_b_signer_ok, case_b_ok, case_d_keys-cons, case_d_ok,
}
use sig0lease.UpdateHandler.Deletion.{
  Answer, Handled, answers, deleted, send_deletes, subtree_deletes, case_c,
}
use sig0lease.UpdateHandler.Changes.{Applied, fails, applies, apply_each}
use sig0lease.UpdateHandler.Removing.{AllOwn, to_delete-AllOwn, delete_all-IsIdentified}
use sig0lease.UpdateHandler.Applying.{Leaves, IsWriting, IsTrimming, writing_each, trimming_each}
use sig0lease.UpdateHandler.Branches.{dispatch-cases, handle-cases}
use sig0lease.UpdateHandler.Flow.{
  UpdateMessage, has_nothing_to_send, upstream_update_records, answered, carry_out, has_upstream,
  handle,
}

-- The request is answered, and the store is in order.
abbrev pub Keeps : DnsLibrary → Handled → Type 0
Keeps lib Handled.panics = ⊥
Keeps lib (answers a st t) = IsIdentified lib st

joined-All :
    (P : Mutation → Type 0) (p q : Plan)
    → All P p.mutations
    → All P q.mutations
    → All P (joined p q).mutations
unfolding joined
joined-All P p q a b = All-append P p.mutations q.mutations a b

module _ (lib : DnsLibrary) (query : Query) (h : UpdateHandler) (now : ℕ) (v : Verified)
    (st : LeaseStore) where
  refreshed-writes :
      (k : Key) (rrs : List Rr) (lease : ℕ × Bool)
      → All IsWriting (refreshed_key lib query h now v st k rrs lease).mutations
  unfolding refreshed_key
  refreshed-writes k rrs (l, true) = (tt, tt)
  refreshed-writes k rrs (l, false) = (tt, tt)

  case_a_key-writes :
      (o : Option Record) (k : Key) (p : Plan)
      → case_a_key lib query h now v st o k ≡ ok p
      → All IsWriting p.mutations
  case_a_key-writes none k p q =
      let (accepted, checked, filtered, e) = case_a_key-new lib query h now v st k p q in
      rw e (tt, tt)
  case_a_key-writes (some r) k p q =
      let (lease, allowed, granted, e) = case_a_key-refresh lib query h now v st r k p q in
      rw e (refreshed-writes k (records_of (key_id_from_key lib k) v.by_owner) lease)

  case_a_keys-writes :
      (ks : List Key) (p : Plan)
      → case_a_keys lib query h now v st ks ≡ ok p
      → All IsWriting p.mutations
  unfolding case_a_keys
  case_a_keys-writes [] p q = subst (λ x. All IsWriting x.mutations) (ok-injective q) tt
  case_a_keys-writes (k ∷ ks) p q =
      let (first, rest, q1, q2, e) = case_a_keys-cons lib query h now v st k ks p q in
      rw e (
        joined-All IsWriting first rest (case_a_key-writes _ k first q1)
          (case_a_keys-writes ks rest q2))

  case_a_signer-writes :
      (rrs : List Rr) (p : Plan)
      → case_a_signer lib query h now v st rrs ≡ ok p
      → All IsWriting p.mutations
  unfolding case_a_signer
  case_a_signer-writes [] p q = subst (λ x. All IsWriting x.mutations) (ok-injective q) tt
  case_a_signer-writes (rr ∷ rrs) p q =
      let (accepted, filtered, e) = case_a_signer-cons lib query h now v st rr rrs p q in
      rw e (tt, tt)

  case_a-writes : (p : Plan) → case_a lib query h now v st ≡ ok p → All IsWriting p.mutations
  case_a-writes p q =
      let (of_keys, of_signer, filled, may, q1, q2, e) = case_a_ok lib query h now v st p q in
      rw e (
        joined-All IsWriting of_keys of_signer (case_a_keys-writes v.keys of_keys q1)
          (of_signer_or_none (in_update lib (key_id_from_sig v.sig) v.keys) of_signer q2))
    where
      of_signer_or_none :
          (b : Bool) (of_signer : Plan)
          → (if b
              then ok no_plan
              else case_a_signer lib query h now v st
                  (records_of (key_id_from_sig v.sig) v.by_owner))
            ≡ ok of_signer
          → All IsWriting of_signer.mutations
      of_signer_or_none true of_signer q =
          subst (λ x. All IsWriting x.mutations) (ok-injective q) tt
      of_signer_or_none false of_signer q = case_a_signer-writes _ of_signer q

  restored-writes :
      (r : Record) (o : Option Bool) (p : Plan)
      → restored_key lib query h now v st r o ≡ ok p
      → All IsWriting p.mutations
  unfolding restored_key
  restored-writes r none p q = cc
  restored-writes r (some true) p q = subst (λ x. All IsWriting x.mutations) (ok-injective q) tt
  restored-writes r (some false) p q =
      subst (λ x. All IsWriting x.mutations) (ok-injective q) (tt, tt)

  added-writes :
      (node : Bytes) (rrs : List Rr)
      → All IsWriting (added_under lib query h now v st node rrs).mutations
  unfolding added_under
  added-writes node [] = tt
  added-writes node (rr ∷ rrs) = (tt, tt)

  case_b-writes : (p : Plan) → case_b lib query h now v st ≡ ok p → All IsWriting p.mutations
  unfolding case_b_signer
  case_b-writes p q =
      go (lookup_by_sig lib now v.sig.signer_name v.sig.algorithm v.sig.key_tag st)
        (case_b_ok lib query h now v st p q).1
    where
      go :
          (o : Option Record)
          → case_b_signer lib query h now v st o ≡ ok p
          → All IsWriting p.mutations
      go none q1 = cc
      go (some r) q1 =
          let (key, accepted, restored, filtered, e) =
            case_b_signer_ok lib query h now v st r p q1 in
          rw e (
            joined-All IsWriting key
              (added_under lib query h now v st (node_key lib v.signer_key) accepted)
              (restored-writes r _ key restored)
              (added-writes (node_key lib v.signer_key) accepted))

  case_d_keys-trims :
      (ks : List Key) (p : Plan)
      → case_d_keys lib query h now v st ks ≡ ok p
      → All (IsTrimming lib st) p.mutations
  unfolding case_d_keys joined
  case_d_keys-trims [] p q = subst (λ x. All (IsTrimming lib st) x.mutations) (ok-injective q) tt
  case_d_keys-trims (k ∷ ks) p q =
      let (lease, rest, q1, q2, e) = case_d_keys-cons lib query h now v st k ks p q in
      rw e (
        to_delete-AllOwn lib st k (records_of (key_id_from_key lib k) v.by_owner),
        case_d_keys-trims ks rest q2,
      )

module _ (lib : DnsLibrary) (apart : IsApart lib) (h : UpdateHandler) (query : Query)
    (send : List Rr → Bool) (now later : ℕ) where
  answered-Keeps :
      (v : Verified) (answer : Answer) (a : Applied)
      → Leaves (IsIdentified lib) a
      → Keeps lib (answered lib h query send now later answer a)
  unfolding answered
  answered-Keeps v answer Applied.panics l = l
  answered-Keeps v answer (fails st t) l = l
  answered-Keeps v answer (applies st t) l = l

  carry_out-Keeps :
      (v : Verified) (r : Result ℕ Plan) (st : LeaseStore) (t : ExpiryTimers)
      → IsIdentified lib st
      → ((p : Plan)
          → r ≡ ok p
          → Leaves (IsIdentified lib) (apply_each lib h later v.sig v.lease p.mutations st t))
      → Keeps lib (carry_out lib h query send now later v r st t)
  unfolding carry_out
  carry_out-Keeps v (err rcode) st t i f = i
  carry_out-Keeps v (ok p) st t i f =
      elim (Bool-cases (
        not (has_nothing_to_send p)
        && not (send (upstream_update_records p.upstream_keys p.accepted p.deletes)))) [
          | inl e ↦ rw e i
          | inr e ↦ rw e (answered-Keeps v _ _ (f p refl))
        ]

  case_c-Keeps :
      (v : Verified) (st : LeaseStore) (t : ExpiryTimers)
      → IsIdentified lib st
      → Keeps lib (case_c lib send now v st t)
  unfolding case_c send_deletes deleted
  case_c-Keeps v st t i = elim (Bool-cases (is_nil v.keys && is_nil v.others)) [
    | inl e ↦ rw e i
    | inr e ↦ rw e (sent _ _ _ (to_delete-AllOwn lib st v.signer_key v.others))
  ]
    where
      sent :
          (rrs : List Rr) (ks : List Key) (answer : Answer)
          → AllOwn lib st (node_key lib v.signer_key) rrs
          → Keeps lib (send_deletes lib send now (node_key lib v.signer_key) rrs ks answer st t)
      sent rrs ks answer own = elim (Bool-cases (is_nil ks && is_nil rrs)) [
        | inl e ↦ rw e i
        | inr e ↦ elim (Bool-cases (send (as_deletes rrs ++ subtree_deletes lib ks st))) [
          | inr s ↦ rw (e, s) i
          | inl s ↦
              let (st', t', q, i') =
                delete_all-IsIdentified lib (node_key lib v.signer_key) rrs ks st t i own in
              rw (e, s, q) i'
        ]
      ]

  -- Whatever a request asks for, whatever the authoritative server answers and whether or not the
  -- upstream server confirms, the request never panics, and on every branch, a change that fails
  -- after others were made included, it leaves the store well-formed, with each non-KEY record
  -- under the identity of a record, if the handler has its upstream and its signing key, if the
  -- store was so under the locks and if no KEY and no non-KEY record have one identity. A nil
  -- message does so too.
  pub handle-Keeps :
      (verify : Key → Bool) (checked : ℕ) (received : Option UpdateMessage) (n : NodeLocks)
      (wakes : List (NodeLocks × List Bytes)) (before st : LeaseStore) (t : ExpiryTimers)
      → has_upstream h ≡ true
      → IsIdentified lib st
      → Keeps lib (handle lib h query send now later verify checked received n wakes before st t)
  handle-Keeps verify checked received n wakes before st t up i =
      handle-cases lib h query send now later (Keeps lib) verify checked received n wakes before st
        t up (λ a. i)
        λ m v q.
          dispatch-cases lib h query send now later (Keeps lib) v st t
            (carry_out-Keeps v _ st t i λ p e.
              writing_each lib apart h later v.sig v.lease p.mutations st t
                (case_a-writes lib query h now v st p e) i)
            (carry_out-Keeps v _ st t i λ p e.
              writing_each lib apart h later v.sig v.lease p.mutations st t
                (case_b-writes lib query h now v st p e) i)
            (case_c-Keeps v st t i)
            (carry_out-Keeps v _ st t i λ p e.
              trimming_each lib apart h later v.sig v.lease p.mutations st t
                (case_d_keys-trims lib query h now v st v.keys p
                  (case_d_ok lib query h now v st p e).1)
                i)
