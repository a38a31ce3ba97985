-- ===== src/UpdateHandler/Unconfirmed.antt =====
-- Nothing changes in the store before the upstream server has confirmed.
use sig0lease.Base.{
  ℕ, ◌≡◌, refl, inl, inr, Bool, false, ◌&&◌, List, ◌++◌, Bool-cases, Bytes, Result, ok, err,
}
use sig0lease.Dns.{Key, Rr, DnsLibrary}
use sig0lease.Store.{LeaseStore}
use sig0lease.Expiry.{ExpiryTimers}
use sig0lease.Expiry.Events.{as_deletes}
use sig0lease.UpdateHandler.{UpdateHandler, Query, Plan, Verified}
use sig0lease.UpdateHandler.Cases.{is_nil}
use sig0lease.UpdateHandler.Branches.{dispatch-cases}
use sig0lease.UpdateHandler.Deletion.{
  Answer, Handled, panics, answers, send_deletes, subtree_deletes, case_c,
}
use sig0lease.UpdateHandler.Flow.{has_nothing_to_send, carry_out, dispatch, upstream_update_records}
use sig0lease.UpdateHandler.Sending.{IsGrouped, case_a-sends, case_b-sends, case_d-sends}

abbrev pub Unchanged : LeaseStore → ExpiryTimers → Handled → Type 0
Unchanged st t panics = ⊥
Unchanged st t (answers a st' t') = (st' ≡ st) × (t' ≡ t)

module _ (lib : DnsLibrary) (query : Query) where
  module _ (h : UpdateHandler) (send : List Rr → Bool) (now later : ℕ)
      (refuses : (rrs : List Rr) → send rrs ≡ false) where
    carry_out-Unchanged :
        (v : Verified) (r : Result ℕ Plan) (st : LeaseStore) (t : ExpiryTimers)
        → ((p : Plan) → r ≡ ok p → has_nothing_to_send p ≡ false)
        → Unchanged st t (carry_out lib h query send now later v r st t)
    unfolding carry_out
    carry_out-Unchanged v (err rcode) st t sends = (refl, refl)
    carry_out-Unchanged v (ok p) st t sends =
        rw (sends p refl, refuses (upstream_update_records p.upstream_keys p.accepted p.deletes))
          (refl, refl)

    case_c-Unchanged :
        (v : Verified) (st : LeaseStore) (t : ExpiryTimers)
        → Unchanged st t (case_c lib send now v st t)
    unfolding case_c send_deletes
    case_c-Unchanged v st t = elim (Bool-cases (is_nil v.keys && is_nil v.others)) [
      | inl e ↦ rw e (refl, refl)
      | inr e ↦ rw e (sent _ _ _ _)
    ]
      where
        sent :
            (owner : Bytes) (rrs : List Rr) (ks : List Key) (answer : Answer)
            → Unchanged st t (send_deletes lib send now owner rrs ks answer st t)
        sent owner rrs ks answer = elim (Bool-cases (is_nil ks && is_nil rrs)) [
          | inl e ↦ rw e (refl, refl)
          | inr e ↦ rw (e, refuses (as_deletes rrs ++ subtree_deletes lib ks st)) (refl, refl)
        ]

    pub dispatch-Unchanged :
        (v : Verified) (st : LeaseStore) (t : ExpiryTimers)
        → IsGrouped v
        → Unchanged st t (dispatch lib h query send now later v st t)
    dispatch-Unchanged v st t g =
        dispatch-cases lib h query send now later (Unchanged st t) v st t
          (carry_out-Unchanged v _ st t (λ p q. case_a-sends lib query h now v st p g q))
          (carry_out-Unchanged v _ st t (λ p q. case_b-sends lib query h now v st p q))
          (case_c-Unchanged v st t)
          (carry_out-Unchanged v _ st t (λ p q. case_d-sends lib query h now v st p q))
