-- ===== src/UpdateHandler/Branches.antt =====
-- The branches of `Handle` and of the choice between its cases.
use sig0lease.Base.{
  ℕ, ◌≡◌, refl, ◌⊎◌, inl, inr, Bool, true, false, not, ◌&&◌, Option, none, some, List, ◌==◌,
  if◌then◌else◌, Bool-cases, Bytes, Result, ok, err, is_some,
}
use sig0lease.Dns.{Key, Rr, DnsLibrary}
use sig0lease.LeaseOption.{find_option}
use sig0lease.NodeLocks.{NodeLocks, NodeLockSet, acquire}
use sig0lease.Store.{LeaseStore}
use sig0lease.Expiry.{ExpiryTimers}
use sig0lease.UpdateHandler.{UpdateHandler, Query, Verified}
use sig0lease.UpdateHandler.Cases.{case_a, case_b, case_d}
use sig0lease.UpdateHandler.Deletion.{Answer, Handled, answers, case_c}
use sig0lease.UpdateHandler.Flow.{
  UpdateMessage, verify_request, carry_out, dispatch, request_lock_set, locked, handle_verified,
  has_upstream, handle,
}

module _ (lib : DnsLibrary) (h : UpdateHandler) (query : Query) (send : List Rr → Bool)
    (now later : ℕ) (P : Handled → Type 0) where
  -- What holds of each case holds of the one that is chosen.
  pub dispatch-cases :
      (v : Verified) (st : LeaseStore) (t : ExpiryTimers)
      → P (carry_out lib h query send now later v (case_a lib query h now v st) st t)
      → P (carry_out lib h query send now later v (case_b lib query h now v st) st t)
      → P (case_c lib send now v st t)
      → P (carry_out lib h query send now later v (case_d lib query h now v st) st t)
      → P (dispatch lib h query send now later v st t)
  unfolding dispatch
  dispatch-cases v st t a b c d =
      by_leases (Bool-cases (v.key_lease == 0)) (Bool-cases (v.lease == 0))
    where
      by_leases :
          ((v.key_lease == 0) ≡ true) ⊎ ((v.key_lease == 0) ≡ false)
          → ((v.lease == 0) ≡ true) ⊎ ((v.lease == 0) ≡ false)
          → P (
              if not (v.key_lease == 0) && not (v.lease == 0)
              then carry_out lib h query send now later v (case_a lib query h now v st) st t
              else if v.key_lease == 0 && not (v.lease == 0)
              then carry_out lib h query send now later v (case_b lib query h now v st) st t
              else if v.key_lease == 0
              then case_c lib send now v st t
              else carry_out lib h query send now later v (case_d lib query h now v st) st t)
      by_leases (inr k) (inr l) = rw (k, l) a
      by_leases (inl k) (inr l) = rw (k, l) b
      by_leases (inl k) (inl l) = rw (k, l) c
      by_leases (inr k) (inl l) = rw (k, l) d

  -- What holds of an answer without any change, and of the cases of a request that has come
  -- through the checks, holds of `Handle` by a handler that has its upstream.
  pub handle-cases :
      (verify : Key → Bool) (checked : ℕ) (received : Option UpdateMessage) (n : NodeLocks)
      (wakes : List (NodeLocks × List Bytes)) (before st : LeaseStore) (t : ExpiryTimers)
      → has_upstream h ≡ true
      → ((a : Answer) → P (answers a st t))
      → ((m : UpdateMessage) (v : Verified)
          → verify_request lib h query verify checked m before ≡ ok v
          → P (dispatch lib h query send now later v st t))
      → P (handle lib h query send now later verify checked received n wakes before st t)
  unfolding handle handle_verified locked
  handle-cases verify checked none n wakes before st t up same_store cases = same_store _
  handle-cases verify checked (some m) n wakes before st t up same_store cases =
      elim (Bool-cases (is_some (find_option m.pseudo m.extra))) [
        | inr e ↦ rw e (same_store _)
        | inl e ↦ rw (e, up) (of_request (verify_request lib h query verify checked m before) refl)
      ]
    where
      of_locks :
          (v : Verified) (r : Result (List Bytes) (NodeLocks × NodeLockSet))
          → P (dispatch lib h query send now later v st t)
          → P (locked lib h query send now later v r st t)
      of_locks v (err busy) d = same_store _
      of_locks v (ok taken) d = d

      of_request :
          (r : Result ℕ Verified)
          → verify_request lib h query verify checked m before ≡ r
          → P (handle_verified lib h query send now later r n wakes st t)
      of_request (err rcode) q = same_store _
      of_request (ok v) q = of_locks v (acquire n (request_lock_set lib h v st) wakes) (cases m v q)
