-- ===== src/Expiry/Tests.antt =====
-- The expiry of leases at work: tests, and the theorems at concrete inputs.
use sig0lease.Base.{
  ℕ, ◌+◌, ◌*◌, ◌^◌, ◌<◌, min, ◌≡◌, refl, true, false, none, some, [], ◌∷◌, arith, Bytes, same,
  empty, get, get-all,
}
use sig0lease.Name.{fold, trim_dot, normalize}
use sig0lease.Store.{Record, NonKeyRecord, LeaseStore, get_record, second}
use sig0lease.Store.Samples.{fixed, host_node, host_record, with_note, Reach-note}
use sig0lease.Store.Steps.{reachable-IsWellFormed}
use sig0lease.Store.Invariant.{IsWellFormed}
use sig0lease.Store.Subtree.Exact.{DeletedExactly}
use sig0lease.Expiry.{
  ExpiryTimers, new_expiry_timers, armed, reconcile, expiry_retry_delay, or_zero,
}
use sig0lease.Expiry.Events.{ends, expire, Firing, fire_all}
use sig0lease.Expiry.Backoff.{expiry_retry_delay_lem}
use sig0lease.Expiry.Armed.{reconcile-armed}
use sig0lease.Expiry.Due.{HasNormalOwners}
use sig0lease.Expiry.Outcome.{EventOutcome, expire-EventOutcome}
use sig0lease.Expiry.Retries.{retried_until_confirmed}

noted-IsWellFormed : IsWellFormed fixed with_note
noted-IsWellFormed = reachable-IsWellFormed fixed with_note Reach-note

noted-HasNormalOwners : HasNormalOwners with_note
unfolding normalize fold trim_dot
noted-HasNormalOwners = record {
  of_keys =
      get-all (λ r. normalize r.parent_key_name ≡ r.parent_key_name) with_note.leases (refl, tt);
  of_records =
      get-all (λ e. normalize e.parent_key_name ≡ e.parent_key_name) with_note.non_key_records
        (refl, tt);
}

-- 3600 s after the registration, the KEY's lease is over.
abbrev late : ℕ
late = 3600000005000

expiry_retry_delay_lem_example : expiry_retry_delay 3 ≡ min (2 ^ 2 * second) (16 * second)
expiry_retry_delay_lem_example = expiry_retry_delay_lem 2

expire-EventOutcome_example :
    EventOutcome fixed
      (λ rrs. true)
      false
      late
      host_node
      with_note
      (expire (λ rrs. true) false late (late + 1) host_node with_note new_expiry_timers)
expire-EventOutcome_example =
    expire-EventOutcome fixed false late (late + 1) host_node with_note noted-IsWellFormed
      noted-HasNormalOwners (omega arith) (λ rrs. true) new_expiry_timers

abbrev refusal : Firing
refusal = record { started = late; finished = late + 5; confirmed = false }

abbrev answer : Firing
answer = record { started = late + second; finished = late + second + 5; confirmed = true }

retried_until_confirmed_example :
    (waiting : ExpiryTimers) × (st' : LeaseStore) × (t' : ExpiryTimers) × (fire_all false host_node
        (refusal ∷ refusal ∷ [])
        with_note
        new_expiry_timers
      ≡ ends with_note waiting false)
    × (0 < 2
        → get host_node waiting.timers
          ≡ some (expiry_retry_delay (or_zero (get host_node new_expiry_timers.failures) + 2)))
    × (fire_all false host_node (refusal ∷ refusal ∷ answer ∷ []) with_note new_expiry_timers
        ≡ ends st' t' true)
    × DeletedExactly (normalize host_node) with_note st'
    × (get host_node t'.failures ≡ none)
unfolding get_record normalize fold trim_dot get same
retried_until_confirmed_example =
    retried_until_confirmed fixed false host_node with_note new_expiry_timers host_record
      (refusal ∷ refusal ∷ []) answer noted-IsWellFormed noted-HasNormalOwners refl
      ((refl, omega arith), ((refl, omega arith), tt)) refl (omega arith) (omega arith)

reconcile-armed_example :
    ((n : Bytes) (r : Record)
      → get n with_note.leases ≡ some r
      → armed n (reconcile late with_note new_expiry_timers) ≡ true)
    × ((id : Bytes) (e : NonKeyRecord)
        → get id with_note.non_key_records ≡ some e
        → normalize e.parent_key_name ≡ e.parent_key_name
        → empty e.parent_key_name ≡ false
        → armed e.parent_key_name (reconcile late with_note new_expiry_timers) ≡ true)
    × ((n : Bytes)
        → armed n new_expiry_timers ≡ true
        → armed n (reconcile late with_note new_expiry_timers) ≡ true)
reconcile-armed_example = reconcile-armed fixed late with_note new_expiry_timers noted-IsWellFormed
