-- ===== src/Expiry/Retries.antt =====
-- A lease event that is refused upstream is tried again until it is confirmed.
use sig0lease.Base.{
  ℕ, suc, ◌+◌, ◌≤◌, ◌<◌, ◌≡◌, refl, ap, ◌∙◌, Bool, true, false, not, none, some, List, [], ◌∷◌,
  ◌++◌, arith, ltb, length, All, Bytes, same_refl, get, get-put,
}
use sig0lease.Name.{normalize}
use sig0lease.Dns.{DnsLibrary}
use sig0lease.Store.{Record, LeaseStore, get_record}
use sig0lease.Store.Invariant.{IsWellFormed}
use sig0lease.Store.Subtree.Exact.{DeletedExactly}
use sig0lease.Expiry.{ExpiryTimers, finish, arm, or_zero, expiry_retry_delay}
use sig0lease.Expiry.Events.{
  Ended, panics, ends, due_by, key_is_due, is_nothing, subtree_leases, leases_of, key_of,
  expire_due, expire, Firing, fire_next, fire_all,
}
use sig0lease.Expiry.Due.{HasNormalOwners}
use sig0lease.Expiry.Outcome.{forget_done}

ends-injective :
    {st st' : LeaseStore} {t t' : ExpiryTimers} {b b' : Bool}
    → ends st t b ≡ ends st' t' b'
    → (st ≡ st') × (t ≡ t')
ends-injective h = (cc, cc)

-- An expired KEY is something to delete.
something_due :
    (data_cascade : Bool) (started : ℕ) (node : Bytes) (st : LeaseStore) (r : Record)
    → get_record node st ≡ some r
    → r.expires_at ≤ started
    → (is_nothing (due_by data_cascade started st node) ≡ false)
      × (key_is_due started (get_record node st) ≡ true)
unfolding is_nothing due_by subtree_leases leases_of key_of key_is_due
something_due data_cascade started node st r h l =
    let due : not (ltb started r.expires_at) ≡ true = ground arith in
    (rw (h, due) (ground arith), rw h due)

module _ (data_cascade : Bool) (node : Bytes) (st : LeaseStore) (r : Record)
    (there : get_record node st ≡ some r) where
  -- The firing of an expired KEY that is refused.
  refused :
      (f : Firing) (t : ExpiryTimers)
      → f.confirmed ≡ false
      → r.expires_at ≤ f.started
      → expire (λ _. f.confirmed) data_cascade f.started f.finished node st t
        ≡ ends st (finish f.finished st node false t).0 false
  unfolding expire expire_due
  refused f t refusal l =
      let (some_due, due) = something_due data_cascade f.started node st r there l in
      rw (some_due, refusal) refl

  -- The failures are counted, and the timer waits for the backoff.
  retry_armed :
      (now : ℕ) (t : ExpiryTimers)
      → let t' = (finish now st node false t).0 in
        (or_zero (get node t'.failures) ≡ suc (or_zero (get node t.failures)))
        × (get node t'.timers ≡ some (expiry_retry_delay (suc (or_zero (get node t.failures)))))
  unfolding finish arm
  retry_armed now t =
      let n = suc (or_zero (get node t.failures)) in
      (
        ap or_zero {y = some n} (get-put node n t.failures node ∙ rw (same_refl node) refl),
        get-put node (expiry_retry_delay n) t.timers node ∙ rw (same_refl node) refl,
      )

  -- Whatever number of refusals in a row, the store stays as it is and the timer is armed with
  -- the backoff of that many failures.
  pub refusals_keep :
      (fs : List Firing) (t : ExpiryTimers)
      → All (λ f. (f.confirmed ≡ false) × (r.expires_at ≤ f.started)) fs
      → (t' : ExpiryTimers) × (fire_all data_cascade node fs st t ≡ ends st t' false)
        × (or_zero (get node t'.failures) ≡ or_zero (get node t.failures) + length fs)
        × (0 < length fs
            → get node t'.timers
              ≡ some (expiry_retry_delay (or_zero (get node t.failures) + length fs)))
  unfolding fire_all fire_next
  refusals_keep [] t all = (t, refl, omega arith, λ l. absurd (omega arith))
  refusals_keep (f ∷ []) t all =
      let (counted, waits) = retry_armed f.finished t in
      (
        (finish f.finished st node false t).0,
        rw (refused f t all.0.0 all.0.1) refl,
        omega (arith, counted),
        λ _. waits ∙ ap (λ (n : ℕ). some (expiry_retry_delay n)) (omega arith),
      )
  refusals_keep (f ∷ g ∷ fs) t all =
      let (counted, waits) = retry_armed f.finished t in
      let (t', ended, total, last) =
        refusals_keep (g ∷ fs) (finish f.finished st node false t).0 all.1 in
      (
        t',
        rw (refused f t all.0.0 all.0.1) ended,
        omega (arith, counted, total),
        λ _.
            last (omega arith)
            ∙ ap (λ (n : ℕ). some (expiry_retry_delay n)) (omega (arith, counted)),
      )

  -- The firing that is confirmed.
  confirmed_ends :
      (lib : DnsLibrary) (f : Firing) (t : ExpiryTimers)
      → IsWellFormed lib st
      → HasNormalOwners st
      → f.confirmed ≡ true
      → r.expires_at ≤ f.started
      → f.started < f.finished
      → (st' : LeaseStore) × (t' : ExpiryTimers) × (expire
            (λ _. f.confirmed)
            data_cascade
            f.started
            f.finished
            node
            st
            t
          ≡ ends st' t' true)
        × DeletedExactly (normalize node) st st'
        × (get node t'.failures ≡ none)
  unfolding expire expire_due
  confirmed_ends lib f t w normal confirmed l later =
      let (some_due, due) = something_due data_cascade f.started node st r there l in
      let (st', t', eq, done, cleared) =
        forget_done lib data_cascade f.started f.finished node st w normal later t in
      (st', t', rw (some_due, confirmed) eq, done.key_over due, cleared)

fire_all-append :
    (data_cascade : Bool) (node : Bytes) (fs gs : List Firing) (st st' : LeaseStore)
    (t t' : ExpiryTimers)
    → fire_all data_cascade node fs st t ≡ ends st' t' false
    → fire_all data_cascade node (fs ++ gs) st t ≡ fire_all data_cascade node gs st' t'
unfolding fire_all fire_next
fire_all-append data_cascade node [] gs st st' t t' h =
    let it = ends-injective h in rw (it.0, it.1) refl
fire_all-append data_cascade node (f ∷ fs) gs st st' t t' h =
    go (expire (λ _. f.confirmed) data_cascade f.started f.finished node st t)
      (λ s u. fire_all-append data_cascade node fs gs s st' u t') h
  where
    go :
        (e : Ended)
        → ((s : LeaseStore) (u : ExpiryTimers)
            → fire_all data_cascade node fs s u ≡ ends st' t' false
            → fire_all data_cascade node (fs ++ gs) s u ≡ fire_all data_cascade node gs st' t')
        → fire_next e (λ s u. fire_all data_cascade node fs s u) ≡ ends st' t' false
        → fire_next e (λ s u. fire_all data_cascade node (fs ++ gs) s u)
          ≡ fire_all data_cascade node gs st' t'
    go panics ih q = cc
    go (ends s u true) ih q = cc
    go (ends s u false) ih q = ih s u q

-- On a well-formed store that names owners in normal form, however often the UPDATE of an expired
-- KEY is refused, each refusal leaves the store as it is and the timer armed with the backoff, and
-- the first confirmed one, if it ends later than it starts, removes exactly the KEY's subtree and
-- ends the run of failures.
pub retried_until_confirmed :
    (lib : DnsLibrary) (data_cascade : Bool) (node : Bytes) (st : LeaseStore) (t : ExpiryTimers)
    (r : Record) (refusals : List Firing) (last : Firing)
    → IsWellFormed lib st
    → HasNormalOwners st
    → get_record node st ≡ some r
    → All (λ f. (f.confirmed ≡ false) × (r.expires_at ≤ f.started)) refusals
    → last.confirmed ≡ true
    → r.expires_at ≤ last.started
    → last.started < last.finished
    → (waiting : ExpiryTimers) × (st' : LeaseStore) × (t' : ExpiryTimers) × (fire_all data_cascade
          node refusals st t
        ≡ ends st waiting false)
      × (0 < length refusals
          → get node waiting.timers
            ≡ some (expiry_retry_delay (or_zero (get node t.failures) + length refusals)))
      × (fire_all data_cascade node (refusals ++ (last ∷ [])) st t ≡ ends st' t' true)
      × DeletedExactly (normalize node) st st'
      × (get node t'.failures ≡ none)
unfolding fire_all fire_next
retried_until_confirmed lib data_cascade node st t r refusals last w normal there all c l later =
    let (waiting, kept, total, delay) = refusals_keep data_cascade node st r there refusals t all in
    let (st', t', ended, exactly, cleared) =
      confirmed_ends data_cascade node st r there lib last waiting w normal c l later in
    (
      waiting,
      st',
      t',
      kept,
      delay,
      fire_all-append data_cascade node refusals (last ∷ []) st st t waiting kept ∙ rw ended refl,
      exactly,
      cleared,
    )
