-- ===== src/Expiry.antt =====
-- handlers/opcode5_lease.go: nextLeaseEvent, expiryRetryDelay and expiryTimers, the table of
-- timers that ends leases. Times and delays are in nanoseconds, and the clock's reading is an
-- argument. The callback of a timer is its lease event, Expiry.Events.
pub mod Events
pub mod Backoff
pub mod Armed
pub mod Due
pub mod Forgetting
pub mod Confirmed
pub mod Selected
pub mod Outcome
pub mod Retries
mod Tests
use sig0lease.Base.{
  ℕ, zero, suc, ◌+◌, ◌-◌, ◌*◌, ◌/◌, ◌%◌, ◌^◌, ◌≤◌, ◌<◌, min, max, ◌≡◌, refl, sym, ap, ◌∙◌, subst,
  ◌≢◌, ◌↔◌, ◌⊎◌, inl, inr, Bool, true, false, not, ◌&&◌, ◌||◌, Option, none, some, List, [], ◌∷◌,
  ◌++◌, map, append-nil, append_assoc, arith, ltb, leb, ◌==◌, if◌then◌else◌, leb→le, ltb→lt, ==_iff,
  ==_refl, Bool-cases, Option-cases, and_left, and_right, Bool-ext, length, get_elem?, take, drop,
  All, In, length-append, take-append-drop, length-drop, drop-append, All-append, Bytes, bytes,
  same, same_refl, same_iff, same_ne, empty, has_suffix, contains_byte, has_suffix_iff,
  contains_byte-append, Assoc, get, put, del, get-put, get-del, member, add, remove, member-add,
  member-remove, member-append, Result, ok, err, ok-injective, bind_ok, ◌>>=◌, ◌>>◌, refuse_if,
  is_some,
}
use sig0lease.Store.{Record, NonKeyRecord, LeaseStore, second, get_record}
use sig0lease.Store.Reading.{get_non_key_record_set, set_records, list_owners}

-- `next` after a look at one more time.
unfoldable pub earlier : Option ℕ → ℕ → Option ℕ
earlier none t = some t
earlier (some next) t = if ltb t next then some t else some next

unfoldable pub earliest : Option ℕ → Assoc NonKeyRecord → Option ℕ
earliest next [] = next
earliest next ((id, e) ∷ es) = earliest (earlier next e.expires_at) es

unfoldable pub key_expiry : Option Record → Option ℕ
key_expiry none = none
key_expiry (some r) = some r.expires_at

abbrev pub min_delay : ℕ
min_delay = 100000000

-- `time.Until` of the next event: a past one gives 0, and nothing is below the minimum.
unfoldable pub delay_until : ℕ → Option ℕ → Option ℕ
delay_until now none = none
delay_until now (some t) = some (if ltb (t - now) min_delay then min_delay else t - now)

unfoldable pub next_lease_event : ℕ → LeaseStore → Bytes → Option ℕ
next_lease_event now st node =
    delay_until now
      (earliest (key_expiry (get_record node st)) (set_records (get_non_key_record_set node st)))

abbrev pub max_expiry_retry_delay : ℕ
max_expiry_retry_delay = 16 * second

-- The loop of `expiryRetryDelay`, at the turns that `failures` leaves.
unfoldable pub doubled : ℕ → ℕ → ℕ
doubled zero delay = delay
doubled (suc turns) delay =
    let more = doubled turns (delay * 2) in if ltb delay max_expiry_retry_delay then more else delay

unfoldable pub expiry_retry_delay : ℕ → ℕ
expiry_retry_delay failures = min (doubled (failures - 1) second) max_expiry_retry_delay

-- The delay with which each pending timer was armed, and the run of failures of each node. A
-- timer stays in the table while it fires.
pub record ExpiryTimers : Type 0 where
  pub timers : Assoc ℕ
  pub failures : Assoc ℕ

abbrev pub new_expiry_timers : ExpiryTimers
new_expiry_timers = record { timers = []; failures = [] }

unfoldable pub arm : Bytes → ℕ → ExpiryTimers → ExpiryTimers
arm node delay t = record t { timers = put node delay t.timers }

unfoldable pub disarm : Bytes → ExpiryTimers → ExpiryTimers
disarm node t = record t { timers = del node t.timers; failures = del node t.failures }

unfoldable pub armed : Bytes → ExpiryTimers → Bool
armed node t = is_some (get node t.timers)

unfoldable pub schedule_event : Option ℕ → Bytes → ExpiryTimers → ExpiryTimers
schedule_event none node t = disarm node t
schedule_event (some delay) node t = arm node delay t

-- The value of a missing key in a Go map of numbers.
abbrev pub or_zero : Option ℕ → ℕ
or_zero none = 0
or_zero (some n) = n

module _ (now : ℕ) (st : LeaseStore) where
  unfoldable pub schedule : Bytes → ExpiryTimers → ExpiryTimers
  schedule node t = schedule_event (next_lease_event now st node) node t

  -- The table and the backoff, which is 0 after a complete attempt.
  unfoldable pub finish : Bytes → Bool → ExpiryTimers → ExpiryTimers × ℕ
  finish node true t = (schedule node (record t { failures = del node t.failures }), 0)
  finish node false t =
      let failures = suc (or_zero (get node t.failures)) in
      let delay = expiry_retry_delay failures in
      (arm node delay (record t { failures = put node failures t.failures }), delay)

  unfoldable pub reconcile_each : List Bytes → ExpiryTimers → ExpiryTimers
  reconcile_each [] t = t
  reconcile_each (node ∷ nodes) t =
      reconcile_each nodes (if armed node t then t else schedule node t)

  unfoldable pub reconcile : ExpiryTimers → ExpiryTimers
  reconcile t = reconcile_each (list_owners st) t
