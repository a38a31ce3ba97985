-- ===== src/Expiry/Selected.antt =====
-- What a lease event selects, and what its end leaves of the failures.
use sig0lease.Base.{
  ℕ, ◌≤◌, ◌≡◌, refl, ap, ◌∙◌, ◌↔◌, inl, inr, Bool, true, false, Option, none, some, List, [], ◌∷◌,
  map, arith, Bool-cases, All, In, Bytes, same, same_refl, same_iff, get, del, get-del, member,
}
use sig0lease.Store.{NonKeyRecord, LeaseStore}
use sig0lease.Store.Reading.Sets.{In-record_set}
use sig0lease.Expiry.{ExpiryTimers, finish, schedule, schedule_event, next_lease_event, arm, disarm}
use sig0lease.Expiry.Events.{DueRecord, is_due, own_records, cascaded}
use sig0lease.Expiry.Due.{In-append_left, All-sort_due, All-due_records}

pub due_time :
    (started : ℕ) (e : NonKeyRecord) → (is_due (some started) e ≡ true) ↔ (e.expires_at ≤ started)
unfolding is_due
due_time started e = (λ h. ground arith, λ h. ground arith)

-- A record of the store that is due.
abbrev pub IsDueOwn : ℕ → LeaseStore → DueRecord → Type 0
IsDueOwn started st r =
    (e : NonKeyRecord) × (get r.rr_key st.non_key_records ≡ some e) × (e.expires_at ≤ started)

pub own_records-IsDueOwn :
    (started : ℕ) (st : LeaseStore) (owner : Bytes)
    → All (IsDueOwn started st) (own_records st owner (some started))
unfolding own_records
own_records-IsDueOwn started st owner = All-sort_due (IsDueOwn started st) _ (
    All-due_records (IsDueOwn started st) owner (some started) _
      λ id e i d. (e, (In-record_set owner st id e i).1, (due_time started e).0 d))

pub member-due :
    (started : ℕ) (st : LeaseStore) (rs : List DueRecord) (id : Bytes) (e : NonKeyRecord)
    → All (IsDueOwn started st) rs
    → get id st.non_key_records ≡ some e
    → member id (map (λ r. r.rr_key) rs) ≡ true
    → e.expires_at ≤ started
unfolding member
member-due started st [] id e all h m = cc
member-due started st (r ∷ rs) id e all h m = elim (Bool-cases (same r.rr_key id)) [
  | inl q ↦ it all.0 ((same_iff r.rr_key id).0 q)
  | inr q ↦ member-due started st rs id e all.1 h (rw q at m)
]
  where
    it : IsDueOwn started st r → r.rr_key ≡ id → e.expires_at ≤ started
    it (x, g, l) at_id = ground (arith, h, g, l, at_id)

pub In-member :
    (r : DueRecord) (rs : List DueRecord)
    → In r rs
    → member r.rr_key (map (λ r. r.rr_key) rs) ≡ true
unfolding member
In-member r [] h = elim h [ ]
In-member r (s ∷ rs) (inl e) = ground (arith, same_iff s.rr_key r.rr_key, ap (λ x. x.rr_key) e)
In-member r (s ∷ rs) (inr i) = ground (arith, In-member r rs i)

pub cascaded-In :
    (st : LeaseStore) (data_cascade : Bool) (node : Bytes) (r : DueRecord) (rs : List DueRecord)
    → In r rs
    → In r (cascaded st data_cascade node rs)
unfolding cascaded
cascaded-In st data_cascade node r [] h = h
cascaded-In st false node r (s ∷ rs) h = h
cascaded-In st true node r (s ∷ rs) h = In-append_left r (s ∷ rs) _ h

pub cascaded-off :
    (st : LeaseStore) (node : Bytes) (rs : List DueRecord) → cascaded st false node rs ≡ rs
unfolding cascaded
cascaded-off st node [] = refl
cascaded-off st node (r ∷ rs) = refl

pub finish-failures :
    (now : ℕ) (st : LeaseStore) (node : Bytes) (t : ExpiryTimers)
    → get node (finish now st node true t).0.failures ≡ none
unfolding finish schedule schedule_event arm disarm
finish-failures now st node t = go (next_lease_event now st node)
  where
    gone : get node (del node t.failures) ≡ none
    gone = get-del node t.failures node ∙ rw (same_refl node) refl

    go :
        (o : Option ℕ)
        → get node (schedule_event o node (record t { failures = del node t.failures })).failures
          ≡ none
    go none = get-del node (del node t.failures) node ∙ rw (same_refl node) refl
    go (some d) = gone
