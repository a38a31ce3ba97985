-- ===== src/Expiry/Armed.antt =====
-- Which nodes have a timer.
use sig0lease.Base.{
  ℕ, ◌≡◌, refl, sym, ap, ◌∙◌, subst, ◌⊎◌, inl, inr, Bool, true, false, not, ◌&&◌, ◌||◌, Option,
  none, some, List, [], ◌∷◌, arith, if◌then◌else◌, Bool-cases, Bytes, same, same_refl, same_iff,
  empty, Assoc, get, put, del, get-put, get-del, member, is_some,
}
use mathlib.Core.Path.{ap₂}
use sig0lease.Name.{normalize}
use sig0lease.Dns.{DnsLibrary}
use sig0lease.NodeKey.{node_key}
use sig0lease.NodeKey.Parse.{normalize-node_key_from_sig}
use sig0lease.Store.{Record, NonKeyRecord, LeaseStore, get_record, values}
use sig0lease.Store.Invariant.{IsWellFormed, is_child_of, no_key}
use sig0lease.Store.Reading.{list_owners, get_non_key_record_set, set_records}
use sig0lease.Store.Reading.Owners.{list_owners-key, list_owners-owner}
use sig0lease.Store.Reading.Sets.{get-record_set}
use sig0lease.Expiry.{
  ExpiryTimers, earlier, earliest, key_expiry, delay_until, next_lease_event, arm, disarm, armed,
  schedule_event, schedule, reconcile_each, reconcile,
}

is_some-put :
    (k : Bytes) (v : ℕ) (m : Assoc ℕ) (j : Bytes)
    → is_some (get j (put k v m)) ≡ (same k j || is_some (get j m))
is_some-put k v m j = ap is_some (get-put k v m j) ∙ go (same k j)
  where
    go : (b : Bool) → is_some (if b then some v else get j m) ≡ (b || is_some (get j m))
    go true = refl
    go false = refl

is_some-del :
    (k : Bytes) (m : Assoc ℕ) (j : Bytes)
    → is_some (get j (del k m)) ≡ (not (same k j) && is_some (get j m))
is_some-del k m j = ap is_some (get-del k m j) ∙ go (same k j)
  where
    go : (b : Bool) → is_some (if b then none else get j m) ≡ (not b && is_some (get j m))
    go true = refl
    go false = refl

-- After `schedule` the node has a timer exactly if it has an event; other timers stay.
armed-schedule_event :
    (o : Option ℕ) (node j : Bytes) (t : ExpiryTimers)
    → armed j (schedule_event o node t) ≡ (if same node j then is_some o else armed j t)
unfolding armed schedule_event arm disarm
armed-schedule_event none node j t = ground (arith, is_some-del node t.timers j)
armed-schedule_event (some d) node j t = ground (arith, is_some-put node d t.timers j)

pub armed-schedule :
    (now : ℕ) (st : LeaseStore) (node j : Bytes) (t : ExpiryTimers)
    → armed j (schedule now st node t)
      ≡ (if same node j then is_some (next_lease_event now st node) else armed j t)
unfolding schedule
armed-schedule now st node j t = armed-schedule_event (next_lease_event now st node) node j t

armed-reconcile_each :
    (now : ℕ) (st : LeaseStore) (nodes : List Bytes) (j : Bytes) (t : ExpiryTimers)
    → armed j (reconcile_each now st nodes t)
      ≡ (armed j t || (member j nodes && is_some (next_lease_event now st j)))
unfolding reconcile_each member
armed-reconcile_each now st [] j t = ground arith
armed-reconcile_each now st (node ∷ nodes) j t =
    armed-reconcile_each now st nodes j (if armed node t then t else schedule now st node t)
    ∙ step (Bool-cases (armed node t)) (Bool-cases (same node j))
  where
    step :
        (armed node t ≡ true) ⊎ (armed node t ≡ false)
        → (same node j ≡ true) ⊎ (same node j ≡ false)
        → (armed j (if armed node t then t else schedule now st node t)
            || (member j nodes && is_some (next_lease_event now st j)))
          ≡ (armed j t || ((same node j || member j nodes) && is_some (next_lease_event now st j)))
    step (inl a) (inl e) =
        let at_j : armed j t ≡ true = ap (λ i. armed i t) (sym ((same_iff node j).0 e)) ∙ a in
        rw (a, at_j) refl
    step (inl a) (inr e) = rw (a, e) refl
    step (inr a) (inl e) =
        let at_j : armed j t ≡ false = ap (λ i. armed i t) (sym ((same_iff node j).0 e)) ∙ a in
        let at_event = ap (next_lease_event now st) ((same_iff node j).0 e) in
        rw (a, armed-schedule now st node j t, e, at_event, at_j)
          (absorbed (is_some (next_lease_event now st j)) (member j nodes))
      where
        absorbed : (x m : Bool) → (x || (m && x)) ≡ x
        absorbed true m = refl
        absorbed false true = refl
        absorbed false false = refl
    step (inr a) (inr e) = rw (a, armed-schedule now st node j t, e) refl

pub armed-reconcile :
    (now : ℕ) (st : LeaseStore) (j : Bytes) (t : ExpiryTimers)
    → armed j (reconcile now st t)
      ≡ (armed j t || (member j (list_owners st) && is_some (next_lease_event now st j)))
unfolding reconcile
armed-reconcile now st j t = armed-reconcile_each now st (list_owners st) j t

earliest-is_some :
    (o : Option ℕ) (es : Assoc NonKeyRecord) (id : Bytes)
    → (is_some o || is_some (get id es)) ≡ true
    → is_some (earliest o es) ≡ true
unfolding earliest earlier get
earliest-is_some o [] id h = ground arith
earliest-is_some o ((j, e) ∷ es) id h =
    earliest-is_some (earlier o e.expires_at) es id
      (ap (λ b. b || is_some (get id es)) (earlier-is_some o e.expires_at))
  where
    earlier-is_some : (o : Option ℕ) (t : ℕ) → is_some (earlier o t) ≡ true
    earlier-is_some none t = refl
    earlier-is_some (some n) t = ground arith

delay_until-is_some : (now : ℕ) (o : Option ℕ) → is_some (delay_until now o) ≡ is_some o
unfolding delay_until
delay_until-is_some now none = refl
delay_until-is_some now (some t) = refl

-- A node with a KEY record or a non-KEY record of its own has an event.
has_event :
    (now : ℕ) (st : LeaseStore) (node id : Bytes)
    → (is_some (get_record node st)
        || is_some (get id (set_records (get_non_key_record_set node st))))
      ≡ true
    → is_some (next_lease_event now st node) ≡ true
unfolding next_lease_event key_expiry
has_event now st node id h =
    delay_until-is_some now _ ∙ earliest-is_some _ _ id (go (get_record node st) h)
  where
    go :
        (o : Option Record)
        → (is_some o || is_some (get id (set_records (get_non_key_record_set node st)))) ≡ true
        → (is_some (key_expiry o)
            || is_some (get id (set_records (get_non_key_record_set node st))))
          ≡ true
    go none h = h
    go (some r) h = refl

key_node-armed :
    (lib : DnsLibrary) (now : ℕ) (st : LeaseStore) (t : ExpiryTimers) (n : Bytes) (r : Record)
    → IsWellFormed lib st
    → get n st.leases ≡ some r
    → armed n (reconcile now st t) ≡ true
unfolding get_record node_key
key_node-armed lib now st t n r w h =
    let is_key : is_some (get n st.leases) ≡ true = rw h refl in
    let found : is_some (get_record n st) ≡ true =
      ap (λ j. is_some (get j st.leases)) (normal n ((w.keyed n r h).node)) ∙ is_key in
    let event = has_event now st n n (rw found refl) in
    armed-reconcile now st n t ∙ rw (list_owners-key st n is_key, event) (ground arith)
  where
    normal : (n : Bytes) → node_key lib r.key_rr ≡ n → normalize n ≡ n
    normal n e =
        subst (λ k. normalize k ≡ k) e
          (normalize-node_key_from_sig r.key_rr.hdr.name r.key_rr.algorithm (lib.key_tag r.key_rr))

owner-armed :
    (lib : DnsLibrary) (now : ℕ) (st : LeaseStore) (t : ExpiryTimers) (id : Bytes)
    (e : NonKeyRecord)
    → IsWellFormed lib st
    → get id st.non_key_records ≡ some e
    → normalize e.parent_key_name ≡ e.parent_key_name
    → empty e.parent_key_name ≡ false
    → armed e.parent_key_name (reconcile now st t) ≡ true
owner-armed lib now st t id e w h normal named =
    let owner = e.parent_key_name in
    let child : member id (values owner st.children) ≡ true =
      w.edges owner id
      ∙ ap₂ (λ r nk. is_child_of owner r nk) (no_key (get id st.leases) _ (w.disjoint id) h) h
      ∙ rw (named, same_refl owner) refl in
    let child' : member id (values (normalize owner) st.children) ≡ true =
      ap (λ o. member id (values o st.children)) normal ∙ child in
    let found : is_some (get id (set_records (get_non_key_record_set owner st))) ≡ true =
      ap is_some (get-record_set owner st id) ∙ rw (child', h) refl in
    let event = has_event now st owner id (rw found (ground arith)) in
    armed-reconcile now st owner t ∙ rw (list_owners-owner st id e h, event) (ground arith)

-- On a well-formed store, a run of the reconciliation leaves a timer for every KEY node and for
-- the owner of every non-KEY record whose owner is written in normal form; no timer is lost.
pub reconcile-armed :
    (lib : DnsLibrary) (now : ℕ) (st : LeaseStore) (t : ExpiryTimers)
    → IsWellFormed lib st
    → ((n : Bytes) (r : Record) → get n st.leases ≡ some r → armed n (reconcile now st t) ≡ true)
      × ((id : Bytes) (e : NonKeyRecord)
          → get id st.non_key_records ≡ some e
          → normalize e.parent_key_name ≡ e.parent_key_name
          → empty e.parent_key_name ≡ false
          → armed e.parent_key_name (reconcile now st t) ≡ true)
      × ((n : Bytes) → armed n t ≡ true → armed n (reconcile now st t) ≡ true)
reconcile-armed lib now st t w = (
  λ n r h. key_node-armed lib now st t n r w h,
  λ id e h normal named. owner-armed lib now st t id e w h normal named,
  λ n h. armed-reconcile now st n t ∙ rw h refl,
)
