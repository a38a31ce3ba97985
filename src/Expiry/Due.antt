-- ===== src/Expiry/Due.antt =====
-- What a lease event finds due: records of the store, each under its owner, and for an expired
-- KEY all that is below it.
use sig0lease.Base.{
  ℕ, ◌≡◌, refl, sym, ap, ◌∙◌, subst, inl, inr, Bool, true, false, Option, none, some, List, [], ◌∷◌,
  ◌++◌, if◌then◌else◌, Bool-cases, and_right, All, In, All-append, Bytes, same, same_iff, Assoc,
  get, member, is_some,
}
use mathlib.Core.Path.{ap₂}
use sig0lease.Name.{normalize}
use sig0lease.Dns.{DnsLibrary}
use sig0lease.NodeLocks.{before}
use sig0lease.Store.{Record, NonKeyRecord, LeaseStore, get_record}
use sig0lease.Store.Edges.{edge, is_link}
use sig0lease.Store.Invariant.{IsWellFormed, is_child_of, no_key}
use sig0lease.Store.Reading.Sets.{get-record_set, get-In, In-record_set}
use sig0lease.Store.Subtree.{list_subtree_keys}
use sig0lease.Expiry.Events.{
  DueRecord, is_due, due_records, insert_due, sort_due, own_records, key_of, leases_of,
  subtree_leases, key_nodes_records, cascaded, due_by, key_is_due,
}

module _ {A : Type 0} where
  pub In-append_left : (x : A) (xs ys : List A) → In x xs → In x (xs ++ ys)
  In-append_left x [] ys h = elim h [ ]
  In-append_left x (y ∷ xs) ys (inl e) = inl e
  In-append_left x (y ∷ xs) ys (inr i) = inr (In-append_left x xs ys i)

  pub In-append_right : (x : A) (xs ys : List A) → In x ys → In x (xs ++ ys)
  In-append_right x [] ys i = i
  In-append_right x (y ∷ xs) ys i = inr (In-append_right x xs ys i)

In-insert_due : (x r : DueRecord) (rs : List DueRecord) → In x (r ∷ rs) → In x (insert_due r rs)
unfolding insert_due
In-insert_due x r [] h = h
In-insert_due x r (s ∷ rs) h = go (before r.rr_key s.rr_key) (In-insert_due x r rs) h
  where
    go :
        (b : Bool)
        → (In x (r ∷ rs) → In x (insert_due r rs))
        → In x (r ∷ s ∷ rs)
        → In x (if b then r ∷ s ∷ rs else s ∷ insert_due r rs)
    go true ih h = h
    go false ih (inl e) = inr (ih (inl e))
    go false ih (inr (inl e)) = inl e
    go false ih (inr (inr i)) = inr (ih (inr i))

In-sort_due : (x : DueRecord) (rs : List DueRecord) → In x rs → In x (sort_due rs)
unfolding sort_due
In-sort_due x [] h = elim h [ ]
In-sort_due x (r ∷ rs) (inl e) = In-insert_due x r (sort_due rs) (inl e)
In-sort_due x (r ∷ rs) (inr i) = In-insert_due x r (sort_due rs) (inr (In-sort_due x rs i))

module _ {κ} (P : DueRecord → Type κ) where
  All-insert_due : (r : DueRecord) (rs : List DueRecord) → P r → All P rs → All P (insert_due r rs)
  unfolding insert_due
  All-insert_due r [] p all = (p, tt)
  All-insert_due r (s ∷ rs) p all = go (before r.rr_key s.rr_key) (All-insert_due r rs p all.1)
    where
      go :
          (b : Bool)
          → All P (insert_due r rs)
          → All P (if b then r ∷ s ∷ rs else s ∷ insert_due r rs)
      go true ih = (p, all)
      go false ih = (all.0, ih)

  pub All-sort_due : (rs : List DueRecord) → All P rs → All P (sort_due rs)
  unfolding sort_due
  All-sort_due [] all = tt
  All-sort_due (r ∷ rs) all = All-insert_due r (sort_due rs) all.0 (All-sort_due rs all.1)

  pub All-due_records :
      (owner : Bytes) (due : Option ℕ) (es : Assoc NonKeyRecord)
      → ((id : Bytes) (e : NonKeyRecord)
          → In (id, e) es
          → is_due due e ≡ true
          → P (record { owner = owner; rr_key = id; rr = e.rr }))
      → All P (due_records owner due es)
  unfolding due_records
  All-due_records owner due [] h = tt
  All-due_records owner due ((id, e) ∷ es) h =
      go (is_due due e) refl (All-due_records owner due es (λ j x i. h j x (inr i)))
    where
      go :
          (b : Bool)
          → is_due due e ≡ b
          → All P (due_records owner due es)
          → All P (
              if b
              then (record { owner = owner; rr_key = id; rr = e.rr }) ∷ due_records owner due es
              else due_records owner due es)
      go true d ih = (h id e (inl refl) d, ih)
      go false d ih = ih

In-due_records :
    (owner : Bytes) (due : Option ℕ) (es : Assoc NonKeyRecord) (id : Bytes) (e : NonKeyRecord)
    → In (id, e) es
    → is_due due e ≡ true
    → In (record { owner = owner; rr_key = id; rr = e.rr }) (due_records owner due es)
unfolding due_records
In-due_records owner due [] id e h d = elim h [ ]
In-due_records owner due ((j, x) ∷ es) id e (inl q) d =
    let at_e : x ≡ e = sym (ap (λ z. z.1) q) in
    let at_id : j ≡ id = sym (ap (λ z. z.0) q) in rw (at_e, at_id, d) (inl refl)
In-due_records owner due ((j, x) ∷ es) id e (inr i) d =
    go (is_due due x) (In-due_records owner due es id e i d)
  where
    go :
        (b : Bool)
        → In (record { owner = owner; rr_key = id; rr = e.rr }) (due_records owner due es)
        → In
            (record { owner = owner; rr_key = id; rr = e.rr })
            (if b
              then (record { owner = owner; rr_key = j; rr = x.rr }) ∷ due_records owner due es
              else due_records owner due es)
    go true ih = inr ih
    go false ih = ih

-- A due record is one that the store has, under the owner that it names.
pub record IsOwn (st : LeaseStore) (r : DueRecord) : Type 0 where
  pub entry : NonKeyRecord
  pub stored : get r.rr_key st.non_key_records ≡ some entry
  pub rr_lem : entry.rr ≡ r.rr
  pub owner_lem : entry.parent_key_name ≡ normalize r.owner

module _ (lib : DnsLibrary) (st : LeaseStore) (w : IsWellFormed lib st) where
  -- The parent that the tree has for a record is the one that the record names.
  pub parent_of :
      (p id : Bytes) (e : NonKeyRecord)
      → edge st.children p id ≡ true
      → get id st.non_key_records ≡ some e
      → e.parent_key_name ≡ p
  parent_of p id e m h =
      let link : is_link e.parent_key_name p ≡ true =
        sym (
          w.edges p id
          ∙ ap₂ (λ r nk. is_child_of p r nk) (no_key (get id st.leases) _ (w.disjoint id) h) h)
        ∙ m in
      (same_iff e.parent_key_name p).0 (and_right _ _ link)

  pub own_records-IsOwn :
      (owner : Bytes) (due : Option ℕ) → All (IsOwn st) (own_records st owner due)
  unfolding own_records
  own_records-IsOwn owner due = All-sort_due (IsOwn st) _ (
      All-due_records (IsOwn st) owner due _ λ id e i d.
        let (m, h) = In-record_set owner st id e i in
        record { entry = e; stored = h; rr_lem = refl; owner_lem = parent_of _ id e m h })

  pub leases_of-IsOwn : (owners : List Bytes) → All (IsOwn st) (leases_of st owners).1
  unfolding leases_of
  leases_of-IsOwn [] = tt
  leases_of-IsOwn (owner ∷ owners) =
      All-append (IsOwn st) (own_records st owner none) (leases_of st owners).1
        (own_records-IsOwn owner none) (leases_of-IsOwn owners)

  key_nodes_records-IsOwn : (children : List Bytes) → All (IsOwn st) (key_nodes_records st children)
  unfolding key_nodes_records
  key_nodes_records-IsOwn [] = tt
  key_nodes_records-IsOwn (c ∷ cs) = elim (Bool-cases (is_some (get_record c st))) [
    | inl e ↦ rw e (
        All-append (IsOwn st) (own_records st c none) (key_nodes_records st cs)
          (own_records-IsOwn c none) (key_nodes_records-IsOwn cs))
    | inr e ↦ rw e (key_nodes_records-IsOwn cs)
  ]

  cascaded-IsOwn :
      (data_cascade : Bool) (node : Bytes) (rs : List DueRecord)
      → All (IsOwn st) rs
      → All (IsOwn st) (cascaded st data_cascade node rs)
  unfolding cascaded
  cascaded-IsOwn data_cascade node [] all = tt
  cascaded-IsOwn false node (r ∷ rs) all = all
  cascaded-IsOwn true node (r ∷ rs) all =
      All-append (IsOwn st) (r ∷ rs) (key_nodes_records st (list_subtree_keys node st)) all
        (key_nodes_records-IsOwn (list_subtree_keys node st))

  pub due_by-IsOwn :
      (data_cascade : Bool) (now : ℕ) (node : Bytes)
      → All (IsOwn st) (due_by data_cascade now st node).records
  unfolding due_by subtree_leases
  due_by-IsOwn data_cascade now node = elim (Bool-cases (key_is_due now (get_record node st))) [
    | inl e ↦ rw e (leases_of-IsOwn (node ∷ list_subtree_keys node st))
    | inr e ↦ rw e (cascaded-IsOwn data_cascade node _ (own_records-IsOwn node (some now)))
  ]

  -- A record that is due is found under its owner's children.
  pub In-own_records :
      (owner : Bytes) (due : Option ℕ) (id : Bytes) (e : NonKeyRecord)
      → edge st.children (normalize owner) id ≡ true
      → get id st.non_key_records ≡ some e
      → is_due due e ≡ true
      → In (record { owner = owner; rr_key = id; rr = e.rr }) (own_records st owner due)
  unfolding own_records
  In-own_records owner due id e m h d = In-sort_due _ _ (
      In-due_records owner due _ id e (get-In id _ e (get-record_set owner st id ∙ rw (m, h) refl))
        d)

  pub In-leases_of :
      (owners : List Bytes) (owner id : Bytes) (e : NonKeyRecord)
      → In owner owners
      → edge st.children (normalize owner) id ≡ true
      → get id st.non_key_records ≡ some e
      → In (record { owner = owner; rr_key = id; rr = e.rr }) (leases_of st owners).1
  unfolding leases_of
  In-leases_of [] owner id e i m h = elim i [ ]
  In-leases_of (o ∷ owners) owner id e (inl q) m h = In-append_left _ _ _ (
      subst (λ x. In (record { owner = owner; rr_key = id; rr = e.rr }) (own_records st x none)) q
        (In-own_records owner none id e m h (unfold is_due in refl)))
  In-leases_of (o ∷ owners) owner id e (inr i) m h =
      In-append_right _ (own_records st o none) _ (In-leases_of owners owner id e i m h)

  pub In-leases_of-key :
      (owners : List Bytes) (owner : Bytes) (r : Record)
      → In owner owners
      → get_record owner st ≡ some r
      → In r.key_rr (leases_of st owners).0
  unfolding leases_of key_of
  In-leases_of-key [] owner r i h = elim i [ ]
  In-leases_of-key (o ∷ owners) owner r (inl q) h =
      rw (subst (λ x. get_record x st ≡ some r) q h) (inl refl)
  In-leases_of-key (o ∷ owners) owner r (inr i) h =
      In-append_right _ (key_of st (get_record o st)) _ (In-leases_of-key owners owner r i h)

pub member-In : (j : Bytes) (xs : List Bytes) → member j xs ≡ true → In j xs
unfolding member
member-In j [] h = cc
member-In j (x ∷ xs) h = elim (Bool-cases (same x j)) [
  | inl e ↦ inl (sym ((same_iff x j).0 e))
  | inr e ↦ inr (member-In j xs (rw e at h))
]

-- What names its owner names it in normal form.
pub record HasNormalOwners (st : LeaseStore) : Type 0 where
  pub of_keys :
      (n : Bytes) (r : Record)
      → get n st.leases ≡ some r
      → normalize r.parent_key_name ≡ r.parent_key_name
  pub of_records :
      (id : Bytes) (e : NonKeyRecord)
      → get id st.non_key_records ≡ some e
      → normalize e.parent_key_name ≡ e.parent_key_name
