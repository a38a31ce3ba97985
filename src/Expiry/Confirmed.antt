-- ===== src/Expiry/Confirmed.antt =====
-- What a lease event forgets, and what it has sent upstream before.
use sig0lease.Base.{
  ◌≡◌, refl, ap, ◌∙◌, subst, ◌⊎◌, inl, inr, true, none, some, List, [], ◌∷◌, ◌++◌, map, arith,
  Bool-cases, All, In, Bytes, same, same_iff, get, member,
}
use sig0lease.Name.{normalize}
use sig0lease.Dns.{Key, Rr, DnsLibrary}
use sig0lease.NodeKey.{node_key}
use sig0lease.NodeKey.Parse.{normalize-node_key_from_sig}
use sig0lease.Store.{Record, NonKeyRecord, LeaseStore, get_record}
use sig0lease.Store.Edges.{edge}
use sig0lease.Store.Invariant.{IsWellFormed}
use sig0lease.Store.Subtree.{subtree_keys, list_subtree_keys}
use sig0lease.Store.Subtree.Traversal.{Below, here, child}
use sig0lease.Store.Subtree.Listing.{list_subtree_keys_iff}
use sig0lease.Store.Subtree.Exact.{DeletedExactly, subtree_keys_iff}
use sig0lease.Expiry.Events.{
  DueRecord, key_as_rr, as_delete, as_deletes, record_deletes, subtree_leases,
}
use sig0lease.Expiry.Due.{
  In-append_left, In-append_right, IsOwn, parent_of, In-leases_of, In-leases_of-key, member-In,
  HasNormalOwners,
}
use sig0lease.Expiry.Forgetting.{DueGone}

In-as_deletes :
    (k : Key) (ks : List Key)
    → In k ks
    → In (as_delete (key_as_rr k)) (as_deletes (map key_as_rr ks))
unfolding as_deletes
In-as_deletes k [] h = elim h [ ]
In-as_deletes k (j ∷ ks) (inl e) = inl (ap (λ x. as_delete (key_as_rr x)) e)
In-as_deletes k (j ∷ ks) (inr i) = inr (In-as_deletes k ks i)

In-record_deletes :
    (r : DueRecord) (rs : List DueRecord) → In r rs → In (as_delete r.rr) (record_deletes rs)
unfolding record_deletes
In-record_deletes r [] h = elim h [ ]
In-record_deletes r (s ∷ rs) (inl e) = inl (ap (λ x. as_delete x.rr) e)
In-record_deletes r (s ∷ rs) (inr i) = inr (In-record_deletes r rs i)

-- Every record is still there, or it is gone and its deletion was sent.
pub record GoneAsSent (sent : List Rr) (st st' : LeaseStore) : Type 0 where
  pub keys :
      (n : Bytes) (r : Record)
      → get n st.leases ≡ some r
      → (get n st'.leases ≡ some r)
        ⊎ ((get n st'.leases ≡ none) × In (as_delete (key_as_rr r.key_rr)) sent)
  pub records :
      (id : Bytes) (e : NonKeyRecord)
      → get id st.non_key_records ≡ some e
      → (get id st'.non_key_records ≡ some e)
        ⊎ ((get id st'.non_key_records ≡ none) × In (as_delete e.rr) sent)

-- The entry under a member of the keys of due records was sent.
sent_of :
    (st : LeaseStore) (rs : List DueRecord) (id : Bytes) (e : NonKeyRecord)
    → All (IsOwn st) rs
    → get id st.non_key_records ≡ some e
    → member id (map (λ r. r.rr_key) rs) ≡ true
    → In (as_delete e.rr) (record_deletes rs)
unfolding member record_deletes
sent_of st [] id e all h m = cc
sent_of st (r ∷ rs) id e all h m = elim (Bool-cases (same r.rr_key id)) [
  | inl q ↦
      inl (ap as_delete (it (all.0.entry) all.0.stored all.0.rr_lem ((same_iff r.rr_key id).0 q)))
  | inr q ↦ inr (sent_of st rs id e all.1 h (rw q at m))
]
  where
    it :
        (x : NonKeyRecord)
        → get r.rr_key st.non_key_records ≡ some x
        → x.rr ≡ r.rr
        → r.rr_key ≡ id
        → e.rr ≡ r.rr
    it x q p at_id = ground (arith, h, q, p, at_id)

-- Records that are removed one by one were sent.
pub DueGone-as_sent :
    (st st' : LeaseStore) (keys : List Key) (rs : List DueRecord)
    → All (IsOwn st) rs
    → DueGone rs st st'
    → GoneAsSent (as_deletes (map key_as_rr keys) ++ record_deletes rs) st st'
DueGone-as_sent st st' keys rs own g = record {
  keys = λ n r h. inl (ap (get n) g.leases ∙ h);
  records = λ id e h. elim (Bool-cases (member id (map (λ r. r.rr_key) rs))) [
    | inl m ↦ inr (
      rw m at (g.records id),
      In-append_right _ (as_deletes (map key_as_rr keys)) _ (sent_of st rs id e own h m),
    )
    | inr m ↦ inl ((rw m at (g.records id)) ∙ h)
  ];
}

module _ (lib : DnsLibrary) (node : Bytes) (st : LeaseStore) (w : IsWellFormed lib st)
    (normal : HasNormalOwners st) where
  -- Each node below the root is gone through, under its own name or the root's.
  gone_through :
      (j : Bytes)
      → Below st.children (normalize node) j
      → normalize j ≡ j
      → (x : Bytes) × In x (node ∷ list_subtree_keys node st) × (normalize x ≡ j)
  gone_through j b n = elim (Bool-cases (same (normalize node) j)) [
    | inl e ↦ (node, inl refl, (same_iff (normalize node) j).0 e)
    | inr e ↦ (j, inr (member-In j _ ((list_subtree_keys_iff node st j).1 (b, e))), n)
  ]

  key_normal : (n : Bytes) (r : Record) → get n st.leases ≡ some r → normalize n ≡ n
  unfolding node_key
  key_normal n r h =
      subst (λ k. normalize k ≡ k) ((w.keyed n r h).node)
        (normalize-node_key_from_sig r.key_rr.hdr.name r.key_rr.algorithm (lib.key_tag r.key_rr))

  key_sent :
      (n : Bytes) (r : Record)
      → Below st.children (normalize node) n
      → get n st.leases ≡ some r
      → In r.key_rr (subtree_leases st node).0
  unfolding subtree_leases get_record
  key_sent n r b h =
      let (x, i, at_n) = gone_through n b (key_normal n r h) in
      In-leases_of-key lib st w (node ∷ list_subtree_keys node st) x r i
        (ap (λ k. get k st.leases) at_n ∙ h)

  record_sent :
      (root : Record) (id : Bytes) (e : NonKeyRecord)
      → get (normalize node) st.leases ≡ some root
      → Below st.children (normalize node) id
      → get id st.non_key_records ≡ some e
      → In (as_delete e.rr) (record_deletes (subtree_leases st node).1)
  unfolding subtree_leases
  record_sent root id e is_key here h =
      let bad = w.disjoint (normalize node) in absurd (ground (arith, bad, is_key, h))
  record_sent root id e is_key (child {p} c b m) h =
      let at_p : e.parent_key_name ≡ p = parent_of lib st w p id e m h in
      let p_normal : normalize p ≡ p =
        subst (λ k. normalize k ≡ k) at_p (normal.of_records id e h) in
      let (x, i, at_x) = gone_through p b p_normal in
      In-record_deletes _ _ (
        In-leases_of lib st w (node ∷ list_subtree_keys node st) x id e i
          (ap (λ k. edge st.children k id) at_x ∙ m) h)

  -- A subtree that is deleted was sent.
  pub subtree-as_sent :
      (root : Record) (st' : LeaseStore)
      → get (normalize node) st.leases ≡ some root
      → DeletedExactly (normalize node) st st'
      → GoneAsSent
          (as_deletes (map key_as_rr (subtree_leases st node).0)
            ++ record_deletes (subtree_leases st node).1)
          st
          st'
  subtree-as_sent root st' is_key d = record {
    keys = λ n r h. elim (Bool-cases (member n (subtree_keys (normalize node) st))) [
      | inl m ↦
          let b = (subtree_keys_iff (normalize node) st n).0 m in
          inr ((d.gone n b).0, In-append_left _ _ _ (In-as_deletes _ _ (key_sent n r b h)))
      | inr m ↦ inl ((d.kept n (λ b. cc (m, (subtree_keys_iff (normalize node) st n).1 b))).0 ∙ h)
    ];
    records = λ id e h. elim (Bool-cases (member id (subtree_keys (normalize node) st))) [
      | inl m ↦
          let b = (subtree_keys_iff (normalize node) st id).0 m in
          inr (
            (d.gone id b).1,
            In-append_right _ (as_deletes (map key_as_rr (subtree_leases st node).0)) _
                (record_sent root id e is_key b h),
          )
      | inr m ↦ inl ((d.kept id (λ b. cc (m, (subtree_keys_iff (normalize node) st id).1 b))).1 ∙ h)
    ];
  }
