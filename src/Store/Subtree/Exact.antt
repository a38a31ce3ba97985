-- ===== src/Store/Subtree/Exact.antt =====
-- `DeleteSubtree` as a whole.
use sig0lease.Base.{
  ◌≡◌, refl, sym, ap, ◌∙◌, subst, ◌↔◌, ◌⊎◌, inl, inr, true, false, not, ◌&&◌, ◌||◌, Option, none,
  [], ◌∷◌, if◌then◌else◌, Bool-cases, Bytes, empty, get, member, Result, ok, err, ok-injective,
}
use sig0lease.Name.{normalize}
use sig0lease.Dns.{DnsLibrary}
use sig0lease.Store.{LeaseStore, StoreError, node_key_empty, or_nil}
use sig0lease.Store.Edges.{edge}
use sig0lease.Store.Invariant.{IsWellFormed, is_child_of}
use sig0lease.Store.Subtree.{
  collect, collect_fuel, longest_first, delete_each, subtree_keys, delete_subtree,
}
use sig0lease.Store.Subtree.Traversal.{Below, child, walk_ends, member-longest_first}
use sig0lease.Store.Subtree.Deletion.{IsWellFormedBut}
use sig0lease.Store.Subtree.Removal.{Gone, delete_each-Gone}

-- The keys that are deleted are the nodes of the subtree.
pub subtree_keys_iff :
    (root : Bytes) (st : LeaseStore) (j : Bytes)
    → (member j (subtree_keys root st) ≡ true) ↔ Below st.children root j
unfolding subtree_keys
subtree_keys_iff root st j =
    let (found, ends, exactly) = walk_ends st.children root in
    let keys : member j
          (longest_first (or_nil (collect (collect_fuel st.children) st.children (root ∷ []) [])))
        ≡ member j found =
      member-longest_first j _ ∙ ap (λ o. member j (or_nil o)) ends in
    (λ h. (exactly j).0 (sym keys ∙ h), λ b. keys ∙ (exactly j).1 b)

empty_iff : (s : Bytes) → empty s ≡ true → s ≡ []
unfolding empty
empty_iff [] h = refl
empty_iff (c ∷ s) h = cc

start :
    (lib : DnsLibrary) (st : LeaseStore) → IsWellFormed lib st → IsWellFormedBut lib (λ p. false) st
start lib st w = record { keyed = w.keyed; edges = w.edges; names = w.names; disjoint = w.disjoint }

module _ (lib : DnsLibrary) (root : Bytes) (st : LeaseStore) (w : IsWellFormed lib st) where
  all-Gone : Gone lib (λ p. false) (subtree_keys root st) st (delete_each (subtree_keys root st) st)
  all-Gone = delete_each-Gone lib (subtree_keys root st) (λ p. false) st (start lib st w)

  -- A node outside the subtree has no parent in it.
  no_gone_parent :
      (p c : Bytes)
      → (not (member p (subtree_keys root st) || false)
          && is_child_of p
              (get c (delete_each (subtree_keys root st) st).leases)
              (get c (delete_each (subtree_keys root st) st).non_key_records))
        ≡ is_child_of p
            (get c (delete_each (subtree_keys root st) st).leases)
            (get c (delete_each (subtree_keys root st) st).non_key_records)
  no_gone_parent p c =
      rw (all-Gone.leases c, all-Gone.records c)
        (pick (Bool-cases (member p (subtree_keys root st)))
          (Bool-cases (member c (subtree_keys root st))))
    where
      outside :
          member p (subtree_keys root st) ≡ true
          → member c (subtree_keys root st) ≡ false
          → edge st.children p c ≡ false
      outside inside h = elim (Bool-cases (edge st.children p c)) [
        | inr e ↦ e
        | inl e ↦
            let reached =
              (subtree_keys_iff root st c).1 (child c ((subtree_keys_iff root st p).0 inside) e) in
            cc (h, reached)
      ]

      pick :
          (member p (subtree_keys root st) ≡ true) ⊎ (member p (subtree_keys root st) ≡ false)
          → (member c (subtree_keys root st) ≡ true) ⊎ (member c (subtree_keys root st) ≡ false)
          → (not (member p (subtree_keys root st) || false)
              && is_child_of p
                  (if member c (subtree_keys root st) then none else get c st.leases)
                  (if member c (subtree_keys root st) then none else get c st.non_key_records))
            ≡ is_child_of p
                (if member c (subtree_keys root st) then none else get c st.leases)
                (if member c (subtree_keys root st) then none else get c st.non_key_records)
      pick (inl a) (inl b) = rw (a, b) refl
      pick (inl a) (inr b) = rw (a, b) (sym (outside a b) ∙ w.edges p c)
      pick (inr a) b = rw a refl

  subtree_gone-IsWellFormed : IsWellFormed lib (delete_each (subtree_keys root st) st)
  subtree_gone-IsWellFormed = record {
    keyed = all-Gone.but.keyed;
    edges = λ p c. all-Gone.but.edges p c ∙ no_gone_parent p c;
    names = all-Gone.but.names;
    disjoint = all-Gone.but.disjoint;
  }

-- The nodes of the subtree are gone from both maps, and all others are as they were.
pub record DeletedExactly (root : Bytes) (st st' : LeaseStore) : Type 0 where
  pub gone :
      (id : Bytes)
      → Below st.children root id
      → (get id st'.leases ≡ none) × (get id st'.non_key_records ≡ none)
  pub kept :
      (id : Bytes)
      → (Below st.children root id → ⊥)
      → (get id st'.leases ≡ get id st.leases)
        × (get id st'.non_key_records ≡ get id st.non_key_records)

abbrev pub DeleteOutcome : Bytes → LeaseStore → Result StoreError LeaseStore → Type 0
DeleteOutcome root st (ok st') = DeletedExactly root st st'
DeleteOutcome root st (err e) = (e ≡ node_key_empty) × (root ≡ [])

-- On a well-formed store, `DeleteSubtree` ends and removes exactly the KEY and non-KEY nodes that
-- are reached from the root over children, the root included, and fails only for an empty key.
pub delete_subtree-Outcome :
    (lib : DnsLibrary) (node : Bytes) (st : LeaseStore)
    → IsWellFormed lib st
    → DeleteOutcome (normalize node) st (delete_subtree node st)
unfolding delete_subtree
delete_subtree-Outcome lib node st w = elim (Bool-cases (empty (normalize node))) [
  | inl e ↦ rw e (refl, empty_iff (normalize node) e)
  | inr e ↦ rw e (record {
    gone = λ id b.
        let inside = (subtree_keys_iff (normalize node) st id).1 b in
        (gone_of _ id inside (all.leases id), gone_of _ id inside (all.records id));
    kept = λ id b.
        let outside : member id (subtree_keys (normalize node) st) ≡ false =
          elim (Bool-cases (member id (subtree_keys (normalize node) st))) [
            | inl m ↦ absurd (b ((subtree_keys_iff (normalize node) st id).0 m))
            | inr m ↦ m
          ] in
        (rw outside at (all.leases id), rw outside at (all.records id));
  })
]
  where
    all :
        Gone lib
          (λ p. false)
          (subtree_keys (normalize node) st)
          st
          (delete_each (subtree_keys (normalize node) st) st)
    all = all-Gone lib (normalize node) st w

    gone_of :
        {V : Type 0} (o : Option V) {o' : Option V} (id : Bytes)
        → member id (subtree_keys (normalize node) st) ≡ true
        → o' ≡ (if member id (subtree_keys (normalize node) st) then none else o)
        → o' ≡ none
    gone_of o id m h = rw m at h

-- Deleting a subtree keeps the store well-formed: no set of children and no name index is left
-- behind.
pub delete_subtree-IsWellFormed :
    (lib : DnsLibrary) (node : Bytes) (st st' : LeaseStore)
    → IsWellFormed lib st
    → delete_subtree node st ≡ ok st'
    → IsWellFormed lib st'
unfolding delete_subtree
delete_subtree-IsWellFormed lib node st st' w h = elim (Bool-cases (empty (normalize node))) [
  | inl e ↦ let bad : err node_key_empty ≡ ok st' = rw e at h in cc
  | inr e ↦
      subst (IsWellFormed lib) (ok-injective (rw e at h))
        (subtree_gone-IsWellFormed lib (normalize node) st w)
]
