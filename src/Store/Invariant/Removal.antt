-- ===== src/Store/Invariant/Removal.antt =====
-- Removing non-KEY records keeps the invariant, and removes exactly those.
use sig0lease.Base.{
  ◌≡◌, refl, sym, ap, ◌∙◌, subst, ◌↔◌, ◌⊎◌, inl, inr, Bool, true, false, not, ◌&&◌, ◌||◌, Option,
  none, some, List, [], ◌∷◌, arith, if◌then◌else◌, Bool-cases, Bytes, same, same_refl, same_iff,
  Assoc, get, del, get-del, member, ok, err, ok-injective, is_some,
}
use mathlib.Core.Path.{ap₂}
use sig0lease.Name.{normalize}
use sig0lease.Dns.{DnsLibrary}
use sig0lease.Store.{Record, NonKeyRecord, LeaseStore, different_owner, values}
use sig0lease.Store.Edges.{edge, is_link, edge-store_kids, edge-detach_known}
use sig0lease.Store.NonKey.{
  drop_records, key_kids, remove_non_key_records, remove_found, remove_single_non_key_record,
}
use sig0lease.Store.Invariant.{IsWellFormed, is_child_of, no_key}

get-drop_records :
    (kids : List Bytes) (m : Assoc NonKeyRecord) (j : Bytes)
    → get j (drop_records kids m) ≡ (if member j kids then none else get j m)
unfolding drop_records member
get-drop_records [] m j = refl
get-drop_records (k ∷ kids) m j =
    get-drop_records kids (del k m) j ∙ pick (Bool-cases (member j kids)) (Bool-cases (same k j))
  where
    pick :
        (member j kids ≡ true) ⊎ (member j kids ≡ false)
        → (same k j ≡ true) ⊎ (same k j ≡ false)
        → (if member j kids then none else get j (del k m))
          ≡ (if same k j || member j kids then none else get j m)
    pick (inl a) (inl b) = rw (a, b) refl
    pick (inl a) (inr b) = rw (a, b) refl
    pick (inr a) (inl b) = rw (a, b) (get-del k m j ∙ rw b refl)
    pick (inr a) (inr b) = rw (a, b) (get-del k m j ∙ rw b refl)

member-key_kids :
    (kids : List Bytes) (m : Assoc NonKeyRecord) (j : Bytes)
    → member j (key_kids kids m) ≡ (member j kids && not (is_some (get j m)))
unfolding key_kids member
member-key_kids [] m j = refl
member-key_kids (k ∷ kids) m j =
    go (get k m) refl (Bool-cases (same k j)) (member-key_kids kids m j)
  where
    go :
        (o : Option NonKeyRecord)
        → get k m ≡ o
        → (same k j ≡ true) ⊎ (same k j ≡ false)
        → member j (key_kids kids m) ≡ (member j kids && not (is_some (get j m)))
        → member j (elim o [ none ↦ k ∷ key_kids kids m | some r ↦ key_kids kids m ])
          ≡ ((same k j || member j kids) && not (is_some (get j m)))
    go none h (inl e) ih =
        let q : get j m ≡ none = ap (λ i. get i m) (sym ((same_iff k j).0 e)) ∙ h in rw (e, q) refl
    go none h (inr e) ih = rw e ih
    go (some r) h (inl e) ih =
        let q : get j m ≡ some r = ap (λ i. get i m) (sym ((same_iff k j).0 e)) ∙ h in
        ground (arith, ih, ap is_some q)
    go (some r) h (inr e) ih = rw e ih

module _ (lib : DnsLibrary) (owner : Bytes) (st : LeaseStore) where
  link_of : (par p : Bytes) → is_link par owner ≡ true → is_link par p ≡ same owner p
  link_of par p h = ground (arith, same_iff par owner, same_iff par p, same_iff owner p)

  kids_edge :
      (p c : Bytes) (o : Option Record) (nk : Option NonKeyRecord)
      → (is_some o && is_some nk) ≡ false
      → edge st.children p c ≡ is_child_of p o nk
      → edge st.children owner c ≡ is_child_of owner o nk
      → (if same owner p
          then edge st.children owner c && not (is_some nk)
          else edge st.children p c)
        ≡ is_child_of p o (if edge st.children owner c then none else nk)
  kids_edge p c none none d e e' = rw (e, e') (ground arith)
  kids_edge p c (some r) none d e e' = elim (Bool-cases (same owner p)) [
    | inl q ↦
        rw (e', ap (is_link r.parent_key_name) (sym ((same_iff owner p).0 q)), q)
          (ground (arith, same_refl owner))
    | inr q ↦ rw (q, e) refl
  ]
  kids_edge p c (some r) (some x) d e e' = cc
  kids_edge p c none (some x) d e e' = elim (Bool-cases (is_link x.parent_key_name owner)) [
    | inl q ↦ rw (e', q, e) (ground (arith, link_of x.parent_key_name p q))
    | inr q ↦
        rw (e', q, e)
          (elim (Bool-cases (same owner p)) [
            | inl s ↦ rw s (sym q ∙ ap (is_link x.parent_key_name) ((same_iff owner p).0 s))
            | inr s ↦ rw s refl
          ])
  ]

if_none-is_some :
    (o : Option Record) (b : Bool) (nk : Option NonKeyRecord)
    → (is_some o && is_some nk) ≡ false
    → (is_some o && is_some (if b then none else nk)) ≡ false
if_none-is_some none b nk h = refl
if_none-is_some (some r) true nk h = refl
if_none-is_some (some r) false nk h = h

-- Removing all non-KEY records of an owner keeps the store well-formed.
pub remove_non_key_records-IsWellFormed :
    (lib : DnsLibrary) (owner : Bytes) (st : LeaseStore)
    → IsWellFormed lib st
    → IsWellFormed lib (remove_non_key_records owner st)
unfolding remove_non_key_records
remove_non_key_records-IsWellFormed lib owner st w =
    let o = normalize owner in
    let kids = values o st.children in
    record {
      keyed = w.keyed;
      names = w.names;
      edges = λ p c.
          edge-store_kids o (key_kids kids st.non_key_records) st.children p c
          ∙ ap (λ b. if same o p then b else edge st.children p c)
              (member-key_kids kids st.non_key_records c)
          ∙ kids_edge lib o st p c (get c st.leases) (get c st.non_key_records) (w.disjoint c)
              (w.edges p c) (w.edges o c)
          ∙ ap (is_child_of p (get c st.leases)) (sym (get-drop_records kids st.non_key_records c));
      disjoint = λ n.
          ap (λ x. is_some (get n st.leases) && is_some x)
            (get-drop_records kids st.non_key_records n)
          ∙ if_none-is_some (get n st.leases) (member n kids) (get n st.non_key_records)
              (w.disjoint n);
    }

-- Removing the non-KEY records of an owner removes exactly the non-KEY records that name it as
-- their owner: every other record stays, and so do all KEY records.
pub remove_non_key_records-exactly :
    (lib : DnsLibrary) (owner : Bytes) (st : LeaseStore)
    → IsWellFormed lib st
    → ((id : Bytes) (e : NonKeyRecord)
        → (get id (remove_non_key_records owner st).non_key_records ≡ some e) ↔ (
            (get id st.non_key_records ≡ some e)
            × (is_link e.parent_key_name (normalize owner) ≡ false)))
      × ((remove_non_key_records owner st).leases ≡ st.leases)
unfolding remove_non_key_records
remove_non_key_records-exactly lib owner st w =
    (λ id e. exactly id e (get id st.non_key_records) refl, refl)
  where
    o : Bytes
    o = normalize owner

    child_test :
        (id : Bytes) (x : NonKeyRecord)
        → get id st.non_key_records ≡ some x
        → member id (values o st.children) ≡ is_link x.parent_key_name o
    child_test id x q =
        w.edges o id
        ∙ ap₂ (λ r nk. is_child_of o r nk) (no_key (get id st.leases) _ (w.disjoint id) q) q

    dropped :
        (id : Bytes) (x : Option NonKeyRecord)
        → get id st.non_key_records ≡ x
        → get id (drop_records (values o st.children) st.non_key_records)
          ≡ (if member id (values o st.children) then none else x)
    dropped id x q =
        get-drop_records (values o st.children) st.non_key_records id
        ∙ ap (λ y. if member id (values o st.children) then none else y) q

    exactly :
        (id : Bytes) (e : NonKeyRecord) (x : Option NonKeyRecord)
        → get id st.non_key_records ≡ x
        → (get id (drop_records (values o st.children) st.non_key_records) ≡ some e)
          ↔ ((get id st.non_key_records ≡ some e) × (is_link e.parent_key_name o ≡ false))
    exactly id e none q =
        rw (dropped id none q, q)
          (elim (Bool-cases (member id (values o st.children))) [
            | inl m ↦ rw m (λ h. cc, λ h. cc (h.0))
            | inr m ↦ rw m (λ h. cc, λ h. cc (h.0))
          ])
    exactly id e (some x) q =
        rw (dropped id (some x) q, q, child_test id x q)
          (elim (Bool-cases (is_link x.parent_key_name o)) [
            | inl m ↦ rw m (λ h. cc, λ h. absurd (ground (arith, m, h.0, h.1)))
            | inr m ↦ rw m (λ h. (h, ground (arith, m, h)), λ h. h.0)
          ])

link_only :
    (par owner p : Bytes) → same par owner ≡ true → is_link par p ≡ true → same owner p ≡ true
link_only par owner p e h = ground (arith, same_iff par owner, same_iff par p, same_iff owner p)

-- Removing one record keeps the store well-formed.
pub remove_single-IsWellFormed :
    (lib : DnsLibrary) (owner id : Bytes) (st st' : LeaseStore)
    → IsWellFormed lib st
    → remove_single_non_key_record owner id st ≡ ok st'
    → IsWellFormed lib st'
unfolding remove_single_non_key_record remove_found
remove_single-IsWellFormed lib owner id st st' w h = go (get id st.non_key_records) refl h
  where
    o : Bytes
    o = normalize owner

    one_edge :
        (x : NonKeyRecord) (p c : Bytes)
        → get id st.non_key_records ≡ some x
        → same x.parent_key_name o ≡ true
        → (not (same o p && same id c) && edge st.children p c)
          ≡ is_child_of p (get c st.leases) (if same id c then none else get c st.non_key_records)
    one_edge x p c q e = elim (Bool-cases (same id c)) [
      | inl s ↦
          let key_free : get c st.leases ≡ none =
            ap (λ j. get j st.leases) (sym ((same_iff id c).0 s))
            ∙ no_key (get id st.leases) _ (w.disjoint id) q in
          let at_c : get c st.non_key_records ≡ some x =
            ap (λ j. get j st.non_key_records) (sym ((same_iff id c).0 s)) ∙ q in
          let was : edge st.children p c ≡ is_link x.parent_key_name p =
            w.edges p c ∙ ap₂ (λ r nk. is_child_of p r nk) key_free at_c in
          rw (s, key_free, was) (ground (arith, link_only x.parent_key_name o p e))
      | inr s ↦ rw s (ap (λ b. not b && edge st.children p c) (and_false (same o p)) ∙ w.edges p c)
    ]
      where
        and_false : (b : Bool) → (b && false) ≡ false
        and_false true = refl
        and_false false = refl

    go :
        (x : Option NonKeyRecord)
        → get id st.non_key_records ≡ x
        → remove_found x o id st ≡ ok st'
        → IsWellFormed lib st'
    go none q h = subst (IsWellFormed lib) (ok-injective h) w
    go (some x) q h = elim (Bool-cases (same x.parent_key_name o)) [
      | inr e ↦ let bad : err different_owner ≡ ok st' = rw e at h in cc
      | inl e ↦ subst (IsWellFormed lib) (ok-injective (rw e at h)) (record {
        keyed = w.keyed;
        names = w.names;
        edges = λ p c.
            edge-detach_known id o st.children p c
            ∙ one_edge x p c q e
            ∙ ap (is_child_of p (get c st.leases)) (sym (get-del id st.non_key_records c));
        disjoint = λ n.
            ap (λ y. is_some (get n st.leases) && is_some y) (get-del id st.non_key_records n)
            ∙ if_none-is_some (get n st.leases) (same id n) (get n st.non_key_records)
                (w.disjoint n);
      })
    ]
