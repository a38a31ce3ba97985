-- ===== src/Store/Finding.antt =====
-- What the lookups of the store find.
use sig0lease.Base.{
  ℕ, ◌≡◌, refl, sym, ap, ◌∙◌, ◌↔◌, ◌⊎◌, inl, inr, true, false, Option, none, some, List, [], ◌∷◌,
  arith, Bool-cases, In, Bytes, same, same_refl, same_iff, Assoc, get, member,
}
use sig0lease.Name.{normalize}
use sig0lease.Dns.{DnsLibrary}
use sig0lease.Store.{Record, LeaseStore, values, is_expired, unexpired, found_records, find_by_name}
use sig0lease.Store.Edges.{edge}
use sig0lease.Store.Invariant.{IsWellFormed, is_named}

-- A record that one of the nodes has and that has not expired.
FoundAt : ℕ → List Bytes → Assoc Record → Record → Type 0
FoundAt now nodes leases r =
    (n : Bytes) × (member n nodes ≡ true) × (unexpired now (get n leases) ≡ some r)

found_records_iff :
    (now : ℕ) (nodes : List Bytes) (leases : Assoc Record) (r : Record)
    → In r (found_records now nodes leases) ↔ FoundAt now nodes leases r
unfolding found_records FoundAt member
found_records_iff now [] leases r = (λ i. absurd i, λ (n, m, u). cc)
found_records_iff now (k ∷ nodes) leases r =
    go (unexpired now (get k leases)) refl (found_records_iff now nodes leases r)
  where
    later :
        (n : Bytes)
        → member n nodes ≡ true
        → unexpired now (get n leases) ≡ some r
        → FoundAt now (k ∷ nodes) leases r
    later n m u = (n, ground (arith, m), u)

    go :
        (o : Option Record)
        → unexpired now (get k leases) ≡ o
        → In r (found_records now nodes leases) ↔ FoundAt now nodes leases r
        → In r (elim o [
          | none ↦ found_records now nodes leases
          | some s ↦ s ∷ found_records now nodes leases
        ])
          ↔ FoundAt now (k ∷ nodes) leases r
    go none e ih = (
      λ i. let (n, m, u) = ih.0 i in later n m u,
      λ (n, m, u). elim (Bool-cases (same k n)) [
        | inl q ↦
            let bad : none ≡ some r =
              sym e ∙ ap (λ j. unexpired now (get j leases)) ((same_iff k n).0 q) ∙ u in
            cc
        | inr q ↦ ih.1 (n, rw q at m, u)
      ],
    )
    go (some s) e ih = (
      λ i. first i,
      λ (n, m, u). elim (Bool-cases (same k n)) [
        | inl q ↦
            let is_s : some s ≡ some r =
              sym e ∙ ap (λ j. unexpired now (get j leases)) ((same_iff k n).0 q) ∙ u in
            inl (sym (some_eq is_s))
        | inr q ↦ inr (ih.1 (n, rw q at m, u))
      ],
    )
      where
        some_eq : some s ≡ some r → s ≡ r
        some_eq h = ground (arith, h)

        first : (r ≡ s) ⊎ In r (found_records now nodes leases) → FoundAt now (k ∷ nodes) leases r
        first (inl q) = (k, ground (arith, same_refl k), e ∙ ap some (sym q))
        first (inr i) = let (n, m, u) = ih.0 i in later n m u

unexpired_iff :
    (now : ℕ) (o : Option Record) (r : Record)
    → (unexpired now o ≡ some r) ↔ ((o ≡ some r) × (is_expired now r ≡ false))
unfolding unexpired
unexpired_iff now none r = (λ h. cc, λ h. cc (h.0))
unexpired_iff now (some s) r = elim (Bool-cases (is_expired now s)) [
  | inl e ↦ rw e (λ h. cc, λ (p, q). absurd (ground (arith, e, q, ap (is_expired now) (eq p))))
  | inr e ↦ rw e (λ h. (h, ap (is_expired now) (sym (eq h)) ∙ e), λ h. h.0)
]
  where
    eq : some s ≡ some r → s ≡ r
    eq h = ground (arith, h)

-- On a well-formed store, `FindByName` returns exactly the KEY records with that name, up to
-- US-ASCII case and the trailing dot, that have not expired.
pub find_by_name_iff :
    (lib : DnsLibrary) (now : ℕ) (name : Bytes) (st : LeaseStore) (r : Record)
    → IsWellFormed lib st
    → In r (find_by_name now name st) ↔ (
        (n : Bytes) × (get n st.leases ≡ some r)
        × (r.key_name ≡ normalize name)
        × (is_expired now r ≡ false))
unfolding find_by_name FoundAt
find_by_name_iff lib now name st r w =
    let iff = found_records_iff now (values (normalize name) st.name_idx) st.leases r in
    (
      λ i.
          let (n, m, u) = iff.0 i in
          let (g, live) = (unexpired_iff now (get n st.leases) r).0 u in
          let named : same r.key_name (normalize name) ≡ true =
            ap (is_named (normalize name)) (sym g) ∙ sym (w.names (normalize name) n) ∙ m in
          (n, g, (same_iff r.key_name (normalize name)).0 named, live),
      λ (n, g, e, live).
          let listed : edge st.name_idx (normalize name) n ≡ true =
            w.names (normalize name) n
            ∙ ap (is_named (normalize name)) g
            ∙ (same_iff r.key_name (normalize name)).1 e in
          iff.1 (n, listed, (unexpired_iff now (get n st.leases) r).1 (g, live)),
    )
