-- ===== src/Store/Invariant/Records.antt =====
-- Attaching and removing non-KEY records keep the invariant.
use sig0lease.Base.{
  ℕ, ◌≡◌, refl, sym, ap, ◌∙◌, subst, ◌⊎◌, inl, inr, true, false, ◌&&◌, Option, none, some, List, [],
  ◌∷◌, arith, if◌then◌else◌, Bool-cases, All, Bytes, same, same_iff, empty, get, put, Result, ok,
  err, ok-injective, ◌>>=◌, is_some,
}
use mathlib.Core.Path.{ap₂}
use sig0lease.Name.{normalize}
use sig0lease.Dns.{Rr, DnsLibrary}
use sig0lease.NodeKey.{record_key}
use sig0lease.Store.{NonKeyRecord, LeaseStore, StoreError, different_owner}
use sig0lease.Store.Edges.{edge, is_link, edge-attach}
use sig0lease.Store.NonKey.{
  refreshed, new_entry, owned_elsewhere, candidates, apply_found, apply_all, write_candidates,
  upsert_non_key_records,
}
use sig0lease.Store.Invariant.{IsWellFormed, is_child_of, at_put}

module _ (lib : DnsLibrary) (now : ℕ) (owner id : Bytes) (rr : Rr) (lease : ℕ) (zone : Bytes)
    (st : LeaseStore) where
  -- A record in place of one with the same owner, or a new one under its owner.
  apply_found-IsWellFormed :
      IsWellFormed lib st
      → get id st.leases ≡ none
      → IsWellFormed lib (apply_found lib now (get id st.non_key_records) owner id rr lease zone st)
  unfolding apply_found refreshed new_entry
  apply_found-IsWellFormed w free = go (get id st.non_key_records) refl
    where
      at_id : {A : Type 0} (f : Bytes → A) {c : Bytes} → same id c ≡ true → f c ≡ f id
      at_id f {c} e = ap f (sym ((same_iff id c).0 e))

      disjoint_after :
          (e : NonKeyRecord) (n : Bytes)
          → (is_some (get n st.leases) && is_some (get n (put id e st.non_key_records))) ≡ false
      disjoint_after e n =
          ap (λ b. is_some (get n st.leases) && b) (at_put is_some id e st.non_key_records n)
          ∙ pick (Bool-cases (same id n))
        where
          pick :
              (same id n ≡ true) ⊎ (same id n ≡ false)
              → (is_some (get n st.leases)
                  && (if same id n then true else is_some (get n st.non_key_records)))
                ≡ false
          pick (inl q) =
              rw q
                (ap (λ b. b && true) (at_id (λ c. is_some (get c st.leases)) q ∙ ap is_some free))
          pick (inr q) = rw q (w.disjoint n)

      child_after :
          (e : NonKeyRecord) (p c : Bytes)
          → is_child_of p (get c st.leases) (get c (put id e st.non_key_records))
            ≡ (if same id c then is_link e.parent_key_name p else edge st.children p c)
      child_after e p c =
          at_put (is_child_of p (get c st.leases)) id e st.non_key_records c
          ∙ pick (Bool-cases (same id c))
        where
          pick :
              (same id c ≡ true) ⊎ (same id c ≡ false)
              → (if same id c
                  then is_child_of p (get c st.leases) (some e)
                  else is_child_of p (get c st.leases) (get c st.non_key_records))
                ≡ (if same id c then is_link e.parent_key_name p else edge st.children p c)
          pick (inl q) = rw q (
              at_id (λ m. is_child_of p (get m st.leases) (some e)) q
              ∙ ap (λ o. is_child_of p o (some e)) free)
          pick (inr q) = rw q (sym (w.edges p c))

      edge_at :
          (o : Option NonKeyRecord) (p c : Bytes)
          → get id st.non_key_records ≡ o
          → same id c ≡ true
          → edge st.children p c ≡ is_child_of p none o
      edge_at o p c h e =
          at_id (edge st.children p) e ∙ w.edges p id ∙ ap₂ (λ r nk. is_child_of p r nk) free h

      go :
          (o : Option NonKeyRecord)
          → get id st.non_key_records ≡ o
          → IsWellFormed lib (apply_found lib now o owner id rr lease zone st)
      go none h = record {
        keyed = w.keyed;
        names = w.names;
        disjoint = disjoint_after (refreshed lib now rr lease zone (new_entry id owner rr));
        edges = λ p c.
            edge-attach id owner st.children p c
            ∙ elim (Bool-cases (same id c)) [
              | inl e ↦ rw (e, edge_at none p c h e) (ground arith)
              | inr e ↦ rw e (ground arith)
            ]
            ∙ sym (child_after (refreshed lib now rr lease zone (new_entry id owner rr)) p c);
      }
      go (some entry) h = record {
        keyed = w.keyed;
        names = w.names;
        disjoint = disjoint_after (refreshed lib now rr lease zone entry);
        edges = λ p c.
            elim (Bool-cases (same id c)) [
              | inl e ↦ rw e (edge_at (some entry) p c h e)
              | inr e ↦ rw e refl
            ]
            ∙ sym (child_after (refreshed lib now rr lease zone entry) p c);
      }

-- No KEY node has the identity of one of the records.
abbrev pub NoKeyAmong : DnsLibrary → LeaseStore → List (Option Rr) → Type 0
NoKeyAmong lib st [] = Unit
NoKeyAmong lib st (none ∷ rrs) = NoKeyAmong lib st rrs
NoKeyAmong lib st (some rr ∷ rrs) =
    (get (record_key lib rr) st.leases ≡ none) × NoKeyAmong lib st rrs

abbrev Free : LeaseStore → Bytes × Rr → Type 0
Free st c = get c.0 st.leases ≡ none

apply_found-leases :
    (lib : DnsLibrary) (now : ℕ) (o : Option NonKeyRecord) (owner id : Bytes) (rr : Rr) (lease : ℕ)
    (zone : Bytes) (st : LeaseStore)
    → (apply_found lib now o owner id rr lease zone st).leases ≡ st.leases
unfolding apply_found
apply_found-leases lib now none owner id rr lease zone st = refl
apply_found-leases lib now (some e) owner id rr lease zone st = refl

All-Free :
    (cs : List (Bytes × Rr)) (st st' : LeaseStore)
    → st'.leases ≡ st.leases
    → All (Free st) cs
    → All (Free st') cs
All-Free [] st st' e f = tt
All-Free (c ∷ cs) st st' e f = (ap (get c.0) e ∙ f.0, All-Free cs st st' e f.1)

module _ (lib : DnsLibrary) (now : ℕ) (owner : Bytes) (lease : ℕ) (zone : Bytes) where
  apply_all-IsWellFormed :
      (cs : List (Bytes × Rr)) (st : LeaseStore)
      → IsWellFormed lib st
      → All (Free st) cs
      → IsWellFormed lib (apply_all lib now owner lease zone cs st)
  unfolding apply_all
  apply_all-IsWellFormed [] st w f = w
  apply_all-IsWellFormed ((id, rr) ∷ cs) st w f =
      let st' = apply_found lib now (get id st.non_key_records) owner id rr lease zone st in
      apply_all-IsWellFormed cs st'
        (apply_found-IsWellFormed lib now owner id rr lease zone st w f.0)
        (All-Free cs st st' (apply_found-leases lib now _ owner id rr lease zone st) f.1)

  candidates-Free :
      (rrs : List (Option Rr)) (st : LeaseStore) (cs : List (Bytes × Rr))
      → NoKeyAmong lib st rrs
      → candidates lib owner rrs st ≡ ok cs
      → All (Free st) cs
  unfolding candidates
  candidates-Free [] st cs a h = subst (All (Free st)) (ok-injective h) tt
  candidates-Free (none ∷ rrs) st cs a h = candidates-Free rrs st cs a h
  candidates-Free (some rr ∷ rrs) st cs a h = elim (Bool-cases (empty (record_key lib rr))) [
    | inl e ↦ candidates-Free rrs st cs a.1 (rw e at h)
    | inr e ↦
        elim (Bool-cases (owned_elsewhere owner (get (record_key lib rr) st.non_key_records))) [
          | inl e' ↦ let bad : err different_owner ≡ ok cs = rw (e, e') at h in cc
          | inr e' ↦
              more (λ cs' q. candidates-Free rrs st cs' a.1 q) (candidates lib owner rrs st) refl
                (rw (e, e') at h)
        ]
  ]
    where
      more :
          ((cs' : List (Bytes × Rr)) → candidates lib owner rrs st ≡ ok cs' → All (Free st) cs')
          → (r : Result StoreError (List (Bytes × Rr))) → candidates lib owner rrs st ≡ r
          → (r >>= λ cs'. ok ((record_key lib rr, rr) ∷ cs')) ≡ ok cs
          → All (Free st) cs
      more later (err x) q h = cc
      more later (ok cs') q h = subst (All (Free st)) (ok-injective h) (a.0, later cs' q)

-- Attaching non-KEY records to an owner keeps the store well-formed, unless a KEY node has the
-- identity of one of them.
pub upsert_non_key_records-IsWellFormed :
    (lib : DnsLibrary) (now : ℕ) (owner : Bytes) (rrs : List (Option Rr)) (lease : ℕ) (zone : Bytes)
    (st : LeaseStore)
    → IsWellFormed lib st
    → NoKeyAmong lib st rrs
    → IsWellFormed lib (upsert_non_key_records lib now owner rrs lease zone st).1
unfolding upsert_non_key_records write_candidates
upsert_non_key_records-IsWellFormed lib now owner rrs lease zone st w a =
    elim (Bool-cases (empty (normalize owner))) [
      | inl e ↦ rw e w
      | inr e ↦ rw e (go (candidates lib (normalize owner) rrs st) refl)
    ]
  where
    go :
        (r : Result StoreError (List (Bytes × Rr)))
        → candidates lib (normalize owner) rrs st ≡ r
        → IsWellFormed lib
            (write_candidates lib now (normalize owner) lease (normalize zone) r st).1
    go (err x) q = w
    go (ok cs) q =
        apply_all-IsWellFormed lib now (normalize owner) lease (normalize zone) cs st w
          (candidates-Free lib now (normalize owner) lease zone rrs st cs a q)
