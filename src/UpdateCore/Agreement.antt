-- ===== src/UpdateCore/Agreement.antt =====
-- `CheckConsistentTTLs` compares the TTLs of any two records of one RRset.
use sig0lease.Base.{
  ℕ, ◌≡◌, refl, sym, ap, ◌∙◌, subst, ◌↔◌, inl, inr, Bool, true, false, ◌&&◌, Option, none, some,
  List, [], ◌∷◌, ◌++◌, arith, ◌==◌, if◌then◌else◌, ==_refl, Bool-cases, and_left, and_right,
  Bool-ext, same_refl, same_iff, Result, ok, err,
}
use sig0lease.Dns.{Rr, DnsLibrary}
use sig0lease.UpdateCore.{
  RrsetKey, rrset_key, same_key, Groups, append_group, group_rrsets, all_ttl, consistent_group,
  consistent_groups, TtlError, inconsistent_ttls, check_consistent_ttls,
}

same_key→eq : (j k : RrsetKey) → same_key j k ≡ true → j ≡ k
unfolding same_key
same_key→eq j k h = λ i. record {
  name = (same_iff j.name k.name).0 (ground (arith, h)) i;
  class = class_eq i;
  rtype = rtype_eq i;
}
  where
    class_eq : j.class ≡ k.class
    class_eq = ground (arith, h)

    rtype_eq : j.rtype ≡ k.rtype
    rtype_eq = ground (arith, h)

same_key_refl : (k : RrsetKey) → same_key k k ≡ true
unfolding same_key
same_key_refl k = ground (arith, same_refl k.name, ==_refl k.class, ==_refl k.rtype)

eq→same_key : (j k : RrsetKey) → j ≡ k → same_key j k ≡ true
eq→same_key j k e = subst (λ x. same_key j x ≡ true) e (same_key_refl j)

same_key_sym : (j k : RrsetKey) → same_key j k ≡ same_key k j
same_key_sym j k =
    Bool-ext (same_key j k) (same_key k j) (λ h. eq→same_key k j (sym (same_key→eq j k h)))
      (λ h. eq→same_key j k (sym (same_key→eq k j h)))

-- The TTL that the first record of a group has.
abbrev first_ttl : List Rr → Option ℕ
first_ttl [] = none
first_ttl (rr ∷ rrs) = some rr.hdr.ttl

group_ttl : RrsetKey → Groups → Option ℕ
group_ttl k [] = none
group_ttl k ((j, g) ∷ gs) = if same_key j k then first_ttl g else group_ttl k gs

abbrev fits : Option ℕ → ℕ → Bool
fits none t = true
fits (some f) t = t == f

abbrev or_ttl : Option ℕ → ℕ → Option ℕ
or_ttl none t = some t
or_ttl (some f) t = some f

all_ttl-append :
    (f : ℕ) (g : List Rr) (rr : Rr) → all_ttl f (g ++ (rr ∷ [])) ≡ (all_ttl f g && rr.hdr.ttl == f)
unfolding all_ttl
all_ttl-append f [] rr = ground arith
all_ttl-append f (x ∷ g) rr = ground (arith, all_ttl-append f g rr)

consistent_group-append :
    (g : List Rr) (rr : Rr)
    → consistent_group (g ++ (rr ∷ [])) ≡ (consistent_group g && fits (first_ttl g) rr.hdr.ttl)
unfolding consistent_group all_ttl
consistent_group-append [] rr = refl
consistent_group-append (x ∷ []) rr = ground arith
consistent_group-append (x ∷ y ∷ g) rr = all_ttl-append x.hdr.ttl (y ∷ g) rr

first_ttl-append :
    (g : List Rr) (rr : Rr) → first_ttl (g ++ (rr ∷ [])) ≡ or_ttl (first_ttl g) rr.hdr.ttl
first_ttl-append [] rr = refl
first_ttl-append (x ∷ g) rr = refl

and_swap : (a b c : Bool) → ((a && b) && c) ≡ ((a && c) && b)
and_swap true true c = ground arith
and_swap true false c = ground arith
and_swap false b c = refl

consistent_groups-append :
    (k : RrsetKey) (rr : Rr) (gs : Groups)
    → consistent_groups (append_group k rr gs)
      ≡ (consistent_groups gs && fits (group_ttl k gs) rr.hdr.ttl)
unfolding consistent_groups append_group group_ttl consistent_group
consistent_groups-append k rr [] = refl
consistent_groups-append k rr ((j, g) ∷ gs) = elim (Bool-cases (same_key j k)) [
  | inl e ↦
      rw (e, consistent_group-append g rr)
        (and_swap (consistent_group g) (fits (first_ttl g) rr.hdr.ttl) (consistent_groups gs))
  | inr e ↦ rw e (ground (arith, consistent_groups-append k rr gs))
]

group_ttl-append :
    (k j : RrsetKey) (rr : Rr) (gs : Groups)
    → group_ttl j (append_group k rr gs)
      ≡ (if same_key k j then or_ttl (group_ttl j gs) rr.hdr.ttl else group_ttl j gs)
unfolding append_group group_ttl
group_ttl-append k j rr [] = refl
group_ttl-append k j rr ((i, g) ∷ gs) = elim (Bool-cases (same_key i k)) [
  | inl e ↦
      let ik : i ≡ k = same_key→eq i k e in
      let same_j : same_key i j ≡ same_key k j = ap (λ x. same_key x j) ik in
      rw (e, same_j)
        (elim (Bool-cases (same_key k j)) [
          | inl q ↦ rw q (first_ttl-append g rr)
          | inr q ↦ rw q refl
        ])
  | inr e ↦ rw e (elim (Bool-cases (same_key i j)) [
    | inl q ↦
        let ij : i ≡ j = same_key→eq i j q in
        let apart : same_key k j ≡ false = same_key_sym k j ∙ ap (λ x. same_key x k) (sym ij) ∙ e in
        rw (q, apart) refl
    | inr q ↦ rw q (group_ttl-append k j rr gs)
  ])
]

-- No record of a list has the RRset of the first and another TTL.
abbrev AgreeWith : DnsLibrary → Rr → List (Option Rr) → Type 0
AgreeWith lib x [] = Unit
AgreeWith lib x (none ∷ ys) = AgreeWith lib x ys
AgreeWith lib x (some y ∷ ys) =
    (same_key (rrset_key lib x) (rrset_key lib y) ≡ true → x.hdr.ttl ≡ y.hdr.ttl)
    × AgreeWith lib x ys

-- Any two records of one RRset have one TTL.
abbrev pub PairwiseAgree : DnsLibrary → List (Option Rr) → Type 0
PairwiseAgree lib [] = Unit
PairwiseAgree lib (none ∷ xs) = PairwiseAgree lib xs
PairwiseAgree lib (some x ∷ xs) = AgreeWith lib x xs × PairwiseAgree lib xs

abbrev FitAll : DnsLibrary → Groups → List (Option Rr) → Type 0
FitAll lib gs [] = Unit
FitAll lib gs (none ∷ xs) = FitAll lib gs xs
FitAll lib gs (some x ∷ xs) =
    (fits (group_ttl (rrset_key lib x) gs) x.hdr.ttl ≡ true) × FitAll lib gs xs

fits-or_ttl :
    (o : Option ℕ) (t u : ℕ)
    → fits o t ≡ true
    → (fits (or_ttl o t) u ≡ true) ↔ ((fits o u ≡ true) × (t ≡ u))
fits-or_ttl none t u h = (λ e. (refl, ground arith), λ e. ground arith)
fits-or_ttl (some f) t u h = (λ e. (e, ground arith), λ e. e.0)

module _ (lib : DnsLibrary) (x : Rr) (gs : Groups)
    (ok_x : fits (group_ttl (rrset_key lib x) gs) x.hdr.ttl ≡ true) where
  fits-append :
      (y : Rr)
      → (fits (group_ttl (rrset_key lib y) (append_group (rrset_key lib x) x gs)) y.hdr.ttl ≡ true)
        ↔ ((fits (group_ttl (rrset_key lib y) gs) y.hdr.ttl ≡ true)
            × (same_key (rrset_key lib x) (rrset_key lib y) ≡ true → x.hdr.ttl ≡ y.hdr.ttl))
  fits-append y =
      rw (group_ttl-append (rrset_key lib x) (rrset_key lib y) x gs)
        (elim (Bool-cases (same_key (rrset_key lib x) (rrset_key lib y))) [
          | inr e ↦ rw e (λ h. (h, λ q. cc), λ h. h.0)
          | inl e ↦
              let at_y : fits (group_ttl (rrset_key lib y) gs) x.hdr.ttl ≡ true =
                ap (λ k. fits (group_ttl k gs) x.hdr.ttl) (sym (same_key→eq _ _ e)) ∙ ok_x in
              let both = fits-or_ttl (group_ttl (rrset_key lib y) gs) x.hdr.ttl y.hdr.ttl at_y in
              rw e (λ h. ((both.0 h).0, λ q. (both.0 h).1), λ h. both.1 (h.0, h.1 refl))
        ])

  FitAll-append :
      (ys : List (Option Rr))
      → FitAll lib (append_group (rrset_key lib x) x gs) ys
        ↔ (FitAll lib gs ys × AgreeWith lib x ys)
  FitAll-append [] = (λ h. (tt, tt), λ h. tt)
  FitAll-append (none ∷ ys) = FitAll-append ys
  FitAll-append (some y ∷ ys) =
      let one = fits-append y in
      let rest = FitAll-append ys in
      (
        λ h. (((one.0 h.0).0, (rest.0 h.1).0), ((one.0 h.0).1, (rest.0 h.1).1)),
        λ h. (one.1 (h.0.0, h.1.0), rest.1 (h.0.1, h.1.1)),
      )

and_intro : (a b : Bool) → a ≡ true → b ≡ true → (a && b) ≡ true
and_intro a b h k = ground arith

group_rrsets_iff :
    (lib : DnsLibrary) (xs : List (Option Rr)) (gs : Groups)
    → (consistent_groups (group_rrsets lib xs gs) ≡ true)
      ↔ ((consistent_groups gs ≡ true) × (FitAll lib gs xs × PairwiseAgree lib xs))
unfolding group_rrsets
group_rrsets_iff lib [] gs = (λ h. (h, (tt, tt)), λ h. h.0)
group_rrsets_iff lib (none ∷ xs) gs = group_rrsets_iff lib xs gs
group_rrsets_iff lib (some x ∷ xs) gs =
    let k = rrset_key lib x in
    let ih = group_rrsets_iff lib xs (append_group k x gs) in
    let split = consistent_groups-append k x gs in
    (
      λ h.
          let all = ih.0 h in
          let both = sym split ∙ all.0 in
          let fit = and_right _ _ both in
          let parts = (FitAll-append lib x gs fit xs).0 all.1.0 in
          (and_left _ _ both, ((fit, parts.0), (parts.1, all.1.1))),
      λ h.
          let both = split ∙ and_intro _ _ h.0 h.1.0.0 in
          ih.1 (both, ((FitAll-append lib x gs h.1.0.0 xs).1 (h.1.0.1, h.1.1.0), h.1.1.1)),
    )

all_fit_none : (lib : DnsLibrary) (xs : List (Option Rr)) → FitAll lib [] xs
unfolding group_ttl
all_fit_none lib [] = tt
all_fit_none lib (none ∷ xs) = all_fit_none lib xs
all_fit_none lib (some x ∷ xs) = (refl, all_fit_none lib xs)

-- `CheckConsistentTTLs` accepts a list of records exactly if any two of them with one owner name
-- (up to US-ASCII case and the trailing dot), one class and one type have one TTL.
pub check_consistent_ttls_iff :
    (lib : DnsLibrary) (rrs : List (Option Rr))
    → (check_consistent_ttls lib rrs ≡ ok tt) ↔ PairwiseAgree lib rrs
unfolding check_consistent_ttls consistent_groups
check_consistent_ttls_iff lib rrs =
    let iff = group_rrsets_iff lib rrs [] in
    (
      λ h. (iff.0 (accepted (consistent_groups (group_rrsets lib rrs [])) h)).1.1,
      λ p. rw (iff.1 (refl, (all_fit_none lib rrs, p))) refl,
    )
  where
    accepted :
        (b : Bool)
        → Path (Result TtlError (Unit {0})) (if b then ok tt else err inconsistent_ttls) (ok tt)
        → b ≡ true
    accepted true h = refl
    accepted false h = cc
