-- ===== src/UpdateCore.antt =====
-- pkg/updatecore/ttl.go: the TTLs of the RRsets of an update. A Go map of groups is an
-- association list, and its keys are compared field by field.
pub mod Agreement
mod Tests
use sig0lease.Base.{
  ℕ, zero, suc, ◌+◌, ◌-◌, ◌*◌, ◌/◌, ◌%◌, ◌^◌, ◌≤◌, ◌<◌, min, max, ◌≡◌, refl, sym, ap, ◌∙◌, subst,
  ◌≢◌, ◌↔◌, ◌⊎◌, inl, inr, Bool, true, false, not, ◌&&◌, ◌||◌, Option, none, some, List, [], ◌∷◌,
  ◌++◌, map, append-nil, append_assoc, arith, ltb, leb, ◌==◌, if◌then◌else◌, leb→le, ltb→lt, ==_iff,
  ==_refl, Bool-cases, Option-cases, and_left, and_right, Bool-ext, length, get_elem?, take, drop,
  All, length-append, take-append-drop, length-drop, drop-append, All-append, Bytes, bytes, same,
  same_refl, same_iff, same_ne, empty, has_suffix, contains_byte, has_suffix_iff,
  contains_byte-append, Assoc, get, put, del, get-put, get-del, member, add, remove, member-add,
  member-remove, member-append, Result, ok, err, ok-injective, ◌>>=◌, ◌>>◌, refuse_if, is_some,
}
use sig0lease.Name.{normalize}
use sig0lease.Dns.{Rr, DnsLibrary}

pub record RrsetKey : Type 0 where
  pub name : Bytes
  pub class : ℕ
  pub rtype : ℕ

-- `keyFor`.
unfoldable pub rrset_key : DnsLibrary → Rr → RrsetKey
rrset_key lib rr = record {
  name = normalize rr.hdr.name;
  class = rr.hdr.class;
  rtype = lib.rr_type rr.rdata;
}

-- `==` on the keys.
unfoldable pub same_key : RrsetKey → RrsetKey → Bool
same_key j k = same j.name k.name && j.class == k.class && j.rtype == k.rtype

abbrev pub Groups : Type 0
Groups = List (RrsetKey × List Rr)

-- `groups[k] = append(groups[k], rr)`.
unfoldable pub append_group : RrsetKey → Rr → Groups → Groups
append_group k rr [] = (k, rr ∷ []) ∷ []
append_group k rr ((j, g) ∷ gs) =
    let rest = append_group k rr gs in
    if same_key j k then (j, g ++ (rr ∷ [])) ∷ gs else (j, g) ∷ rest

-- The loop of `groupRRsets`; a nil record is skipped.
unfoldable pub group_rrsets : DnsLibrary → List (Option Rr) → Groups → Groups
group_rrsets lib [] gs = gs
group_rrsets lib (none ∷ rrs) gs = group_rrsets lib rrs gs
group_rrsets lib (some rr ∷ rrs) gs = group_rrsets lib rrs (append_group (rrset_key lib rr) rr gs)

unfoldable pub all_ttl : ℕ → List Rr → Bool
all_ttl first [] = true
all_ttl first (rr ∷ rrs) = rr.hdr.ttl == first && all_ttl first rrs

-- A group of fewer than two records is passed over.
unfoldable pub consistent_group : List Rr → Bool
consistent_group [] = true
consistent_group (rr ∷ []) = true
consistent_group (rr ∷ s ∷ rrs) = all_ttl rr.hdr.ttl (s ∷ rrs)

unfoldable pub consistent_groups : Groups → Bool
consistent_groups [] = true
consistent_groups ((k, g) ∷ gs) = consistent_group g && consistent_groups gs

pub data TtlError : Type 0 where
  inconsistent_ttls : TtlError

unfoldable pub check_consistent_ttls : DnsLibrary → List (Option Rr) → Result TtlError (Unit {0})
check_consistent_ttls lib rrs =
    if consistent_groups (group_rrsets lib rrs []) then ok tt else err inconsistent_ttls
