-- ===== src/Store/Invariant.antt =====
-- The invariant of the lease store: its three indices agree with its two maps of nodes.
pub mod Keys
pub mod Records
pub mod Removal
use sig0lease.Base.{
  ℕ, zero, suc, ◌+◌, ◌-◌, ◌*◌, ◌/◌, ◌%◌, ◌^◌, ◌≤◌, ◌<◌, min, max, ◌≡◌, refl, sym, ap, ◌∙◌, subst,
  ◌≢◌, ◌↔◌, ◌⊎◌, inl, inr, Bool, true, false, not, ◌&&◌, ◌||◌, Option, none, some, List, [], ◌∷◌,
  ◌++◌, map, append-nil, append_assoc, arith, ltb, leb, ◌==◌, if◌then◌else◌, leb→le, ltb→lt, ==_iff,
  ==_refl, Bool-cases, Option-cases, and_left, and_right, Bool-ext, length, get_elem?, take, drop,
  All, length-append, take-append-drop, length-drop, drop-append, All-append, Bytes, bytes, same,
  same_refl, same_iff, same_ne, empty, has_suffix, contains_byte, has_suffix_iff,
  contains_byte-append, Assoc, get, put, del, get-put, get-del, member, add, remove, member-add,
  member-remove, member-append, Result, ok, err, ◌>>=◌, ◌>>◌, refuse_if, is_some,
}
use sig0lease.Name.{normalize}
use sig0lease.Dns.{DnsLibrary}
use sig0lease.NodeKey.{node_key}
use sig0lease.NodeKey.Parse.{node_key_from_sig-name}
use sig0lease.Store.{Record, NonKeyRecord, LeaseStore, values}
use sig0lease.Store.Edges.{edge, is_link}

-- What the maps say of a node: it is a child of `p`.
abbrev pub is_child_of : Bytes → Option Record → Option NonKeyRecord → Bool
is_child_of p (some r) nk = is_link r.parent_key_name p
is_child_of p none (some e) = is_link e.parent_key_name p
is_child_of p none none = false

-- It is a KEY node with this name.
abbrev pub is_named : Bytes → Option Record → Bool
is_named name none = false
is_named name (some r) = same r.key_name name

-- A KEY record is stored under the node key of its KEY, with that KEY's name.
pub record IsKeyed (lib : DnsLibrary) (n : Bytes) (r : Record) : Type 0 where
  pub node : node_key lib r.key_rr ≡ n
  pub name : r.key_name ≡ normalize r.key_rr.hdr.name
  pub nonempty : r.key_name ≢ []

-- Each KEY record is keyed; a node is a child of exactly the parent that its record names; the
-- name index lists exactly the KEY nodes with each name; no KEY node is a non-KEY node.
pub record IsWellFormed (lib : DnsLibrary) (st : LeaseStore) : Type 0 where
  pub keyed : (n : Bytes) (r : Record) → get n st.leases ≡ some r → IsKeyed lib n r
  pub edges :
      (p c : Bytes)
      → edge st.children p c ≡ is_child_of p (get c st.leases) (get c st.non_key_records)
  pub names : (name n : Bytes) → edge st.name_idx name n ≡ is_named name (get n st.leases)
  pub disjoint :
      (n : Bytes) → (is_some (get n st.leases) && is_some (get n st.non_key_records)) ≡ false

-- Two records under one node key have one name.
pub IsKeyed-name :
    (lib : DnsLibrary) (n : Bytes) (r s : Record)
    → IsKeyed lib n r
    → node_key lib s.key_rr ≡ n
    → r.key_name ≡ normalize s.key_rr.hdr.name
unfolding node_key
IsKeyed-name lib n r s h e =
    h.name
    ∙ node_key_from_sig-name r.key_rr.hdr.name s.key_rr.hdr.name r.key_rr.algorithm
        s.key_rr.algorithm (lib.key_tag r.key_rr) (lib.key_tag s.key_rr)
        (λ q. h.nonempty (h.name ∙ q)) (h.node ∙ sym e)

module _ {ℓ κ} {V : Type ℓ} {A : Type κ} (f : Option V → A) where
  pub at_put :
      (k : Bytes) (v : V) (m : Assoc V) (j : Bytes)
      → f (get j (put k v m)) ≡ (if same k j then f (some v) else f (get j m))
  at_put k v m j = ap f (get-put k v m j) ∙ go (same k j)
    where
      go : (b : Bool) → f (if b then some v else get j m) ≡ (if b then f (some v) else f (get j m))
      go true = refl
      go false = refl

  pub at_del :
      (k : Bytes) (m : Assoc V) (j : Bytes)
      → f (get j (del k m)) ≡ (if same k j then f none else f (get j m))
  at_del k m j = ap f (get-del k m j) ∙ go (same k j)
    where
      go : (b : Bool) → f (if b then none else get j m) ≡ (if b then f none else f (get j m))
      go true = refl
      go false = refl

-- A node without a KEY record, from the invariant's disjointness.
pub not_both :
    (o : Option Record) (nk : Option NonKeyRecord) {r : Record}
    → (is_some o && is_some nk) ≡ false
    → o ≡ some r
    → nk ≡ none
not_both none nk h e = cc
not_both (some r) none h e = refl
not_both (some r) (some x) h e = cc

pub no_key :
    (o : Option Record) (nk : Option NonKeyRecord) {x : NonKeyRecord}
    → (is_some o && is_some nk) ≡ false
    → nk ≡ some x
    → o ≡ none
no_key none nk h e = refl
no_key (some r) none h e = cc
no_key (some r) (some x) h e = cc
