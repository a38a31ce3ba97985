-- ===== src/Store/Subtree/Deletion.antt =====
-- Deleting a subtree, node by node: each node leaves both maps and both indices.
use sig0lease.Base.{
  ◌≡◌, refl, sym, ap, ◌∙◌, ◌⊎◌, inl, inr, Bool, true, false, not, ◌&&◌, Option, none, some, List,
  [], ◌∷◌, arith, if◌then◌else◌, Bool-cases, Bytes, same, same_iff, Assoc, get, del, get-del,
  member, remove, member-remove, is_some,
}
use mathlib.Core.Path.{ap₂}
use sig0lease.Dns.{DnsLibrary}
use sig0lease.NodeKey.{node_key, node_key_name}
use sig0lease.NodeKey.Parse.{node_key_name-from_sig}
use sig0lease.Store.{Record, NonKeyRecord, LeaseStore, or_nil, detach_node, call_hook}
use sig0lease.Store.Edges.{edge, is_link, edge-put, edge-del, edge-detach}
use sig0lease.Store.Invariant.{IsKeyed, is_child_of, is_named, not_both}
use sig0lease.Store.Subtree.{unindexed, unindex, delete_found, delete_one}

edge-unindexed :
    (ns : List Bytes) (k : Bytes) (idx : Assoc (List Bytes)) (p c : Bytes)
    → edge (unindexed ns k idx) p c ≡ (if same k p then member c ns else edge idx p c)
unfolding unindexed member
edge-unindexed [] k idx p c = edge-del k idx p c ∙ go (same k p)
  where
    go : (b : Bool) → (not b && edge idx p c) ≡ (if b then member c [] else edge idx p c)
    go true = refl
    go false = refl
edge-unindexed (n ∷ ns) k idx p c = edge-put k (n ∷ ns) idx p c

edge-unindex :
    (n k : Bytes) (idx : Assoc (List Bytes)) (p c : Bytes)
    → edge (unindex (get k idx) n k idx) p c ≡ (not (same k p && same n c) && edge idx p c)
unfolding unindex member
edge-unindex n k idx p c = go (get k idx) refl (Bool-cases (same k p))
  where
    at_k :
        (o : Option (List Bytes))
        → get k idx ≡ o
        → same k p ≡ true
        → edge idx p c ≡ member c (or_nil o)
    at_k o h e = ap (λ j. edge idx j c) (sym ((same_iff k p).0 e)) ∙ ap (λ o. member c (or_nil o)) h

    go :
        (o : Option (List Bytes))
        → get k idx ≡ o
        → (same k p ≡ true) ⊎ (same k p ≡ false)
        → edge (unindex o n k idx) p c ≡ (not (same k p && same n c) && edge idx p c)
    go none h (inl e) = let q = at_k none h e in ground (arith, q)
    go (some []) h (inl e) = let q = at_k (some []) h e in ground (arith, q)
    go (some (x ∷ xs)) h (inl e) =
        rw (edge-unindexed (remove n (x ∷ xs)) k idx p c, e, at_k (some (x ∷ xs)) h e)
          (member-remove n (x ∷ xs) c)
    go none h (inr e) = rw e refl
    go (some []) h (inr e) = rw e refl
    go (some (x ∷ xs)) h (inr e) = rw (edge-unindexed (remove n (x ∷ xs)) k idx p c, e) refl

-- The invariant, but for the sets of children of the nodes that have gone.
pub record IsWellFormedBut (lib : DnsLibrary) (gone : Bytes → Bool) (st : LeaseStore) : Type 0 where
  pub keyed : (n : Bytes) (r : Record) → get n st.leases ≡ some r → IsKeyed lib n r
  pub edges :
      (p c : Bytes)
      → edge st.children p c
        ≡ (not (gone p) && is_child_of p (get c st.leases) (get c st.non_key_records))
  pub names : (name n : Bytes) → edge st.name_idx name n ≡ is_named name (get n st.leases)
  pub disjoint :
      (n : Bytes) → (is_some (get n st.leases) && is_some (get n st.non_key_records)) ≡ false

-- A map without some of its keys.
abbrev pub Without {ℓ} : {V : Type ℓ} → (Bytes → Bool) → Assoc V → Assoc V → Type ℓ
Without gone m m' = (id : Bytes) → get id m' ≡ (if gone id then none else get id m)

-- `st'` is `st` without the node `n`.
pub record Removed (lib : DnsLibrary) (n : Bytes) (st st' : LeaseStore) : Type 0 where
  pub leases : Without (same n) st.leases st'.leases
  pub records : Without (same n) st.non_key_records st'.non_key_records
  pub edges :
      (p c : Bytes)
      → edge st'.children p c ≡ (
          not (same n p)
          && (not (same n c && is_child_of p (get n st.leases) (get n st.non_key_records))
              && edge st.children p c))
  pub names :
      (name j : Bytes)
      → edge st'.name_idx name j
        ≡ (not (is_named name (get n st.leases) && same n j) && edge st.name_idx name j)

already_none {ℓ} : {V : Type ℓ} (n : Bytes) (m : Assoc V) → get n m ≡ none → Without (same n) m m
already_none n m h id = elim (Bool-cases (same n id)) [
  | inl e ↦ rw e (ap (λ j. get j m) (sym ((same_iff n id).0 e)) ∙ h)
  | inr e ↦ rw e refl
]

IsKeyed-node_key_name :
    (lib : DnsLibrary) (n : Bytes) (r : Record) → IsKeyed lib n r → node_key_name n ≡ r.key_name
unfolding node_key
IsKeyed-node_key_name lib n r k =
    ap node_key_name (sym k.node)
    ∙ node_key_name-from_sig r.key_rr.hdr.name r.key_rr.algorithm (lib.key_tag r.key_rr)
        (λ q. k.nonempty (k.name ∙ q))
    ∙ sym k.name

swap_and : (a b x : Bool) → (not (a && b) && x) ≡ (not (b && a) && x)
swap_and true true x = refl
swap_and true false x = refl
swap_and false true x = refl
swap_and false false x = refl

module _ (lib : DnsLibrary) (n : Bytes) (st : LeaseStore) where
  cut_edges :
      (b : Bool) (par p c : Bytes)
      → b ≡ is_link par p
      → edge (del n (detach_node n par st.children)) p c
        ≡ (not (same n p) && (not (same n c && b) && edge st.children p c))
  cut_edges b par p c h =
      edge-del n (detach_node n par st.children) p c
      ∙ ap (λ x. not (same n p) && x)
          (edge-detach n par st.children p c
            ∙ ap (λ y. not (y && same n c) && edge st.children p c) (sym h)
            ∙ swap_and b (same n c) (edge st.children p c))

  pub delete_one-Removed :
      ((r : Record) → get n st.leases ≡ some r → IsKeyed lib n r)
      → (is_some (get n st.leases) && is_some (get n st.non_key_records)) ≡ false
      → Removed lib n st (delete_one n st)
  unfolding delete_one delete_found call_hook
  delete_one-Removed keyed d = go (get n st.leases) (get n st.non_key_records) refl refl
    where
      go :
          (o : Option Record) (nk : Option NonKeyRecord)
          → get n st.leases ≡ o
          → get n st.non_key_records ≡ nk
          → Removed lib n st (
              let found = delete_found o nk n st in
              record found { children = del n found.children })
      go (some r) nk h g = record {
        leases = get-del n st.leases;
        records = already_none n st.non_key_records (not_both (get n st.leases) _ d h);
        edges = λ p c.
            cut_edges _ r.parent_key_name p c
              (ap (λ o. is_child_of p o (get n st.non_key_records)) h);
        names = λ name j.
            edge-unindex n (node_key_name n) st.name_idx name j
            ∙ ap (λ b. not (b && same n j) && edge st.name_idx name j)
                (ap (λ k. same k name) (IsKeyed-node_key_name lib n r (keyed r h))
                  ∙ sym (ap (is_named name) h));
      }
      go none (some x) h g = record {
        leases = already_none n st.leases h;
        records = get-del n st.non_key_records;
        edges = λ p c. cut_edges _ x.parent_key_name p c (ap₂ (λ o nk. is_child_of p o nk) h g);
        names = λ name j. rw h refl;
      }
      go none none h g = record {
        leases = already_none n st.leases h;
        records = already_none n st.non_key_records g;
        edges = λ p c.
            edge-del n st.children p c
            ∙ ap (λ b. not (same n p) && b)
                (rw (h, g) (drop_false (same n c) (edge st.children p c)));
        names = λ name j. rw h refl;
      }
        where
          drop_false : (b x : Bool) → x ≡ (not (b && false) && x)
          drop_false true x = refl
          drop_false false x = refl
