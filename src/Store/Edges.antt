-- ===== src/Store/Edges.antt =====
-- Who is a child of whom in the tree of leases.
use sig0lease.Base.{
  ◌≡◌, refl, sym, ap, ◌∙◌, ◌⊎◌, inl, inr, Bool, true, false, not, ◌&&◌, ◌||◌, Option, none, some,
  List, [], ◌∷◌, arith, if◌then◌else◌, Bool-cases, Bytes, same, same_refl, same_iff, empty, Assoc,
  get, put, del, get-put, get-del, member, add, remove, member-add, member-remove,
}
use sig0lease.Store.{attach_node, store_kids, detach_known, detach_node, values, or_nil}

-- `c` is in the set of children of `p`.
abbrev pub edge : Assoc (List Bytes) → Bytes → Bytes → Bool
edge children p c = member c (values p children)

-- `p` is a parent, and `par` names it.
abbrev pub is_link : Bytes → Bytes → Bool
is_link par p = not (empty par) && same par p

or_nil-if :
    (b : Bool) (x y : Option (List Bytes))
    → or_nil (if b then x else y) ≡ (if b then or_nil x else or_nil y)
or_nil-if true x y = refl
or_nil-if false x y = refl

member-if :
    (b : Bool) (c : Bytes) (x y : List Bytes)
    → member c (if b then x else y) ≡ (if b then member c x else member c y)
member-if true c x y = refl
member-if false c x y = refl

pub edge-put :
    (k : Bytes) (kids : List Bytes) (ch : Assoc (List Bytes)) (p c : Bytes)
    → edge (put k kids ch) p c ≡ (if same k p then member c kids else edge ch p c)
edge-put k kids ch p c =
    ap (λ o. member c (or_nil o)) (get-put k kids ch p)
    ∙ ap (member c) (or_nil-if (same k p) (some kids) (get p ch))
    ∙ member-if (same k p) c kids (values p ch)

pub edge-del :
    (k : Bytes) (ch : Assoc (List Bytes)) (p c : Bytes)
    → edge (del k ch) p c ≡ (not (same k p) && edge ch p c)
unfolding member
edge-del k ch p c =
    ap (λ o. member c (or_nil o)) (get-del k ch p)
    ∙ ap (member c) (or_nil-if (same k p) none (get p ch))
    ∙ member-if (same k p) c [] (values p ch)
    ∙ go (same k p)
  where
    go : (b : Bool) → (if b then member c [] else edge ch p c) ≡ (not b && edge ch p c)
    go true = refl
    go false = refl

pub edge-attach :
    (n par : Bytes) (ch : Assoc (List Bytes)) (p c : Bytes)
    → edge (attach_node n par ch) p c ≡ ((is_link par p && same n c) || edge ch p c)
unfolding attach_node
edge-attach n par ch p c = elim (Bool-cases (empty par)) [
  | inl e ↦ rw e refl
  | inr e ↦ rw e (
      edge-put par (add n (values par ch)) ch p c
      ∙ ap (λ t. if same par p then t else edge ch p c) (member-add n (values par ch) c)
      ∙ split (Bool-cases (same par p)))
]
  where
    split :
        (same par p ≡ true) ⊎ (same par p ≡ false)
        → (if same par p then same n c || edge ch par c else edge ch p c)
          ≡ ((same par p && same n c) || edge ch p c)
    split (inl e) = rw ((same_iff par p).0 e, same_refl p) refl
    split (inr e) = rw e refl

pub edge-store_kids :
    (par : Bytes) (kids : List Bytes) (ch : Assoc (List Bytes)) (p c : Bytes)
    → edge (store_kids par kids ch) p c ≡ (if same par p then member c kids else edge ch p c)
unfolding store_kids member
edge-store_kids par [] ch p c = edge-del par ch p c ∙ go (same par p)
  where
    go : (b : Bool) → (not b && edge ch p c) ≡ (if b then member c [] else edge ch p c)
    go true = refl
    go false = refl
edge-store_kids par (k ∷ kids) ch p c = edge-put par (k ∷ kids) ch p c

pub edge-detach_known :
    (n par : Bytes) (ch : Assoc (List Bytes)) (p c : Bytes)
    → edge (detach_known (get par ch) n par ch) p c ≡ (not (same par p && same n c) && edge ch p c)
unfolding detach_known
edge-detach_known n par ch p c = go (get par ch) refl (Bool-cases (same par p))
  where
    go :
        (o : Option (List Bytes))
        → get par ch ≡ o
        → (same par p ≡ true) ⊎ (same par p ≡ false)
        → edge (detach_known o n par ch) p c ≡ (not (same par p && same n c) && edge ch p c)
    go none h (inl e) =
        let q : edge ch p c ≡ false =
          ap (λ k. edge ch k c) (sym ((same_iff par p).0 e))
          ∙ ap (λ o. member c (or_nil o)) h
          ∙ (unfold member in refl) in
        ground (arith, q)
    go none h (inr e) = rw e refl
    go (some kids) h (inl e) =
        let q : edge ch p c ≡ member c kids =
          ap (λ k. edge ch k c) (sym ((same_iff par p).0 e)) ∙ ap (λ o. member c (or_nil o)) h in
        ground (arith, q, edge-store_kids par (remove n kids) ch p c, member-remove n kids c)
    go (some kids) h (inr e) = rw e (edge-store_kids par (remove n kids) ch p c ∙ rw e refl)

pub edge-detach :
    (n par : Bytes) (ch : Assoc (List Bytes)) (p c : Bytes)
    → edge (detach_node n par ch) p c ≡ (not (is_link par p && same n c) && edge ch p c)
unfolding detach_node
edge-detach n par ch p c = elim (Bool-cases (empty par)) [
  | inl e ↦ rw e refl
  | inr e ↦ rw e (edge-detach_known n par ch p c)
]
