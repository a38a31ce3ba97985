-- ===== src/Store/Subtree/Traversal.antt =====
-- The walk down the tree from a node: it ends, and finds exactly the nodes below it.
use sig0lease.Base.{
  ℕ, zero, suc, ◌+◌, ◌≤◌, ◌<◌, ◌≡◌, refl, sym, ap, ◌∙◌, subst, ◌↔◌, inl, inr, true, false, ◌||◌,
  Option, some, List, [], ◌∷◌, ◌++◌, arith, if◌then◌else◌, Bool-cases, length, length-append, Bytes,
  same, same_refl, same_iff, same_ne, Assoc, get, member, member-append,
}
use sig0lease.Store.{values}
use sig0lease.Store.Edges.{edge}
use sig0lease.Store.Subtree.{edge_count, collect, collect_fuel, insert_longest, longest_first}

-- A node that is the root or is reached from it over children.
pub data Below (children : Assoc (List Bytes)) (root : Bytes) : Bytes → Type 0 where
  here : Below children root root
  child :
      {p : Bytes} (c : Bytes)
      → Below children root p
      → edge children p c ≡ true
      → Below children root c

-- How many entries the sets of children of unseen nodes have.
unfoldable pub unseen_edges : List Bytes → Assoc (List Bytes) → ℕ
unseen_edges seen [] = 0
unseen_edges seen ((k, kids) ∷ m) = (if member k seen then 0 else length kids) + unseen_edges seen m

unseen_edges-le :
    (cur : Bytes) (seen : List Bytes) (m : Assoc (List Bytes))
    → unseen_edges (cur ∷ seen) m ≤ unseen_edges seen m
unfolding unseen_edges member
unseen_edges-le cur seen [] = omega arith
unseen_edges-le cur seen ((k, kids) ∷ m) = ground (arith, unseen_edges-le cur seen m)

pub unseen_edges-visit :
    (cur : Bytes) (seen : List Bytes) (m : Assoc (List Bytes))
    → member cur seen ≡ false
    → unseen_edges (cur ∷ seen) m + length (values cur m) ≤ unseen_edges seen m
unfolding unseen_edges member get
unseen_edges-visit cur seen [] h = omega arith
unseen_edges-visit cur seen ((k, kids) ∷ m) h = elim (Bool-cases (same k cur)) [
  | inl e ↦
      let q : member k seen ≡ false = ap (λ x. member x seen) ((same_iff k cur).0 e) ∙ h in
      let same' : same cur k ≡ true = (same_iff cur k).1 (sym ((same_iff k cur).0 e)) in
      rw (e, q, same') (omega (arith, unseen_edges-le cur seen m))
  | inr e ↦
      let ih = unseen_edges-visit cur seen m h in
      let ne : same cur k ≡ false =
        same_ne cur k (λ q. ground (arith, e, (same_iff k cur).1 (sym q))) in
      rw (e, ne) (ground (arith, ih))
]

pub unseen_edges-start : (m : Assoc (List Bytes)) → unseen_edges [] m ≡ edge_count m
unfolding unseen_edges edge_count member
unseen_edges-start [] = refl
unseen_edges-start ((k, kids) ∷ m) = ap (λ n. length kids + n) (unseen_edges-start m)

abbrev Within : List Bytes → List Bytes → Type 0
Within xs ys = (j : Bytes) → member j xs ≡ true → member j ys ≡ true

-- What a walk from a stack and the nodes seen so far returns.
record Collected (ch : Assoc (List Bytes)) (stack seen : List Bytes) (o : Option (List Bytes))
    : Type 0 where
  found : List Bytes
  ends : o ≡ some found
  keeps : Within seen found
  visits : Within stack found
  closed :
      ((p c : Bytes)
        → member p seen ≡ true
        → edge ch p c ≡ true
        → (member c seen || member c stack) ≡ true)
      → (p c : Bytes) → member p found ≡ true
      → edge ch p c ≡ true
      → member c found ≡ true
  sound :
      (root : Bytes)
      → ((j : Bytes) → member j seen ≡ true → Below ch root j)
      → ((j : Bytes) → member j stack ≡ true → Below ch root j)
      → (j : Bytes) → member j found ≡ true
      → Below ch root j

module _ (ch : Assoc (List Bytes)) where
  Collected-end : (seen : List Bytes) → Collected ch [] seen (some seen)
  unfolding member
  Collected-end seen = record {
    found = seen;
    ends = refl;
    keeps = λ j h. h;
    visits = λ j h. cc;
    closed = λ f p c h e. ground (arith, f p c h e);
    sound = λ root f g j h. f j h;
  }

  Collected-skip :
      (cur : Bytes) (stack seen : List Bytes) {o : Option (List Bytes)}
      → member cur seen ≡ true
      → Collected ch stack seen o
      → Collected ch (cur ∷ stack) seen o
  unfolding member
  Collected-skip cur stack seen m x = record {
    found = x.found;
    ends = x.ends;
    keeps = x.keeps;
    visits = λ j h. elim (Bool-cases (same cur j)) [
      | inl e ↦ x.keeps j (subst (λ k. member k seen ≡ true) ((same_iff cur j).0 e) m)
      | inr e ↦ x.visits j (rw e at h)
    ];
    closed = λ f. x.closed λ p c h e. elim (Bool-cases (same cur c)) [
      | inl q ↦ ground (arith, subst (λ k. member k seen ≡ true) ((same_iff cur c).0 q) m)
      | inr q ↦ ground (arith, f p c h e, q)
    ];
    sound = λ root f g. x.sound root f (λ j h. g j (ground (arith, h)));
  }

  Collected-visit :
      (cur : Bytes) (stack seen : List Bytes) {o : Option (List Bytes)}
      → Collected ch (values cur ch ++ stack) (cur ∷ seen) o
      → Collected ch (cur ∷ stack) seen o
  unfolding member
  Collected-visit cur stack seen x = record {
    found = x.found;
    ends = x.ends;
    keeps = λ j h. x.keeps j (ground (arith, h));
    visits = λ j h. elim (Bool-cases (same cur j)) [
      | inl e ↦ x.keeps j (ground (arith, e))
      | inr e ↦ x.visits j (ground (arith, e, h, member-append j (values cur ch) stack))
    ];
    closed = λ f. x.closed λ p c h e. elim (Bool-cases (same cur p)) [
      | inl q ↦
          let kid : edge ch cur c ≡ true =
            subst (λ k. edge ch k c ≡ true) (sym ((same_iff cur p).0 q)) e in
          ground (arith, kid, member-append c (values cur ch) stack)
      | inr q ↦ ground (arith, q, h, f p c (rw q at h) e, member-append c (values cur ch) stack)
    ];
    sound = λ root f g.
        let reached : Below ch root cur = g cur (ground (arith, same_refl cur)) in
        x.sound root
          (λ j h. elim (Bool-cases (same cur j)) [
            | inl e ↦ subst (Below ch root) ((same_iff cur j).0 e) reached
            | inr e ↦ f j (rw e at h)
          ])
          (λ j h. elim (Bool-cases (member j (values cur ch))) [
            | inl e ↦ child j reached e
            | inr e ↦ g j (ground (arith, e, h, member-append j (values cur ch) stack))
          ]);
  }

  collect-Collected :
      (fuel : ℕ) (stack seen : List Bytes)
      → unseen_edges seen ch + length stack < fuel
      → Collected ch stack seen (collect fuel ch stack seen)
  unfolding collect
  collect-Collected zero stack seen h = absurd (omega arith)
  collect-Collected (suc fuel) [] seen h = Collected-end seen
  collect-Collected (suc fuel) (cur ∷ stack) seen h = elim (Bool-cases (member cur seen)) [
    | inl e ↦
        rw e (Collected-skip cur stack seen e (collect-Collected fuel stack seen (omega arith)))
    | inr e ↦ rw e (
        Collected-visit cur stack seen (
          collect-Collected fuel (values cur ch ++ stack) (cur ∷ seen)
            (omega (arith, unseen_edges-visit cur seen ch e, length-append (values cur ch) stack))))
  ]

  from_root :
      (root : Bytes) → Collected ch (root ∷ []) [] (collect (collect_fuel ch) ch (root ∷ []) [])
  from_root root =
      collect-Collected (collect_fuel ch) (root ∷ []) [] (omega (arith, unseen_edges-start ch))

  -- The nodes that the walk from a root finds.
  pub walk_ends :
      (root : Bytes)
      → (found : List Bytes) × (collect (collect_fuel ch) ch (root ∷ []) [] ≡ some found)
        × ((j : Bytes) → (member j found ≡ true) ↔ Below ch root j)
  unfolding member
  walk_ends root = (x.found, x.ends, λ j. (x.sound root (λ j h. cc) only_root j, complete j))
    where
      x : Collected ch (root ∷ []) [] (collect (collect_fuel ch) ch (root ∷ []) [])
      x = from_root root

      only_root : (j : Bytes) → member j (root ∷ []) ≡ true → Below ch root j
      only_root j h = subst (Below ch root) ((same_iff root j).0 (ground arith)) here

      complete : (j : Bytes) → Below ch root j → member j x.found ≡ true
      complete j here = x.visits root (ground (arith, same_refl root))
      complete j (child c b e) = x.closed (λ p c h. cc) _ c (complete _ b) e

member-insert_longest :
    (j k : Bytes) (ks : List Bytes) → member j (insert_longest k ks) ≡ (same k j || member j ks)
unfolding insert_longest member
member-insert_longest j k [] = refl
member-insert_longest j k (i ∷ ks) = ground (arith, member-insert_longest j k ks)

pub member-longest_first : (j : Bytes) (ks : List Bytes) → member j (longest_first ks) ≡ member j ks
unfolding longest_first member
member-longest_first j [] = refl
member-longest_first j (k ∷ ks) =
    ground (arith, member-insert_longest j k (longest_first ks), member-longest_first j ks)
