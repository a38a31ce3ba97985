-- ===== src/Store/Subtree/Listing.antt =====
-- `ListSubtreeKeys`, whose walk marks a node when it is pushed.
use sig0lease.Base.{
  ℕ, zero, suc, ◌+◌, ◌≤◌, ◌<◌, ◌≡◌, refl, sym, ap, ◌∙◌, subst, ◌↔◌, ◌⊎◌, inl, inr, true, false, not,
  ◌&&◌, ◌||◌, Option, some, List, [], ◌∷◌, ◌++◌, arith, Bool-cases, length, length-append, Bytes,
  same, same_refl, same_iff, Assoc, member, member-append,
}
use sig0lease.Name.{normalize}
use sig0lease.Store.{LeaseStore, values, or_nil}
use sig0lease.Store.Edges.{edge}
use sig0lease.Store.Subtree.{collect_fuel, unvisited, list_walk, list_subtree_keys}
use sig0lease.Store.Subtree.Traversal.{
  Below, here, child, unseen_edges, unseen_edges-visit, unseen_edges-start, member-longest_first,
}

member-unvisited :
    (j : Bytes) (kids visited : List Bytes)
    → member j (unvisited kids visited) ≡ (member j kids && not (member j visited))
unfolding unvisited member
member-unvisited j [] visited = refl
member-unvisited j (k ∷ kids) visited = elim (Bool-cases (member k visited)) [
  | inl e ↦ rw (e, member-unvisited j kids visited) (seen (Bool-cases (same k j)) e)
  | inr e ↦ rw (e, member-unvisited j kids (k ∷ visited)) (fresh (Bool-cases (same k j)) e)
]
  where
    seen :
        (same k j ≡ true) ⊎ (same k j ≡ false)
        → member k visited ≡ true
        → (member j kids && not (member j visited))
          ≡ ((same k j || member j kids) && not (member j visited))
    seen (inl q) e =
        let there : member j visited ≡ true =
          ap (λ i. member i visited) (sym ((same_iff k j).0 q)) ∙ e in
        rw (q, there) (ground arith)
    seen (inr q) e = rw q refl

    fresh :
        (same k j ≡ true) ⊎ (same k j ≡ false)
        → member k visited ≡ false
        → (same k j || (member j kids && not (same k j || member j visited)))
          ≡ ((same k j || member j kids) && not (member j visited))
    fresh (inl q) e =
        let there : member j visited ≡ false =
          ap (λ i. member i visited) (sym ((same_iff k j).0 q)) ∙ e in
        rw (q, there) (ground arith)
    fresh (inr q) e = rw q (ground arith)

length-unvisited : (kids visited : List Bytes) → length (unvisited kids visited) ≤ length kids
unfolding unvisited
length-unvisited [] visited = omega arith
length-unvisited (k ∷ kids) visited = elim (Bool-cases (member k visited)) [
  | inl e ↦ rw e (omega (arith, length-unvisited kids visited))
  | inr e ↦ rw e (omega (arith, length-unvisited kids (k ∷ visited)))
]

abbrev NoDup : List Bytes → Type 0
NoDup [] = Unit
NoDup (x ∷ xs) = (member x xs ≡ false) × NoDup xs

NoDup-unvisited : (kids visited : List Bytes) → NoDup (unvisited kids visited)
unfolding unvisited member
NoDup-unvisited [] visited = tt
NoDup-unvisited (k ∷ kids) visited = elim (Bool-cases (member k visited)) [
  | inl e ↦ rw e (NoDup-unvisited kids visited)
  | inr e ↦ rw e (
    ground (arith, member-unvisited k kids (k ∷ visited), same_refl k),
    NoDup-unvisited kids (k ∷ visited),
  )
]

NoDup-append :
    (xs ys : List Bytes)
    → NoDup xs
    → NoDup ys
    → ((j : Bytes) → member j xs ≡ true → member j ys ≡ false)
    → NoDup (xs ++ ys)
unfolding member
NoDup-append [] ys h k f = k
NoDup-append (x ∷ xs) ys h k f = (
  member-append x xs ys ∙ ground (arith, h.0, f x (ground (arith, same_refl x))),
  NoDup-append xs ys h.1 k (λ j m. f j (ground (arith, m))),
)

-- What holds between two turns: `done` are the nodes whose children have been pushed.
record Walk (ch : Assoc (List Bytes)) (root : Bytes) (done stack visited all : List Bytes)
    : Type 0 where
  once : NoDup stack
  apart : (j : Bytes) → member j stack ≡ true → member j done ≡ false
  marked : (j : Bytes) → member j visited ≡ (member j done || member j stack)
  listed : (j : Bytes) → member j all ≡ (not (same root j) && member j visited)
  root_marked : member root visited ≡ true
  closed : (p c : Bytes) → member p done ≡ true → edge ch p c ≡ true → member c visited ≡ true
  sound : (j : Bytes) → member j visited ≡ true → Below ch root j

module _ (ch : Assoc (List Bytes)) (root cur : Bytes) (done stack visited all : List Bytes) where
  abbrev fresh : List Bytes
  fresh = unvisited (values cur ch) visited

  Walk-next :
      Walk ch root done (cur ∷ stack) visited all
      → Walk ch root (cur ∷ done) (fresh ++ stack) (fresh ++ visited) (all ++ fresh)
  unfolding member
  Walk-next w = record {
    once =
        NoDup-append fresh stack (NoDup-unvisited (values cur ch) visited) w.once.1
          (λ j m. ground (arith, m, in_fresh j, w.marked j));
    apart = λ j m. elim (Bool-cases (same cur j)) [
      | inl e ↦
          let cur_j : cur ≡ j = (same_iff cur j).0 e in
          let not_stack : member j stack ≡ false =
            ap (λ i. member i stack) (sym cur_j) ∙ w.once.0 in
          absurd
            (ground (arith, m, e, not_stack, in_fresh j, w.marked j, member-append j fresh stack))
      | inr e ↦ ground (arith, m, e, in_fresh j, w.marked j, w.apart j, member-append j fresh stack)
    ];
    marked =
        λ j. ground (arith, w.marked j, member-append j fresh stack, member-append j fresh visited);
    listed = λ j. ground (
      arith,
      w.listed j,
      root_not_fresh j,
      member-append j all fresh,
      member-append j fresh visited,
    );
    root_marked = ground (arith, w.root_marked, member-append root fresh visited);
    closed = λ p c m e. elim (Bool-cases (same cur p)) [
      | inl q ↦
          let kid : edge ch cur c ≡ true =
            subst (λ k. edge ch k c ≡ true) (sym ((same_iff cur p).0 q)) e in
          ground (arith, kid, in_fresh c, member-append c fresh visited)
      | inr q ↦ ground (arith, w.closed p c (rw q at m) e, member-append c fresh visited)
    ];
    sound = λ j m. elim (Bool-cases (member j visited)) [
      | inl e ↦ w.sound j e
      | inr e ↦
          let kid : edge ch cur j ≡ true =
            ground (arith, m, e, in_fresh j, member-append j fresh visited) in
          child j (w.sound cur (ground (arith, w.marked cur, same_refl cur))) kid
    ];
  }
    where
      in_fresh : (j : Bytes) → member j fresh ≡ (edge ch cur j && not (member j visited))
      in_fresh j = member-unvisited j (values cur ch) visited

      root_not_fresh : (j : Bytes) → same root j ≡ true → member j fresh ≡ false
      root_not_fresh j e =
          let there : member j visited ≡ true =
            ap (λ i. member i visited) (sym ((same_iff root j).0 e)) ∙ w.root_marked in
          ground (arith, in_fresh j, there)

abbrev Listed : Assoc (List Bytes) → Bytes → Option (List Bytes) → Type 0
Listed ch root o =
    (found : List Bytes) × (o ≡ some found)
    × ((j : Bytes) → (member j found ≡ true) ↔ (Below ch root j × (same root j ≡ false)))

Walk-end :
    (ch : Assoc (List Bytes)) (root : Bytes) (done visited all : List Bytes)
    → Walk ch root done [] visited all
    → Listed ch root (some all)
unfolding member
Walk-end ch root done visited all w = (
  all,
  refl,
  λ j. (
    λ h. (w.sound j (ground (arith, h, w.listed j)), ground (arith, h, w.listed j)),
    λ (b, e). ground (arith, w.listed j, reached j b, e),
  ),
)
  where
    reached : (j : Bytes) → Below ch root j → member j visited ≡ true
    reached j here = w.root_marked
    reached j (child {p} c b e) = w.closed p c (ground (arith, w.marked p, reached p b)) e

list_walk-Listed :
    (fuel : ℕ) (ch : Assoc (List Bytes)) (root : Bytes) (done stack visited all : List Bytes)
    → unseen_edges done ch + length stack < fuel
    → Walk ch root done stack visited all
    → Listed ch root (list_walk fuel ch stack visited all)
unfolding list_walk member
list_walk-Listed zero ch root done stack visited all h w = absurd (omega arith)
list_walk-Listed (suc fuel) ch root done [] visited all h w = Walk-end ch root done visited all w
list_walk-Listed (suc fuel) ch root done (cur ∷ stack) visited all h w =
    let fresh_kids = unvisited (values cur ch) visited in
    let new : member cur done ≡ false = w.apart cur (ground (arith, same_refl cur)) in
    list_walk-Listed fuel ch root (cur ∷ done) (fresh_kids ++ stack) (fresh_kids ++ visited)
      (all ++ fresh_kids)
      (omega (
        arith,
        unseen_edges-visit cur done ch new,
        length-unvisited (values cur ch) visited,
        length-append fresh_kids stack,
      ))
      (Walk-next ch root cur done stack visited all w)

Walk-start : (ch : Assoc (List Bytes)) (root : Bytes) → Walk ch root [] (root ∷ []) (root ∷ []) []
unfolding member
Walk-start ch root = record {
  once = (refl, tt);
  apart = λ j h. refl;
  marked = λ j. refl;
  listed = λ j. ground arith;
  root_marked = ground (arith, same_refl root);
  closed = λ p c h. cc;
  sound = λ j h. subst (Below ch root) ((same_iff root j).0 (ground arith)) here;
}

-- `ListSubtreeKeys` ends and returns exactly the nodes below the given one, without that one.
pub list_subtree_keys_iff :
    (node : Bytes) (st : LeaseStore) (j : Bytes)
    → (member j (list_subtree_keys node st) ≡ true)
      ↔ (Below st.children (normalize node) j × (same (normalize node) j ≡ false))
unfolding list_subtree_keys
list_subtree_keys_iff node st j =
    let root = normalize node in
    let (found, ends, exactly) =
      list_walk-Listed (collect_fuel st.children) st.children root [] (root ∷ []) (root ∷ []) []
        (omega (arith, unseen_edges-start st.children)) (Walk-start st.children root) in
    let listed : member j (list_subtree_keys node st) ≡ member j found =
      member-longest_first j _ ∙ ap (λ o. member j (or_nil o)) ends in
    (λ h. (exactly j).0 (sym listed ∙ h), λ h. listed ∙ (exactly j).1 h)
