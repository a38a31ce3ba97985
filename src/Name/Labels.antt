-- ===== src/Name/Labels.antt =====
-- Splitting a name into its labels, and joining them again.
use sig0lease.Base.{
  ℕ, ◌≤◌, ◌≡◌, refl, sym, ap, ◌∙◌, ◌↔◌, inl, inr, true, false, List, [], ◌∷◌, ◌++◌, append_assoc,
  arith, ◌==◌, ==_iff, Bool-cases, length, All, Bytes, contains_byte, ok,
}
use sig0lease.Name.{dot, push, split, join, labels, cut_first_label, max_label_length, check_label}

-- `Split` has at least one label.
pub split-cons : (s : Bytes) → (l : Bytes) × (ls : List Bytes) × (split s ≡ l ∷ ls)
unfolding split
split-cons [] = ([], [], refl)
split-cons (c ∷ cs) = elim (Bool-cases (c == dot)) [
  | inl e ↦ ([], split cs, rw e)
  | inr e ↦ let (l, ls, h) = split-cons cs in (c ∷ l, ls, rw (e, h))
]

join-dot : (ls : List Bytes) (l : Bytes) → join ([] ∷ l ∷ ls) ≡ dot ∷ join (l ∷ ls)
unfolding join
join-dot ls l = refl

join-push : (c : ℕ) (l : Bytes) (ls : List Bytes) → join ((c ∷ l) ∷ ls) ≡ c ∷ join (l ∷ ls)
unfolding join
join-push c l [] = refl
join-push c l (m ∷ ls) = refl

-- Joining the labels gives the name back.
pub join-split : (s : Bytes) → join (split s) ≡ s
unfolding split
join-split [] = unfold join in refl
join-split (c ∷ cs) =
    let (l, ls, h) = split-cons cs in
    elim (Bool-cases (c == dot)) [
      | inl e ↦
          let ih = join-split cs in
          let d : c ≡ dot = (==_iff c dot).0 e in rw (e, h, join-dot) (cc (ih, d, ap join h))
      | inr e ↦ let ih = join-split cs in rw (e, h, join-push) (cc (ih, ap join h))
    ]

-- The labels of what stands around a dot.
pub split-append-dot : (p z : Bytes) → split (p ++ (dot ∷ z)) ≡ split p ++ split z
unfolding split
split-append-dot [] z = refl
split-append-dot (c ∷ p) z =
    let (l, ls, h) = split-cons p in
    elim (Bool-cases (c == dot)) [
      | inl e ↦ rw (e, split-append-dot p z)
      | inr e ↦ rw (e, split-append-dot p z, h)
    ]

-- A name splits into itself alone exactly if it has no dot.
pub split_undotted : (s : Bytes) → contains_byte dot s ≡ false → split s ≡ s ∷ []
unfolding split contains_byte
split_undotted [] h = refl
split_undotted (c ∷ cs) h = ground (arith, split_undotted cs)

-- Each label is free of dots.
pub split-undotted : (s : Bytes) → All (λ l. contains_byte dot l ≡ false) (split s)
unfolding split contains_byte
split-undotted [] = (refl, tt)
split-undotted (c ∷ cs) =
    let (l, ls, h) = split-cons cs in
    elim (Bool-cases (c == dot)) [
      | inl e ↦ rw e (refl, split-undotted cs)
      | inr e ↦
          let ih : All (λ l. contains_byte dot l ≡ false) (l ∷ ls) = rw h at (split-undotted cs) in
          rw (e, h) (ground (arith, e, ih.0), ih.1)
    ]

pub join-append-split :
    (ls : List Bytes) (l : Bytes) (z : Bytes)
    → join ((l ∷ ls) ++ split z) ≡ join (l ∷ ls) ++ (dot ∷ z)
unfolding join
join-append-split [] l z =
    let (m, ms, h) = split-cons z in
    rw h (ap (λ t. l ++ (dot ∷ t)) (ap join (sym h) ∙ join-split z))
join-append-split (k ∷ ls) l z =
    ap (λ t. l ++ (dot ∷ t)) (join-append-split ls k z) ∙ sym (append_assoc l _ _)

-- `CutFirstLabel` divides a name at its first dot: a result with `ok` gives the name back around
-- a dot and splits off exactly the first of its labels, and one without `ok` is the whole name,
-- which then is one label.
pub cut_first_label_lem :
    (s : Bytes)
    → (contains_byte dot (cut_first_label s).0 ≡ false)
      × ((cut_first_label s).2 ≡ true
          → (s ≡ (cut_first_label s).0 ++ (dot ∷ (cut_first_label s).1))
            × (split s ≡ (cut_first_label s).0 ∷ split (cut_first_label s).1))
      × ((cut_first_label s).2 ≡ false
          → (s ≡ (cut_first_label s).0) × ((cut_first_label s).1 ≡ []) × (split s ≡ s ∷ []))
unfolding cut_first_label split contains_byte
cut_first_label_lem [] = (refl, λ h. cc, λ h. (refl, refl, refl))
cut_first_label_lem (c ∷ cs) =
    let ih = cut_first_label_lem cs in
    elim (Bool-cases (c == dot)) [
      | inl e ↦ rw e (refl, λ h. (ap (λ x. x ∷ cs) ((==_iff c dot).0 e), refl), λ h. cc)
      | inr e ↦ rw e (
        ground (arith, e, ih.0),
        λ h. (ap (◌∷◌ c) (ih.1 h).0, ap (push c) (ih.1 h).1),
        λ h. (ap (◌∷◌ c) (ih.2 h).0, (ih.2 h).1, ap (push c) (ih.2 h).2),
      )
    ]

undotted_of_split : (l : Bytes) → split l ≡ l ∷ [] → contains_byte dot l ≡ false
undotted_of_split l h =
    let parts : All (λ l. contains_byte dot l ≡ false) (l ∷ []) = rw h at (split-undotted l) in
    parts.0

-- `CheckLabel` accepts exactly the strings that are sent as one label: 1 to 63 bytes that split
-- into a single label.
pub check_label_iff :
    (l : Bytes) → (check_label l ≡ ok tt) ↔ ((labels l ≡ l ∷ []) × (length l ≤ max_label_length))
unfolding check_label labels
check_label_iff [] = (λ h. cc, λ h. cc)
check_label_iff (c ∷ cs) = (
  λ h. (split_undotted (c ∷ cs) (ground arith), ground arith),
  λ (one, short). ground (arith, undotted_of_split (c ∷ cs) one),
)
