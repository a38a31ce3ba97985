-- ===== src/Name/Below.antt =====
-- `IsAtOrBelow` compares whole labels.
use sig0lease.Base.{
  ◌≡◌, refl, sym, ap, ◌∙◌, ◌≢◌, ◌↔◌, ◌⊎◌, inl, inr, true, false, ◌||◌, List, [], ◌∷◌, ◌++◌,
  append_assoc, arith, Bool-cases, Bytes, same, same_iff, empty, has_suffix, has_suffix_iff,
}
use sig0lease.Name.{dot, normalize, is_at_or_below, split, labels, join}
use sig0lease.Name.Labels.{split-cons, join-split, split-append-dot, join-append-split}

-- The labels of `zone` are the last labels of `name`.
abbrev pub EndsIn : List Bytes → List Bytes → Type 0
EndsIn name zone = (above : List Bytes) × (name ≡ above ++ zone)

EndsIn-trans : (a b c : List Bytes) → EndsIn a b → EndsIn b c → EndsIn a c
EndsIn-trans a b c (xs, p) (ys, q) =
    (xs ++ ys, p ∙ ap (λ t. xs ++ t) q ∙ sym (append_assoc xs ys c))

split-injective : (s t : Bytes) → split s ≡ split t → s ≡ t
split-injective s t h = sym (join-split s) ∙ ap join h ∙ join-split t

-- A suffix behind a dot, or the whole, is a suffix of labels.
suffix_iff :
    (n z : Bytes) → ((same n z || has_suffix n (dot ∷ z)) ≡ true) ↔ EndsIn (split n) (split z)
suffix_iff n z = (
  λ h. elim (Bool-cases (same n z)) [
    | inl e ↦ ([], ap split ((same_iff n z).0 e))
    | inr e ↦
        let (p, q) = (has_suffix_iff n (dot ∷ z)).0 (ground (arith, e)) in
        (split p, ap split q ∙ split-append-dot p z)
  ],
  back,
)
  where
    back : EndsIn (split n) (split z) → (same n z || has_suffix n (dot ∷ z)) ≡ true
    back ([], q) = ground (arith, (same_iff n z).1 (split-injective n z q))
    back (l ∷ ls, q) =
        let e : n ≡ join (l ∷ ls) ++ (dot ∷ z) =
          sym (join-split n) ∙ ap join q ∙ join-append-split ls l z in
        let found = (has_suffix_iff n (dot ∷ z)).1 (join (l ∷ ls), e) in ground (arith, found)

Bytes-cases : (s : Bytes) → (s ≡ []) ⊎ (s ≢ [])
Bytes-cases [] = inl refl
Bytes-cases (x ∷ s) = inr (λ h. cc)

labels_of_ne : (s : Bytes) → s ≢ [] → labels s ≡ split s
unfolding labels
labels_of_ne [] h = absurd (h refl)
labels_of_ne (c ∷ cs) h = refl

not-nil-append : (xs : List Bytes) (l : Bytes) (ls : List Bytes) → [] ≢ xs ++ (l ∷ ls)
not-nil-append [] l ls h = cc
not-nil-append (x ∷ xs) l ls h = cc

below_iff :
    (n z : Bytes)
    → z ≢ []
    → ((same n z || has_suffix n (dot ∷ z)) ≡ true) ↔ EndsIn (labels n) (labels z)
unfolding labels
below_iff n [] h = absurd (h refl)
below_iff (x ∷ n) (y ∷ z) h = suffix_iff (x ∷ n) (y ∷ z)
below_iff [] (y ∷ z) h =
    let (l, ls, e) = split-cons (y ∷ z) in
    (
      λ t. unfold same has_suffix in cc t,
      λ (xs, q). absurd (not-nil-append xs l ls (q ∙ ap (λ t. xs ++ t) (e))),
    )

nonempty : (s : Bytes) → s ≢ [] → empty s ≡ false
unfolding empty
nonempty [] h = absurd (h refl)
nonempty (x ∷ s) h = refl

-- For a zone other than the root, `IsAtOrBelow` holds exactly if the zone's labels, folded and
-- without the trailing dot, are the last labels of the name: never at half a label.
pub is_at_or_below_iff :
    (name zone : Bytes)
    → normalize zone ≢ []
    → (is_at_or_below name zone ≡ true) ↔ EndsIn (labels (normalize name)) (labels (normalize zone))
unfolding is_at_or_below
is_at_or_below_iff name zone h =
    rw (nonempty (normalize zone) h) (below_iff (normalize name) (normalize zone) h)

root_only : (b c : Bytes) → normalize b ≡ [] → is_at_or_below b c ≡ true → normalize c ≡ []
unfolding labels
root_only b c e h = elim (Bytes-cases (normalize c)) [
  | inl r ↦ r
  | inr ne ↦
      let (l, ls, s) = split-cons (normalize c) in
      let (xs, q) = (is_at_or_below_iff b c ne).0 h in
      absurd (
        not-nil-append xs l ls
          (sym (ap labels e) ∙ q ∙ ap (λ t. xs ++ t) (labels_of_ne (normalize c) ne ∙ s)))
]

below_root : (a c : Bytes) → normalize c ≡ [] → is_at_or_below a c ≡ true
unfolding is_at_or_below empty
below_root a c e = rw e
