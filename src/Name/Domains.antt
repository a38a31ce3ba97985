-- ===== src/Name/Domains.antt =====
-- The labels of a folded name in a domain.
use sig0lease.Base.{
  ℕ, ◌≡◌, refl, sym, ap, ◌∙◌, inl, inr, List, [], ◌∷◌, ◌++◌, map, arith, ◌==◌, Bool-cases, Bytes,
}
use mathlib.Core.Path.{ap₂}
use sig0lease.Name.{dot, fold, fold_byte, labels, split, push}
use sig0lease.Name.Fold.{fold-eq-map}
use sig0lease.Name.Labels.{split-cons, split-append-dot}

fold_byte-dot : (c : ℕ) → (fold_byte c == dot) ≡ (c == dot)
unfolding fold_byte
fold_byte-dot c = ground arith

abbrev pub fold_all : List Bytes → List Bytes
fold_all ls = map (map fold_byte) ls

push-fold :
    (c : ℕ) (l : Bytes) (ls : List Bytes)
    → push (fold_byte c) (fold_all (l ∷ ls)) ≡ fold_all (push c (l ∷ ls))
unfolding push
push-fold c l ls = refl

pub split-map : (s : Bytes) → split (map fold_byte s) ≡ fold_all (split s)
unfolding split
split-map [] = refl
split-map (c ∷ cs) =
    let (l, ls, h) = split-cons cs in
    elim (Bool-cases (c == dot)) [
      | inl e ↦ rw (fold_byte-dot c, e, split-map cs) refl
      | inr e ↦ rw (fold_byte-dot c, e, split-map cs, h) (push-fold c l ls)
    ]

map-append : (s t : Bytes) → map fold_byte (s ++ t) ≡ map fold_byte s ++ map fold_byte t
map-append [] t = refl
map-append (c ∷ s) t = ap (◌∷◌ (fold_byte c)) (map-append s t)

-- The labels of a folded name in a domain.
split-in_domain :
    (s d : Bytes) → split (fold (s ++ (dot ∷ d))) ≡ fold_all (split s) ++ fold_all (split d)
unfolding fold_byte
split-in_domain s d =
    ap split (fold-eq-map (s ++ (dot ∷ d)) ∙ map-append s (dot ∷ d))
    ∙ split-append-dot (map fold_byte s) (map fold_byte d)
    ∙ ap₂ (λ x y. x ++ y) (split-map s) (split-map d)

labels-split : (c : ℕ) (s : Bytes) → labels (c ∷ s) ≡ split (c ∷ s)
unfolding labels
labels-split c s = refl

fold-cons : (s d : Bytes) → (c : ℕ) × (t : Bytes) × (fold (s ++ (dot ∷ d)) ≡ c ∷ t)
fold-cons [] d = (fold_byte dot, map fold_byte d, fold-eq-map (dot ∷ d))
fold-cons (c ∷ s) d =
    (fold_byte c, map fold_byte (s ++ (dot ∷ d)), fold-eq-map (c ∷ s ++ (dot ∷ d)))

pub labels-in_domain :
    (s d : Bytes) → labels (fold (s ++ (dot ∷ d))) ≡ fold_all (split s) ++ fold_all (split d)
labels-in_domain s d =
    let (c, t, e) = fold-cons s d in
    ap labels e ∙ labels-split c t ∙ ap split (sym e) ∙ split-in_domain s d
