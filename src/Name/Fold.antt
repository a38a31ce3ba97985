-- ===== src/Name/Fold.antt =====
-- What `Fold`, `EqualFold` and `Normalize` compute.
use sig0lease.Base.{
  ℕ, suc, ◌≡◌, refl, ap, ◌↔◌, inl, inr, true, [], ◌∷◌, map, arith, ◌==◌, ==_iff, Bool-cases, length,
  Bytes,
}
use sig0lease.Name.{fold_byte, fold_rest, fold, equal_fold_loop, equal_fold}

fold_rest-eq-map : (s : Bytes) → fold_rest s ≡ map fold_byte s
unfolding fold_rest fold_byte
fold_rest-eq-map [] = refl
fold_rest-eq-map (c ∷ cs) = ground (arith, fold_rest-eq-map cs)

pub fold-eq-map : (s : Bytes) → fold s ≡ map fold_byte s
unfolding fold fold_byte
fold-eq-map [] = refl
fold-eq-map (c ∷ cs) = ground (arith, fold-eq-map cs, fold_rest-eq-map cs)

pub fold_byte_idem : (c : ℕ) → fold_byte (fold_byte c) ≡ fold_byte c
unfolding fold_byte
fold_byte_idem c = ground arith

map-fold_byte_idem : (s : Bytes) → map fold_byte (map fold_byte s) ≡ map fold_byte s
map-fold_byte_idem [] = refl
map-fold_byte_idem (c ∷ s) = cc (fold_byte_idem c, map-fold_byte_idem s)

pub fold_idem : (s : Bytes) → fold (fold s) ≡ fold s
fold_idem s = simp (fold-eq-map, map-fold_byte_idem)

pub length-fold : (s : Bytes) → length (fold s) ≡ length s
unfolding fold fold_rest
length-fold s = rw fold-eq-map (go s)
  where
    go : (s : Bytes) → length (map fold_byte s) ≡ length s
    go [] = refl
    go (c ∷ cs) = ap suc (go cs)

loop_iff_map :
    (a b : Bytes)
    → length a ≡ length b
    → (equal_fold_loop a b ≡ true) ↔ (map fold_byte a ≡ map fold_byte b)
unfolding equal_fold_loop
loop_iff_map [] [] h = (λ _. refl, λ _. refl)
loop_iff_map [] (y ∷ b) h = absurd (omega arith)
loop_iff_map (x ∷ a) [] h = absurd (omega arith)
loop_iff_map (x ∷ a) (y ∷ b) h =
    let ih = loop_iff_map a b (omega arith) in
    (λ e. ground (arith, ih.0), λ e. ground (arith, ih.1))

-- `EqualFold`, which compares byte by byte without building the folded names, holds exactly for
-- two names that `Fold` makes the same.
pub equal_fold_iff : (a b : Bytes) → (equal_fold a b ≡ true) ↔ (fold a ≡ fold b)
unfolding equal_fold
equal_fold_iff a b = elim (Bool-cases (length a == length b)) [
  | inl e ↦
      let same_length : length a ≡ length b = (==_iff _ _).0 e in
      rw (e, fold-eq-map a, fold-eq-map b) (loop_iff_map a b same_length)
  | inr e ↦ rw e (λ h. cc, λ h. absurd (ground (arith, ap length h, length-fold a, length-fold b)))
]
