-- ===== src/NodeKey/Parse.antt =====
-- A node key gives its name back, and is in the form in which the store looks names up.
use sig0lease.Base.{
  ℕ, ◌≡◌, refl, sym, ap, ◌∙◌, ◌≢◌, ◌⊎◌, inl, inr, none, some, [], ◌∷◌, ◌++◌, map, arith, length,
  take, All, length-append, Bytes,
}
use mathlib.Core.Path.{ap₂}
use sig0lease.Name.{dot, fold_byte, fold, trim_dot, normalize}
use sig0lease.Name.Fold.{fold-eq-map, fold_idem}
use sig0lease.NodeKey.{key_suffix, node_key_from_sig, last_mark, name_before, node_key_name}
use sig0lease.NodeKey.Digits.{IsSuffixByte, key_suffix-IsSuffixByte}

last_mark-suffix : (t : Bytes) → All IsSuffixByte t → last_mark t ≡ none
unfolding last_mark
last_mark-suffix [] h = refl
last_mark-suffix (c ∷ []) h = refl
last_mark-suffix (c ∷ d ∷ t) h = rw (last_mark-suffix (d ∷ t) h.1) (ground (arith, h.0))

last_mark-append :
    (p t : Bytes) → All IsSuffixByte t → last_mark (p ++ (dot ∷ b'+' ∷ t)) ≡ some (length p)
unfolding last_mark
last_mark-append [] t h = rw (last_mark-suffix (b'+' ∷ t) (inl refl, h))
last_mark-append (c ∷ p) t h = rw (last_mark-append p t h)

take-length-append : (p r : Bytes) → take (length p) (p ++ r) ≡ p
take-length-append [] r = refl
take-length-append (c ∷ p) r = ap (◌∷◌ c) (take-length-append p r)

name_before-append : (p r : Bytes) → p ≢ [] → name_before (p ++ r) (some (length p)) ≡ p
unfolding name_before
name_before-append [] r h = absurd (h refl)
name_before-append (c ∷ p) r h = take-length-append (c ∷ p) r

-- `NodeKeyName` reads the normalized name of a SIG(0) signer, or of a KEY, back out of its node
-- key, whatever the name holds (a ".+" included), unless the name is the root.
pub node_key_name-from_sig :
    (signer : Bytes) (algorithm tag : ℕ)
    → normalize signer ≢ []
    → node_key_name (node_key_from_sig signer algorithm tag) ≡ normalize signer
unfolding node_key_name node_key_from_sig
node_key_name-from_sig signer algorithm tag h =
    ap (name_before _) (
      last_mark-append (normalize signer) (key_suffix algorithm tag)
        (key_suffix-IsSuffixByte algorithm tag))
    ∙ name_before-append (normalize signer) _ h

fold-append : (s t : Bytes) → fold (s ++ t) ≡ fold s ++ fold t
fold-append s t =
    fold-eq-map (s ++ t) ∙ go s ∙ sym (ap₂ (λ a b. a ++ b) (fold-eq-map s) (fold-eq-map t))
  where
    go : (s : Bytes) → map fold_byte (s ++ t) ≡ map fold_byte s ++ map fold_byte t
    go [] = refl
    go (c ∷ s) = ap (◌∷◌ (fold_byte c)) (go s)

fold_byte-suffix : (c : ℕ) → IsSuffixByte c → fold_byte c ≡ c
unfolding fold_byte
fold_byte-suffix c h = ground arith

map-fold_byte-suffix : (t : Bytes) → All IsSuffixByte t → map fold_byte t ≡ t
map-fold_byte-suffix [] h = refl
map-fold_byte-suffix (c ∷ t) h = cc (fold_byte-suffix c h.0, map-fold_byte-suffix t h.1)

trim_dot-map : (s : Bytes) → trim_dot (map fold_byte s) ≡ map fold_byte (trim_dot s)
unfolding trim_dot fold_byte
trim_dot-map [] = refl
trim_dot-map (c ∷ []) = ground arith
trim_dot-map (c ∷ d ∷ s) = ap (◌∷◌ (fold_byte c)) (trim_dot-map (d ∷ s))

-- A normalized name is folded.
pub fold-normalize : (s : Bytes) → fold (normalize s) ≡ normalize s
unfolding normalize
fold-normalize s =
    fold-eq-map (trim_dot (fold s))
    ∙ sym (trim_dot-map (fold s))
    ∙ ap trim_dot (sym (fold-eq-map (fold s)) ∙ fold_idem s)

trim_dot-append : (p : Bytes) (d : ℕ) (s : Bytes) → trim_dot (p ++ (d ∷ s)) ≡ p ++ trim_dot (d ∷ s)
unfolding trim_dot
trim_dot-append [] d s = refl
trim_dot-append (c ∷ []) d s = refl
trim_dot-append (c ∷ c' ∷ p) d s = ap (◌∷◌ c) (trim_dot-append (c' ∷ p) d s)

trim_dot-suffix : (c : ℕ) (t : Bytes) → All IsSuffixByte (c ∷ t) → trim_dot (c ∷ t) ≡ c ∷ t
unfolding trim_dot
trim_dot-suffix c [] h = ground (arith, h.0)
trim_dot-suffix c (d ∷ t) h = ap (◌∷◌ c) (trim_dot-suffix d t h.1)

fold-suffix : (t : Bytes) → All IsSuffixByte t → fold (dot ∷ b'+' ∷ t) ≡ dot ∷ b'+' ∷ t
unfolding fold_byte
fold-suffix t h = fold-eq-map (dot ∷ b'+' ∷ t) ∙ ap (λ u. dot ∷ b'+' ∷ u) (map-fold_byte-suffix t h)

marked_normal :
    (p t : Bytes)
    → fold p ≡ p
    → All IsSuffixByte t
    → normalize (p ++ (dot ∷ b'+' ∷ t)) ≡ p ++ (dot ∷ b'+' ∷ t)
unfolding normalize
marked_normal p t e h =
    ap trim_dot (fold-append p (dot ∷ b'+' ∷ t) ∙ ap₂ (λ a b. a ++ b) e (fold-suffix t h))
    ∙ trim_dot-append p dot (b'+' ∷ t)
    ∙ ap (λ u. p ++ u) (unfold trim_dot in ap (◌∷◌ dot) (trim_dot-suffix b'+' t (inl refl, h)))

-- A node key is its own normalized form: the lookups of the store, which normalize the key that
-- they are given, find it.
pub normalize-node_key_from_sig :
    (signer : Bytes) (algorithm tag : ℕ)
    → normalize (node_key_from_sig signer algorithm tag) ≡ node_key_from_sig signer algorithm tag
unfolding node_key_from_sig
normalize-node_key_from_sig signer algorithm tag =
    marked_normal (normalize signer) (key_suffix algorithm tag) (fold-normalize signer)
      (key_suffix-IsSuffixByte algorithm tag)

-- A node key is never empty, which is how the store writes "no parent".
pub node_key_from_sig-nonempty :
    (signer : Bytes) (algorithm tag : ℕ) → node_key_from_sig signer algorithm tag ≢ []
unfolding node_key_from_sig
node_key_from_sig-nonempty signer algorithm tag h = go (normalize signer) _ h
  where
    go : (p r : Bytes) → p ++ (dot ∷ r) ≢ []
    go [] r e = cc
    go (c ∷ p) r e = cc

Nil-cases : (s : Bytes) → (s ≡ []) ⊎ (s ≢ [])
Nil-cases [] = inl refl
Nil-cases (c ∷ s) = inr (λ h. cc)

whole_of_root :
    (signer : Bytes) (algorithm tag : ℕ)
    → normalize signer ≡ []
    → node_key_name (node_key_from_sig signer algorithm tag)
      ≡ node_key_from_sig signer algorithm tag
unfolding node_key_name node_key_from_sig name_before
whole_of_root signer algorithm tag e = rw e (
    ap (name_before _)
      (last_mark-append [] (key_suffix algorithm tag) (key_suffix-IsSuffixByte algorithm tag)))

longer :
    (signer : Bytes) (algorithm tag : ℕ) → node_key_from_sig signer algorithm tag ≢ normalize signer
unfolding node_key_from_sig
longer signer algorithm tag h =
    ground
      (arith, ap length h, length-append (normalize signer) (dot ∷ b'+' ∷ key_suffix algorithm tag))

-- Two signers with one node key have one name, unless the first is the root.
pub node_key_from_sig-name :
    (a b : Bytes) (x y t u : ℕ)
    → normalize a ≢ []
    → node_key_from_sig a x t ≡ node_key_from_sig b y u
    → normalize a ≡ normalize b
node_key_from_sig-name a b x y t u ne e = elim (Nil-cases (normalize b)) [
  | inl root ↦ absurd (
      longer a x t (
        e
        ∙ sym (whole_of_root b y u root)
        ∙ ap node_key_name (sym e)
        ∙ node_key_name-from_sig a x t ne))
  | inr some_name ↦
      sym (node_key_name-from_sig a x t ne)
      ∙ ap node_key_name e
      ∙ node_key_name-from_sig b y u some_name
]
