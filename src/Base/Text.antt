-- ===== src/Base/Text.antt =====
-- Go strings: lists of bytes, with equality, suffixes and text literals.
use Prim.Native.Nat.{ℕ}
use Prim.Native.Char.{code}
use Prim.Native.String.{String}
use mathlib.Core.Path.{◌≡◌, refl, ap, ◌∙◌}
use mathlib.Core.Logic.{◌≢◌, ◌↔◌, inl, inr}
use mathlib.Core.Bool.{Bool, true, false, ◌&&◌, ◌||◌}
use mathlib.Core.List.{List, [], ◌∷◌, ◌++◌}
use native.Mathlib.Omega.{arith}
use sig0lease.Base.Tests.{◌==◌, Bool-cases}

abbrev pub Bytes : Type 0
Bytes = List ℕ

-- The bytes of an ASCII literal.
abbrev pub bytes : String → Bytes
bytes String.[] = []
bytes (String.◌∷◌ c s) = code c ∷ bytes s

unfoldable pub same : Bytes → Bytes → Bool
same [] [] = true
same [] (y ∷ ys) = false
same (x ∷ xs) [] = false
same (x ∷ xs) (y ∷ ys) = x == y && same xs ys

pub same_refl : (s : Bytes) → same s s ≡ true
unfolding same
same_refl [] = refl
same_refl (x ∷ xs) = ground (arith, same_refl xs)

same→eq : (s t : Bytes) → same s t ≡ true → s ≡ t
unfolding same
same→eq [] [] h = refl
same→eq [] (y ∷ ys) h = cc
same→eq (x ∷ xs) [] h = cc
same→eq (x ∷ xs) (y ∷ ys) h = ground (arith, same→eq xs ys)

eq→same : (s t : Bytes) → s ≡ t → same s t ≡ true
eq→same s t e = cc (same_refl s, ap (same s) e)

pub same_iff : (s t : Bytes) → (same s t ≡ true) ↔ (s ≡ t)
same_iff s t = (same→eq s t, eq→same s t)

pub same_ne : (s t : Bytes) → s ≢ t → same s t ≡ false
same_ne s t h = ground (arith, same_iff s t)

-- A string without bytes.
unfoldable pub empty : Bytes → Bool
empty [] = true
empty (x ∷ xs) = false

-- `strings.HasSuffix`.
unfoldable pub has_suffix : Bytes → Bytes → Bool
has_suffix [] t = same [] t
has_suffix (x ∷ xs) t = same (x ∷ xs) t || has_suffix xs t

-- `strings.Contains` for one byte, and `bytes.IndexByte(...) >= 0`.
unfoldable pub contains_byte : ℕ → Bytes → Bool
contains_byte b [] = false
contains_byte b (x ∷ xs) = b == x || contains_byte b xs

has_suffix_sound : (s t : Bytes) → has_suffix s t ≡ true → (p : Bytes) × (s ≡ p ++ t)
unfolding has_suffix
has_suffix_sound [] t h = ([], (same_iff [] t).0 h)
has_suffix_sound (x ∷ xs) t h = elim (Bool-cases (same (x ∷ xs) t)) [
  | inl e ↦ ([], (same_iff (x ∷ xs) t).0 e)
  | inr e ↦ let (p, q) = has_suffix_sound xs t (ground (arith, e)) in (x ∷ p, ap (◌∷◌ x) q)
]

has_suffix_complete : (p t : Bytes) → has_suffix (p ++ t) t ≡ true
unfolding has_suffix
has_suffix_complete [] [] = same_refl []
has_suffix_complete [] (y ∷ ys) = ground (arith, same_refl (y ∷ ys))
has_suffix_complete (x ∷ p) t = ground (arith, has_suffix_complete p t)

pub has_suffix_iff : (s t : Bytes) → (has_suffix s t ≡ true) ↔ ((p : Bytes) × (s ≡ p ++ t))
has_suffix_iff s t =
    (has_suffix_sound s t, λ (p, e). ap (λ u. has_suffix u t) e ∙ has_suffix_complete p t)

pub contains_byte-append :
    (b : ℕ) (s t : Bytes) → contains_byte b (s ++ t) ≡ (contains_byte b s || contains_byte b t)
unfolding contains_byte
contains_byte-append b [] t = refl
contains_byte-append b (x ∷ xs) t = ground (arith, contains_byte-append b xs t)
