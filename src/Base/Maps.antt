-- ===== src/Base/Maps.antt =====
-- Go maps with string keys, as association lists, and sets of strings. A Go map has one entry
-- for each key and no order: the laws below are all that the proofs use.
use mathlib.Core.Path.{◌≡◌, refl}
use mathlib.Core.Logic.{inl, inr}
use mathlib.Core.Bool.{Bool, false, not, ◌&&◌, ◌||◌}
use mathlib.Core.Option.{Option, none, some}
use mathlib.Core.List.{List, [], ◌∷◌, ◌++◌}
use native.Mathlib.Omega.{arith}
use sig0lease.Base.Tests.{if◌then◌else◌, Bool-cases}
use sig0lease.Base.Lists.{All}
use sig0lease.Base.Text.{Bytes, same, same_iff}

abbrev pub Assoc {ℓ} : Type ℓ → Type ℓ
Assoc V = List (Bytes × V)

module _ {ℓ} {V : Type ℓ} where
  -- `m[k]` with its `ok`.
  unfoldable pub get : Bytes → Assoc V → Option V
  get k [] = none
  get k ((j, v) ∷ m) = if same j k then some v else get k m

  -- `m[k] = v`.
  unfoldable pub put : Bytes → V → Assoc V → Assoc V
  put k v [] = (k, v) ∷ []
  put k v ((j, w) ∷ m) = if same j k then (k, v) ∷ m else (j, w) ∷ put k v m

  -- `delete(m, k)`.
  unfoldable pub del : Bytes → Assoc V → Assoc V
  del k [] = []
  del k ((j, w) ∷ m) = let rest = del k m in if same j k then rest else (j, w) ∷ rest

  pub get-put :
      (k : Bytes) (v : V) (m : Assoc V) (j : Bytes)
      → get j (put k v m) ≡ (if same k j then some v else get j m)
  unfolding get put
  get-put k v [] j = refl
  get-put k v ((i, w) ∷ m) j =
      ground (arith, same_iff k j, same_iff i k, same_iff i j, get-put k v m j)

  pub get-del :
      (k : Bytes) (m : Assoc V) (j : Bytes) → get j (del k m) ≡ (if same k j then none else get j m)
  unfolding get del
  get-del k [] j = ground arith
  get-del k ((i, w) ∷ m) j = ground (arith, same_iff k j, same_iff i k, same_iff i j, get-del k m j)

-- What holds of every entry holds of what is found.
pub get-all {ℓ κ} :
    {V : Type ℓ} (P : V → Type κ) (m : Assoc V)
    → All (λ e. P e.1) m
    → (k : Bytes) (v : V) → get k m ≡ some v
    → P v
unfolding get
get-all P [] all k v h = cc
get-all {V = V} P ((j, w) ∷ m) all k v h = elim (Bool-cases (same j k)) [
  | inl e ↦ let it : Path (Option V) (some w) (some v) = rw e at h in rw (← value_of it) all.0
  | inr e ↦ get-all P m all.1 k v (rw e at h)
]
  where
    value_of : some w ≡ some v → w ≡ v
    value_of q = cc

-- A set of strings, as `map[string]struct{}`.
unfoldable pub member : Bytes → List Bytes → Bool
member k [] = false
member k (x ∷ xs) = same x k || member k xs

unfoldable pub add : Bytes → List Bytes → List Bytes
add k xs = if member k xs then xs else k ∷ xs

unfoldable pub remove : Bytes → List Bytes → List Bytes
remove k [] = []
remove k (x ∷ xs) = let rest = remove k xs in if same x k then rest else x ∷ rest

pub member-add :
    (k : Bytes) (xs : List Bytes) (j : Bytes) → member j (add k xs) ≡ (same k j || member j xs)
unfolding add member
member-add k xs j = elim (Bool-cases (same k j)) [
  | inl e ↦ ground (arith, e, same_iff k j)
  | inr e ↦ ground (arith, e)
]

pub member-remove :
    (k : Bytes) (xs : List Bytes) (j : Bytes)
    → member j (remove k xs) ≡ (not (same k j) && member j xs)
unfolding member remove
member-remove k [] j = ground arith
member-remove k (x ∷ xs) j =
    ground (arith, same_iff k j, same_iff x k, same_iff x j, member-remove k xs j)

pub member-append :
    (k : Bytes) (xs ys : List Bytes) → member k (xs ++ ys) ≡ (member k xs || member k ys)
unfolding member
member-append k [] ys = refl
member-append k (x ∷ xs) ys = ground (arith, member-append k xs ys)
