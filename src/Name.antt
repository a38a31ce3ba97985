-- ===== src/Name.antt =====
-- pkg/dnsname/dnsname.go and labels.go: names as byte strings, folded for US-ASCII only, and
-- their labels. "." always ends a label.
pub mod Fold
pub mod Labels
pub mod Below
pub mod Domains
pub mod Wire
mod Tests
use sig0lease.Base.{
  ℕ, zero, suc, ◌+◌, ◌-◌, ◌*◌, ◌/◌, ◌%◌, ◌^◌, ◌≤◌, ◌<◌, min, max, ◌≡◌, refl, sym, ap, ◌∙◌, subst,
  ◌≢◌, ◌↔◌, ◌⊎◌, inl, inr, Bool, true, false, not, ◌&&◌, ◌||◌, Option, none, some, List, [], ◌∷◌,
  ◌++◌, map, append-nil, append_assoc, arith, ltb, leb, ◌==◌, if◌then◌else◌, leb→le, ltb→lt, ==_iff,
  ==_refl, Bool-cases, Option-cases, and_left, and_right, Bool-ext, length, get_elem?, take, drop,
  All, length-append, take-append-drop, length-drop, drop-append, All-append, Bytes, bytes, same,
  same_refl, same_iff, same_ne, empty, has_suffix, contains_byte, has_suffix_iff,
  contains_byte-append, Assoc, get, put, del, get-put, get-del, member, add, remove, member-add,
  member-remove, member-append, Result, ok, err, ◌>>=◌, ◌>>◌, refuse_if,
}

abbrev pub dot : ℕ
dot = b'.'

unfoldable pub is_upper : ℕ → Bool
is_upper c = leb b'A' c && leb c b'Z'

-- `fold` of one byte.
unfoldable pub fold_byte : ℕ → ℕ
unfolding is_upper
fold_byte c = if is_upper c then (c + b'a' - b'A') % 256 else c

-- The inner loop of `Fold`, from the first upper-case letter on.
fold_rest : Bytes → Bytes
unfolding is_upper
fold_rest [] = []
fold_rest (c ∷ cs) = (if is_upper c then (c + (b'a' - b'A')) % 256 else c) ∷ fold_rest cs

-- `Fold`: a name without upper-case letters is returned as it is.
unfoldable pub fold : Bytes → Bytes
unfolding is_upper fold_rest
fold [] = []
fold (c ∷ cs) = let rest = fold cs in if is_upper c then fold_rest (c ∷ cs) else c ∷ rest

equal_fold_loop : Bytes → Bytes → Bool
unfolding fold_byte
equal_fold_loop [] b = true
equal_fold_loop (x ∷ a) [] = true
equal_fold_loop (x ∷ a) (y ∷ b) = fold_byte x == fold_byte y && equal_fold_loop a b

unfoldable pub equal_fold : Bytes → Bytes → Bool
unfolding equal_fold_loop
equal_fold a b = if length a == length b then equal_fold_loop a b else false

-- `strings.TrimSuffix(name, ".")`.
unfoldable pub trim_dot : Bytes → Bytes
trim_dot [] = []
trim_dot (c ∷ []) = if c == dot then [] else c ∷ []
trim_dot (c ∷ d ∷ cs) = c ∷ trim_dot (d ∷ cs)

unfoldable pub normalize : Bytes → Bytes
normalize name = trim_dot (fold name)

unfoldable pub is_at_or_below : Bytes → Bytes → Bool
is_at_or_below name zone =
    let n = normalize name in
    let z = normalize zone in if empty z then true else same n z || has_suffix n (dot ∷ z)

push : ℕ → List Bytes → List Bytes
push c [] = (c ∷ []) ∷ []
push c (l ∷ ls) = (c ∷ l) ∷ ls

-- `strings.Split(name, ".")`.
unfoldable pub split : Bytes → List Bytes
unfolding push
split [] = [] ∷ []
split (c ∷ cs) = let rest = split cs in if c == dot then [] ∷ rest else push c rest

-- `strings.Join(labels, ".")`.
unfoldable pub join : List Bytes → Bytes
join [] = []
join (l ∷ []) = l
join (l ∷ m ∷ ls) = l ++ (dot ∷ join (m ∷ ls))

unfoldable pub labels : Bytes → List Bytes
unfolding split
labels [] = []
labels (c ∷ cs) = split (c ∷ cs)

-- `strings.Cut(name, ".")`.
unfoldable pub cut_first_label : Bytes → Bytes × Bytes × Bool
cut_first_label [] = ([], [], false)
cut_first_label (c ∷ cs) =
    let rest = cut_first_label cs in
    if c == dot then ([], cs, true) else (c ∷ rest.0, rest.1, rest.2)

abbrev pub max_label_length : ℕ
max_label_length = 63

pub data LabelError : Type 0 where
  label_empty label_long label_dotted : LabelError

unfoldable pub check_label : Bytes → Result LabelError (Unit {0})
unfolding empty contains_byte
check_label label =
    if empty label
    then err label_empty
    else if ltb max_label_length (length label)
    then err label_long
    else if contains_byte dot label
    then err label_dotted
    else ok tt
