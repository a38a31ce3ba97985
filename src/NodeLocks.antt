-- ===== src/NodeLocks.antt =====
-- pkg/lease/nodelock.go: the table of node locks. A set of ids is a value of `TryAcquire`; the
-- goroutines that hold one are the entries of `holders` in the step relation of NodeLocks.Steps.
pub mod Table
pub mod Steps
mod Tests
use sig0lease.Base.{
  ℕ, zero, suc, ◌+◌, ◌-◌, ◌*◌, ◌/◌, ◌%◌, ◌^◌, ◌≤◌, ◌<◌, min, max, ◌≡◌, refl, sym, ap, ◌∙◌, subst,
  ◌≢◌, ◌↔◌, ◌⊎◌, inl, inr, Bool, true, false, not, ◌&&◌, ◌||◌, Option, none, some, List, [], ◌∷◌,
  ◌++◌, map, append-nil, append_assoc, arith, ltb, leb, ◌==◌, if◌then◌else◌, leb→le, ltb→lt, ==_iff,
  ==_refl, Bool-cases, Option-cases, and_left, and_right, Bool-ext, length, get_elem?, take, drop,
  All, length-append, take-append-drop, length-drop, drop-append, All-append, Bytes, bytes, same,
  same_refl, same_iff, same_ne, empty, has_suffix, contains_byte, has_suffix_iff,
  contains_byte-append, Assoc, get, put, del, get-put, get-del, member, add, remove, member-add,
  member-remove, member-append, Result, ok, err, ◌>>=◌, ◌>>◌, refuse_if,
}

-- `held`; the channel `released` only wakes waiters, who then try again.
pub record NodeLocks : Type 0 where
  pub held : List Bytes

abbrev pub new_node_locks : NodeLocks
new_node_locks = record { held = [] }

-- The ids and the `released` flag of a set.
pub record NodeLockSet : Type 0 where
  pub ids : List Bytes
  pub released : Bool

-- The order of Go strings: byte by byte, a prefix first.
unfoldable pub before : Bytes → Bytes → Bool
before [] t = true
before (x ∷ s) [] = false
before (x ∷ s) (y ∷ t) = ltb x y || (x == y && before s t)

insert_sorted : Bytes → List Bytes → List Bytes
unfolding before
insert_sorted x [] = x ∷ []
insert_sorted x (y ∷ ys) =
    let rest = insert_sorted x ys in if before x y then x ∷ y ∷ ys else y ∷ rest

-- `slices.Sorted`.
unfoldable pub sorted : List Bytes → List Bytes
unfolding insert_sorted
sorted [] = []
sorted (x ∷ xs) = insert_sorted x (sorted xs)

-- `slices.Compact`: of equal neighbours one is kept.
unfoldable pub compact : List Bytes → List Bytes
compact [] = []
compact (x ∷ []) = x ∷ []
compact (x ∷ y ∷ ys) = let rest = compact (y ∷ ys) in if same x y then rest else x ∷ rest

-- The ids that are already held.
unfoldable pub busy_ids : List Bytes → List Bytes → List Bytes
busy_ids held [] = []
busy_ids held (id ∷ ids) =
    let rest = busy_ids held ids in if member id held then id ∷ rest else rest

unfoldable pub hold_all : List Bytes → List Bytes → List Bytes
hold_all [] held = held
hold_all (id ∷ ids) held = hold_all ids (add id held)

-- The table and the set, or the busy ids.
take_free : NodeLocks → List Bytes → List Bytes → Result (List Bytes) (NodeLocks × NodeLockSet)
unfolding hold_all
take_free n ids (b ∷ busy) = err (b ∷ busy)
take_free n ids [] =
    ok (record { held = hold_all ids n.held }, record { ids = ids; released = false })

-- `tryLocked` and `TryAcquire`, at the ids that `lockSet` returned under the mutex.
unfoldable pub try_acquire : NodeLocks → List Bytes → Result (List Bytes) (NodeLocks × NodeLockSet)
unfolding take_free
try_acquire n lock_set =
    let ids = compact (sorted lock_set) in take_free n ids (busy_ids n.held ids)

-- `Acquire`: the table and the ids at the first try and, in order, after each release until the
-- context is done. The error names the ids that were held at the last try.
acquire_wait :
    Result (List Bytes) (NodeLocks × NodeLockSet)
    → List (NodeLocks × List Bytes)
    → Result (List Bytes) (NodeLocks × NodeLockSet)
acquire_wait (ok taken) wakes = ok taken
acquire_wait (err busy) [] = err busy
acquire_wait (err busy) ((n, lock_set) ∷ wakes) = acquire_wait (try_acquire n lock_set) wakes

unfoldable pub acquire :
    NodeLocks
    → List Bytes
    → List (NodeLocks × List Bytes)
    → Result (List Bytes) (NodeLocks × NodeLockSet)
unfolding acquire_wait
acquire n lock_set wakes = acquire_wait (try_acquire n lock_set) wakes

unfoldable pub release_all : List Bytes → List Bytes → List Bytes
release_all [] held = held
release_all (id ∷ ids) held = release_all ids (remove id held)

-- `none` is the panic on a second release.
unfoldable pub release : NodeLocks → NodeLockSet → Option (NodeLocks × NodeLockSet)
unfolding release_all
release n s =
    if s.released
    then none
    else some (record { held = release_all s.ids n.held }, record s { released = true })
