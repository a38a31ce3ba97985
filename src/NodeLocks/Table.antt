-- ===== src/NodeLocks/Table.antt =====
-- One call on the lock table: which ids it finds busy, takes and frees.
use sig0lease.Base.{
  ◌≡◌, refl, sym, ap, ◌∙◌, true, false, not, ◌&&◌, ◌||◌, List, [], ◌∷◌, arith, and_left, and_right,
  All, Bytes, same, same_refl, same_iff, member, add, remove, member-add, member-remove, Result, ok,
  err,
}
use sig0lease.NodeLocks.{
  NodeLocks, NodeLockSet, insert_sorted, sorted, compact, busy_ids, hold_all, take_free,
  try_acquire, acquire_wait, acquire, release_all,
}

member-insert_sorted :
    (j x : Bytes) (ys : List Bytes) → member j (insert_sorted x ys) ≡ (same x j || member j ys)
unfolding insert_sorted member
member-insert_sorted j x [] = refl
member-insert_sorted j x (y ∷ ys) = ground (arith, member-insert_sorted j x ys)

pub member-sorted : (j : Bytes) (xs : List Bytes) → member j (sorted xs) ≡ member j xs
unfolding sorted member
member-sorted j [] = refl
member-sorted j (x ∷ xs) = ground (arith, member-insert_sorted j x (sorted xs), member-sorted j xs)

member-compact : (j : Bytes) (xs : List Bytes) → member j (compact xs) ≡ member j xs
unfolding compact member
member-compact j [] = refl
member-compact j (x ∷ []) = refl
member-compact j (x ∷ y ∷ ys) = ground (arith, member-compact j (y ∷ ys), same_iff x y)

pub member-lock_set : (j : Bytes) (xs : List Bytes) → member j (compact (sorted xs)) ≡ member j xs
member-lock_set j xs = member-compact j (sorted xs) ∙ member-sorted j xs

pub member-busy_ids :
    (j : Bytes) (held ids : List Bytes)
    → member j (busy_ids held ids) ≡ (member j ids && member j held)
unfolding busy_ids member
member-busy_ids j held [] = refl
member-busy_ids j held (id ∷ ids) = ground (arith, member-busy_ids j held ids, same_iff id j)

pub member-hold_all :
    (j : Bytes) (ids held : List Bytes)
    → member j (hold_all ids held) ≡ (member j ids || member j held)
unfolding hold_all member
member-hold_all j [] held = refl
member-hold_all j (id ∷ ids) held =
    ground (arith, member-hold_all j ids (add id held), member-add id held j)

pub member-release_all :
    (j : Bytes) (ids held : List Bytes)
    → member j (release_all ids held) ≡ (not (member j ids) && member j held)
unfolding release_all member
member-release_all j [] held = refl
member-release_all j (id ∷ ids) held =
    ground (arith, member-release_all j ids (remove id held), member-remove id held j)

-- What a successful call has done.
pub record Taken (n : NodeLocks) (lock_set : List Bytes) (n' : NodeLocks) (s : NodeLockSet)
    : Type 0 where
  pub unreleased : s.released ≡ false
  pub ids : (j : Bytes) → member j s.ids ≡ member j lock_set
  pub were_free : (j : Bytes) → member j lock_set ≡ true → member j n.held ≡ false
  pub now_held : (j : Bytes) → member j n'.held ≡ (member j lock_set || member j n.held)

-- What a refused call reports: exactly the ids that are held already, and there is one.
pub record Busy (n : NodeLocks) (lock_set busy : List Bytes) : Type 0 where
  pub some_busy : (j : Bytes) × (member j busy ≡ true)
  pub exactly : (j : Bytes) → member j busy ≡ (member j lock_set && member j n.held)

abbrev pub Outcome : NodeLocks → List Bytes → Result (List Bytes) (NodeLocks × NodeLockSet) → Type 0
Outcome n lock_set (ok (n', s)) = Taken n lock_set n' s
Outcome n lock_set (err busy) = Busy n lock_set busy

-- `TryAcquire` takes all the ids or none: it succeeds with each id of the lock set held and all
-- others as they were, if none of them was held; otherwise the error names exactly those of the
-- lock set that are held, of which there is at least one.
pub try_acquire-Outcome :
    (n : NodeLocks) (lock_set : List Bytes) → Outcome n lock_set (try_acquire n lock_set)
unfolding try_acquire
try_acquire-Outcome n lock_set = go (busy_ids n.held (compact (sorted lock_set))) refl
  where
    found :
        (j : Bytes)
        → member j (busy_ids n.held (compact (sorted lock_set)))
          ≡ (member j lock_set && member j n.held)
    found j =
        member-busy_ids j n.held (compact (sorted lock_set))
        ∙ ap (λ b. b && member j n.held) (member-lock_set j lock_set)

    go :
        (b : List Bytes)
        → busy_ids n.held (compact (sorted lock_set)) ≡ b
        → Outcome n lock_set (take_free n (compact (sorted lock_set)) b)
    go [] e = record {
      unreleased = refl;
      ids = λ j. member-lock_set j lock_set;
      were_free = λ j h. free_of_none j (ap (member j) (sym e) ∙ found j) h;
      now_held = λ j.
          member-hold_all j (compact (sorted lock_set)) n.held
          ∙ ap (λ b. b || member j n.held) (member-lock_set j lock_set);
    }
      where
        free_of_none :
            (j : Bytes)
            → member j [] ≡ (member j lock_set && member j n.held)
            → member j lock_set ≡ true
            → member j n.held ≡ false
        free_of_none j q h = unfold member in ground arith
    go (b ∷ busy) e = record {
      some_busy = (b, unfold member in ground (arith, same_refl b));
      exactly = λ j. ap (member j) (sym e) ∙ found j;
    }

-- One try of `Acquire`.
abbrev pub Try : Type 0
Try = NodeLocks × List Bytes

-- Some id of the try's lock set is held.
abbrev pub Blocked : Try → Type 0
Blocked t = (j : Bytes) × (member j t.1 ≡ true) × (member j t.0.held ≡ true)

-- The try that `Acquire` succeeds at, behind tries that were blocked.
pub data Succeeds (n' : NodeLocks) (s : NodeLockSet) : List Try → Type 0 where
  now : {t : Try} {later : List Try} → Taken t.0 t.1 n' s → Succeeds n' s (t ∷ later)
  later : {t : Try} {ts : List Try} → Blocked t → Succeeds n' s ts → Succeeds n' s (t ∷ ts)

abbrev pub Waited : List Try → Result (List Bytes) (NodeLocks × NodeLockSet) → Type 0
Waited tries (ok (n', s)) = Succeeds n' s tries
Waited tries (err busy) = All Blocked tries

Blocked-of_Busy :
    (n : NodeLocks) (lock_set busy : List Bytes) → Busy n lock_set busy → Blocked (n, lock_set)
Blocked-of_Busy n lock_set busy b =
    let (j, h) = b.some_busy in
    let both = sym (b.exactly j) ∙ h in (j, and_left _ _ both, and_right _ _ both)

wait-Waited :
    (t : Try) (wakes : List Try) (r : Result (List Bytes) (NodeLocks × NodeLockSet))
    → Outcome t.0 t.1 r
    → Waited (t ∷ wakes) (acquire_wait r wakes)
unfolding acquire_wait
wait-Waited t wakes (ok (n', s)) o = now o
wait-Waited t [] (err busy) o = (Blocked-of_Busy t.0 t.1 busy o, tt)
wait-Waited t (w ∷ wakes) (err busy) o =
    step (Blocked-of_Busy t.0 t.1 busy o) (acquire_wait (try_acquire w.0 w.1) wakes)
      (wait-Waited w wakes (try_acquire w.0 w.1) (try_acquire-Outcome w.0 w.1))
  where
    step :
        Blocked t
        → (r : Result (List Bytes) (NodeLocks × NodeLockSet)) → Waited (w ∷ wakes) r
        → Waited (t ∷ w ∷ wakes) r
    step b (ok (n', s)) h = later b h
    step b (err busy') h = (b, h)

-- `Acquire` takes its whole set at the first try whose ids are all free, and fails only when the
-- context ends with some id held at each try, the last one included.
pub acquire-Waited :
    (n : NodeLocks) (lock_set : List Bytes) (wakes : List Try)
    → Waited ((n, lock_set) ∷ wakes) (acquire n lock_set wakes)
unfolding acquire
acquire-Waited n lock_set wakes =
    wait-Waited (n, lock_set) wakes (try_acquire n lock_set) (try_acquire-Outcome n lock_set)
