-- ===== src/NodeLocks/Steps.antt =====
-- Goroutines that take and release lock sets, in any order: no id is ever held twice.
use sig0lease.Base.{
  ℕ, ◌+◌, ◌≡◌, refl, subst, Bool, true, false, not, ◌&&◌, some, List, [], ◌∷◌, ◌++◌, arith, All,
  Bytes, member, ok,
}
use sig0lease.NodeLocks.{NodeLocks, NodeLockSet, new_node_locks, try_acquire, release}
use sig0lease.NodeLocks.Table.{Taken, Outcome, try_acquire-Outcome, member-release_all}

-- The table, and the sets that some goroutine has taken and not released.
pub record System : Type 0 where
  pub locks : NodeLocks
  pub live : List NodeLockSet

pub data Step : System → System → Type 0 where
  takes :
      (y : System) (lock_set : List Bytes) (n : NodeLocks) (s : NodeLockSet)
      → try_acquire y.locks lock_set ≡ ok (n, s)
      → Step y (record { locks = n; live = s ∷ y.live })
  releases :
      (n n' : NodeLocks) (s s' : NodeLockSet) (before after : List NodeLockSet)
      → release n s ≡ some (n', s')
      → Step
          (record { locks = n; live = before ++ (s ∷ after) })
          (record { locks = n'; live = before ++ after })

pub data Reach (y : System) : System → Type 0 where
  here : Reach y y
  next : {z w : System} → Reach y z → Step z w → Reach y w

abbrev pub idle : System
idle = record { locks = new_node_locks; live = [] }

abbrev pub one_if : Bool → ℕ
one_if true = 1
one_if false = 0

-- How many live sets hold an id.
abbrev pub holders : Bytes → List NodeLockSet → ℕ
holders j [] = 0
holders j (s ∷ live) = one_if (member j s.ids) + holders j live

-- Each id in the table is held by one live set, and every other id by none; a live set can be
-- released.
pub record IsExclusive (y : System) : Type 0 where
  pub once : (j : Bytes) → holders j y.live ≡ one_if (member j y.locks.held)
  pub unreleased : All (λ s. s.released ≡ false) y.live

holders-append :
    (j : Bytes) (xs ys : List NodeLockSet) → holders j (xs ++ ys) ≡ holders j xs + holders j ys
holders-append j [] ys = omega arith
holders-append j (s ∷ xs) ys = omega (arith, holders-append j xs ys)

All-removed :
    (P : NodeLockSet → Type 0) (xs : List NodeLockSet) (s : NodeLockSet) (ys : List NodeLockSet)
    → All P (xs ++ (s ∷ ys))
    → P s × All P (xs ++ ys)
All-removed P [] s ys h = h
All-removed P (x ∷ xs) s ys h = let (p, q) = All-removed P xs s ys h.1 in (p, (h.0, q))

released_held :
    (j : Bytes) (n n' : NodeLocks) (s s' : NodeLockSet)
    → release n s ≡ some (n', s')
    → member j n'.held ≡ (not (member j s.ids) && member j n.held)
unfolding release
released_held j n n' s s' e = ground (arith, member-release_all j s.ids n.held)

Step-IsExclusive : {y z : System} → Step y z → IsExclusive y → IsExclusive z
Step-IsExclusive (takes y lock_set n s e) x =
    let taken : Taken y.locks lock_set n s =
      subst (Outcome y.locks lock_set) e (try_acquire-Outcome y.locks lock_set) in
    record {
      once = λ j. ground (arith, taken.ids j, taken.were_free j, taken.now_held j, x.once j);
      unreleased = (taken.unreleased, x.unreleased);
    }
Step-IsExclusive (releases n n' s s' before after e) x = record {
  once = λ j. ground (
    arith,
    released_held j n n' s s' e,
    holders-append j before (s ∷ after),
    holders-append j before after,
    x.once j,
  );
  unreleased = (All-removed _ before s after x.unreleased).1;
}

IsExclusive-idle : IsExclusive idle
unfolding member
IsExclusive-idle = record { once = λ j. refl; unreleased = tt }

Reach-IsExclusive : {y z : System} → IsExclusive y → Reach y z → IsExclusive z
Reach-IsExclusive x here = x
Reach-IsExclusive x (next r s) = Step-IsExclusive s (Reach-IsExclusive x r)

-- However goroutines take and release sets, from an idle table on: each id is held by at most
-- one live set, the table holds exactly the ids of the live sets, and no live set has been
-- released.
pub mutual_exclusion : (y : System) → Reach idle y → IsExclusive y
mutual_exclusion y r = Reach-IsExclusive IsExclusive-idle r
