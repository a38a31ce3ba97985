-- ===== src/NodeLocks/Tests.antt =====
-- Node locks at work: tests, and the theorems at concrete inputs.
use sig0lease.Base.{
  ◌≡◌, refl, true, false, none, some, [], ◌∷◌, Bytes, bytes, same, member, add, remove, ok, err,
}
use sig0lease.NodeLocks.{
  NodeLocks, NodeLockSet, new_node_locks, compact, sorted, busy_ids, try_acquire, acquire, release,
}
use sig0lease.NodeLocks.Table.{Outcome, Waited, try_acquire-Outcome, acquire-Waited}
use sig0lease.NodeLocks.Steps.{
  System, takes, releases, Reach, here, next, idle, IsExclusive, mutual_exclusion,
}

abbrev id_a : Bytes
id_a = bytes "a"

abbrev id_b : Bytes
id_b = bytes "b"

abbrev holding_ab : NodeLocks
holding_ab = record { held = id_b ∷ id_a ∷ [] }

abbrev set_ab : NodeLockSet
set_ab = record { ids = id_a ∷ id_b ∷ []; released = false }

takes_sorted : try_acquire new_node_locks (id_b ∷ id_a ∷ id_b ∷ []) ≡ ok (holding_ab, set_ab)
unfolding try_acquire compact sorted busy_ids add member same
takes_sorted = refl

names_busy : try_acquire holding_ab (bytes "c" ∷ id_b ∷ []) ≡ err (id_b ∷ [])
unfolding try_acquire compact sorted busy_ids add member same
names_busy = refl

frees : release holding_ab set_ab ≡ some (new_node_locks, record set_ab { released = true })
unfolding release remove same
frees = refl

panics : release holding_ab (record set_ab { released = true }) ≡ none
unfolding release
panics = refl

waits :
    acquire holding_ab (id_a ∷ []) ((new_node_locks, id_a ∷ []) ∷ [])
    ≡ ok (record { held = id_a ∷ [] }, record { ids = id_a ∷ []; released = false })
unfolding acquire try_acquire compact sorted busy_ids add member same
waits = refl

try_acquire-Outcome_example : Outcome holding_ab (id_b ∷ []) (try_acquire holding_ab (id_b ∷ []))
try_acquire-Outcome_example = try_acquire-Outcome holding_ab (id_b ∷ [])

acquire-Waited_example :
    Waited
      ((holding_ab, id_a ∷ []) ∷ (new_node_locks, id_a ∷ []) ∷ [])
      (acquire holding_ab (id_a ∷ []) ((new_node_locks, id_a ∷ []) ∷ []))
acquire-Waited_example = acquire-Waited holding_ab (id_a ∷ []) ((new_node_locks, id_a ∷ []) ∷ [])

abbrev taken_ab : System
taken_ab = record { locks = holding_ab; live = set_ab ∷ [] }

Reach-ab : Reach idle taken_ab
Reach-ab = next here (takes idle (id_b ∷ id_a ∷ id_b ∷ []) holding_ab set_ab takes_sorted)

mutual_exclusion_example : IsExclusive taken_ab
mutual_exclusion_example = mutual_exclusion taken_ab Reach-ab

Reach-idle : Reach idle idle
Reach-idle =
    next Reach-ab
      (releases holding_ab new_node_locks set_ab (record set_ab { released = true }) [] [] frees)
