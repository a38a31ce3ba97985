-- ===== src/Store/Subtree.antt =====
-- pkg/lease/state.go: deleteSubtreeLocked, DeleteSubtree and ListSubtreeKeys. The order in which
-- a Go map is ranged over is that of the association list.
pub mod Traversal
pub mod Deletion
pub mod Removal
pub mod Exact
pub mod Listing
use sig0lease.Base.{
  ℕ, zero, suc, ◌+◌, ◌-◌, ◌*◌, ◌/◌, ◌%◌, ◌^◌, ◌≤◌, ◌<◌, min, max, ◌≡◌, refl, sym, ap, ◌∙◌, subst,
  ◌≢◌, ◌↔◌, ◌⊎◌, inl, inr, Bool, true, false, not, ◌&&◌, ◌||◌, Option, none, some, List, [], ◌∷◌,
  ◌++◌, map, append-nil, append_assoc, arith, ltb, leb, ◌==◌, if◌then◌else◌, leb→le, ltb→lt, ==_iff,
  ==_refl, Bool-cases, Option-cases, and_left, and_right, Bool-ext, length, get_elem?, take, drop,
  All, length-append, take-append-drop, length-drop, drop-append, All-append, Bytes, bytes, same,
  same_refl, same_iff, same_ne, empty, has_suffix, contains_byte, has_suffix_iff,
  contains_byte-append, Assoc, get, put, del, get-put, get-del, member, add, remove, member-add,
  member-remove, member-append, Result, ok, err, ◌>>=◌, ◌>>◌, refuse_if,
}
use sig0lease.Name.{normalize}
use sig0lease.NodeKey.{node_key_name}
use sig0lease.Store.{
  Record, NonKeyRecord, LeaseStore, StoreError, node_key_empty, HookOp, delete_op, detach_node,
  call_hook, values, or_nil,
}

-- How many entries all sets of children have together.
unfoldable pub edge_count : Assoc (List Bytes) → ℕ
edge_count [] = 0
edge_count ((k, kids) ∷ m) = length kids + edge_count m

-- The loop that collects `seen` from a stack, the top first: each turn pops one entry, and the
-- children of a node are pushed once.
unfoldable pub collect : ℕ → Assoc (List Bytes) → List Bytes → List Bytes → Option (List Bytes)
collect zero children stack seen = none
collect (suc fuel) children [] seen = some seen
collect (suc fuel) children (current ∷ stack) seen =
    let skipped = collect fuel children stack seen in
    let visited = collect fuel children (values current children ++ stack) (current ∷ seen) in
    if member current seen then skipped else visited

abbrev pub collect_fuel : Assoc (List Bytes) → ℕ
collect_fuel children = edge_count children + 2

unfoldable pub insert_longest : Bytes → List Bytes → List Bytes
insert_longest k [] = k ∷ []
insert_longest k (j ∷ js) =
    let rest = insert_longest k js in if leb (length j) (length k) then k ∷ j ∷ js else j ∷ rest

-- `sort.Slice` by falling length.
unfoldable pub longest_first : List Bytes → List Bytes
longest_first [] = []
longest_first (k ∷ ks) = insert_longest k (longest_first ks)

-- The name index without a node: an empty list leaves the map.
unfoldable pub unindexed : List Bytes → Bytes → Assoc (List Bytes) → Assoc (List Bytes)
unindexed [] name idx = del name idx
unindexed (n ∷ ns) name idx = put name (n ∷ ns) idx

unfoldable pub unindex :
    Option (List Bytes) → Bytes → Bytes → Assoc (List Bytes) → Assoc (List Bytes)
unindex none node name idx = idx
unindex (some []) node name idx = idx
unindex (some (n ∷ ns)) node name idx = unindexed (remove node (n ∷ ns)) name idx

-- One turn of the last loop, by what is found at the key: a KEY node, a non-KEY one, or neither.
unfoldable pub delete_found : Option Record → Option NonKeyRecord → Bytes → LeaseStore → LeaseStore
delete_found (some r) nk node st =
    let hooked =
      call_hook delete_op r
        (record st { children = detach_node node r.parent_key_name st.children }) in
    record hooked {
      leases = del node hooked.leases;
      name_idx =
          unindex (get (node_key_name node) st.name_idx) node (node_key_name node) st.name_idx;
    }
delete_found none (some nk) node st = record st {
  children = detach_node node nk.parent_key_name st.children;
  non_key_records = del node st.non_key_records;
}
delete_found none none node st = st

unfoldable pub delete_one : Bytes → LeaseStore → LeaseStore
delete_one node st =
    let found = delete_found (get node st.leases) (get node st.non_key_records) node st in
    record found { children = del node found.children }

unfoldable pub delete_each : List Bytes → LeaseStore → LeaseStore
delete_each [] st = st
delete_each (node ∷ nodes) st = delete_each nodes (delete_one node st)

-- The keys that `deleteSubtreeLocked` goes through.
unfoldable pub subtree_keys : Bytes → LeaseStore → List Bytes
subtree_keys root st =
    longest_first (or_nil (collect (collect_fuel st.children) st.children (root ∷ []) []))

unfoldable pub delete_subtree : Bytes → LeaseStore → Result StoreError LeaseStore
delete_subtree node st =
    let nk = normalize node in
    if empty nk then err node_key_empty else ok (delete_each (subtree_keys nk st) st)

-- The pushes of `ListSubtreeKeys`: children that are visited for the first time.
unfoldable pub unvisited : List Bytes → List Bytes → List Bytes
unvisited [] visited = []
unvisited (k ∷ kids) visited =
    let rest = unvisited kids (if member k visited then visited else k ∷ visited) in
    if member k visited then rest else k ∷ rest

-- The walk of `ListSubtreeKeys`: a node is visited when it is pushed.
unfoldable pub list_walk :
    ℕ → Assoc (List Bytes) → List Bytes → List Bytes → List Bytes → Option (List Bytes)
list_walk zero children stack visited all = none
list_walk (suc fuel) children [] visited all = some all
list_walk (suc fuel) children (current ∷ stack) visited all =
    let fresh = unvisited (values current children) visited in
    list_walk fuel children (fresh ++ stack) (fresh ++ visited) (all ++ fresh)

unfoldable pub list_subtree_keys : Bytes → LeaseStore → List Bytes
list_subtree_keys node st =
    let nk = normalize node in
    longest_first (or_nil (list_walk (collect_fuel st.children) st.children (nk ∷ []) (nk ∷ []) []))
