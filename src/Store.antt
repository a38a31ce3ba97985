-- ===== src/Store.antt =====
-- pkg/lease/state.go: the in-memory lease store, InMemoryLeaseStore. Time is in nanoseconds; the
-- clock's reading is an argument. The mutex makes each method one step.
pub mod NonKey
pub mod Subtree
pub mod Edges
pub mod Invariant
pub mod Renewal
pub mod Registration
pub mod Ownership
pub mod Steps
pub mod Finding
pub mod Reading
pub mod Identities
pub mod Samples
mod Tests
use sig0lease.Base.{
  ℕ, zero, suc, ◌+◌, ◌-◌, ◌*◌, ◌/◌, ◌%◌, ◌^◌, ◌≤◌, ◌<◌, min, max, ◌≡◌, refl, sym, ap, ◌∙◌, subst,
  ◌≢◌, ◌↔◌, ◌⊎◌, inl, inr, Bool, true, false, not, ◌&&◌, ◌||◌, Option, none, some, List, [], ◌∷◌,
  ◌++◌, map, append-nil, append_assoc, arith, ltb, leb, ◌==◌, if◌then◌else◌, leb→le, ltb→lt, ==_iff,
  ==_refl, Bool-cases, Option-cases, and_left, and_right, Bool-ext, length, get_elem?, take, drop,
  All, length-append, take-append-drop, length-drop, drop-append, All-append, Bytes, bytes, same,
  same_refl, same_iff, same_ne, empty, has_suffix, contains_byte, has_suffix_iff,
  contains_byte-append, Assoc, get, put, del, get-put, get-del, member, add, remove, member-add,
  member-remove, member-append, Result, ok, err, ◌>>=◌, ◌>>◌, refuse_if, is_some,
}
use sig0lease.Name.{normalize}
use sig0lease.Dns.{Key, Rr, DnsLibrary}
use sig0lease.NodeKey.{node_key, node_key_from_sig}

pub data NodeKind : Type 0 where
  key non_key : NodeKind

pub record BaseRecord : Type 0 where
  pub node_kind : NodeKind
  pub rr_type : ℕ
  pub expires_at : ℕ
  pub lease_duration : ℕ  -- uint32, seconds
  pub registered_at : ℕ
  pub parent_key_name : Bytes

-- A KEY lease node.
pub record Record : Type 0 where
  pub base : BaseRecord
  pub open base use *
  pub key_name : Bytes
  pub key_rr : Key
  pub key_lease_duration : ℕ  -- uint32, seconds
  pub upstream_zone : Bytes

-- A non-KEY node.
pub record NonKeyRecord : Type 0 where
  pub base : BaseRecord
  pub open base use *
  pub rr_key : Bytes
  pub rr : Rr
  pub upstream_zone : Bytes

pub data HookOp : Type 0 where
  register_op renew_op delete_op : HookOp

-- The calls of the persistence hook are kept in order, newest first; its result is ignored.
pub record LeaseStore : Type 0 where
  pub leases : Assoc Record
  pub non_key_records : Assoc NonKeyRecord
  pub name_idx : Assoc (List Bytes)
  pub children : Assoc (List Bytes)
  pub has_hook : Bool
  pub hook_calls : List (HookOp × Record)

pub data StoreError : Type 0 where
  key_rr_nil key_name_empty non_key_parent no_existing_lease node_key_empty owner_empty
        different_owner :
      StoreError

abbrev pub new_in_memory_manager : LeaseStore
new_in_memory_manager = record {
  leases = [];
  non_key_records = [];
  name_idx = [];
  children = [];
  has_hook = false;
  hook_calls = [];
}

abbrev pub second : ℕ
second = 1000000000

-- `now.Add(time.Duration(d) * time.Second)`: a uint32 of seconds fits in an int64 of nanoseconds.
abbrev pub after_seconds : ℕ → ℕ → ℕ
after_seconds now d = now + d * second

-- The value of a missing key in a Go map of slices or sets.
abbrev pub or_nil : Option (List Bytes) → List Bytes
or_nil none = []
or_nil (some xs) = xs

abbrev pub values : Bytes → Assoc (List Bytes) → List Bytes
values k m = or_nil (get k m)

unfoldable pub attach_node : Bytes → Bytes → Assoc (List Bytes) → Assoc (List Bytes)
attach_node node parent children =
    if empty parent then children else put parent (add node (values parent children)) children

-- An empty set leaves the map.
unfoldable pub store_kids : Bytes → List Bytes → Assoc (List Bytes) → Assoc (List Bytes)
store_kids parent [] children = del parent children
store_kids parent (k ∷ kids) children = put parent (k ∷ kids) children

unfoldable pub detach_known :
    Option (List Bytes) → Bytes → Bytes → Assoc (List Bytes) → Assoc (List Bytes)
detach_known none node parent children = children
detach_known (some kids) node parent children = store_kids parent (remove node kids) children

unfoldable pub detach_node : Bytes → Bytes → Assoc (List Bytes) → Assoc (List Bytes)
detach_node node parent children =
    if empty parent then children else detach_known (get parent children) node parent children

unfoldable pub call_hook : HookOp → Record → LeaseStore → LeaseStore
call_hook op r st = record st {
  hook_calls = if st.has_hook then (op, r) ∷ st.hook_calls else st.hook_calls;
}

-- `IsExpired`.
unfoldable pub is_expired : ℕ → Record → Bool
is_expired now r = ltb r.expires_at now

-- The parent as it is stored: normalized, and none if it is the node itself.
unfoldable pub stored_parent : Bytes → Bytes → Bytes
stored_parent parent node = let p = normalize parent in if same p node then [] else p

-- The tree and the name index of a node that was there, or of a new one.
unfoldable pub index_node : Option Record → Bytes → Bytes → LeaseStore → LeaseStore
index_node (some existing) node name st = record st {
  children = detach_node node existing.parent_key_name st.children;
}
index_node none node name st = record st {
  name_idx = put name (values name st.name_idx ++ (node ∷ [])) st.name_idx;
}

unfoldable pub put_record : Bytes → Record → LeaseStore → LeaseStore
put_record node r st =
    let indexed = index_node (get node st.leases) node r.key_name st in
    call_hook register_op r (record indexed {
      leases = put node r indexed.leases;
      children = attach_node node r.parent_key_name indexed.children;
    })

module _ (now : ℕ) where
  unfoldable pub new_record : Key → Bytes → ℕ → ℕ → Bytes → Record
  new_record k parent lease_duration key_lease_duration zone = record {
    base = record {
      node_kind = key;
      rr_type = 25;
      expires_at = after_seconds now lease_duration;
      lease_duration = lease_duration;
      registered_at = now;
      parent_key_name = parent;
    };
    key_name = normalize k.hdr.name;
    key_rr = k;
    key_lease_duration = key_lease_duration;
    upstream_zone = normalize zone;
  }

  unfoldable pub renewed : Key → ℕ → ℕ → Record → Record
  renewed k lease_duration key_lease_duration r = record r {
    base = record (r.base) {
      expires_at = after_seconds now lease_duration;
      lease_duration = lease_duration;
    };
    key_lease_duration = key_lease_duration;
    key_rr = k;
  }

  -- A lookup's answer: no record that has expired.
  unfoldable pub unexpired : Option Record → Option Record
  unexpired none = none
  unexpired (some r) = if is_expired now r then none else some r

  found_records : List Bytes → Assoc Record → List Record
  found_records [] leases = []
  found_records (node ∷ nodes) leases = elim (unexpired (get node leases)) [
    | none ↦ found_records nodes leases
    | some r ↦ r ∷ found_records nodes leases
  ]

  -- `FindByName`.
  unfoldable pub find_by_name : Bytes → LeaseStore → List Record
  unfolding found_records unexpired is_expired
  find_by_name name st = found_records (values (normalize name) st.name_idx) st.leases

module _ (lib : DnsLibrary) (now : ℕ) where
  -- `RegisterWithParent`; `none` is a nil KEY.
  unfoldable pub register_with_parent :
      Bytes → Option Key → ℕ → ℕ → Bytes → LeaseStore → Result StoreError LeaseStore
  register_with_parent parent none lease_duration key_lease_duration zone st = err key_rr_nil
  register_with_parent parent (some k) lease_duration key_lease_duration zone st =
      let node = node_key lib k in
      let p = stored_parent parent node in
      if empty (normalize k.hdr.name)
      then err key_name_empty
      else if not (empty p) && is_some (get p st.non_key_records)
      then err non_key_parent
      else ok (put_record node (new_record now k p lease_duration key_lease_duration zone) st)

  unfoldable pub register : Option Key → ℕ → ℕ → Bytes → LeaseStore → Result StoreError LeaseStore
  unfolding register_with_parent
  register = register_with_parent []

  unfoldable pub renew_found :
      Option Record → Key → ℕ → ℕ → LeaseStore → Result StoreError LeaseStore
  renew_found none k lease_duration key_lease_duration st = err no_existing_lease
  renew_found (some existing) k lease_duration key_lease_duration st =
      let r = renewed now k lease_duration key_lease_duration existing in
      ok (call_hook renew_op r (record st { leases = put (node_key lib k) r st.leases }))

  unfoldable pub renew_lease : Option Key → ℕ → ℕ → LeaseStore → Result StoreError LeaseStore
  renew_lease none lease_duration key_lease_duration st = err key_rr_nil
  renew_lease (some k) lease_duration key_lease_duration st =
      renew_found (get (node_key lib k) st.leases) k lease_duration key_lease_duration st

  unfoldable pub lookup_by_key : Key → LeaseStore → Option Record
  lookup_by_key k st = unexpired now (get (node_key lib k) st.leases)

  unfoldable pub lookup_by_sig : Bytes → ℕ → ℕ → LeaseStore → Option Record
  lookup_by_sig signer algorithm tag st =
      unexpired now (get (node_key_from_sig signer algorithm tag) st.leases)

-- `Get`, expired records included.
unfoldable pub get_record : Bytes → LeaseStore → Option Record
get_record node st = get (normalize node) st.leases
