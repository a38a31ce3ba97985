-- ===== src/Srp/Fcfs.antt =====
-- pkg/srp/fcfs.go: first come, first served, for one name; and which KEY governs a name.
pub mod Rule
use sig0lease.Base.{
  ℕ, zero, suc, ◌+◌, ◌-◌, ◌*◌, ◌/◌, ◌%◌, ◌^◌, ◌≤◌, ◌<◌, min, max, ◌≡◌, refl, sym, ap, ◌∙◌, subst,
  ◌≢◌, ◌↔◌, ◌⊎◌, inl, inr, Bool, true, false, not, ◌&&◌, ◌||◌, Option, none, some, List, [], ◌∷◌,
  ◌++◌, map, append-nil, append_assoc, arith, ltb, leb, ◌==◌, if◌then◌else◌, leb→le, ltb→lt, ==_iff,
  ==_refl, Bool-cases, Option-cases, and_left, and_right, Bool-ext, length, get_elem?, take, drop,
  All, length-append, take-append-drop, length-drop, drop-append, All-append, Bytes, bytes, same,
  same_refl, same_iff, same_ne, empty, has_suffix, contains_byte, has_suffix_iff,
  contains_byte-append, Assoc, get, put, del, get-put, get-del, member, add, remove, member-add,
  member-remove, member-append, Result, ok, err, ok-injective, ◌>>=◌, ◌>>◌, refuse_if, is_some,
}
use sig0lease.Dns.{Header, Key, Rdata, Rr, any, other, class_none}
use sig0lease.Srp.{HostDescription, ServiceInstance, ClassifiedUpdate}

-- `AuthoritativeKeyState` with the keys that the query returned, and any other state.
pub data AuthState : Type 0 where
  nx_domain no_key unknown_state : AuthState
  key_present : List Key → AuthState

pub data FcfsResult : Type 0 where
  proceed conflict foreign_data : FcfsResult

pub data FcfsError : Type 0 where
  nil_update_key no_query query_failed bad_state : FcfsError

-- `keysIdentical` (validate.go): neither the flags nor the owner name count.
unfoldable pub keys_identical : Key → Key → Bool
keys_identical k l =
    k.algorithm == l.algorithm && k.protocol == l.protocol && same k.public_key l.public_key

-- A prerequisite of class NONE with a TTL of 0, and no RDATA.
abbrev pub name_not_in_use : Bytes → Rr
name_not_in_use name = record {
  hdr = record { name = name; class = class_none; ttl = 0 };
  rdata = any;
}

abbrev pub type_key : ℕ
type_key = 25

abbrev pub no_key_rrset : Bytes → Rr
no_key_rrset name = record {
  hdr = record { name = name; class = class_none; ttl = 0 };
  rdata = other type_key [];
}

unfoldable pub any_identical : List Key → Key → Bool
any_identical [] update_key = false
any_identical (k ∷ ks) update_key = keys_identical k update_key || any_identical ks update_key

abbrev Outcome : Type 0
Outcome = Result FcfsError (FcfsResult × Option Rr)

-- The `switch` on the state of the authoritative server.
unfoldable pub on_state : AuthState → Bytes → Key → Bool → Outcome
on_state nx_domain name update_key refuse_on_foreign_data =
    ok (proceed, some (if refuse_on_foreign_data then name_not_in_use name else no_key_rrset name))
on_state no_key name update_key refuse_on_foreign_data =
    if refuse_on_foreign_data
    then ok (foreign_data, none)
    else ok (proceed, some (no_key_rrset name))
on_state (key_present keys) name update_key refuse_on_foreign_data =
    ok (if any_identical keys update_key then proceed else conflict, none)
on_state unknown_state name update_key refuse_on_foreign_data = err bad_state

-- The query: `none` is a nil query, and an inner `none` is its error.
unfoldable pub on_query : Option (Option AuthState) → Bytes → Key → Bool → Outcome
on_query none name update_key refuse_on_foreign_data = err no_query
on_query (some none) name update_key refuse_on_foreign_data = err query_failed
on_query (some (some state)) name update_key refuse_on_foreign_data =
    on_state state name update_key refuse_on_foreign_data

-- What the lease store holds at the name comes first.
unfoldable pub on_store : Option Key → Option (Option AuthState) → Bytes → Key → Bool → Outcome
on_store (some k) query name update_key refuse_on_foreign_data =
    ok (if keys_identical k update_key then proceed else conflict, none)
on_store none query name update_key refuse_on_foreign_data =
    on_query query name update_key refuse_on_foreign_data

-- `Evaluate`: the store's view and the query as functions of the name.
unfoldable pub evaluate :
    (Bytes → Option Key) → Option (Bytes → Option AuthState) → Bytes → Option Key → Bool → Outcome
evaluate key_at_name query name none refuse_on_foreign_data = err nil_update_key
evaluate key_at_name none name (some update_key) refuse_on_foreign_data =
    on_store (key_at_name name) none name update_key refuse_on_foreign_data
evaluate key_at_name (some query) name (some update_key) refuse_on_foreign_data =
    on_store (key_at_name name) (some (query name)) name update_key refuse_on_foreign_data

unfoldable pub instance_names : List ServiceInstance → List Bytes
instance_names [] = []
instance_names (inst ∷ insts) = inst.name ∷ instance_names insts

unfoldable pub names : ClassifiedUpdate → List Bytes
names cu = cu.host.name ∷ instance_names cu.instances

unfoldable pub key_at_name : Option Key → Bytes → Option Key
key_at_name none name = none
key_at_name (some k) name = some (record k { hdr = record (k.hdr) { name = name } })

-- `inst.Key`, or the host's KEY at the instance's name.
own_or_host : Option Key → Option Key → Bytes → Option Key
own_or_host (some k) host_key name = some k
own_or_host none host_key name = key_at_name host_key name

unfoldable pub key_in : List ServiceInstance → Option Key → Bytes → Option Key
unfolding own_or_host
key_in [] host_key name = none
key_in (inst ∷ insts) host_key name =
    if same inst.name name
    then own_or_host inst.key host_key inst.delete.hdr.name
    else key_in insts host_key name

-- `KeyFor`: `none` is the panic for a name that is not in the update.
unfoldable pub key_for : ClassifiedUpdate → Bytes → Option Key
key_for cu name =
    if same name cu.host.name then cu.host.key else key_in cu.instances cu.host.key name
