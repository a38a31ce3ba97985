-- ===== src/Srp.antt =====
-- pkg/srp/instruction.go and names.go: an SRP update, classified into its instructions.
pub mod Classify
pub mod Fcfs
pub mod Validate
mod Tests
use sig0lease.Base.{
  ℕ, zero, suc, ◌+◌, ◌-◌, ◌*◌, ◌/◌, ◌%◌, ◌^◌, ◌≤◌, ◌<◌, min, max, ◌≡◌, refl, sym, ap, ◌∙◌, subst,
  ◌≢◌, ◌↔◌, ◌⊎◌, inl, inr, Bool, true, false, not, ◌&&◌, ◌||◌, Option, none, some, List, [], ◌∷◌,
  ◌++◌, map, append-nil, append_assoc, arith, ltb, leb, ◌==◌, if◌then◌else◌, leb→le, ltb→lt, ==_iff,
  ==_refl, Bool-cases, Option-cases, and_left, and_right, Bool-ext, length, get_elem?, take, drop,
  All, length-append, take-append-drop, length-drop, drop-append, All-append, Bytes, bytes, same,
  same_refl, same_iff, same_ne, empty, has_suffix, contains_byte, has_suffix_iff,
  contains_byte-append, Assoc, get, put, del, get-put, get-del, member, add, remove, member-add,
  member-remove, member-append, Result, ok, err, ok-injective, ◌>>=◌, ◌>>◌, refuse_if, is_some,
}
use sig0lease.Name.{fold, labels, join}
use sig0lease.Dns.{
  Header, Key, Rdata, Rr, key_data, txt, srv, ptr, a, aaaa, any, class_inet, class_none,
}

pub record Srv : Type 0 where
  pub hdr : Header
  pub priority : ℕ
  pub weight : ℕ
  pub port : ℕ
  pub target : Bytes

pub record Txt : Type 0 where
  pub hdr : Header
  pub strings : List Bytes

pub record Ptr : Type 0 where
  pub hdr : Header
  pub target : Bytes

pub record HostDescription : Type 0 where
  pub name : Bytes
  pub delete : Rr
  pub key : Option Key
  pub addresses : List Rr

pub record ServiceInstance : Type 0 where
  pub name : Bytes
  pub delete : Rr
  pub key : Option Key
  pub srv_ : Option Srv
  pub txts : List Txt
  pub removal_shaped : Bool

pub record ServiceDiscovery : Type 0 where
  pub name : Bytes
  pub target : Bytes
  pub is_add : Bool
  pub rr : Ptr
  pub base_type : Bytes

pub record ClassifiedUpdate : Type 0 where
  pub host : HostDescription
  pub instances : List ServiceInstance
  pub discovery : List ServiceDiscovery

pub data SrpError : Type 0 where
  nil_rr duplicate_delete wrong_class unrecognized_type add_without_delete two_hosts two_srv
        subtype_before_base no_host ptr_without_service srv_without_txt srv_target_not_host
        not_referenced two_keys key_elsewhere host_without_key zone_count prerequisites
        bad_lease_option inconsistent_ttls keys_differ bad_service_type bad_target nil_host_key :
      SrpError

-- `instances` holds the map of that name and `order` at once: each entry stands once, in the
-- order of first sight, under its name. `ptr_adds` holds the entries that `ptrAdds` points to.
pub record ClassifyState : Type 0 where
  pub deletes : Assoc Rr
  pub consumed : List Bytes
  pub host : Option HostDescription
  pub instances : List ServiceInstance
  pub discovery : List ServiceDiscovery
  pub ptr_adds : List ServiceDiscovery
  pub key_adds : List Key

-- `st.instances[name]`.
unfoldable pub find_instance : Bytes → List ServiceInstance → Option ServiceInstance
find_instance name [] = none
find_instance name (inst ∷ insts) =
    if same inst.name name then some inst else find_instance name insts

-- A write through the pointer to the instance with this name.
unfoldable pub update_instance :
    Bytes → (ServiceInstance → ServiceInstance) → List ServiceInstance → List ServiceInstance
update_instance name f [] = []
update_instance name f (inst ∷ insts) =
    if same inst.name name then f inst ∷ insts else inst ∷ update_instance name f insts

-- `isSubtypePTROwner` of the labels of a folded owner name.
subtype_base : List Bytes → Option Bytes
subtype_base (sub ∷ marker ∷ service ∷ domain ∷ rest) =
    if same marker (bytes "_sub") then some (join (service ∷ domain ∷ rest)) else none
subtype_base _ = none

unfoldable pub subtype_ptr_owner : Bytes → Option Bytes
unfolding subtype_base
subtype_ptr_owner owner = subtype_base (labels (fold owner))
