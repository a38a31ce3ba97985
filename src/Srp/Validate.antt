-- ===== src/Srp/Validate.antt =====
-- pkg/srp/validate.go: the checks on a classified update.
pub mod Keys
use sig0lease.Base.{
  ℕ, zero, suc, ◌+◌, ◌-◌, ◌*◌, ◌/◌, ◌%◌, ◌^◌, ◌≤◌, ◌<◌, min, max, ◌≡◌, refl, sym, ap, ◌∙◌, subst,
  ◌≢◌, ◌↔◌, ◌⊎◌, inl, inr, Bool, true, false, not, ◌&&◌, ◌||◌, Option, none, some, List, [], ◌∷◌,
  ◌++◌, map, append-nil, append_assoc, arith, ltb, leb, ◌==◌, if◌then◌else◌, leb→le, ltb→lt, ==_iff,
  ==_refl, Bool-cases, Option-cases, and_left, and_right, Bool-ext, length, get_elem?, take, drop,
  All, length-append, take-append-drop, length-drop, drop-append, All-append, Bytes, bytes, same,
  same_refl, same_iff, same_ne, empty, has_suffix, contains_byte, has_suffix_iff,
  contains_byte-append, Assoc, get, put, del, get-put, get-del, member, add, remove, member-add,
  member-remove, member-append, Result, ok, err, ok-injective, ◌>>=◌, ◌>>◌, refuse_if, is_some,
}
use sig0lease.Name.{cut_first_label}
use sig0lease.Dns.{Key, Rdata, Rr, DnsLibrary, key_data, srv, txt, ptr}
use sig0lease.LeaseOption.{
  SectionRr, erfc3597, option_code, find_option, decode, LeaseOption, OptionError,
}
use sig0lease.UpdateCore.{TtlError, check_consistent_ttls}
use sig0lease.Dnssd.{service_type_from_service_name}
use sig0lease.Srp.{
  Srv, Txt, Ptr, HostDescription, ServiceInstance, ServiceDiscovery, ClassifiedUpdate, SrpError,
  zone_count, prerequisites, bad_lease_option, inconsistent_ttls, keys_differ, bad_service_type,
  bad_target, nil_host_key,
}
use sig0lease.Srp.Classify.Checks.{classify}
use sig0lease.Srp.Fcfs.{keys_identical}

-- The sections of a message as far as the checks look at them: how many questions and answers it
-- has, the update section, and the two sections that may hold the lease option.
pub record Message : Type 0 where
  pub questions : ℕ
  pub answers : ℕ
  pub ns : List (Option Rr)
  pub pseudo : List SectionRr
  pub extra : List SectionRr

abbrev pub service_base : ServiceDiscovery → Bytes
service_base d = if empty d.base_type then d.name else d.base_type

unfoldable pub validate_service_names : List ServiceDiscovery → Result SrpError (Unit {0})
validate_service_names [] = ok tt
validate_service_names (d ∷ ds) =
    let rest = validate_service_names ds in
    if not d.is_add
    then rest
    else if not (is_some (service_type_from_service_name (service_base d)))
    then err bad_service_type
    else if not (same (cut_first_label d.target).1 (service_base d))
    then err bad_target
    else rest

lease_found : Option Bytes → Result SrpError (Unit {0})
lease_found none = err bad_lease_option
lease_found (some code) = lease_decoded (decode (erfc3597 option_code code ∷ []))
  where
    lease_decoded : Result OptionError LeaseOption → Result SrpError (Unit {0})
    lease_decoded (ok lo) = ok tt
    lease_decoded (err e) = err bad_lease_option

unfoldable pub validate_lease_option : List SectionRr → List SectionRr → Result SrpError (Unit {0})
unfolding lease_found
validate_lease_option pseudo extra = lease_found (find_option pseudo extra)

abbrev pub key_rr : Key → Option Rr
key_rr k =
    some (record { hdr = k.hdr; rdata = key_data k.flags k.protocol k.algorithm k.public_key })

abbrev srv_rr : Srv → Option Rr
srv_rr s = some (record { hdr = s.hdr; rdata = srv s.priority s.weight s.port s.target })

abbrev txt_rr : Txt → Option Rr
txt_rr t = some (record { hdr = t.hdr; rdata = txt t.strings })

abbrev ptr_rr : Ptr → Option Rr
ptr_rr p = some (record { hdr = p.hdr; rdata = ptr p.target })

abbrev one_or_none {ℓ} : {A : Type ℓ} → (A → Option Rr) → Option A → List (Option Rr)
one_or_none f none = []
one_or_none f (some x) = f x ∷ []

instance_adds : List ServiceInstance → List (Option Rr)
instance_adds [] = []
instance_adds (inst ∷ insts) =
    one_or_none srv_rr inst.srv_
    ++ (map txt_rr inst.txts ++ (one_or_none key_rr inst.key ++ instance_adds insts))

discovery_adds : List ServiceDiscovery → List (Option Rr)
discovery_adds [] = []
discovery_adds (d ∷ ds) =
    let rest = discovery_adds ds in if d.is_add then ptr_rr d.rr ∷ rest else rest

-- All the adds of the update.
unfoldable pub update_adds : ClassifiedUpdate → List (Option Rr)
unfolding instance_adds discovery_adds
update_adds cu =
    map some cu.host.addresses
    ++ (one_or_none key_rr cu.host.key
        ++ (instance_adds cu.instances ++ discovery_adds cu.discovery))

ttl_error : Result TtlError (Unit {0}) → Result SrpError (Unit {0})
ttl_error (ok _) = ok tt
ttl_error (err e) = err inconsistent_ttls

unfoldable pub validate_ttl_consistency : DnsLibrary → ClassifiedUpdate → Result SrpError (Unit {0})
unfolding ttl_error
validate_ttl_consistency lib cu = ttl_error (check_consistent_ttls lib (update_adds cu))

unfoldable pub explicit_keys : List ServiceInstance → List Key
explicit_keys [] = []
explicit_keys (inst ∷ insts) = elim inst.key [
  | none ↦ explicit_keys insts
  | some k ↦ k ∷ explicit_keys insts
]

unfoldable pub all_identical : Key → List Key → Bool
all_identical first [] = true
all_identical first (k ∷ ks) = keys_identical first k && all_identical first ks

-- `nil_host_key` is the panic at the first other KEY if the host has none, which `Classify` refuses.
keys_of : Option Key → List Key → Result SrpError (Unit {0})
unfolding all_identical
keys_of none [] = ok tt
keys_of none (k ∷ ks) = err nil_host_key
keys_of (some first) ks = if all_identical first ks then ok tt else err keys_differ

unfoldable pub validate_keys : ClassifiedUpdate → Result SrpError (Unit {0})
unfolding keys_of
validate_keys cu = keys_of cu.host.key (explicit_keys cu.instances)

unfoldable pub validate_post_classify :
    DnsLibrary → Message → ClassifiedUpdate → Result SrpError (Unit {0})
validate_post_classify lib msg cu = do
  validate_lease_option msg.pseudo msg.extra
  validate_ttl_consistency lib cu
  validate_keys cu
  validate_service_names cu.discovery

unfoldable pub validate_update : DnsLibrary → Message → Result SrpError ClassifiedUpdate
validate_update lib msg = do
  refuse_if (not (msg.questions == 1)) zone_count
  refuse_if (not (msg.answers == 0)) prerequisites
  cu ← classify msg.ns
  validate_post_classify lib msg cu
  ok cu

unfoldable pub validate_classified :
    DnsLibrary → Message → ClassifiedUpdate → Result SrpError (Unit {0})
validate_classified lib msg cu = do
  refuse_if (not (msg.questions == 1)) zone_count
  refuse_if (not (msg.answers == 0)) prerequisites
  validate_post_classify lib msg cu
