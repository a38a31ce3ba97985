-- ===== src/Srp/Tests.antt =====
-- SRP updates at work: tests, and the theorems at concrete inputs.
use sig0lease.Base.{
  ℕ, ◌≡◌, refl, Bool, true, false, Option, none, some, List, [], ◌∷◌, ◌++◌, Bytes, bytes, same,
  empty, get, put, member, Result, ok, err,
}
use Prim.Native.String.{String}
use sig0lease.Name.{fold, labels, cut_first_label, trim_dot, normalize, split}
use sig0lease.Dns.{Key, Rdata, Rr, DnsLibrary, key_data, srv, txt, ptr, a, any}
use sig0lease.LeaseOption.{
  option_rr, option_code, find_option, scan, decode, find_in_opt, hex_decode, validate,
}
use sig0lease.UpdateCore.{
  check_consistent_ttls, consistent_groups, group_rrsets, append_group, same_key, rrset_key,
  consistent_group, all_ttl,
}
use sig0lease.Dnssd.{service_type_from_service_name, is_service_label, is_proto_label}
use sig0lease.Srp.{ClassifiedUpdate, SrpError, find_instance, update_instance, subtype_ptr_owner}
use sig0lease.Srp.Classify.{
  collect_deletes, classify_all, classify_rr, add_host_address, instance_for, add_ptr,
}
use sig0lease.Srp.Classify.Checks.{
  classify, reconcile, check_ptr_adds, check_instances, removals, assign_keys,
}
use sig0lease.Srp.Classify.Whole.{Consistent, classify-Consistent}
use sig0lease.Srp.Fcfs.{AuthState, nx_domain, evaluate}
use sig0lease.Srp.Fcfs.Rule.{Explains, evaluate-Explains}
use sig0lease.Srp.Validate.{
  Message, validate_update, validate_post_classify, validate_lease_option, validate_ttl_consistency,
  update_adds, validate_keys, explicit_keys, all_identical, validate_service_names,
}
use sig0lease.Srp.Validate.Keys.{Valid, validate_update-Valid}

abbrev rr_at : String → ℕ → Rdata → Option Rr
rr_at name class d =
    some (record { hdr = record { name = bytes name; class = class; ttl = 300 }; rdata = d })

abbrev host_rrs : List (Option Rr)
host_rrs =
    rr_at "h.a." 255 any ∷ rr_at "H.a." 1 (a []) ∷ rr_at "h.a." 1 (key_data 0 3 15 (7 ∷ [])) ∷ []

abbrev update : List (Option Rr)
update =
    host_rrs
    ++ (rr_at "i._x._tcp.a." 255 any
        ∷ rr_at "i._x._tcp.a." 1 (srv 0 0 80 (bytes "h.a."))
        ∷ rr_at "i._x._tcp.a." 1 (txt [])
        ∷ rr_at "_x._tcp.a." 1 (ptr (bytes "i._x._tcp.a."))
        ∷ [])

abbrev nothing : ClassifiedUpdate
nothing = record {
  host = record {
    name = [];
    delete = record { hdr = record { name = []; class = 0; ttl = 0 }; rdata = any };
    key = none;
    addresses = [];
  };
  instances = [];
  discovery = [];
}

abbrev value : Result SrpError ClassifiedUpdate → ClassifiedUpdate
value (ok cu) = cu
value (err e) = nothing

abbrev is_ok {ℓ} : {A : Type ℓ} → Result SrpError A → Bool
is_ok (ok cu) = true
is_ok (err e) = false

abbrev classified : ClassifiedUpdate
classified = value (classify update)

classifies : classify update ≡ ok classified
unfolding classify reconcile collect_deletes classify_all classify_rr add_host_address instance_for
    add_ptr check_ptr_adds check_instances removals assign_keys find_instance update_instance
    subtype_ptr_owner labels split fold get put same member empty
classifies = refl

-- An instance with a TXT and no SRV is not refused.
txt_alone :
    is_ok
      (classify (host_rrs ++ (rr_at "i._x._tcp.a." 255 any ∷ rr_at "i._x._tcp.a." 1 (txt []) ∷ [])))
    ≡ true
unfolding classify reconcile collect_deletes classify_all classify_rr add_host_address instance_for
    check_ptr_adds check_instances removals assign_keys find_instance update_instance fold get put
    same member
txt_alone = refl

classify-Consistent_example : Consistent classified
classify-Consistent_example = classify-Consistent update classified classifies

abbrev fixed : DnsLibrary
fixed = record { key_tag = λ k. 42; rr_type = type_of; data_len = λ d. 2; data_text = λ d. [] }
  where
    type_of : Rdata → ℕ
    type_of (a _) = 1
    type_of (ptr _) = 12
    type_of (txt _) = 16
    type_of (srv _ _ _ _) = 33
    type_of _ = 25

abbrev message : Message
message = record {
  questions = 1;
  answers = 0;
  ns = update;
  pseudo = option_rr option_code (bytes "00000E1000001C20") ∷ [];
  extra = [];
}

validates : validate_update fixed message ≡ ok classified
unfolding validate_update validate_post_classify validate_lease_option find_option scan decode
    find_in_opt hex_decode validate validate_ttl_consistency update_adds check_consistent_ttls
    consistent_groups group_rrsets append_group same_key rrset_key consistent_group all_ttl
    normalize trim_dot validate_keys explicit_keys all_identical validate_service_names
    service_type_from_service_name is_service_label is_proto_label cut_first_label classify
    reconcile collect_deletes classify_all classify_rr add_host_address instance_for add_ptr
    check_ptr_adds check_instances removals assign_keys find_instance update_instance
    subtype_ptr_owner labels split fold get put same member empty
validates = refl

validate_update-Valid_example : Valid fixed message classified
validate_update-Valid_example = validate_update-Valid fixed message classified validates

abbrev host_key : Key
host_key = record {
  hdr = record { name = bytes "h.a."; class = 1; ttl = 300 };
  flags = 0;
  protocol = 3;
  algorithm = 15;
  public_key = 7 ∷ [];
}

abbrev empty_store : Bytes → Option Key
empty_store name = none

abbrev never_seen : Option (Bytes → Option AuthState)
never_seen = some (λ name. some nx_domain)

evaluate-Explains_example :
    Explains empty_store never_seen
      (bytes "h.a.")
      host_key
      true
      (evaluate empty_store never_seen (bytes "h.a.") (some host_key) true)
evaluate-Explains_example = evaluate-Explains empty_store never_seen (bytes "h.a.") host_key true

has_key : classified.host.key ≡ some host_key
unfolding classify reconcile collect_deletes classify_all classify_rr add_host_address instance_for
    add_ptr check_ptr_adds check_instances removals assign_keys find_instance update_instance
    subtype_ptr_owner labels split fold get put same member empty
has_key = refl
