-- ===== src/Srp/Classify.antt =====
-- pkg/srp/instruction.go: the two passes over the Update section, and the cross-checks.
pub mod Checks
pub mod Classified
pub mod Whole
use sig0lease.Base.{
  ℕ, zero, suc, ◌+◌, ◌-◌, ◌*◌, ◌/◌, ◌%◌, ◌^◌, ◌≤◌, ◌<◌, min, max, ◌≡◌, refl, sym, ap, ◌∙◌, subst,
  ◌≢◌, ◌↔◌, ◌⊎◌, inl, inr, Bool, true, false, not, ◌&&◌, ◌||◌, Option, none, some, List, [], ◌∷◌,
  ◌++◌, map, append-nil, append_assoc, arith, ltb, leb, ◌==◌, if◌then◌else◌, leb→le, ltb→lt, ==_iff,
  ==_refl, Bool-cases, Option-cases, and_left, and_right, Bool-ext, length, get_elem?, take, drop,
  All, length-append, take-append-drop, length-drop, drop-append, All-append, Bytes, bytes, same,
  same_refl, same_iff, same_ne, empty, has_suffix, contains_byte, has_suffix_iff,
  contains_byte-append, Assoc, get, put, del, get-put, get-del, member, add, remove, member-add,
  member-remove, member-append, Result, ok, err, ok-injective, ◌>>=◌, ◌>>◌, refuse_if, is_some,
}
use sig0lease.Name.{fold}
use sig0lease.Dns.{
  Header, Key, Rdata, Rr, key_data, txt, srv, ptr, a, aaaa, any, class_inet, class_none,
}
use sig0lease.Srp.{
  Srv, Txt, Ptr, HostDescription, ServiceInstance, ServiceDiscovery, ClassifiedUpdate,
  ClassifyState, SrpError, nil_rr, duplicate_delete, wrong_class, unrecognized_type,
  add_without_delete, two_hosts, two_srv, subtype_before_base, no_host, ptr_without_service,
  srv_without_txt, srv_target_not_host, not_referenced, two_keys, key_elsewhere, host_without_key,
  find_instance, update_instance, subtype_ptr_owner,
}

abbrev is_any : Rdata → Bool
is_any any = true
is_any _ = false

-- The first pass: every Delete All RRsets, under its folded owner name.
unfoldable pub collect_deletes : List (Option Rr) → Assoc Rr → Result SrpError (Assoc Rr)
collect_deletes [] deletes = ok deletes
collect_deletes (none ∷ rrs) deletes = err nil_rr
collect_deletes (some rr ∷ rrs) deletes =
    let name = fold rr.hdr.name in
    let taken = collect_deletes rrs (put name rr deletes) in
    let skipped = collect_deletes rrs deletes in
    if is_any rr.rdata
    then (if is_some (get name deletes) then err duplicate_delete else taken)
    else skipped

-- `addHostAddress`, by the host so far.
unfoldable pub at_host :
    Option HostDescription → Rr → Bytes → Rr → ClassifyState → Result SrpError ClassifyState
at_host none del name rr st = ok (record st {
  host = some (record { name = name; delete = del; key = none; addresses = rr ∷ [] });
  consumed = name ∷ st.consumed;
})
at_host (some h) del name rr st =
    if same h.name name
    then ok (record st { host = some (record h { addresses = h.addresses ++ (rr ∷ []) }) })
    else err two_hosts

unfoldable pub under_delete : Option Rr → Bytes → Rr → ClassifyState → Result SrpError ClassifyState
unfolding at_host
under_delete none name rr st = err add_without_delete
under_delete (some del) name rr st = at_host st.host del name rr st

unfoldable pub add_host_address : Bytes → Rr → ClassifyState → Result SrpError ClassifyState
unfolding under_delete
add_host_address name rr st = under_delete (get name st.deletes) name rr st

-- `instanceFor`: the instance with this name, which is made at its first sight.
unfoldable pub new_instance :
    Option Rr → Bytes → ClassifyState → Result SrpError (ServiceInstance × ClassifyState)
new_instance none name st = err add_without_delete
new_instance (some del) name st =
    let inst : ServiceInstance = record {
      name = name;
      delete = del;
      key = none;
      srv_ = none;
      txts = [];
      removal_shaped = false;
    } in
    ok (inst, record st { instances = st.instances ++ (inst ∷ []); consumed = name ∷ st.consumed })

unfoldable pub instance_or_new :
    Option ServiceInstance
    → Bytes
    → ClassifyState
    → Result SrpError (ServiceInstance × ClassifyState)
unfolding new_instance
instance_or_new (some inst) name st = ok (inst, st)
instance_or_new none name st = new_instance (get name st.deletes) name st

unfoldable pub instance_for :
    Bytes → ClassifyState → Result SrpError (ServiceInstance × ClassifyState)
unfolding instance_or_new
instance_for name st = instance_or_new (find_instance name st.instances) name st

unfoldable pub set_srv :
    Bytes → Srv → ServiceInstance × ClassifyState → Result SrpError ClassifyState
set_srv name s (inst, st) =
    if is_some inst.srv_
    then err two_srv
    else ok (record st {
      instances = update_instance name (λ i. record i { srv_ = some s }) st.instances;
    })

unfoldable pub add_txt :
    Bytes → Txt → ServiceInstance × ClassifyState → Result SrpError ClassifyState
add_txt name t (inst, st) = ok (record st {
  instances = update_instance name (λ i. record i { txts = i.txts ++ (t ∷ []) }) st.instances;
})

-- The loop of `addPTR` over the earlier base-type adds.
has_base_add : Bytes → Bytes → List ServiceDiscovery → Bool
has_base_add base target [] = false
has_base_add base target (d ∷ ds) =
    (empty d.base_type && same d.name base && same d.target target) || has_base_add base target ds

abbrev base_or_empty : Option Bytes → Bytes
base_or_empty none = []
base_or_empty (some base) = base

unfoldable pub discovery_of : Bytes → Bytes → Bool → Ptr → Option Bytes → ServiceDiscovery
discovery_of name target is_add p base = record {
  name = name;
  target = target;
  is_add = is_add;
  rr = p;
  base_type = base_or_empty base;
}

-- A subtype add without the base-type add that it needs before it.
unfoldable pub lacks_base : Option Bytes → Bytes → List ServiceDiscovery → Bool
unfolding has_base_add
lacks_base none target adds = false
lacks_base (some base) target adds = not (has_base_add base target adds)

unfoldable pub add_ptr : Bytes → Ptr → ClassifyState → Result SrpError ClassifyState
unfolding lacks_base discovery_of
add_ptr name p st =
    let base = subtype_ptr_owner name in
    let target = fold p.target in
    if p.hdr.class == class_inet
    then (if lacks_base base target st.ptr_adds
        then err subtype_before_base
        else ok (record st {
          ptr_adds = st.ptr_adds ++ (discovery_of name target true p base ∷ []);
          discovery = st.discovery ++ (discovery_of name target true p base ∷ []);
        }))
    else if p.hdr.class == class_none
    then ok (record st { discovery = st.discovery ++ (discovery_of name target false p base ∷ []) })
    else err wrong_class

-- One turn of the second pass.
unfoldable pub classify_rr : Header → Rdata → ClassifyState → Result SrpError ClassifyState
unfolding set_srv add_txt
classify_rr hdr any st = ok st
classify_rr hdr (key_data flags protocol algorithm public_key) st = do
  refuse_if (not (hdr.class == class_inet)) wrong_class
  let k : Key = record {
    hdr = hdr;
    flags = flags;
    protocol = protocol;
    algorithm = algorithm;
    public_key = public_key;
  }
  ok (record st { key_adds = st.key_adds ++ (k ∷ []) })
classify_rr hdr (a addr) st = do
  refuse_if (not (hdr.class == class_inet)) wrong_class
  add_host_address (fold hdr.name) (record { hdr = hdr; rdata = a addr }) st
classify_rr hdr (aaaa addr) st = do
  refuse_if (not (hdr.class == class_inet)) wrong_class
  add_host_address (fold hdr.name) (record { hdr = hdr; rdata = aaaa addr }) st
classify_rr hdr (srv priority weight port target) st = do
  refuse_if (not (hdr.class == class_inet)) wrong_class
  found ← instance_for (fold hdr.name) st
  set_srv (fold hdr.name)
      (record { hdr = hdr; priority = priority; weight = weight; port = port; target = target })
      found
classify_rr hdr (txt strings) st = do
  refuse_if (not (hdr.class == class_inet)) wrong_class
  found ← instance_for (fold hdr.name) st
  add_txt (fold hdr.name) (record { hdr = hdr; strings = strings }) found
classify_rr hdr (ptr target) st = add_ptr (fold hdr.name) (record { hdr = hdr; target = target }) st
classify_rr hdr _ st = err unrecognized_type

-- The second pass; the first one has refused a nil RR.
unfoldable pub classify_all : List (Option Rr) → ClassifyState → Result SrpError ClassifyState
classify_all [] st = ok st
classify_all (none ∷ rrs) st = err nil_rr
classify_all (some rr ∷ rrs) st = classify_rr rr.hdr rr.rdata st >>= classify_all rrs
