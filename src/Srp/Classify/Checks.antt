-- ===== src/Srp/Classify/Checks.antt =====
-- pkg/srp/instruction.go: reconcile, the cross-checks on the whole update, and Classify.
use sig0lease.Base.{
  Bool, true, false, not, Option, none, some, List, [], ◌∷◌, ◌++◌, ◌==◌, if◌then◌else◌, length,
  Bytes, same, Assoc, get, del, member, Result, ok, err, ◌>>=◌, ◌>>◌, refuse_if, is_some,
}
use sig0lease.Name.{fold}
use sig0lease.Dns.{Key, Rr}
use sig0lease.Srp.{
  Srv, HostDescription, ServiceInstance, ServiceDiscovery, ClassifiedUpdate, ClassifyState,
  SrpError, no_host, ptr_without_service, srv_without_txt, srv_target_not_host, not_referenced,
  two_keys, key_elsewhere, host_without_key, find_instance, update_instance,
}
use sig0lease.Srp.Classify.{collect_deletes, classify_all}

-- The host of an update without an address: the first KEY add at an unclaimed Delete All RRsets.
key_host : Option Rr → Bool → Bytes → Option HostDescription
key_host (some del) false name =
    some (record { name = name; delete = del; key = none; addresses = [] })
key_host (some del) true name = none
key_host none claimed name = none

first_host : Option HostDescription → Option HostDescription → Option HostDescription
first_host (some h) later = some h
first_host none later = later

unfoldable pub key_hosts : List Key → Assoc Rr → List Bytes → Option HostDescription
unfolding key_host first_host
key_hosts [] deletes consumed = none
key_hosts (k ∷ ks) deletes consumed =
    let name = fold k.hdr.name in
    first_host (key_host (get name deletes) (member name consumed) name)
      (key_hosts ks deletes consumed)

unfoldable pub with_host : Option HostDescription → ClassifyState → ClassifyState
with_host none st = st
with_host (some h) st = record st { host = some h; consumed = h.name ∷ st.consumed }

-- The host-removal fallback.
unfoldable pub host_fallback : Option HostDescription → ClassifyState → ClassifyState
unfolding with_host key_hosts
host_fallback (some h) st = st
host_fallback none st = with_host (key_hosts st.key_adds st.deletes st.consumed) st

-- An instance that is there and has an SRV.
unfoldable pub has_service : Option ServiceInstance → Bool
has_service none = false
has_service (some inst) = is_some inst.srv_

-- The targets of all PTR adds, which are then referenced.
unfoldable pub check_ptr_adds :
    List ServiceDiscovery → List ServiceInstance → Result SrpError (List Bytes)
unfolding has_service
check_ptr_adds [] insts = ok []
check_ptr_adds (d ∷ ds) insts =
    if has_service (find_instance d.target insts)
    then (do targets ← check_ptr_adds ds insts; ok (d.target ∷ targets))
    else err ptr_without_service

unfoldable pub check_service :
    Option Srv → ServiceInstance → Bytes → List Bytes → Result SrpError (Unit {0})
check_service none inst host_name referenced = ok tt
check_service (some s) inst host_name referenced = do
  refuse_if (length inst.txts == 0) srv_without_txt
  refuse_if (not (same (fold s.target) host_name)) srv_target_not_host
  refuse_if (not (member inst.name referenced)) not_referenced
  ok tt

unfoldable pub check_instances :
    List ServiceInstance → Bytes → List Bytes → Result SrpError (Unit {0})
unfolding check_service
check_instances [] host_name referenced = ok tt
check_instances (inst ∷ insts) host_name referenced = do
  check_service inst.srv_ inst host_name referenced
  check_instances insts host_name referenced

-- The Delete All RRsets that nothing has claimed; the order in which a Go map is ranged over is
-- that of the association list.
unfoldable pub removals : Assoc Rr → List Bytes → List ServiceInstance
removals [] consumed = []
removals ((name, del) ∷ deletes) consumed =
    let rest = removals deletes consumed in
    let removal : ServiceInstance = record {
      name = name;
      delete = del;
      key = none;
      srv_ = none;
      txts = [];
      removal_shaped = true;
    } in
    if member name consumed then rest else removal ∷ rest

-- The KEY-ownership pass over the host and the instances.
unfoldable pub key_at_instance :
    Option ServiceInstance
    → Key
    → Bytes
    → HostDescription
    → List ServiceInstance
    → Result SrpError (HostDescription × List ServiceInstance)
key_at_instance none k name h insts = err key_elsewhere
key_at_instance (some inst) k name h insts =
    if is_some inst.key
    then err two_keys
    else ok (h, update_instance name (λ i. record i { key = some k }) insts)

unfoldable pub assign_key :
    Key
    → HostDescription
    → List ServiceInstance
    → Result SrpError (HostDescription × List ServiceInstance)
unfolding key_at_instance
assign_key k h insts =
    let name = fold k.hdr.name in
    if same name h.name
    then (if is_some h.key then err two_keys else ok (record h { key = some k }, insts))
    else key_at_instance (find_instance name insts) k name h insts

unfoldable pub assign_keys :
    List Key
    → HostDescription
    → List ServiceInstance
    → Result SrpError (HostDescription × List ServiceInstance)
unfolding assign_key
assign_keys [] h insts = ok (h, insts)
assign_keys (k ∷ ks) h insts = do
  assigned ← assign_key k h insts
  assign_keys ks assigned.0 assigned.1

-- `return nil` of `reconcile`, and the update that `Classify` builds.
unfoldable pub finish :
    List ServiceDiscovery
    → HostDescription × List ServiceInstance
    → Result SrpError ClassifiedUpdate
finish discovery (h, insts) =
    if is_some h.key
    then ok (record { host = h; instances = insts; discovery = discovery })
    else err host_without_key

unfoldable pub reconcile_host :
    Option HostDescription → ClassifyState → Result SrpError ClassifiedUpdate
unfolding finish
reconcile_host none st = err no_host
reconcile_host (some h) st = do
  referenced ← check_ptr_adds st.ptr_adds st.instances
  check_instances st.instances h.name referenced
  assigned ← assign_keys st.key_adds h (st.instances ++ removals st.deletes st.consumed)
  finish st.discovery assigned

unfoldable pub reconcile : ClassifyState → Result SrpError ClassifiedUpdate
unfolding reconcile_host host_fallback
reconcile st = let st' = host_fallback st.host st in reconcile_host st'.host st'

abbrev pub start : Assoc Rr → ClassifyState
start deletes = record {
  deletes = deletes;
  consumed = [];
  host = none;
  instances = [];
  discovery = [];
  ptr_adds = [];
  key_adds = [];
}

-- `Classify` of the Update section.
unfoldable pub classify : List (Option Rr) → Result SrpError ClassifiedUpdate
unfolding reconcile
classify rrs = do
  deletes ← collect_deletes rrs []
  st ← classify_all rrs (start deletes)
  reconcile st
