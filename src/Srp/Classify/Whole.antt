-- ===== src/Srp/Classify/Whole.antt =====
-- `Classify` as a whole.
use sig0lease.Base.{
  ◌≡◌, refl, sym, ap, ◌∙◌, subst, inl, inr, Option, none, some, List, [], ◌++◌, Bool-cases, All,
  All-append, ok, err, ok-injective, bind_ok, is_some,
}
use sig0lease.Dns.{Rr}
use sig0lease.Srp.{
  HostDescription, ServiceInstance, ServiceDiscovery, ClassifiedUpdate, ClassifyState,
  host_without_key,
}
use sig0lease.Srp.Classify.{collect_deletes, classify_all}
use sig0lease.Srp.Classify.Checks.{
  check_ptr_adds, check_instances, removals, assign_keys, finish, reconcile_host, host_fallback,
  reconcile, start, classify,
}
use sig0lease.Srp.Classify.Classified.{
  Serviced, ServiceOk, targets, Serviced-ptr_adds, All-ServiceOk, removals-ServiceOk,
  Serviced-append, assign_keys-Assigned, All-Serviced,
}
use sig0lease.Srp.Classify.Classified.Passes.{
  adds_of, InStep, classify_all-InStep, host_fallback-InStep,
}

-- Every PTR add names an instance with an SRV, and every instance with an SRV has a TXT, names
-- the host in its SRV, and is named by a PTR add.
pub record Consistent (cu : ClassifiedUpdate) : Type 0 where
  pub named : All (λ d. Serviced cu.instances d.target) (adds_of cu.discovery)
  pub services : All (ServiceOk cu.host.name (targets (adds_of cu.discovery))) cu.instances

finish-Consistent :
    (discovery : List ServiceDiscovery) (x : HostDescription × List ServiceInstance)
    (cu : ClassifiedUpdate)
    → All (λ d. Serviced x.1 d.target) (adds_of discovery)
    → All (ServiceOk x.0.name (targets (adds_of discovery))) x.1
    → finish discovery x ≡ ok cu
    → Consistent cu
unfolding finish
finish-Consistent discovery (h, insts) cu n s e = elim (Bool-cases (is_some h.key)) [
  | inl q ↦ subst Consistent (ok-injective (rw q at e)) (record { named = n; services = s })
  | inr q ↦ let bad : err host_without_key ≡ ok cu = rw q at e in cc
]

reconcile_host-Consistent :
    (o : Option HostDescription) (st : ClassifyState) (cu : ClassifiedUpdate)
    → InStep st
    → reconcile_host o st ≡ ok cu
    → Consistent cu
unfolding reconcile_host
reconcile_host-Consistent none st cu s h = cc
reconcile_host-Consistent (some host) st cu s h =
    let (referenced, e1, h1) = bind_ok (check_ptr_adds st.ptr_adds st.instances) _ cu h in
    let (u, e2, h2) = bind_ok (check_instances st.instances host.name referenced) _ cu h1 in
    let (x, e3, h3) =
      bind_ok (assign_keys st.key_adds host (st.instances ++ removals st.deletes st.consumed)) _ cu
        h2 in
    let adds = Serviced-ptr_adds st.ptr_adds st.instances referenced e1 in
    let assigned =
      assign_keys-Assigned st.key_adds host (st.instances ++ removals st.deletes st.consumed) x
        e3 in
    let named =
      All-Serviced st.instances x.1 st.ptr_adds
        (λ n v.
          assigned.serviced n (Serviced-append st.instances (removals st.deletes st.consumed) n v))
        adds.1 in
    let services = assigned.ok_ referenced (
      All-append (ServiceOk host.name referenced) st.instances (removals st.deletes st.consumed)
        (All-ServiceOk st.instances host.name referenced e2)
        (removals-ServiceOk st.deletes st.consumed host.name referenced)) in
    let names_eq : referenced ≡ targets (adds_of st.discovery) = adds.0 ∙ ap targets s in
    finish-Consistent st.discovery x cu (subst (λ ds. All (λ d. Serviced x.1 d.target) ds) s named)
      (subst (λ n. All (ServiceOk n (targets (adds_of st.discovery))) x.1) (sym assigned.name)
        (subst (λ r. All (ServiceOk host.name r) x.1) names_eq services))
      h3

-- An update that `Classify` accepts refers to itself consistently: every PTR add of its Service
-- Discovery instructions names an instance with an SRV in the same update, and every instance with
-- an SRV has at least one TXT, has the host's name (up to US-ASCII case) for its SRV target, and is
-- named by some PTR add.
pub classify-Consistent :
    (rrs : List (Option Rr)) (cu : ClassifiedUpdate) → classify rrs ≡ ok cu → Consistent cu
unfolding classify reconcile
classify-Consistent rrs cu h =
    let (deletes, e1, h1) = bind_ok (collect_deletes rrs []) _ cu h in
    let (st, e2, h2) = bind_ok (classify_all rrs (start deletes)) _ cu h1 in
    let in_step = classify_all-InStep rrs (start deletes) st refl e2 in
    reconcile_host-Consistent (host_fallback st.host st).host (host_fallback st.host st) cu
      (host_fallback-InStep st.host st in_step) h2
