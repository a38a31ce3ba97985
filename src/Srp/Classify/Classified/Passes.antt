-- ===== src/Srp/Classify/Classified/Passes.antt =====
-- The second pass keeps the list of PTR adds in step with the list of instructions.
use sig0lease.Base.{
  ◌≡◌, refl, sym, ap, ◌∙◌, subst, inl, inr, Bool, true, false, Option, none, some, List, [], ◌∷◌,
  ◌++◌, ◌==◌, if◌then◌else◌, Bool-cases, Bytes, same, get, Result, ok, err, ok-injective, bind_ok,
  ◌>>=◌, ◌>>◌, refuse_if, is_some,
}
use sig0lease.Name.{fold}
use sig0lease.Dns.{Header, Rdata, Rr, key_data, txt, srv, ptr, a, aaaa, any, class_inet, class_none}
use sig0lease.Srp.{
  Srv, Txt, Ptr, HostDescription, ServiceInstance, ServiceDiscovery, ClassifyState, SrpError,
  two_hosts, two_srv, wrong_class, subtype_before_base, find_instance, subtype_ptr_owner,
}
use sig0lease.Srp.Classify.{
  at_host, under_delete, add_host_address, new_instance, instance_or_new, instance_for, set_srv,
  add_txt, discovery_of, lacks_base, add_ptr, classify_rr, classify_all,
}
use sig0lease.Srp.Classify.Checks.{host_fallback, with_host, key_hosts}

abbrev pub adds_of : List ServiceDiscovery → List ServiceDiscovery
adds_of [] = []
adds_of (d ∷ ds) = if d.is_add then d ∷ adds_of ds else adds_of ds

abbrev pub InStep : ClassifyState → Type 0
InStep st = st.ptr_adds ≡ adds_of st.discovery

-- A step from a state that is in step, if it succeeds, ends in one.
abbrev Keeps : ClassifyState → Result SrpError ClassifyState → Type 0
Keeps st r = InStep st → (st' : ClassifyState) → r ≡ ok st' → InStep st'

Keeps-ok : (st st' : ClassifyState) → (InStep st → InStep st') → Keeps st (ok st')
Keeps-ok st st' f s st'' h = subst InStep (ok-injective h) (f s)

Keeps-err : (st : ClassifyState) (e : SrpError) → Keeps st (err e)
Keeps-err st e s st' h = cc

Keeps-if :
    (st : ClassifyState) (b : Bool) (e : SrpError) (r : Result SrpError ClassifyState)
    → Keeps st r
    → Keeps st (refuse_if b e >> r)
Keeps-if st true e r k = Keeps-err st e
Keeps-if st false e r k = k

adds_of-append :
    (ds : List ServiceDiscovery) (d : ServiceDiscovery)
    → adds_of (ds ++ (d ∷ [])) ≡ (if d.is_add then adds_of ds ++ (d ∷ []) else adds_of ds)
adds_of-append [] d = elim (Bool-cases d.is_add) [ inl e ↦ rw e refl | inr e ↦ rw e refl ]
adds_of-append (x ∷ ds) d = elim (Bool-cases d.is_add) [
  | inl e ↦
      rw (adds_of-append ds d, e)
        (elim (Bool-cases x.is_add) [ inl q ↦ rw q refl | inr q ↦ rw q refl ])
  | inr e ↦ rw (adds_of-append ds d, e) refl
]

at_host-Keeps :
    (h : Option HostDescription) (d : Rr) (name : Bytes) (rr : Rr) (st : ClassifyState)
    → Keeps st (at_host h d name rr st)
unfolding at_host
at_host-Keeps none d name rr st = Keeps-ok st _ (λ s. s)
at_host-Keeps (some h) d name rr st = elim (Bool-cases (same h.name name)) [
  | inl e ↦ rw e (Keeps-ok st _ (λ s. s))
  | inr e ↦ rw e (Keeps-err st two_hosts)
]

under_delete-Keeps :
    (o : Option Rr) (name : Bytes) (rr : Rr) (st : ClassifyState)
    → Keeps st (under_delete o name rr st)
unfolding under_delete
under_delete-Keeps none name rr st = Keeps-err st _
under_delete-Keeps (some d) name rr st = at_host-Keeps st.host d name rr st

add_host_address-Keeps :
    (name : Bytes) (rr : Rr) (st : ClassifyState) → Keeps st (add_host_address name rr st)
unfolding add_host_address
add_host_address-Keeps name rr st = under_delete-Keeps (get name st.deletes) name rr st

-- The instance, and a state with the same PTR adds and instructions.
abbrev SamePtrs : ClassifyState → Result SrpError (ServiceInstance × ClassifyState) → Type 0
SamePtrs st (ok (inst, st')) = (st'.ptr_adds ≡ st.ptr_adds) × (st'.discovery ≡ st.discovery)
SamePtrs st (err e) = Unit

new_instance-SamePtrs :
    (o : Option Rr) (name : Bytes) (st : ClassifyState) → SamePtrs st (new_instance o name st)
unfolding new_instance
new_instance-SamePtrs none name st = tt
new_instance-SamePtrs (some d) name st = (refl, refl)

instance_or_new-SamePtrs :
    (o : Option ServiceInstance) (name : Bytes) (st : ClassifyState)
    → SamePtrs st (instance_or_new o name st)
unfolding instance_or_new
instance_or_new-SamePtrs none name st = new_instance-SamePtrs (get name st.deletes) name st
instance_or_new-SamePtrs (some inst) name st = (refl, refl)

instance_for-SamePtrs : (name : Bytes) (st : ClassifyState) → SamePtrs st (instance_for name st)
unfolding instance_for
instance_for-SamePtrs name st = instance_or_new-SamePtrs (find_instance name st.instances) name st

InStep-as :
    (st st' : ClassifyState)
    → (st'.ptr_adds ≡ st.ptr_adds) × (st'.discovery ≡ st.discovery)
    → InStep st
    → InStep st'
InStep-as st st' (p, d) s = p ∙ s ∙ ap adds_of (sym d)

set_srv-Keeps :
    (name : Bytes) (x : Srv) (st : ClassifyState)
    (r : Result SrpError (ServiceInstance × ClassifyState))
    → SamePtrs st r
    → Keeps st (r >>= set_srv name x)
unfolding set_srv
set_srv-Keeps name x st (err e) p = Keeps-err st e
set_srv-Keeps name x st (ok (inst, st')) p = elim (Bool-cases (is_some inst.srv_)) [
  | inl e ↦ rw e (Keeps-err st two_srv)
  | inr e ↦ rw e (Keeps-ok st _ (InStep-as st st' p))
]

add_txt-Keeps :
    (name : Bytes) (t : Txt) (st : ClassifyState)
    (r : Result SrpError (ServiceInstance × ClassifyState))
    → SamePtrs st r
    → Keeps st (r >>= add_txt name t)
unfolding add_txt
add_txt-Keeps name t st (err e) p = Keeps-err st e
add_txt-Keeps name t st (ok (inst, st')) p = Keeps-ok st _ (InStep-as st st' p)

add_ptr-Keeps : (name : Bytes) (p : Ptr) (st : ClassifyState) → Keeps st (add_ptr name p st)
unfolding add_ptr discovery_of
add_ptr-Keeps name p st = elim (Bool-cases (p.hdr.class == class_inet)) [
  | inl e ↦
      rw e (elim (Bool-cases (lacks_base (subtype_ptr_owner name) (fold p.target) st.ptr_adds)) [
        | inl q ↦ rw q (Keeps-err st subtype_before_base)
        | inr q ↦ rw q (
            Keeps-ok st _ (λ s.
              ap
                (λ ds.
                  ds ++ (discovery_of name (fold p.target) true p (subtype_ptr_owner name) ∷ []))
                s
              ∙ sym (adds_of-append st.discovery _)))
      ])
  | inr e ↦ rw e (elim (Bool-cases (p.hdr.class == class_none)) [
    | inl q ↦ rw q (Keeps-ok st _ (λ s. s ∙ sym (adds_of-append st.discovery _)))
    | inr q ↦ rw q (Keeps-err st wrong_class)
  ])
]

classify_rr-Keeps :
    (hdr : Header) (d : Rdata) (st : ClassifyState) → Keeps st (classify_rr hdr d st)
unfolding classify_rr
classify_rr-Keeps hdr any st = Keeps-ok st st (λ s. s)
classify_rr-Keeps hdr (key_data f p al pk) st = Keeps-if st _ _ _ (Keeps-ok st _ (λ s. s))
classify_rr-Keeps hdr (a addr) st = Keeps-if st _ _ _ (add_host_address-Keeps (fold hdr.name) _ st)
classify_rr-Keeps hdr (aaaa addr) st =
    Keeps-if st _ _ _ (add_host_address-Keeps (fold hdr.name) _ st)
classify_rr-Keeps hdr (srv pr w po target) st =
    Keeps-if st _ _ _
      (set_srv-Keeps (fold hdr.name) _ st _ (instance_for-SamePtrs (fold hdr.name) st))
classify_rr-Keeps hdr (txt strings) st =
    Keeps-if st _ _ _
      (add_txt-Keeps (fold hdr.name) _ st _ (instance_for-SamePtrs (fold hdr.name) st))
classify_rr-Keeps hdr (ptr target) st = add_ptr-Keeps (fold hdr.name) _ st
classify_rr-Keeps hdr _ st = Keeps-err st _

pub classify_all-InStep :
    (rrs : List (Option Rr)) (st st' : ClassifyState)
    → InStep st
    → classify_all rrs st ≡ ok st'
    → InStep st'
unfolding classify_all
classify_all-InStep [] st st' s h = subst InStep (ok-injective h) s
classify_all-InStep (none ∷ rrs) st st' s h = cc
classify_all-InStep (some rr ∷ rrs) st st' s h =
    let (next, e, r) = bind_ok (classify_rr rr.hdr rr.rdata st) _ st' h in
    classify_all-InStep rrs next st' (classify_rr-Keeps rr.hdr rr.rdata st s next e) r

pub host_fallback-InStep :
    (o : Option HostDescription) (st : ClassifyState) → InStep st → InStep (host_fallback o st)
unfolding host_fallback with_host
host_fallback-InStep (some h) st s = s
host_fallback-InStep none st s = go (key_hosts st.key_adds st.deletes st.consumed)
  where
    go : (o : Option HostDescription) → InStep (with_host o st)
    go none = s
    go (some h) = s
