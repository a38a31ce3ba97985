-- ===== src/Srp/Validate/Keys.antt =====
-- What an accepted update has: KEYs with one key material, one TTL per RRset, a valid lease.
use sig0lease.Base.{
  ◌≡◌, refl, sym, ap, ◌∙◌, subst, inl, inr, Bool, true, false, not, Option, none, some, List, [],
  ◌∷◌, ◌++◌, arith, ◌==◌, Bool-cases, and_left, and_right, Bytes, member, Result, ok, err,
  ok-injective, bind_ok, refuse_if, is_some,
}
use sig0lease.Dns.{Key, Rr, DnsLibrary}
use sig0lease.UpdateCore.{check_consistent_ttls, TtlError}
use sig0lease.UpdateCore.Agreement.{PairwiseAgree, check_consistent_ttls_iff}
use sig0lease.Srp.{
  ServiceInstance, ClassifiedUpdate, SrpError, zone_count, prerequisites, keys_differ,
  HostDescription, ServiceDiscovery, ClassifyState, host_without_key,
}
use sig0lease.Srp.Classify.Checks.{
  classify, finish, reconcile, reconcile_host, host_fallback, check_ptr_adds, check_instances,
  assign_keys, removals, start,
}
use sig0lease.Srp.Classify.{collect_deletes, classify_all}
use sig0lease.Srp.Fcfs.{keys_identical, names, key_for}
use sig0lease.Srp.Fcfs.Rule.{SameKeys, key_for-names}
use sig0lease.Srp.Validate.{
  Message, update_adds, ttl_error, validate_ttl_consistency, explicit_keys, all_identical, keys_of,
  validate_keys, validate_lease_option, validate_service_names, validate_post_classify,
  validate_update,
}

SameKeys-explicit :
    (k : Key) (insts : List ServiceInstance)
    → all_identical k (explicit_keys insts) ≡ true
    → SameKeys k insts
unfolding explicit_keys all_identical
SameKeys-explicit k [] h = tt
SameKeys-explicit k (inst ∷ insts) h = go (SameKeys-explicit k insts) inst.key refl h
  where
    go :
        (all_identical k (explicit_keys insts) ≡ true → SameKeys k insts)
        → (o : Option Key) → inst.key ≡ o
        → all_identical k (elim o [ none ↦ explicit_keys insts | some l ↦ l ∷ explicit_keys insts ])
          ≡ true
        → SameKeys k (inst ∷ insts)
    go rest none e q = (λ l r. ground (arith, e, r), rest q)
    go rest (some l) e q = (
      λ m r.
          let lm : l ≡ m = ground (arith, e, r) in
          subst (λ x. keys_identical k x ≡ true) lm (and_left _ _ q),
      rest (and_right _ _ q),
    )

of_is_some : {A : Type 0} (o : Option A) → is_some o ≡ true → (a : A) × (o ≡ some a)
of_is_some none h = cc
of_is_some (some a) h = (a, refl)

finish-key :
    (discovery : List ServiceDiscovery) (x : HostDescription × List ServiceInstance)
    (cu : ClassifiedUpdate)
    → finish discovery x ≡ ok cu
    → (k : Key) × (cu.host.key ≡ some k)
unfolding finish
finish-key discovery (h, insts) cu e = elim (Bool-cases (is_some h.key)) [
  | inl q ↦
      let done : ok (record { host = h; instances = insts; discovery = discovery }) ≡ ok cu =
        rw q at e in
      let (k, r) = of_is_some h.key q in (k, ap (λ c. c.host.key) (sym (ok-injective done)) ∙ r)
  | inr q ↦ let bad : err host_without_key ≡ ok cu = rw q at e in cc
]

reconcile_host-key :
    (o : Option HostDescription) (st : ClassifyState) (cu : ClassifiedUpdate)
    → reconcile_host o st ≡ ok cu
    → (k : Key) × (cu.host.key ≡ some k)
unfolding reconcile_host
reconcile_host-key none st cu h = cc
reconcile_host-key (some host) st cu h =
    let (referenced, e1, h1) = bind_ok (check_ptr_adds st.ptr_adds st.instances) _ cu h in
    let (u, e2, h2) = bind_ok (check_instances st.instances host.name referenced) _ cu h1 in
    let (assigned, e3, h3) =
      bind_ok (assign_keys st.key_adds host (st.instances ++ removals st.deletes st.consumed)) _ cu
        h2 in
    finish-key st.discovery assigned cu h3

-- A classified update's host has a KEY.
classify-key :
    (rrs : List (Option Rr)) (cu : ClassifiedUpdate)
    → classify rrs ≡ ok cu
    → (k : Key) × (cu.host.key ≡ some k)
unfolding classify reconcile
classify-key rrs cu h =
    let (deletes, e1, h1) = bind_ok (collect_deletes rrs []) _ cu h in
    let (st, e2, h2) = bind_ok (classify_all rrs (start deletes)) _ cu h1 in
    reconcile_host-key (host_fallback st.host st).host (host_fallback st.host st) cu h2

-- What `Validate` accepts.
pub record Valid (lib : DnsLibrary) (msg : Message) (cu : ClassifiedUpdate) : Type 0 where
  pub one_zone : msg.questions ≡ 1
  pub no_prerequisite : msg.answers ≡ 0
  pub classified : classify msg.ns ≡ ok cu
  pub lease : validate_lease_option msg.pseudo msg.extra ≡ ok tt
  pub ttls : PairwiseAgree lib (update_adds cu)
  pub keys :
      (k : Key) × (cu.host.key ≡ some k)
      × ((name : Bytes)
          → member name (names cu) ≡ true
          → (l : Key) × (key_for cu name ≡ some l) × (keys_identical k l ≡ true))
  pub services : validate_service_names cu.discovery ≡ ok tt

ttl_error-ok :
    (lib : DnsLibrary) (cu : ClassifiedUpdate)
    → validate_ttl_consistency lib cu ≡ ok tt
    → PairwiseAgree lib (update_adds cu)
unfolding validate_ttl_consistency ttl_error
ttl_error-ok lib cu h =
    (check_consistent_ttls_iff lib (update_adds cu)).0
      (go (check_consistent_ttls lib (update_adds cu)) refl h)
  where
    go :
        (r : Result TtlError (Unit {0}))
        → check_consistent_ttls lib (update_adds cu) ≡ r
        → ttl_error r ≡ ok tt
        → check_consistent_ttls lib (update_adds cu) ≡ ok tt
    go (ok tt) e q = e
    go (err x) e q = cc

keys_of-SameKeys :
    (cu : ClassifiedUpdate) (k : Key)
    → cu.host.key ≡ some k
    → validate_keys cu ≡ ok tt
    → SameKeys k cu.instances
unfolding validate_keys keys_of
keys_of-SameKeys cu k hk h = elim (Bool-cases (all_identical k (explicit_keys cu.instances))) [
  | inl e ↦ SameKeys-explicit k cu.instances e
  | inr e ↦
      let bad : Path (Result SrpError (Unit {0})) (err keys_differ) (ok tt) = rw (hk, e) at h in cc
]

refuse_if-false : (b : Bool) (e : SrpError) (u : Unit {0}) → refuse_if b e ≡ ok u → b ≡ false
refuse_if-false true e u h = cc
refuse_if-false false e u h = refl

-- An update that `Validate` accepts has one zone, no prerequisite and a lease option that decodes;
-- any two of its adds to one RRset have one TTL; and for each name that first come, first served
-- is evaluated for, the host's and each instance's, `KeyFor` returns a KEY with the key material of
-- the host's KEY.
pub validate_update-Valid :
    (lib : DnsLibrary) (msg : Message) (cu : ClassifiedUpdate)
    → validate_update lib msg ≡ ok cu
    → Valid lib msg cu
unfolding validate_update validate_post_classify
validate_update-Valid lib msg cu h =
    let (u1, e1, h1) = bind_ok (refuse_if (not (msg.questions == 1)) zone_count) _ cu h in
    let (u2, e2, h2) = bind_ok (refuse_if (not (msg.answers == 0)) prerequisites) _ cu h1 in
    let (cu', e3, h3) = bind_ok (classify msg.ns) _ cu h2 in
    let (u4, e4, h4) = bind_ok (validate_post_classify lib msg cu') _ cu h3 in
    let e5 : cu' ≡ cu = ok-injective h4 in
    let post : validate_post_classify lib msg cu ≡ ok tt =
      subst (λ c. validate_post_classify lib msg c ≡ ok tt) e5 e4 in
    let (v1, f1, g1) = bind_ok (validate_lease_option msg.pseudo msg.extra) _ tt post in
    let (v2, f2, g2) = bind_ok (validate_ttl_consistency lib cu) _ tt g1 in
    let (v3, f3, g3) = bind_ok (validate_keys cu) _ tt g2 in
    let is_classified : classify msg.ns ≡ ok cu = e3 ∙ ap ok e5 in
    let (k, hk) = classify-key msg.ns cu is_classified in
    record {
      one_zone = ground (arith, refuse_if-false _ _ u1 e1);
      no_prerequisite = ground (arith, refuse_if-false _ _ u2 e2);
      classified = is_classified;
      lease = f1;
      ttls = ttl_error-ok lib cu f2;
      keys = (k, hk, λ name m. key_for-names cu k name hk (keys_of-SameKeys cu k hk f3) m);
      services = g3;
    }
