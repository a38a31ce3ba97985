-- ===== src/Srp/Classify/Classified.antt =====
-- What `Classify` leaves: instructions that refer to each other.
pub mod Passes
use sig0lease.Base.{
  ℕ, zero, suc, ◌+◌, ◌-◌, ◌*◌, ◌/◌, ◌%◌, ◌^◌, ◌≤◌, ◌<◌, min, max, ◌≡◌, refl, sym, ap, ◌∙◌, subst,
  ◌≢◌, ◌↔◌, ◌⊎◌, inl, inr, Bool, true, false, not, ◌&&◌, ◌||◌, Option, none, some, List, [], ◌∷◌,
  ◌++◌, map, append-nil, append_assoc, arith, ltb, leb, ◌==◌, if◌then◌else◌, leb→le, ltb→lt, ==_iff,
  ==_refl, Bool-cases, Option-cases, and_left, and_right, Bool-ext, length, get_elem?, take, drop,
  All, length-append, take-append-drop, length-drop, drop-append, All-append, Bytes, bytes, same,
  same_refl, same_iff, same_ne, empty, has_suffix, contains_byte, has_suffix_iff,
  contains_byte-append, Assoc, get, put, del, get-put, get-del, member, add, remove, member-add,
  member-remove, member-append, Result, ok, err, ok-injective, bind_ok, ◌>>=◌, ◌>>◌, refuse_if,
  is_some,
}
use sig0lease.Name.{fold}
use sig0lease.Dns.{Key, Rr}
use sig0lease.Srp.{
  Srv, HostDescription, ServiceInstance, ServiceDiscovery, ClassifiedUpdate, ClassifyState,
  SrpError, two_keys, host_without_key, ptr_without_service, find_instance, update_instance,
}
use sig0lease.Srp.Classify.Checks.{
  has_service, check_ptr_adds, check_service, check_instances, removals, key_at_instance,
  assign_key, assign_keys, finish, reconcile_host,
}

-- The instance that a name finds, if it is there, has an SRV.
abbrev pub Serviced : List ServiceInstance → Bytes → Type 0
Serviced insts name = has_service (find_instance name insts) ≡ true

-- A live instance has a TXT, its SRV names the host, and some PTR add names it.
abbrev pub ServiceOk : Bytes → List Bytes → ServiceInstance → Type 0
ServiceOk host_name referenced inst =
    (s : Srv)
    → inst.srv_ ≡ some s
    → (length inst.txts ≢ 0) × (fold s.target ≡ host_name) × (member inst.name referenced ≡ true)

abbrev pub targets : List ServiceDiscovery → List Bytes
targets [] = []
targets (d ∷ ds) = d.target ∷ targets ds

pub Serviced-ptr_adds :
    (ds : List ServiceDiscovery) (insts : List ServiceInstance) (referenced : List Bytes)
    → check_ptr_adds ds insts ≡ ok referenced
    → (referenced ≡ targets ds) × All (λ d. Serviced insts d.target) ds
unfolding check_ptr_adds
Serviced-ptr_adds [] insts referenced h = (sym (ok-injective h), tt)
Serviced-ptr_adds (d ∷ ds) insts referenced h =
    elim (Bool-cases (has_service (find_instance d.target insts))) [
      | inr e ↦
          let bad : Path (Result SrpError (List Bytes)) (err ptr_without_service) (ok referenced) =
            rw e at h in
          cc
      | inl e ↦
          let (later, q, r) = bind_ok (check_ptr_adds ds insts) _ referenced (rw e at h) in
          let ih = Serviced-ptr_adds ds insts later q in
          (sym (ok-injective r) ∙ ap (◌∷◌ d.target) ih.0, (e, ih.1))
    ]

check_service-ServiceOk :
    (o : Option Srv) (inst : ServiceInstance) (host_name : Bytes) (referenced : List Bytes)
    → inst.srv_ ≡ o
    → check_service o inst host_name referenced ≡ ok tt
    → ServiceOk host_name referenced inst
unfolding check_service
check_service-ServiceOk none inst host_name referenced e h = λ s q. absurd (ground (arith, e, q))
check_service-ServiceOk (some t) inst host_name referenced e h = λ s q.
    let is_t : t ≡ s = ground (arith, e, q) in
    let host : same (fold t.target) host_name ≡ true = ground (arith, h) in
    (
      ground (arith, h),
      ap (λ x. fold x.target) (sym is_t) ∙ (same_iff (fold t.target) host_name).0 host,
      ground (arith, h),
    )

pub All-ServiceOk :
    (insts : List ServiceInstance) (host_name : Bytes) (referenced : List Bytes)
    → check_instances insts host_name referenced ≡ ok tt
    → All (ServiceOk host_name referenced) insts
unfolding check_instances
All-ServiceOk [] host_name referenced h = tt
All-ServiceOk (inst ∷ insts) host_name referenced h =
    let (u, e, r) = bind_ok (check_service inst.srv_ inst host_name referenced) _ tt h in
    (
      check_service-ServiceOk inst.srv_ inst host_name referenced refl e,
      All-ServiceOk insts host_name referenced r,
    )

pub removals-ServiceOk :
    (deletes : Assoc Rr) (consumed : List Bytes) (host_name : Bytes) (referenced : List Bytes)
    → All (ServiceOk host_name referenced) (removals deletes consumed)
unfolding removals
removals-ServiceOk [] consumed host_name referenced = tt
removals-ServiceOk ((name, del) ∷ deletes) consumed host_name referenced =
    elim (Bool-cases (member name consumed)) [
      | inl e ↦ rw e (removals-ServiceOk deletes consumed host_name referenced)
      | inr e ↦ rw e (
        (λ s q. absurd (ground (arith, q))),
        removals-ServiceOk deletes consumed host_name referenced,
      )
    ]

pub Serviced-append :
    (xs ys : List ServiceInstance) (name : Bytes) → Serviced xs name → Serviced (xs ++ ys) name
unfolding find_instance has_service
Serviced-append [] ys name h = cc
Serviced-append (x ∷ xs) ys name h = elim (Bool-cases (same x.name name)) [
  | inl e ↦ rw e (rw e at h)
  | inr e ↦ rw e (Serviced-append xs ys name (rw e at h))
]

module _ (k : Key) (n : Bytes) where
  abbrev with_key : ServiceInstance → ServiceInstance
  with_key i = record i { key = some k }

  Serviced-update :
      (insts : List ServiceInstance) (name : Bytes)
      → Serviced insts name
      → Serviced (update_instance n with_key insts) name
  unfolding find_instance update_instance has_service
  Serviced-update [] name h = h
  Serviced-update (i ∷ insts) name h =
      pick (Bool-cases (same i.name n)) (Bool-cases (same i.name name)) h
        (Serviced-update insts name)
    where
      pick :
          (same i.name n ≡ true) ⊎ (same i.name n ≡ false)
          → (same i.name name ≡ true) ⊎ (same i.name name ≡ false)
          → Serviced (i ∷ insts) name
          → (Serviced insts name → Serviced (update_instance n with_key insts) name)
          → Serviced (update_instance n with_key (i ∷ insts)) name
      pick (inl a) (inl b) h ih = rw (a, b) (rw b at h)
      pick (inl a) (inr b) h ih = rw (a, b) (rw b at h)
      pick (inr a) (inl b) h ih = rw (a, b) (rw b at h)
      pick (inr a) (inr b) h ih = rw (a, b) (ih (rw b at h))

  ServiceOk-update :
      (host_name : Bytes) (referenced : List Bytes) (insts : List ServiceInstance)
      → All (ServiceOk host_name referenced) insts
      → All (ServiceOk host_name referenced) (update_instance n with_key insts)
  unfolding update_instance
  ServiceOk-update host_name referenced [] h = tt
  ServiceOk-update host_name referenced (i ∷ insts) h = elim (Bool-cases (same i.name n)) [
    | inl e ↦ rw e (h.0, h.1)
    | inr e ↦ rw e (h.0, ServiceOk-update host_name referenced insts h.1)
  ]

-- What giving the KEYs to their owners keeps.
pub record Assigned (h : HostDescription) (insts : List ServiceInstance)
    (x : HostDescription × List ServiceInstance) : Type 0 where
  pub name : x.0.name ≡ h.name
  pub serviced : (n : Bytes) → Serviced insts n → Serviced x.1 n
  pub ok_ :
      (referenced : List Bytes)
      → All (ServiceOk h.name referenced) insts
      → All (ServiceOk h.name referenced) x.1

assign_key-Assigned :
    (k : Key) (h : HostDescription) (insts : List ServiceInstance)
    (x : HostDescription × List ServiceInstance)
    → assign_key k h insts ≡ ok x
    → Assigned h insts x
unfolding assign_key key_at_instance
assign_key-Assigned k h insts x e = elim (Bool-cases (same (fold k.hdr.name) h.name)) [
  | inl q ↦ at_host (Bool-cases (is_some h.key)) (rw q at e)
  | inr q ↦ at_instance (find_instance (fold k.hdr.name) insts) (rw q at e)
]
  where
    at_host :
        (is_some h.key ≡ true) ⊎ (is_some h.key ≡ false)
        → (if is_some h.key then err two_keys else ok (record h { key = some k }, insts)) ≡ ok x
        → Assigned h insts x
    at_host (inl q) e =
        let bad : Path (Result SrpError (HostDescription × List ServiceInstance)) (err two_keys)
            (ok x) =
          rw q at e in
        cc
    at_host (inr q) e =
        let done : ok (record h { key = some k }, insts) ≡ ok x = rw q at e in
        subst (Assigned h insts) (ok-injective done)
          (record { name = refl; serviced = λ n s. s; ok_ = λ r a. a })

    at_instance :
        (o : Option ServiceInstance)
        → key_at_instance o k (fold k.hdr.name) h insts ≡ ok x
        → Assigned h insts x
    at_instance none e = cc
    at_instance (some inst) e = elim (Bool-cases (is_some inst.key)) [
      | inl q ↦
          let bad : Path (Result SrpError (HostDescription × List ServiceInstance)) (err two_keys)
              (ok x) =
            rw q at e in
          cc
      | inr q ↦ subst (Assigned h insts) (ok-injective (rw q at e)) (record {
        name = refl;
        serviced = Serviced-update k (fold k.hdr.name) insts;
        ok_ = λ r. ServiceOk-update k (fold k.hdr.name) h.name r insts;
      })
    ]

pub assign_keys-Assigned :
    (ks : List Key) (h : HostDescription) (insts : List ServiceInstance)
    (x : HostDescription × List ServiceInstance)
    → assign_keys ks h insts ≡ ok x
    → Assigned h insts x
unfolding assign_keys
assign_keys-Assigned [] h insts x e =
    subst (Assigned h insts) (ok-injective e)
      (record { name = refl; serviced = λ n s. s; ok_ = λ r a. a })
assign_keys-Assigned (k ∷ ks) h insts x e =
    let (y, q, r) = bind_ok (assign_key k h insts) _ x e in
    let one = assign_key-Assigned k h insts y q in
    let rest = assign_keys-Assigned ks y.0 y.1 x r in
    record {
      name = rest.name ∙ one.name;
      serviced = λ n s. rest.serviced n (one.serviced n s);
      ok_ = λ referenced all.
          subst (λ n. All (ServiceOk n referenced) x.1) one.name
            (rest.ok_ referenced (
              subst (λ n. All (ServiceOk n referenced) y.1) (sym one.name)
                (one.ok_ referenced all)));
    }

pub All-Serviced :
    (xs ys : List ServiceInstance) (ds : List ServiceDiscovery)
    → ((n : Bytes) → Serviced xs n → Serviced ys n)
    → All (λ d. Serviced xs d.target) ds
    → All (λ d. Serviced ys d.target) ds
All-Serviced xs ys [] f h = tt
All-Serviced xs ys (d ∷ ds) f h = (f d.target h.0, All-Serviced xs ys ds f h.1)
