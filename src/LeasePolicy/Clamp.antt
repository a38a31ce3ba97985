-- ===== src/LeasePolicy/Clamp.antt =====
-- The leases that a policy grants.
use sig0lease.Base.{
  ℕ, ◌≤◌, ◌<◌, ◌≡◌, ◌≢◌, ◌↔◌, ◌⊎◌, inl, inr, not, ◌&&◌, arith, ltb, ◌==◌, Bool-cases, ok,
}
use sig0lease.LeasePolicy.{LeasePolicy, validate, clamp_lease, clamp_nonzero, clamp}

-- What `validate` accepts.
pub record IsConsistent (p : LeasePolicy) : Type 0 where
  pub key_bounds : (p.max_key_lease ≡ 0) ⊎ (p.min_key_lease ≤ p.max_key_lease)
  pub rr_bounds : (p.max_rr_lease ≡ 0) ⊎ (p.min_rr_lease ≤ p.max_rr_lease)
  pub min_order : p.min_rr_lease ≤ p.min_key_lease
  pub max_order :
      (p.max_key_lease ≡ 0) ⊎ ((0 < p.max_rr_lease) × (p.max_rr_lease ≤ p.max_key_lease))

pub validate-IsConsistent : (p : LeasePolicy) → validate p ≡ ok tt → IsConsistent p
unfolding validate
validate-IsConsistent p h = record {
  key_bounds = ground arith;
  rr_bounds = ground arith;
  min_order = ground arith;
  max_order = ground arith;
}

IsConsistent-validate : (p : LeasePolicy) → IsConsistent p → validate p ≡ ok tt
unfolding validate
IsConsistent-validate p c = ground arith

-- `validate` accepts a policy exactly if each minimum is at most its maximum, where that is set,
-- and the bounds for data records are no looser than those for KEY records.
pub validate_iff : (p : LeasePolicy) → (validate p ≡ ok tt) ↔ IsConsistent p
validate_iff p = (validate-IsConsistent p, IsConsistent-validate p)

-- The lease lies between two bounds, each of which may be 0 for none.
abbrev pub Within : ℕ → ℕ → ℕ → Type 0
Within lease low high = (low ≤ lease) × ((high ≡ 0) ⊎ (lease ≤ high))

clamp_nonzero-Within :
    (lease low high : ℕ)
    → (high ≡ 0) ⊎ (low ≤ high)
    → lease ≢ 0
    → Within (clamp_nonzero lease low high) low high × (clamp_nonzero lease low high ≢ 0)
unfolding clamp_nonzero
clamp_nonzero-Within lease low high h ne = ground arith

clamp_nonzero-eq :
    (lease low high : ℕ) → lease ≢ 0 → clamp_nonzero lease low high ≡ clamp_lease lease low high
unfolding clamp_nonzero
clamp_nonzero-eq lease low high h = ground arith

clamp_nonzero-zero_iff : (lease low high : ℕ) → (clamp_nonzero lease low high ≡ 0) ↔ (lease ≡ 0)
unfolding clamp_nonzero
clamp_nonzero-zero_iff lease low high = (λ h. ground arith, λ h. ground arith)

clamp_nonzero_range :
    (lease low high : ℕ)
    → (high ≡ 0) ⊎ (low ≤ high)
    → (clamp_nonzero lease low high ≡ 0) ⊎ Within (clamp_nonzero lease low high) low high
unfolding clamp_nonzero
clamp_nonzero_range lease low high h = ground arith

clamp_nonzero_fix :
    (lease low high : ℕ)
    → (lease ≡ 0) ⊎ Within lease low high
    → clamp_nonzero lease low high ≡ lease
unfolding clamp_nonzero
clamp_nonzero_fix lease low high h = ground arith

-- Clamping by tighter bounds keeps the order.
clamp_nonzero-le :
    (p : LeasePolicy) (lease key_lease : ℕ)
    → IsConsistent p
    → lease ≢ 0
    → key_lease ≢ 0
    → lease ≤ key_lease
    → clamp_nonzero lease p.min_rr_lease p.max_rr_lease
      ≤ clamp_nonzero key_lease p.min_key_lease p.max_key_lease
unfolding clamp_nonzero
clamp_nonzero-le p lease key_lease c hl hk h = ground arith

-- Under a policy that `validate` accepts, a request whose LEASE is at most its KEY-LEASE is
-- granted values between the policy's bounds, each clamped on its own: the final check of `clamp`
-- changes nothing, and LEASE is still at most KEY-LEASE.
pub clamp_consistent :
    (p : LeasePolicy) (lease key_lease : ℕ)
    → validate p ≡ ok tt
    → lease ≢ 0
    → key_lease ≢ 0
    → lease ≤ key_lease
    → ((clamp p lease key_lease).0 ≡ clamp_lease lease p.min_rr_lease p.max_rr_lease)
      × ((clamp p lease key_lease).1 ≡ clamp_lease key_lease p.min_key_lease p.max_key_lease)
      × Within (clamp p lease key_lease).0 p.min_rr_lease p.max_rr_lease
      × Within (clamp p lease key_lease).1 p.min_key_lease p.max_key_lease
      × ((clamp p lease key_lease).0 ≤ (clamp p lease key_lease).1)
unfolding clamp
clamp_consistent p lease key_lease v hl hk h =
    let c = validate-IsConsistent p v in
    let l = clamp_nonzero-Within lease p.min_rr_lease p.max_rr_lease c.rr_bounds hl in
    let k = clamp_nonzero-Within key_lease p.min_key_lease p.max_key_lease c.key_bounds hk in
    let order = clamp_nonzero-le p lease key_lease c hl hk h in
    let el = clamp_nonzero-eq lease p.min_rr_lease p.max_rr_lease hl in
    let ek = clamp_nonzero-eq key_lease p.min_key_lease p.max_key_lease hk in
    (ground arith, ground arith, ground arith, ground arith, ground arith)

-- Whatever the policy and the request, `clamp` grants 0 exactly where 0 was requested, and no
-- LEASE above a KEY-LEASE that is not 0.
pub clamp_zero_and_order :
    (p : LeasePolicy) (lease key_lease : ℕ)
    → (((clamp p lease key_lease).0 ≡ 0) ↔ (lease ≡ 0))
      × (((clamp p lease key_lease).1 ≡ 0) ↔ (key_lease ≡ 0))
      × ((clamp p lease key_lease).1 ≢ 0
          → (clamp p lease key_lease).0 ≤ (clamp p lease key_lease).1)
unfolding clamp
clamp_zero_and_order p lease key_lease =
    let l = clamp_nonzero-zero_iff lease p.min_rr_lease p.max_rr_lease in
    let k = clamp_nonzero-zero_iff key_lease p.min_key_lease p.max_key_lease in
    (
      (λ h. ground arith, λ h. ground arith),
      (λ h. ground arith, λ h. ground arith),
      λ h. ground arith,
    )

-- Under a policy that `validate` accepts, what is granted is granted again unchanged.
pub clamp_idem :
    (p : LeasePolicy) (lease key_lease : ℕ)
    → validate p ≡ ok tt
    → clamp p (clamp p lease key_lease).0 (clamp p lease key_lease).1 ≡ clamp p lease key_lease
unfolding clamp
clamp_idem p lease key_lease v =
    let c = validate-IsConsistent p v in
    let l' = clamp_nonzero lease p.min_rr_lease p.max_rr_lease in
    let k' = clamp_nonzero key_lease p.min_key_lease p.max_key_lease in
    let l = clamp_nonzero_range lease p.min_rr_lease p.max_rr_lease c.rr_bounds in
    let k = clamp_nonzero_range key_lease p.min_key_lease p.max_key_lease c.key_bounds in
    let again_l = clamp_nonzero_fix l' p.min_rr_lease p.max_rr_lease l in
    let again_k = clamp_nonzero_fix k' p.min_key_lease p.max_key_lease k in
    let again_cut = clamp_nonzero_fix k' p.min_rr_lease p.max_rr_lease in
    elim (Bool-cases (not (l' == 0) && not (k' == 0) && ltb k' l')) [
      | inl e ↦
          let cut : Within k' p.min_rr_lease p.max_rr_lease = (ground arith, ground arith) in
          rw e (rw (again_cut (inr cut), again_k) (ground arith))
      | inr e ↦ rw e (rw (again_l, again_k) (rw e))
    ]
