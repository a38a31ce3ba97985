-- ===== src/Expiry/Backoff.antt =====
-- The wait before a lease event is tried again.
use sig0lease.Base.{
  ℕ, zero, suc, ◌*◌, ◌^◌, ◌≤◌, min, ◌≡◌, ap, ◌∙◌, inl, inr, arith, ltb, Bool-cases,
}
use sig0lease.Store.{second}
use sig0lease.Expiry.{max_expiry_retry_delay, doubled, expiry_retry_delay}

pow_suc : (n d : ℕ) → 2 ^ suc n * d ≡ 2 ^ n * (d * 2)
pow_suc n d = grind arith

pow_pos : (n : ℕ) → 1 ≤ 2 ^ n
pow_pos zero = omega arith
pow_pos (suc n) = let ih = pow_pos n in grind arith

capped : (n d : ℕ) → max_expiry_retry_delay ≤ d → max_expiry_retry_delay ≤ 2 ^ n * d
capped n d h = let p = pow_pos n in grind arith

doubled_lem :
    (n d : ℕ) → min (doubled n d) max_expiry_retry_delay ≡ min (2 ^ n * d) max_expiry_retry_delay
unfolding doubled
doubled_lem zero d = ap (λ x. min x max_expiry_retry_delay) (omega arith)
doubled_lem (suc n) d = elim (Bool-cases (ltb d max_expiry_retry_delay)) [
  | inl e ↦ rw (e, pow_suc n d) (doubled_lem n (d * 2))
  | inr e ↦
      let big : max_expiry_retry_delay ≤ d = ground arith in
      let h = capped n (d * 2) (omega arith) in rw e (rw (pow_suc n d) (omega arith))
]

doubled-le : (n d : ℕ) → d ≤ doubled n d
unfolding doubled
doubled-le zero d = omega arith
doubled-le (suc n) d = ground (arith, doubled-le n (d * 2))

-- The wait after the n-th failure in a row, n from 1 on, is 2^(n-1) seconds, and at most 16 s.
pub expiry_retry_delay_lem :
    (n : ℕ) → expiry_retry_delay (suc n) ≡ min (2 ^ n * second) (16 * second)
unfolding expiry_retry_delay
expiry_retry_delay_lem n =
    ap (λ m. min (doubled m second) max_expiry_retry_delay) (omega arith) ∙ doubled_lem n second
