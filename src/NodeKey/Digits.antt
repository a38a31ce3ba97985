-- ===== src/NodeKey/Digits.antt =====
-- Printed numbers are digits.
use sig0lease.Base.{
  ℕ, zero, suc, ◌+◌, ◌-◌, ◌/◌, ◌%◌, ◌≤◌, ◌≡◌, refl, ◌⊎◌, inl, inr, List, [], ◌∷◌, arith, ltb,
  Bool-cases, length, All, All-append, Bytes,
}
use sig0lease.NodeKey.{decimal_digits, decimal, zeros, padded, key_suffix}

abbrev pub IsDigit : ℕ → Type 0
IsDigit c = (b'0' ≤ c) × (c ≤ b'9')

-- A byte of a key's suffix: a digit or "+".
abbrev pub IsSuffixByte : ℕ → Type 0
IsSuffixByte c = (c ≡ b'+') ⊎ IsDigit c

decimal_digits-IsDigit :
    (fuel n : ℕ) (acc : Bytes) → All IsDigit acc → All IsDigit (decimal_digits fuel n acc)
unfolding decimal_digits
decimal_digits-IsDigit zero n acc h = h
decimal_digits-IsDigit (suc fuel) n acc h = elim (Bool-cases (ltb n 10)) [
  | inl e ↦ rw e ((ground arith, ground arith), h)
  | inr e ↦
      rw e (
        decimal_digits-IsDigit fuel (n / 10) ((b'0' + n % 10) ∷ acc)
          ((omega arith, omega arith), h))
]

zeros-IsDigit : (n : ℕ) → All IsDigit (zeros n)
unfolding zeros
zeros-IsDigit zero = tt
zeros-IsDigit (suc n) = ((omega arith, omega arith), zeros-IsDigit n)

padded-IsDigit : (width n : ℕ) → All IsDigit (padded width n)
unfolding padded decimal
padded-IsDigit width n =
    All-append IsDigit _ _ (zeros-IsDigit (width - length (decimal n)))
      (decimal_digits-IsDigit (suc n) n [] tt)

All-map {ℓ} :
    {A : Type ℓ} (P Q : A → Type 0) (xs : List A) → ((x : A) → P x → Q x) → All P xs → All Q xs
All-map P Q [] f h = tt
All-map P Q (x ∷ xs) f h = (f x h.0, All-map P Q xs f h.1)

pub key_suffix-IsSuffixByte : (algorithm tag : ℕ) → All IsSuffixByte (key_suffix algorithm tag)
unfolding key_suffix
key_suffix-IsSuffixByte algorithm tag =
    All-append IsSuffixByte _ _
      (All-map IsDigit IsSuffixByte _ (λ x h. inr h) (padded-IsDigit 3 algorithm))
      (inl refl, All-map IsDigit IsSuffixByte _ (λ x h. inr h) (padded-IsDigit 5 tag))
