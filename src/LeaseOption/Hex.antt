-- ===== src/LeaseOption/Hex.antt =====
-- Hex text and big-endian words, there and back.
use sig0lease.Base.{
  ℕ, ◌+◌, ◌*◌, ◌/◌, ◌%◌, ◌^◌, ◌<◌, ◌≡◌, refl, Option, none, some, [], ◌∷◌, arith, All, Bytes,
}
use sig0lease.LeaseOption.{
  put_uint32, uint32, hex_digit, hex_encode, hex_value, hex_byte, hex_decode,
}

abbrev pub AreBytes : Bytes → Type 0
AreBytes bs = All (λ b. b < 256) bs

hex_value-digit : (n : ℕ) → n < 16 → hex_value (hex_digit n) ≡ some n
unfolding hex_value hex_digit
hex_value-digit n h = ground arith

pub hex_decode-encode : (bs : Bytes) → AreBytes bs → hex_decode (hex_encode bs) ≡ some bs
unfolding hex_decode hex_encode
hex_decode-encode [] h = refl
hex_decode-encode (b ∷ bs) h =
    let whole : b / 16 * 16 + b % 16 ≡ b = omega arith in
    rw
      (
        hex_value-digit (b / 16) (omega (arith, h.0)),
        hex_value-digit (b % 16) (omega arith),
        hex_decode-encode bs h.1,
      )
      (cc whole)

hex_value-lt : (c n : ℕ) → hex_value c ≡ some n → n < 16
unfolding hex_value
hex_value-lt c n h = ground arith

hex_byte_parts :
    (h l : Option ℕ) (rest : Option Bytes) (bs : Bytes)
    → hex_byte h l rest ≡ some bs
    → (x : ℕ) × (y : ℕ) × (r : Bytes) × (h ≡ some x)
      × (l ≡ some y)
      × (rest ≡ some r)
      × (bs ≡ (x * 16 + y) ∷ r)
unfolding hex_byte
hex_byte_parts (some x) (some y) (some r) bs e = (x, y, r, refl, refl, refl, ground arith)
hex_byte_parts (some x) (some y) none bs e = cc
hex_byte_parts (some x) none rest bs e = cc
hex_byte_parts none l rest bs e = cc

pub hex_decode-AreBytes : (s bs : Bytes) → hex_decode s ≡ some bs → AreBytes bs
unfolding hex_decode
hex_decode-AreBytes [] bs h = let e : bs ≡ [] = ground arith in rw e tt
hex_decode-AreBytes (c ∷ []) bs h = cc
hex_decode-AreBytes (c ∷ d ∷ cs) bs h =
    let (x, y, r, p, q, u, e) = hex_byte_parts _ _ _ bs h in
    let hx = hex_value-lt c x p in
    let hy = hex_value-lt d y q in rw e (omega (arith, hx, hy), hex_decode-AreBytes cs r u)

pub uint32-put_uint32 : (n : ℕ) → n < 2 ^ 32 → uint32 (put_uint32 n) ≡ n
unfolding uint32 put_uint32
uint32-put_uint32 n h = omega arith

pub put_uint32-AreBytes : (n : ℕ) → AreBytes (put_uint32 n)
unfolding put_uint32
put_uint32-AreBytes n = omega arith

pub uint32-lt : (bs : Bytes) → AreBytes bs → uint32 bs < 2 ^ 32
unfolding uint32
uint32-lt (a ∷ b ∷ c ∷ d ∷ rest) h = omega (arith, h.0, h.1.0, h.1.1.0, h.1.1.1.0)
uint32-lt [] h = omega arith
uint32-lt (a ∷ []) h = omega arith
uint32-lt (a ∷ b ∷ []) h = omega arith
uint32-lt (a ∷ b ∷ c ∷ []) h = omega arith
