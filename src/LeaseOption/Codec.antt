-- ===== src/LeaseOption/Codec.antt =====
-- What a requester encodes and a registrar decodes.
use sig0lease.Base.{
  ℕ, zero, suc, ◌^◌, ◌<◌, ◌≡◌, refl, ap, ◌∙◌, subst, inl, inr, Option, none, some, List, [], ◌∷◌,
  ◌++◌, arith, ◌==◌, Bool-cases, length, take, drop, All-append, Bytes, ok, err, ◌>>=◌,
}
use mathlib.Core.Path.{ap₂}
use sig0lease.LeaseOption.{
  LeaseOption, Edns0, erfc3597, other_option, option_code, put_uint32, uint32, hex_encode,
  hex_decode, validate_values, validate, encode, checked, decode_data, decode_hex, decode_found,
  invalid_length, decode_erfc, find_in_opt, decode, encode_8byte, encode_4byte,
}
use sig0lease.LeaseOption.Hex.{
  AreBytes, hex_decode-encode, hex_decode-AreBytes, uint32-put_uint32, put_uint32-AreBytes,
  uint32-lt,
}

abbrev pub key_lease_or_zero : Option ℕ → ℕ
key_lease_or_zero none = 0
key_lease_or_zero (some k) = k

-- The lease values fit in their fields.
abbrev pub IsUint32 : LeaseOption → Type 0
IsUint32 lo = (lo.lease < 2 ^ 32) × (key_lease_or_zero lo.key_lease < 2 ^ 32)

find_in_opt-append :
    (options : List Edns0) (text : Bytes)
    → find_in_opt options ≡ none
    → find_in_opt (options ++ (erfc3597 option_code text ∷ [])) ≡ some text
unfolding find_in_opt
find_in_opt-append [] text h = refl
find_in_opt-append (erfc3597 c t ∷ rest) text h = ground (arith, find_in_opt-append rest text)
find_in_opt-append (other_option ∷ rest) text h = find_in_opt-append rest text h

decode_data-words :
    (lease key_lease : ℕ)
    → decode_data (put_uint32 lease ++ put_uint32 key_lease)
      ≡ checked (encode_8byte (uint32 (put_uint32 lease)) (uint32 (put_uint32 key_lease)))
unfolding decode_data put_uint32 encode_8byte
decode_data-words lease key_lease = refl

checked_valid :
    (lease key_lease : ℕ)
    → validate_values lease (some key_lease) ≡ ok tt
    → checked (encode_8byte lease key_lease) ≡ ok (encode_8byte lease key_lease)
unfolding checked validate encode_8byte
checked_valid lease key_lease v = rw v

words-AreBytes : (a b : ℕ) → AreBytes (put_uint32 a ++ put_uint32 b)
words-AreBytes a b =
    All-append _ (put_uint32 a) (put_uint32 b) (put_uint32-AreBytes a) (put_uint32-AreBytes b)

pub decode_words :
    (lease key_lease : ℕ)
    → lease < 2 ^ 32
    → key_lease < 2 ^ 32
    → validate_values lease (some key_lease) ≡ ok tt
    → decode_erfc (hex_encode (put_uint32 lease ++ put_uint32 key_lease))
      ≡ ok (encode_8byte lease key_lease)
unfolding decode_erfc
decode_words lease key_lease h k v =
    ap decode_hex (hex_decode-encode _ (words-AreBytes lease key_lease))
    ∙ decode_data-words lease key_lease
    ∙ ap₂ (λ a b. checked (encode_8byte a b)) (uint32-put_uint32 lease h)
        (uint32-put_uint32 key_lease k)
    ∙ checked_valid lease key_lease v

-- The 4-byte variant decodes to its one value.
pub decode_word :
    (lease : ℕ)
    → lease < 2 ^ 32
    → decode_erfc (hex_encode (put_uint32 lease)) ≡ ok (encode_4byte lease)
unfolding decode_erfc decode_data put_uint32 encode_4byte checked validate validate_values
decode_word lease h =
    ap decode_hex (hex_decode-encode _ (put_uint32-AreBytes lease))
    ∙ one lease
    ∙ ap (λ a. ok (encode_4byte a)) (uint32-put_uint32 lease h)
  where
    one : (n : ℕ) → decode_data (put_uint32 n) ≡ ok (encode_4byte (uint32 (put_uint32 n)))
    one n = refl

valid_8byte :
    (lease : ℕ) (key_lease : Option ℕ)
    → validate_values lease key_lease ≡ ok tt
    → validate_values lease (some (key_lease_or_zero key_lease)) ≡ ok tt
unfolding validate_values
valid_8byte lease none v = refl
valid_8byte lease (some k) v = v

-- A valid option that is encoded into an OPT RR without one decodes to the same values; a missing
-- KEY-LEASE comes back as 0, since the 8-byte variant is always sent.
pub decode-encode :
    (lo : LeaseOption) (options : List Edns0)
    → IsUint32 lo
    → validate lo ≡ ok tt
    → find_in_opt options ≡ none
    → (encode lo options >>= decode) ≡ ok (encode_8byte lo.lease (key_lease_or_zero lo.key_lease))
unfolding encode decode
decode-encode lo options (h, k) v absent = rw v (
    ap decode_found (find_in_opt-append options _ absent)
    ∙ decode_words lo.lease (key_lease_or_zero lo.key_lease) h k
        (valid_8byte lo.lease lo.key_lease v))

checked-valid :
    (l : LeaseOption) {lo : LeaseOption} → checked l ≡ ok lo → (validate lo ≡ ok tt) × (l ≡ lo)
unfolding checked
checked-valid l h = ground arith

take-AreBytes : (n : ℕ) (bs : Bytes) → AreBytes bs → AreBytes (take n bs)
take-AreBytes zero bs h = tt
take-AreBytes (suc n) [] h = tt
take-AreBytes (suc n) (b ∷ bs) h = (h.0, take-AreBytes n bs h.1)

drop-AreBytes : (n : ℕ) (bs : Bytes) → AreBytes bs → AreBytes (drop n bs)
drop-AreBytes zero bs h = h
drop-AreBytes (suc n) [] h = tt
drop-AreBytes (suc n) (b ∷ bs) h = drop-AreBytes n bs h.1

decode_data-valid :
    (buf : Bytes) (lo : LeaseOption)
    → AreBytes buf
    → decode_data buf ≡ ok lo
    → (validate lo ≡ ok tt) × IsUint32 lo
unfolding decode_data encode_4byte encode_8byte
decode_data-valid buf lo b h = elim (Bool-cases (length buf == 4)) [
  | inl e ↦
      let (v, same_lo) = checked-valid (encode_4byte (uint32 buf)) (rw e at h) in
      (v, subst IsUint32 same_lo (uint32-lt buf b, omega arith))
  | inr e ↦ elim (Bool-cases (length buf == 8)) [
    | inl e' ↦
        let (v, same_lo) =
          checked-valid (encode_8byte (uint32 (take 4 buf)) (uint32 (drop 4 buf)))
            (rw (e, e') at h) in
        (
          v,
          subst IsUint32 same_lo (
            uint32-lt (take 4 buf) (take-AreBytes 4 buf b),
            uint32-lt (drop 4 buf) (drop-AreBytes 4 buf b),
          ),
        )
    | inr e' ↦ let bad : err invalid_length ≡ ok lo = rw (e, e') at h in cc
  ]
]

-- Whatever the options, a decoded lease is valid and its values fit in 32 bits.
pub decode-valid :
    (options : List Edns0) (lo : LeaseOption)
    → decode options ≡ ok lo
    → (validate lo ≡ ok tt) × IsUint32 lo
unfolding decode
decode-valid options lo h = found (find_in_opt options) h
  where
    read :
        (s : Option Bytes)
        → ((bs : Bytes) → s ≡ some bs → AreBytes bs)
        → decode_hex s ≡ ok lo
        → (validate lo ≡ ok tt) × IsUint32 lo
    read none b h = cc
    read (some bs) b h = decode_data-valid bs lo (b bs refl) h

    found : (o : Option Bytes) → decode_found o ≡ ok lo → (validate lo ≡ ok tt) × IsUint32 lo
    found none h = cc
    found (some code) h = read (hex_decode code) (hex_decode-AreBytes code) h
