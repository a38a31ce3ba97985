-- ===== src/Client/Granted.antt =====
-- A client counts by what the server granted.
use sig0lease.Base.{
  ℕ, ◌+◌, ◌*◌, ◌^◌, ◌≤◌, ◌<◌, ◌≡◌, refl, ap, ◌∙◌, ◌≢◌, some, List, ◌∷◌, ◌++◌, map, arith, Bytes, ok,
}
use sig0lease.LeaseOption.{
  LeaseOption, SectionRr, option_rr, option_code, validate_values, validate, encode, encode_8byte,
  encode_4byte, put_uint32, hex_encode, scan, scan_opt, find_option, decode_erfc, decode_found,
  find_and_decode,
}
use sig0lease.LeaseOption.Codec.{decode_words, decode_word}
use sig0lease.LeasePolicy.{LeasePolicy, clamp}
use sig0lease.LeasePolicy.Clamp.{clamp_zero_and_order}
use sig0lease.UpdateHandler.{Note}
use sig0lease.UpdateHandler.Response.{
  as_pseudo, encoded_options, lease_response, build_success_response,
}
use sig0lease.Client.{
  both_leases, decoded_or, effective_lease_duration, expiry_from_response, second, decoded_leases,
  granted_lease,
}

-- The first option of a message's Pseudo section is the one that is decoded.
finds_first :
    (text : Bytes) (rest extra : List SectionRr)
    → find_and_decode (option_rr option_code text ∷ rest) extra ≡ decode_erfc text
unfolding find_and_decode find_option scan scan_opt decode_found
finds_first text rest extra = refl

-- Leases that a client reads, from what it decodes.
reads :
    (now requested_lease requested_key_lease : ℕ) (pseudo extra : List SectionRr) (lo : LeaseOption)
    → find_and_decode pseudo extra ≡ ok lo
    → (expiry_from_response now requested_lease requested_key_lease pseudo extra
        ≡ (now + (both_leases lo).0 * second, now + (both_leases lo).1 * second))
      × (granted_lease pseudo extra ≡ some (both_leases lo))
unfolding expiry_from_response effective_lease_duration granted_lease decoded_or decoded_leases
reads now requested_lease requested_key_lease pseudo extra lo h = (
  ap
      (λ r.
        let leases = decoded_or r requested_lease requested_key_lease in
        (now + leases.0 * second, now + leases.1 * second))
      h,
  ap decoded_leases h,
)

-- The server's option, for leases in order.
sends :
    (lease key_lease : ℕ) (notes : List Note)
    → validate_values lease (some key_lease) ≡ ok tt
    → build_success_response notes lease key_lease
      ≡ option_rr option_code (hex_encode (put_uint32 lease ++ put_uint32 key_lease))
        ∷ map (λ note. SectionRr.other_rr) notes
unfolding build_success_response lease_response as_pseudo encoded_options encode validate
    encode_8byte
sends lease key_lease notes v = rw v refl

in_order :
    (lease key_lease : ℕ)
    → (key_lease ≢ 0 → lease ≤ key_lease)
    → validate_values lease (some key_lease) ≡ ok tt
unfolding validate_values
in_order lease key_lease h = ground arith

-- A client that reads the response to a request that was processed, with whatever status notes,
-- counts by the leases that the policy granted, and not by what it requested; and a client that
-- reads an option in the 4-byte variant takes its one value for both leases.
pub effective_lease-granted :
    (p : LeasePolicy) (lease key_lease : ℕ) (notes : List Note)
    (now requested_lease requested_key_lease : ℕ) (word : ℕ) (rest extra : List SectionRr)
    → (clamp p lease key_lease).0 < 2 ^ 32
    → (clamp p lease key_lease).1 < 2 ^ 32
    → word < 2 ^ 32
    → let (l, k) = clamp p lease key_lease in
      let response = build_success_response notes l k in
      (expiry_from_response now requested_lease requested_key_lease response extra
        ≡ (now + l * second, now + k * second))
      × (granted_lease response extra ≡ some (l, k))
      × (granted_lease (option_rr option_code (hex_encode (put_uint32 word)) ∷ rest) extra
          ≡ some (word, word))
unfolding both_leases encode_8byte encode_4byte
effective_lease-granted p lease key_lease notes now requested_lease requested_key_lease word rest
      extra fits key_fits word_fits =
    let (l, k) = clamp p lease key_lease in
    let v = in_order l k (clamp_zero_and_order p lease key_lease).2 in
    let both = reads now requested_lease requested_key_lease _ extra (encode_8byte l k) (
      finds_first _ (map (λ note. SectionRr.other_rr) notes) extra
      ∙ decode_words l k fits key_fits v) in
    let alone =
      reads now requested_lease requested_key_lease _ extra (encode_4byte word)
        (finds_first _ rest extra ∙ decode_word word word_fits) in
    (
      ap (λ r. expiry_from_response now requested_lease requested_key_lease r extra)
            (sends l k notes v)
          ∙ both.0,
      ap (λ r. granted_lease r extra) (sends l k notes v) ∙ both.1,
      alone.1,
    )
