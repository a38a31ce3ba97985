-- ===== src/LeaseOption/Tests.antt =====
-- The Update Lease option at work: tests, and the theorems at concrete inputs.
use sig0lease.Base.{◌≡◌, refl, none, some, List, [], ◌∷◌, arith, bytes, ok, err, ◌>>=◌}
use sig0lease.LeaseOption.{
  LeaseOption, Edns0, erfc3597, other_option, option_code, invalid_hex, invalid_length, validate,
  encode, decode, encode_8byte, encode_4byte, find_in_opt, hex_decode, lease_exceeds_key_lease,
}
use sig0lease.LeaseOption.Codec.{IsUint32, decode-encode, decode-valid}

abbrev two_hours : LeaseOption
two_hours = record { lease = 7200; key_lease = some 1209600 }

abbrev other_options : List Edns0
other_options = other_option ∷ erfc3597 9 (bytes "00") ∷ []

decodes_4byte : decode (erfc3597 option_code (bytes "00001C20") ∷ []) ≡ ok (encode_4byte 7200)
unfolding decode hex_decode find_in_opt encode_4byte
decodes_4byte = refl

refuses_length : decode (erfc3597 option_code (bytes "001c20") ∷ []) ≡ err invalid_length
unfolding decode hex_decode find_in_opt
refuses_length = refl

refuses_hex : decode (erfc3597 option_code (bytes "00001x20") ∷ []) ≡ err invalid_hex
unfolding decode hex_decode find_in_opt
refuses_hex = refl

refuses_order : validate (encode_8byte 10 5) ≡ err lease_exceeds_key_lease
unfolding validate encode_8byte
refuses_order = refl

absent : find_in_opt other_options ≡ none
unfolding find_in_opt
absent = refl

valid_two_hours : validate two_hours ≡ ok tt
unfolding validate
valid_two_hours = refl

decode-encode_example : (encode two_hours other_options >>= decode) ≡ ok (encode_8byte 7200 1209600)
decode-encode_example =
    decode-encode two_hours other_options (omega arith, omega arith) valid_two_hours absent

decode-valid_example : (validate (encode_4byte 7200) ≡ ok tt) × IsUint32 (encode_4byte 7200)
decode-valid_example =
    decode-valid (erfc3597 option_code (bytes "00001C20") ∷ []) (encode_4byte 7200) decodes_4byte
