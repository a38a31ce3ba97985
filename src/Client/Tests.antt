-- ===== src/Client/Tests.antt =====
-- Responses at work: tests, and the theorem at a concrete input.
use sig0lease.Base.{◌+◌, ◌*◌, ◌≡◌, refl, some, [], ◌∷◌, arith}
use sig0lease.LeaseOption.{
  option_rr, option_code, erfc3597, validate, encode, encode_8byte, find_in_opt, scan, put_uint32,
  hex_encode,
}
use sig0lease.Client.{
  conflict, interpret_response, expiry_from_response, second, granted_lease,
  effective_lease_duration,
}
use sig0lease.LeasePolicy.{LeasePolicy, clamp, clamp_nonzero, clamp_lease}
use sig0lease.UpdateHandler.Response.{build_success_response}
use sig0lease.Client.Granted.{effective_lease-granted}

renames : interpret_response (some 6) ≡ conflict
unfolding interpret_response
renames = refl

falls_back : effective_lease_duration [] [] 60 120 ≡ (60, 120)
unfolding effective_lease_duration sig0lease.LeaseOption.find_and_decode
    sig0lease.LeaseOption.find_option sig0lease.LeaseOption.scan
falls_back = refl

abbrev policy : LeasePolicy
policy = record { min_key_lease = 0; max_key_lease = 7200; min_rr_lease = 0; max_rr_lease = 3600 }

clamps : clamp policy 9000 9000 ≡ (3600, 7200)
unfolding clamp clamp_nonzero clamp_lease
clamps = refl

effective_lease-granted_example :
    let (l, k) = clamp policy 9000 9000 in
    let response = build_success_response [] l k in
    (expiry_from_response 5 60 120 response [] ≡ (5 + l * second, 5 + k * second))
    × (granted_lease response [] ≡ some (l, k))
    × (granted_lease (option_rr option_code (hex_encode (put_uint32 60)) ∷ []) [] ≡ some (60, 60))
effective_lease-granted_example =
    effective_lease-granted policy 9000 9000 [] 5 60 120 60 [] [] (rw clamps (omega arith))
      (rw clamps (omega arith)) (omega arith)
