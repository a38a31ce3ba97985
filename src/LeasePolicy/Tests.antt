-- ===== src/LeasePolicy/Tests.antt =====
-- Lease policies at work: tests, and the theorems at concrete inputs.
use sig0lease.Base.{
  ℕ, ◌+◌, ◌*◌, ◌^◌, ◌≤◌, ◌≡◌, refl, ◌≢◌, ◌↔◌, false, some, List, [], ◌∷◌, arith, bytes, same, Assoc,
  get, ok, err,
}
use sig0lease.LeaseOption.Codec.{key_lease_or_zero}
use sig0lease.LeasePolicy.{
  LeasePolicy, ConfigValue, int, validate, min_rr_above_min_key, clamp, clamp_lease, clamp_nonzero,
  parse_lease_policy, parse_record_ttl, parse_lease_values,
}
use sig0lease.LeaseOption.{
  LeaseOption, SectionRr, option_rr, option_code, find_option, find_and_decode, scan, decode_erfc,
  hex_decode,
}
use sig0lease.LeasePolicy.{parse_lease}
use sig0lease.LeasePolicy.Clamp.{
  IsConsistent, Within, validate_iff, clamp_consistent, clamp_zero_and_order, clamp_idem,
}
use sig0lease.LeasePolicy.Config.{parse_record_ttl_wraps, parse_lease-accepts}

abbrev policy : LeasePolicy
policy = record { min_key_lease = 60; max_key_lease = 7200; min_rr_lease = 30; max_rr_lease = 3600 }

accepted : validate policy ≡ ok tt
unfolding validate
accepted = refl

loose : validate (record policy { min_rr_lease = 90 }) ≡ err min_rr_above_min_key
unfolding validate
loose = refl

clamps_down : clamp policy 9000 9000 ≡ (3600, 7200)
unfolding clamp clamp_nonzero
clamps_down = refl

validate_iff_example : (validate policy ≡ ok tt) ↔ IsConsistent policy
validate_iff_example = validate_iff policy

clamp_consistent_example :
    ((clamp policy 10 20).0 ≡ clamp_lease 10 30 3600)
    × ((clamp policy 10 20).1 ≡ clamp_lease 20 60 7200)
    × Within (clamp policy 10 20).0 30 3600
    × Within (clamp policy 10 20).1 60 7200
    × ((clamp policy 10 20).0 ≤ (clamp policy 10 20).1)
clamp_consistent_example =
    clamp_consistent policy 10 20 accepted (omega arith) (omega arith) (omega arith)

abbrev removal : ℕ
removal = 0

abbrev kept : ℕ
kept = 500

clamp_zero_and_order_example :
    (((clamp policy removal kept).0 ≡ 0) ↔ (removal ≡ 0))
    × (((clamp policy removal kept).1 ≡ 0) ↔ (kept ≡ 0))
    × ((clamp policy removal kept).1 ≢ 0
        → (clamp policy removal kept).0 ≤ (clamp policy removal kept).1)
clamp_zero_and_order_example = clamp_zero_and_order policy removal kept

clamp_idem_example :
    clamp policy (clamp policy 9000 40).0 (clamp policy 9000 40).1 ≡ clamp policy 9000 40
clamp_idem_example = clamp_idem policy 9000 40 accepted

abbrev configuration : Assoc ConfigValue
configuration =
    (bytes "min_key_lease_sec", int 60)
    ∷ (bytes "max_key_lease_sec", int 7200)
    ∷ (bytes "min_rr_lease_sec", int 30)
    ∷ (bytes "max_rr_lease_sec", int 3600)
    ∷ (bytes "record_ttl_sec", int 4294967596)
    ∷ []

reads_policy : parse_lease_policy (some configuration) ≡ ok policy
unfolding parse_lease_policy validate get same
reads_policy = refl

reads_ttl : get (bytes "record_ttl_sec") configuration ≡ some (int (300 + 2 ^ 32 * 1))
unfolding get same
reads_ttl = refl

wraps : parse_record_ttl configuration ≡ ok 300
wraps = parse_record_ttl_wraps configuration 300 1 reads_ttl (omega arith) (omega arith)

parse_record_ttl_wraps_example : parse_record_ttl configuration ≡ ok 300
parse_record_ttl_wraps_example =
    parse_record_ttl_wraps configuration 300 1 reads_ttl (omega arith) (omega arith)

abbrev asked : ℕ
asked = 40

abbrev asked_key : ℕ
asked_key = 80

takes_request : parse_lease_values policy false asked (some asked_key) ≡ ok (asked, asked_key)
unfolding parse_lease_values
takes_request = refl

abbrev asking : List SectionRr
asking = option_rr option_code (bytes "0000002800000050") ∷ []

takes_message : parse_lease policy false asking [] ≡ ok (asked, asked_key)
unfolding parse_lease parse_lease_values find_option scan decode_erfc hex_decode
    sig0lease.LeaseOption.validate
takes_message = refl

parse_lease-accepts_example :
    (lo : LeaseOption) × (find_and_decode asking [] ≡ ok lo)
    × (asked ≡ lo.lease)
    × (asked_key ≡ key_lease_or_zero lo.key_lease)
    × (asked ≢ 0 → 30 ≤ asked)
    × (asked_key ≢ 0 → 60 ≤ asked_key)
    × (asked ≢ 0 → asked_key ≢ 0 → asked ≤ asked_key)
parse_lease-accepts_example =
    parse_lease-accepts policy false asking [] asked asked_key takes_message
