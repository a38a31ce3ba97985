-- ===== src/LeasePolicy/Config.antt =====
-- What a configuration and a request may ask for.
use sig0lease.Base.{
  ℕ, ◌+◌, ◌*◌, ◌%◌, ◌^◌, ◌≤◌, ◌<◌, ◌≡◌, refl, ap, ◌∙◌, ◌≢◌, ◌⊎◌, Bool, Option, none, some, List,
  arith, Bytes, bytes, Assoc, get, Result, ok, err,
}
use Prim.Native.String.{String}
use sig0lease.LeasePolicy.{
  LeasePolicy, ConfigValue, int, configured_ttl, record_ttl, parse_record_ttl, max_int32, to_uint32,
  parse_lease_values,
}
use sig0lease.LeaseOption.Codec.{key_lease_or_zero}
use sig0lease.LeaseOption.{
  LeaseOption, OptionError, SectionRr, decode_erfc, find_option, find_and_decode, decode_found,
}
use sig0lease.LeasePolicy.{parse_lease, on_option, on_decoded}

-- The configuration has this number under a key, or nothing and the number is 0.
abbrev pub HasBound : Assoc ConfigValue → String → ℕ → Type 0
HasBound cfg key n =
    ((get (bytes key) cfg ≡ some (int n)) × (n < 2 ^ 32)) ⊎ ((get (bytes key) cfg ≡ none) × (n ≡ 0))

-- An integer from 2^32 on is not refused: its low 32 bits are taken for the TTL.
pub parse_record_ttl_wraps :
    (cfg : Assoc ConfigValue) (n k : ℕ)
    → get (bytes "record_ttl_sec") cfg ≡ some (int (n + 2 ^ 32 * k))
    → 1 ≤ n
    → n ≤ max_int32
    → parse_record_ttl cfg ≡ ok n
unfolding parse_record_ttl
parse_record_ttl_wraps cfg n k h low high =
    let low_bits : (n + 2 ^ 32 * k) % 2 ^ 32 ≡ n = omega arith in
    ap configured_ttl h ∙ (unfold record_ttl to_uint32 in rw low_bits (ground arith))

-- A request that passes the checks of `parseLease` comes out with its own LEASE and KEY-LEASE (0
-- in the 4-byte variant); one that is not 0 is at least its minimum, and a LEASE is at most a
-- KEY-LEASE where neither is 0.
pub parse_lease_values-accepts :
    (p : LeasePolicy) (prefer_4byte : Bool) (lease : ℕ) (key_lease : Option ℕ) (l k : ℕ)
    → parse_lease_values p prefer_4byte lease key_lease ≡ ok (l, k)
    → (l ≡ lease)
      × (k ≡ key_lease_or_zero key_lease)
      × (l ≢ 0 → p.min_rr_lease ≤ l)
      × (k ≢ 0 → p.min_key_lease ≤ k)
      × (l ≢ 0 → k ≢ 0 → l ≤ k)
unfolding parse_lease_values
parse_lease_values-accepts p prefer_4byte lease none l k h =
    (ground arith, ground arith, λ n. ground arith, λ n. ground arith, λ n m. ground arith)
parse_lease_values-accepts p prefer_4byte lease (some key_lease) l k h =
    (ground arith, ground arith, λ n. ground arith, λ n. ground arith, λ n m. ground arith)

-- A request that `parseLease` accepts has an option that is found and decodes, and comes out with
-- the option's own LEASE and KEY-LEASE (0 in the 4-byte variant); one that is not 0
-- is at least its minimum, and a LEASE is at most a KEY-LEASE where neither is 0.
pub parse_lease-accepts :
    (p : LeasePolicy) (prefer_4byte : Bool) (pseudo extra : List SectionRr) (l k : ℕ)
    → parse_lease p prefer_4byte pseudo extra ≡ ok (l, k)
    → (lo : LeaseOption) × (find_and_decode pseudo extra ≡ ok lo)
      × (l ≡ lo.lease)
      × (k ≡ key_lease_or_zero lo.key_lease)
      × (l ≢ 0 → p.min_rr_lease ≤ l)
      × (k ≢ 0 → p.min_key_lease ≤ k)
      × (l ≢ 0 → k ≢ 0 → l ≤ k)
unfolding parse_lease on_option on_decoded find_and_decode decode_found
parse_lease-accepts p prefer_4byte pseudo extra l k = found (find_option pseudo extra)
  where
    decoded :
        (r : Result OptionError LeaseOption)
        → on_decoded p prefer_4byte r ≡ ok (l, k)
        → (lo : LeaseOption) × (r ≡ ok lo)
          × (l ≡ lo.lease)
          × (k ≡ key_lease_or_zero lo.key_lease)
          × (l ≢ 0 → p.min_rr_lease ≤ l)
          × (k ≢ 0 → p.min_key_lease ≤ k)
          × (l ≢ 0 → k ≢ 0 → l ≤ k)
    decoded (err e) h = cc
    decoded (ok lo) h =
        let x = parse_lease_values-accepts p prefer_4byte lo.lease lo.key_lease l k h in
        (lo, refl, x.0, x.1, x.2, x.3, x.4)

    found :
        (o : Option Bytes)
        → on_option p prefer_4byte o ≡ ok (l, k)
        → (lo : LeaseOption) × (decode_found o ≡ ok lo)
          × (l ≡ lo.lease)
          × (k ≡ key_lease_or_zero lo.key_lease)
          × (l ≢ 0 → p.min_rr_lease ≤ l)
          × (k ≢ 0 → p.min_key_lease ≤ k)
          × (l ≢ 0 → k ≢ 0 → l ≤ k)
    found none h = cc
    found (some code) h = decoded (decode_erfc code) h
