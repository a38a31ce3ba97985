-- ===== src/LeasePolicy.antt =====
-- handlers/lease_policy.go, handlers/record_ttl.go, and what they use of opcode5.go (clampLease)
-- and opcode5_setup.go (toUint32); handlers/opcode5_lease_option.go (parseLease).
pub mod Clamp
pub mod Config
mod Tests
use sig0lease.Base.{
  ℕ, zero, suc, ◌+◌, ◌-◌, ◌*◌, ◌/◌, ◌%◌, ◌^◌, ◌≤◌, ◌<◌, min, max, ◌≡◌, refl, sym, ap, ◌∙◌, subst,
  ◌≢◌, ◌↔◌, ◌⊎◌, inl, inr, Bool, true, false, not, ◌&&◌, ◌||◌, Option, none, some, List, [], ◌∷◌,
  ◌++◌, map, append-nil, append_assoc, arith, ltb, leb, ◌==◌, if◌then◌else◌, leb→le, ltb→lt, ==_iff,
  ==_refl, Bool-cases, Option-cases, and_left, and_right, Bool-ext, length, get_elem?, take, drop,
  All, In, length-append, take-append-drop, length-drop, drop-append, All-append, Bytes, bytes,
  same, same_refl, same_iff, same_ne, empty, has_suffix, contains_byte, has_suffix_iff,
  contains_byte-append, Assoc, get, put, del, get-put, get-del, member, add, remove, member-add,
  member-remove, member-append, Result, ok, err, ok-injective, bind_ok, ◌>>=◌, ◌>>◌, refuse_if,
  is_some,
}
use Prim.Native.String.{String}
use sig0lease.LeaseOption.{LeaseOption, OptionError, SectionRr, decode_erfc, find_option}

pub record LeasePolicy : Type 0 where
  pub min_key_lease : ℕ  -- uint32
  pub max_key_lease : ℕ  -- uint32
  pub min_rr_lease : ℕ  -- uint32
  pub max_rr_lease : ℕ  -- uint32

pub data PolicyError : Type 0 where
  key_bounds rr_bounds min_rr_above_min_key max_rr_above_max_key not_a_map : PolicyError

unfoldable pub validate : LeasePolicy → Result PolicyError (Unit {0})
validate p = do
  refuse_if (ltb 0 p.max_key_lease && ltb p.max_key_lease p.min_key_lease) key_bounds
  refuse_if (ltb 0 p.max_rr_lease && ltb p.max_rr_lease p.min_rr_lease) rr_bounds
  refuse_if (ltb p.min_key_lease p.min_rr_lease) min_rr_above_min_key
  refuse_if (ltb 0 p.max_key_lease && (p.max_rr_lease == 0 || ltb p.max_key_lease p.max_rr_lease))
      max_rr_above_max_key
  ok tt

unfoldable pub clamp_lease : ℕ → ℕ → ℕ → ℕ
clamp_lease lease low high =
    let raised = if ltb 0 low && ltb lease low then low else lease in
    if ltb 0 high && ltb high raised then high else raised

-- 0 means "delete" and is left alone.
unfoldable pub clamp_nonzero : ℕ → ℕ → ℕ → ℕ
unfolding clamp_lease
clamp_nonzero lease low high = if lease == 0 then lease else clamp_lease lease low high

unfoldable pub clamp : LeasePolicy → ℕ → ℕ → ℕ × ℕ
clamp p lease key_lease =
    let l = clamp_nonzero lease p.min_rr_lease p.max_rr_lease in
    let k = clamp_nonzero key_lease p.min_key_lease p.max_key_lease in
    (if not (l == 0) && not (k == 0) && ltb k l then k else l, k)

-- A configuration value, `any`. Of a float the code reads whether it is negative, and its
-- conversion to `uint32`.
pub data ConfigValue : Type 0 where
  negative_int : ConfigValue  -- an int or int64 below 0
  int : ℕ → ConfigValue  -- any other int or int64
  float64 : Bool → ℕ → ConfigValue
  uint32_value : ℕ → ConfigValue
  uint64_value : ℕ → ConfigValue
  other_value : ConfigValue

-- `uint32(n)` keeps the low 32 bits.
unfoldable pub to_uint32 : ConfigValue → Option ℕ
to_uint32 negative_int = none
to_uint32 (int n) = some (n % 2 ^ 32)
to_uint32 (float64 negative n) = if negative then none else some n
to_uint32 (uint32_value n) = some n
to_uint32 (uint64_value n) = some (n % 2 ^ 32)
to_uint32 other_value = none

-- A configuration map; a missing key reads as nil.
abbrev pub config_value : Bytes → Assoc ConfigValue → ConfigValue
config_value key cfg = elim (get key cfg) [ none ↦ other_value | some v ↦ v ]

abbrev pub bound_or_zero : Option ℕ → ℕ
bound_or_zero none = 0
bound_or_zero (some n) = n

policy_bound : String → Assoc ConfigValue → ℕ
unfolding to_uint32
policy_bound key cfg = bound_or_zero (to_uint32 (config_value (bytes key) cfg))

policy_of : Assoc ConfigValue → LeasePolicy
unfolding policy_bound
policy_of cfg = record {
  min_key_lease = policy_bound "min_key_lease_sec" cfg;
  max_key_lease = policy_bound "max_key_lease_sec" cfg;
  min_rr_lease = policy_bound "min_rr_lease_sec" cfg;
  max_rr_lease = policy_bound "max_rr_lease_sec" cfg;
}

-- `none` is a value that is no map.
unfoldable pub parse_lease_policy : Option (Assoc ConfigValue) → Result PolicyError LeasePolicy
unfolding policy_of
parse_lease_policy none = err not_a_map
parse_lease_policy (some cfg) = do validate (policy_of cfg); ok (policy_of cfg)

abbrev pub default_record_ttl : ℕ
default_record_ttl = 300

abbrev pub max_int32 : ℕ
max_int32 = 2 ^ 31 - 1

pub data TtlError : Type 0 where
  ttl_out_of_range : TtlError

record_ttl : Option ℕ → Result TtlError ℕ
record_ttl none = err ttl_out_of_range
record_ttl (some ttl) = if ttl == 0 || ltb max_int32 ttl then err ttl_out_of_range else ok ttl

configured_ttl : Option ConfigValue → Result TtlError ℕ
unfolding record_ttl to_uint32
configured_ttl none = ok default_record_ttl
configured_ttl (some raw) = record_ttl (to_uint32 raw)

unfoldable pub parse_record_ttl : Assoc ConfigValue → Result TtlError ℕ
unfolding configured_ttl
parse_record_ttl cfg = configured_ttl (get (bytes "record_ttl_sec") cfg)

pub data RequestError : Type 0 where
  lease_below_minimum key_lease_below_minimum four_byte_not_permitted lease_above_key_lease
        no_lease_option invalid_lease_option :
      RequestError

-- The checks of `UpdateHandler.parseLease` on the values of a decoded option.
unfoldable pub parse_lease_values : LeasePolicy → Bool → ℕ → Option ℕ → Result RequestError (ℕ × ℕ)
parse_lease_values p prefer_4byte lease none = do
  refuse_if (ltb 0 p.min_rr_lease && ltb lease p.min_rr_lease) lease_below_minimum
  refuse_if (not prefer_4byte) four_byte_not_permitted
  ok (lease, 0)
parse_lease_values p prefer_4byte lease (some key_lease) =
    let low_key = not (key_lease == 0) && ltb 0 p.min_key_lease && ltb key_lease p.min_key_lease in
    if lease == 0
    then (do refuse_if low_key key_lease_below_minimum; ok (lease, key_lease))
    else (do
      refuse_if (ltb 0 p.min_rr_lease && ltb lease p.min_rr_lease) lease_below_minimum
      refuse_if low_key key_lease_below_minimum
      refuse_if (not (key_lease == 0) && ltb key_lease lease) lease_above_key_lease
      ok (lease, key_lease))

on_decoded : LeasePolicy → Bool → Result OptionError LeaseOption → Result RequestError (ℕ × ℕ)
on_decoded p prefer_4byte (err e) = err invalid_lease_option
on_decoded p prefer_4byte (ok lo) = parse_lease_values p prefer_4byte lo.lease lo.key_lease

on_option : LeasePolicy → Bool → Option Bytes → Result RequestError (ℕ × ℕ)
unfolding on_decoded
on_option p prefer_4byte none = err no_lease_option
on_option p prefer_4byte (some code) = on_decoded p prefer_4byte (decode_erfc code)

-- `UpdateHandler.parseLease`, on the Pseudo and Extra sections of the message.
unfoldable pub parse_lease :
    LeasePolicy → Bool → List SectionRr → List SectionRr → Result RequestError (ℕ × ℕ)
unfolding on_option
parse_lease p prefer_4byte pseudo extra = on_option p prefer_4byte (find_option pseudo extra)
