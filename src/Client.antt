-- ===== src/Client.antt =====
-- client/lease_response.go and pkg/srp/response.go: what a client reads from a response.
mod Granted
mod Tests
use sig0lease.Base.{
  ℕ, zero, suc, ◌+◌, ◌-◌, ◌*◌, ◌/◌, ◌%◌, ◌^◌, ◌≤◌, ◌<◌, min, max, ◌≡◌, refl, sym, ap, ◌∙◌, subst,
  ◌≢◌, ◌↔◌, ◌⊎◌, inl, inr, Bool, true, false, not, ◌&&◌, ◌||◌, Option, none, some, List, [], ◌∷◌,
  ◌++◌, map, append-nil, append_assoc, arith, ltb, leb, ◌==◌, if◌then◌else◌, leb→le, ltb→lt, ==_iff,
  ==_refl, Bool-cases, Option-cases, and_left, and_right, Bool-ext, length, get_elem?, take, drop,
  All, In, length-append, take-append-drop, length-drop, drop-append, All-append, Bytes, bytes,
  same, same_refl, same_iff, same_ne, empty, has_suffix, contains_byte, has_suffix_iff,
  contains_byte-append, Assoc, get, put, del, get-put, get-del, member, add, remove, member-add,
  member-remove, member-append, Result, ok, err, ok-injective, bind_ok, ◌>>=◌, ◌>>◌, refuse_if,
  is_some,
}
use sig0lease.LeaseOption.{LeaseOption, OptionError, SectionRr, find_and_decode}

-- In the 4-byte variant the one value is used for both.
unfoldable pub both_leases : LeaseOption → ℕ × ℕ
both_leases lo = (lo.lease, elim lo.key_lease [ none ↦ lo.lease | some k ↦ k ])

decoded_or : Result OptionError LeaseOption → ℕ → ℕ → ℕ × ℕ
decoded_or (err e) requested_lease requested_key_lease = (requested_lease, requested_key_lease)
decoded_or (ok lo) requested_lease requested_key_lease = both_leases lo

unfoldable pub effective_lease_duration : List SectionRr → List SectionRr → ℕ → ℕ → ℕ × ℕ
unfolding decoded_or
effective_lease_duration pseudo extra requested_lease requested_key_lease =
    decoded_or (find_and_decode pseudo extra) requested_lease requested_key_lease

abbrev pub second : ℕ
second = 1000000000

unfoldable pub expiry_from_response : ℕ → ℕ → ℕ → List SectionRr → List SectionRr → ℕ × ℕ
expiry_from_response now requested_lease requested_key_lease pseudo extra =
    let leases = effective_lease_duration pseudo extra requested_lease requested_key_lease in
    (now + leases.0 * second, now + leases.1 * second)

decoded_leases : Result OptionError LeaseOption → Option (ℕ × ℕ)
decoded_leases (err e) = none
decoded_leases (ok lo) = some (both_leases lo)

unfoldable pub granted_lease : List SectionRr → List SectionRr → Option (ℕ × ℕ)
unfolding decoded_leases
granted_lease pseudo extra = decoded_leases (find_and_decode pseudo extra)

pub data Outcome : Type 0 where
  success conflict refused server_failure other_outcome : Outcome

-- `InterpretResponse` of a response's RCODE, or of no response.
unfoldable pub interpret_response : Option ℕ → Outcome
interpret_response none = server_failure
interpret_response (some rcode) =
    if rcode == 0
    then success
    else if rcode == 6
    then conflict
    else if rcode == 5
    then refused
    else if rcode == 2
    then server_failure
    else other_outcome
