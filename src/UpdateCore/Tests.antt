-- ===== src/UpdateCore/Tests.antt =====
-- TTL consistency at work: tests, and the theorem at a concrete input.
use sig0lease.Base.{
  ℕ, ◌≡◌, refl, ◌↔◌, Option, none, some, List, [], ◌∷◌, Bytes, bytes, same, ok, err,
}
use sig0lease.Name.{fold, trim_dot, normalize}
use sig0lease.Dns.{Rr, DnsLibrary, a}
use sig0lease.UpdateCore.{
  inconsistent_ttls, check_consistent_ttls, consistent_groups, group_rrsets, append_group, same_key,
  rrset_key, consistent_group, all_ttl,
}
use sig0lease.UpdateCore.Agreement.{PairwiseAgree, check_consistent_ttls_iff}

abbrev fixed : DnsLibrary
fixed = record { key_tag = λ k. 42; rr_type = λ d. 1; data_len = λ d. 4; data_text = λ d. [] }

abbrev address : Bytes → ℕ → Option Rr
address owner ttl =
    some (record { hdr = record { name = owner; class = 1; ttl = ttl }; rdata = a [] })

abbrev mixed : List (Option Rr)
mixed =
    address (bytes "H.a.") 300 ∷ none ∷ address (bytes "g.a.") 60 ∷ address (bytes "h.a") 301 ∷ []

refuses_mixed : check_consistent_ttls fixed mixed ≡ err inconsistent_ttls
unfolding check_consistent_ttls consistent_groups group_rrsets append_group same_key rrset_key
    consistent_group all_ttl normalize fold trim_dot same
refuses_mixed = refl

check_consistent_ttls_iff_example :
    (check_consistent_ttls fixed mixed ≡ ok tt) ↔ PairwiseAgree fixed mixed
check_consistent_ttls_iff_example = check_consistent_ttls_iff fixed mixed
