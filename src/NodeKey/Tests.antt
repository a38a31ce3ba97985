-- ===== src/NodeKey/Tests.antt =====
-- Identities at work: tests of NodeKey and RecordKey, and the theorems at concrete inputs.
use sig0lease.Base.{◌≡◌, refl, inl, inr, ◌≢◌, [], arith, Bytes, bytes}
use sig0lease.Name.{fold, trim_dot, normalize}
use sig0lease.Dns.{Rr, DnsLibrary, ptr}
use sig0lease.NodeKey.{node_key_from_sig, node_key_name, padded, key_suffix, record_key}
use sig0lease.NodeKey.Parse.{node_key_name-from_sig}
use sig0lease.NodeKey.Identity.{SameRecord, same_ptr, record_key_same}

abbrev signer : Bytes
signer = bytes "Host.Example."

abbrev host_key : Bytes
host_key = bytes "host.example.+015+00042"

formats : node_key_from_sig signer 15 42 ≡ host_key
unfolding node_key_from_sig key_suffix padded normalize fold trim_dot
formats = refl

signer_ne : normalize signer ≢ []
unfolding normalize fold trim_dot
signer_ne h = cc

node_key_name-from_sig_example : node_key_name (node_key_from_sig signer 15 42) ≡ normalize signer
node_key_name-from_sig_example = node_key_name-from_sig signer 15 42 signer_ne

-- A library with fixed answers for a PTR.
abbrev fixed : DnsLibrary
fixed = record {
  key_tag = λ k. 42;
  rr_type = λ d. 12;
  data_len = λ d. 14;
  data_text = λ d. bytes "x";
}

abbrev pointing : Bytes → Bytes → Rr
pointing owner target = record {
  hdr = record { name = owner; class = 1; ttl = 300 };
  rdata = ptr target;
}

abbrev loud : Rr
loud = pointing (bytes "P.") (bytes "a.")

abbrev quiet : Rr
quiet = pointing (bytes "p.") (bytes "A.")

same_pointers : SameRecord fixed loud quiet
same_pointers = record {
  name = (inr (inl (omega arith, omega arith, refl)), (inl refl, tt));
  class = refl;
  typ = refl;
  rdata = same_ptr (inr (inr (omega arith, omega arith, refl)), (inl refl, tt));
  not_wks = λ h. omega arith;
}

record_key_same_example : record_key fixed loud ≡ record_key fixed quiet
record_key_same_example = record_key_same fixed loud quiet same_pointers
