-- ===== src/UpdateHandler/Tests.antt =====
-- The handler of RFC 9664 updates at work: the theorems at concrete inputs.
use sig0lease.UpdateHandler.Flow.{
  refuse_dotted_labels, one_question, key_with_ttl, place_request, rr_with_ttl, with_new_ttls,
}
use sig0lease.LeasePolicy.{parse_lease, parse_lease_values, clamp, clamp_lease, clamp_nonzero}
use sig0lease.LeaseOption.{find_option, decode_erfc, hex_decode, scan, scan_opt, uint32, validate}
use sig0lease.UpdateHandler.Records.{
  extract_update_records, as_key, is_incomplete, is_blank, has_type,
  extract_additional_signing_keys, group_other_records_by_target_key, keys_below, records_below,
  validate_signer_hierarchy,
}
use sig0lease.UpdateHandler.Signer.{
  extract_and_validate_sig0, extract_sig0, is_signer, or_next, resolve_signer, signer_candidates,
  verify_from_candidates,
}
use sig0lease.Base.{
  ◌≡◌, refl, true, false, some, [], ◌∷◌, All, bytes, same, empty, has_suffix, get, ok,
}
use sig0lease.Name.{fold, trim_dot, normalize, is_at_or_below, is_upper}
use sig0lease.Dns.{Rr, txt}
use sig0lease.LeaseOption.{option_rr}
use sig0lease.NodeLocks.{new_node_locks}
use sig0lease.UpdateHandler.Keeping.{Keeps, handle-Keeps}
use sig0lease.Store.Samples.{fixed, fixed-IsApart, with_note-IsIdentified, host, with_note}
use sig0lease.Expiry.{new_expiry_timers}
use sig0lease.Expiry.Events.{key_as_rr}
use sig0lease.UpdateHandler.{
  Sig, key_id_from_key, key_id_from_sig, same_id, UpdateHandler, request, Query, Plan, Verified,
}
use sig0lease.UpdateHandler.Cases.{case_a, case_b, case_d}
use sig0lease.UpdateHandler.Flow.{UpdateMessage, has_upstream, verify_request, handle}
use sig0lease.UpdateHandler.Unconfirmed.{Unchanged}
use sig0lease.UpdateHandler.Intake.{IsSound, verify_request-IsSound, handle-Unchanged}
use sig0lease.UpdateHandler.Entitled.{IsAuthorized}
use sig0lease.UpdateHandler.Authorized.{plan-IsAuthorized}

abbrev config : UpdateHandler
config = record {
  upstream_zone = bytes "zone";
  has_upstream_key_record = true;
  has_upstream_coordinator = true;
  lease_policy = record {
    min_rr_lease = 0;
    max_rr_lease = 0;
    min_key_lease = 0;
    max_key_lease = 0;
  };
  record_ttl = 300;
  prefer_4byte_variant = false;
  allow_online_key_registration = false;
  blacklisted_types = [];
}

configured : has_upstream config ≡ true
unfolding has_upstream
configured = refl

abbrev host_sig : Sig
host_sig = record { signer_name = bytes "Host."; algorithm = 15; key_tag = 42 }

abbrev below : Rr
below = record { hdr = record { name = bytes "a.host."; class = 1; ttl = 9 }; rdata = txt [] }

-- The server has the host's KEY and the record.
abbrev has_both : Query
has_both = λ zone name t. some (below ∷ [])

abbrev update : UpdateMessage
update = record {
  wire = [];
  questions = bytes "host." ∷ [];
  pseudo = option_rr 2 (bytes "0000003c00000e10") ∷ [];
  extra = [];
  updates = some (key_as_rr host) ∷ some below ∷ [];
  additional_keys = [];
  pseudo_sigs = host_sig ∷ [];
  extra_sigs = [];
}

handle-Unchanged_example : Unchanged with_note new_expiry_timers (
    handle fixed config has_both
      (λ rrs. false)
      7000
      7001
      (λ k. true)
      6900
      (some update)
      new_node_locks
      []
      with_note
      with_note
      new_expiry_timers)
handle-Unchanged_example =
    handle-Unchanged fixed config has_both (λ k. true) (λ rrs. false) 7000 7001 6900 (some update)
      new_node_locks [] with_note with_note new_expiry_timers configured (λ rrs. refl)

abbrev placed : Rr
placed = record { hdr = record { name = bytes "a.host."; class = 1; ttl = 60 }; rdata = txt [] }

abbrev verified : Verified
verified = record {
  zone = bytes "host.";
  lease = 60;
  key_lease = 3600;
  sig = host_sig;
  signer_key = host;
  source = request;
  keys = host ∷ [];
  others = placed ∷ [];
  by_owner = (record { name = bytes "host"; algorithm = 15; key_tag = 42 }, placed ∷ []) ∷ [];
}

passes : verify_request fixed config has_both (λ k. true) 6900 update with_note ≡ ok verified
unfolding verify_request refuse_dotted_labels one_question parse_lease find_option decode_erfc
    hex_decode parse_lease_values extract_update_records as_key key_as_rr is_incomplete is_blank
    has_type extract_additional_signing_keys extract_and_validate_sig0 extract_sig0 empty get
    has_suffix same scan scan_opt uint32 validate clamp clamp_lease clamp_nonzero fold
    is_at_or_below is_upper normalize trim_dot key_with_ttl place_request rr_with_ttl with_new_ttls
    group_other_records_by_target_key keys_below records_below validate_signer_hierarchy is_signer
    or_next resolve_signer signer_candidates verify_from_candidates key_id_from_key key_id_from_sig
    same_id
passes = refl

verify_request-IsSound_example :
    IsSound fixed config has_both (λ k. true) 6900 update with_note verified
verify_request-IsSound_example =
    verify_request-IsSound fixed config has_both (λ k. true) 6900 update with_note verified passes

abbrev CasesAuthorized : Type 0
CasesAuthorized =
    ((p : Plan)
      → case_a fixed has_both config 7000 verified with_note ≡ ok p
      → All (IsAuthorized fixed has_both config 7000 verified with_note) p.mutations)
    × ((p : Plan)
        → case_b fixed has_both config 7000 verified with_note ≡ ok p
        → All (IsAuthorized fixed has_both config 7000 verified with_note) p.mutations)
    × ((p : Plan)
        → case_d fixed has_both config 7000 verified with_note ≡ ok p
        → All (IsAuthorized fixed has_both config 7000 verified with_note) p.mutations)

plan-IsAuthorized_example : CasesAuthorized
plan-IsAuthorized_example = plan-IsAuthorized fixed has_both config 7000 verified with_note

handle-Keeps_example : Keeps fixed (
    handle fixed config has_both
      (λ rrs. true)
      7000
      7001
      (λ k. true)
      6900
      (some update)
      new_node_locks
      []
      with_note
      with_note
      new_expiry_timers)
handle-Keeps_example =
    handle-Keeps fixed fixed-IsApart config has_both (λ rrs. true) 7000 7001 (λ k. true) 6900
      (some update) new_node_locks [] with_note with_note new_expiry_timers configured
      with_note-IsIdentified
