-- ===== src/UpdateHandler/Flow.antt =====
-- handlers/opcode5_handle.go: `Handle`, from the message to the answer. The library's parse of the
-- message is the record UpdateMessage, and the clock is read when the signature is checked, when the
-- case is decided, and when the store is changed.
use sig0lease.Base.{
  ℕ, min, Bool, false, not, ◌&&◌, Option, none, some, List, [], ◌∷◌, ◌++◌, map, ◌==◌, if◌then◌else◌,
  Bytes, Result, ok, err, ◌>>=◌, ◌>>◌, is_some,
}
use sig0lease.Name.Wire.{WireError}
use sig0lease.Name.Wire.Label.{dotted_wire_label}
use sig0lease.Dns.{Key, Rr, DnsLibrary}
use sig0lease.LeaseOption.{SectionRr, find_option}
use sig0lease.LeasePolicy.{clamp, parse_lease}
use sig0lease.NodeKey.{node_key, record_key}
use sig0lease.NodeLocks.{NodeLocks, NodeLockSet, acquire}
use sig0lease.Store.{LeaseStore}
use sig0lease.Store.Subtree.{list_subtree_keys}
use sig0lease.Expiry.{ExpiryTimers}
use sig0lease.Expiry.Events.{key_as_rr, as_deletes}
use sig0lease.UpdateHandler.{
  Sig, key_id_from_sig, node_of_id, UpdateHandler, format_error, server_failure, refused, bad_vers,
  with_rcode, Query, Plan, Verified, SignerKeySource,
}
use sig0lease.UpdateHandler.Records.{
  extract_update_records, extract_additional_signing_keys, validate_signer_hierarchy,
  group_other_records_by_target_key,
}
use sig0lease.UpdateHandler.Signer.{extract_and_validate_sig0}
use sig0lease.UpdateHandler.Cases.{is_nil, case_a, case_b, case_d}
use sig0lease.UpdateHandler.Deletion.{
  Answer, Handled, nil_message, not_relevant, error, processed, case_c,
}
use sig0lease.UpdateHandler.Deletion
use sig0lease.UpdateHandler.Changes.{Applied, fails, applies, apply_each}
use sig0lease.UpdateHandler.Changes

-- What `Handle` reads of a message. `pseudo` and `extra` are the sections as the Update Lease
-- option is looked for in them; the KEYs of the Additional section and the SIGs of both stand
-- apart.
pub record UpdateMessage : Type 0 where
  pub wire : Bytes
  pub questions : List Bytes
  pub pseudo : List SectionRr
  pub extra : List SectionRr
  pub updates : List (Option Rr)
  pub additional_keys : List Key
  pub pseudo_sigs : List Sig
  pub extra_sigs : List Sig

-- `requireUpstream` passes: otherwise it panics.
unfoldable pub has_upstream : UpdateHandler → Bool
has_upstream h = h.has_upstream_coordinator && h.has_upstream_key_record

-- `refuseDottedLabels`: the response code of the refusal, if any.
unfoldable pub refuse_found : Result WireError (Option Bytes) → Result ℕ (Unit {0})
refuse_found (err e) = err format_error
refuse_found (ok none) = ok tt
refuse_found (ok (some label)) = err refused

unfoldable pub refuse_dotted_labels : Bytes → Result ℕ (Unit {0})
refuse_dotted_labels [] = ok tt
refuse_dotted_labels (c ∷ wire) = refuse_found (dotted_wire_label (c ∷ wire))

-- `len(r.Question) != 1`, and the zone.
unfoldable pub one_question : List Bytes → Result ℕ Bytes
one_question [] = err format_error
one_question (zone ∷ []) = ok zone
one_question (zone ∷ q ∷ qs) = err format_error

unfoldable pub key_with_ttl : ℕ → Key → Key
key_with_ttl ttl k = record k { hdr = record (k.hdr) { ttl = ttl } }

unfoldable pub rr_with_ttl : ℕ → Rr → Rr
rr_with_ttl ttl rr = record rr { hdr = record (rr.hdr) { ttl = ttl } }

-- `upstreamUpdateRecords`.
unfoldable pub upstream_update_records : List Key → List Rr → List Rr → List Rr
upstream_update_records keys others deletes = map key_as_rr keys ++ (others ++ as_deletes deletes)

unfoldable pub has_nothing_to_send : Plan → Bool
has_nothing_to_send p = is_nil p.upstream_keys && is_nil p.accepted && is_nil p.deletes

module _ (lib : DnsLibrary) (h : UpdateHandler) where
  -- The nodes that a request locks.
  unfoldable pub keys_lock_set : Bool → List Key → LeaseStore → List Bytes
  keys_lock_set deleting [] st = []
  keys_lock_set deleting (k ∷ ks) st =
      (node_key lib k ∷ (if deleting then list_subtree_keys (node_key lib k) st else []))
      ++ keys_lock_set deleting ks st

  unfoldable pub is_deleting : Verified → Bool
  is_deleting v = v.lease == 0 && v.key_lease == 0

  unfoldable pub request_lock_set : Verified → LeaseStore → List Bytes
  request_lock_set v st =
      (if is_deleting v then [] else node_of_id (key_id_from_sig v.sig) ∷ [])
      ++ (keys_lock_set (is_deleting v) v.keys st ++ map (record_key lib) v.others)

  -- The new TTLs, and the checks after the signature's.
  unfoldable pub place_request :
      Bytes → ℕ × ℕ → List Key → List Rr → Sig × Key × SignerKeySource → Result ℕ Verified
  place_request zone granted keys others signer = do
    with_rcode refused (validate_signer_hierarchy (signer.0).signer_name keys others)
    by_owner ←
        with_rcode refused
          (group_other_records_by_target_key lib (key_id_from_sig (signer.0)) keys others false)
    ok (record {
      zone = zone;
      lease = granted.0;
      key_lease = granted.1;
      sig = signer.0;
      signer_key = signer.1;
      source = signer.2;
      keys = keys;
      others = others;
      by_owner = by_owner;
    })

  unfoldable pub with_new_ttls :
      Bytes → ℕ × ℕ → List Key → List Rr → Sig × Key × SignerKeySource → Result ℕ Verified
  with_new_ttls zone granted keys others =
      place_request zone granted (map (key_with_ttl (min h.record_ttl (granted.1))) keys)
        (map (rr_with_ttl (min h.record_ttl (granted.0))) others)

  module _ (query : Query) where
    -- The checks up to the node locks: they read the store and change nothing.
    unfoldable pub verify_request :
        (Key → Bool) → ℕ → UpdateMessage → LeaseStore → Result ℕ Verified
    verify_request verify now m st = do
      refuse_dotted_labels m.wire
      zone ← one_question m.questions
      requested ←
          with_rcode bad_vers (parse_lease h.lease_policy h.prefer_4byte_variant m.pseudo m.extra)
      let granted = clamp h.lease_policy (requested.0) (requested.1)
      both ← with_rcode format_error (extract_update_records lib h.blacklisted_types m.updates)
      additional ← with_rcode format_error (extract_additional_signing_keys m.additional_keys)
      signer ← with_rcode refused (
          extract_and_validate_sig0 lib verify query now zone m.pseudo_sigs m.extra_sigs additional
            (both.0) st)
      with_new_ttls zone granted (both.0) (both.1) signer

    module _ (send : List Rr → Bool) (now later : ℕ) where
      -- The answer after the changes.
      unfoldable pub answered : Answer → Applied → Handled
      answered answer Changes.panics = Deletion.panics
      answered answer (fails st t) = Deletion.answers (error server_failure) st t
      answered answer (applies st t) = Deletion.answers answer st t

      unfoldable pub carry_out : Verified → Result ℕ Plan → LeaseStore → ExpiryTimers → Handled
      carry_out v (err rcode) st t = Deletion.answers (error rcode) st t
      carry_out v (ok p) st t =
          if not (has_nothing_to_send p)
            && not (send (upstream_update_records p.upstream_keys p.accepted p.deletes))
          then Deletion.answers (error server_failure) st t
          else answered (processed v.lease v.key_lease p.notes)
              (apply_each lib h later v.sig v.lease p.mutations st t)

      -- The case that the two leases give.
      unfoldable pub dispatch : Verified → LeaseStore → ExpiryTimers → Handled
      dispatch v st t =
          if not (v.key_lease == 0) && not (v.lease == 0)
          then carry_out v (case_a lib query h now v st) st t
          else if v.key_lease == 0 && not (v.lease == 0)
          then carry_out v (case_b lib query h now v st) st t
          else if v.key_lease == 0
          then case_c lib send now v st t
          else carry_out v (case_d lib query h now v st) st t

      -- Under the locks, which the request waits for: `wakes` are the tries after the first.
      unfoldable pub locked :
          Verified
          → Result (List Bytes) (NodeLocks × NodeLockSet)
          → LeaseStore
          → ExpiryTimers
          → Handled
      locked v (err busy) st t = Deletion.answers (error server_failure) st t
      locked v (ok taken) st t = dispatch v st t

      unfoldable pub handle_verified :
          Result ℕ Verified
          → NodeLocks
          → List (NodeLocks × List Bytes)
          → LeaseStore
          → ExpiryTimers
          → Handled
      handle_verified (err rcode) n wakes st t = Deletion.answers (error rcode) st t
      handle_verified (ok v) n wakes st t = locked v (acquire n (request_lock_set v st) wakes) st t

      -- `Handle` of a message, or of nil. `before` is the store when the signature is checked, `st`
      -- the store under the locks.
      unfoldable pub handle :
          (Key → Bool)
          → ℕ
          → Option UpdateMessage
          → NodeLocks
          → List (NodeLocks × List Bytes)
          → LeaseStore
          → LeaseStore
          → ExpiryTimers
          → Handled
      handle verify checked none n wakes before st t = Deletion.answers nil_message st t
      handle verify checked (some m) n wakes before st t =
          if not (is_some (find_option m.pseudo m.extra))
          then Deletion.answers not_relevant st t
          else if not (has_upstream h)
          then Deletion.panics
          else handle_verified (verify_request verify checked m before) n wakes st t
