-- ===== src/UpdateHandler/Intake.antt =====
-- What a request has passed before the node locks are taken.
use sig0lease.Base.{
  ℕ, min, ◌≡◌, refl, subst, ◌⊎◌, In, Bool, true, false, not, ◌&&◌, ◌||◌, Option, List, [], ◌∷◌, map,
  arith, All, Bytes, same, empty, ok, ok-injective, bind_ok,
}
use sig0lease.Name.{normalize, is_at_or_below}
use sig0lease.Dns.{Key, Rr, DnsLibrary}
use sig0lease.LeasePolicy.{clamp, parse_lease}
use sig0lease.NodeLocks.{NodeLocks}
use sig0lease.Store.{LeaseStore}
use sig0lease.Expiry.{ExpiryTimers}
use sig0lease.UpdateHandler.{
  Sig, KeyId, key_id_from_sig, same_id, UpdateHandler, SignerKeySource, format_error, refused,
  bad_vers, with_rcode, empty_name, outside_subtree, Query, Verified,
}
use sig0lease.UpdateHandler.Records.{
  ByOwner, records_of, keys_below, records_below, extract_update_records,
  extract_additional_signing_keys, validate_signer_hierarchy, group_other_records_by_target_key,
}
use sig0lease.UpdateHandler.Signer.{extract_and_validate_sig0}
use sig0lease.UpdateHandler.Cases.{is_nil}
use sig0lease.UpdateHandler.Branches.{handle-cases}
use sig0lease.UpdateHandler.Inversion.{with_rcode_ok, unless_refused}
use sig0lease.UpdateHandler.Sending.{IsGrouped, same_id_sym, same_id_refl}
use sig0lease.UpdateHandler.Unconfirmed.{Unchanged, dispatch-Unchanged}
use sig0lease.UpdateHandler.Flow.{
  UpdateMessage, refuse_dotted_labels, one_question, key_with_ttl, rr_with_ttl, verify_request,
  place_request, with_new_ttls, has_upstream, handle,
}
use sig0lease.UpdateHandler.Signed.{IsSignerKey, sig0-Sound}

-- The owner of a KEY is the signer or below it.
abbrev pub IsKeyBelow : Bytes → Key → Type 0
IsKeyBelow signer k =
    (same (normalize k.hdr.name) signer || is_at_or_below (normalize k.hdr.name) signer) ≡ true

abbrev pub IsRecordBelow : Bytes → Rr → Type 0
IsRecordBelow signer rr = is_at_or_below (normalize rr.hdr.name) signer ≡ true

keys_below-All :
    (signer : Bytes) (ks : List Key) → keys_below signer ks ≡ ok tt → All (IsKeyBelow signer) ks
unfolding keys_below
keys_below-All signer [] h = tt
keys_below-All signer (k ∷ ks) h =
    let (named, h1) = unless_refused (empty k.hdr.name) empty_name _ tt h in
    let (below, h2) =
      unless_refused
        (not (same (normalize k.hdr.name) signer)
          && not (is_at_or_below (normalize k.hdr.name) signer))
        outside_subtree _ tt h1 in
    (ground (arith, below), keys_below-All signer ks h2)

records_below-All :
    (signer : Bytes) (rrs : List Rr)
    → records_below signer rrs ≡ ok tt
    → All (IsRecordBelow signer) rrs
unfolding records_below
records_below-All signer [] h = tt
records_below-All signer (rr ∷ rrs) h =
    let (below, h1) =
      unless_refused (not (is_at_or_below (normalize rr.hdr.name) signer)) outside_subtree _ tt h in
    (ground (arith, below), records_below-All signer rrs h1)

hierarchy-All :
    (signer : Bytes) (keys : List Key) (others : List Rr)
    → validate_signer_hierarchy signer keys others ≡ ok tt
    → All (IsKeyBelow (normalize signer)) keys × All (IsRecordBelow (normalize signer)) others
unfolding validate_signer_hierarchy
hierarchy-All signer keys others h =
    let (named, h1) = unless_refused (empty (normalize signer)) empty_name _ tt h in
    let (u, q, h2) = bind_ok (keys_below (normalize signer) keys) _ tt h1 in
    (keys_below-All (normalize signer) keys q, records_below-All (normalize signer) others h2)

key_ttls : (ttl : ℕ) (ks : List Key) → All (λ k. k.hdr.ttl ≡ ttl) (map (key_with_ttl ttl) ks)
unfolding key_with_ttl
key_ttls ttl [] = tt
key_ttls ttl (k ∷ ks) = (refl, key_ttls ttl ks)

rr_ttls : (ttl : ℕ) (rrs : List Rr) → All (λ rr. rr.hdr.ttl ≡ ttl) (map (rr_with_ttl ttl) rrs)
unfolding rr_with_ttl
rr_ttls ttl [] = tt
rr_ttls ttl (rr ∷ rrs) = (refl, rr_ttls ttl rrs)

-- A request that has passed, with the message and the store that it was checked against: its SIG
-- is one of the message, the signer's KEY verifies the message, has the SIG's tag and algorithm and
-- comes from where it is said to; the zone and all records are below the signer, each record has
-- the configured TTL cut to its granted lease, and the non-KEY records are the signer's.
pub record IsSound (lib : DnsLibrary) (h : UpdateHandler) (query : Query) (verify : Key → Bool)
    (now : ℕ) (m : UpdateMessage) (st : LeaseStore) (v : Verified) : Type 0 where
  pub additional : List Key
  pub sent_keys : List Key
  pub sig_lem : In v.sig m.pseudo_sigs ⊎ In v.sig m.extra_sigs
  pub additional_lem : extract_additional_signing_keys m.additional_keys ≡ ok additional
  pub sent_lem : v.keys ≡ map (key_with_ttl (min h.record_ttl v.key_lease)) sent_keys
  pub signer_lem :
      IsSignerKey lib query now v.zone v.sig additional sent_keys st verify (v.signer_key, v.source)
  pub zone_below : is_at_or_below (normalize v.zone) (normalize v.sig.signer_name) ≡ true
  pub keys_lem : All (IsKeyBelow (normalize v.sig.signer_name)) v.keys
  pub others_lem : All (IsRecordBelow (normalize v.sig.signer_name)) v.others
  pub key_ttl_lem : All (λ k. k.hdr.ttl ≡ min h.record_ttl v.key_lease) v.keys
  pub ttl_lem : All (λ rr. rr.hdr.ttl ≡ min h.record_ttl v.lease) v.others
  pub grouped : IsGrouped v

grouped_at :
    (lib : DnsLibrary) (signer : KeyId) (keys : List Key) (others : List Rr) (by_owner : ByOwner)
    (id : KeyId)
    → group_other_records_by_target_key lib signer keys others false ≡ ok by_owner
    → is_nil others ≡ false
    → same_id id signer ≡ true
    → records_of id by_owner ≡ others
unfolding group_other_records_by_target_key records_of is_nil
grouped_at lib signer keys [] by_owner id h n e = cc
grouped_at lib signer keys (rr ∷ rrs) by_owner id h n e =
    subst (λ m. records_of id m ≡ rr ∷ rrs) (ok-injective h) (rw (same_id_sym id signer e) refl)

module _ (lib : DnsLibrary) (h : UpdateHandler) (query : Query) (verify : Key → Bool) where
  place_request-IsSound :
      (now : ℕ) (m : UpdateMessage) (st : LeaseStore) (additional : List Key) (zone : Bytes)
      (granted : ℕ × ℕ) (ks : List Key) (rrs : List Rr) (signer : Sig × Key × SignerKeySource)
      (v : Verified)
      → extract_additional_signing_keys m.additional_keys ≡ ok additional
      → In signer.0 m.pseudo_sigs ⊎ In signer.0 m.extra_sigs
      → IsSignerKey lib query now zone (signer.0) additional ks st verify (signer.1, signer.2)
      → is_at_or_below (normalize zone) (normalize signer.0.signer_name) ≡ true
      → with_new_ttls lib h zone granted ks rrs signer ≡ ok v
      → IsSound lib h query verify now m st v
  unfolding with_new_ttls place_request
  place_request-IsSound now m st additional zone granted ks rrs signer v q0 first good zoned e =
      let keys = map (key_with_ttl (min h.record_ttl (granted.1))) ks in
      let others = map (rr_with_ttl (min h.record_ttl (granted.0))) rrs in
      let (u, q1, e1) =
        bind_ok (with_rcode refused (validate_signer_hierarchy (signer.0).signer_name keys others))
          _ v e in
      let (by_owner, q2, e2) =
        bind_ok
          (with_rcode refused
            (group_other_records_by_target_key lib (key_id_from_sig (signer.0)) keys others false))
          _ v e1 in
      let (keys_ok, others_ok) =
        hierarchy-All (signer.0).signer_name keys others (with_rcode_ok refused _ _ q1) in
      let grouping = with_rcode_ok refused _ by_owner q2 in
      subst (IsSound lib h query verify now m st) (ok-injective e2) (record {
        additional = additional;
        sent_keys = ks;
        sig_lem = first;
        additional_lem = q0;
        sent_lem = refl;
        signer_lem = good;
        zone_below = zoned;
        keys_lem = keys_ok;
        others_lem = others_ok;
        key_ttl_lem = key_ttls (min h.record_ttl (granted.1)) ks;
        ttl_lem = rr_ttls (min h.record_ttl (granted.0)) rrs;
        grouped = record {
          owner_lem = λ n.
              grouped_at lib (key_id_from_sig (signer.0)) keys others by_owner
                (key_id_from_sig (signer.0)) grouping n (same_id_refl (key_id_from_sig (signer.0)));
          any_lem = λ id n i.
              grouped_at lib (key_id_from_sig (signer.0)) keys others by_owner id grouping n i;
        };
      })

  -- A request that comes through the checks is sound, whatever the store and the authoritative
  -- server hold: its SIG is one of the message; the signer's KEY verifies the message and has the
  -- SIG's tag and algorithm; it is a KEY that the message carries or the store's for that signer,
  -- under the signer's name, or one that the authoritative server answers with at that name; the
  -- zone and the owners of all records are the signer's name or below it, with the configured TTL
  -- cut to the granted lease; and the non-KEY records are grouped under the signer.
  pub verify_request-IsSound :
      (now : ℕ) (m : UpdateMessage) (st : LeaseStore) (v : Verified)
      → verify_request lib h query verify now m st ≡ ok v
      → IsSound lib h query verify now m st v
  unfolding verify_request
  verify_request-IsSound now m st v e =
      let (u1, q1, e1) = bind_ok (refuse_dotted_labels m.wire) _ v e in
      let (zone, q2, e2) = bind_ok (one_question m.questions) _ v e1 in
      let (requested, q3, e3) =
        bind_ok
          (with_rcode bad_vers (parse_lease h.lease_policy h.prefer_4byte_variant m.pseudo m.extra))
          _ v e2 in
      let (both, q4, e4) =
        bind_ok (with_rcode format_error (extract_update_records lib h.blacklisted_types m.updates))
          _ v e3 in
      let (additional, q5, e5) =
        bind_ok (with_rcode format_error (extract_additional_signing_keys m.additional_keys)) _ v
          e4 in
      let (signer, q6, e6) =
        bind_ok
          (with_rcode refused (
            extract_and_validate_sig0 lib verify query now zone m.pseudo_sigs m.extra_sigs
              additional (both.0) st))
          _ v e5 in
      let (first, good, zoned) =
        sig0-Sound lib verify query now zone m.pseudo_sigs m.extra_sigs additional (both.0) st
          signer (with_rcode_ok refused _ signer q6) in
      place_request-IsSound now m st additional zone
        (clamp h.lease_policy (requested.0) (requested.1)) (both.0) (both.1) signer v
        (with_rcode_ok format_error _ additional q5) first good zoned e6

  -- If the upstream server confirms nothing, a request to a handler that has its upstream and its
  -- signing key neither panics nor changes the store or the timers, whatever it asks for, and a nil
  -- message does not either.
  pub handle-Unchanged :
      (send : List Rr → Bool) (now later checked : ℕ) (received : Option UpdateMessage)
      (n : NodeLocks) (wakes : List (NodeLocks × List Bytes)) (before st : LeaseStore)
      (t : ExpiryTimers)
      → has_upstream h ≡ true
      → ((rrs : List Rr) → send rrs ≡ false)
      → Unchanged st t
          (handle lib h query send now later verify checked received n wakes before st t)
  handle-Unchanged send now later checked received n wakes before st t up refuses =
      handle-cases lib h query send now later (Unchanged st t) verify checked received n wakes
        before st t up (λ a. (refl, refl))
        (λ m v q.
          dispatch-Unchanged lib query h send now later refuses v st t
            ((verify_request-IsSound checked m before v q).grouped))
