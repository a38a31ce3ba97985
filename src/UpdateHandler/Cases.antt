-- ===== src/UpdateHandler/Cases.antt =====
-- handlers/opcode5_handle.go: what a request that registers or refreshes (Cases A, B and D) sends
-- upstream and changes, or the response code of the error that stops it. A KEY's loop turn is a
-- plan of its own.
use sig0lease.Base.{
  ℕ, ◌/◌, ◌%◌, ◌^◌, min, Bool, true, false, not, ◌||◌, Option, none, some, List, [], ◌∷◌, ◌==◌,
  if◌then◌else◌, Bytes, same, Result, ok, err, ◌>>=◌, ◌>>◌, refuse_if, is_some,
}
use sig0lease.Dns.{Key, Rr, DnsLibrary}
use sig0lease.NodeKey.{node_key, node_key_from_sig}
use sig0lease.Store.{Record, NonKeyRecord, LeaseStore, second, lookup_by_key, lookup_by_sig}
use sig0lease.Store.NonKey.{lookup_non_key_record}
use sig0lease.Store.Reading.{time_remaining}
use sig0lease.Expiry.Events.{key_as_rr}
use sig0lease.UpdateHandler.{
  Sig, KeyId, key_id_from_key, key_id_from_sig, same_id, UpdateHandler,
  signer_authorized_for_new_registration, format_error, server_failure, refused, with_rcode, Query,
  registers, refreshes, adds, restores, key_only, Note, key_restored, record_not_found, Plan,
  no_plan, joined, Verified,
}
use sig0lease.UpdateHandler.Records.{records_of}
use sig0lease.UpdateHandler.Authority.{
  authoritative_has_rr, authoritative_has_key_at_name, filter_duplicate_registrations,
  effective_refresh_key_lease, authorize_key_refresh,
}

unfoldable pub is_nil {ℓ} : {A : Type ℓ} → List A → Bool
is_nil [] = true
is_nil (x ∷ xs) = false

abbrev pub sig_node : Sig → Bytes
sig_node sig = node_key_from_sig sig.signer_name sig.algorithm sig.key_tag

module _ (lib : DnsLibrary) where
  unfoldable pub in_update : KeyId → List Key → Bool
  in_update signer [] = false
  in_update signer (k ∷ ks) = same_id (key_id_from_key lib k) signer || in_update signer ks

  -- A record that is there under this owner.
  unfoldable pub is_owned : Bytes → Option NonKeyRecord → Bool
  is_owned owner none = false
  is_owned owner (some e) = same e.parent_key_name owner

  -- The records to delete, and the notes on the others.
  unfoldable pub to_delete : LeaseStore → Bytes → List Rr → List Rr × List Note
  to_delete st owner [] = ([], [])
  to_delete st owner (rr ∷ rrs) =
      let rest = to_delete st owner rrs in
      if is_owned owner (lookup_non_key_record lib rr st)
      then (rr ∷ rest.0, rest.1)
      else (rest.0, record_not_found rr ∷ rest.1)

  module _ (query : Query) (h : UpdateHandler) (now : ℕ) (v : Verified) (st : LeaseStore) where
    abbrev pub signer_id : KeyId
    signer_id = key_id_from_sig v.sig

    unfoldable pub signer_managed : Bool
    signer_managed =
        is_some (lookup_by_sig lib now v.sig.signer_name v.sig.algorithm v.sig.key_tag st)

    unfoldable pub may_register : Bool
    may_register =
        signer_authorized_for_new_registration h signer_managed (in_update signer_id v.keys)
          v.source

    -- A KEY that is new must not be at the authoritative server.
    unfoldable pub check_new : Option Bool → Result ℕ (Unit {0})
    check_new none = err server_failure
    check_new (some true) = err refused
    check_new (some false) = ok tt

    -- A KEY that is at its name, or not, in Case A.
    unfoldable pub refreshed_key : Key → List Rr → ℕ × Bool → Plan
    refreshed_key k rrs (lease, true) = record no_plan {
      accepted = rrs;
      mutations = refreshes false k v.key_lease rrs ∷ [];
    }
    refreshed_key k rrs (lease, false) = record no_plan {
      upstream_keys = k ∷ [];
      accepted = rrs;
      mutations = refreshes true k lease rrs ∷ [];
    }

    unfoldable pub case_a_key : Option Record → Key → Result ℕ Plan
    case_a_key (some r) k =
        let rrs = records_of (key_id_from_key lib k) v.by_owner in
        do
          with_rcode refused (authorize_key_refresh lib now k signer_id st)
          lease ←
              with_rcode server_failure
                (effective_refresh_key_lease lib query now v.zone k r v.key_lease)
          ok (refreshed_key k rrs lease)
    case_a_key none k =
        let rrs = records_of (key_id_from_key lib k) v.by_owner in
        do
          check_new (authoritative_has_rr lib query v.zone (key_as_rr k))
          accepted ←
              with_rcode refused
                (filter_duplicate_registrations lib query (node_key lib k) v.zone rrs st)
          ok (record no_plan {
            upstream_keys = k ∷ [];
            accepted = accepted;
            mutations = registers k v.key_lease accepted ∷ [];
          })

    unfoldable pub case_a_keys : List Key → Result ℕ Plan
    case_a_keys [] = ok no_plan
    case_a_keys (k ∷ ks) = do
      first ← case_a_key (lookup_by_key lib now k st) k
      rest ← case_a_keys ks
      ok (joined first rest)

    -- The records of a signer whose KEY is not in the update.
    unfoldable pub case_a_signer : List Rr → Result ℕ Plan
    case_a_signer [] = ok no_plan
    case_a_signer (rr ∷ rrs) = do
      accepted ←
          with_rcode refused
            (filter_duplicate_registrations lib query (sig_node v.sig) v.zone (rr ∷ rrs) st)
      ok (record no_plan { accepted = accepted; mutations = adds (sig_node v.sig) accepted ∷ [] })

    unfoldable pub case_a : Result ℕ Plan
    case_a = do
      refuse_if (is_nil v.keys || is_nil v.others) format_error
      refuse_if (not may_register) refused
      of_keys ← case_a_keys v.keys
      of_signer ←
          (if in_update signer_id v.keys
            then ok no_plan
            else case_a_signer (records_of signer_id v.by_owner))
      ok (joined of_keys of_signer)

    -- The signer's KEY, put back with the rest of its lease where it has gone.
    unfoldable pub restored_key : Record → Option Bool → Result ℕ Plan
    restored_key r none = err server_failure
    restored_key r (some true) = ok no_plan
    restored_key r (some false) =
        let remaining = (time_remaining now r / second) % 2 ^ 32 in
        let lease = if remaining == 0 then 1 else remaining in
        let k = r.key_rr in
        ok (record no_plan {
          upstream_keys = (record k { hdr = record (k.hdr) { ttl = min h.record_ttl lease } }) ∷ [];
          mutations = restores k lease ∷ [];
          notes = key_restored k ∷ [];
        })

    unfoldable pub added_under : Bytes → List Rr → Plan
    added_under node [] = no_plan
    added_under node (rr ∷ rrs) = record no_plan {
      accepted = rr ∷ rrs;
      mutations = adds node (rr ∷ rrs) ∷ [];
    }

    unfoldable pub case_b_signer : Option Record → Result ℕ Plan
    case_b_signer none = err refused
    case_b_signer (some r) =
        let node = node_key lib v.signer_key in
        do
          key ←
              restored_key r (authoritative_has_key_at_name lib query v.zone v.signer_key.hdr.name)
          accepted ←
              with_rcode refused (filter_duplicate_registrations lib query node v.zone v.others st)
          ok (joined key (added_under node accepted))

    unfoldable pub case_b : Result ℕ Plan
    case_b = do
      refuse_if (is_nil v.others) refused
      refuse_if (not (is_nil v.keys)) refused
      case_b_signer (lookup_by_sig lib now v.sig.signer_name v.sig.algorithm v.sig.key_tag st)

    unfoldable pub case_d_lease : Option Record → Key → Result ℕ ℕ
    case_d_lease none k = do
      check_new (authoritative_has_rr lib query v.zone (key_as_rr k))
      refuse_if (not may_register) refused
      ok v.key_lease
    case_d_lease (some r) k = do
      with_rcode refused (authorize_key_refresh lib now k signer_id st)
      lease ←
          with_rcode server_failure
            (effective_refresh_key_lease lib query now v.zone k r v.key_lease)
      ok (lease.0)

    unfoldable pub case_d_keys : List Key → Result ℕ Plan
    case_d_keys [] = ok no_plan
    case_d_keys (k ∷ ks) =
        let going = to_delete st (node_key lib k) (records_of (key_id_from_key lib k) v.by_owner) in
        let existing = lookup_by_key lib now k st in
        do
          lease ← case_d_lease existing k
          rest ← case_d_keys ks
          ok (
              joined
                (record {
                  upstream_keys = k ∷ [];
                  accepted = [];
                  deletes = going.0;
                  mutations = key_only (is_some existing) k lease (going.0) ∷ [];
                  notes = going.1;
                })
                rest)

    unfoldable pub case_d : Result ℕ Plan
    case_d = do refuse_if (is_nil v.keys) format_error; case_d_keys v.keys
