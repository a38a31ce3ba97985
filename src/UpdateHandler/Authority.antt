-- ===== src/UpdateHandler/Authority.antt =====
-- handlers/opcode5_update_helpers.go and opcode5_lease.go: what the handler asks the
-- authoritative server, and who may refresh a KEY.
use sig0lease.Base.{
  ℕ, ◌/◌, ◌%◌, ◌^◌, Bool, true, false, not, ◌&&◌, ◌||◌, Option, none, some, List, [], ◌∷◌, ◌==◌,
  if◌then◌else◌, Bytes, same, Result, ok, err, ◌>>=◌, ◌>>◌, refuse_if,
}
use mathlib.Core.Option
use sig0lease.Name.{equal_fold}
use sig0lease.Dns.{Key, Rr, Rdata, DnsLibrary}
use sig0lease.Store.{Record, NonKeyRecord, LeaseStore, second, lookup_by_key}
use sig0lease.Store.NonKey.{lookup_non_key_record}
use sig0lease.Store.Reading.{time_remaining}
use sig0lease.UpdateHandler.{
  KeyId, key_id_from_key, same_id, node_of_id, key_rr_equal, HandlerError, no_lease, key_mismatch,
  not_the_owner, different_key, already_exists, query_failed, Query,
}

module _ (lib : DnsLibrary) where
  -- The types that RFC 2136 compares specially: SOA, CNAME and WKS.
  rdata_equal : ℕ → Rdata → Rdata → Bool
  rdata_equal t x y =
      if t == 6 || t == 5
      then true
      else if t == 4
      then same (lib.data_text x) (lib.data_text y)
      else lib.data_len x == lib.data_len y && same (lib.data_text x) (lib.data_text y)

  -- `rrEqual`, of records that are there.
  unfoldable pub rr_equal : Rr → Rr → Bool
  unfolding rdata_equal
  rr_equal a b =
      equal_fold a.hdr.name b.hdr.name
      && a.hdr.class == b.hdr.class
      && lib.rr_type a.rdata == lib.rr_type b.rdata
      && rdata_equal (lib.rr_type a.rdata) a.rdata b.rdata

  unfoldable pub any_equal : Rr → List Rr → Bool
  any_equal rr [] = false
  any_equal rr (x ∷ xs) = rr_equal x rr || any_equal rr xs

  module _ (query : Query) where
    -- `none` is an error of the query.
    unfoldable pub authoritative_has_rr : Bytes → Rr → Option Bool
    authoritative_has_rr zone rr =
        Option.map (any_equal rr) (query zone rr.hdr.name (lib.rr_type rr.rdata))

    unfoldable pub is_found : List Rr → Bool
    is_found [] = false
    is_found (rr ∷ rrs) = true

    unfoldable pub authoritative_has_key_at_name : Bytes → Bytes → Option Bool
    authoritative_has_key_at_name zone name = Option.map is_found (query zone name 25)

    -- A record that the store does not have, by the authoritative server's answer.
    unfoldable pub unless_exists :
        Option Bool → Rr → Result HandlerError (List Rr) → Result HandlerError (List Rr)
    unless_exists none rr rest = err query_failed
    unless_exists (some true) rr rest = err already_exists
    unless_exists (some false) rr rest = do rrs ← rest; ok (rr ∷ rrs)

    -- One turn of the loop, at the store's record.
    unfoldable pub accept_record :
        Bytes
        → Bytes
        → Rr
        → Option NonKeyRecord
        → Result HandlerError (List Rr)
        → Result HandlerError (List Rr)
    accept_record key_name zone rr (some existing) rest =
        if not (same existing.parent_key_name key_name)
        then err different_key
        else (do rrs ← rest; ok (rr ∷ rrs))
    accept_record key_name zone rr none rest = unless_exists (authoritative_has_rr zone rr) rr rest

    unfoldable pub filter_duplicate_registrations :
        Bytes → Bytes → List Rr → LeaseStore → Result HandlerError (List Rr)
    filter_duplicate_registrations key_name zone [] st = ok []
    filter_duplicate_registrations key_name zone (rr ∷ rrs) st =
        accept_record key_name zone rr (lookup_non_key_record lib rr st)
          (filter_duplicate_registrations key_name zone rrs st)

    unfoldable pub granted_or_remaining :
        ℕ → Record → ℕ → Option Bool → Result HandlerError (ℕ × Bool)
    granted_or_remaining now r requested none = err query_failed
    granted_or_remaining now r requested (some true) = ok (requested, true)
    granted_or_remaining now r requested (some false) =
        let remaining = (time_remaining now r / second) % 2 ^ 32 in
        ok (if remaining == 0 then 1 else remaining, false)

    -- The KEY's lease, and whether the KEY is at its name.
    unfoldable pub effective_refresh_key_lease :
        ℕ → Bytes → Key → Record → ℕ → Result HandlerError (ℕ × Bool)
    unfolding granted_or_remaining
    effective_refresh_key_lease now zone k r requested =
        granted_or_remaining now r requested (authoritative_has_key_at_name zone k.hdr.name)

  unfoldable pub authorize_at : Option Record → Key → KeyId → Result HandlerError (Unit {0})
  authorize_at none k signer = err no_lease
  authorize_at (some r) k signer = do
    refuse_if (not (key_rr_equal r.key_rr k)) key_mismatch
    refuse_if
        (not (same_id (key_id_from_key lib k) signer)
          && not (same r.parent_key_name (node_of_id signer)))
        not_the_owner

  unfoldable pub authorize_key_refresh :
      ℕ → Key → KeyId → LeaseStore → Result HandlerError (Unit {0})
  unfolding authorize_at
  authorize_key_refresh now k signer st = authorize_at (lookup_by_key lib now k st) k signer
