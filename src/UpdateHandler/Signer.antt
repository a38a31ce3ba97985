-- ===== src/UpdateHandler/Signer.antt =====
-- handlers/opcode5_update_helpers.go: the SIG(0) of a request and the KEY that verifies it. The
-- cryptographic check is the parameter `verify`.
use sig0lease.Base.{
  ℕ, Bool, true, false, not, ◌&&◌, Option, none, some, List, [], ◌∷◌, ◌++◌, ◌==◌, if◌then◌else◌,
  Bytes, same, empty, Result, ok, err, ◌>>=◌, ◌>>◌, refuse_if,
}
use sig0lease.Name.{normalize, is_at_or_below}
use sig0lease.Dns.{Key, Rr, DnsLibrary}
use sig0lease.Store.{Record, LeaseStore, lookup_by_sig}
use sig0lease.UpdateHandler.{
  Sig, SignerKeySource, request, lease_store, authoritative, HandlerError, no_sig0, empty_zone,
  empty_name, outside_hierarchy, not_verified, query_failed, no_candidate, Query,
}
use sig0lease.UpdateHandler.Records.{as_key}

-- `extractSig0`, at the SIGs of the Pseudo section and those of the Extra section.
unfoldable pub extract_sig0 : List Sig → List Sig → Result HandlerError Sig
extract_sig0 (sig ∷ sigs) extra = ok sig
extract_sig0 [] (sig ∷ sigs) = ok sig
extract_sig0 [] [] = err no_sig0

module _ (lib : DnsLibrary) (verify : Key → Bool) where
  -- `verifyFromCandidates`: the first KEY that verifies; an error if some were tried in vain.
  unfoldable pub verify_from_candidates : List Key → Bool → Result HandlerError (Option Key)
  verify_from_candidates [] tried = if tried then err not_verified else ok none
  verify_from_candidates (k ∷ ks) tried =
      let rest = verify_from_candidates ks true in if verify k then ok (some k) else rest

  unfoldable pub is_signer : Sig → Key → Bool
  is_signer sig k =
      same (normalize k.hdr.name) (normalize sig.signer_name)
      && lib.key_tag k == sig.key_tag
      && k.algorithm == sig.algorithm

  unfoldable pub signer_candidates : Sig → List Key → List Key
  signer_candidates sig [] = []
  signer_candidates sig (k ∷ ks) =
      let rest = signer_candidates sig ks in if is_signer sig k then k ∷ rest else rest

  unfoldable pub candidate_or : Sig → Option Key → List Key → List Key
  candidate_or sig none rest = rest
  candidate_or sig (some k) rest =
      if lib.key_tag k == sig.key_tag && k.algorithm == sig.algorithm then k ∷ rest else rest

  unfoldable pub authoritative_candidates : Sig → List Rr → List Key
  unfolding candidate_or
  authoritative_candidates sig [] = []
  authoritative_candidates sig (rr ∷ rrs) =
      candidate_or sig (as_key rr) (authoritative_candidates sig rrs)

  -- A stage that found no candidate goes on to the next.
  unfoldable pub or_next :
      SignerKeySource
      → Option Key
      → Result HandlerError (Key × SignerKeySource)
      → Result HandlerError (Key × SignerKeySource)
  or_next source none next = next
  or_next source (some k) next = ok (k, source)

  -- The authoritative server's KEYs at the signer's name.
  unfoldable pub from_authoritative :
      Sig → Option (List Rr) → Result HandlerError (Key × SignerKeySource)
  from_authoritative sig none = err query_failed
  from_authoritative sig (some rrs) = do
    found ← verify_from_candidates (authoritative_candidates sig rrs) false
    or_next authoritative found (err no_candidate)

  -- The KEY of the store's record.
  unfoldable pub from_store :
      Sig
      → Option Record
      → Result HandlerError (Key × SignerKeySource)
      → Result HandlerError (Key × SignerKeySource)
  from_store sig none next = next
  from_store sig (some r) next = do
    found ← verify_from_candidates (signer_candidates sig (r.key_rr ∷ [])) false
    or_next lease_store found next

  unfoldable pub resolve_signer :
      Query
      → ℕ
      → Bytes
      → Sig
      → List Key
      → List Key
      → LeaseStore
      → Result HandlerError (Key × SignerKeySource)
  unfolding from_authoritative from_store
  resolve_signer query now zone sig additional keys st = do
    found ←
        verify_from_candidates (signer_candidates sig additional ++ signer_candidates sig keys)
          false
    or_next request found (
        from_store sig (lookup_by_sig lib now sig.signer_name sig.algorithm sig.key_tag st)
          (from_authoritative sig (query zone sig.signer_name 25)))

  unfoldable pub extract_and_validate_sig0 :
      Query
      → ℕ
      → Bytes
      → List Sig
      → List Sig
      → List Key
      → List Key
      → LeaseStore
      → Result HandlerError (Sig × Key × SignerKeySource)
  extract_and_validate_sig0 query now zone pseudo extra additional keys st = do
    sig ← extract_sig0 pseudo extra
    refuse_if (empty (normalize zone)) empty_zone
    refuse_if (empty (normalize sig.signer_name)) empty_name
    refuse_if (not (is_at_or_below (normalize zone) (normalize sig.signer_name))) outside_hierarchy
    found ← resolve_signer query now zone sig additional keys st
    ok (sig, found.0, found.1)
