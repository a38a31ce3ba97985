-- ===== src/UpdateHandler/Records.antt =====
-- handlers/opcode5_update_helpers.go: the records of a request, sorted and checked.
use sig0lease.Base.{
  ℕ, Bool, true, false, not, ◌&&◌, ◌||◌, Option, none, some, List, [], ◌∷◌, ◌++◌, map, ltb, leb,
  ◌==◌, if◌then◌else◌, length, Bytes, same, empty, Result, ok, err, ◌>>=◌, ◌>>◌, refuse_if,
}
use sig0lease.Name.{normalize, is_at_or_below}
use sig0lease.Dns.{Header, Key, Rr, Rdata, DnsLibrary, key_data}
use sig0lease.UpdateHandler.{
  KeyId, key_id_from_key, same_id, HandlerError, nil_rr, incomplete_key, blacklisted_type,
  empty_name, outside_subtree, mixed_owners, no_owner, ambiguous_owner,
}

-- The type switch's case `*dns.KEY`.
key_of_rdata : Header → Rdata → Option Key
key_of_rdata h (key_data flags protocol algorithm public_key) = some (record {
  hdr = h;
  flags = flags;
  protocol = protocol;
  algorithm = algorithm;
  public_key = public_key;
})
key_of_rdata h d = none

unfoldable pub as_key : Rr → Option Key
unfolding key_of_rdata
as_key rr = key_of_rdata rr.hdr rr.rdata

is_space : ℕ → Bool
is_space c = c == 32 || (leb 9 c && leb c 13)

-- `strings.TrimSpace(s) == ""`, of the ASCII text that a public key is.
unfoldable pub is_blank : Bytes → Bool
unfolding is_space
is_blank [] = true
is_blank (c ∷ s) = is_space c && is_blank s

unfoldable pub is_incomplete : Key → Bool
is_incomplete k = k.algorithm == 0 || k.protocol == 0 || is_blank k.public_key

unfoldable pub has_type : ℕ → List ℕ → Bool
has_type t [] = false
has_type t (x ∷ xs) = t == x || has_type t xs

-- One turn of the loop of `extractUpdateRecords`, after the rest of the section.
record_by_type :
    DnsLibrary
    → List ℕ
    → Rr
    → Option Key
    → Result HandlerError (List Key × List Rr)
    → Result HandlerError (List Key × List Rr)
record_by_type lib blacklist rr (some k) rest = do
  refuse_if (is_incomplete k) incomplete_key
  both ← rest
  ok (k ∷ both.0, both.1)
record_by_type lib blacklist rr none rest = do
  refuse_if (has_type (lib.rr_type rr.rdata) blacklist) blacklisted_type
  both ← rest
  ok (both.0, rr ∷ both.1)

unfoldable pub extract_update_records :
    DnsLibrary → List ℕ → List (Option Rr) → Result HandlerError (List Key × List Rr)
unfolding record_by_type
extract_update_records lib blacklist [] = ok ([], [])
extract_update_records lib blacklist (none ∷ rrs) = err nil_rr
extract_update_records lib blacklist (some rr ∷ rrs) =
    record_by_type lib blacklist rr (as_key rr) (extract_update_records lib blacklist rrs)

-- `extractAdditionalSigningKeys`, at the KEYs of the Additional section.
unfoldable pub extract_additional_signing_keys : List Key → Result HandlerError (List Key)
extract_additional_signing_keys [] = ok []
extract_additional_signing_keys (k ∷ ks) = do
  refuse_if (is_incomplete k) incomplete_key
  rest ← extract_additional_signing_keys ks
  ok (k ∷ rest)

unfoldable pub keys_below : Bytes → List Key → Result HandlerError (Unit {0})
keys_below signer [] = ok tt
keys_below signer (k ∷ ks) = do
  refuse_if (empty k.hdr.name) empty_name
  refuse_if
      (not (same (normalize k.hdr.name) signer)
        && not (is_at_or_below (normalize k.hdr.name) signer))
      outside_subtree
  keys_below signer ks

unfoldable pub records_below : Bytes → List Rr → Result HandlerError (Unit {0})
records_below signer [] = ok tt
records_below signer (rr ∷ rrs) = do
  refuse_if (not (is_at_or_below (normalize rr.hdr.name) signer)) outside_subtree
  records_below signer rrs

unfoldable pub validate_signer_hierarchy :
    Bytes → List Key → List Rr → Result HandlerError (Unit {0})
validate_signer_hierarchy signer_name keys others = do
  refuse_if (empty (normalize signer_name)) empty_name
  keys_below (normalize signer_name) keys
  records_below (normalize signer_name) others

abbrev pub ByOwner : Type 0
ByOwner = List (KeyId × List Rr)

-- `grouped[id]`.
unfoldable pub records_of : KeyId → ByOwner → List Rr
records_of id [] = []
records_of id ((j, rrs) ∷ m) = if same_id j id then rrs else records_of id m

-- `grouped[id] = append(grouped[id], rrs...)`.
unfoldable pub append_records : KeyId → List Rr → ByOwner → ByOwner
append_records id rrs [] = (id, rrs) ∷ []
append_records id rrs ((j, old) ∷ m) =
    let rest = append_records id rrs m in
    if same_id j id then (j, old ++ rrs) ∷ m else (j, old) ∷ rest

-- The loop over the KEYs for one record: the closest ancestor so far, and its length, if any.
pub record Closest : Type 0 where
  pub best : KeyId
  pub best_len : Option ℕ
  pub ambiguous : Bool

unfoldable pub is_longer : ℕ → Option ℕ → Bool
is_longer n none = true
is_longer n (some m) = ltb m n

unfoldable pub is_as_long : ℕ → Option ℕ → Bool
is_as_long n none = false
is_as_long n (some m) = n == m

unfoldable pub closer : KeyId → Bytes → KeyId → Closest → Closest
closer signer owner id c =
    if not (is_at_or_below owner id.name)
    then c
    else if is_longer (length id.name) c.best_len
    then (record { best = id; best_len = some (length id.name); ambiguous = false })
    else if not (is_as_long (length id.name) c.best_len)
    then c
    else if same_id id signer
    then (record c { best = id; ambiguous = false })
    else (record c { ambiguous = c.ambiguous || not (same_id c.best signer) })

unfoldable pub closest_of : KeyId → Bytes → List KeyId → Closest → Closest
closest_of signer owner [] c = c
closest_of signer owner (id ∷ ids) c = closest_of signer owner ids (closer signer owner id c)

closest_owner : Closest → Option ℕ → Result HandlerError KeyId
closest_owner c none = err no_owner
closest_owner c (some n) = if c.ambiguous then err ambiguous_owner else ok c.best

group_closest : KeyId → List KeyId → List Rr → ByOwner → Result HandlerError ByOwner
unfolding closest_owner
group_closest signer ids [] grouped = ok grouped
group_closest signer ids (rr ∷ rrs) grouped =
    let c = closest_of signer (normalize rr.hdr.name) ids (record {
      best = record { name = []; algorithm = 0; key_tag = 0 };
      best_len = none;
      ambiguous = false;
    }) in
    do
      owner ← closest_owner c c.best_len
      group_closest signer ids rrs (append_records owner (rr ∷ []) grouped)

-- Without KEYs, all records must have one owner name.
group_one_name : KeyId → Bytes → List Rr → ByOwner → Result HandlerError ByOwner
group_one_name signer owner [] grouped = ok grouped
group_one_name signer owner (rr ∷ rrs) grouped = do
  refuse_if (not (same (normalize rr.hdr.name) owner)) mixed_owners
  group_one_name signer owner rrs (append_records signer (rr ∷ []) grouped)

has_unnamed : List Key → Bool
has_unnamed [] = false
has_unnamed (k ∷ ks) = empty k.hdr.name || has_unnamed ks

group_by_hierarchy : DnsLibrary → KeyId → List Key → Rr → List Rr → Result HandlerError ByOwner
unfolding group_closest group_one_name has_unnamed
group_by_hierarchy lib signer [] rr rrs =
    group_one_name signer (normalize rr.hdr.name) (rr ∷ rrs) []
group_by_hierarchy lib signer (k ∷ []) rr rrs = ok ((key_id_from_key lib k, rr ∷ rrs) ∷ [])
group_by_hierarchy lib signer (k ∷ j ∷ ks) rr rrs = do
  refuse_if (has_unnamed (k ∷ j ∷ ks)) empty_name
  group_closest signer (map (key_id_from_key lib) (k ∷ j ∷ ks)) (rr ∷ rrs) []

-- The last argument is `useHierarchy`.
unfoldable pub group_other_records_by_target_key :
    DnsLibrary → KeyId → List Key → List Rr → Bool → Result HandlerError ByOwner
unfolding group_by_hierarchy
group_other_records_by_target_key lib signer keys [] use_hierarchy = ok []
group_other_records_by_target_key lib signer keys (rr ∷ rrs) false = ok ((signer, rr ∷ rrs) ∷ [])
group_other_records_by_target_key lib signer keys (rr ∷ rrs) true =
    group_by_hierarchy lib signer keys rr rrs
