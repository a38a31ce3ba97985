-- ===== src/UpdateHandler.antt =====
-- handlers/opcode5.go, opcode5_handle.go, opcode5_update_helpers.go and opcode5_lease.go: the
-- handler of RFC 9664 updates. Its identities, its configuration, and the changes of the lease
-- store that a request leads to.
pub mod Records
pub mod Signer
pub mod Authority
pub mod Cases
pub mod Deletion
pub mod Changes
pub mod Flow
pub mod Branches
pub mod Removing
pub mod Applying
pub mod Inversion
pub mod Signed
pub mod Intake
pub mod Sending
pub mod Unconfirmed
pub mod Keeping
pub mod Entitled
pub mod Authorized
pub mod Response
mod Tests
use sig0lease.Base.{
  ℕ, zero, suc, ◌+◌, ◌-◌, ◌*◌, ◌/◌, ◌%◌, ◌^◌, ◌≤◌, ◌<◌, min, max, ◌≡◌, refl, sym, ap, ◌∙◌, subst,
  ◌≢◌, ◌↔◌, ◌⊎◌, inl, inr, Bool, true, false, not, ◌&&◌, ◌||◌, Option, none, some, List, [], ◌∷◌,
  ◌++◌, map, append-nil, append_assoc, arith, ltb, leb, ◌==◌, if◌then◌else◌, leb→le, ltb→lt, ==_iff,
  ==_refl, Bool-cases, Option-cases, and_left, and_right, Bool-ext, length, get_elem?, take, drop,
  All, In, length-append, take-append-drop, length-drop, drop-append, All-append, Bytes, bytes,
  same, same_refl, same_iff, same_ne, empty, has_suffix, contains_byte, has_suffix_iff,
  contains_byte-append, Assoc, get, put, del, get-put, get-del, member, add, remove, member-add,
  member-remove, member-append, Result, ok, err, ok-injective, bind_ok, ◌>>=◌, ◌>>◌, refuse_if,
  is_some, get-all,
}
use sig0lease.Name.{normalize, equal_fold}
use sig0lease.Dns.{Header, Key, Rr, Rdata, DnsLibrary, key_data}
use sig0lease.LeasePolicy.{LeasePolicy}
use sig0lease.NodeKey.{node_key, node_key_from_sig}

-- What the handler reads of a SIG(0).
pub record Sig : Type 0 where
  pub signer_name : Bytes
  pub algorithm : ℕ  -- uint8
  pub key_tag : ℕ  -- uint16

-- `keyID`.
pub record KeyId : Type 0 where
  pub name : Bytes
  pub algorithm : ℕ
  pub key_tag : ℕ

unfoldable pub key_id_from_key : DnsLibrary → Key → KeyId
key_id_from_key lib k = record {
  name = normalize k.hdr.name;
  algorithm = k.algorithm;
  key_tag = lib.key_tag k;
}

unfoldable pub key_id_from_sig : Sig → KeyId
key_id_from_sig sig = record {
  name = normalize sig.signer_name;
  algorithm = sig.algorithm;
  key_tag = sig.key_tag;
}

-- `==` on identities.
unfoldable pub same_id : KeyId → KeyId → Bool
same_id a b = same a.name b.name && a.algorithm == b.algorithm && a.key_tag == b.key_tag

unfoldable pub node_of_id : KeyId → Bytes
node_of_id id = node_key_from_sig id.name id.algorithm id.key_tag

-- `keyRREqual`, of KEYs that are there.
unfoldable pub key_rr_equal : Key → Key → Bool
key_rr_equal a b =
    if not (equal_fold a.hdr.name b.hdr.name)
    then false
    else (a.flags == b.flags
        && a.protocol == b.protocol
        && a.algorithm == b.algorithm
        && same a.public_key b.public_key)

-- What `UpdateHandler` is set up with: of the coordinator and the loaded key, whether they are there.
pub record UpdateHandler : Type 0 where
  pub upstream_zone : Bytes
  pub has_upstream_key_record : Bool
  pub has_upstream_coordinator : Bool
  pub lease_policy : LeasePolicy
  pub record_ttl : ℕ  -- uint32
  pub prefer_4byte_variant : Bool
  pub allow_online_key_registration : Bool
  pub blacklisted_types : List ℕ

-- How the signer's KEY was found.
pub data SignerKeySource : Type 0 where
  unknown request lease_store authoritative : SignerKeySource

unfoldable pub is_authoritative : SignerKeySource → Bool
is_authoritative authoritative = true
is_authoritative unknown = false
is_authoritative request = false
is_authoritative lease_store = false

unfoldable pub signer_authorized_for_new_registration :
    UpdateHandler → Bool → Bool → SignerKeySource → Bool
signer_authorized_for_new_registration h signer_managed signer_in_update source =
    if signer_managed || signer_in_update
    then true
    else is_authoritative source && h.allow_online_key_registration

-- The response codes that the handler's errors carry.
abbrev pub format_error : ℕ
format_error = 1

abbrev pub server_failure : ℕ
server_failure = 2

abbrev pub refused : ℕ
refused = 5

abbrev pub bad_vers : ℕ
bad_vers = 16

-- `makeErrorResponse` and `NewErrorResult` at an error of a step.
abbrev pub with_rcode {ℓ κ} : {E : Type κ} {A : Type ℓ} → ℕ → Result E A → Result ℕ A
with_rcode rcode (ok a) = ok a
with_rcode rcode (err e) = err rcode

-- A check that failed, by what it is about.
pub data HandlerError : Type 0 where
  nil_rr incomplete_key blacklisted_type empty_name outside_subtree mixed_owners no_owner
        ambiguous_owner no_sig0 empty_zone outside_hierarchy not_verified query_failed no_candidate
        no_lease key_mismatch not_the_owner different_key already_exists :
      HandlerError

-- An answer of the authoritative server to a query for a zone, a name and a type; `none` is an
-- error.
abbrev pub Query : Type 0
Query = Bytes → Bytes → ℕ → Option (List Rr)

-- A change of the lease store that waits for the confirmation of the upstream server: the
-- closures that `Handle` collects, by where it makes them.
pub data Mutation : Type 0 where
  -- A KEY is registered with its records.
  registers : Key → ℕ → List Rr → Mutation
  -- A KEY is refreshed; its records are written, also if there is none where the flag is set.
  refreshes : Bool → Key → ℕ → List Rr → Mutation
  -- Records are written under a node.
  adds : Bytes → List Rr → Mutation
  -- A KEY that has gone from the zone gets the rest of its lease.
  restores : Key → ℕ → Mutation
  -- A KEY without records, refreshed or registered, some of whose records go.
  key_only : Bool → Key → ℕ → List Rr → Mutation

-- The status notes of a response.
pub data Note : Type 0 where
  key_not_found : Key → Note
  record_not_found : Rr → Note
  key_restored : Key → Note

-- What a request sends upstream, and what it changes once that is confirmed.
pub record Plan : Type 0 where
  pub upstream_keys : List Key
  pub accepted : List Rr
  pub deletes : List Rr
  pub mutations : List Mutation
  pub notes : List Note

abbrev pub no_plan : Plan
no_plan = record { upstream_keys = []; accepted = []; deletes = []; mutations = []; notes = [] }

-- The loops append to each of these.
unfoldable pub joined : Plan → Plan → Plan
joined p q = record {
  upstream_keys = p.upstream_keys ++ q.upstream_keys;
  accepted = p.accepted ++ q.accepted;
  deletes = p.deletes ++ q.deletes;
  mutations = p.mutations ++ q.mutations;
  notes = p.notes ++ q.notes;
}

-- A request after its checks: its leases as granted, and its records with their new TTLs.
pub record Verified : Type 0 where
  pub zone : Bytes
  pub lease : ℕ
  pub key_lease : ℕ
  pub sig : Sig
  pub signer_key : Key
  pub source : SignerKeySource
  pub keys : List Key
  pub others : List Rr
  pub by_owner : List (KeyId × List Rr)
