-- ===== src/Store/Samples.antt =====
-- A store with one KEY node, for the tests.
use sig0lease.Base.{
  ℕ, ◌≡◌, refl, subst, sym, ap, ◌∙◌, Bool, true, false, none, some, [], ◌∷◌, ◌++◌, arith, Bytes,
  bytes, same, empty, get, put, member, add, Result, ok, err,
}
use sig0lease.NodeKey.{decimal}
use sig0lease.Name.{dot}
use sig0lease.Store.Steps.{new-IsWellFormed}
use sig0lease.Store.Identities.{
  IsApart, IsIdentified, register_with_parent-IsIdentified, upsert_non_key_records-IsIdentified,
}
use sig0lease.Name.{fold, trim_dot, normalize}
use sig0lease.Dns.{Key, Rr, DnsLibrary, txt}
use sig0lease.NodeKey.{
  record_key, fold_rdata_names, node_key, node_key_from_sig, key_suffix, padded,
}
use sig0lease.Store.{
  Record, NonKeyRecord, LeaseStore, new_in_memory_manager, StoreError, stored_parent,
  register_with_parent,
}
use sig0lease.Store.{key, non_key, put_record, call_hook, index_node, new_record, attach_node}
use sig0lease.Store.Invariant.Records.{NoKeyAmong}
use sig0lease.Store.NonKey.{
  write_candidates, candidates, owned_elsewhere, apply_all, apply_found, refreshed, new_entry,
  upsert_non_key_records,
}
use sig0lease.Store.Invariant.{IsWellFormed}
use sig0lease.Store.Steps.{Reach, at_start, after, registers, upserts, reachable-IsWellFormed}

-- A library with fixed answers.
abbrev pub fixed : DnsLibrary
fixed = record {
  key_tag = λ k. 42;
  rr_type = λ d. 16;
  data_len = λ d. 2;
  data_text = λ d. bytes "t";
}

abbrev pub host : Key
host = record {
  hdr = record { name = bytes "Host."; class = 1; ttl = 300 };
  flags = 256;
  protocol = 3;
  algorithm = 15;
  public_key = 1 ∷ [];
}

abbrev pub note : Rr
note = record { hdr = record { name = bytes "n."; class = 1; ttl = 300 }; rdata = txt [] }

abbrev pub host_node : Bytes
host_node = bytes "host.+015+00042"

abbrev pub value : Result StoreError LeaseStore → LeaseStore
value (ok st) = st
value (err e) = new_in_memory_manager

abbrev pub is_ok : Result StoreError LeaseStore → Bool
is_ok (ok st) = true
is_ok (err e) = false

abbrev pub with_host : LeaseStore
with_host =
    value (register_with_parent fixed 5000 [] (some host) 3600 7200 [] new_in_memory_manager)

pub registers_host :
    register_with_parent fixed 5000 [] (some host) 3600 7200 [] new_in_memory_manager ≡ ok with_host
unfolding register_with_parent stored_parent node_key node_key_from_sig key_suffix padded normalize
    fold trim_dot empty same get
registers_host = refl

pub no_records : get (node_key fixed host) new_in_memory_manager.non_key_records ≡ none
unfolding get
no_records = refl

pub Reach-host : Reach fixed with_host
Reach-host = after at_start (registers 5000 [] host 3600 7200 [] no_records registers_host)

pub well_formed : IsWellFormed fixed with_host
well_formed = reachable-IsWellFormed fixed with_host Reach-host

abbrev pub host_record : Record
host_record = record {
  base = record {
    node_kind = key;
    rr_type = 25;
    expires_at = 3600000005000;
    lease_duration = 3600;
    registered_at = 5000;
    parent_key_name = [];
  };
  key_name = bytes "host";
  key_rr = host;
  key_lease_duration = 7200;
  upstream_zone = [];
}

abbrev pub note_id : Bytes
note_id = bytes "n. 1 16 2 t"

abbrev pub note_entry : NonKeyRecord
note_entry = record {
  base = record {
    node_kind = non_key;
    rr_type = 16;
    expires_at = 60000006000;
    lease_duration = 60;
    registered_at = 6000;
    parent_key_name = host_node;
  };
  rr_key = note_id;
  rr = note;
  upstream_zone = [];
}

-- The host with a record of its own.
abbrev pub with_note : LeaseStore
with_note = record {
  leases = (host_node, host_record) ∷ [];
  non_key_records = (note_id, note_entry) ∷ [];
  name_idx = (bytes "host", host_node ∷ []) ∷ [];
  children = (host_node, note_id ∷ []) ∷ [];
  has_hook = false;
  hook_calls = [];
}

adds_note :
    upsert_non_key_records fixed 6000 host_node (some note ∷ []) 60 [] with_host
    ≡ (ok tt, with_note)
unfolding upsert_non_key_records write_candidates candidates owned_elsewhere register_with_parent
    stored_parent node_key node_key_from_sig key_suffix record_key fold_rdata_names normalize fold
    trim_dot empty same get padded put_record call_hook index_node put apply_all apply_found
    new_record refreshed attach_node new_entry add member
adds_note = refl

note_apart : NoKeyAmong fixed with_host (some note ∷ [])
unfolding get same record_key normalize fold trim_dot padded register_with_parent stored_parent
    node_key node_key_from_sig key_suffix empty fold_rdata_names put_record call_hook put index_node
note_apart = (refl, tt)

pub Reach-note : Reach fixed with_note
Reach-note = after Reach-host (upserts 6000 host_node (some note ∷ []) 60 [] note_apart adds_note)

last_byte : Bytes → ℕ
last_byte [] = 0
last_byte (c ∷ []) = c
last_byte (c ∷ d ∷ s) = last_byte (d ∷ s)

last_byte-append : (s : Bytes) (c : ℕ) (t : Bytes) → last_byte (s ++ (c ∷ t)) ≡ last_byte (c ∷ t)
unfolding last_byte
last_byte-append [] c t = refl
last_byte-append (d ∷ []) c t = refl
last_byte-append (d ∷ e ∷ s) c t = last_byte-append (e ∷ s) c t

-- A node key ends with a digit of the tag 42, the identity of a record with the text.
node_key-last : (k : Key) → last_byte (node_key fixed k) ≡ b'2'
unfolding last_byte node_key node_key_from_sig key_suffix padded
node_key-last k =
    last_byte-append (normalize k.hdr.name) _ _
    ∙ last_byte-append (dot ∷ b'+' ∷ padded 3 k.algorithm) b'+' (padded 5 42)

record_key-last : (rr : Rr) → last_byte (record_key fixed rr) ≡ b't'
unfolding last_byte record_key
record_key-last rr =
    last_byte-append (fold rr.hdr.name ++ (32 ∷ decimal rr.hdr.class ++ (32 ∷ decimal 16))) 32
      (decimal 2 ++ (32 ∷ 116 ∷ []))
    ∙ last_byte-append (32 ∷ decimal 2) 32 (116 ∷ [])

pub fixed-IsApart : IsApart fixed
fixed-IsApart k rr q =
    let bad : Path ℕ b'2' b't' = sym (node_key-last k) ∙ ap last_byte q ∙ record_key-last rr in
    ground arith

pub with_note-IsIdentified : IsIdentified fixed with_note
unfolding get
with_note-IsIdentified =
    subst (λ out. IsIdentified fixed out.1) adds_note
      (upsert_non_key_records-IsIdentified fixed fixed-IsApart with_host
        (register_with_parent-IsIdentified fixed fixed-IsApart new_in_memory_manager
          (record { well_formed = new-IsWellFormed fixed; of_record = λ id e h. cc }) 5000 with_host
          [] host 3600 7200 [] registers_host).0
        6000 host_node (some note ∷ []) 60 [])
