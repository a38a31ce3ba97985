-- ===== src/Store/Ownership.antt =====
-- Attaching non-KEY records: all of a batch or none, and never over another owner.
pub mod Batches
use sig0lease.Base.{
  ℕ, zero, suc, ◌+◌, ◌-◌, ◌*◌, ◌/◌, ◌%◌, ◌^◌, ◌≤◌, ◌<◌, min, max, ◌≡◌, refl, sym, ap, ◌∙◌, subst,
  ◌≢◌, ◌↔◌, ◌⊎◌, inl, inr, Bool, true, false, not, ◌&&◌, ◌||◌, Option, none, some, List, [], ◌∷◌,
  ◌++◌, map, append-nil, append_assoc, arith, ltb, leb, ◌==◌, if◌then◌else◌, leb→le, ltb→lt, ==_iff,
  ==_refl, Bool-cases, Option-cases, and_left, and_right, Bool-ext, length, get_elem?, take, drop,
  All, length-append, take-append-drop, length-drop, drop-append, All-append, Bytes, bytes, same,
  same_refl, same_iff, same_ne, empty, has_suffix, contains_byte, has_suffix_iff,
  contains_byte-append, Assoc, get, put, del, get-put, get-del, member, add, remove, member-add,
  member-remove, member-append, Result, ok, err, ok-injective, ◌>>=◌, ◌>>◌, refuse_if,
}
use sig0lease.Name.{normalize}
use sig0lease.Dns.{Rr, DnsLibrary}
use sig0lease.NodeKey.{record_key}
use sig0lease.Store.{
  NonKeyRecord, LeaseStore, StoreError, owner_empty, different_owner, after_seconds,
}
use sig0lease.Store.NonKey.{
  refreshed, new_entry, owned_elsewhere, candidates, apply_found, apply_all, upsert_non_key_records,
}

-- The identities in a batch.
abbrev pub ids_of : DnsLibrary → List (Option Rr) → List Bytes
ids_of lib [] = []
ids_of lib (none ∷ rrs) = ids_of lib rrs
ids_of lib (some rr ∷ rrs) =
    if empty (record_key lib rr) then ids_of lib rrs else record_key lib rr ∷ ids_of lib rrs

abbrev pub first_ids : List (Bytes × Rr) → List Bytes
first_ids [] = []
first_ids ((id, rr) ∷ cs) = id ∷ first_ids cs

-- A record with the owner and the lease of a batch.
pub record Fresh (now : ℕ) (owner : Bytes) (lease : ℕ) (zone : Bytes) (o : Option NonKeyRecord)
    : Type 0 where
  pub entry : NonKeyRecord
  pub is : o ≡ some entry
  pub owner_ : entry.parent_key_name ≡ owner
  pub lease_ : entry.lease_duration ≡ lease
  pub expires : entry.expires_at ≡ after_seconds now lease
  pub zone_ : entry.upstream_zone ≡ zone

module _ (lib : DnsLibrary) (now : ℕ) (owner : Bytes) (lease : ℕ) (zone : Bytes) where
  abbrev pub Freshly : Option NonKeyRecord → Type 0
  Freshly = Fresh now owner lease zone

  pub not_elsewhere : (o : Option NonKeyRecord) → Freshly o → owned_elsewhere owner o ≡ false
  unfolding owned_elsewhere
  not_elsewhere o f =
      ap (owned_elsewhere owner) f.is
      ∙ ap (λ p. not (same p owner)) f.owner_
      ∙ ap not (same_refl owner)

  owner_of : (e : NonKeyRecord) → owned_elsewhere owner (some e) ≡ false → e.parent_key_name ≡ owner
  unfolding owned_elsewhere
  owner_of e h = ground (arith, same_iff e.parent_key_name owner)

  -- One turn of the loop.
  pub record Applied (id : Bytes) (st st' : LeaseStore) : Type 0 where
    pub here :
        owned_elsewhere owner (get id st.non_key_records) ≡ false
        → Freshly (get id st'.non_key_records)
    pub others :
        (j : Bytes) → same id j ≡ false → get j st'.non_key_records ≡ get j st.non_key_records
    pub leases : st'.leases ≡ st.leases

  get_here : (id : Bytes) (e : NonKeyRecord) (m : Assoc NonKeyRecord) → get id (put id e m) ≡ some e
  get_here id e m = get-put id e m id ∙ rw (same_refl id) refl

  get_there :
      (id : Bytes) (e : NonKeyRecord) (m : Assoc NonKeyRecord) (j : Bytes)
      → same id j ≡ false
      → get j (put id e m) ≡ get j m
  get_there id e m j h = get-put id e m j ∙ rw h refl

  pub apply_found-Applied :
      (id : Bytes) (rr : Rr) (st : LeaseStore)
      → Applied id st (apply_found lib now (get id st.non_key_records) owner id rr lease zone st)
  unfolding apply_found refreshed new_entry
  apply_found-Applied id rr st = go (get id st.non_key_records) refl
    where
      go :
          (o : Option NonKeyRecord)
          → get id st.non_key_records ≡ o
          → Applied id st (apply_found lib now o owner id rr lease zone st)
      go none h = record {
        here = λ q. record {
          entry = refreshed lib now rr lease zone (new_entry id owner rr);
          is = get_here id _ st.non_key_records;
          owner_ = refl;
          lease_ = refl;
          expires = refl;
          zone_ = refl;
        };
        others = λ j ne. get_there id _ st.non_key_records j ne;
        leases = refl;
      }
      go (some e) h = record {
        here = λ q. record {
          entry = refreshed lib now rr lease zone e;
          is = get_here id _ st.non_key_records;
          owner_ = owner_of e (sym (ap (owned_elsewhere owner) h) ∙ q);
          lease_ = refl;
          expires = refl;
          zone_ = refl;
        };
        others = λ j ne. get_there id _ st.non_key_records j ne;
        leases = refl;
      }

  -- All turns.
  pub record AllApplied (ids : List Bytes) (st st' : LeaseStore) : Type 0 where
    pub fresh : (j : Bytes) → member j ids ≡ true → Freshly (get j st'.non_key_records)
    pub stays :
        (j : Bytes) → Freshly (get j st.non_key_records) → Freshly (get j st'.non_key_records)
    pub others :
        (j : Bytes) → member j ids ≡ false → get j st'.non_key_records ≡ get j st.non_key_records
    pub leases : st'.leases ≡ st.leases

  abbrev pub NotElsewhere : LeaseStore → List Bytes → Type 0
  NotElsewhere st ids =
      (j : Bytes) → member j ids ≡ true → owned_elsewhere owner (get j st.non_key_records) ≡ false

  pub after_one :
      (id j : Bytes) (P : Option NonKeyRecord → Type 0) (st st' : LeaseStore)
      → Applied id st st'
      → (same id j ≡ true → P (get j st'.non_key_records))
      → P (get j st.non_key_records)
      → P (get j st'.non_key_records)
  after_one id j P st st' a f x = elim (Bool-cases (same id j)) [
    | inl e ↦ f e
    | inr e ↦ subst P (sym (a.others j e)) x
  ]
