-- ===== src/Expiry/Forgetting.antt =====
-- Removing due records one by one: the removals succeed, and exactly those records go.
use sig0lease.Base.{
  ◌≡◌, refl, sym, ap, ◌∙◌, ◌⊎◌, inl, inr, Bool, true, false, ◌||◌, Option, none, some, List, [],
  ◌∷◌, map, arith, if◌then◌else◌, Bool-cases, All, Bytes, same, same_refl, same_iff, get, del,
  get-del, member, ok,
}
use sig0lease.Name.{normalize}
use sig0lease.Dns.{DnsLibrary}
use sig0lease.Store.{NonKeyRecord, LeaseStore, detach_known}
use sig0lease.Store.NonKey.{remove_found, remove_single_non_key_record}
use sig0lease.Store.Invariant.{IsWellFormed}
use sig0lease.Store.Invariant.Removal.{remove_single-IsWellFormed}
use sig0lease.Expiry.Events.{DueRecord, remove_due}
use sig0lease.Expiry.Due.{IsOwn}

-- Nothing is there, or a record of the owner.
abbrev pub IsOwnIfThere : LeaseStore → DueRecord → Type 0
IsOwnIfThere st r =
    (e : NonKeyRecord)
    → get r.rr_key st.non_key_records ≡ some e
    → e.parent_key_name ≡ normalize r.owner

pub IsOwn-if_there :
    (st : LeaseStore) (rs : List DueRecord) → All (IsOwn st) rs → All (IsOwnIfThere st) rs
IsOwn-if_there st [] all = tt
IsOwn-if_there st (r ∷ rs) all =
    (λ e h. let o = all.0 in it e o.entry h o.stored o.owner_lem, IsOwn-if_there st rs all.1)
  where
    it :
        (e x : NonKeyRecord)
        → get r.rr_key st.non_key_records ≡ some e
        → get r.rr_key st.non_key_records ≡ some x
        → x.parent_key_name ≡ normalize r.owner
        → e.parent_key_name ≡ normalize r.owner
    it e x h q p = ground (arith, h, q, p)

record OneGone (id : Bytes) (st st' : LeaseStore) : Type 0 where
  leases : st'.leases ≡ st.leases
  records :
      (j : Bytes)
      → get j st'.non_key_records ≡ (if same id j then none else get j st.non_key_records)

remove_single-OneGone :
    (r : DueRecord) (st : LeaseStore)
    → IsOwnIfThere st r
    → (st' : LeaseStore) × (remove_single_non_key_record r.owner r.rr_key st ≡ ok st')
      × OneGone r.rr_key st st'
unfolding remove_single_non_key_record remove_found
remove_single-OneGone r st own = go (get r.rr_key st.non_key_records) refl
  where
    go :
        (o : Option NonKeyRecord)
        → get r.rr_key st.non_key_records ≡ o
        → (st' : LeaseStore) × (remove_found o (normalize r.owner) r.rr_key st ≡ ok st')
          × OneGone r.rr_key st st'
    go none h = (
      st,
      refl,
      record {
        leases = refl;
        records = λ j. elim (Bool-cases (same r.rr_key j)) [
          | inl e ↦ rw e (ap (λ i. get i st.non_key_records) (sym ((same_iff r.rr_key j).0 e)) ∙ h)
          | inr e ↦ rw e refl
        ];
      },
    )
    go (some e) h = (
      record st {
        non_key_records = del r.rr_key st.non_key_records;
        children =
            detach_known (get (normalize r.owner) st.children) r.rr_key (normalize r.owner)
              st.children;
      },
      rw (own e h, same_refl (normalize r.owner)) refl,
      record { leases = refl; records = λ j. get-del r.rr_key st.non_key_records j },
    )

abbrev keys_of : List DueRecord → List Bytes
keys_of = map λ r. r.rr_key

own_still :
    (id : Bytes) (st st' : LeaseStore) (rs : List DueRecord)
    → OneGone id st st'
    → All (IsOwnIfThere st) rs
    → All (IsOwnIfThere st') rs
own_still id st st' [] g all = tt
own_still id st st' (r ∷ rs) g all =
    (λ e h. all.0 e (was e h (Bool-cases (same id r.rr_key))), own_still id st st' rs g all.1)
  where
    was :
        (e : NonKeyRecord)
        → get r.rr_key st'.non_key_records ≡ some e
        → (same id r.rr_key ≡ true) ⊎ (same id r.rr_key ≡ false)
        → get r.rr_key st.non_key_records ≡ some e
    was e h (inl q) =
        let bad : Path (Option NonKeyRecord) none (some e) =
          sym (rw q at (g.records r.rr_key)) ∙ h in
        cc
    was e h (inr q) = sym (rw q at (g.records r.rr_key)) ∙ h

pub record DueGone (rs : List DueRecord) (st st' : LeaseStore) : Type 0 where
  pub leases : st'.leases ≡ st.leases
  pub records :
      (j : Bytes)
      → get j st'.non_key_records
        ≡ (if member j (map (λ r. r.rr_key) rs) then none else get j st.non_key_records)

pub remove_due-DueGone :
    (lib : DnsLibrary) (rs : List DueRecord) (st : LeaseStore)
    → IsWellFormed lib st
    → All (IsOwnIfThere st) rs
    → (st' : LeaseStore) × (remove_due rs st ≡ ok st') × IsWellFormed lib st' × DueGone rs st st'
unfolding remove_due member
remove_due-DueGone lib [] st w own = (st, refl, w, record { leases = refl; records = λ j. refl })
remove_due-DueGone lib (r ∷ rs) st w own =
    let (mid, h, one) = remove_single-OneGone r st own.0 in
    let w' = remove_single-IsWellFormed lib r.owner r.rr_key st mid w h in
    let (st', h', w'', rest) =
      remove_due-DueGone lib rs mid w' (own_still r.rr_key st mid rs one own.1) in
    (
      st',
      rw h h',
      w'',
      record {
        leases = rest.leases ∙ one.leases;
        records = λ j.
            rest.records j
            ∙ rw (one.records j)
                (merged (member j (keys_of rs)) (same r.rr_key j) (get j st.non_key_records));
      },
    )
  where
    merged :
        (b c : Bool) (o : Option NonKeyRecord)
        → (if b then none else (if c then none else o)) ≡ (if c || b then none else o)
    merged true true o = refl
    merged true false o = refl
    merged false true o = refl
    merged false false o = refl
