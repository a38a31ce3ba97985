-- ===== src/Store/Reading/Sets.antt =====
-- What `GetNonKEYRecordSet` returns.
use sig0lease.Base.{
  ◌≡◌, refl, sym, ap, ◌∙◌, subst, ◌⊎◌, inl, inr, Bool, true, false, ◌&&◌, ◌||◌, Option, none, some,
  List, [], ◌∷◌, arith, if◌then◌else◌, Bool-cases, In, Bytes, same, same_iff, Assoc, get, put,
  get-put, member, is_some,
}
use sig0lease.Name.{normalize}
use sig0lease.Store.{NonKeyRecord, LeaseStore, values}
use sig0lease.Store.Reading.{
  record_or_key, record_set_loop, non_empty_set, get_non_key_record_set, set_records,
}

get-record_set_loop :
    (kids : List Bytes) (all : Assoc NonKeyRecord) (acc : Assoc NonKeyRecord × Bytes) (id : Bytes)
    → get id (record_set_loop kids all acc).0
      ≡ (if member id kids && is_some (get id all) then get id all else get id acc.0)
unfolding record_set_loop member
get-record_set_loop [] all acc id = refl
get-record_set_loop (k ∷ kids) all (records, zone) id =
    get-record_set_loop kids all (record_or_key (get k all) k (records, zone)) id
    ∙ step (get k all) refl (Bool-cases (same k id)) (Bool-cases (member id kids))
  where
    step :
        (o : Option NonKeyRecord)
        → get k all ≡ o
        → (same k id ≡ true) ⊎ (same k id ≡ false)
        → (member id kids ≡ true) ⊎ (member id kids ≡ false)
        → (if member id kids && is_some (get id all)
            then get id all
            else get id (record_or_key o k (records, zone)).0)
          ≡ (if (same k id || member id kids) && is_some (get id all)
              then get id all
              else get id records)
    step none h (inr e) m = rw e refl
    step none h (inl e) (inl m) = rw (e, m) refl
    step none h (inl e) (inr m) =
        let q : get id all ≡ none = ap (λ j. get j all) (sym ((same_iff k id).0 e)) ∙ h in
        rw (e, m, q) refl
    step (some x) h (inl e) (inl m) =
        let q : get id all ≡ some x = ap (λ j. get j all) (sym ((same_iff k id).0 e)) ∙ h in
        rw (e, m, q) refl
    step (some x) h (inl e) (inr m) =
        let q : get id all ≡ some x = ap (λ j. get j all) (sym ((same_iff k id).0 e)) ∙ h in
        rw (e, m, q, get-put k x records id) (rw e refl)
    step (some x) h (inr e) m = rw (e, get-put k x records id) (rw e refl)

set_records-non_empty : (s : Assoc NonKeyRecord × Bytes) → set_records (non_empty_set s) ≡ s.0
unfolding set_records non_empty_set
set_records-non_empty ([], zone) = refl
set_records-non_empty (e ∷ es, zone) = refl

-- The set of an owner holds exactly the non-KEY records among its children.
pub get-record_set :
    (owner : Bytes) (st : LeaseStore) (id : Bytes)
    → get id (set_records (get_non_key_record_set owner st)) ≡ (
        if member id (values (normalize owner) st.children)
        then get id st.non_key_records
        else none)
unfolding get_non_key_record_set get
get-record_set owner st id =
    let kids = values (normalize owner) st.children in
    ap (get id) (set_records-non_empty (record_set_loop kids st.non_key_records ([], [])))
    ∙ get-record_set_loop kids st.non_key_records ([], []) id
    ∙ tidy (member id kids) (get id st.non_key_records)
  where
    tidy :
        (b : Bool) (o : Option NonKeyRecord)
        → (if b && is_some o then o else none) ≡ (if b then o else none)
    tidy true none = refl
    tidy true (some e) = refl
    tidy false o = refl

In-put :
    (k : Bytes) (v : NonKeyRecord) (m : Assoc NonKeyRecord) (x : Bytes × NonKeyRecord)
    → In x (put k v m)
    → (x ≡ (k, v)) ⊎ In x m
unfolding put
In-put k v [] x h = h
In-put k v ((j, w) ∷ m) x h = go (same j k) (In-put k v m x) h
  where
    go :
        (b : Bool)
        → (In x (put k v m) → (x ≡ (k, v)) ⊎ In x m)
        → In x (if b then (k, v) ∷ m else (j, w) ∷ put k v m)
        → (x ≡ (k, v)) ⊎ In x ((j, w) ∷ m)
    go true ih (inl e) = inl e
    go true ih (inr i) = inr (inr i)
    go false ih (inl e) = inr (inl e)
    go false ih (inr i) = elim (ih i) [ inl e ↦ inl e | inr i' ↦ inr (inr i') ]

pub get-In :
    (id : Bytes) (m : Assoc NonKeyRecord) (e : NonKeyRecord) → get id m ≡ some e → In (id, e) m
unfolding get
get-In id [] e h = cc
get-In id ((j, w) ∷ m) e h = elim (Bool-cases (same j id)) [
  | inl q ↦
      let it : Path (Option NonKeyRecord) (some w) (some e) = rw q at h in
      let at_j = (same_iff j id).0 q in inl (ground arith)
  | inr q ↦ inr (get-In id m e (rw q at h))
]

In-record_set_loop :
    (kids : List Bytes) (all : Assoc NonKeyRecord) (acc : Assoc NonKeyRecord × Bytes)
    → (k : Bytes) (e : NonKeyRecord) → In (k, e) (record_set_loop kids all acc).0
    → In (k, e) acc.0 ⊎ ((member k kids ≡ true) × (get k all ≡ some e))
unfolding record_set_loop member
In-record_set_loop [] all acc k e h = inl h
In-record_set_loop (j ∷ kids) all (records, zone) k e h =
    step (get j all) refl
      (In-record_set_loop kids all (record_or_key (get j all) j (records, zone)) k e h)
  where
    step :
        (o : Option NonKeyRecord)
        → get j all ≡ o
        → In (k, e) (record_or_key o j (records, zone)).0
          ⊎ ((member k kids ≡ true) × (get k all ≡ some e))
        → In (k, e) records ⊎ (((same j k || member k kids) ≡ true) × (get k all ≡ some e))
    step o q (inr (m, g)) = inr (ground arith, g)
    step none q (inl i) = inl i
    step (some x) q (inl i) = was (In-put j x records (k, e) i)
      where
        was :
            (Path (Bytes × NonKeyRecord) (k, e) (j, x)) ⊎ In (k, e) records
            → In (k, e) records ⊎ (((same j k || member k kids) ≡ true) × (get k all ≡ some e))
        was (inr i) = inl i
        was (inl p) =
            let at_k : j ≡ k = sym (ap (λ z. z.0) p) in
            inr (
              ap (λ b. b || member k kids) ((same_iff j k).1 at_k),
              ap (λ i. get i all) (sym at_k) ∙ q ∙ ap (λ z. some (z.1)) (sym p),
            )

-- An entry of the set is the record that the store has there, and a child of the owner.
pub In-record_set :
    (owner : Bytes) (st : LeaseStore) (k : Bytes) (e : NonKeyRecord)
    → In (k, e) (set_records (get_non_key_record_set owner st))
    → (member k (values (normalize owner) st.children) ≡ true) × (get k st.non_key_records ≡ some e)
unfolding get_non_key_record_set
In-record_set owner st k e h = go (
    In-record_set_loop (values (normalize owner) st.children) st.non_key_records ([], []) k e
      (subst (In {A = Bytes × NonKeyRecord} (k, e)) (set_records-non_empty _) h))
  where
    go :
        In {A = Bytes × NonKeyRecord} (k, e) []
          ⊎ ((member k (values (normalize owner) st.children) ≡ true)
              × (get k st.non_key_records ≡ some e))
        → (member k (values (normalize owner) st.children) ≡ true)
          × (get k st.non_key_records ≡ some e)
    go (inl i) = absurd i
    go (inr r) = r
