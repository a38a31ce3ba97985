-- ===== src/UpdateHandler/Sending.antt =====
-- Each plan of a case that registers or refreshes sends something.
use sig0lease.Base.{
  ℕ, ◌≡◌, refl, ap, ◌∙◌, subst, inl, inr, Bool, true, false, not, ◌&&◌, Option, none, some, List,
  [], ◌∷◌, ◌++◌, arith, if◌then◌else◌, Bool-cases, Bytes, same, same_refl, same_iff, Result, ok,
  err, ok-injective, bind_ok, ◌>>=◌,
}
use sig0lease.Dns.{Key, Rr, DnsLibrary}
use sig0lease.NodeKey.{node_key}
use sig0lease.Store.{Record, NonKeyRecord, LeaseStore, lookup_by_sig}
use sig0lease.Store.NonKey.{lookup_non_key_record}
use sig0lease.UpdateHandler.{
  KeyId, key_id_from_key, key_id_from_sig, same_id, UpdateHandler, HandlerError, different_key,
  Query, Plan, joined, Verified,
}
use sig0lease.UpdateHandler.Records.{records_of}
use sig0lease.UpdateHandler.Authority.{unless_exists, accept_record, filter_duplicate_registrations}
use sig0lease.UpdateHandler.Cases.{
  is_nil, in_update, refreshed_key, case_a_key, case_a_keys, case_a_signer, case_a, added_under,
  case_b_signer, case_b, case_d_keys, case_d,
}
use sig0lease.UpdateHandler.Inversion.{
  case_a_key-new, case_a_key-refresh, case_a_keys-cons, case_a_signer-cons, case_a_ok,
  case_b_signer_ok, case_b_ok, case_d_keys-cons, case_d_ok,
}
use sig0lease.UpdateHandler.Flow.{has_nothing_to_send}

-- All non-KEY records stand under the signer.
pub record IsGrouped (v : Verified) : Type 0 where
  pub owner_lem : is_nil v.others ≡ false → records_of (key_id_from_sig v.sig) v.by_owner ≡ v.others
  pub any_lem :
      (id : KeyId)
      → is_nil v.others ≡ false
      → same_id id (key_id_from_sig v.sig) ≡ true
      → records_of id v.by_owner ≡ v.others

pub same_id_sym : (a b : KeyId) → same_id a b ≡ true → same_id b a ≡ true
unfolding same_id
same_id_sym a b h = ground (arith, same_iff a.name b.name, same_iff b.name a.name)

pub same_id_refl : (a : KeyId) → same_id a a ≡ true
unfolding same_id
same_id_refl a = ground (arith, same_refl a.name)

is_nil-append {ℓ} : {A : Type ℓ} (xs ys : List A) → is_nil (xs ++ ys) ≡ (is_nil xs && is_nil ys)
unfolding is_nil
is_nil-append [] ys = refl
is_nil-append (x ∷ xs) ys = refl

nothing-joined :
    (p q : Plan)
    → has_nothing_to_send (joined p q) ≡ (has_nothing_to_send p && has_nothing_to_send q)
unfolding has_nothing_to_send joined
nothing-joined p q =
    rw
      (
        is_nil-append p.upstream_keys q.upstream_keys,
        is_nil-append p.accepted q.accepted,
        is_nil-append p.deletes q.deletes,
      )
      (ground arith)

module _ (lib : DnsLibrary) (query : Query) where
  unless-nonempty :
      (o : Option Bool) (rr : Rr) (rest : Result HandlerError (List Rr)) (rrs : List Rr)
      → unless_exists lib query o rr rest ≡ ok rrs
      → is_nil rrs ≡ false
  unfolding unless_exists is_nil
  unless-nonempty none rr rest rrs h = cc
  unless-nonempty (some true) rr rest rrs h = cc
  unless-nonempty (some false) rr rest rrs h =
      let (more, q, e) = bind_ok rest _ rrs h in
      subst (λ xs. is_nil xs ≡ false) (ok-injective e) refl

  accept-nonempty :
      (key_name zone : Bytes) (rr : Rr) (o : Option NonKeyRecord)
      (rest : Result HandlerError (List Rr)) (rrs : List Rr)
      → accept_record lib query key_name zone rr o rest ≡ ok rrs
      → is_nil rrs ≡ false
  unfolding accept_record is_nil
  accept-nonempty key_name zone rr none rest rrs h = unless-nonempty _ rr rest rrs h
  accept-nonempty key_name zone rr (some e) rest rrs h = go (same e.parent_key_name key_name) h
    where
      go :
          (b : Bool)
          → (if not b then err different_key else (do xs ← rest; ok (rr ∷ xs))) ≡ ok rrs
          → is_nil rrs ≡ false
      go false q = cc
      go true q =
          let (more, r, e) = bind_ok rest _ rrs q in
          subst (λ xs. is_nil xs ≡ false) (ok-injective e) refl

  filter-nonempty :
      (key_name zone : Bytes) (rrs : List Rr) (st : LeaseStore) (accepted : List Rr)
      → is_nil rrs ≡ false
      → filter_duplicate_registrations lib query key_name zone rrs st ≡ ok accepted
      → is_nil accepted ≡ false
  unfolding filter_duplicate_registrations is_nil
  filter-nonempty key_name zone [] st accepted n h = cc
  filter-nonempty key_name zone (rr ∷ rrs) st accepted n h =
      accept-nonempty key_name zone rr (lookup_non_key_record lib rr st) _ accepted h

  module _ (h : UpdateHandler) (now : ℕ) (v : Verified) (st : LeaseStore) where
    case_a_key-sends :
        (o : Option Record) (k : Key) (p : Plan)
        → is_nil (records_of (key_id_from_key lib k) v.by_owner) ≡ false
        → case_a_key lib query h now v st o k ≡ ok p
        → has_nothing_to_send p ≡ false
    unfolding has_nothing_to_send refreshed_key is_nil
    case_a_key-sends none k p n q =
        let (accepted, checked, filtered, e) = case_a_key-new lib query h now v st k p q in
        rw e refl
    case_a_key-sends (some r) k p n q =
        let (lease, allowed, granted, e) = case_a_key-refresh lib query h now v st r k p q in
        rw e (of_lease lease)
      where
        of_lease :
            (lease : ℕ × Bool)
            → has_nothing_to_send (
                refreshed_key lib query h now v st k
                  (records_of (key_id_from_key lib k) v.by_owner)
                  lease)
              ≡ false
        of_lease (l, true) = rw n refl
        of_lease (l, false) = refl

    case_a_keys-sends :
        (ks : List Key) (p : Plan)
        → IsGrouped v
        → is_nil v.others ≡ false
        → in_update lib (key_id_from_sig v.sig) ks ≡ true
        → case_a_keys lib query h now v st ks ≡ ok p
        → has_nothing_to_send p ≡ false
    unfolding in_update
    case_a_keys-sends [] p g n i q = cc
    case_a_keys-sends (k ∷ ks) p g n i q =
        let (first, rest, q1, q2, e) = case_a_keys-cons lib query h now v st k ks p q in
        rw (e, nothing-joined first rest)
          (elim (Bool-cases (same_id (key_id_from_key lib k) (key_id_from_sig v.sig))) [
            | inl mine ↦
                rw (case_a_key-sends _ k first (ap is_nil (g.any_lem _ n mine) ∙ n) q1) refl
            | inr other ↦
                rw (case_a_keys-sends ks rest g n (rw other at i) q2)
                  (and_false (has_nothing_to_send first))
          ])
      where
        and_false : (b : Bool) → (b && false) ≡ false
        and_false true = refl
        and_false false = refl

    case_a_signer-sends :
        (rrs : List Rr) (p : Plan)
        → is_nil rrs ≡ false
        → case_a_signer lib query h now v st rrs ≡ ok p
        → has_nothing_to_send p ≡ false
    unfolding has_nothing_to_send is_nil
    case_a_signer-sends [] p n q = cc
    case_a_signer-sends (rr ∷ rrs) p n q =
        let (accepted, filtered, e) = case_a_signer-cons lib query h now v st rr rrs p q in
        let some_data = filter-nonempty _ _ (rr ∷ rrs) st accepted refl filtered in
        rw (e, some_data) refl

    -- Each plan of Cases A, B and D sends something.
    pub case_a-sends :
        (p : Plan)
        → IsGrouped v
        → case_a lib query h now v st ≡ ok p
        → has_nothing_to_send p ≡ false
    case_a-sends p g q =
        let (of_keys, of_signer, filled, may, q1, q2, e) = case_a_ok lib query h now v st p q in
        let n : is_nil v.others ≡ false = ground (arith, filled) in
        rw (e, nothing-joined of_keys of_signer)
          (elim (Bool-cases (in_update lib (key_id_from_sig v.sig) v.keys)) [
            | inl i ↦ rw (case_a_keys-sends v.keys of_keys g n i q1) refl
            | inr i ↦
                rw (case_a_signer-sends _ of_signer (ap is_nil (g.owner_lem n) ∙ n) (rw i at q2))
                  (and_false (has_nothing_to_send of_keys))
          ])
      where
        and_false : (b : Bool) → (b && false) ≡ false
        and_false true = refl
        and_false false = refl

    pub case_b-sends :
        (p : Plan) → case_b lib query h now v st ≡ ok p → has_nothing_to_send p ≡ false
    unfolding case_b_signer has_nothing_to_send added_under is_nil
    case_b-sends p q =
        let (n, q1) = case_b_ok lib query h now v st p q in
        go (lookup_by_sig lib now v.sig.signer_name v.sig.algorithm v.sig.key_tag st) n q1
      where
        added :
            (key : Plan) (accepted : List Rr)
            → is_nil accepted ≡ false
            → has_nothing_to_send
                (joined key (added_under lib query h now v st (node_key lib v.signer_key) accepted))
              ≡ false
        added key [] n = cc
        added key (rr ∷ rrs) n = nothing-joined key _ ∙ and_false (has_nothing_to_send key)
          where
            and_false : (b : Bool) → (b && false) ≡ false
            and_false true = refl
            and_false false = refl

        go :
            (o : Option Record)
            → is_nil v.others ≡ false
            → case_b_signer lib query h now v st o ≡ ok p
            → has_nothing_to_send p ≡ false
        go none n q1 = cc
        go (some r) n q1 =
            let (key, accepted, restored, filtered, e) =
              case_b_signer_ok lib query h now v st r p q1 in
            rw e (added key accepted (filter-nonempty _ _ v.others st accepted n filtered))

    pub case_d-sends :
        (p : Plan) → case_d lib query h now v st ≡ ok p → has_nothing_to_send p ≡ false
    unfolding has_nothing_to_send is_nil joined
    case_d-sends p q = let (n, q1) = case_d_ok lib query h now v st p q in go v.keys n q1
      where
        go :
            (ks : List Key)
            → is_nil ks ≡ false
            → case_d_keys lib query h now v st ks ≡ ok p
            → has_nothing_to_send p ≡ false
        go [] n q1 = cc
        go (k ∷ ks) n q1 =
            let (lease, rest, q2, q3, e) = case_d_keys-cons lib query h now v st k ks p q1 in
            rw e refl
