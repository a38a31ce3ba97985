-- ===== src/UpdateHandler/Inversion.antt =====
-- What a plan that comes about was made of.
use sig0lease.Base.{
  ℕ, ◌≡◌, refl, sym, ap, Bool, true, false, not, ◌||◌, none, some, List, [], ◌∷◌, arith,
  if◌then◌else◌, Result, ok, err, ok-injective, bind_ok, ◌>>◌, refuse_if, is_some,
}
use sig0lease.Dns.{Key, Rr, DnsLibrary}
use sig0lease.NodeKey.{node_key}
use sig0lease.Store.{Record, LeaseStore, lookup_by_key, lookup_by_sig}
use sig0lease.Expiry.Events.{key_as_rr}
use sig0lease.UpdateHandler.{
  key_id_from_key, UpdateHandler, format_error, server_failure, refused, with_rcode, Query,
  registers, adds, key_only, Plan, no_plan, joined, Verified,
}
use sig0lease.UpdateHandler.Records.{records_of}
use sig0lease.UpdateHandler.Authority.{
  authoritative_has_rr, authoritative_has_key_at_name, filter_duplicate_registrations,
  effective_refresh_key_lease, authorize_key_refresh,
}
use sig0lease.UpdateHandler.Cases.{
  is_nil, sig_node, in_update, check_new, refreshed_key, case_a_key, case_a_keys, case_a_signer,
  case_a, restored_key, added_under, case_b_signer, case_b, to_delete, case_d_lease, case_d_keys,
  case_d, may_register, signer_id,
}

pub with_rcode_ok {ℓ κ} :
    {E : Type κ} {A : Type ℓ} (rcode : ℕ) (r : Result E A) (a : A)
    → with_rcode rcode r ≡ ok a
    → r ≡ ok a
with_rcode_ok rcode (ok x) a h = ap ok (ok-injective h)
with_rcode_ok rcode (err e) a h = cc

-- A check that is passed.
pub unless_refused {κ ℓ} :
    {E : Type κ} {A : Type ℓ} (b : Bool) (e : E) (r : Result E A) (a : A)
    → (refuse_if b e >> r) ≡ ok a
    → (b ≡ false) × (r ≡ ok a)
unless_refused true e r a h = cc
unless_refused false e r a h = (refl, h)

module _ (lib : DnsLibrary) (query : Query) (h : UpdateHandler) (now : ℕ) (v : Verified)
    (st : LeaseStore) where
  pub case_a_key-new :
      (k : Key) (p : Plan)
      → case_a_key lib query h now v st none k ≡ ok p
      → (accepted : List Rr) × (check_new lib query h now v st
            (authoritative_has_rr lib query v.zone (key_as_rr k))
          ≡ ok tt)
        × (filter_duplicate_registrations lib query
              (node_key lib k)
              v.zone
              (records_of (key_id_from_key lib k) v.by_owner)
              st
            ≡ ok accepted)
        × (p ≡ record no_plan {
          upstream_keys = k ∷ [];
          accepted = accepted;
          mutations = registers k v.key_lease accepted ∷ [];
        })
  unfolding case_a_key
  case_a_key-new k p q =
      let (u, checked, q1) =
        bind_ok
          (check_new lib query h now v st (authoritative_has_rr lib query v.zone (key_as_rr k))) _ p
          q in
      let (accepted, filtered, q2) =
        bind_ok
          (with_rcode refused (
            filter_duplicate_registrations lib query (node_key lib k) v.zone
              (records_of (key_id_from_key lib k) v.by_owner) st))
          _ p q1 in
      (accepted, checked, with_rcode_ok refused _ accepted filtered, sym (ok-injective q2))

  pub case_a_key-refresh :
      (r : Record) (k : Key) (p : Plan)
      → case_a_key lib query h now v st (some r) k ≡ ok p
      → (lease : ℕ × Bool) × (authorize_key_refresh lib now k (signer_id lib query h now v st) st
          ≡ ok tt)
        × (effective_refresh_key_lease lib query now v.zone k r v.key_lease ≡ ok lease)
        × (p
            ≡ refreshed_key lib query h now v st k
                (records_of (key_id_from_key lib k) v.by_owner)
                lease)
  unfolding case_a_key
  case_a_key-refresh r k p q =
      let (u, allowed, q1) =
        bind_ok
          (with_rcode refused (authorize_key_refresh lib now k (signer_id lib query h now v st) st))
          _ p q in
      let (lease, granted, q2) =
        bind_ok
          (with_rcode server_failure
            (effective_refresh_key_lease lib query now v.zone k r v.key_lease))
          _ p q1 in
      (
        lease,
        with_rcode_ok refused _ _ allowed,
        with_rcode_ok server_failure _ lease granted,
        sym (ok-injective q2),
      )

  pub case_a_keys-cons :
      (k : Key) (ks : List Key) (p : Plan)
      → case_a_keys lib query h now v st (k ∷ ks) ≡ ok p
      → (first : Plan) × (rest : Plan) × (case_a_key lib query h now v st
            (lookup_by_key lib now k st)
            k
          ≡ ok first)
        × (case_a_keys lib query h now v st ks ≡ ok rest)
        × (p ≡ joined first rest)
  unfolding case_a_keys
  case_a_keys-cons k ks p q =
      let (first, q1, q2) =
        bind_ok (case_a_key lib query h now v st (lookup_by_key lib now k st) k) _ p q in
      let (rest, q3, q4) = bind_ok (case_a_keys lib query h now v st ks) _ p q2 in
      (first, rest, q1, q3, sym (ok-injective q4))

  pub case_a_signer-cons :
      (rr : Rr) (rrs : List Rr) (p : Plan)
      → case_a_signer lib query h now v st (rr ∷ rrs) ≡ ok p
      → (accepted : List Rr) × (filter_duplicate_registrations lib query
            (sig_node v.sig)
            v.zone
            (rr ∷ rrs)
            st
          ≡ ok accepted)
        × (p ≡ record no_plan {
          accepted = accepted;
          mutations = adds (sig_node v.sig) accepted ∷ [];
        })
  unfolding case_a_signer
  case_a_signer-cons rr rrs p q =
      let (accepted, filtered, q1) =
        bind_ok
          (with_rcode refused
            (filter_duplicate_registrations lib query (sig_node v.sig) v.zone (rr ∷ rrs) st))
          _ p q in
      (accepted, with_rcode_ok refused _ accepted filtered, sym (ok-injective q1))

  pub case_a_ok :
      (p : Plan)
      → case_a lib query h now v st ≡ ok p
      → (of_keys : Plan) × (of_signer : Plan) × ((is_nil v.keys || is_nil v.others) ≡ false)
        × (may_register lib query h now v st ≡ true)
        × (case_a_keys lib query h now v st v.keys ≡ ok of_keys)
        × ((if in_update lib (signer_id lib query h now v st) v.keys
              then ok no_plan
              else case_a_signer lib query h now v st
                  (records_of (signer_id lib query h now v st) v.by_owner))
            ≡ ok of_signer)
        × (p ≡ joined of_keys of_signer)
  unfolding case_a
  case_a_ok p q =
      let (filled, q1) = unless_refused (is_nil v.keys || is_nil v.others) format_error _ p q in
      let (may, q2) = unless_refused (not (may_register lib query h now v st)) refused _ p q1 in
      let (of_keys, q3, q4) = bind_ok (case_a_keys lib query h now v st v.keys) _ p q2 in
      let (of_signer, q5, q6) =
        bind_ok
          (if in_update lib (signer_id lib query h now v st) v.keys
            then ok no_plan
            else case_a_signer lib query h now v st
                (records_of (signer_id lib query h now v st) v.by_owner))
          _ p q4 in
      (of_keys, of_signer, filled, ground (arith, may), q3, q5, sym (ok-injective q6))

  pub case_b_signer_ok :
      (r : Record) (p : Plan)
      → case_b_signer lib query h now v st (some r) ≡ ok p
      → (key : Plan) × (accepted : List Rr) × (restored_key lib query h now v st r
            (authoritative_has_key_at_name lib query v.zone v.signer_key.hdr.name)
          ≡ ok key)
        × (filter_duplicate_registrations lib query (node_key lib v.signer_key) v.zone v.others st
            ≡ ok accepted)
        × (p ≡ joined key (added_under lib query h now v st (node_key lib v.signer_key) accepted))
  unfolding case_b_signer
  case_b_signer_ok r p q =
      let (key, q1, q2) =
        bind_ok
          (restored_key lib query h now v st r
            (authoritative_has_key_at_name lib query v.zone v.signer_key.hdr.name))
          _ p q in
      let (accepted, filtered, q3) =
        bind_ok
          (with_rcode refused (
            filter_duplicate_registrations lib query (node_key lib v.signer_key) v.zone v.others
              st))
          _ p q2 in
      (key, accepted, q1, with_rcode_ok refused _ accepted filtered, sym (ok-injective q3))

  pub case_b_ok :
      (p : Plan)
      → case_b lib query h now v st ≡ ok p
      → (is_nil v.others ≡ false)
        × (case_b_signer lib query h now v st
              (lookup_by_sig lib now v.sig.signer_name v.sig.algorithm v.sig.key_tag st)
            ≡ ok p)
  unfolding case_b
  case_b_ok p q =
      let (some_data, q1) = unless_refused (is_nil v.others) refused _ p q in
      let (no_keys, q2) = unless_refused (not (is_nil v.keys)) refused _ p q1 in (some_data, q2)

  pub case_d_lease-new :
      (k : Key) (lease : ℕ)
      → case_d_lease lib query h now v st none k ≡ ok lease
      → (check_new lib query h now v st (authoritative_has_rr lib query v.zone (key_as_rr k))
          ≡ ok tt)
        × (may_register lib query h now v st ≡ true)
  unfolding case_d_lease
  case_d_lease-new k lease q =
      let (u, checked, q1) =
        bind_ok
          (check_new lib query h now v st (authoritative_has_rr lib query v.zone (key_as_rr k))) _
          lease q in
      let (may, q2) = unless_refused (not (may_register lib query h now v st)) refused _ lease q1 in
      (checked, ground (arith, may))

  pub case_d_lease-refresh :
      (r : Record) (k : Key) (lease : ℕ)
      → case_d_lease lib query h now v st (some r) k ≡ ok lease
      → authorize_key_refresh lib now k (signer_id lib query h now v st) st ≡ ok tt
  unfolding case_d_lease
  case_d_lease-refresh r k lease q =
      let (u, allowed, q1) =
        bind_ok
          (with_rcode refused (authorize_key_refresh lib now k (signer_id lib query h now v st) st))
          _ lease q in
      with_rcode_ok refused _ _ allowed

  pub case_d_keys-cons :
      (k : Key) (ks : List Key) (p : Plan)
      → case_d_keys lib query h now v st (k ∷ ks) ≡ ok p
      → (lease : ℕ) × (rest : Plan) × (case_d_lease lib query h now v st
            (lookup_by_key lib now k st)
            k
          ≡ ok lease)
        × (case_d_keys lib query h now v st ks ≡ ok rest)
        × (p
            ≡ joined
                (record {
                  upstream_keys = k ∷ [];
                  accepted = [];
                  deletes =
                      (to_delete lib st
                        (node_key lib k)
                        (records_of (key_id_from_key lib k) v.by_owner)).0;
                  mutations =
                      key_only (is_some (lookup_by_key lib now k st)) k lease (
                        (to_delete lib st
                          (node_key lib k)
                          (records_of (key_id_from_key lib k) v.by_owner)).0)
                      ∷ [];
                  notes =
                      (to_delete lib st
                        (node_key lib k)
                        (records_of (key_id_from_key lib k) v.by_owner)).1;
                })
                rest)
  unfolding case_d_keys
  case_d_keys-cons k ks p q =
      let (lease, q1, q2) =
        bind_ok (case_d_lease lib query h now v st (lookup_by_key lib now k st) k) _ p q in
      let (rest, q3, q4) = bind_ok (case_d_keys lib query h now v st ks) _ p q2 in
      (lease, rest, q1, q3, sym (ok-injective q4))

  pub case_d_ok :
      (p : Plan)
      → case_d lib query h now v st ≡ ok p
      → (is_nil v.keys ≡ false) × (case_d_keys lib query h now v st v.keys ≡ ok p)
  unfolding case_d
  case_d_ok p q = unless_refused (is_nil v.keys) format_error _ p q
