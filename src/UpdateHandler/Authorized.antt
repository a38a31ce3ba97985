-- ===== src/UpdateHandler/Authorized.antt =====
-- What a request may change: each change of the store that a plan holds is one that the signer is
-- entitled to.
use sig0lease.Base.{
  ℕ, ◌≡◌, refl, subst, inl, inr, Bool, true, false, Option, none, some, List, [], ◌∷◌, Bool-cases,
  All, All-append, Bytes, ok, ok-injective, is_some,
}
use sig0lease.Dns.{Key, Rr, DnsLibrary}
use sig0lease.NodeKey.{node_key}
use sig0lease.Store.{Record, LeaseStore, lookup_by_key, lookup_by_sig}
use sig0lease.UpdateHandler.{
  key_id_from_key, UpdateHandler, Query, key_only, Plan, joined, Verified,
}
use sig0lease.UpdateHandler.Records.{records_of}
use sig0lease.UpdateHandler.Cases.{
  sig_node, in_update, refreshed_key, case_a_key, case_a_keys, case_a_signer, case_a, restored_key,
  added_under, case_b_signer, case_b, to_delete, case_d_lease, case_d_keys, case_d, may_register,
  signer_id,
}
use sig0lease.UpdateHandler.Inversion.{
  case_a_key-new, case_a_key-refresh, case_a_keys-cons, case_a_signer-cons, case_a_ok,
  case_b_signer_ok, case_b_ok, case_d_lease-new, case_d_lease-refresh, case_d_keys-cons, case_d_ok,
}
use sig0lease.UpdateHandler.Entitled.{
  MayWrite, IsAuthorized, filter-MayWrite, authorize-MayRefresh, new-MayRegister,
  to_delete-MayRemove,
}

module _ (lib : DnsLibrary) (query : Query) (h : UpdateHandler) (now : ℕ) (v : Verified)
    (st : LeaseStore) where
  abbrev AllAuthorized : Plan → Type 0
  AllAuthorized p = All (IsAuthorized lib query h now v st) p.mutations

  joined-AllAuthorized :
      (p q : Plan) → AllAuthorized p → AllAuthorized q → AllAuthorized (joined p q)
  unfolding joined
  joined-AllAuthorized p q a b =
      All-append (IsAuthorized lib query h now v st) p.mutations q.mutations a b

  case_a_key-AllAuthorized :
      (k : Key) (o : Option Record) (p : Plan)
      → lookup_by_key lib now k st ≡ o
      → may_register lib query h now v st ≡ true
      → case_a_key lib query h now v st o k ≡ ok p
      → AllAuthorized p
  unfolding refreshed_key
  case_a_key-AllAuthorized k none p s may q =
      let (accepted, checked, filtered, e) = case_a_key-new lib query h now v st k p q in
      let (all, ws) = filter-MayWrite lib query h now v st (node_key lib k) _ accepted filtered in
      rw e ((new-MayRegister lib query h now v st k may s checked, ws), tt)
  case_a_key-AllAuthorized k (some r) p s may q =
      let (lease, allowed, granted, e) = case_a_key-refresh lib query h now v st r k p q in
      rw e (go lease)
    where
      go :
          (lease : ℕ × Bool)
          → AllAuthorized (
              refreshed_key lib query h now v st k
                (records_of (key_id_from_key lib k) v.by_owner)
                lease)
      go (l, true) = (
        authorize-MayRefresh lib query h now v st k
            (case_a_key-refresh lib query h now v st r k p q).1,
        tt,
      )
      go (l, false) = (
        authorize-MayRefresh lib query h now v st k
            (case_a_key-refresh lib query h now v st r k p q).1,
        tt,
      )

  case_a_keys-AllAuthorized :
      (ks : List Key) (p : Plan)
      → may_register lib query h now v st ≡ true
      → case_a_keys lib query h now v st ks ≡ ok p
      → AllAuthorized p
  unfolding case_a_keys
  case_a_keys-AllAuthorized [] p may q = subst AllAuthorized (ok-injective q) tt
  case_a_keys-AllAuthorized (k ∷ ks) p may q =
      let (first, rest, q1, q2, e) = case_a_keys-cons lib query h now v st k ks p q in
      rw e (
        joined-AllAuthorized first rest
          (case_a_key-AllAuthorized k (lookup_by_key lib now k st) first refl may q1)
          (case_a_keys-AllAuthorized ks rest may q2))

  case_a_signer-AllAuthorized :
      (rrs : List Rr) (p : Plan) → case_a_signer lib query h now v st rrs ≡ ok p → AllAuthorized p
  unfolding case_a_signer
  case_a_signer-AllAuthorized [] p q = subst AllAuthorized (ok-injective q) tt
  case_a_signer-AllAuthorized (rr ∷ rrs) p q =
      let (accepted, filtered, e) = case_a_signer-cons lib query h now v st rr rrs p q in
      rw e
        ((filter-MayWrite lib query h now v st (sig_node v.sig) (rr ∷ rrs) accepted filtered).1, tt)

  case_a-AllAuthorized : (p : Plan) → case_a lib query h now v st ≡ ok p → AllAuthorized p
  case_a-AllAuthorized p q =
      let (of_keys, of_signer, filled, may, q1, q2, e) = case_a_ok lib query h now v st p q in
      rw e (
        joined-AllAuthorized of_keys of_signer (case_a_keys-AllAuthorized v.keys of_keys may q1)
          (elim (Bool-cases (in_update lib (signer_id lib query h now v st) v.keys)) [
            | inl i ↦ subst AllAuthorized (ok-injective (rw i at q2)) tt
            | inr i ↦ case_a_signer-AllAuthorized _ of_signer (rw i at q2)
          ]))

  case_b-AllAuthorized : (p : Plan) → case_b lib query h now v st ≡ ok p → AllAuthorized p
  unfolding case_b_signer restored_key added_under
  case_b-AllAuthorized p q =
      let (n, q1) = case_b_ok lib query h now v st p q in
      go (lookup_by_sig lib now v.sig.signer_name v.sig.algorithm v.sig.key_tag st) refl q1
    where
      restored :
          (r : Record) (b : Option Bool) (key : Plan)
          → lookup_by_sig lib now v.sig.signer_name v.sig.algorithm v.sig.key_tag st ≡ some r
          → restored_key lib query h now v st r b ≡ ok key
          → AllAuthorized key
      restored r none key s q = cc
      restored r (some true) key s q = subst AllAuthorized (ok-injective q) tt
      restored r (some false) key s q = subst AllAuthorized (ok-injective q) ((r, s, refl), tt)

      added :
          (node : Bytes) (rrs : List Rr)
          → All (MayWrite lib query h now v st node) rrs
          → AllAuthorized (added_under lib query h now v st node rrs)
      added node [] w = tt
      added node (rr ∷ rrs) w = (w, tt)

      go :
          (o : Option Record)
          → lookup_by_sig lib now v.sig.signer_name v.sig.algorithm v.sig.key_tag st ≡ o
          → case_b_signer lib query h now v st o ≡ ok p
          → AllAuthorized p
      go none s q1 = cc
      go (some r) s q1 =
          let (key, accepted, q2, filtered, e) = case_b_signer_ok lib query h now v st r p q1 in
          rw e (
            joined-AllAuthorized key
              (added_under lib query h now v st (node_key lib v.signer_key) accepted)
              (restored r _ key s q2)
              (added (node_key lib v.signer_key) accepted (
                (filter-MayWrite lib query h now v st (node_key lib v.signer_key) v.others accepted
                  filtered).1)))

  case_d_keys-AllAuthorized :
      (ks : List Key) (p : Plan) → case_d_keys lib query h now v st ks ≡ ok p → AllAuthorized p
  unfolding case_d_keys
  case_d_keys-AllAuthorized [] p q = subst AllAuthorized (ok-injective q) tt
  case_d_keys-AllAuthorized (k ∷ ks) p q =
      let (lease, rest, q1, q2, e) = case_d_keys-cons lib query h now v st k ks p q in
      rw e (
        joined-AllAuthorized _ rest (of_key (lookup_by_key lib now k st) refl lease q1, tt)
          (case_d_keys-AllAuthorized ks rest q2))
    where
      of_key :
          (o : Option Record)
          → lookup_by_key lib now k st ≡ o
          → (lease : ℕ) → case_d_lease lib query h now v st o k ≡ ok lease
          → IsAuthorized lib query h now v st (
              key_only (is_some o) k lease (
                (to_delete lib st
                  (node_key lib k)
                  (records_of (key_id_from_key lib k) v.by_owner)).0))
      of_key none s lease q1 =
          let (checked, may) = case_d_lease-new lib query h now v st k lease q1 in
          (
            new-MayRegister lib query h now v st k may s checked,
            to_delete-MayRemove lib query h now v st (node_key lib k) _,
          )
      of_key (some r) s lease q1 = (
        authorize-MayRefresh lib query h now v st k
            (case_d_lease-refresh lib query h now v st r k lease q1),
        to_delete-MayRemove lib query h now v st (node_key lib k) _,
      )

  case_d-AllAuthorized : (p : Plan) → case_d lib query h now v st ≡ ok p → AllAuthorized p
  case_d-AllAuthorized p q =
      case_d_keys-AllAuthorized v.keys p (case_d_ok lib query h now v st p q).1

  -- Whatever a request of Case A, B or D plans to change, it is entitled to: a KEY is registered
  -- only if neither the store nor the authoritative server has it and the signer may register; a
  -- KEY is refreshed only with its own RDATA and by itself or by the KEY that registered it; a KEY
  -- is restored only if it is the signer's; of the records, those of new KEYs and of a signer
  -- outside the update are new to both or the node's already, and those removed are the node's.
  pub plan-IsAuthorized :
      ((p : Plan)
        → case_a lib query h now v st ≡ ok p
        → All (IsAuthorized lib query h now v st) p.mutations)
      × ((p : Plan)
          → case_b lib query h now v st ≡ ok p
          → All (IsAuthorized lib query h now v st) p.mutations)
      × ((p : Plan)
          → case_d lib query h now v st ≡ ok p
          → All (IsAuthorized lib query h now v st) p.mutations)
  plan-IsAuthorized = (
    λ p q. case_a-AllAuthorized p q,
    λ p q. case_b-AllAuthorized p q,
    λ p q. case_d-AllAuthorized p q,
  )
