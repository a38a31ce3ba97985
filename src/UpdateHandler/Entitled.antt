-- ===== src/UpdateHandler/Entitled.antt =====
-- What a request is entitled to change, and the checks that see to it.
use sig0lease.Base.{
  ℕ, ◌≡◌, refl, sym, ap, ◌∙◌, subst, ◌⊎◌, inl, inr, Bool, true, false, not, ◌||◌, Option, none,
  some, List, [], ◌∷◌, arith, if◌then◌else◌, Bool-cases, All, Bytes, same, same_iff, Result, ok,
  err, ok-injective, bind_ok, refuse_if,
}
use sig0lease.Dns.{Key, Rr, DnsLibrary}
use sig0lease.NodeKey.{node_key}
use sig0lease.Store.{Record, NonKeyRecord, LeaseStore, lookup_by_key, lookup_by_sig}
use sig0lease.Store.NonKey.{lookup_non_key_record}
use sig0lease.Expiry.Events.{key_as_rr}
use sig0lease.UpdateHandler.{
  key_id_from_key, key_id_from_sig, same_id, node_of_id, key_rr_equal, UpdateHandler, HandlerError,
  key_mismatch, not_the_owner, different_key, Query, Mutation, registers, refreshes, adds, restores,
  key_only, Note, record_not_found, Verified,
}
use sig0lease.UpdateHandler.Authority.{
  authoritative_has_rr, unless_exists, accept_record, filter_duplicate_registrations, authorize_at,
  authorize_key_refresh,
}
use sig0lease.UpdateHandler.Cases.{check_new, is_owned, to_delete, may_register}
use sig0lease.UpdateHandler.Inversion.{unless_refused}

refuse_ok {κ} : {E : Type κ} (b : Bool) (e : E) → refuse_if b e ≡ ok tt → b ≡ false
refuse_ok true e h = cc
refuse_ok false e h = refl

module _ (lib : DnsLibrary) (query : Query) (h : UpdateHandler) (now : ℕ) (v : Verified)
    (st : LeaseStore) where
  -- A KEY of the store, with the same RDATA, whose owner is the signer: the KEY itself, or the one
  -- that registered it.
  pub record MayRefresh (k : Key) : Type 0 where
    pub found : Record
    pub stored : lookup_by_key lib now k st ≡ some found
    pub rdata_lem : key_rr_equal found.key_rr k ≡ true
    pub owner_lem :
        (same_id (key_id_from_key lib k) (key_id_from_sig v.sig)
          || same found.parent_key_name (node_of_id (key_id_from_sig v.sig)))
        ≡ true

  -- A KEY that neither the store nor the authoritative server has, and a signer that may register.
  pub record MayRegister (k : Key) : Type 0 where
    pub signer_lem : may_register lib query h now v st ≡ true
    pub unknown_lem : lookup_by_key lib now k st ≡ none
    pub unpublished : authoritative_has_rr lib query v.zone (key_as_rr k) ≡ some false

  -- A record that neither has, or that the store has under this node.
  abbrev pub MayWrite : Bytes → Rr → Type 0
  MayWrite node rr =
      ((lookup_non_key_record lib rr st ≡ none)
        × (authoritative_has_rr lib query v.zone rr ≡ some false))
      ⊎ ((e : NonKeyRecord) × (lookup_non_key_record lib rr st ≡ some e)
          × (e.parent_key_name ≡ node))

  -- A record that the store has under this node.
  abbrev pub MayRemove : Bytes → Rr → Type 0
  MayRemove node rr =
      (e : NonKeyRecord) × (lookup_non_key_record lib rr st ≡ some e) × (e.parent_key_name ≡ node)

  abbrev pub IsAuthorized : Mutation → Type 0
  IsAuthorized (registers k lease rrs) = MayRegister k × All (MayWrite (node_key lib k)) rrs
  IsAuthorized (refreshes always k lease rrs) = MayRefresh k
  IsAuthorized (adds node rrs) = All (MayWrite node) rrs
  IsAuthorized (restores k lease) =
      (r : Record) × (lookup_by_sig lib now v.sig.signer_name v.sig.algorithm v.sig.key_tag st
        ≡ some r)
      × (r.key_rr ≡ k)
  IsAuthorized (key_only true k lease rrs) = MayRefresh k × All (MayRemove (node_key lib k)) rrs
  IsAuthorized (key_only false k lease rrs) = MayRegister k × All (MayRemove (node_key lib k)) rrs

  accept-MayWrite :
      (node : Bytes) (rr : Rr) (o : Option NonKeyRecord) (rest : Result HandlerError (List Rr))
      (rrs : List Rr)
      → lookup_non_key_record lib rr st ≡ o
      → accept_record lib query node v.zone rr o rest ≡ ok rrs
      → (more : List Rr) × (rest ≡ ok more) × (rrs ≡ rr ∷ more) × MayWrite node rr
  unfolding accept_record unless_exists
  accept-MayWrite node rr none rest rrs found q =
      free (authoritative_has_rr lib query v.zone rr) refl q
    where
      free :
          (b : Option Bool)
          → authoritative_has_rr lib query v.zone rr ≡ b
          → unless_exists lib query b rr rest ≡ ok rrs
          → (more : List Rr) × (rest ≡ ok more) × (rrs ≡ rr ∷ more) × MayWrite node rr
      free none a q = cc
      free (some true) a q = cc
      free (some false) a q =
          let (more, e, e1) = bind_ok rest _ rrs q in
          (more, e, sym (ok-injective e1), inl (found, a))
  accept-MayWrite node rr (some x) rest rrs found q =
      mine (Bool-cases (same x.parent_key_name node))
    where
      mine :
          (same x.parent_key_name node ≡ true) ⊎ (same x.parent_key_name node ≡ false)
          → (more : List Rr) × (rest ≡ ok more) × (rrs ≡ rr ∷ more) × MayWrite node rr
      mine (inr n) =
          let bad : Path (Result HandlerError (List Rr)) (err different_key) (ok rrs) = rw n at q in
          cc
      mine (inl y) =
          let (more, e, e1) = bind_ok rest _ rrs (rw y at q) in
          (more, e, sym (ok-injective e1), inr (x, found, (same_iff x.parent_key_name node).0 y))

  -- The filter lets all of its records through, or fails.
  pub filter-MayWrite :
      (node : Bytes) (rrs accepted : List Rr)
      → filter_duplicate_registrations lib query node v.zone rrs st ≡ ok accepted
      → (accepted ≡ rrs) × All (MayWrite node) accepted
  unfolding filter_duplicate_registrations
  filter-MayWrite node [] accepted q =
      (sym (ok-injective q), subst (All (MayWrite node)) (ok-injective q) tt)
  filter-MayWrite node (rr ∷ rrs) accepted q =
      let (more, e, e1, w) =
        accept-MayWrite node rr (lookup_non_key_record lib rr st) _ accepted refl q in
      let (all, ws) = filter-MayWrite node rrs more e in (e1 ∙ ap (◌∷◌ rr) all, rw e1 (w, ws))

  pub authorize-MayRefresh :
      (k : Key) → authorize_key_refresh lib now k (key_id_from_sig v.sig) st ≡ ok tt → MayRefresh k
  unfolding authorize_key_refresh authorize_at
  authorize-MayRefresh k q = go (lookup_by_key lib now k st) refl q
    where
      go :
          (o : Option Record)
          → lookup_by_key lib now k st ≡ o
          → authorize_at lib o k (key_id_from_sig v.sig) ≡ ok tt
          → MayRefresh k
      go none s a = cc
      go (some r) s a =
          let (equal, a1) = unless_refused (not (key_rr_equal r.key_rr k)) key_mismatch _ tt a in
          let owner = refuse_ok _ not_the_owner a1 in
          record {
            found = r;
            stored = s;
            rdata_lem = ground (arith, equal);
            owner_lem = ground (arith, owner);
          }

  pub new-MayRegister :
      (k : Key)
      → may_register lib query h now v st ≡ true
      → lookup_by_key lib now k st ≡ none
      → check_new lib query h now v st (authoritative_has_rr lib query v.zone (key_as_rr k)) ≡ ok tt
      → MayRegister k
  unfolding check_new
  new-MayRegister k may none_there q =
      go (authoritative_has_rr lib query v.zone (key_as_rr k)) refl q
    where
      go :
          (b : Option Bool)
          → authoritative_has_rr lib query v.zone (key_as_rr k) ≡ b
          → check_new lib query h now v st b ≡ ok tt
          → MayRegister k
      go none a c = cc
      go (some true) a c = cc
      go (some false) a c = record { signer_lem = may; unknown_lem = none_there; unpublished = a }

  pub to_delete-MayRemove :
      (node : Bytes) (rrs : List Rr) → All (MayRemove node) (to_delete lib st node rrs).0
  unfolding to_delete is_owned
  to_delete-MayRemove node [] = tt
  to_delete-MayRemove node (rr ∷ rrs) =
      go (lookup_non_key_record lib rr st) refl (to_delete-MayRemove node rrs)
    where
      go :
          (o : Option NonKeyRecord)
          → lookup_non_key_record lib rr st ≡ o
          → All (MayRemove node) (to_delete lib st node rrs).0
          → All (MayRemove node) (
              let rest = to_delete lib st node rrs in
              let both : List Rr × List Note =
                if is_owned lib node o
                then (rr ∷ rest.0, rest.1)
                else (rest.0, record_not_found rr ∷ rest.1) in
              both.0)
      go none s ih = ih
      go (some e) s ih = elim (Bool-cases (same e.parent_key_name node)) [
        | inl y ↦ rw y ((e, s, (same_iff e.parent_key_name node).0 y), ih)
        | inr n ↦ rw n ih
      ]
