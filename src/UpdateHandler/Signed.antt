-- ===== src/UpdateHandler/Signed.antt =====
-- The KEY that the signature check comes to: it verifies the request, the SIG names it, and it has
-- come with the request, from the lease store or from the authoritative server.
use sig0lease.Base.{
  ℕ, ◌≡◌, refl, sym, subst, ◌⊎◌, inl, inr, Bool, true, false, not, ◌&&◌, Option, none, some, List,
  [], ◌∷◌, ◌++◌, arith, ◌==◌, Bool-cases, In, Bytes, same_iff, empty, Result, ok, err, ok-injective,
  bind_ok, ◌>>=◌,
}
use sig0lease.Name.{normalize, is_at_or_below}
use sig0lease.Dns.{Key, Rr, DnsLibrary}
use sig0lease.Store.{Record, LeaseStore, lookup_by_sig}
use sig0lease.UpdateHandler.{
  Sig, SignerKeySource, unknown, request, lease_store, authoritative, HandlerError, empty_zone,
  empty_name, outside_hierarchy, no_candidate, Query,
}
use sig0lease.UpdateHandler.Records.{as_key}
use sig0lease.UpdateHandler.Signer.{
  is_signer, candidate_or, extract_sig0, verify_from_candidates, or_next, from_authoritative,
  from_store, resolve_signer, extract_and_validate_sig0, authoritative_candidates,
  signer_candidates,
}
use sig0lease.UpdateHandler.Inversion.{unless_refused}

-- A KEY of a list stands in one of its parts.
In-append : {A : Type 0} (x : A) (xs ys : List A) → In x (xs ++ ys) → In x xs ⊎ In x ys
In-append x [] ys h = inr h
In-append x (y ∷ xs) ys (inl e) = inl (inl e)
In-append x (y ∷ xs) ys (inr i) = elim (In-append x xs ys i) [ inl j ↦ inl (inr j) | inr j ↦ inr j ]

module _ (lib : DnsLibrary) (query : Query) (now : ℕ) (zone : Bytes) (sig : Sig)
    (additional keys : List Key) (st : LeaseStore) where
  -- Where a signer's KEY has come from. A KEY of the request or of the store has the signer's name;
  -- one of the authoritative server was asked for under it.
  abbrev pub Origin : Key × SignerKeySource → Type 0
  Origin (k, unknown) = ⊥
  Origin (k, request) =
      (In k additional ⊎ In k keys) × (normalize k.hdr.name ≡ normalize sig.signer_name)
  Origin (k, lease_store) =
      (r : Record) × (lookup_by_sig lib now sig.signer_name sig.algorithm sig.key_tag st ≡ some r)
      × (r.key_rr ≡ k)
      × (normalize k.hdr.name ≡ normalize sig.signer_name)
  Origin (k, authoritative) =
      (rrs : List Rr) × (rr : Rr) × (query zone sig.signer_name 25 ≡ some rrs)
      × In rr rrs
      × (as_key rr ≡ some k)

  -- The KEY of a signer: the SIG has its tag and its algorithm.
  pub record IsSignerKey (verify : Key → Bool) (found : Key × SignerKeySource) : Type 0 where
    pub verified : verify found.0 ≡ true
    pub tag_lem : lib.key_tag found.0 ≡ sig.key_tag
    pub algorithm_lem : (found.0).algorithm ≡ sig.algorithm
    pub origin : Origin found

module _ (lib : DnsLibrary) (verify : Key → Bool) where
  -- The KEY that is found verifies the request, and is a candidate.
  verify_from_candidates-verifies :
      (ks : List Key) (tried : Bool) (k : Key)
      → verify_from_candidates lib verify ks tried ≡ ok (some k)
      → (verify k ≡ true) × In k ks
  unfolding verify_from_candidates
  verify_from_candidates-verifies [] true k h = cc
  verify_from_candidates-verifies [] false k h = cc
  verify_from_candidates-verifies (j ∷ ks) tried k h = elim (Bool-cases (verify j)) [
    | inl e ↦ let q = it (rw e at h) in (subst (λ x. verify x ≡ true) q e, inl (sym q))
    | inr e ↦ let x = verify_from_candidates-verifies ks true k (rw e at h) in (x.0, inr x.1)
  ]
    where
      it : Path (Result HandlerError (Option Key)) (ok (some j)) (ok (some k)) → j ≡ k
      it q = cc

  module _ (sig : Sig) where
    -- The candidate's name, tag and algorithm are those of the SIG.
    abbrev Named : Key → Type 0
    Named k =
        (normalize k.hdr.name ≡ normalize sig.signer_name)
        × (lib.key_tag k ≡ sig.key_tag)
        × (k.algorithm ≡ sig.algorithm)

    is_signer-Named : (k : Key) → is_signer lib verify sig k ≡ true → Named k
    unfolding is_signer
    is_signer-Named k h = (
      (same_iff (normalize k.hdr.name) (normalize sig.signer_name)).0 (ground arith),
      ground arith,
      ground arith,
    )

    In-signer_candidates :
        (k : Key) (ks : List Key) → In k (signer_candidates lib verify sig ks) → In k ks × Named k
    unfolding signer_candidates
    In-signer_candidates k [] h = absurd h
    In-signer_candidates k (j ∷ ks) h = elim (Bool-cases (is_signer lib verify sig j)) [
      | inr e ↦ let x = In-signer_candidates k ks (rw e at h) in (inr x.0, x.1)
      | inl e ↦ of_first (is_signer-Named j e) (In-signer_candidates k ks) (rw e at h)
    ]
      where
        of_first :
            Named j
            → (In k (signer_candidates lib verify sig ks) → In k ks × Named k)
            → In k (j ∷ signer_candidates lib verify sig ks)
            → In k (j ∷ ks) × Named k
        of_first n later (inl q) = (inl q, subst Named (sym q) n)
        of_first n later (inr i) = let x = later i in (inr x.0, x.1)

    -- An authoritative candidate stands in the answer, with the SIG's tag and algorithm.
    abbrev Answered : List Rr → Key → Type 0
    Answered rrs k =
        (lib.key_tag k ≡ sig.key_tag)
        × (k.algorithm ≡ sig.algorithm)
        × ((rr : Rr) × In rr rrs × (as_key rr ≡ some k))

    In-authoritative_candidates :
        (k : Key) (rrs : List Rr)
        → In k (authoritative_candidates lib verify sig rrs)
        → Answered rrs k
    unfolding authoritative_candidates
    In-authoritative_candidates k [] h = absurd h
    In-authoritative_candidates k (rr ∷ rrs) h =
        of_first (as_key rr) refl (λ i. later (In-authoritative_candidates k rrs i)) h
      where
        later : Answered rrs k → Answered (rr ∷ rrs) k
        later (t, a, (x, i, q)) = (t, a, (x, inr i, q))

        of_first :
            (o : Option Key)
            → as_key rr ≡ o
            → (In k (authoritative_candidates lib verify sig rrs) → Answered (rr ∷ rrs) k)
            → In k (candidate_or lib verify sig o (authoritative_candidates lib verify sig rrs))
            → Answered (rr ∷ rrs) k
        of_first none q ih i = ih i
        of_first (some j) q ih i =
            elim (Bool-cases (lib.key_tag j == sig.key_tag && j.algorithm == sig.algorithm)) [
              | inr e ↦ ih (rw e at i)
              | inl e ↦ chosen e (rw e at i)
            ]
          where
            chosen :
                (lib.key_tag j == sig.key_tag && j.algorithm == sig.algorithm) ≡ true
                → In k (j ∷ authoritative_candidates lib verify sig rrs)
                → Answered (rr ∷ rrs) k
            chosen e (inr m) = ih m
            chosen e (inl p) =
                subst (Answered (rr ∷ rrs)) (sym p) (ground arith, ground arith, (rr, inl refl, q))

    -- A stage, and the stages after it.
    stage-cases :
        (P : Key × SignerKeySource → Type 0) (ks : List Key) (source : SignerKeySource)
        (next : Result HandlerError (Key × SignerKeySource)) (found : Key × SignerKeySource)
        → ((k : Key) → verify k ≡ true → In k ks → P (k, source))
        → (next ≡ ok found → P found)
        → (verify_from_candidates lib verify ks false >>= λ o. or_next lib verify source o next)
          ≡ ok found
        → P found
    unfolding or_next
    stage-cases P ks source next found here rest h =
        let (o, q, h1) = bind_ok (verify_from_candidates lib verify ks false) _ found h in go o q h1
      where
        go :
            (o : Option Key)
            → verify_from_candidates lib verify ks false ≡ ok o
            → or_next lib verify source o next ≡ ok found
            → P found
        go none q h1 = rest h1
        go (some k) q h1 =
            let x = verify_from_candidates-verifies ks false k q in
            subst P (ok-injective h1) (here k x.0 x.1)

    module _ (query : Query) (now : ℕ) (zone : Bytes) (additional keys : List Key)
        (st : LeaseStore) where
      abbrev Good : Key × SignerKeySource → Type 0
      Good = IsSignerKey lib query now zone sig additional keys st verify

      resolve_signer-IsSignerKey :
          (found : Key × SignerKeySource)
          → resolve_signer lib verify query now zone sig additional keys st ≡ ok found
          → Good found
      unfolding resolve_signer from_store from_authoritative
      resolve_signer-IsSignerKey found h =
          stage-cases Good _ request _ found of_request
            (in_store (lookup_by_sig lib now sig.signer_name sig.algorithm sig.key_tag st) refl) h
        where
          of_request :
              (k : Key)
              → verify k ≡ true
              → In k (
                  signer_candidates lib verify sig additional
                  ++ signer_candidates lib verify sig keys)
              → Good (k, request)
          of_request k v i = elim (In-append k (signer_candidates lib verify sig additional) _ i) [
            | inl a ↦
                let (j, (n, t, alg)) = In-signer_candidates k additional a in
                record { verified = v; tag_lem = t; algorithm_lem = alg; origin = (inl j, n) }
            | inr b ↦
                let (j, (n, t, alg)) = In-signer_candidates k keys b in
                record { verified = v; tag_lem = t; algorithm_lem = alg; origin = (inr j, n) }
          ]

          online :
              (o : Option (List Rr))
              → query zone sig.signer_name 25 ≡ o
              → from_authoritative lib verify sig o ≡ ok found
              → Good found
          online none a q = cc
          online (some rrs) a q =
              stage-cases Good (authoritative_candidates lib verify sig rrs) authoritative
                (err no_candidate) found
                (λ k v i.
                  let (t, alg, (rr, j, e)) = In-authoritative_candidates k rrs i in
                  record {
                    verified = v;
                    tag_lem = t;
                    algorithm_lem = alg;
                    origin = (rrs, rr, a, j, e);
                  })
                (λ r. cc) q

          in_store :
              (o : Option Record)
              → lookup_by_sig lib now sig.signer_name sig.algorithm sig.key_tag st ≡ o
              → from_store lib verify sig o
                  (from_authoritative lib verify sig (query zone sig.signer_name 25))
                ≡ ok found
              → Good found
          in_store none a q = online (query zone sig.signer_name 25) refl q
          in_store (some r) a q =
              stage-cases Good (signer_candidates lib verify sig (r.key_rr ∷ [])) lease_store
                (from_authoritative lib verify sig (query zone sig.signer_name 25)) found
                (λ k v i.
                  let (j, (n, t, alg)) = In-signer_candidates k (r.key_rr ∷ []) i in
                  record {
                    verified = v;
                    tag_lem = t;
                    algorithm_lem = alg;
                    origin = (r, a, only k j, n);
                  })
                (online (query zone sig.signer_name 25) refl) q
            where
              only : (k : Key) → In k (r.key_rr ∷ []) → r.key_rr ≡ k
              only k (inl e) = sym e
              only k (inr i) = absurd i

  -- What the signature check establishes, for the first SIG of the message.
  pub sig0-Sound :
      (query : Query) (now : ℕ) (zone : Bytes) (pseudo extra : List Sig)
      (additional keys : List Key) (st : LeaseStore) (r : Sig × Key × SignerKeySource)
      → extract_and_validate_sig0 lib verify query now zone pseudo extra additional keys st ≡ ok r
      → (In r.0 pseudo ⊎ In r.0 extra)
        × IsSignerKey lib query now zone (r.0) additional keys st verify (r.1, r.2)
        × (is_at_or_below (normalize zone) (normalize r.0.signer_name) ≡ true)
  unfolding extract_and_validate_sig0 extract_sig0
  sig0-Sound query now zone pseudo extra additional keys st r h =
      let (sig, e1, h1) = bind_ok (extract_sig0 pseudo extra) _ r h in
      let (zoned, h2) = unless_refused (empty (normalize zone)) empty_zone _ r h1 in
      let (named, h3) = unless_refused (empty (normalize sig.signer_name)) empty_name _ r h2 in
      let (below, h4) =
        unless_refused (not (is_at_or_below (normalize zone) (normalize sig.signer_name)))
          outside_hierarchy _ r h3 in
      let (found, e2, h5) =
        bind_ok (resolve_signer lib verify query now zone sig additional keys st) _ r h4 in
      let good = resolve_signer-IsSignerKey sig query now zone additional keys st found e2 in
      subst
        (λ x.
          (In x.0 pseudo ⊎ In x.0 extra)
          × IsSignerKey lib query now zone (x.0) additional keys st verify (x.1, x.2)
          × (is_at_or_below (normalize zone) (normalize x.0.signer_name) ≡ true))
        (ok-injective h5) (first_sig pseudo extra sig e1, good, ground (arith, below))
    where
      first_sig :
          (pseudo extra : List Sig) (sig : Sig)
          → extract_sig0 pseudo extra ≡ ok sig
          → In sig pseudo ⊎ In sig extra
      first_sig (x ∷ xs) extra sig q = inl (inl (sym (ok-injective q)))
      first_sig [] (x ∷ xs) sig q = inr (inl (sym (ok-injective q)))
      first_sig [] [] sig q = cc
