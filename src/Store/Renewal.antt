-- ===== src/Store/Renewal.antt =====
-- What renewing a KEY lease changes, and what it leaves.
use sig0lease.Base.{
  ℕ, ◌≡◌, refl, sym, ap, ◌∙◌, subst, ◌≢◌, ◌⊎◌, inl, inr, Bool, true, false, ◌&&◌, Option, none,
  some, arith, if◌then◌else◌, Bool-cases, Bytes, same, same_refl, same_iff, same_ne, get, put,
  get-put, Result, ok, err, ok-injective, is_some,
}
use sig0lease.Dns.{Key, DnsLibrary}
use sig0lease.NodeKey.{node_key}
use sig0lease.Store.{
  Record, LeaseStore, StoreError, no_existing_lease, after_seconds, call_hook, renew_op, renewed,
  renew_found, renew_lease,
}
use sig0lease.Store.Edges.{is_link}
use sig0lease.Store.Invariant.{IsWellFormed, IsKeyed, IsKeyed-name, is_child_of, is_named, at_put}

module _ (lib : DnsLibrary) (node : Bytes) (old r : Record) (st : LeaseStore) where
  -- A record in place of one with the same name and parent.
  replace-IsWellFormed :
      IsWellFormed lib st
      → get node st.leases ≡ some old
      → IsKeyed lib node r
      → old.key_name ≡ r.key_name
      → old.parent_key_name ≡ r.parent_key_name
      → IsWellFormed lib (record st { leases = put node r st.leases })
  replace-IsWellFormed w h k name parent = record {
    keyed =
        λ n s q. keyed_after n s (Bool-cases (same node n)) (sym (get-put node r st.leases n) ∙ q);
    edges = λ p c.
        w.edges p c
        ∙ unchanged (λ o. is_child_of p o (get c st.non_key_records)) c
            (ap (λ x. is_link x p) parent);
    names = λ m n. w.names m n ∙ unchanged (is_named m) n (ap (λ x. same x m) name);
    disjoint = λ n.
        ap (λ b. b && is_some (get n st.non_key_records)) (sym (unchanged is_some n refl))
        ∙ w.disjoint n;
  }
    where
      keyed_after :
          (n : Bytes) (s : Record)
          → (same node n ≡ true) ⊎ (same node n ≡ false)
          → (if same node n then some r else get n st.leases) ≡ some s
          → IsKeyed lib n s
      keyed_after n s (inl e) q =
          let is_r : some r ≡ some s = rw e at q in
          let at_n : IsKeyed lib n r = subst (λ m. IsKeyed lib m r) ((same_iff node n).0 e) k in
          subst (IsKeyed lib n) (ground arith) at_n
      keyed_after n s (inr e) q = w.keyed n s (rw e at q)

      unchanged :
          (f : Option Record → Bool) (c : Bytes)
          → f (some old) ≡ f (some r)
          → f (get c st.leases) ≡ f (get c (put node r st.leases))
      unchanged f c e = pick (Bool-cases (same node c)) ∙ sym (at_put f node r st.leases c)
        where
          pick :
              (same node c ≡ true) ⊎ (same node c ≡ false)
              → f (get c st.leases) ≡ (if same node c then f (some r) else f (get c st.leases))
          pick (inl q) =
              rw q (ap (λ m. f (get m st.leases)) (sym ((same_iff node c).0 q)) ∙ ap f h ∙ e)
          pick (inr q) = rw q refl

-- The renewed record and the store around it.
pub record Renewed (lib : DnsLibrary) (now : ℕ) (k : Key) (lease key_lease : ℕ)
    (st st' : LeaseStore) : Type 0 where
  pub old : Record
  pub new : Record
  pub was : get (node_key lib k) st.leases ≡ some old
  pub is : get (node_key lib k) st'.leases ≡ some new
  pub parent : new.parent_key_name ≡ old.parent_key_name
  pub registered : new.registered_at ≡ old.registered_at
  pub zone : new.upstream_zone ≡ old.upstream_zone
  pub expires : new.expires_at ≡ after_seconds now lease
  pub leases : (new.lease_duration ≡ lease) × (new.key_lease_duration ≡ key_lease)
  pub key : new.key_rr ≡ k
  pub others : (n : Bytes) → n ≢ node_key lib k → get n st'.leases ≡ get n st.leases
  pub tree : (st'.children ≡ st.children) × (st'.name_idx ≡ st.name_idx)
  pub records : st'.non_key_records ≡ st.non_key_records

abbrev pub RenewOutcome :
    DnsLibrary → ℕ → Key → ℕ → ℕ → LeaseStore → Result StoreError LeaseStore → Type 0
RenewOutcome lib now k lease key_lease st (ok st') = Renewed lib now k lease key_lease st st'
RenewOutcome lib now k lease key_lease st (err e) =
    (e ≡ no_existing_lease) × (get (node_key lib k) st.leases ≡ none)

module _ (lib : DnsLibrary) (now : ℕ) (k : Key) (lease key_lease : ℕ) (st : LeaseStore) where
  -- `RenewLease` succeeds exactly if the KEY has a lease, expired or not; it then sets its timers
  -- and its KEY, and leaves its parent, its registration time and zone, all other records and the
  -- tree as they were.
  pub renew_lease-Outcome :
      RenewOutcome lib now k lease key_lease st (renew_lease lib now (some k) lease key_lease st)
  unfolding renew_lease renew_found call_hook renewed
  renew_lease-Outcome = go (get (node_key lib k) st.leases) refl
    where
      go :
          (o : Option Record)
          → get (node_key lib k) st.leases ≡ o
          → RenewOutcome lib now k lease key_lease st (renew_found lib now o k lease key_lease st)
      go none h = (refl, h)
      go (some old) h = record {
        old = old;
        new = renewed now k lease key_lease old;
        was = h;
        is =
            get-put (node_key lib k) (renewed now k lease key_lease old) st.leases (node_key lib k)
            ∙ rw (same_refl (node_key lib k)) refl;
        parent = refl;
        registered = refl;
        zone = refl;
        expires = refl;
        leases = (refl, refl);
        key = refl;
        others = λ n ne.
            get-put (node_key lib k) (renewed now k lease key_lease old) st.leases n
            ∙ rw (same_ne (node_key lib k) n (λ q. ne (sym q))) refl;
        tree = (refl, refl);
        records = refl;
      }

  -- Renewing a KEY lease keeps the store well-formed.
  pub renew_lease-IsWellFormed :
      (st' : LeaseStore)
      → IsWellFormed lib st
      → renew_lease lib now (some k) lease key_lease st ≡ ok st'
      → IsWellFormed lib st'
  unfolding renew_lease renew_found call_hook renewed
  renew_lease-IsWellFormed st' w = go (get (node_key lib k) st.leases) refl
    where
      go :
          (o : Option Record)
          → get (node_key lib k) st.leases ≡ o
          → renew_found lib now o k lease key_lease st ≡ ok st'
          → IsWellFormed lib st'
      go none h q = cc
      go (some old) h q =
          let r = renewed now k lease key_lease old in
          let old_keyed = w.keyed (node_key lib k) old h in
          let keyed : IsKeyed lib (node_key lib k) r = record {
            node = refl;
            name = IsKeyed-name lib (node_key lib k) old r old_keyed refl;
            nonempty = old_keyed.nonempty;
          } in
          let w' = replace-IsWellFormed lib (node_key lib k) old r st w h keyed refl refl in
          let w'' : IsWellFormed lib
              (call_hook renew_op r (record st { leases = put (node_key lib k) r st.leases })) =
            record {
              keyed = w'.keyed;
              edges = w'.edges;
              names = w'.names;
              disjoint = w'.disjoint;
            } in
          subst (IsWellFormed lib) (ok-injective q) w''
