-- ===== src/Srp/Fcfs/Rule.antt =====
-- What `Evaluate` decides, and the KEY of each name that it is asked about.
use sig0lease.Base.{
  ◌≡◌, refl, sym, ◌⊎◌, inl, inr, Bool, true, false, Option, none, some, List, [], ◌∷◌, arith,
  ==_refl, Bool-cases, Bytes, same, same_refl, same_iff, same_ne, member, Result, ok, err,
}
use sig0lease.Dns.{Key, Rr}
use sig0lease.Srp.{ServiceInstance, ClassifiedUpdate}
use sig0lease.Srp.Fcfs.{
  AuthState, nx_domain, no_key, key_present, unknown_state, FcfsResult, proceed, conflict,
  foreign_data, FcfsError, keys_identical, any_identical, name_not_in_use, no_key_rrset, on_state,
  on_query, on_store, evaluate, names, instance_names, key_at_name, own_or_host, key_in, key_for,
}

abbrev Query : Type 0
Query = Option (Bytes → Option AuthState)

-- The authoritative server's answer, if there is a query and it has no error.
abbrev pub answer : Query → Bytes → Option AuthState
answer none name = none
answer (some q) name = q name

module _ (view : Bytes → Option Key) (query : Query) (name : Bytes) (update_key : Key) where
  -- The update's key holds the name: in the store, or else at the authoritative server.
  pub data Held : Type 0 where
    in_store : (k : Key) → view name ≡ some k → keys_identical k update_key ≡ true → Held
    upstream :
        (ks : List Key)
        → view name ≡ none
        → answer query name ≡ some (key_present ks)
        → any_identical ks update_key ≡ true
        → Held

  -- Only other keys hold it.
  pub data HeldByOther : Type 0 where
    in_store : (k : Key) → view name ≡ some k → keys_identical k update_key ≡ false → HeldByOther
    upstream :
        (ks : List Key)
        → view name ≡ none
        → answer query name ≡ some (key_present ks)
        → any_identical ks update_key ≡ false
        → HeldByOther

  -- A first claim of the name, with the prerequisite that the policy asks for.
  pub data FirstCome : Bool → Rr → Type 0 where
    unused :
        view name ≡ none
        → answer query name ≡ some nx_domain
        → FirstCome true (name_not_in_use name)
    without_key :
        view name ≡ none
        → (answer query name ≡ some nx_domain) ⊎ (answer query name ≡ some no_key)
        → FirstCome false (no_key_rrset name)

  abbrev pub Explains : Bool → Result FcfsError (FcfsResult × Option Rr) → Type 0
  Explains refuse (ok (proceed, none)) = Held
  Explains refuse (ok (proceed, some rr)) = FirstCome refuse rr
  Explains refuse (ok (conflict, pre)) = (pre ≡ none) × HeldByOther
  Explains refuse (ok (foreign_data, pre)) =
      (pre ≡ none) × (refuse ≡ true) × (view name ≡ none) × (answer query name ≡ some no_key)
  Explains refuse (err e) =
      (view name ≡ none) × ((answer query name ≡ none) ⊎ (answer query name ≡ some unknown_state))

  on_state-Explains :
      (s : AuthState) (refuse : Bool)
      → view name ≡ none
      → answer query name ≡ some s
      → Explains refuse (on_state s name update_key refuse)
  unfolding on_state
  on_state-Explains nx_domain true v h = unused v h
  on_state-Explains nx_domain false v h = without_key v (inl h)
  on_state-Explains no_key true v h = (refl, refl, v, h)
  on_state-Explains no_key false v h = without_key v (inr h)
  on_state-Explains unknown_state refuse v h = (v, inr h)
  on_state-Explains (key_present ks) refuse v h = elim (Bool-cases (any_identical ks update_key)) [
    | inl e ↦ rw e (Held.upstream ks v h e)
    | inr e ↦ rw e (refl, HeldByOther.upstream ks v h e)
  ]

  on_store-Explains :
      (o : Option Key) (q : Option (Option AuthState)) (refuse : Bool)
      → view name ≡ o
      → ((s : AuthState) → q ≡ some (some s) → answer query name ≡ some s)
      → (q ≡ none → answer query name ≡ none)
      → (q ≡ some none → answer query name ≡ none)
      → Explains refuse (on_store o q name update_key refuse)
  unfolding on_store on_query
  on_store-Explains (some k) q refuse v f g h = elim (Bool-cases (keys_identical k update_key)) [
    | inl e ↦ rw e (Held.in_store k v e)
    | inr e ↦ rw e (refl, HeldByOther.in_store k v e)
  ]
  on_store-Explains none none refuse v f g h = (v, inl (g refl))
  on_store-Explains none (some none) refuse v f g h = (v, inl (h refl))
  on_store-Explains none (some (some s)) refuse v f g h = on_state-Explains s refuse v (f s refl)

-- `Evaluate` follows the first-come, first-served table: a name proceeds without a prerequisite
-- only where the update's key already holds it, in the store or else upstream; it proceeds
-- with one only on a first claim, with "name is not in use" where foreign data is refused and
-- "no KEY at the name" otherwise; it conflicts only where only other keys hold it; and it
-- fails only where the store knows nothing and the authoritative server gave no usable answer.
pub evaluate-Explains :
    (view : Bytes → Option Key) (query : Query) (name : Bytes) (update_key : Key) (refuse : Bool)
    → Explains view query name update_key refuse (evaluate view query name (some update_key) refuse)
unfolding evaluate
evaluate-Explains view none name update_key refuse =
    on_store-Explains view none name update_key (view name) none refuse refl (λ s e. cc) (λ e. refl)
      (λ e. cc)
evaluate-Explains view (some q) name update_key refuse =
    on_store-Explains view (some q) name update_key (view name) (some (q name)) refuse refl
      (λ s e. ground (arith, e)) (λ e. cc) (λ e. ground (arith, e))

abbrev pub SameKeys : Key → List ServiceInstance → Type 0
SameKeys k [] = Unit
SameKeys k (inst ∷ insts) =
    ((l : Key) → inst.key ≡ some l → keys_identical k l ≡ true) × SameKeys k insts

keys_identical_refl : (k : Key) → keys_identical k k ≡ true
unfolding keys_identical
keys_identical_refl k =
    ground (arith, ==_refl k.algorithm, ==_refl k.protocol, same_refl k.public_key)

inherited :
    (k : Key) (name : Bytes)
    → keys_identical k (record k { hdr = record (k.hdr) { name = name } }) ≡ true
unfolding keys_identical
inherited k name = ground (arith, ==_refl k.algorithm, ==_refl k.protocol, same_refl k.public_key)

own_or_host-some :
    (o : Option Key) (k : Key) (name : Bytes)
    → ((l : Key) → o ≡ some l → keys_identical k l ≡ true)
    → (l : Key) × (own_or_host o (some k) name ≡ some l) × (keys_identical k l ≡ true)
unfolding own_or_host key_at_name
own_or_host-some (some l) k name f = (l, refl, f l refl)
own_or_host-some none k name f =
    (record k { hdr = record (k.hdr) { name = name } }, refl, inherited k name)

key_in-some :
    (insts : List ServiceInstance) (k : Key) (name : Bytes)
    → SameKeys k insts
    → member name (instance_names insts) ≡ true
    → (l : Key) × (key_in insts (some k) name ≡ some l) × (keys_identical k l ≡ true)
unfolding key_in instance_names member
key_in-some [] k name f h = cc
key_in-some (inst ∷ insts) k name f h = elim (Bool-cases (same inst.name name)) [
  | inl e ↦ rw e (own_or_host-some inst.key k inst.delete.hdr.name f.0)
  | inr e ↦ rw e (key_in-some insts k name f.1 (rw e at h))
]

-- For each name that is checked, the host's and each instance's, `KeyFor` returns a KEY without
-- panicking, and one with the key material of the host's KEY, where all KEYs of the update have it.
pub key_for-names :
    (cu : ClassifiedUpdate) (k : Key) (name : Bytes)
    → cu.host.key ≡ some k
    → SameKeys k cu.instances
    → member name (names cu) ≡ true
    → (l : Key) × (key_for cu name ≡ some l) × (keys_identical k l ≡ true)
unfolding key_for names member
key_for-names cu k name hk f h = elim (Bool-cases (same name cu.host.name)) [
  | inl e ↦ rw e (k, hk, keys_identical_refl k)
  | inr e ↦
      let ne : same cu.host.name name ≡ false =
        same_ne cu.host.name name
          (λ q. ground (arith, e, (same_iff name cu.host.name).1 (sym q))) in
      let found = key_in-some cu.instances k name f (rw ne at h) in rw (e, hk) found
]
