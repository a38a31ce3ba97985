-- ===== src/UpdateHandler/Applying.antt =====
-- The store after a request, whatever it asks for and whatever fails on the way.
use sig0lease.Base.{
  ℕ, ◌≡◌, refl, inl, inr, Bool, true, false, not, ◌||◌, some, List, [], ◌∷◌, map, if◌then◌else◌,
  Bool-cases, All, Bytes, Result, ok, err,
}
use sig0lease.Store.NonKey.{upsert_non_key_records}
use sig0lease.Dns.{Key, Rr, DnsLibrary}
use sig0lease.NodeKey.{node_key}
use sig0lease.Store.{LeaseStore, StoreError}
use sig0lease.Store.Identities.{
  IsApart, IsIdentified, Shrunk, register_with_parent-IsIdentified, renew_lease-IsIdentified,
  upsert_non_key_records-IsIdentified,
}
use sig0lease.Expiry.{ExpiryTimers}
use sig0lease.UpdateHandler.{
  Sig, UpdateHandler, Mutation, registers, refreshes, adds, restores, key_only,
}
use sig0lease.UpdateHandler.Cases.{is_nil}
use sig0lease.UpdateHandler.Changes.{
  Applied, panics, fails, applies, then_apply, store_result, must, register_key_lease, renew_key,
  register_key, written, upsert, upsert_if, schedule_node, apply, apply_each,
}
use sig0lease.UpdateHandler.Removing.{AllOwn, AllOwn-Shrunk, remove_records-IsIdentified}

-- What holds of the store, after a change that is made and after one that fails.
abbrev pub Leaves : (LeaseStore → Type 0) → Applied → Type 0
Leaves P panics = ⊥
Leaves P (fails st t) = P st
Leaves P (applies st t) = P st

then_apply-Leaves :
    (P : LeaseStore → Type 0) (a : Applied) (next : LeaseStore → ExpiryTimers → Applied)
    → Leaves P a
    → ((st : LeaseStore) (t : ExpiryTimers) → P st → Leaves P (next st t))
    → Leaves P (then_apply a next)
unfolding then_apply
then_apply-Leaves P panics next l f = l
then_apply-Leaves P (fails st t) next l f = l
then_apply-Leaves P (applies st t) next l f = f st t l

store_result-Leaves :
    (P : LeaseStore → Type 0) (st : LeaseStore) (t : ExpiryTimers)
    (r : Result StoreError LeaseStore)
    → P st
    → ((st' : LeaseStore) → r ≡ ok st' → P st')
    → Leaves P (store_result st t r)
unfolding store_result
store_result-Leaves P st t (err e) p f = p
store_result-Leaves P st t (ok st') p f = f st' refl

-- A change that removes no record by itself, and one that only does that.
abbrev pub IsWriting : Mutation → Type 0
IsWriting (registers k l rrs) = Unit
IsWriting (refreshes always k l rrs) = Unit
IsWriting (adds node rrs) = Unit
IsWriting (restores k l) = Unit
IsWriting (key_only is_refresh k l rrs) = ⊥

abbrev pub IsTrimming : DnsLibrary → LeaseStore → Mutation → Type 0
IsTrimming lib st (registers k l rrs) = ⊥
IsTrimming lib st (refreshes always k l rrs) = ⊥
IsTrimming lib st (adds node rrs) = ⊥
IsTrimming lib st (restores k l) = ⊥
IsTrimming lib st (key_only is_refresh k l rrs) = AllOwn lib st (node_key lib k) rrs

module _ (lib : DnsLibrary) (apart : IsApart lib) (h : UpdateHandler) (now : ℕ) (sig : Sig)
    (lease : ℕ) where
  renew_key-Leaves :
      (old : LeaseStore) (k : Key) (l : ℕ) (st : LeaseStore) (t : ExpiryTimers)
      → IsIdentified lib st × Shrunk old st
      → Leaves (λ s. IsIdentified lib s × Shrunk old s) (renew_key lib h now sig lease k l st t)
  unfolding renew_key
  renew_key-Leaves old k l st t (i, s) =
      store_result-Leaves (λ s. IsIdentified lib s × Shrunk old s) st t _ (i, s)
        λ st' q.
          let (i', s') = renew_lease-IsIdentified lib apart st i now st' k l l q in
          (i', λ id e g. s id e (s' id e g))

  register_key-Leaves :
      (old : LeaseStore) (k : Key) (l : ℕ) (st : LeaseStore) (t : ExpiryTimers)
      → IsIdentified lib st × Shrunk old st
      → Leaves (λ s. IsIdentified lib s × Shrunk old s) (register_key lib h now sig lease k l st t)
  unfolding register_key register_key_lease
  register_key-Leaves old k l st t (i, s) =
      store_result-Leaves (λ s. IsIdentified lib s × Shrunk old s) st t _ (i, s)
        λ st' q.
          let (i', s') = register_with_parent-IsIdentified lib apart st i now st' _ k l l _ q in
          (i', λ id e g. s id e (s' id e g))

  forget_old :
      (old : LeaseStore) (a : Applied)
      → Leaves (λ s. IsIdentified lib s × Shrunk old s) a
      → Leaves (IsIdentified lib) a
  forget_old old panics l = l
  forget_old old (fails st t) l = l.0
  forget_old old (applies st t) l = l.0

  upsert-Leaves :
      (node : Bytes) (rrs : List Rr) (st : LeaseStore) (t : ExpiryTimers)
      → IsIdentified lib st
      → Leaves (IsIdentified lib) (upsert lib h now sig lease node rrs st t)
  unfolding upsert written
  upsert-Leaves node rrs st t i =
      go (upsert_non_key_records lib now node (map (λ rr. some rr) rrs) lease h.upstream_zone st)
        (upsert_non_key_records-IsIdentified lib apart st i now node _ lease _)
    where
      go :
          (r : Result StoreError (Unit {0}) × LeaseStore)
          → IsIdentified lib r.1
          → Leaves (IsIdentified lib) (written t r)
      go (err e, st') w = w
      go (ok u, st') w = w

  upsert_if-Leaves :
      (always : Bool) (node : Bytes) (rrs : List Rr) (st : LeaseStore) (t : ExpiryTimers)
      → IsIdentified lib st
      → Leaves (IsIdentified lib) (upsert_if lib h now sig lease always node rrs st t)
  unfolding upsert_if
  upsert_if-Leaves always node rrs st t i = elim (Bool-cases (always || not (is_nil rrs))) [
    | inl e ↦ rw e (upsert-Leaves node rrs st t i)
    | inr e ↦ rw e i
  ]

  writing-Leaves :
      (m : Mutation) (st : LeaseStore) (t : ExpiryTimers)
      → IsWriting m
      → IsIdentified lib st
      → Leaves (IsIdentified lib) (apply lib h now sig lease m st t)
  unfolding apply schedule_node
  writing-Leaves (registers k l rrs) st t u i =
      then_apply-Leaves (IsIdentified lib) _ _
        (forget_old st _ (register_key-Leaves st k l st t (i, λ id e g. g)))
        λ st1 t1 i1.
          then_apply-Leaves (IsIdentified lib) _ _
            (upsert_if-Leaves false (node_key lib k) rrs st1 t1 i1) λ st2 t2 i2. i2
  writing-Leaves (refreshes always k l rrs) st t u i =
      then_apply-Leaves (IsIdentified lib) _ _
        (forget_old st _ (renew_key-Leaves st k l st t (i, λ id e g. g)))
        λ st1 t1 i1.
          then_apply-Leaves (IsIdentified lib) _ _
            (upsert_if-Leaves always (node_key lib k) rrs st1 t1 i1) λ st2 t2 i2. i2
  writing-Leaves (adds node rrs) st t u i =
      then_apply-Leaves (IsIdentified lib) _ _ (upsert-Leaves node rrs st t i) λ st1 t1 i1. i1
  writing-Leaves (restores k l) st t u i =
      forget_old st _ (renew_key-Leaves st k l st t (i, λ id e g. g))
  writing-Leaves (key_only is_refresh k l rrs) st t u i = absurd u

  trimming-Leaves :
      (old : LeaseStore) (m : Mutation) (st : LeaseStore) (t : ExpiryTimers)
      → IsTrimming lib old m
      → IsIdentified lib st × Shrunk old st
      → Leaves (λ s. IsIdentified lib s × Shrunk old s) (apply lib h now sig lease m st t)
  unfolding apply schedule_node must then_apply
  trimming-Leaves old (registers k l rrs) st t own i = absurd own
  trimming-Leaves old (refreshes always k l rrs) st t own i = absurd own
  trimming-Leaves old (adds node rrs) st t own i = absurd own
  trimming-Leaves old (restores k l) st t own i = absurd own
  trimming-Leaves old (key_only is_refresh k l rrs) st t own i =
      then_apply-Leaves (λ s. IsIdentified lib s × Shrunk old s) _ _ (key is_refresh)
        λ st1 t1 (i1, s1).
          let (st2, q, i2, s2) =
            remove_records-IsIdentified lib (node_key lib k) rrs st1 i1
              (AllOwn-Shrunk lib (node_key lib k) rrs old st1 s1 own) in
          rw q (i2, λ id e g. s1 id e (s2 id e g))
    where
      key :
          (b : Bool)
          → Leaves
              (λ s. IsIdentified lib s × Shrunk old s)
              (if b
                then renew_key lib h now sig lease k l st t
                else register_key lib h now sig lease k l st t)
      key true = renew_key-Leaves old k l st t i
      key false = register_key-Leaves old k l st t i

  module _ (P : LeaseStore → Type 0) (Q : Mutation → Type 0)
      (one : (m : Mutation) (st : LeaseStore) (t : ExpiryTimers)
        → Q m
        → P st
        → Leaves P (apply lib h now sig lease m st t)) where
    pub apply_each-Leaves :
        (ms : List Mutation) (st : LeaseStore) (t : ExpiryTimers)
        → All Q ms
        → P st
        → Leaves P (apply_each lib h now sig lease ms st t)
    unfolding apply_each
    apply_each-Leaves [] st t all p = p
    apply_each-Leaves (m ∷ ms) st t all p =
        then_apply-Leaves P (apply lib h now sig lease m st t) _ (one m st t all.0 p)
          λ st1 t1 p1. apply_each-Leaves ms st1 t1 all.1 p1

  -- Changes of one kind leave the store in order, and none of them panics.
  pub writing_each :
      (ms : List Mutation) (st : LeaseStore) (t : ExpiryTimers)
      → All IsWriting ms
      → IsIdentified lib st
      → Leaves (IsIdentified lib) (apply_each lib h now sig lease ms st t)
  writing_each = apply_each-Leaves (IsIdentified lib) IsWriting writing-Leaves

  pub trimming_each :
      (ms : List Mutation) (st : LeaseStore) (t : ExpiryTimers)
      → All (IsTrimming lib st) ms
      → IsIdentified lib st
      → Leaves (IsIdentified lib) (apply_each lib h now sig lease ms st t)
  trimming_each ms st t all i = forget_old st _ (
      apply_each-Leaves (λ s. IsIdentified lib s × Shrunk st s) (IsTrimming lib st)
        (trimming-Leaves st) ms st t all (i, λ id e g. g))
