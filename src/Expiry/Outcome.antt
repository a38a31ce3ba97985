-- ===== src/Expiry/Outcome.antt =====
-- One lease event as a whole: it forgets nothing that it has not deleted upstream.
use sig0lease.Base.{
  ℕ, ◌≤◌, ◌<◌, ◌≡◌, refl, ap, ◌∙◌, subst, inl, inr, Bool, true, false, not, ◌&&◌, Option, none,
  some, List, [], map, arith, if◌then◌else◌, Bool-cases, All, Bytes, get, member, Result, ok, err,
}
use sig0lease.Name.{normalize}
use sig0lease.Dns.{Rr, DnsLibrary}
use sig0lease.NodeKey.{node_key}
use sig0lease.NodeKey.Parse.{node_key_from_sig-nonempty}
use sig0lease.Store.{Record, NonKeyRecord, LeaseStore, StoreError, is_expired, get_record}
use sig0lease.Store.Edges.{edge}
use sig0lease.Store.Invariant.{IsWellFormed}
use sig0lease.Store.Subtree.{delete_subtree, list_subtree_keys}
use sig0lease.Store.Subtree.Traversal.{here, child}
use sig0lease.Store.Subtree.Exact.{
  DeletedExactly, DeleteOutcome, delete_subtree-Outcome, delete_subtree-IsWellFormed,
}
use sig0lease.Expiry.{ExpiryTimers, finish}
use sig0lease.Expiry.Events.{
  DueRecord, Due, Ended, panics, ends, own_records, cascaded, due_by, key_is_due, is_nothing,
  deletes_of, disarm_all, remove_due, is_live, forgotten, forget, expire_due, expire,
}
use sig0lease.Expiry.Due.{IsOwn, due_by-IsOwn, HasNormalOwners, In-own_records}
use sig0lease.Expiry.Forgetting.{IsOwn-if_there, DueGone, remove_due-DueGone}
use sig0lease.Expiry.Confirmed.{GoneAsSent, DueGone-as_sent, subtree-as_sent}
use sig0lease.Expiry.Selected.{
  due_time, IsDueOwn, own_records-IsDueOwn, member-due, In-member, cascaded-In, cascaded-off,
  finish-failures,
}

-- The store after an event that removed something. `sent` are the instructions of the UPDATE.
pub record EventDone (lib : DnsLibrary) (data_cascade : Bool) (started : ℕ) (node : Bytes)
    (sent : List Rr) (st st' : LeaseStore) : Type 0 where
  pub well_formed : IsWellFormed lib st'
  pub as_sent : GoneAsSent sent st st'
  pub key_over :
      key_is_due started (get_record node st) ≡ true → DeletedExactly (normalize node) st st'
  pub keys_kept : key_is_due started (get_record node st) ≡ false → st'.leases ≡ st.leases
  pub data_over :
      (id : Bytes) (e : NonKeyRecord)
      → get id st.non_key_records ≡ some e
      → edge st.children (normalize node) id ≡ true
      → e.expires_at ≤ started
      → get id st'.non_key_records ≡ none
  pub not_early :
      data_cascade ≡ false
      → key_is_due started (get_record node st) ≡ false
      → (id : Bytes) (e : NonKeyRecord) → get id st.non_key_records ≡ some e
      → get id st'.non_key_records ≡ none
      → e.expires_at ≤ started

abbrev pub EventOutcome :
    DnsLibrary → (List Rr → Bool) → Bool → ℕ → Bytes → LeaseStore → Ended → Type 0
EventOutcome lib send data_cascade started node st panics = ⊥
EventOutcome lib send data_cascade started node st (ends st' t' removed) =
    let d = due_by data_cascade started st node in
    (removed ≡ (not (is_nothing d) && send (deletes_of d)))
    × (removed ≡ false → st' ≡ st)
    × (removed ≡ true → EventDone lib data_cascade started node (deletes_of d) st st')

module _ (lib : DnsLibrary) (data_cascade : Bool) (started finished : ℕ) (node : Bytes)
    (st : LeaseStore) (w : IsWellFormed lib st) (normal : HasNormalOwners st)
    (later : started < finished) where
  root_there : (o : Option Record) → key_is_due started o ≡ true → (r : Record) × (o ≡ some r)
  unfolding key_is_due
  root_there none h = cc
  root_there (some r) h = (r, refl)

  not_live : (o : Option Record) → key_is_due started o ≡ true → is_live finished o ≡ false
  unfolding key_is_due is_live is_expired
  not_live none h = refl
  not_live (some r) h = ground arith

  -- The KEY has expired: its subtree goes.
  subtree_done :
      key_is_due started (get_record node st) ≡ true
      → (st' : LeaseStore) × (delete_subtree node st ≡ ok st')
        × EventDone lib data_cascade started node
            (deletes_of (due_by data_cascade started st node))
            st
            st'
  unfolding deletes_of due_by get_record node_key
  subtree_done due =
      let (r, h) = root_there (get_record node st) due in
      go r h (delete_subtree node st) refl (delete_subtree-Outcome lib node st w)
    where
      go :
          (r : Record)
          → get (normalize node) st.leases ≡ some r
          → (res : Result StoreError LeaseStore) → delete_subtree node st ≡ res
          → DeleteOutcome (normalize node) st res
          → (st' : LeaseStore) × (res ≡ ok st')
            × EventDone lib data_cascade started node
                (deletes_of (due_by data_cascade started st node))
                st
                st'
      go r h (err e) q (_, bad) =
          absurd (node_key_from_sig-nonempty _ _ _ ((w.keyed _ r h).node ∙ bad))
      go r h (ok st') q d = (
        st',
        refl,
        rw due (record {
          well_formed = delete_subtree-IsWellFormed lib node st st' w q;
          as_sent = subtree-as_sent lib node st w normal r st' h d;
          key_over = λ _. d;
          keys_kept = λ alive. absurd (cc (due, alive));
          data_over = λ id e at_id m _. (d.gone id (child id here m)).1;
          not_early = λ _ alive. absurd (cc (due, alive));
        }),
      )

  own_done :
      key_is_due started (get_record node st) ≡ false
      → (st' : LeaseStore) × (remove_due (due_by data_cascade started st node).records st ≡ ok st')
        × EventDone lib data_cascade started node
            (deletes_of (due_by data_cascade started st node))
            st
            st'
  unfolding deletes_of due_by
  own_done alive =
      let rs = cascaded st data_cascade node (own_records st node (some started)) in
      let same_records : (due_by data_cascade started st node).records ≡ rs = rw alive refl in
      let own : All (IsOwn st) rs =
        subst (All (IsOwn st)) same_records (due_by-IsOwn lib st w data_cascade started node) in
      let (st', removed, w', gone) = remove_due-DueGone lib rs st w (IsOwn-if_there st rs own) in
      (
        st',
        rw alive removed,
        rw alive (record {
          well_formed = w';
          as_sent = DueGone-as_sent st st' [] rs own gone;
          key_over = λ due. absurd (cc (due, alive));
          keys_kept = λ _. gone.leases;
          data_over = λ id e h m l.
              gone.records id
              ∙ ap (λ (b : Bool). if b then none else get id st.non_key_records)
                  (In-member _ rs (
                    cascaded-In st data_cascade node _ _ (
                      In-own_records lib st w node (some started) id e m h
                        ((due_time started e).1 l))));
          not_early = λ off _ id e h g. early rs (own_only off) gone id e h g;
        }),
      )
    where
      own_only :
          data_cascade ≡ false
          → All
              (IsDueOwn started st)
              (cascaded st data_cascade node (own_records st node (some started)))
      own_only off =
          rw (off, cascaded-off st node (own_records st node (some started)))
            (own_records-IsDueOwn started st node)

      early :
          (rs : List DueRecord) {st' : LeaseStore}
          → All (IsDueOwn started st) rs
          → DueGone rs st st'
          → (id : Bytes) (e : NonKeyRecord) → get id st.non_key_records ≡ some e
          → get id st'.non_key_records ≡ none
          → e.expires_at ≤ started
      early rs all gone id e h g = elim (Bool-cases (member id (map (λ r. r.rr_key) rs))) [
        | inl m ↦ member-due started st rs id e all h m
        | inr m ↦ absurd (cc (rw m at (gone.records id), h, g))
      ]

  -- What is due can be forgotten, and the run of failures is over.
  pub forget_done :
      (t : ExpiryTimers)
      → (st' : LeaseStore) × (t' : ExpiryTimers) × (forget finished node
            (due_by data_cascade started st node)
            st
            t
          ≡ ends st' t' true)
        × EventDone lib data_cascade started node
            (deletes_of (due_by data_cascade started st node))
            st
            st'
        × (get node t'.failures ≡ none)
  unfolding forget forgotten
  forget_done t = elim (Bool-cases (key_is_due started (get_record node st))) [
    | inl due ↦
        let (st', deleted, done) = subtree_done due in
        let t' = (finish finished st' node true (disarm_all (list_subtree_keys node st) t)).0 in
        let over : (due_by data_cascade started st node).key_expired ≡ true =
          unfold due_by in rw due refl in
        (
          st',
          t',
          rw (over, not_live (get_record node st) due, deleted) refl,
          done,
          finish-failures finished st' node (disarm_all (list_subtree_keys node st) t),
        )
    | inr alive ↦
        let (st', removed, done) = own_done alive in
        let t' = (finish finished st' node true t).0 in
        let going_on : (due_by data_cascade started st node).key_expired ≡ false =
          unfold due_by in rw alive refl in
        (st', t', rw (going_on, removed) refl, done, finish-failures finished st' node t)
  ]

  -- A lease event, on a well-formed store that names owners in normal form, that does not change
  -- while the event waits for the upstream server, and at a later time after the wait than before
  -- it: it never panics, and it removes something exactly if something is due and the UPDATE is
  -- confirmed; otherwise the store is as it was.
  pub expire-EventOutcome :
      (send : List Rr → Bool) (t : ExpiryTimers)
      → EventOutcome lib send data_cascade started node st
          (expire send data_cascade started finished node st t)
  unfolding expire expire_due
  expire-EventOutcome send t = go (is_nothing d) (send (deletes_of d)) refl refl
    where
      d : Due
      d = due_by data_cascade started st node

      go :
          (nothing confirmed : Bool)
          → is_nothing d ≡ nothing
          → send (deletes_of d) ≡ confirmed
          → EventOutcome lib send data_cascade started node st (
              if nothing
              then ends st (finish finished st node true t).0 false
              else if confirmed
              then forget finished node d st t
              else ends st (finish finished st node false t).0 false)
      go true c n h = (rw n refl, λ _. refl, λ q. cc)
      go false false n h = (rw (n, h) refl, λ _. refl, λ q. cc)
      go false true n h =
          let (st', t', eq, done, cleared) = forget_done t in
          rw eq (rw (n, h) refl, λ q. cc, λ _. done)
