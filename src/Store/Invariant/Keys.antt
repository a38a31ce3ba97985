-- ===== src/Store/Invariant/Keys.antt =====
-- Registering and renewing a KEY keep the invariant.
use sig0lease.Base.{
  ℕ, ◌≡◌, refl, sym, ap, ◌∙◌, subst, ◌≢◌, ◌⊎◌, inl, inr, true, false, not, ◌&&◌, ◌||◌, Option, none,
  some, [], ◌∷◌, ◌++◌, arith, if◌then◌else◌, Bool-cases, Bytes, same, same_iff, empty, get, put,
  get-put, member, member-append, ok, err, is_some,
}
use mathlib.Core.Path.{ap₂}
use sig0lease.Name.{normalize}
use sig0lease.Dns.{Key, DnsLibrary}
use sig0lease.NodeKey.{node_key}
use sig0lease.Store.{
  Record, LeaseStore, StoreError, values, index_node, put_record, stored_parent, new_record,
  register_with_parent, attach_node, detach_node, call_hook, register_op,
}
use sig0lease.Store.Edges.{edge, is_link, edge-attach, edge-detach, edge-put}
use sig0lease.Store.Invariant.{IsWellFormed, IsKeyed, IsKeyed-name, is_child_of, is_named, at_put}

member_one : (n node : Bytes) → member n (node ∷ []) ≡ (same node n || false)
unfolding member
member_one n node = refl

module _ (lib : DnsLibrary) (node : Bytes) (r : Record) (st : LeaseStore) where
  -- A keyed record in place of another, or as a new node.
  put_record-IsWellFormed :
      IsWellFormed lib st
      → IsKeyed lib node r
      → get node st.non_key_records ≡ none
      → IsWellFormed lib (put_record node r st)
  unfolding put_record index_node call_hook
  put_record-IsWellFormed w k apart = go (get node st.leases) refl
    where
      keyed_after :
          (n : Bytes) (s : Record) → get n (put node r st.leases) ≡ some s → IsKeyed lib n s
      keyed_after n s h = pick (Bool-cases (same node n)) (sym (get-put node r st.leases n) ∙ h)
        where
          pick :
              (same node n ≡ true) ⊎ (same node n ≡ false)
              → (if same node n then some r else get n st.leases) ≡ some s
              → IsKeyed lib n s
          pick (inl e) q =
              let is_r : some r ≡ some s = rw e at q in
              let at_n : IsKeyed lib n r = subst (λ m. IsKeyed lib m r) ((same_iff node n).0 e) k in
              subst (IsKeyed lib n) (ground arith) at_n
          pick (inr e) q = w.keyed n s (rw e at q)

      disjoint_after :
          (n : Bytes)
          → (is_some (get n (put node r st.leases)) && is_some (get n st.non_key_records)) ≡ false
      disjoint_after n =
          ap (λ b. b && is_some (get n st.non_key_records)) (at_put is_some node r st.leases n)
          ∙ pick (Bool-cases (same node n))
        where
          pick :
              (same node n ≡ true) ⊎ (same node n ≡ false)
              → ((if same node n then true else is_some (get n st.leases))
                  && is_some (get n st.non_key_records))
                ≡ false
          pick (inl e) = rw e (
              ap (λ m. is_some (get m st.non_key_records)) (sym ((same_iff node n).0 e))
              ∙ ap is_some apart)
          pick (inr e) = rw e (w.disjoint n)

      child_after :
          (p c : Bytes)
          → is_child_of p (get c (put node r st.leases)) (get c st.non_key_records)
            ≡ (if same node c then is_link r.parent_key_name p else edge st.children p c)
      child_after p c =
          at_put (λ o. is_child_of p o (get c st.non_key_records)) node r st.leases c
          ∙ ap (λ b. if same node c then is_link r.parent_key_name p else b) (sym (w.edges p c))

      at_node : {A : Type 0} (f : Bytes → A) {c : Bytes} → same node c ≡ true → f c ≡ f node
      at_node f {c} e = ap f (sym ((same_iff node c).0 e))

      fresh_edge :
          (p c : Bytes)
          → get node st.leases ≡ none
          → ((is_link r.parent_key_name p && same node c) || edge st.children p c)
            ≡ (if same node c then is_link r.parent_key_name p else edge st.children p c)
      fresh_edge p c h = elim (Bool-cases (same node c)) [
        | inl e ↦
            let no_edge : edge st.children p c ≡ false =
              at_node (edge st.children p) e
              ∙ w.edges p node
              ∙ ap₂ (λ o nk. is_child_of p o nk) h apart in
            rw (e, no_edge) (ground arith)
        | inr e ↦ rw e (ground arith)
      ]

      moved_edge :
          (p c : Bytes) (old : Record)
          → get node st.leases ≡ some old
          → ((is_link r.parent_key_name p && same node c)
              || (not (is_link old.parent_key_name p && same node c) && edge st.children p c))
            ≡ (if same node c then is_link r.parent_key_name p else edge st.children p c)
      moved_edge p c old h = elim (Bool-cases (same node c)) [
        | inl e ↦
            let old_edge : edge st.children p c ≡ is_link old.parent_key_name p =
              at_node (edge st.children p) e
              ∙ w.edges p node
              ∙ ap (λ o. is_child_of p o (get node st.non_key_records)) h in
            rw (e, old_edge) (ground arith)
        | inr e ↦ rw e (ground arith)
      ]

      named_after :
          (name n : Bytes)
          → is_named name (get n (put node r st.leases))
            ≡ (if same node n then same r.key_name name else edge st.name_idx name n)
      named_after name n =
          at_put (is_named name) node r st.leases n
          ∙ ap (λ b. if same node n then same r.key_name name else b) (sym (w.names name n))

      fresh_name :
          (name n : Bytes)
          → get node st.leases ≡ none
          → (if same r.key_name name
              then member n (values r.key_name st.name_idx ++ (node ∷ []))
              else edge st.name_idx name n)
            ≡ (if same node n then same r.key_name name else edge st.name_idx name n)
      fresh_name name n h =
          let listed = member-append n (values r.key_name st.name_idx) (node ∷ []) in
          let none_yet : same node n ≡ true → edge st.name_idx name n ≡ false =
            λ e. at_node (edge st.name_idx name) e ∙ w.names name node ∙ ap (is_named name) h in
          elim (Bool-cases (same r.key_name name)) [
            | inl e ↦
                let its_list : edge st.name_idx r.key_name n ≡ edge st.name_idx name n =
                  ap (λ k. edge st.name_idx k n) ((same_iff r.key_name name).0 e) in
                rw (e, listed, its_list) (ground (arith, member_one n node))
            | inr e ↦ rw e (ground (arith, none_yet))
          ]

      kept_name :
          (name n : Bytes) (old : Record)
          → get node st.leases ≡ some old
          → edge st.name_idx name n
            ≡ (if same node n then same r.key_name name else edge st.name_idx name n)
      kept_name name n old h = elim (Bool-cases (same node n)) [
        | inl e ↦ rw e (
            at_node (edge st.name_idx name) e
            ∙ w.names name node
            ∙ ap (is_named name) h
            ∙ ap (λ k. same k name)
                (IsKeyed-name lib node old r (w.keyed node old h) k.node ∙ sym k.name))
        | inr e ↦ rw e refl
      ]

      go :
          (o : Option Record)
          → get node st.leases ≡ o
          → IsWellFormed lib (
              let indexed = index_node o node r.key_name st in
              call_hook register_op r (record indexed {
                leases = put node r indexed.leases;
                children = attach_node node r.parent_key_name indexed.children;
              }))
      go none h = record {
        keyed = keyed_after;
        edges = λ p c.
            edge-attach node r.parent_key_name st.children p c
            ∙ fresh_edge p c h
            ∙ sym (child_after p c);
        names = λ name n.
            edge-put r.key_name (values r.key_name st.name_idx ++ (node ∷ [])) st.name_idx name n
            ∙ fresh_name name n h
            ∙ sym (named_after name n);
        disjoint = disjoint_after;
      }
      go (some old) h = record {
        keyed = keyed_after;
        edges = λ p c.
            edge-attach node r.parent_key_name (detach_node node old.parent_key_name st.children) p
              c
            ∙ ap (λ b. (is_link r.parent_key_name p && same node c) || b)
                (edge-detach node old.parent_key_name st.children p c)
            ∙ moved_edge p c old h
            ∙ sym (child_after p c);
        names = λ name n. kept_name name n old h ∙ sym (named_after name n);
        disjoint = disjoint_after;
      }

module _ (lib : DnsLibrary) (now : ℕ) where
  nonempty : (s : Bytes) → empty s ≡ false → s ≢ []
  unfolding empty
  nonempty [] h = cc
  nonempty (c ∷ s) h = λ q. cc

  -- Registering a KEY, new or not, under any parent keeps the store well-formed, unless a non-KEY
  -- record has the KEY's node key for its identity.
  pub register_with_parent-IsWellFormed :
      (parent : Bytes) (k : Key) (lease_duration key_lease_duration : ℕ) (zone : Bytes)
      (st st' : LeaseStore)
      → IsWellFormed lib st
      → get (node_key lib k) st.non_key_records ≡ none
      → register_with_parent lib now parent (some k) lease_duration key_lease_duration zone st
        ≡ ok st'
      → IsWellFormed lib st'
  unfolding register_with_parent new_record
  register_with_parent-IsWellFormed parent k lease_duration key_lease_duration zone st st' w apart
        h =
      let node = node_key lib k in
      let p = stored_parent parent node in
      let r = new_record now k p lease_duration key_lease_duration zone in
      elim (Bool-cases (empty (normalize k.hdr.name))) [
        | inl e ↦ let bad : err StoreError.key_name_empty ≡ ok st' = rw e at h in cc
        | inr e ↦
            let keyed : IsKeyed lib node r = record {
              node = refl;
              name = refl;
              nonempty = nonempty (normalize k.hdr.name) e;
            } in
            let w' : IsWellFormed lib (put_record node r st) =
              put_record-IsWellFormed lib node r st w keyed apart in
            subst (IsWellFormed lib) (ground arith) w'
      ]
