-- ===== src/Store/Subtree/Removal.antt =====
-- Deleting a subtree removes exactly the nodes of the subtree.
use sig0lease.Base.{
  ◌≡◌, refl, sym, ap, ◌∙◌, ◌⊎◌, inl, inr, Bool, true, false, not, ◌&&◌, ◌||◌, Option, none, some,
  List, [], ◌∷◌, if◌then◌else◌, Bool-cases, Bytes, same, same_iff, Assoc, get, member, is_some,
}
use mathlib.Core.Path.{ap₂}
use sig0lease.Dns.{DnsLibrary}
use sig0lease.Store.{Record, NonKeyRecord, LeaseStore}
use sig0lease.Store.Edges.{edge}
use sig0lease.Store.Invariant.{is_child_of, is_named}
use sig0lease.Store.Subtree.{delete_one, delete_each}
use sig0lease.Store.Subtree.Deletion.{IsWellFormedBut, Without, Removed, delete_one-Removed}

some_of_if :
    (b : Bool) {A : Type 0} (x : Option A) {a : A} → (if b then none else x) ≡ some a → x ≡ some a
some_of_if true x h = cc
some_of_if false x h = h

if_apart :
    (b : Bool) (o : Option Record) (nk : Option NonKeyRecord)
    → (is_some o && is_some nk) ≡ false
    → (is_some (if b then none else o) && is_some (if b then none else nk)) ≡ false
if_apart true o nk h = refl
if_apart false o nk h = h

same-at : (n c : Bytes) {A : Type 0} (f : Bytes → A) → same n c ≡ true → f c ≡ f n
same-at n c f e = ap f (sym ((same_iff n c).0 e))

-- One node more has gone.
Removed-But :
    (lib : DnsLibrary) (n : Bytes) (st st' : LeaseStore) (gone : Bytes → Bool)
    → IsWellFormedBut lib gone st
    → Removed lib n st st'
    → IsWellFormedBut lib (λ p. same n p || gone p) st'
Removed-But lib n st st' gone w x = record {
  keyed = λ j r h. w.keyed j r (some_of_if (same n j) (get j st.leases) (sym (x.leases j) ∙ h));
  edges = λ p c.
      x.edges p c
      ∙ edge_split p c (Bool-cases (same n c))
      ∙ ap₂ (λ o nk. not (same n p || gone p) && is_child_of p o nk) (sym (x.leases c))
          (sym (x.records c));
  names = λ name j.
      x.names name j
      ∙ name_split name j (Bool-cases (same n j))
      ∙ ap (is_named name) (sym (x.leases j));
  disjoint = λ j.
      ap₂ (λ o nk. is_some o && is_some nk) (x.leases j) (x.records j)
      ∙ if_apart (same n j) (get j st.leases) (get j st.non_key_records) (w.disjoint j);
}
  where
    three : (a b y : Bool) → (not a && (not y && (not b && y))) ≡ (not (a || b) && false)
    three true b y = refl
    three false true true = refl
    three false true false = refl
    three false false true = refl
    three false false false = refl

    two : (a b y : Bool) → (not a && (not b && y)) ≡ (not (a || b) && y)
    two true b y = refl
    two false b y = refl

    edge_split :
        (p c : Bytes)
        → (same n c ≡ true) ⊎ (same n c ≡ false)
        → (not (same n p)
            && (not (same n c && is_child_of p (get n st.leases) (get n st.non_key_records))
                && edge st.children p c))
          ≡ (not (same n p || gone p)
              && is_child_of p
                  (if same n c then none else get c st.leases)
                  (if same n c then none else get c st.non_key_records))
    edge_split p c (inl e) =
        rw (e, same-at n c (edge st.children p) e, w.edges p n)
          (three (same n p) (gone p) (is_child_of p (get n st.leases) (get n st.non_key_records)))
    edge_split p c (inr e) =
        rw (e, w.edges p c)
          (two (same n p) (gone p) (is_child_of p (get c st.leases) (get c st.non_key_records)))

    not_self : (y : Bool) → (not (y && true) && y) ≡ false
    not_self true = refl
    not_self false = refl

    and_false : (y z : Bool) → (not (y && false) && z) ≡ z
    and_false true z = refl
    and_false false z = refl

    name_split :
        (name j : Bytes)
        → (same n j ≡ true) ⊎ (same n j ≡ false)
        → (not (is_named name (get n st.leases) && same n j) && edge st.name_idx name j)
          ≡ is_named name (if same n j then none else get j st.leases)
    name_split name j (inl e) =
        rw (e, same-at n j (edge st.name_idx name) e, w.names name n)
          (not_self (is_named name (get n st.leases)))
    name_split name j (inr e) =
        rw (e, w.names name j)
          (and_false (is_named name (get n st.leases)) (is_named name (get j st.leases)))

-- What the loop over the keys leaves.
pub record Gone (lib : DnsLibrary) (gone : Bytes → Bool) (keys : List Bytes) (st st' : LeaseStore)
    : Type 0 where
  pub but : IsWellFormedBut lib (λ p. member p keys || gone p) st'
  pub leases : Without (λ j. member j keys) st.leases st'.leases
  pub records : Without (λ j. member j keys) st.non_key_records st'.non_key_records

IsWellFormedBut-ext :
    (lib : DnsLibrary) (f g : Bytes → Bool) (st : LeaseStore)
    → ((p : Bytes) → f p ≡ g p)
    → IsWellFormedBut lib f st
    → IsWellFormedBut lib g st
IsWellFormedBut-ext lib f g st e w = record {
  keyed = w.keyed;
  names = w.names;
  disjoint = w.disjoint;
  edges = λ p c.
      w.edges p c
      ∙ ap (λ b. not b && is_child_of p (get c st.leases) (get c st.non_key_records)) (e p);
}

Without-trans :
    {V : Type 0} (n : Bytes) (keys : List Bytes) (m m' m'' : Assoc V)
    → Without (same n) m m'
    → Without (λ j. member j keys) m' m''
    → Without (λ j. member j (n ∷ keys)) m m''
unfolding member
Without-trans n keys m m' m'' f g j =
    g j ∙ ap (λ x. if member j keys then none else x) (f j) ∙ go (member j keys) (same n j)
  where
    go :
        (a b : Bool)
        → (if a then none else (if b then none else get j m)) ≡ (if b || a then none else get j m)
    go true true = refl
    go true false = refl
    go false true = refl
    go false false = refl

pub delete_each-Gone :
    (lib : DnsLibrary) (keys : List Bytes) (gone : Bytes → Bool) (st : LeaseStore)
    → IsWellFormedBut lib gone st
    → Gone lib gone keys st (delete_each keys st)
unfolding delete_each member
delete_each-Gone lib [] gone st w = record { but = w; leases = λ j. refl; records = λ j. refl }
delete_each-Gone lib (n ∷ keys) gone st w =
    let removed = delete_one-Removed lib n st (w.keyed n) (w.disjoint n) in
    let x =
      delete_each-Gone lib keys (λ p. same n p || gone p) (delete_one n st)
        (Removed-But lib n st (delete_one n st) gone w removed) in
    record {
      but =
          IsWellFormedBut-ext lib (λ p. member p keys || (same n p || gone p))
            (λ p. (same n p || member p keys) || gone p) _
            (λ p. reorder (member p keys) (same n p) (gone p)) x.but;
      leases = Without-trans n keys st.leases (delete_one n st).leases _ removed.leases x.leases;
      records =
          Without-trans n keys st.non_key_records (delete_one n st).non_key_records _
            removed.records x.records;
    }
  where
    reorder : (a b c : Bool) → (a || (b || c)) ≡ ((b || a) || c)
    reorder true true c = refl
    reorder true false c = refl
    reorder false true c = refl
    reorder false false c = refl
