-- ===== src/Name/Wire/Reads.antt =====
-- What a walk over one name has read, against the name's layout in the message.
use sig0lease.Base.{
  ℕ, zero, suc, ◌+◌, ◌<◌, ◌≤◌, ◌≡◌, refl, ◌∙◌, ◌≢◌, inl, inr, true, false, Option, none, some, List,
  [], ◌∷◌, arith, ltb, leb, ◌==◌, ==_iff, Bool-cases, length, All, Bytes, contains_byte,
}
use Prim.Native.Nat.{bit_and}
use sig0lease.Name.{dot}
use sig0lease.Name.Wire.{
  NameWalk, dotted, behind, failed, out_of_fuel, max_pointer_hops, byte_at, slice, pointer_at,
  or_offset, dotted_name_loop, name_fuel, dotted_name,
}

-- The labels read from an offset on, up to another offset; over how many compression pointers; and
-- the offset behind the first of these.
pub data Reads (msg : Bytes) : ℕ → List Bytes → ℕ → ℕ → Option ℕ → Type 0 where
  here : (o : ℕ) → Reads msg o [] o 0 none
  label :
      (o : ℕ) {ls : List Bytes} {e h : ℕ} {n : Option ℕ}
      → o < length msg
      → bit_and (byte_at msg o) 0xC0 ≡ 0
      → byte_at msg o ≢ 0
      → Reads msg (o + 1 + byte_at msg o) ls e h n
      → Reads msg o (slice msg (o + 1) (byte_at msg o) ∷ ls) e h n
  pointer :
      (o : ℕ) {ls : List Bytes} {e h : ℕ} {n : Option ℕ}
      → o + 1 < length msg
      → bit_and (byte_at msg o) 0xC0 ≡ 0xC0
      → pointer_at msg o < o
      → Reads msg (pointer_at msg o) ls e h n
      → Reads msg o ls e (suc h) (some (o + 2))

abbrev pub Undotted : List Bytes → Type 0
Undotted ls = All (λ l. contains_byte dot l ≡ false) ls

-- The first of two offsets that is there.
abbrev pub first_of : Option ℕ → Option ℕ → Option ℕ
first_of none n = n
first_of (some x) n = some x

-- The rest of a name after some pointers, up to its root label: no label has a dot, there are at
-- most 127 pointers, and the name's encoding ends before the given offset.
abbrev pub CleanRest : Bytes → ℕ → ℕ → Option ℕ → ℕ → Type 0
CleanRest msg off hops next end =
    (ls : List Bytes) × (e : ℕ) × (h : ℕ) × (n : Option ℕ) × Reads msg off ls e h n
    × Undotted ls
    × (e < length msg)
    × (byte_at msg e ≡ 0)
    × (hops + h ≤ max_pointer_hops)
    × (end ≡ or_offset (first_of next n) (e + 1))

-- A whole name.
abbrev pub CleanName : Bytes → ℕ → ℕ → Type 0
CleanName msg off end = CleanRest msg off 0 none end

-- A name whose first label with a dot is the given one.
abbrev pub FirstDotted : Bytes → ℕ → Bytes → Type 0
FirstDotted msg off l =
    (ls : List Bytes) × (e : ℕ) × (h : ℕ) × (n : Option ℕ) × Reads msg off ls e h n
    × Undotted ls
    × (e + 1 + byte_at msg e ≤ length msg)
    × (l ≡ slice msg (e + 1) (byte_at msg e))
    × (contains_byte dot l ≡ true)

abbrev pub Explains : Bytes → ℕ → ℕ → Option ℕ → NameWalk → Type 0
Explains msg off hops next (dotted l) = FirstDotted msg off l
Explains msg off hops next (behind o) = CleanRest msg off hops next o
Explains msg off hops next (failed e) = Unit
Explains msg off hops next out_of_fuel = Unit

pub first_none : (next : Option ℕ) (a : ℕ) → or_offset next a ≡ or_offset (first_of next none) a
first_none none a = refl
first_none (some x) a = refl

pub first_again :
    (next n : Option ℕ) (a b : ℕ)
    → or_offset (first_of (some (or_offset next a)) n) b ≡ or_offset (first_of next (some a)) b
first_again none n a b = refl
first_again (some x) n a b = refl

module _ (msg : Bytes) (off hops : ℕ) (next : Option ℕ) where
  Explains-label :
      (r : NameWalk)
      → off < length msg
      → bit_and (byte_at msg off) 0xC0 ≡ 0
      → byte_at msg off ≢ 0
      → contains_byte dot (slice msg (off + 1) (byte_at msg off)) ≡ false
      → Explains msg (off + 1 + byte_at msg off) hops next r
      → Explains msg off hops next r
  Explains-label (dotted l) i t z c (ls, e, h, n, r, u, a, b, d) =
      (slice msg (off + 1) (byte_at msg off) ∷ ls, e, h, n, label off i t z r, (c, u), a, b, d)
  Explains-label (behind o) i t z c (ls, e, h, n, r, u, a, b, few, q) =
      (slice msg (off + 1) (byte_at msg off) ∷ ls, e, h, n, label off i t z r, (c, u), a, b, few, q)
  Explains-label (failed _) i t z c x = tt
  Explains-label out_of_fuel i t z c x = tt

  Explains-pointer :
      (r : NameWalk)
      → off + 1 < length msg
      → bit_and (byte_at msg off) 0xC0 ≡ 0xC0
      → pointer_at msg off < off
      → Explains msg (pointer_at msg off) (hops + 1) (some (or_offset next (off + 2))) r
      → Explains msg off hops next r
  Explains-pointer (dotted l) i t p (ls, e, h, n, r, u, a, b, d) =
      (ls, e, suc h, some (off + 2), pointer off i t p r, u, a, b, d)
  Explains-pointer (behind o) i t p (ls, e, h, n, r, u, a, b, few, q) = (
    ls,
    e,
    suc h,
    some (off + 2),
    pointer off i t p r,
    u,
    a,
    b,
    (omega (arith, few)),
    q ∙ first_again next n (off + 2) (e + 1),
  )
  Explains-pointer (failed _) i t p x = tt
  Explains-pointer out_of_fuel i t p x = tt

root-Clean :
    (msg : Bytes) (off hops : ℕ) (next : Option ℕ)
    → hops ≤ max_pointer_hops
    → off < length msg
    → byte_at msg off ≡ 0
    → CleanRest msg off hops next (or_offset next (off + 1))
root-Clean msg off hops next few i z =
    ([], off, 0, none, here off, tt, i, z, omega arith, first_none next (off + 1))

-- The walk of one name explains its result.
loop-Explains :
    (fuel : ℕ) (msg : Bytes) (off hops : ℕ) (next : Option ℕ)
    → hops ≤ max_pointer_hops
    → Explains msg off hops next (dotted_name_loop fuel msg off hops next)
unfolding dotted_name_loop
loop-Explains zero msg off hops next few = tt
loop-Explains (suc fuel) msg off hops next few =
    let c = byte_at msg off in
    let on_label = loop-Explains fuel msg (off + 1 + c) hops next few in
    let on_pointer =
      loop-Explains fuel msg (pointer_at msg off) (hops + 1) (some (or_offset next (off + 2))) in
    elim (Bool-cases (leb (length msg) off)) [
      | inl e ↦ rw e tt
      | inr inside ↦ rw inside (elim (Bool-cases (bit_and c 0xC0 == 0)) [
        | inl low ↦ rw low (elim (Bool-cases (c == 0)) [
          | inl root ↦ rw root (root-Clean msg off hops next few (ground arith) (ground arith))
          | inr nonzero ↦ rw nonzero (elim (Bool-cases (ltb (length msg) (off + 1 + c))) [
            | inl e ↦ rw e tt
            | inr e ↦ rw e (elim (Bool-cases (contains_byte dot (slice msg (off + 1) c))) [
              | inl d ↦ rw d ([], off, 0, none, here off, tt, ground arith, refl, d)
              | inr d ↦ rw d (
                  Explains-label msg off hops next _ (ground arith) ((==_iff _ _).0 low)
                    (ground arith) d on_label)
            ])
          ])
        ])
        | inr high ↦ rw high (elim (Bool-cases (bit_and c 0xC0 == 0xC0)) [
          | inr e ↦ rw e tt
          | inl top ↦ rw top (elim (Bool-cases (leb (length msg) (off + 1))) [
            | inl e ↦ rw e tt
            | inr room ↦ rw room (elim (Bool-cases (leb off (pointer_at msg off))) [
              | inl e ↦ rw e tt
              | inr back ↦ rw back (elim (Bool-cases (ltb max_pointer_hops (hops + 1))) [
                | inl e ↦ rw e tt
                | inr e ↦ rw e (
                    Explains-pointer msg off hops next _ (ground arith) ((==_iff _ _).0 top)
                      (ground arith) (on_pointer (ground arith)))
              ])
            ])
          ])
        ])
      ])
    ]

pub dotted_name-Explains : (msg : Bytes) (off : ℕ) → Explains msg off 0 none (dotted_name msg off)
unfolding dotted_name
dotted_name-Explains msg off = loop-Explains (name_fuel msg) msg off 0 none (omega arith)
