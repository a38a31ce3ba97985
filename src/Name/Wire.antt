-- ===== src/Name/Wire.antt =====
-- pkg/dnsname/wire.go: the walk over a wire-format message that finds a label with a "." byte.
-- A name may follow compression pointers, so its walk takes fuel.
pub mod Walks
pub mod Reads
pub mod Complete
pub mod Sections
pub mod Label
use sig0lease.Base.{
  ℕ, zero, suc, ◌+◌, ◌-◌, ◌*◌, ◌/◌, ◌%◌, ◌^◌, ◌≤◌, ◌<◌, min, max, ◌≡◌, refl, sym, ap, ◌∙◌, subst,
  ◌≢◌, ◌↔◌, ◌⊎◌, inl, inr, Bool, true, false, not, ◌&&◌, ◌||◌, Option, none, some, List, [], ◌∷◌,
  ◌++◌, map, append-nil, append_assoc, arith, ltb, leb, ◌==◌, if◌then◌else◌, leb→le, ltb→lt, ==_iff,
  ==_refl, Bool-cases, Option-cases, and_left, and_right, Bool-ext, length, get_elem?, take, drop,
  All, length-append, take-append-drop, length-drop, drop-append, All-append, Bytes, bytes, same,
  same_refl, same_iff, same_ne, empty, has_suffix, contains_byte, has_suffix_iff,
  contains_byte-append, Assoc, get, put, del, get-put, get-del, member, add, remove, member-add,
  member-remove, member-append, Result, ok, err, ◌>>=◌, ◌>>◌, refuse_if,
}
use Prim.Native.Nat.{bit_and}
use sig0lease.Name.{dot}

pub data WireError : Type 0 where
  truncated forward_pointer many_pointers reserved_label : WireError

-- What `dottedName` returns: the dotted label, or the offset behind the name, or an error.
pub data NameWalk : Type 0 where
  dotted : Bytes → NameWalk
  behind : ℕ → NameWalk
  failed : WireError → NameWalk
  out_of_fuel : NameWalk

abbrev pub max_pointer_hops : ℕ
max_pointer_hops = 127

-- `msg[off]`, behind a check of the bounds.
abbrev pub byte_at : Bytes → ℕ → ℕ
byte_at msg off = elim (get_elem? msg off) [ none ↦ 0 | some b ↦ b ]

unfoldable pub u16 : Bytes → ℕ → ℕ
u16 msg off = byte_at msg off * 256 + byte_at msg (off + 1)

-- `msg[from:from + n]`.
abbrev pub slice : Bytes → ℕ → ℕ → Bytes
slice msg from n = take n (drop from msg)

-- `if next < 0 { next = o }`.
abbrev pub or_offset : Option ℕ → ℕ → ℕ
or_offset none o = o
or_offset (some n) o = n

abbrev pub pointer_at : Bytes → ℕ → ℕ
pointer_at msg off = bit_and (byte_at msg off) 0x3F * 256 + byte_at msg (off + 1)

-- The loop of `dottedName`.
unfoldable pub dotted_name_loop : ℕ → Bytes → ℕ → ℕ → Option ℕ → NameWalk
dotted_name_loop zero msg off hops next = out_of_fuel
dotted_name_loop (suc fuel) msg off hops next =
    let c = byte_at msg off in
    let on_label = dotted_name_loop fuel msg (off + 1 + c) hops next in
    let on_pointer =
      dotted_name_loop fuel msg (pointer_at msg off) (hops + 1) (some (or_offset next (off + 2))) in
    if leb (length msg) off
    then failed truncated
    else if bit_and c 0xC0 == 0
    then (if c == 0
        then behind (or_offset next (off + 1))
        else if ltb (length msg) (off + 1 + c)
        then failed truncated
        else if contains_byte dot (slice msg (off + 1) c)
        then dotted (slice msg (off + 1) c)
        else on_label)
    else if bit_and c 0xC0 == 0xC0
    then (if leb (length msg) (off + 1)
        then failed truncated
        else if leb off (pointer_at msg off)
        then failed forward_pointer
        else if ltb max_pointer_hops (hops + 1)
        then failed many_pointers
        else on_pointer)
    else failed reserved_label

-- Each turn moves forward, or spends one of the hops.
abbrev pub name_fuel : Bytes → ℕ
name_fuel msg = 129 * (length msg + 1)

unfoldable pub dotted_name : Bytes → ℕ → NameWalk
dotted_name msg off = dotted_name_loop (name_fuel msg) msg off 0 none

-- The RR types with a domain name in their RDATA, and its offset there.
unfoldable pub rdata_name_offset : ℕ → Option ℕ
rdata_name_offset t =
    if t == 2 || t == 5 || t == 6 || t == 12 || t == 39
    then some 0
    else if t == 15 || t == 18 || t == 21 || t == 36 || t == 64 || t == 65
    then some 2
    else if t == 33
    then some 6
    else if t == 24 || t == 46
    then some 18
    else none

-- What a section's walk returns: the offset behind it, or what ends the whole walk. A name's walk
-- is never out of fuel (Wire.Walks), and so `exhausted` is not returned (Wire.Label).
pub data SectionWalk : Type 0 where
  walked : ℕ → SectionWalk
  found : Bytes → SectionWalk
  broken : WireError → SectionWalk
  exhausted : SectionWalk

-- `if ...; err != nil || found { return ... }`, and the rest of the walk from `off` on.
unfoldable pub on_behind : NameWalk → (ℕ → SectionWalk) → SectionWalk
on_behind (behind off) rest = rest off
on_behind (dotted l) rest = found l
on_behind (failed e) rest = broken e
on_behind out_of_fuel rest = exhausted

unfoldable pub walk_questions : ℕ → Bytes → ℕ → SectionWalk
unfolding on_behind dotted_name dotted_name_loop
walk_questions zero msg off = walked off
walk_questions (suc n) msg off =
    on_behind (dotted_name msg off)
      λ o. if ltb (length msg) (o + 4) then broken truncated else walk_questions n msg (o + 4)

-- The name in an RR's RDATA, if its type has one and the RDATA reaches it; then the next RR.
unfoldable pub on_rdata : Bytes → Option ℕ → ℕ → ℕ → SectionWalk → SectionWalk
on_rdata msg none rdlength off rest = rest
on_rdata msg (some n) rdlength off rest =
    if ltb n rdlength then on_behind (dotted_name msg (off + n)) (λ _. rest) else rest

unfoldable pub walk_records : ℕ → Bytes → ℕ → SectionWalk
unfolding on_behind on_rdata rdata_name_offset u16 dotted_name dotted_name_loop
walk_records zero msg off = walked off
walk_records (suc n) msg off = on_behind (dotted_name msg off) λ o.
    let rdlength = u16 msg (o + 8) in
    let rest = walk_records n msg (o + 10 + rdlength) in
    if ltb (length msg) (o + 10)
    then broken truncated
    else if ltb (length msg) (o + 10 + rdlength)
    then broken truncated
    else on_rdata msg (rdata_name_offset (u16 msg o)) rdlength (o + 10) rest

and_then : SectionWalk → (ℕ → SectionWalk) → SectionWalk
and_then (walked off) rest = rest off
and_then (found l) rest = found l
and_then (broken e) rest = broken e
and_then exhausted rest = exhausted

-- The question section, then the three others.
unfoldable pub walk_message : Bytes → SectionWalk
unfolding and_then walk_questions walk_records
walk_message msg =
    and_then (walk_questions (u16 msg 4) msg 12)
      (walk_records (u16 msg 6 + u16 msg 8 + u16 msg 10) msg)
