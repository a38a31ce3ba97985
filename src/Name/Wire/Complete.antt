-- ===== src/Name/Wire/Complete.antt =====
-- A name that reads well is walked to its end.
use sig0lease.Base.{
  ℕ, zero, suc, ◌+◌, ◌≤◌, ◌<◌, ◌≡◌, refl, sym, ap, ◌∙◌, ◌≢◌, false, Option, none, some, List, arith,
  ltb, leb, ◌==◌, length, Bytes,
}
use sig0lease.Name.Wire.{
  behind, out_of_fuel, max_pointer_hops, byte_at, pointer_at, or_offset, dotted_name_loop,
  name_fuel, dotted_name,
}
use sig0lease.Name.Wire.Walks.{dotted_name_total}
use sig0lease.Name.Wire.Reads.{
  Reads, here, label, pointer, Undotted, first_of, first_none, first_again, CleanName,
}

-- What is read before an offset inside the message starts inside the message.
Reads-inside :
    (msg : Bytes) (o e h : ℕ) (ls : List Bytes) (n : Option ℕ)
    → Reads msg o ls e h n
    → e < length msg
    → o < length msg
Reads-inside msg o e h ls n (here _) i = i
Reads-inside msg o e h ls n (label _ j t z r) i = j
Reads-inside msg o e h ls n (pointer _ j t p r) i = omega (arith, j)

loop_complete :
    (fuel : ℕ) (msg : Bytes) (off hops : ℕ) (next : Option ℕ) (ls : List Bytes) (e h : ℕ)
    (n : Option ℕ)
    → Reads msg off ls e h n
    → Undotted ls
    → e < length msg
    → byte_at msg e ≡ 0
    → hops + h ≤ max_pointer_hops
    → dotted_name_loop fuel msg off hops next ≢ out_of_fuel
    → dotted_name_loop fuel msg off hops next ≡ behind (or_offset (first_of next n) (e + 1))
unfolding dotted_name_loop
loop_complete zero msg off hops next ls e h n r u i z few ends = absurd (ends refl)
loop_complete (suc fuel) msg off hops next ls e h n (here _) u i z few ends =
    let inside : leb (length msg) off ≡ false = ground (arith, i) in
    rw (inside, z) (ap behind (first_none next (off + 1)))
loop_complete (suc fuel) msg off hops next ls e h n (label _ j t nz r) u i z few ends =
    let inside : leb (length msg) off ≡ false = ground (arith, j) in
    let c : (byte_at msg off == 0) ≡ false = ground (arith, nz) in
    let later = Reads-inside msg _ e h _ n r i in
    let room : ltb (length msg) (off + 1 + byte_at msg off) ≡ false = ground (arith, later) in
    rw (inside, t, c, room, u.0)
      (loop_complete fuel msg _ hops next _ e h n r u.1 i z few
        (λ q. ends (rw (inside, t, c, room, u.0) q)))
loop_complete (suc fuel) msg off hops next ls e h n (pointer _ {n = m} j t p r) u i z few ends =
    let inside : leb (length msg) off ≡ false = ground (arith, j) in
    let room : leb (length msg) (off + 1) ≡ false = ground (arith, j) in
    let back : leb off (pointer_at msg off) ≡ false = ground (arith, p) in
    let hop : ltb max_pointer_hops (hops + 1) ≡ false = ground (arith, few) in
    rw (inside, t, room, back, hop)
      (loop_complete fuel msg _ (hops + 1) (some (or_offset next (off + 2))) _ e _ m r u i z
          (omega (arith, few)) (λ q. ends (rw (inside, t, room, back, hop) q))
        ∙ ap behind (first_again next m (off + 2) (e + 1)))

pub dotted_name_complete :
    (msg : Bytes) (off next : ℕ) → CleanName msg off next → dotted_name msg off ≡ behind next
unfolding dotted_name
dotted_name_complete msg off next (ls, e, h, n, r, u, i, z, few, q) =
    loop_complete (name_fuel msg) msg off 0 none ls e h n r u i z few (dotted_name_total msg off)
    ∙ ap behind (sym q)
