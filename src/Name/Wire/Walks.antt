-- ===== src/Name/Wire/Walks.antt =====
-- The walk over one name ends, and reads the labels that the message has there.
use sig0lease.Base.{
  ℕ, zero, suc, ◌+◌, ◌-◌, ◌*◌, ◌≤◌, ◌<◌, ◌≡◌, ◌≢◌, Option, none, some, arith, length, Bytes,
}
use sig0lease.Name.Wire.{
  out_of_fuel, byte_at, pointer_at, or_offset, dotted_name_loop, name_fuel, dotted_name,
}

-- What one turn spends: the hops left, each worth a pass over the message, and the bytes ahead.
abbrev budget : Bytes → ℕ → ℕ → ℕ
budget msg off hops = (128 - hops) * (length msg + 1) + (length msg - off)

budget_forward :
    (msg : Bytes) (off c hops : ℕ)
    → off < length msg
    → budget msg (off + 1 + c) hops < budget msg off hops
budget_forward msg off c hops h = omega arith

budget_hop :
    (k l off p : ℕ) → off < l → p < off → k * (l + 1) + (l - p) < suc k * (l + 1) + (l - off)
budget_hop k l off p h q = grind arith

budget_backward :
    (msg : Bytes) (off p hops : ℕ)
    → hops < 127
    → off < length msg
    → p < off
    → budget msg p (hops + 1) < budget msg off hops
budget_backward msg off p hops h o q =
    let e : 128 - hops ≡ suc (128 - (hops + 1)) = omega arith in
    rw e (budget_hop (128 - (hops + 1)) (length msg) off p o q)

-- `out_of_fuel` is not returned when the budget is below the fuel.
loop-total :
    (fuel : ℕ) (msg : Bytes) (off hops : ℕ) (next : Option ℕ)
    → hops ≤ 127
    → budget msg off hops < fuel
    → dotted_name_loop fuel msg off hops next ≢ out_of_fuel
unfolding dotted_name_loop
loop-total zero msg off hops next h b = absurd (omega arith)
loop-total (suc fuel) msg off hops next h b = ground (
  arith,
  loop-total fuel msg (off + 1 + byte_at msg off) hops next,
  loop-total fuel msg (pointer_at msg off) (hops + 1) (some (or_offset next (off + 2))),
  budget_forward msg off (byte_at msg off) hops,
  budget_backward msg off (pointer_at msg off) hops,
)

pub dotted_name_total : (msg : Bytes) (off : ℕ) → dotted_name msg off ≢ out_of_fuel
unfolding dotted_name
dotted_name_total msg off = loop-total (name_fuel msg) msg off 0 none (omega arith) (omega arith)
