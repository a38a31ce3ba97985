-- ===== src/NodeKey.antt =====
-- pkg/lease/state.go: NodeKey, NodeKeyFromSIG, NodeKeyName, RecordKey and foldRDATANames.
pub mod Digits
pub mod Parse
pub mod Identity
mod Tests
use sig0lease.Base.{
  ℕ, zero, suc, ◌+◌, ◌-◌, ◌*◌, ◌/◌, ◌%◌, ◌^◌, ◌≤◌, ◌<◌, min, max, ◌≡◌, refl, sym, ap, ◌∙◌, subst,
  ◌≢◌, ◌↔◌, ◌⊎◌, inl, inr, Bool, true, false, not, ◌&&◌, ◌||◌, Option, none, some, List, [], ◌∷◌,
  ◌++◌, map, append-nil, append_assoc, arith, ltb, leb, ◌==◌, if◌then◌else◌, leb→le, ltb→lt, ==_iff,
  ==_refl, Bool-cases, Option-cases, and_left, and_right, Bool-ext, length, get_elem?, take, drop,
  All, length-append, take-append-drop, length-drop, drop-append, All-append, Bytes, bytes, same,
  same_refl, same_iff, same_ne, empty, has_suffix, contains_byte, has_suffix_iff,
  contains_byte-append, Assoc, get, put, del, get-put, get-del, member, add, remove, member-add,
  member-remove, member-append, Result, ok, err, ◌>>=◌, ◌>>◌, refuse_if,
}
use sig0lease.Name.{dot, fold, normalize}
use sig0lease.Dns.{
  Header, Key, Rdata, Rr, DnsLibrary, ns, md, mf, mb, mg, mr, ptr, dname, minfo, rp, mx, afsdb, rt,
  kx, px, naptr, srv,
}

-- The decimal digits of a number before `acc`. A number has fewer digits than its value plus 1.
decimal_digits : ℕ → ℕ → Bytes → Bytes
decimal_digits zero n acc = acc
decimal_digits (suc fuel) n acc =
    let more = decimal_digits fuel (n / 10) ((b'0' + n % 10) ∷ acc) in
    if ltb n 10 then (b'0' + n) ∷ acc else more

-- `%d`.
unfoldable pub decimal : ℕ → Bytes
unfolding decimal_digits
decimal n = decimal_digits (suc n) n []

zeros : ℕ → Bytes
zeros zero = []
zeros (suc n) = b'0' ∷ zeros n

-- `%03d` and `%05d`.
unfoldable pub padded : ℕ → ℕ → Bytes
unfolding decimal zeros
padded width n = zeros (width - length (decimal n)) ++ decimal n

-- What stands behind the name in a node key: ".+", the algorithm, "+", the key tag.
unfoldable pub key_suffix : ℕ → ℕ → Bytes
key_suffix algorithm tag = padded 3 algorithm ++ (b'+' ∷ padded 5 tag)

-- `NodeKeyFromSIG`.
unfoldable pub node_key_from_sig : Bytes → ℕ → ℕ → Bytes
node_key_from_sig signer algorithm tag = normalize signer ++ (dot ∷ b'+' ∷ key_suffix algorithm tag)

-- `NodeKey`.
unfoldable pub node_key : DnsLibrary → Key → Bytes
node_key lib k = node_key_from_sig k.hdr.name k.algorithm (lib.key_tag k)

later_mark : Option ℕ → Bool → Option ℕ
later_mark (some i) here = some (suc i)
later_mark none true = some 0
later_mark none false = none

is_mark : ℕ → Bytes → Bool
is_mark c [] = false
is_mark c (d ∷ ds) = c == dot && d == b'+'

-- `strings.LastIndex(s, ".+")`.
last_mark : Bytes → Option ℕ
unfolding later_mark is_mark
last_mark [] = none
last_mark (c ∷ cs) = later_mark (last_mark cs) (is_mark c cs)

name_before : Bytes → Option ℕ → Bytes
name_before s none = s
name_before s (some zero) = s
name_before s (some (suc i)) = take (suc i) s

unfoldable pub node_key_name : Bytes → Bytes
unfolding name_before last_mark
node_key_name s = name_before s (last_mark s)

-- The domain names inside an RDATA, folded, for the types of RFC 4034's list.
unfoldable pub fold_rdata_names : Rdata → Rdata
fold_rdata_names (ns n) = ns (fold n)
fold_rdata_names (md n) = md (fold n)
fold_rdata_names (mf n) = mf (fold n)
fold_rdata_names (mb n) = mb (fold n)
fold_rdata_names (mg n) = mg (fold n)
fold_rdata_names (mr n) = mr (fold n)
fold_rdata_names (ptr n) = ptr (fold n)
fold_rdata_names (minfo r e) = minfo (fold r) (fold e)
fold_rdata_names (mx p n) = mx p (fold n)
fold_rdata_names (rp m t) = rp (fold m) (fold t)
fold_rdata_names (afsdb p n) = afsdb p (fold n)
fold_rdata_names (rt p n) = rt p (fold n)
fold_rdata_names (px p m x) = px p (fold m) (fold x)
fold_rdata_names (naptr fields n) = naptr fields (fold n)
fold_rdata_names (kx p n) = kx p (fold n)
fold_rdata_names (srv p w q n) = srv p w q (fold n)
fold_rdata_names (dname n) = dname (fold n)
fold_rdata_names d = d

abbrev space : ℕ
space = b' '

-- "%s %d %d" of the owner name, the class and the type.
record_prefix : Bytes → ℕ → ℕ → Bytes
record_prefix name class typ = name ++ (space ∷ decimal class ++ (space ∷ decimal typ))

-- The `switch` of `RecordKey`: SOA and CNAME, then WKS, then the others.
record_text : DnsLibrary → Bytes → ℕ → ℕ → Rdata → Rdata → Bytes
record_text lib name class typ raw folded =
    let prefix = record_prefix name class typ in
    if typ == 6 || typ == 5
    then prefix
    else if typ == 4
    then prefix ++ (space ∷ lib.data_text raw)
    else prefix ++ (space ∷ decimal (lib.data_len folded) ++ (space ∷ lib.data_text folded))

-- `RecordKey` of a record that is there.
unfoldable pub record_key : DnsLibrary → Rr → Bytes
unfolding record_text record_prefix
record_key lib rr =
    record_text lib (fold rr.hdr.name) rr.hdr.class (lib.rr_type rr.rdata) rr.rdata
      (fold_rdata_names rr.rdata)
