-- ===== src/NodeKey/Identity.antt =====
-- Which records have one identity.
use sig0lease.Base.{
  ℕ, ◌+◌, ◌≤◌, ◌≡◌, refl, sym, ap, ◌∙◌, ◌≢◌, ◌⊎◌, inl, inr, List, [], ◌∷◌, map, arith, ◌==◌, ==_iff,
  Bool-cases, Bytes,
}
use mathlib.Core.Path.{ap₂}
use sig0lease.Name.{fold, fold_byte, is_upper}
use sig0lease.Name.Fold.{fold-eq-map}
use sig0lease.Dns.{
  Rdata, Rr, DnsLibrary, ns, md, mf, mb, mg, mr, ptr, dname, minfo, rp, mx, afsdb, rt, kx, px,
  naptr, srv,
}
use sig0lease.NodeKey.{fold_rdata_names, record_text, record_key}

-- One byte is the other, or they are the two cases of one US-ASCII letter.
abbrev pub SameLetter : ℕ → ℕ → Type 0
SameLetter c d =
    (c ≡ d) ⊎ ((b'A' ≤ c) × (c ≤ b'Z') × (d ≡ c + 32)) ⊎ ((b'A' ≤ d) × (d ≤ b'Z') × (c ≡ d + 32))

-- The same name up to the case of US-ASCII letters.
abbrev pub SameName : Bytes → Bytes → Type 0
SameName [] [] = Unit
SameName [] (d ∷ t) = ⊥
SameName (c ∷ s) [] = ⊥
SameName (c ∷ s) (d ∷ t) = SameLetter c d × SameName s t

-- The same RDATA, or one of a type in the list of RFC 4034 S6.2 (as corrected by RFC 6840 S5.1),
-- less SOA and CNAME, with the same names and otherwise the same fields.
pub data SameRdata : Rdata → Rdata → Type 0 where
  exact : {d e : Rdata} → d ≡ e → SameRdata d e
  same_ns : {n m : Bytes} → SameName n m → SameRdata (ns n) (ns m)
  same_md : {n m : Bytes} → SameName n m → SameRdata (md n) (md m)
  same_mf : {n m : Bytes} → SameName n m → SameRdata (mf n) (mf m)
  same_mb : {n m : Bytes} → SameName n m → SameRdata (mb n) (mb m)
  same_mg : {n m : Bytes} → SameName n m → SameRdata (mg n) (mg m)
  same_mr : {n m : Bytes} → SameName n m → SameRdata (mr n) (mr m)
  same_ptr : {n m : Bytes} → SameName n m → SameRdata (ptr n) (ptr m)
  same_dname : {n m : Bytes} → SameName n m → SameRdata (dname n) (dname m)
  same_minfo : {a b x y : Bytes} → SameName a x → SameName b y → SameRdata (minfo a b) (minfo x y)
  same_rp : {a b x y : Bytes} → SameName a x → SameName b y → SameRdata (rp a b) (rp x y)
  same_mx : {p : ℕ} {n m : Bytes} → SameName n m → SameRdata (mx p n) (mx p m)
  same_afsdb : {p : ℕ} {n m : Bytes} → SameName n m → SameRdata (afsdb p n) (afsdb p m)
  same_rt : {p : ℕ} {n m : Bytes} → SameName n m → SameRdata (rt p n) (rt p m)
  same_kx : {p : ℕ} {n m : Bytes} → SameName n m → SameRdata (kx p n) (kx p m)
  same_px :
      {p : ℕ} {a b x y : Bytes} → SameName a x → SameName b y → SameRdata (px p a b) (px p x y)
  same_naptr : {f : List Bytes} {n m : Bytes} → SameName n m → SameRdata (naptr f n) (naptr f m)
  same_srv : {p w q : ℕ} {n m : Bytes} → SameName n m → SameRdata (srv p w q n) (srv p w q m)

-- The same record up to the case of US-ASCII letters in its names, and up to its TTL. A type that
-- `RecordKey` takes for WKS, whose RDATA it reads as it stands, is left out.
pub record SameRecord (lib : DnsLibrary) (r s : Rr) : Type 0 where
  pub name : SameName r.hdr.name s.hdr.name
  pub class : r.hdr.class ≡ s.hdr.class
  pub typ : lib.rr_type r.rdata ≡ lib.rr_type s.rdata
  pub rdata : SameRdata r.rdata s.rdata
  pub not_wks : lib.rr_type r.rdata ≢ 4

fold-SameLetter : (c d : ℕ) → SameLetter c d → fold_byte c ≡ fold_byte d
unfolding fold_byte is_upper
fold-SameLetter c d (inl e) = ap fold_byte e
fold-SameLetter c d (inr (inl (a, b, e))) = ground arith
fold-SameLetter c d (inr (inr (a, b, e))) = ground arith

fold-SameName : (s t : Bytes) → SameName s t → fold s ≡ fold t
fold-SameName s t h = fold-eq-map s ∙ go s t h ∙ sym (fold-eq-map t)
  where
    go : (s t : Bytes) → SameName s t → map fold_byte s ≡ map fold_byte t
    go [] [] h = refl
    go [] (d ∷ t) h = absurd h
    go (c ∷ s) [] h = absurd h
    go (c ∷ s) (d ∷ t) (a, b) = cc (fold-SameLetter c d a, go s t b)

fold-SameRdata : (d e : Rdata) → SameRdata d e → fold_rdata_names d ≡ fold_rdata_names e
unfolding fold_rdata_names
fold-SameRdata d e (exact q) = ap fold_rdata_names q
fold-SameRdata (ns n) (ns m) (same_ns h) = ap ns (fold-SameName n m h)
fold-SameRdata (md n) (md m) (same_md h) = ap md (fold-SameName n m h)
fold-SameRdata (mf n) (mf m) (same_mf h) = ap mf (fold-SameName n m h)
fold-SameRdata (mb n) (mb m) (same_mb h) = ap mb (fold-SameName n m h)
fold-SameRdata (mg n) (mg m) (same_mg h) = ap mg (fold-SameName n m h)
fold-SameRdata (mr n) (mr m) (same_mr h) = ap mr (fold-SameName n m h)
fold-SameRdata (ptr n) (ptr m) (same_ptr h) = ap ptr (fold-SameName n m h)
fold-SameRdata (dname n) (dname m) (same_dname h) = ap dname (fold-SameName n m h)
fold-SameRdata (minfo a b) (minfo x y) (same_minfo h k) =
    ap₂ minfo (fold-SameName a x h) (fold-SameName b y k)
fold-SameRdata (rp a b) (rp x y) (same_rp h k) = ap₂ rp (fold-SameName a x h) (fold-SameName b y k)
fold-SameRdata (mx p n) (mx _ m) (same_mx h) = ap (mx p) (fold-SameName n m h)
fold-SameRdata (afsdb p n) (afsdb _ m) (same_afsdb h) = ap (afsdb p) (fold-SameName n m h)
fold-SameRdata (rt p n) (rt _ m) (same_rt h) = ap (rt p) (fold-SameName n m h)
fold-SameRdata (kx p n) (kx _ m) (same_kx h) = ap (kx p) (fold-SameName n m h)
fold-SameRdata (px p a b) (px _ x y) (same_px h k) =
    ap₂ (px p) (fold-SameName a x h) (fold-SameName b y k)
fold-SameRdata (naptr f n) (naptr _ m) (same_naptr h) = ap (naptr f) (fold-SameName n m h)
fold-SameRdata (srv p w q n) (srv _ _ _ m) (same_srv h) = ap (srv p w q) (fold-SameName n m h)

record_text-raw :
    (lib : DnsLibrary) (name : Bytes) (class typ : ℕ) (raw raw' folded : Rdata)
    → typ ≢ 4
    → record_text lib name class typ raw folded ≡ record_text lib name class typ raw' folded
unfolding record_text
record_text-raw lib name class typ raw raw' folded h = elim (Bool-cases (typ == 4)) [
  | inl e ↦ absurd (h ((==_iff typ 4).0 e))
  | inr e ↦ rw e
]

record_text-eq :
    (lib : DnsLibrary) (raw : Rdata) {n n' : Bytes} {c c' t t' : ℕ} {d d' : Rdata}
    → n ≡ n'
    → c ≡ c'
    → t ≡ t'
    → d ≡ d'
    → record_text lib n c t raw d ≡ record_text lib n' c' t' raw d'
record_text-eq lib raw e f g h = λ i. record_text lib (e i) (f i) (g i) raw (h i)

-- RecordKey gives one identity to two records that are the same up to their TTL and to the case
-- of US-ASCII letters in the owner name and in the names inside the RDATA of the listed types,
-- except for records of type 4, which RecordKey takes for WKS.
pub record_key_same :
    (lib : DnsLibrary) (r s : Rr) → SameRecord lib r s → record_key lib r ≡ record_key lib s
unfolding record_key
record_key_same lib r s h =
    record_text-raw lib (fold r.hdr.name) r.hdr.class (lib.rr_type r.rdata) r.rdata s.rdata
      (fold_rdata_names r.rdata) h.not_wks
    ∙ record_text-eq lib s.rdata (fold-SameName r.hdr.name s.hdr.name h.name) h.class h.typ
        (fold-SameRdata r.rdata s.rdata h.rdata)
