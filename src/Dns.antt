-- ===== src/Dns.antt =====
-- What the program reads of the records of codeberg.org/miekg/dns: the fields of the RR structs
-- that it names, and the library's functions on them, which are parameters.
use sig0lease.Base.{ℕ, List, Bytes}

pub record Header : Type 0 where
  pub name : Bytes
  pub class : ℕ  -- uint16
  pub ttl : ℕ  -- uint32

abbrev pub class_inet : ℕ
class_inet = 1

abbrev pub class_none : ℕ
class_none = 254

abbrev pub class_any : ℕ
class_any = 255

-- `dns.KEY`.
pub record Key : Type 0 where
  pub hdr : Header
  pub flags : ℕ  -- uint16
  pub protocol : ℕ  -- uint8
  pub algorithm : ℕ  -- uint8
  pub public_key : Bytes

-- The RDATA of the RR structs that the program tells apart; `other` has the type code of any
-- other struct and its RDATA.
pub data Rdata : Type 0 where
  a aaaa : Bytes → Rdata
  key_data : ℕ → ℕ → ℕ → Bytes → Rdata  -- flags, protocol, algorithm, public key
  txt : List Bytes → Rdata
  srv : ℕ → ℕ → ℕ → Bytes → Rdata  -- priority, weight, port, target
  any : Rdata
  ns md mf mb mg mr ptr dname : Bytes → Rdata
  minfo rp : Bytes → Bytes → Rdata
  mx afsdb rt kx : ℕ → Bytes → Rdata
  px : ℕ → Bytes → Bytes → Rdata
  naptr : List Bytes → Bytes → Rdata  -- the fields before the replacement, and that
  other : ℕ → Bytes → Rdata

-- `dns.RR`.
pub record Rr : Type 0 where
  pub hdr : Header
  pub rdata : Rdata

-- The library's functions: `KEY.KeyTag`, `RRToType`, and an RDATA's `Len` and `String`.
pub record DnsLibrary : Type 0 where
  pub key_tag : Key → ℕ
  pub rr_type : Rdata → ℕ
  pub data_len : Rdata → ℕ
  pub data_text : Rdata → Bytes
