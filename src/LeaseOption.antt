-- ===== src/LeaseOption.antt =====
-- pkg/lease/lease.go: the Update Lease EDNS(0) option. `encoding/hex` and `encoding/binary` are
-- modelled as far as the option uses them.
pub mod Hex
pub mod Codec
mod Tests
use sig0lease.Base.{
  ℕ, zero, suc, ◌+◌, ◌-◌, ◌*◌, ◌/◌, ◌%◌, ◌^◌, ◌≤◌, ◌<◌, min, max, ◌≡◌, refl, sym, ap, ◌∙◌, subst,
  ◌≢◌, ◌↔◌, ◌⊎◌, inl, inr, Bool, true, false, not, ◌&&◌, ◌||◌, Option, none, some, List, [], ◌∷◌,
  ◌++◌, map, append-nil, append_assoc, arith, ltb, leb, ◌==◌, if◌then◌else◌, leb→le, ltb→lt, ==_iff,
  ==_refl, Bool-cases, Option-cases, and_left, and_right, Bool-ext, length, get_elem?, take, drop,
  All, length-append, take-append-drop, length-drop, drop-append, All-append, Bytes, bytes, same,
  same_refl, same_iff, same_ne, empty, has_suffix, contains_byte, has_suffix_iff,
  contains_byte-append, Assoc, get, put, del, get-put, get-del, member, add, remove, member-add,
  member-remove, member-append, Result, ok, err, ◌>>=◌, ◌>>◌, refuse_if,
}

abbrev pub option_code : ℕ
option_code = 2

-- `KeyLease` is `none` in the 4-byte variant.
pub record LeaseOption : Type 0 where
  pub lease : ℕ  -- uint32
  pub key_lease : Option ℕ  -- *uint32

pub data OptionError : Type 0 where
  lease_exceeds_key_lease option_not_found invalid_hex invalid_length : OptionError

unfoldable pub encode_4byte : ℕ → LeaseOption
encode_4byte lease = record { lease = lease; key_lease = none }

unfoldable pub encode_8byte : ℕ → ℕ → LeaseOption
encode_8byte lease key_lease = record { lease = lease; key_lease = some key_lease }

unfoldable pub validate_values : ℕ → Option ℕ → Result OptionError (Unit {0})
validate_values lease none = ok tt
validate_values lease (some key_lease) =
    if not (key_lease == 0) && not (lease == 0) && ltb key_lease lease
    then err lease_exceeds_key_lease
    else ok tt

unfoldable pub validate : LeaseOption → Result OptionError (Unit {0})
unfolding validate_values
validate lo = validate_values lo.lease lo.key_lease

-- An option of an OPT RR: `*dns.ERFC3597`, or any other type.
pub data Edns0 : Type 0 where
  erfc3597 : ℕ → Bytes → Edns0  -- EDNS0Code, Code
  other_option : Edns0

-- `binary.BigEndian.PutUint32`.
unfoldable pub put_uint32 : ℕ → Bytes
put_uint32 n = (n / 16777216 % 256) ∷ (n / 65536 % 256) ∷ (n / 256 % 256) ∷ (n % 256) ∷ []

-- `binary.BigEndian.Uint32`.
unfoldable pub uint32 : Bytes → ℕ
uint32 (a ∷ b ∷ c ∷ d ∷ rest) = a * 16777216 + b * 65536 + c * 256 + d
uint32 _ = 0

hex_digit : ℕ → ℕ
hex_digit n = if ltb n 10 then b'0' + n else b'a' + n - 10

-- `hex.EncodeToString`.
unfoldable pub hex_encode : Bytes → Bytes
unfolding hex_digit
hex_encode [] = []
hex_encode (b ∷ bs) = hex_digit (b / 16) ∷ hex_digit (b % 16) ∷ hex_encode bs

hex_value : ℕ → Option ℕ
hex_value c =
    if leb b'0' c && leb c b'9'
    then some (c - b'0')
    else if leb b'a' c && leb c b'f'
    then some (c - b'a' + 10)
    else if leb b'A' c && leb c b'F'
    then some (c - b'A' + 10)
    else none

-- One byte before the rest, if its digits and all others are good.
hex_byte : Option ℕ → Option ℕ → Option Bytes → Option Bytes
hex_byte (some h) (some l) (some bs) = some ((h * 16 + l) ∷ bs)
hex_byte (some h) (some l) none = none
hex_byte (some h) none bs = none
hex_byte none l bs = none

-- `hex.DecodeString`: an odd length and any other character are errors.
unfoldable pub hex_decode : Bytes → Option Bytes
unfolding hex_value hex_byte
hex_decode [] = some []
hex_decode (c ∷ []) = none
hex_decode (c ∷ d ∷ cs) = hex_byte (hex_value c) (hex_value d) (hex_decode cs)

-- `Encode`, which appends to the options of the OPT RR.
unfoldable pub encode : LeaseOption → List Edns0 → Result OptionError (List Edns0)
unfolding validate
encode lo options = do
  validate lo
  let key_lease : ℕ = elim lo.key_lease [ none ↦ 0 | some k ↦ k ]
  let buf = put_uint32 lo.lease ++ put_uint32 key_lease
  ok (options ++ (erfc3597 option_code (hex_encode buf) ∷ []))

-- `return lo.Validate()`, with the receiver.
checked : LeaseOption → Result OptionError LeaseOption
checked lo = do validate lo; ok lo

-- The receiver after `decodeERFC`, if that returns no error.
decode_data : Bytes → Result OptionError LeaseOption
unfolding validate checked uint32
decode_data buf =
    if length buf == 4
    then checked (record { lease = uint32 buf; key_lease = none })
    else if length buf == 8
    then checked (record { lease = uint32 (take 4 buf); key_lease = some (uint32 (drop 4 buf)) })
    else err invalid_length

decode_hex : Option Bytes → Result OptionError LeaseOption
unfolding decode_data
decode_hex none = err invalid_hex
decode_hex (some buf) = decode_data buf

unfoldable pub decode_erfc : Bytes → Result OptionError LeaseOption
unfolding decode_hex
decode_erfc code = decode_hex (hex_decode code)

-- No option, or the raw option that was found.
unfoldable pub decode_found : Option Bytes → Result OptionError LeaseOption
unfolding decode_erfc
decode_found none = err option_not_found
decode_found (some code) = decode_erfc code

-- The first option with the code.
unfoldable pub find_in_opt : List Edns0 → Option Bytes
find_in_opt [] = none
find_in_opt (erfc3597 code text ∷ rest) =
    if code == option_code then some text else find_in_opt rest
find_in_opt (other_option ∷ rest) = find_in_opt rest

unfoldable pub decode : List Edns0 → Result OptionError LeaseOption
unfolding decode_found
decode options = decode_found (find_in_opt options)

-- A record of a message's Pseudo or Extra section, as far as `FindOption` looks at it.
pub data SectionRr : Type 0 where
  option_rr : ℕ → Bytes → SectionRr  -- a bare ERFC3597
  opt_rr : List Edns0 → SectionRr
  other_rr : SectionRr

unfoldable pub scan_opt : Option Bytes → Option Bytes → Option Bytes
scan_opt none rest = rest
scan_opt (some c) rest = some c

unfoldable pub scan : List SectionRr → Option Bytes
unfolding scan_opt
scan [] = none
scan (option_rr code text ∷ rest) = if code == option_code then some text else scan rest
scan (opt_rr options ∷ rest) = scan_opt (find_in_opt options) (scan rest)
scan (other_rr ∷ rest) = scan rest

unfoldable pub find_option : List SectionRr → List SectionRr → Option Bytes
unfolding scan scan_opt
find_option pseudo extra = scan_opt (scan pseudo) (scan extra)

unfoldable pub find_and_decode : List SectionRr → List SectionRr → Result OptionError LeaseOption
unfolding decode_found
find_and_decode pseudo extra = decode_found (find_option pseudo extra)
