-- ===== src/Dnssd.antt =====
-- pkg/dnssd/names.go: service types in names.
mod Types
mod Tests
use sig0lease.Base.{
  ℕ, zero, suc, ◌+◌, ◌-◌, ◌*◌, ◌/◌, ◌%◌, ◌^◌, ◌≤◌, ◌<◌, min, max, ◌≡◌, refl, sym, ap, ◌∙◌, subst,
  ◌≢◌, ◌↔◌, ◌⊎◌, inl, inr, Bool, true, false, not, ◌&&◌, ◌||◌, Option, none, some, List, [], ◌∷◌,
  ◌++◌, map, append-nil, append_assoc, arith, ltb, leb, ◌==◌, if◌then◌else◌, leb→le, ltb→lt, ==_iff,
  ==_refl, Bool-cases, Option-cases, and_left, and_right, Bool-ext, length, get_elem?, take, drop,
  All, length-append, take-append-drop, length-drop, drop-append, All-append, Bytes, bytes, same,
  same_refl, same_iff, same_ne, empty, has_suffix, contains_byte, has_suffix_iff,
  contains_byte-append, Assoc, get, put, del, get-put, get-del, member, add, remove, member-add,
  member-remove, member-append, Result, ok, err, ok-injective, ◌>>=◌, ◌>>◌, refuse_if, is_some,
}
use sig0lease.Name.{dot, fold, labels, cut_first_label}

abbrev pub underscore : ℕ
underscore = b'_'

unfoldable pub is_service_label : Bytes → Bool
is_service_label [] = false
is_service_label (c ∷ []) = false
is_service_label (c ∷ d ∷ cs) = c == underscore

unfoldable pub is_proto_label : Bytes → Bool
is_proto_label label = same label (bytes "_tcp") || same label (bytes "_udp")

service_of_labels : List Bytes → Option Bytes
service_of_labels (service ∷ proto ∷ domain ∷ rest) =
    if is_service_label service && is_proto_label proto
    then some (service ++ (dot ∷ proto))
    else none
service_of_labels _ = none

unfoldable pub service_type_from_service_name : Bytes → Option Bytes
unfolding service_of_labels
service_type_from_service_name name = service_of_labels (labels (fold name))

unfoldable pub service_type_from_instance_name : Bytes → Option Bytes
service_type_from_instance_name name =
    if (cut_first_label name).2
    then service_type_from_service_name (cut_first_label name).1
    else none

pub data ServiceTypeError : Type 0 where
  not_two_labels bad_proto no_underscore bad_length bad_hyphen bad_character no_letter :
      ServiceTypeError

is_letter : ℕ → Bool
is_letter c = (leb b'a' c && leb c b'z') || (leb b'A' c && leb c b'Z')

is_digit : ℕ → Bool
is_digit c = leb b'0' c && leb c b'9'

-- The loop over a Service Name: the byte before, if there is one, and whether a letter was seen.
syntax_loop : Option ℕ → Bool → Bytes → Result ServiceTypeError Bool
unfolding is_letter is_digit
syntax_loop before has_letter [] = ok has_letter
syntax_loop before has_letter (c ∷ cs) =
    let letter = syntax_loop (some c) true cs in
    let other = syntax_loop (some c) has_letter cs in
    if is_letter c
    then letter
    else if is_digit c
    then other
    else if c == b'-'
    then (if not (is_some before) || empty cs || after_hyphen before then err bad_hyphen else other)
    else err bad_character
  where
    after_hyphen : Option ℕ → Bool
    after_hyphen none = false
    after_hyphen (some b) = b == b'-'

unfoldable pub validate_service_name_syntax : Bytes → Result ServiceTypeError (Unit {0})
unfolding syntax_loop
validate_service_name_syntax name = do
  refuse_if (ltb (length name) 1 || ltb 15 (length name)) bad_length
  has_letter ← syntax_loop none false name
  refuse_if (not has_letter) no_letter

validate_labels : List Bytes → Result ServiceTypeError (Unit {0})
validate_labels (service ∷ proto ∷ []) = do
  refuse_if (not (is_proto_label (fold proto))) bad_proto
  refuse_if (not (starts_underscore service)) no_underscore
  validate_service_name_syntax (drop 1 service)
  where
    starts_underscore : Bytes → Bool
    starts_underscore [] = false
    starts_underscore (c ∷ cs) = c == underscore
validate_labels _ = err not_two_labels

-- `ValidateServiceType`.
unfoldable pub validate_service_type : Bytes → Result ServiceTypeError (Unit {0})
unfolding validate_labels
validate_service_type svc_type = validate_labels (labels svc_type)
