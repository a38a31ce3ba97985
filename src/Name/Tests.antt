-- ===== src/Name/Tests.antt =====
-- Names at work: tests of pkg/dnsname, and the theorems at concrete inputs.
use sig0lease.Base.{
  ℕ, ◌≤◌, ◌≡◌, refl, ◌≢◌, ◌↔◌, true, false, none, some, [], ◌∷◌, length, Bytes, bytes, same, empty,
  has_suffix, contains_byte, ok, err,
}
use sig0lease.Name.{
  dot, trim_dot, fold, normalize, is_at_or_below, labels, check_label, label_dotted,
  max_label_length,
}
use sig0lease.Name.Labels.{check_label_iff}
use sig0lease.Name.Below.{EndsIn, is_at_or_below_iff}
use sig0lease.Name.Wire.{walk_message}
use sig0lease.Name.Wire.Label.{outcome, dotted_wire_label}

abbrev upper : Bytes
upper = bytes "DEMO.Example."

abbrev lower : Bytes
lower = bytes "demo.example."

abbrev evil : Bytes
evil = bytes "evilsrp.test."

abbrev zone : Bytes
zone = bytes "srp.test."

abbrev sub : Bytes
sub = bytes "a.srp.test."

folds : fold upper ≡ lower
unfolding fold
folds = refl

not_at_half_a_label : is_at_or_below evil zone ≡ false
unfolding is_at_or_below normalize fold trim_dot empty same has_suffix
not_at_half_a_label = refl

below_zone : is_at_or_below sub zone ≡ true
unfolding is_at_or_below normalize fold trim_dot empty same has_suffix
below_zone = refl

dotted_label : check_label (bytes "Printer v2.1") ≡ err label_dotted
unfolding check_label
dotted_label = refl

-- An update for the zone "a." with one PTR, whose owner is a compression pointer to it and whose
-- target's label holds a dot.
abbrev update : ℕ → Bytes
update separator =
    0 ∷ 1 ∷ 40 ∷ 0 ∷ 0 ∷ 1 ∷ 0 ∷ 0 ∷ 0 ∷ 1 ∷ 0 ∷ 0 ∷ 1 ∷ b'a' ∷ 0 ∷ 0 ∷ 6 ∷ 0 ∷ 1 ∷ 0xC0 ∷ 12 ∷ 0
    ∷ 12 ∷ 0 ∷ 1 ∷ 0 ∷ 0 ∷ 0 ∷ 0 ∷ 0 ∷ 6 ∷ 3 ∷ b'v' ∷ separator ∷ b'1' ∷ 0xC0 ∷ 12 ∷ []

finds_label : dotted_wire_label (update dot) ≡ ok (some (bytes "v.1"))
unfolding dotted_wire_label contains_byte outcome walk_message
finds_label = refl

finds_none : dotted_wire_label (update b'-') ≡ ok none
unfolding dotted_wire_label contains_byte outcome walk_message
finds_none = refl

check_label_iff_example : (check_label (bytes "printer") ≡ ok tt) ↔ (
    (labels (bytes "printer") ≡ bytes "printer" ∷ [])
    × (length (bytes "printer") ≤ max_label_length))
check_label_iff_example = check_label_iff (bytes "printer")

zone_ne : normalize zone ≢ []
unfolding normalize fold trim_dot
zone_ne h = cc

is_at_or_below_iff_example :
    (is_at_or_below sub zone ≡ true) ↔ EndsIn (labels (normalize sub)) (labels (normalize zone))
is_at_or_below_iff_example = is_at_or_below_iff sub zone zone_ne

below_root : is_at_or_below zone (bytes ".") ≡ true
unfolding is_at_or_below normalize fold trim_dot empty
below_root = refl
