-- ===== src/Name/Wire/Label.antt =====
-- pkg/dnsname/wire.go: DottedWireLabel as a whole.
use sig0lease.Base.{
  ◌≤◌, refl, subst, ◌≢◌, Option, none, some, ltb, if◌then◌else◌, length, Bytes, Result, ok, err,
}
use sig0lease.Name.Wire.{
  SectionWalk, walked, found, broken, exhausted, WireError, truncated, walk_message,
}
use sig0lease.Name.Wire.Sections.{Ends, CleanMessage, InMessage, walk_message-Ends}

-- The end of the walk, which is not out of fuel.
unfoldable pub outcome : (w : SectionWalk) → w ≢ exhausted → Result WireError (Option Bytes)
outcome (walked off) ends = ok none
outcome (found l) ends = ok (some l)
outcome (broken e) ends = err e
outcome exhausted ends = absurd (ends refl)

pub walk_message_total : (msg : Bytes) → walk_message msg ≢ exhausted
walk_message_total msg q = go (subst (Ends _ _) q (walk_message-Ends msg))
  where
    go : Ends (λ _. CleanMessage msg) (InMessage msg) exhausted → ⊥
    go x = elim x [ ]

unfoldable pub dotted_wire_label : Bytes → Result WireError (Option Bytes)
dotted_wire_label msg =
    if ltb (length msg) 12
    then err truncated
    else outcome (walk_message msg) (walk_message_total msg)

-- What each result says of the message.
abbrev pub Tells : Bytes → Result WireError (Option Bytes) → Type 0
Tells msg (ok none) = (12 ≤ length msg) × CleanMessage msg
Tells msg (ok (some l)) = (12 ≤ length msg) × InMessage msg l
Tells msg (err e) = ¬ ((12 ≤ length msg) × CleanMessage msg)
