-- ===== src/Name/Wire/Sections.antt =====
-- What the walk over a message's sections has looked at, and that a good message is walked through.
use sig0lease.Base.{
  ℕ, zero, suc, ◌+◌, ◌≤◌, ◌<◌, ◌≡◌, refl, ◌∙◌, subst, ◌⊎◌, inl, inr, Bool, true, false, Option,
  none, some, arith, ltb, if◌then◌else◌, Bool-cases, length, Bytes,
}
use sig0lease.Name.Wire.{
  NameWalk, dotted, behind, failed, out_of_fuel, SectionWalk, walked, found, broken, exhausted,
  WireError, u16, dotted_name, rdata_name_offset, on_behind, on_rdata, and_then, walk_message,
  walk_questions, walk_records,
}
use sig0lease.Name.Wire.Walks.{dotted_name_total}
use sig0lease.Name.Wire.Reads.{CleanName, FirstDotted, Explains, dotted_name-Explains}
use sig0lease.Name.Wire.Complete.{dotted_name_complete}

-- The question section from an offset on: `n` clean names, each with its type and class.
pub data CleanQuestions (msg : Bytes) : ℕ → ℕ → ℕ → Type 0 where
  done : (o : ℕ) → CleanQuestions msg zero o o
  question :
      {n o next e : ℕ}
      → CleanName msg o next
      → next + 4 ≤ length msg
      → CleanQuestions msg n (next + 4) e
      → CleanQuestions msg (suc n) o e

-- The name in the RDATA, where the type has one.
abbrev pub CleanRdata : Bytes → Option ℕ → ℕ → ℕ → Type 0
CleanRdata msg t rdlength o =
    (k : ℕ) → t ≡ some k → k < rdlength → (z : ℕ) × CleanName msg (o + k) z

-- The RRs from an offset on: clean owner names, and clean names in the RDATA of the listed types.
pub data CleanRecords (msg : Bytes) : ℕ → ℕ → ℕ → Type 0 where
  done : (o : ℕ) → CleanRecords msg zero o o
  rr :
      {n o next e : ℕ}
      → CleanName msg o next
      → next + 10 + u16 msg (next + 8) ≤ length msg
      → CleanRdata msg (rdata_name_offset (u16 msg next)) (u16 msg (next + 8)) (next + 10)
      → CleanRecords msg n (next + 10 + u16 msg (next + 8)) e
      → CleanRecords msg (suc n) o e

-- A label with a dot in a question's name, the questions before it being clean.
pub data InQuestions (msg : Bytes) (l : Bytes) : ℕ → ℕ → Type 0 where
  in_name : {n o : ℕ} → FirstDotted msg o l → InQuestions msg l (suc n) o
  later :
      {n o next : ℕ}
      → CleanName msg o next
      → InQuestions msg l n (next + 4)
      → InQuestions msg l (suc n) o

-- A label with a dot in an RR's owner name, or in the name of its RDATA.
pub data InRecords (msg : Bytes) (l : Bytes) : ℕ → ℕ → Type 0 where
  in_owner : {n o : ℕ} → FirstDotted msg o l → InRecords msg l (suc n) o
  in_rdata :
      {n o next k : ℕ}
      → CleanName msg o next
      → rdata_name_offset (u16 msg next) ≡ some k
      → k < u16 msg (next + 8)
      → FirstDotted msg (next + 10 + k) l
      → InRecords msg l (suc n) o
  later :
      {n o next : ℕ}
      → CleanName msg o next
      → InRecords msg l n (next + 10 + u16 msg (next + 8))
      → InRecords msg l (suc n) o

clean_of_behind : (msg : Bytes) (o n : ℕ) → dotted_name msg o ≡ behind n → CleanName msg o n
clean_of_behind msg o n h = subst (Explains msg o 0 none) h (dotted_name-Explains msg o)

-- The end of a section's walk: a way to go on, a label with a dot, or an error.
pub data Ends (P : ℕ → Type 0) (D : Bytes → Type 0) : SectionWalk → Type 0 where
  at_end : {e : ℕ} → P e → Ends P D (walked e)
  at_dot : {l : Bytes} → D l → Ends P D (found l)
  at_error : {e : WireError} → Ends P D (broken e)

module _ {P Q : ℕ → Type 0} {D E : Bytes → Type 0} where
  Ends-map :
      {w : SectionWalk}
      → ((e : ℕ) → P e → Q e)
      → ((l : Bytes) → D l → E l)
      → Ends P D w
      → Ends Q E w
  Ends-map f g (at_end {e = e} h) = at_end (f e h)
  Ends-map f g (at_dot {l = l} h) = at_dot (g l h)
  Ends-map f g at_error = at_error

module _ (P : ℕ → Type 0) (D : Bytes → Type 0) (msg : Bytes) where
  -- One name, and what follows it.
  on_behind-Ends :
      (o : ℕ) (rest : ℕ → SectionWalk)
      → ((n : ℕ) → CleanName msg o n → Ends P D (rest n))
      → ((l : Bytes) → FirstDotted msg o l → D l)
      → Ends P D (on_behind (dotted_name msg o) rest)
  unfolding on_behind
  on_behind-Ends o rest h d = go (dotted_name msg o) refl
    where
      go : (w : NameWalk) → dotted_name msg o ≡ w → Ends P D (on_behind w rest)
      go (behind n) e = h n (clean_of_behind msg o n e)
      go (dotted l) e = at_dot (d l (subst (Explains msg o 0 none) e (dotted_name-Explains msg o)))
      go (failed x) e = at_error
      go out_of_fuel e = absurd (dotted_name_total msg o e)

  -- A test of the bounds.
  Ends-if :
      (w : SectionWalk) (b : Bool) (e : WireError)
      → (b ≡ false → Ends P D w)
      → Ends P D (if b then broken e else w)
  Ends-if w true e h = at_error
  Ends-if w false e h = h refl

  on_rdata-Ends :
      (t : Option ℕ) (rdlength o : ℕ) (rest : SectionWalk)
      → (CleanRdata msg t rdlength o → Ends P D rest)
      → ((k : ℕ) (l : Bytes) → t ≡ some k → k < rdlength → FirstDotted msg (o + k) l → D l)
      → Ends P D (on_rdata msg t rdlength o rest)
  unfolding on_rdata
  on_rdata-Ends none rdlength o rest h d = h (λ k e. cc)
  on_rdata-Ends (some n) rdlength o rest h d = elim (Bool-cases (ltb n rdlength)) [
    | inl t ↦ rw t (
        on_behind-Ends (o + n) _
          (λ next c. h (λ k p q.
            let same_offset : n ≡ k = ground arith in
            (next, subst (λ k. CleanName msg (o + k) next) same_offset c)))
          (λ l f. d n l refl (ground arith) f))
    | inr t ↦ rw t (h (λ k p q. absurd (ground arith)))
  ]

walk_questions-Ends :
    (n : ℕ) (msg : Bytes) (o : ℕ)
    → Ends (CleanQuestions msg n o) (λ l. InQuestions msg l n o) (walk_questions n msg o)
unfolding walk_questions
walk_questions-Ends zero msg o = at_end (CleanQuestions.done o)
walk_questions-Ends (suc n) msg o =
    on_behind-Ends _ _ msg o _
      (λ next c. Ends-if _ _ msg _ (ltb (length msg) (next + 4)) _ λ b.
        Ends-map (λ e x. question c (ground arith) x) (λ l x. InQuestions.later c x)
          (walk_questions-Ends n msg (next + 4)))
      (λ l f. in_name f)

walk_records-Ends :
    (n : ℕ) (msg : Bytes) (o : ℕ)
    → Ends (CleanRecords msg n o) (λ l. InRecords msg l n o) (walk_records n msg o)
unfolding walk_records
walk_records-Ends zero msg o = at_end (CleanRecords.done o)
walk_records-Ends (suc n) msg o =
    on_behind-Ends _ _ msg o _
      (λ next c. Ends-if _ _ msg _ (ltb (length msg) (next + 10)) _ λ b.
        Ends-if _ _ msg _ (ltb (length msg) (next + 10 + u16 msg (next + 8))) _ λ b'.
          on_rdata-Ends _ _ msg _ _ _ _
            (λ clean.
              Ends-map (λ e x. rr c (ground arith) clean x) (λ l x. InRecords.later c x)
                (walk_records-Ends n msg (next + 10 + u16 msg (next + 8))))
            (λ k l t i f. in_rdata c t i f))
      (λ l f. in_owner f)

walk_questions_complete :
    (msg : Bytes) (n o e : ℕ) → CleanQuestions msg n o e → walk_questions n msg o ≡ walked e
unfolding walk_questions on_behind
walk_questions_complete msg n o e (done _) = refl
walk_questions_complete msg (suc n) o e (question {next = next} c i rest) =
    let room : ltb (length msg) (next + 4) ≡ false = ground (arith, i) in
    rw (dotted_name_complete msg o next c, room) (walk_questions_complete msg n (next + 4) e rest)

on_rdata_complete :
    (msg : Bytes) (t : Option ℕ) (rdlength o : ℕ) (rest : SectionWalk)
    → CleanRdata msg t rdlength o
    → on_rdata msg t rdlength o rest ≡ rest
unfolding on_rdata on_behind
on_rdata_complete msg none rdlength o rest c = refl
on_rdata_complete msg (some k) rdlength o rest c = elim (Bool-cases (ltb k rdlength)) [
  | inl t ↦
      let (z, name) = c k refl (ground arith) in
      rw (t, dotted_name_complete msg (o + k) z name) refl
  | inr t ↦ rw t refl
]

walk_records_complete :
    (msg : Bytes) (n o e : ℕ) → CleanRecords msg n o e → walk_records n msg o ≡ walked e
unfolding walk_records on_behind
walk_records_complete msg n o e (done _) = refl
walk_records_complete msg (suc n) o e (rr {next = next} c i clean rest) =
    let room : ltb (length msg) (next + 10) ≡ false = ground (arith, i) in
    let room' : ltb (length msg) (next + 10 + u16 msg (next + 8)) ≡ false = ground (arith, i) in
    rw (dotted_name_complete msg o next c, room, room')
      (on_rdata_complete msg _ _ _ _ clean ∙ walk_records_complete msg n _ e rest)

-- All the names of the message that the walk looks at.
abbrev pub CleanMessage : Bytes → Type 0
CleanMessage msg =
    (m : ℕ) × (e : ℕ) × CleanQuestions msg (u16 msg 4) 12 m
    × CleanRecords msg (u16 msg 6 + u16 msg 8 + u16 msg 10) m e

-- A label with a dot in one of these names, all names before it being clean.
abbrev pub InMessage : Bytes → Bytes → Type 0
InMessage msg l =
    InQuestions msg l (u16 msg 4) 12
    ⊎ ((m : ℕ) × CleanQuestions msg (u16 msg 4) 12 m
        × InRecords msg l (u16 msg 6 + u16 msg 8 + u16 msg 10) m)

pub walk_message-Ends :
    (msg : Bytes) → Ends (λ _. CleanMessage msg) (InMessage msg) (walk_message msg)
unfolding walk_message and_then
walk_message-Ends msg = go (walk_questions (u16 msg 4) msg 12) (walk_questions-Ends _ msg 12)
  where
    go :
        (w : SectionWalk)
        → Ends (CleanQuestions msg (u16 msg 4) 12) (λ l. InQuestions msg l (u16 msg 4) 12) w
        → Ends
            (λ _. CleanMessage msg)
            (InMessage msg)
            (and_then w (walk_records (u16 msg 6 + u16 msg 8 + u16 msg 10) msg))
    go (walked m) (at_end q) =
        Ends-map (λ e x. (m, e, q, x)) (λ l x. inr (m, q, x)) (walk_records-Ends _ msg m)
    go (found l) (at_dot h) = at_dot (inl h)
    go (broken e) at_error = at_error
    go exhausted q = elim q [ ]

pub walk_message_complete :
    (msg : Bytes) → CleanMessage msg → (e : ℕ) × (walk_message msg ≡ walked e)
unfolding walk_message and_then
walk_message_complete msg (m, e, q, r) =
    (e, rw (walk_questions_complete msg _ 12 m q) (walk_records_complete msg _ m e r))
