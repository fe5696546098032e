-- ===== src/Domain/State/Trails.antt =====
-- Sequences of legal moves: how long they are, where they end, and what they must pass through.
use ai_account_payable_invoi.Prelude.{
  ℕ, ◌+◌, ◌≤◌, ◌<◌, ◌≡◌, refl, ◌↔◌, ◌⊎◌, inl, inr, Bool, true, false, ◌||◌, List, [], ◌∷◌, ◌++◌,
  arith, length, any, contains, ◌==◌, Bool-cases, ltb,
}
use ai_account_payable_invoi.Domain.State.{
  InvoiceStatus, received, extracting, extracted, matching, validating, validated, needs_review,
  auto_approved, approved, rejected, exporting, exported, failed, status_eq, can_transition,
  is_terminal, status_beq_iff,
}

-- The statuses that an invoice moves to, one after the other, each by a legal move.
abbrev pub IsTrail : InvoiceStatus → List InvoiceStatus → Type 0
IsTrail s [] = Unit
IsTrail s (t ∷ ts) = (can_transition s t ≡ true) × IsTrail t ts

abbrev pub last_status : InvoiceStatus → List InvoiceStatus → InvoiceStatus
last_status s [] = s
last_status s (t ∷ ts) = last_status t ts

pub IsTrail-append :
    (s : InvoiceStatus) (ts us : List InvoiceStatus)
    → IsTrail s ts
    → IsTrail (last_status s ts) us
    → IsTrail s (ts ++ us)
IsTrail-append s [] us h k = k
IsTrail-append s (t ∷ ts) us h k = (h.0, IsTrail-append t ts us h.1 k)

pub last_status-append :
    (s : InvoiceStatus) (ts us : List InvoiceStatus)
    → last_status s (ts ++ us) ≡ last_status (last_status s ts) us
last_status-append s [] us = refl
last_status-append s (t ∷ ts) us = last_status-append t ts us

-- Each legal move goes strictly down the pipeline.
abbrev depth : InvoiceStatus → ℕ
depth received = 0
depth extracting = 1
depth extracted = 2
depth matching = 3
depth validating = 4
depth validated = 5
depth needs_review = 6
depth auto_approved = 7
depth approved = 7
depth exporting = 8
depth _ = 9

can_transition-depth : (s t : InvoiceStatus) → can_transition s t ≡ true → depth s < depth t
unfolding can_transition
can_transition-depth received t h = ground arith
can_transition-depth _ t h = ground arith

depth_le : (s : InvoiceStatus) → depth s ≤ 9
depth_le received = omega arith
depth_le _ = omega arith

trail_length_from :
    (s : InvoiceStatus) (ts : List InvoiceStatus) → IsTrail s ts → length ts + depth s ≤ 9
trail_length_from s [] h = omega (arith, depth_le s)
trail_length_from s (t ∷ ts) h =
    omega (arith, can_transition-depth s t h.0, trail_length_from t ts h.1)

-- No invoice makes more than nine moves.
pub trail_length : (s : InvoiceStatus) (ts : List InvoiceStatus) → IsTrail s ts → length ts ≤ 9
trail_length s ts h = omega (arith, trail_length_from s ts h)

-- Statuses that a trail can enter lie below where it starts.
below-contains :
    (n : ℕ) (s : InvoiceStatus) (ts : List InvoiceStatus) (a : InvoiceStatus)
    → IsTrail s ts
    → depth a ≤ depth s
    → contains ts a ≡ false
below-contains n s [] a h le = refl
below-contains n s (t ∷ ts) a h le =
    ground (arith, can_transition-depth s t h.0, below-contains n t ts a h.1, status_beq_iff t a)

abbrev pub IsDistinct : List InvoiceStatus → Type 0
IsDistinct [] = Unit
IsDistinct (s ∷ ss) = (contains ss s ≡ false) × IsDistinct ss

-- An invoice never comes back to a status that it has left.
pub trail-IsDistinct :
    (s : InvoiceStatus) (ts : List InvoiceStatus) → IsTrail s ts → IsDistinct (s ∷ ts)
trail-IsDistinct s [] h = (refl, tt)
trail-IsDistinct s (t ∷ ts) h =
    (below-contains 0 s (t ∷ ts) s h (omega arith), trail-IsDistinct t ts h.1)

abbrev pub is_approval : InvoiceStatus → Bool
is_approval s = s == auto_approved || s == approved

abbrev pub is_handed_off : InvoiceStatus → Bool
is_handed_off s = s == exporting || s == exported

-- What a status that still needs its approval can move to.
abbrev awaits_approval : InvoiceStatus → Bool
awaits_approval s = ltb (depth s) 7

awaits_approval-step :
    (s t : InvoiceStatus)
    → can_transition s t ≡ true
    → awaits_approval s ≡ true
    → is_approval t ≡ false
    → (awaits_approval t ≡ true) ⊎ ((t ≡ rejected) ⊎ (t ≡ failed))
unfolding can_transition
awaits_approval-step received t = ground arith
awaits_approval-step _ t = ground arith

closed_stays :
    (s : InvoiceStatus) (ts : List InvoiceStatus)
    → (s ≡ rejected) ⊎ (s ≡ failed)
    → IsTrail s ts
    → last_status s ts ≡ s
unfolding can_transition
closed_stays s [] c h = refl
closed_stays s (t ∷ ts) c h = ground arith

trail_needs_approval_from :
    (s : InvoiceStatus) (ts : List InvoiceStatus)
    → IsTrail s ts
    → awaits_approval s ≡ true
    → is_handed_off (last_status s ts) ≡ true
    → any is_approval ts ≡ true
trail_needs_approval_from s [] h a e = ground (arith, at_handed_off s)
  where
    at_handed_off : (u : InvoiceStatus) → awaits_approval u ≡ true → is_handed_off u ≡ false
    at_handed_off received = ground arith
    at_handed_off _ = ground arith
trail_needs_approval_from s (t ∷ ts) h a e = elim (Bool-cases (is_approval t)) [
  | inl y ↦ ground arith
  | inr n ↦ elim (awaits_approval-step s t h.0 a n) [
    | inl w ↦ ground (arith, trail_needs_approval_from t ts h.1 w e)
    | inr c ↦ ground (arith, closed_stays t ts c h.1)
  ]
]

-- An invoice that got as far as the export was approved on the way, by the system or by a person.
pub trail_needs_approval :
    (ts : List InvoiceStatus)
    → IsTrail received ts
    → is_handed_off (last_status received ts) ≡ true
    → any is_approval ts ≡ true
trail_needs_approval ts h e = trail_needs_approval_from received ts h refl e

-- A move out of each status that has one.
abbrev forward : InvoiceStatus → InvoiceStatus
forward received = extracting
forward extracting = extracted
forward extracted = matching
forward matching = validating
forward validating = validated
forward validated = needs_review
forward needs_review = approved
forward auto_approved = exporting
forward approved = exporting
forward _ = exported

-- A status is terminal exactly when no move leaves it.
pub is_terminal_iff :
    (s : InvoiceStatus)
    → (is_terminal s ≡ true) ↔ ((t : InvoiceStatus) → can_transition s t ≡ false)
unfolding is_terminal can_transition
is_terminal_iff received = (λ e. cc, λ h. cc (h (forward received)))
is_terminal_iff s = (λ e t. ground arith, λ h. ground (arith, h (forward s)))

abbrev finish : InvoiceStatus → List InvoiceStatus
finish received =
    extracting ∷ extracted ∷ matching ∷ validating ∷ validated ∷ needs_review ∷ rejected ∷ []
finish extracting = failed ∷ []
finish extracted = failed ∷ []
finish matching = failed ∷ []
finish validating = failed ∷ []
finish validated = needs_review ∷ rejected ∷ []
finish needs_review = rejected ∷ []
finish auto_approved = exporting ∷ exported ∷ []
finish approved = exporting ∷ exported ∷ []
finish exporting = exported ∷ []
finish _ = []

-- From every status a sequence of legal moves leads to a terminal one.
pub can_finish :
    (s : InvoiceStatus)
    → (ts : List InvoiceStatus) × IsTrail s ts × (is_terminal (last_status s ts) ≡ true)
unfolding is_terminal can_transition
can_finish received = (finish received, ground arith, refl)
can_finish s = (finish s, ground arith, ground arith)
