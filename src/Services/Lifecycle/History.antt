-- ===== src/Services/Lifecycle/History.antt =====
-- The audit log is the history of the status: what `advance` keeps, and what follows from it.
use mathlib.Core.List.{append-nil, append_assoc}
use ai_account_payable_invoi.Prelude.{
  ◌≤◌, ◌≡◌, refl, sym, ap, ◌∙◌, ◌↔◌, Bool, true, false, Bool-cases, Option, List, [], ◌∷◌, ◌++◌,
  map, any, length, length-map, arith, inl, inr,
}
use ai_account_payable_invoi.Text.{Text}
use ai_account_payable_invoi.Domain.State.{InvoiceStatus, received, can_transition}
use ai_account_payable_invoi.Domain.State.Trails.{
  IsTrail, last_status, trail_length, trail_needs_approval, is_approval, is_handed_off, IsDistinct,
  trail-IsDistinct,
}
use ai_account_payable_invoi.Models.{
  Invoice, AuditLog, Reason, Extraction, InvoiceMatch, Validation, Export,
}
use ai_account_payable_invoi.Services.Outcome.{ok, ◌>>=◌, >>=-eq-ok}
use ai_account_payable_invoi.Services.Lifecycle.{advance}

-- The entries lead from `s` to `t`, each from where the one before it ended, by a legal move.
abbrev pub IsHistory : InvoiceStatus → List AuditLog → InvoiceStatus → Type 0
IsHistory s [] t = s ≡ t
IsHistory s (e ∷ es) t =
    (e.from_status ≡ s) × (can_transition s e.to_status ≡ true) × IsHistory e.to_status es t

-- The log accounts for the status, from the upload on.
abbrev pub HasHistory : Invoice → Type 0
HasHistory invoice = IsHistory received invoice.audit_log invoice.status

pub IsHistory-append :
    (s t v : InvoiceStatus) (es fs : List AuditLog)
    → IsHistory s es t
    → IsHistory t fs v
    → IsHistory s (es ++ fs) v
IsHistory-append s t v [] fs h k = rw h k
IsHistory-append s t v (e ∷ es) fs h k = (h.0, h.1, IsHistory-append e.to_status t v es fs h.2 k)

abbrev pub statuses : List AuditLog → List InvoiceStatus
statuses = map (λ e. AuditLog.to_status e)

pub history-IsTrail :
    (s t : InvoiceStatus) (es : List AuditLog)
    → IsHistory s es t
    → IsTrail s (statuses es) × (last_status s (statuses es) ≡ t)
history-IsTrail s t [] h = (tt, h)
history-IsTrail s t (e ∷ es) h =
    let rest = history-IsTrail e.to_status t es h.2 in ((h.1, rest.0), rest.1)

-- What a stage may do to an invoice: add entries to its log, which lead from the old status to the
-- new one.
pub record Extends (before after : Invoice) : Type 0 where
  pub entries : List AuditLog
  pub appended : after.audit_log ≡ before.audit_log ++ entries
  pub legal : IsHistory before.status entries after.status
  pub same_id : after.id ≡ before.id
  pub same_digest : after.content_sha256 ≡ before.content_sha256

pub Extends-refl : (v : Invoice) → Extends v v
Extends-refl v = record {
  entries = [];
  appended = sym (append-nil _);
  legal = refl;
  same_id = refl;
  same_digest = refl;
}

pub Extends-trans : {a b c : Invoice} → Extends a b → Extends b c → Extends a c
Extends-trans {a} {b} {c} h k = record {
  entries = h.entries ++ k.entries;
  appended = rw (k.appended, h.appended) (append_assoc a.audit_log h.entries k.entries);
  legal = IsHistory-append _ _ _ h.entries k.entries h.legal k.legal;
  same_id = k.same_id ∙ h.same_id;
  same_digest = k.same_digest ∙ h.same_digest;
}

-- The invoice after a move.
abbrev pub moved : Invoice → InvoiceStatus → Text → Option Reason → Invoice
moved v target actor reason = record v {
  status = target;
  audit_log =
      v.audit_log
      ++ (record { from_status = v.status; to_status = target; actor = actor; reason = reason }
          ∷ []);
}

pub absurd_test : {b : Bool} {P : Type 0} → b ≡ false → b ≡ true → P
absurd_test f t = cc

pub ok-injective {ℓ} : {A : Type ℓ} {a b : A} → ok a ≡ ok b → a ≡ b
ok-injective e = cc

-- A call of `advance` returns an invoice exactly when the move is legal and that invoice is the
-- given one with the new status and one more entry in its log.
pub advance_iff :
    (v w : Invoice) (target : InvoiceStatus) (actor : Text) (reason : Option Reason)
    → (advance v target actor reason ≡ ok w)
      ↔ ((can_transition v.status target ≡ true) × (moved v target actor reason ≡ w))
unfolding advance
advance_iff v w target actor reason = elim (Bool-cases (can_transition v.status target)) [
  | inl y ↦ rw y (λ e. (refl, ok-injective e), λ (_, e). ap ok e)
  | inr n ↦ rw n (λ e. cc, λ (e, _). cc)
]

pub moved-Extends :
    (v : Invoice) (target : InvoiceStatus) (actor : Text) (reason : Option Reason)
    → can_transition v.status target ≡ true
    → Extends v (moved v target actor reason)
moved-Extends v target actor reason h = record {
  entries =
      record { from_status = v.status; to_status = target; actor = actor; reason = reason } ∷ [];
  appended = refl;
  legal = (refl, h, refl);
  same_id = refl;
  same_digest = refl;
}

pub advance-Extends :
    (v w : Invoice) (target : InvoiceStatus) (actor : Text) (reason : Option Reason)
    → advance v target actor reason ≡ ok w
    → Extends v w
advance-Extends v w target actor reason e =
    let (legal, same) = (advance_iff v w target actor reason).0 e in
    rw (← same) (moved-Extends v target actor reason legal)

pub Extends-HasHistory : {v w : Invoice} → Extends v w → HasHistory v → HasHistory w
Extends-HasHistory {v} {w} h k =
    rw h.appended (IsHistory-append received _ _ v.audit_log h.entries k h.legal)

-- An invoice whose log leads by legal moves from RECEIVED to its status has at most nine
-- entries.
pub log_length : (v : Invoice) → HasHistory v → length v.audit_log ≤ 9
log_length v h = omega (
  arith,
  trail_length received _ (history-IsTrail received v.status v.audit_log h).0,
  length-map (λ e. AuditLog.to_status e) v.audit_log,
)

-- An invoice whose log leads by legal moves from RECEIVED to its status has been in no status
-- twice.
pub log-IsDistinct : (v : Invoice) → HasHistory v → IsDistinct (received ∷ statuses v.audit_log)
log-IsDistinct v h = trail-IsDistinct received _ (history-IsTrail received v.status v.audit_log h).0

-- An invoice whose log leads by legal moves from RECEIVED to its status, and that is EXPORTING
-- or EXPORTED, was AUTO_APPROVED or APPROVED on the way.
pub handed_off_was_approved :
    (v : Invoice)
    → HasHistory v
    → is_handed_off v.status ≡ true
    → any is_approval (statuses v.audit_log) ≡ true
handed_off_was_approved v h e =
    let (trail, ends) = history-IsTrail received v.status v.audit_log h in
    trail_needs_approval (statuses v.audit_log) trail (rw ends e)

-- A stage's last step: the move is made, and the row is handed back.
pub after_move {ℓ} :
    {A : Type ℓ} (v w : Invoice) (target : InvoiceStatus) (actor : Text) (reason : Option Reason)
    {r row : A}
    → (advance v target actor reason >>= λ v'. let p : A × Invoice = (r, v') in ok p) ≡ ok (row, w)
    → (can_transition v.status target ≡ true) × (r ≡ row) × (moved v target actor reason ≡ w)
after_move v w target actor reason e =
    let (v', moves, done) = >>=-eq-ok _ _ e in
    let (legal, same) = (advance_iff v v' target actor reason).0 moves in
    let pair = ok-injective done in (legal, ap (λ p. p.0) pair, same ∙ ap (λ p. p.1) pair)

-- Rows may be added before the move: the log does not show them.
pub moved_with :
    (v v' : Invoice) (target : InvoiceStatus) (actor : Text) (reason : Option Reason)
    → v'.audit_log ≡ v.audit_log
    → v'.status ≡ v.status
    → v'.id ≡ v.id
    → v'.content_sha256 ≡ v.content_sha256
    → can_transition v'.status target ≡ true
    → Extends v (moved v' target actor reason)
moved_with v v' target actor reason log status id digest h =
    let entries : List AuditLog =
      record { from_status = v'.status; to_status = target; actor = actor; reason = reason } ∷ [] in
    let legal : can_transition v.status target ≡ true =
      ap (λ s. can_transition s target) (sym status) ∙ h in
    record {
      entries = entries;
      appended = ap (λ es. es ++ entries) log;
      legal = (status, legal, refl);
      same_id = id;
      same_digest = digest;
    }

-- What a stage leaves behind: a longer log, a status, and the rows of each kind.
pub record Leaves (v w : Invoice) (target : InvoiceStatus) (xs : List Extraction)
    (ms : List InvoiceMatch) (vs : List Validation) (es : List Export) : Type 0 where
  pub logged : Extends v w
  pub ends : w.status ≡ target
  pub extractions : w.extractions ≡ xs
  pub matches : w.matches ≡ ms
  pub validations : w.validations ≡ vs
  pub exports : w.exports ≡ es
