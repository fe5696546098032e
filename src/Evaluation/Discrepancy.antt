-- ===== src/Evaluation/Discrepancy.antt =====
-- How often the rules and the policy find a planted discrepancy, evals/discrepancy_eval.py. Reading
-- the fixtures is left out; new uuids are parameters.
pub mod Flagged
pub mod Quality
use Prim.Native.String.{String}
use ai_account_payable_invoi.Prelude.{
  ℕ, suc, ◌+◌, ◌-◌, ◌*◌, ◌/◌, ◌%◌, ◌^◌, Bool, true, false, not, Option, none, some, List, [], ◌∷◌,
  ◌++◌, map, ltb, ◌==◌, nat_eq, list_eq, nat_beq, if◌then◌else◌,
}
use ai_account_payable_invoi.Prelude.Int
use ai_account_payable_invoi.Prelude.Int.{◌*ℕ◌}
use ai_account_payable_invoi.Text.{Text, Unicode, text}
use ai_account_payable_invoi.Float.{Float, finite}
use ai_account_payable_invoi.Decimal.{Decimal, is_zero, zero_amount}
use ai_account_payable_invoi.Domain.State.{approved, needs_review, status_eq}
use ai_account_payable_invoi.Domain.Extraction.{ExtractedInvoice, Confidences, critical_fields}
use ai_account_payable_invoi.Domain.Matching.{
  VendorIdentity, PoIdentity, PoMatchResult, match_vendor, match_po,
}
use ai_account_payable_invoi.Domain.Validation.{
  PoSnapshot, DuplicateCandidate, ValidationInput, run_rules, has_blocking_failure,
}
use ai_account_payable_invoi.Domain.Approval.{decide_approval}
use ai_account_payable_invoi.Services.Approval.{is_identified}
use ai_account_payable_invoi.Evaluation.Ratio.{Ratio, ratio_or, whole, plus, times, over}

-- The double 0.95 for every critical field.
abbrev pub full_confidence : Confidences
full_confidence = map (λ f. (f, finite (Int.pos (0x1e666666666666 * 2 ^ 1021)))) critical_fields

abbrev pub same_number : Option Text → Option Text → Bool
same_number none none = true
same_number (some a) (some b) = a == b
same_number a b = false

-- `str(number)`
abbrev shown : Option Text → Text
shown none = text "None"
shown (some t) = t

module _ (uuid4 : ℕ) where
  unfoldable pub duplicates_of : Option Text → List ExtractedInvoice → List DuplicateCandidate
  duplicates_of number [] = []
  duplicates_of number (o ∷ others) =
      let rest = duplicates_of number others in
      if same_number o.invoice_number number
      then (record {
        invoice_id = uuid4;
        invoice_number = shown o.invoice_number;
        status = approved;
      })
        ∷ rest
      else rest

abbrev offered : Option PoIdentity → List PoIdentity
offered none = []
offered (some po) = po ∷ []

-- The snapshot of the order, if it was matched.
abbrev snapshot : Option ℕ → Option PoIdentity → Decimal → Text → ℕ → Option PoSnapshot
snapshot none po total currency vendor_id = none
snapshot (some id) none total currency vendor_id = none
snapshot (some id) (some po) total currency vendor_id =
    some (record {
      po_number = po.po_number;
      currency = currency;
      total = total;
      vendor_id = vendor_id;
    })

abbrev has_snapshot : Option PoSnapshot → Bool
has_snapshot none = false
has_snapshot (some po) = true

module _ (u : Unicode) (ratio : Text → Text → Float) (uuid4 : ℕ) where
  -- `_decide`: whether the invoice needs a review.
  unfoldable pub needs_review_of :
      ExtractedInvoice
      → VendorIdentity
      → Option PoIdentity
      → Decimal
      → Text
      → List ExtractedInvoice
      → Bool
  unfolding duplicates_of
  needs_review_of invoice vendor po po_total po_currency others =
      let vendor_result = match_vendor u ratio invoice (vendor ∷ []) in
      let po_result = match_po u invoice (offered po) in
      let matched_po = snapshot po_result.po_id po po_total po_currency vendor.vendor_id in
      let results = run_rules u (record {
        invoice = invoice;
        matched_po = matched_po;
        matched_vendor_id = vendor_result.vendor_id;
        duplicate_candidates = duplicates_of uuid4 invoice.invoice_number others;
      }) in
      let decision =
        decide_approval (not (has_blocking_failure results)) (is_identified vendor_result.method)
          (has_snapshot matched_po) full_confidence in
      decision.outcome == needs_review

-- `round` to a whole number of `unit`, ties to the even one.
unfoldable pub half_even : ℕ → ℕ → ℕ
half_even unit n =
    let q = n / unit in
    let twice = 2 * (n % unit) in
    if ltb twice unit then q else if ltb unit twice then q + 1 else q + q % 2

-- `(amount * Decimal(percent / 100)).quantize(Decimal("0.01"))`: the product has two decimals more
-- than the amount, which the rounding takes off again, down to two.
unfoldable pub scaled : ℕ → Decimal → Decimal
unfolding half_even
scaled percent amount = elim (amount.coefficient *ℕ percent) [
  | Int.pos n ↦ record { coefficient = Int.pos (half_even (10 ^ amount.scale) n); scale = 2 }
  | Int.negsuc n ↦ record {
    coefficient = Int.sub_ℕ 0 (half_even (10 ^ amount.scale) (suc n));
    scale = 2;
  }
]

-- `value or default`
abbrev pub or_text : Option Text → Text → Text
or_text none t = t
or_text (some []) t = t
or_text (some (c ∷ s)) t = c ∷ s

abbrev pub or_zero : Option Decimal → Decimal
or_zero none = zero_amount
or_zero (some d) = if is_zero d then zero_amount else d

pub record Scenario : Type 0 where
  pub name : String
  pub expected : Bool
  pub actual : Bool

module _ (uuid4 : ℕ → ℕ) where
  -- The vendor and the order that a fixture is given.
  abbrev pub seeded_vendor : ExtractedInvoice → VendorIdentity
  seeded_vendor raw = record {
    vendor_id = uuid4 0;
    legal_name = or_text raw.supplier_name (text "UNKNOWN");
    tax_id = raw.supplier_tax_id;
    aliases = [];
  }

  abbrev pub seeded_number : Text → ExtractedInvoice → Text
  seeded_number name raw = or_text raw.purchase_order_number (text "PO-" ++ name)

  abbrev pub seeded_order : Text → ExtractedInvoice → Option PoIdentity
  seeded_order name raw = some (record { po_id = uuid4 1; po_number = seeded_number name raw })

module _ (u : Unicode) (ratio : Text → Text → Float) (uuid4 : ℕ → ℕ) where
  -- `_scenarios`, after the fixture is read.
  unfoldable pub scenarios : Text → ExtractedInvoice → List Scenario
  unfolding needs_review_of scaled
  scenarios name raw =
      let vendor = seeded_vendor uuid4 raw in
      let po_total = or_zero raw.total in
      let po_currency = or_text raw.currency (text "EUR") in
      let po_number = seeded_number uuid4 name raw in
      let po = seeded_order uuid4 name raw in
      let invoice = record raw { purchase_order_number = some po_number } in
      let other_currency = if po_currency == text "USD" then text "GBP" else text "USD" in
      let judged : ExtractedInvoice → List ExtractedInvoice → Bool =
        λ v others. needs_review_of u ratio (uuid4 2) v vendor po po_total po_currency others in
      record { name = "clean"; expected = false; actual = judged invoice [] }
      ∷ record {
        name = "po_overage";
        expected = true;
        actual = judged (record invoice { total = some (scaled 120 po_total) }) [];
      }
      ∷ record {
        name = "po_underage";
        expected = true;
        actual = judged (record invoice { total = some (scaled 80 po_total) }) [];
      }
      ∷ record {
        name = "duplicate_invoice";
        expected = true;
        actual = judged invoice (invoice ∷ []);
      }
      ∷ record {
        name = "currency_mismatch";
        expected = true;
        actual = judged (record invoice { currency = some other_currency }) [];
      }
      ∷ record {
        name = "unknown_vendor";
        expected = true;
        actual =
            judged
              (record invoice {
                supplier_name = some (text "Totally Unrelated Co");
                supplier_tax_id = some (text "IT00000099999");
              })
              [];
      }
      ∷ record {
        name = "no_po";
        expected = true;
        actual = judged (record invoice { purchase_order_number = none }) [];
      }
      ∷ []

pub record Tally : Type 0 where
  pub tp : ℕ
  pub fp : ℕ
  pub tn : ℕ
  pub fn : ℕ

abbrev pub tally_one : Bool → Bool → Tally → Tally
tally_one true true t = record t { tp = suc t.tp }
tally_one false true t = record t { fp = suc t.fp }
tally_one false false t = record t { tn = suc t.tn }
tally_one true false t = record t { fn = suc t.fn }

unfoldable pub tally_from : Tally → List Scenario → Tally
tally_from t [] = t
tally_from t (s ∷ ss) = tally_from (tally_one s.expected s.actual t) ss

-- `tp / (tp + fp)` and `tp / (tp + fn)`
unfoldable pub precision : Tally → Ratio
precision t = ratio_or 1 t.tp (t.tp + t.fp)

unfoldable pub recall : Tally → Ratio
recall t = ratio_or 1 t.tp (t.tp + t.fn)

-- `2 * precision * recall / (precision + recall)`
abbrev f1_of : Ratio → Ratio → Ratio
f1_of p r =
    if nat_beq (plus p r).num 0 then whole 0 else over (times (times (whole 2) p) r) (plus p r)

unfoldable pub f1 : Tally → Ratio
unfolding precision recall
f1 t = f1_of (precision t) (recall t)

abbrev pub code_of : ℕ → ℕ
code_of fn = if nat_beq fn 0 then 0 else 1

abbrev pub tally : List Scenario → Tally
tally = tally_from (record { tp = 0; fp = 0; tn = 0; fn = 0 })

-- What `main` returns after its report; without fixtures it is 1.
unfoldable pub exit_code : List Scenario → ℕ
unfolding tally_from
exit_code [] = 1
exit_code (s ∷ ss) = code_of (tally (s ∷ ss)).fn
