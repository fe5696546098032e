-- ===== src/Domain/RuleResults.antt =====
-- What a financial rule gives, of src/invoice_ops/domain/validation.py. A message is a constructor for
-- each template, with the values that the f-string prints.
use Prim.Native.String.{String}
use ai_account_payable_invoi.Prelude.{ℕ, Bool, true, false, List}
use ai_account_payable_invoi.Text.{Text}
use ai_account_payable_invoi.Decimal.{Decimal, Quotient}

pub data Severity : Type 0 where
  info warning error : Severity

pub data RuleName : Type 0 where
  required_fields_present arithmetic_consistency line_items_sum_to_subtotal po_amount_tolerance
        po_currency_match po_vendor_mismatch duplicate_invoice_number :
      RuleName

pub data Direction : Type 0 where
  exceeds is_under : Direction

pub data Message : Type 0 where
  all_present : Message
  missing_fields : List String → Message
  amounts_not_all_present : Message
  total_matches : Message
  total_differs : Decimal → Decimal → Decimal → Decimal → Message
  no_lines_or_subtotal : Message
  unpriced_lines : ℕ → ℕ → Message
  lines_match : Message
  lines_differ : Decimal → Decimal → Message
  no_po_matched : Message
  no_total_for_po : Message
  po_total_zero : Text → Message
  within_po : Text → Message
  off_po : Direction → Text → Decimal → Quotient → Message
  no_currency : Message
  currency_matches : Message
  currency_differs : Text → Text → Message
  supplier_unknown : Text → Message
  po_of_vendor : Message
  po_of_other_vendor : Text → Message
  no_invoice_number : Message
  no_duplicate : Message
  duplicate_of : Text → List ℕ → Message

-- The `detail` dict, by the rule that fills it.
pub data Detail : Type 0 where
  no_detail : Detail
  missing : List String → Detail
  arithmetic : Decimal → Decimal → Decimal → Detail
  lines : Decimal → Decimal → Detail
  po : Decimal → Decimal → Quotient → Detail
  candidates : List ℕ → Detail

pub record RuleResult : Type 0 where
  pub rule : RuleName
  pub severity : Severity
  pub passed : Bool
  pub message : Message
  pub detail : Detail

-- A rule that has nothing to check.
abbrev pub skipped : RuleName → Message → RuleResult
skipped r m = record { rule = r; severity = info; passed = true; message = m; detail = no_detail }

-- A failure that does not block.
abbrev pub warned : RuleName → Message → RuleResult
warned r m = record {
  rule = r;
  severity = warning;
  passed = false;
  message = m;
  detail = no_detail;
}
