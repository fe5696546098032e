-- ===== src/Domain/Matching.antt =====
-- Vendor and purchase-order matching, src/invoice_ops/domain/matching.py. The similarity of two
-- texts, `SequenceMatcher(None, a, b).ratio()`, is a parameter.
pub mod Hits
pub mod Laws
pub mod Ranking
use mathlib.Core.List.{foldr}
use ai_account_payable_invoi.Prelude.{
  ℕ, ◌*◌, ◌^◌, Bool, true, false, ◌&&◌, ◌||◌, Option, none, some, List, [], ◌∷◌, map, keep,
  contains, ◌==◌, nat_eq, list_eq, if◌then◌else◌,
}
use ai_account_payable_invoi.Prelude.Int.{ℤ, pos}
use ai_account_payable_invoi.Text.{Text, Unicode, strip, lowercase, uppercase, split, join_words}
use ai_account_payable_invoi.Float.{Float, finite, lt_float, ge_float, sub_float, zero_float}
use ai_account_payable_invoi.Domain.Extraction.{ExtractedInvoice}

-- The doubles 0.60, 0.88, 0.08, 0.95 and 1.0.
unfoldable pub fuzzy_floor : ℤ
fuzzy_floor = pos (0x13333333333333 * 2 ^ 1021)

unfoldable pub fuzzy_auto_accept : ℤ
fuzzy_auto_accept = pos (0x1c28f5c28f5c29 * 2 ^ 1021)

unfoldable pub fuzzy_ambiguity_gap : ℤ
fuzzy_ambiguity_gap = pos (0x147ae147ae147b * 2 ^ 1018)

unfoldable pub exact_name_confidence : ℤ
exact_name_confidence = pos (0x1e666666666666 * 2 ^ 1021)

unfoldable pub full_confidence : ℤ
full_confidence = pos (2 ^ 1074)

pub data VendorMatchMethod : Type 0 where
  tax_id exact_name fuzzy_name ambiguous not_identified : VendorMatchMethod

pub record VendorIdentity : Type 0 where
  pub vendor_id : ℕ
  pub legal_name : Text
  pub tax_id : Option Text
  pub aliases : List Text

pub record VendorCandidate : Type 0 where
  pub vendor_id : ℕ
  pub legal_name : Text
  pub score : Float

pub record VendorMatchResult : Type 0 where
  pub vendor_id : Option ℕ
  pub method : VendorMatchMethod
  pub confidence : Float
  pub candidates : List VendorCandidate

pub data PoMatchMethod : Type 0 where
  exact_number not_found not_provided ambiguous : PoMatchMethod

pub record PoIdentity : Type 0 where
  pub po_id : ℕ
  pub po_number : Text

pub record PoMatchResult : Type 0 where
  pub po_id : Option ℕ
  pub method : PoMatchMethod

po_from_hits : List PoIdentity → PoMatchResult
po_from_hits [] = record { po_id = none; method = not_found }
po_from_hits (po ∷ []) = record { po_id = some po.po_id; method = exact_number }
po_from_hits (_ ∷ _ ∷ _) = record { po_id = none; method = PoMatchMethod.ambiguous }

module _ (u : Unicode) where
  unfoldable pub normalize_text : Option Text → Text
  normalize_text none = []
  normalize_text (some []) = []
  normalize_text (some (c ∷ t)) = join_words (split u (lowercase u (strip u (c ∷ t))))

  unfoldable pub normalize_code : Option Text → Text
  normalize_code none = []
  normalize_code (some t) = keep u.is_alnum (uppercase u t)

  unfoldable pub has_code : Text → VendorIdentity → Bool
  has_code code v = normalize_code v.tax_id == code

  unfoldable pub has_name : Text → VendorIdentity → Bool
  has_name name v =
      name == normalize_text (some v.legal_name)
      || contains (map (λ a. normalize_text (some a)) v.aliases) name

  unfoldable pub has_number : Text → PoIdentity → Bool
  has_number number po = normalize_code (some po.po_number) == number

  po_by_number : Text → List PoIdentity → PoMatchResult
  unfolding po_from_hits
  po_by_number [] orders = record { po_id = none; method = not_provided }
  po_by_number (c ∷ code) orders = po_from_hits (keep (has_number (c ∷ code)) orders)

  unfoldable pub match_po : ExtractedInvoice → List PoIdentity → PoMatchResult
  unfolding po_by_number
  match_po extracted orders = po_by_number (normalize_code extracted.purchase_order_number) orders

-- `max` over scores: the first of the greatest.
abbrev pub max_score : Float → List Float → Float
max_score best [] = best
max_score best (x ∷ xs) = max_score (if lt_float best x then x else best) xs

-- `scored.sort(key=score, reverse=True)`, which keeps equal scores in order.
unfoldable pub insert_by_score : VendorCandidate → List VendorCandidate → List VendorCandidate
insert_by_score c [] = c ∷ []
insert_by_score c (d ∷ ds) =
    let later = d ∷ insert_by_score c ds in if lt_float c.score d.score then later else c ∷ d ∷ ds

unfoldable pub sort_by_score : List VendorCandidate → List VendorCandidate
unfolding insert_by_score
sort_by_score [] = []
sort_by_score (c ∷ cs) = insert_by_score c (sort_by_score cs)

abbrev unresolved : VendorMatchResult
unresolved = record {
  vendor_id = none;
  method = not_identified;
  confidence = zero_float;
  candidates = [];
}

abbrev runner_up : List VendorCandidate → Float
runner_up [] = zero_float
runner_up (c ∷ _) = c.score

unfoldable pub rank_candidates : List VendorCandidate → VendorMatchResult
rank_candidates [] = unresolved
rank_candidates (top ∷ rest) =
    if ge_float top.score (finite fuzzy_auto_accept)
      && ge_float (sub_float top.score (runner_up rest)) (finite fuzzy_ambiguity_gap)
    then record {
      vendor_id = some top.vendor_id;
      method = fuzzy_name;
      confidence = top.score;
      candidates = top ∷ rest;
    }
    else record {
      vendor_id = none;
      method = VendorMatchMethod.ambiguous;
      confidence = top.score;
      candidates = top ∷ rest;
    }

module _ (u : Unicode) (ratio : Text → Text → Float) where
  unfoldable pub best_score : Text → VendorIdentity → Float
  best_score name v =
      let score = λ (n : Text). ratio name (normalize_text u (some n)) in
      max_score (score v.legal_name) (map score v.aliases)

  unfoldable pub scored : Text → List VendorIdentity → List VendorCandidate
  scored name [] = []
  scored name (v ∷ vs) =
      let rest = scored name vs in
      let best = best_score name v in
      let candidate : VendorCandidate = record {
        vendor_id = v.vendor_id;
        legal_name = v.legal_name;
        score = best;
      } in
      if ge_float best (finite fuzzy_floor) then candidate ∷ rest else rest

  match_fuzzy : Text → List VendorIdentity → VendorMatchResult
  unfolding rank_candidates sort_by_score scored
  match_fuzzy name vendors = rank_candidates (sort_by_score (scored name vendors))

  -- The tests from the name on.
  match_name : Text → List VendorIdentity → VendorMatchResult
  unfolding match_fuzzy
  match_name [] vendors = unresolved
  match_name (c ∷ name) vendors = elim (keep (has_name u (c ∷ name)) vendors) [
    | [] ↦ match_fuzzy (c ∷ name) vendors
    | v ∷ others ↦ elim others [
      | [] ↦ record {
        vendor_id = some v.vendor_id;
        method = exact_name;
        confidence = finite exact_name_confidence;
        candidates = [];
      }
      | _ ∷ _ ↦ match_fuzzy (c ∷ name) vendors
    ]
  ]

  -- The test of the tax id comes first; `otherwise` is the rest of the function.
  match_code : Text → List VendorIdentity → VendorMatchResult → VendorMatchResult
  match_code [] vendors otherwise = otherwise
  match_code (c ∷ code) vendors otherwise = elim (keep (has_code u (c ∷ code)) vendors) [
    | [] ↦ otherwise
    | v ∷ others ↦ elim others [
      | [] ↦ record {
        vendor_id = some v.vendor_id;
        method = VendorMatchMethod.tax_id;
        confidence = finite full_confidence;
        candidates = [];
      }
      | _ ∷ _ ↦ otherwise
    ]
  ]

  unfoldable pub match_vendor : ExtractedInvoice → List VendorIdentity → VendorMatchResult
  unfolding match_code match_name
  match_vendor extracted vendors =
      match_code (normalize_code u extracted.supplier_tax_id) vendors
        (match_name (normalize_text u extracted.supplier_name) vendors)
