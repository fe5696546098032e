-- ===== src/Domain/Matching/Laws.antt =====
-- On what evidence a vendor is identified.
use mathlib.Core.List.{Perm}
use ai_account_payable_invoi.Prelude.{
  ℕ, ◌≡◌, ◌≢◌, ◌⊎◌, refl, true, none, some, List, [], ◌∷◌, All, keep, Bool-cases, inl, inr,
}
use ai_account_payable_invoi.Text.{Text, Unicode}
use ai_account_payable_invoi.Float.{Float, finite, ge_float, sub_float}
use ai_account_payable_invoi.Domain.Extraction.{ExtractedInvoice}
use ai_account_payable_invoi.Domain.Matching.{
  VendorIdentity, VendorCandidate, VendorMatchResult, VendorMatchMethod, exact_name, fuzzy_name,
  not_identified, normalize_code, normalize_text, has_code, has_name, rank_candidates,
  sort_by_score, scored, runner_up, match_fuzzy, match_name, match_code, match_vendor,
  fuzzy_auto_accept, fuzzy_ambiguity_gap,
}
use ai_account_payable_invoi.Domain.Matching.Hits.{OnlyHit, keep-OnlyHit, OnlyHit-keep}
use ai_account_payable_invoi.Domain.Matching.Ranking.{
  IsRanked, IsFinite, HasScore, sort-perm, sort-IsRanked, All-sort, scored-HasScore, lead_over-All,
}

-- The best of the ranked candidates reaches the threshold and leads each of the others by the gap.
pub record ClearLead (found : List VendorCandidate) (top : VendorCandidate)
    (rest : List VendorCandidate) : Type 0 where
  pub all_found : Perm (top ∷ rest) found
  pub accepted : ge_float top.score (finite fuzzy_auto_accept) ≡ true
  pub leads :
      All (λ c. ge_float (sub_float top.score c.score) (finite fuzzy_ambiguity_gap) ≡ true) rest

nonempty : {c : ℕ} {cs t : Text} → c ∷ cs ≡ t → t ≢ []
nonempty e q = cc

module _ (u : Unicode) (ratio : Text → Text → Float) where
  -- Why a result names a vendor, or that it names none.
  pub data Evidence (extracted : ExtractedInvoice) (vendors : List VendorIdentity)
      (r : VendorMatchResult) : Type 0 where
    by_code :
        (v : VendorIdentity)
        → normalize_code u extracted.supplier_tax_id ≢ []
        → OnlyHit (has_code u (normalize_code u extracted.supplier_tax_id)) v vendors
        → r.vendor_id ≡ some v.vendor_id
        → r.method ≡ VendorMatchMethod.tax_id
        → Evidence extracted vendors r
    by_name :
        (v : VendorIdentity)
        → normalize_text u extracted.supplier_name ≢ []
        → OnlyHit (has_name u (normalize_text u extracted.supplier_name)) v vendors
        → r.vendor_id ≡ some v.vendor_id
        → r.method ≡ exact_name
        → Evidence extracted vendors r
    by_similarity :
        (top : VendorCandidate) (rest : List VendorCandidate)
        → ClearLead (scored u ratio (normalize_text u extracted.supplier_name) vendors) top rest
        → r.candidates ≡ top ∷ rest
        → r.vendor_id ≡ some top.vendor_id
        → r.method ≡ fuzzy_name
        → Evidence extracted vendors r
    undecided :
        r.vendor_id ≡ none
        → (r.method ≡ VendorMatchMethod.ambiguous) ⊎ (r.method ≡ not_identified)
        → Evidence extracted vendors r

  -- A tax id that is not empty without its separators, and that one vendor alone has, decides
  -- the match, whatever the name says.
  pub match_vendor_by_code :
      (extracted : ExtractedInvoice) (vendors : List VendorIdentity) (v : VendorIdentity)
      → normalize_code u extracted.supplier_tax_id ≢ []
      → OnlyHit (has_code u (normalize_code u extracted.supplier_tax_id)) v vendors
      → let r = match_vendor u ratio extracted vendors in
        (r.vendor_id ≡ some v.vendor_id) × (r.method ≡ VendorMatchMethod.tax_id)
  unfolding match_vendor
  match_vendor_by_code extracted vendors v given only =
      match_code_hit (normalize_code u extracted.supplier_tax_id) _ given (OnlyHit-keep _ only)
    where
      match_code_hit :
          (code : Text) (otherwise : VendorMatchResult)
          → code ≢ []
          → keep (has_code u code) vendors ≡ v ∷ []
          → let r = match_code u ratio code vendors otherwise in
            (r.vendor_id ≡ some v.vendor_id) × (r.method ≡ VendorMatchMethod.tax_id)
      match_code_hit [] otherwise g e = absurd (g refl)
      match_code_hit (c ∷ code) otherwise g e = rw (e, match_code) (refl, refl)

  module _ (regular : (s t : Text) → IsFinite (ratio s t)) (extracted : ExtractedInvoice)
      (vendors : List VendorIdentity) where
    ranked-Evidence :
        (ranked : List VendorCandidate)
        → Perm ranked (scored u ratio (normalize_text u extracted.supplier_name) vendors)
        → All HasScore ranked
        → IsRanked ranked
        → Evidence extracted vendors (rank_candidates ranked)
    unfolding rank_candidates
    ranked-Evidence [] same h r = undecided refl (inr refl)
    ranked-Evidence (top ∷ rest) same h r =
        elim (Bool-cases (ge_float top.score (finite fuzzy_auto_accept))) [
          | inl y ↦
              elim (Bool-cases
                (ge_float (sub_float top.score (runner_up rest)) (finite fuzzy_ambiguity_gap))) [
                  | inl z ↦
                      rw (y, z)
                        (by_similarity top rest
                          (record {
                            all_found = same;
                            accepted = y;
                            leads = lead_over-All top rest h.0 h.1 r.1 z;
                          })
                          refl refl refl)
                  | inr n ↦ rw (y, n) (undecided refl (inl refl))
                ]
          | inr n ↦ rw n (undecided refl (inl refl))
        ]

    fuzzy_Evidence :
        (name : Text)
        → name ≡ normalize_text u extracted.supplier_name
        → Evidence extracted vendors (match_fuzzy u ratio name vendors)
    unfolding match_fuzzy
    fuzzy_Evidence name same =
        let found = scored u ratio name vendors in
        let scores = scored-HasScore u ratio regular name vendors in
        ranked-Evidence (sort_by_score found) (rw (← same) (sort-perm found))
          (All-sort HasScore found scores) (sort-IsRanked found scores)

    name_Evidence :
        (name : Text)
        → name ≡ normalize_text u extracted.supplier_name
        → Evidence extracted vendors (match_name u ratio name vendors)
    unfolding match_name
    name_Evidence [] same = undecided refl (inr refl)
    name_Evidence (c ∷ cs) same = by_hits (keep (has_name u (c ∷ cs)) vendors) refl
      where
        by_hits :
            (hits : List VendorIdentity)
            → keep (has_name u (c ∷ cs)) vendors ≡ hits
            → Evidence extracted vendors (match_name u ratio (c ∷ cs) vendors)
        by_hits [] e = rw (e, match_name) (fuzzy_Evidence (c ∷ cs) same)
        by_hits (v ∷ []) e =
            rw (e, match_name)
              (by_name v (nonempty same)
                (rw same at (keep-OnlyHit (has_name u (c ∷ cs)) v vendors e)) refl refl)
        by_hits (v ∷ w ∷ more) e = rw (e, match_name) (fuzzy_Evidence (c ∷ cs) same)

    -- If every similarity is a finite number, a vendor is named only on evidence: a tax id that
    -- one vendor alone has, a name that one vendor alone has, or a similarity of at least 0.88
    -- that leads every other candidate by 0.08. Otherwise no vendor is named, and the method
    -- says ambiguous or none.
    pub match_vendor-Evidence : Evidence extracted vendors (match_vendor u ratio extracted vendors)
    unfolding match_vendor
    match_vendor-Evidence =
        by_code_first (normalize_code u extracted.supplier_tax_id) refl _ (name_Evidence _ refl)
      where
        by_code_first :
            (code : Text)
            → code ≡ normalize_code u extracted.supplier_tax_id
            → (otherwise : VendorMatchResult) → Evidence extracted vendors otherwise
            → Evidence extracted vendors (match_code u ratio code vendors otherwise)
        by_code_first [] same otherwise h = h
        by_code_first (c ∷ cs) same otherwise h = by_hits (keep (has_code u (c ∷ cs)) vendors) refl
          where
            by_hits :
                (hits : List VendorIdentity)
                → keep (has_code u (c ∷ cs)) vendors ≡ hits
                → Evidence extracted vendors (match_code u ratio (c ∷ cs) vendors otherwise)
            by_hits [] e = rw (e, match_code) h
            by_hits (v ∷ []) e =
                rw (e, match_code)
                  (by_code v (nonempty same)
                    (rw same at (keep-OnlyHit (has_code u (c ∷ cs)) v vendors e)) refl refl)
            by_hits (v ∷ w ∷ more) e = rw (e, match_code) h
