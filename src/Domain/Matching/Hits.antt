-- ===== src/Domain/Matching/Hits.antt =====
-- A filter that leaves one item: what `len(hits) == 1` says, and what purchase orders come to.
use ai_account_payable_invoi.Prelude.{
  ℕ, ◌≡◌, ◌≢◌, ◌↔◌, refl, ap, Bool, true, false, some, List, [], ◌∷◌, ◌++◌, All, keep, keep-append,
  keep-nil_iff, arith, Bool-cases, inl, inr,
}
use ai_account_payable_invoi.Text.{Text, Unicode}
use ai_account_payable_invoi.Domain.Extraction.{ExtractedInvoice}
use ai_account_payable_invoi.Domain.Matching.{
  PoIdentity, normalize_code, has_number, po_by_number, po_from_hits, match_po,
}

-- `x` passes the test, and nothing before or after it does.
pub record OnlyHit {ℓ} {A : Type ℓ} (p : A → Bool) (x : A) (xs : List A) : Type ℓ where
  pub before : List A
  pub after : List A
  pub split : xs ≡ before ++ (x ∷ after)
  pub hit : p x ≡ true
  pub none_before : All (λ y. p y ≡ false) before
  pub none_after : All (λ y. p y ≡ false) after

module _ {ℓ} {A : Type ℓ} (p : A → Bool) where
  pub keep-OnlyHit : (x : A) (xs : List A) → keep p xs ≡ x ∷ [] → OnlyHit p x xs
  keep-OnlyHit x [] e = cc
  keep-OnlyHit x (y ∷ xs) e = elim (Bool-cases (p y)) [
    | inl yes_y ↦
        let same : y ≡ x = ground (arith, yes_y) in
        let nothing : keep p xs ≡ [] = ground (arith, yes_y) in
        record {
          before = [];
          after = xs;
          split = ap (λ z. z ∷ xs) same;
          hit = rw (← same) yes_y;
          none_before = tt;
          none_after = (keep-nil_iff p xs).0 nothing;
        }
    | inr no_y ↦
        let rest = keep-OnlyHit x xs (rw no_y at e) in
        record {
          before = y ∷ rest.before;
          after = rest.after;
          split = ap (λ zs. y ∷ zs) rest.split;
          hit = rest.hit;
          none_before = (no_y, rest.none_before);
          none_after = rest.none_after;
        }
  ]

  pub OnlyHit-keep : {x : A} {xs : List A} → OnlyHit p x xs → keep p xs ≡ x ∷ []
  OnlyHit-keep {x} h = rw (
    h.split,
    keep-append p h.before (x ∷ h.after),
    (keep-nil_iff p h.before).1 h.none_before,
    h.hit,
    (keep-nil_iff p h.after).1 h.none_after,
  )

-- A number that resolves, and the one order that bears it.
abbrev pub Resolves : Unicode → Text → List PoIdentity → ℕ → Type 0
Resolves u number orders i =
    (number ≢ []) × ((po : PoIdentity) × OnlyHit (has_number u number) po orders × (po.po_id ≡ i))

po_from_hits_iff :
    (hits : List PoIdentity) (i : ℕ)
    → ((po_from_hits hits).po_id ≡ some i) ↔ ((po : PoIdentity) × (hits ≡ po ∷ []) × (po.po_id ≡ i))
unfolding po_from_hits
po_from_hits_iff [] i = (λ e. cc, λ (po, e, _). cc)
po_from_hits_iff (po ∷ []) i = (λ e. (po, refl, ground arith), λ (_, e, q). ground arith)
po_from_hits_iff (a ∷ b ∷ more) i = (λ e. cc, λ (po, e, _). ground arith)

po_by_number_iff :
    (u : Unicode) (number : Text) (orders : List PoIdentity) (i : ℕ)
    → ((po_by_number u number orders).po_id ≡ some i) ↔ Resolves u number orders i
unfolding po_by_number
po_by_number_iff u [] orders i = ground arith
po_by_number_iff u (c ∷ cs) orders i =
    let p = has_number u (c ∷ cs) in
    let single = po_from_hits_iff (keep p orders) i in
    (
      λ e.
          let (po, only, same) = single.0 e in
          (λ (q : c ∷ cs ≡ []). cc, (po, keep-OnlyHit p po orders only, same)),
      λ (_, (po, only, same)). single.1 (po, OnlyHit-keep p only, same),
    )

-- An order is matched exactly when the invoice gives a number that is not empty without its
-- separators, and one order alone bears it, read in the same way.
pub match_po_iff :
    (u : Unicode) (extracted : ExtractedInvoice) (orders : List PoIdentity) (i : ℕ)
    → ((match_po u extracted orders).po_id ≡ some i)
      ↔ Resolves u (normalize_code u extracted.purchase_order_number) orders i
unfolding match_po
match_po_iff u extracted orders i = po_by_number_iff u _ orders i
