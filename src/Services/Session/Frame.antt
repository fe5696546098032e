-- ===== src/Services/Session/Frame.antt =====
-- What a service's frame leaves: one row is replaced, the others stay.
use mathlib.Core.Path.{subst}
use ai_account_payable_invoi.Prelude.{
  ℕ, refl, ◌≡◌, ap, ◌∙◌, Bool-cases, true, false, Option, none, some, List, [], ◌∷◌, All, inl, inr,
  ◌==◌, nat_eq, nat_beq_iff, list_eq,
}
use ai_account_payable_invoi.Models.{Invoice, Tables, find_invoice, store_invoice}
use ai_account_payable_invoi.Services.Outcome.{Result, ok, >>=-eq-ok, or_raise, Error}
use ai_account_payable_invoi.Services.Lifecycle.History.{ok-injective}
use ai_account_payable_invoi.Services.Session.{on_invoice}

pub or_raise-eq-ok {ℓ} :
    {A : Type ℓ} (o : Option A) (why : Error) {a : A} → or_raise o why ≡ ok a → o ≡ some a
or_raise-eq-ok none why e = cc
or_raise-eq-ok (some b) why e = ap some (ok-injective e)

-- Inversion of a service that returns.
pub on_invoice-eq-ok {ℓ} :
    {A : Type ℓ} (stage : Invoice → Result (A × Invoice)) (id : ℕ) (tables changed : Tables)
    (row : A)
    → on_invoice stage id tables ≡ ok (row, changed)
    → (v : Invoice) × (w : Invoice) × (find_invoice id tables.invoices ≡ some v)
      × (stage v ≡ ok (row, w))
      × (record tables { invoices = store_invoice w tables.invoices } ≡ changed)
unfolding on_invoice
on_invoice-eq-ok stage id tables changed row e =
    let (v, found, rest) = >>=-eq-ok (or_raise (find_invoice id tables.invoices) _) _ e in
    let ((row', w), ran, last) = >>=-eq-ok (stage v) _ rest in
    let pair = ok-injective last in
    (
      v,
      w,
      or_raise-eq-ok _ _ found,
      ran ∙ ap (λ r. ok (r, w)) (ap (λ p. p.0) pair),
      ap (λ p. p.1) pair,
    )

-- The first row of an id bears it, and has what all rows have.
pub find_invoice-id :
    (id : ℕ) (xs : List Invoice) (v : Invoice) → find_invoice id xs ≡ some v → v.id ≡ id
unfolding find_invoice
find_invoice-id id [] v e = cc
find_invoice-id id (x ∷ xs) v e = elim (Bool-cases (x.id == id)) [
  | inl y ↦ cc (rw y at e, (nat_beq_iff x.id id).0 y)
  | inr n ↦ find_invoice-id id xs v (rw n at e)
]

module _ {κ} (P : Invoice → Type κ) where
  pub find_invoice-All :
      (id : ℕ) (xs : List Invoice) (v : Invoice) → find_invoice id xs ≡ some v → All P xs → P v
  unfolding find_invoice
  find_invoice-All id [] v e h = cc
  find_invoice-All id (x ∷ xs) v e h = elim (Bool-cases (x.id == id)) [
    | inl y ↦ subst P (some_same (rw y at e)) h.0
    | inr n ↦ find_invoice-All id xs v (rw n at e) h.1
  ]
    where
      some_same : {a b : Invoice} → some a ≡ some b → a ≡ b
      some_same q = cc

  pub store_invoice-All :
      (w : Invoice) (xs : List Invoice) → P w → All P xs → All P (store_invoice w xs)
  unfolding store_invoice
  store_invoice-All w [] p h = tt
  store_invoice-All w (x ∷ xs) p h = elim (Bool-cases (x.id == w.id)) [
    | inl y ↦ rw y (p, h.1)
    | inr n ↦ rw n (h.0, store_invoice-All w xs p h.1)
  ]

-- A row that was stored is found.
pub find_invoice-store :
    (id : ℕ) (v w : Invoice) (xs : List Invoice)
    → find_invoice id xs ≡ some v
    → w.id ≡ id
    → find_invoice id (store_invoice w xs) ≡ some w
unfolding find_invoice store_invoice
find_invoice-store id v w [] e q = cc
find_invoice-store id v w (x ∷ xs) e q = elim (Bool-cases (x.id == id)) [
  | inl y ↦
      let same : (x.id == w.id) ≡ true = ap (λ i. x.id == i) q ∙ y in
      rw (same, (nat_beq_iff w.id id).1 q) refl
  | inr n ↦
      let other : (x.id == w.id) ≡ false = ap (λ i. x.id == i) q ∙ n in
      rw (other, n) (find_invoice-store id v w xs (rw n at e) q)
]
