-- ===== src/Api/Counts.antt =====
-- The review queue: the statuses that it filters by, and the counts above it.
use Prim.Native.String.{String}
use ai_account_payable_invoi.Prelude.{
  ℕ, suc, ◌≡◌, ◌↔◌, refl, sym, ap, ◌∙◌, inl, inr, Bool, true, false, Bool-cases, some, List, [],
  ◌∷◌, keep, length, contains, ◌==◌, string_eq, if◌then◌else◌, arith,
}
use ai_account_payable_invoi.Domain.State.{
  InvoiceStatus, received, auto_approved, failed, status_eq, value, all_statuses,
}
use ai_account_payable_invoi.Models.{Invoice}
use ai_account_payable_invoi.Api.ReviewUi.{
  member_among, status_of, add_to, count_by_status, sum_where, count_of, status_counts,
}

member_among_sound :
    (ss : List InvoiceStatus) (t : String) (s : InvoiceStatus)
    → member_among ss t ≡ some s
    → value s ≡ t
unfolding member_among
member_among_sound [] t s h = cc
member_among_sound (x ∷ ss) t s h = elim (Bool-cases (value x == t)) [
  | inl y ↦ ap value (sym (some_same (rw y at h))) ∙ (string_eq.beq_iff (value x) t).0 y
  | inr n ↦ member_among_sound ss t s (rw n at h)
]
  where
    some_same : {a b : InvoiceStatus} → some a ≡ some b → a ≡ b
    some_same q = cc

status_of-value : (s : InvoiceStatus) → status_of (value s) ≡ some s
unfolding status_of member_among
status_of-value received = refl
status_of-value s = refl

-- A text is read as a status exactly when it is that status's value.
pub status_of_iff : (t : String) (s : InvoiceStatus) → (status_of t ≡ some s) ↔ (value s ≡ t)
unfolding status_of
status_of_iff t s =
    (member_among_sound all_statuses t s, λ e. ap status_of (sym e) ∙ status_of-value s)

sum_where-add_to :
    (p : InvoiceStatus → Bool) (s : InvoiceStatus) (rows : List (InvoiceStatus × ℕ))
    → sum_where p (add_to s rows) ≡ (if p s then suc (sum_where p rows) else sum_where p rows)
unfolding sum_where add_to
sum_where-add_to p s [] = ground arith
sum_where-add_to p s ((t, n) ∷ rows) = elim (Bool-cases (t == s)) [
  | inl y ↦
      let same : p t ≡ p s = ap p ((status_eq.beq_iff t s).0 y) in
      elim (Bool-cases (p t)) [
        | inl hit ↦ rw (y, sum_where, hit, sym same ∙ hit) (omega arith)
        | inr miss ↦ rw (y, sum_where, miss, sym same ∙ miss) refl
      ]
  | inr m ↦
      rw (m, sum_where, sum_where-add_to p s rows)
        (elim (Bool-cases (p t)) [
          | inl hit ↦
              rw hit (elim (Bool-cases (p s)) [
                | inl also ↦ rw also (omega arith)
                | inr not ↦ rw not refl
              ])
          | inr miss ↦ rw miss refl
        ])
]

sum_where-count :
    (p : InvoiceStatus → Bool) (vs : List Invoice)
    → sum_where p (count_by_status vs) ≡ length (keep (λ v. p (Invoice.status v)) vs)
unfolding sum_where count_by_status
sum_where-count p [] = refl
sum_where-count p (v ∷ vs) =
    sum_where-add_to p v.status (count_by_status vs) ∙ elim (Bool-cases (p v.status)) [
      | inl y ↦ rw (y, sum_where-count p vs) refl
      | inr n ↦ rw (n, sum_where-count p vs) refl
    ]

count_of-add_to :
    (s t : InvoiceStatus) (rows : List (InvoiceStatus × ℕ))
    → count_of s (add_to t rows) ≡ (if t == s then suc (count_of s rows) else count_of s rows)
unfolding count_of add_to
count_of-add_to s t [] = ground arith
count_of-add_to s t ((x, n) ∷ rows) = elim (Bool-cases (x == t)) [
  | inl y ↦
      let same : (x == s) ≡ (t == s) = ap (λ k. k == s) ((status_eq.beq_iff x t).0 y) in
      elim (Bool-cases (x == s)) [
        | inl hit ↦ rw (y, hit, sym same ∙ hit) refl
        | inr miss ↦ rw (y, miss, sym same ∙ miss) refl
      ]
  | inr n ↦ rw n (elim (Bool-cases (x == s)) [
    | inl hit ↦ rw (hit, differs x t s n hit) refl
    | inr miss ↦ rw miss (count_of-add_to s t rows)
  ])
]
  where
    flipped : (x t : InvoiceStatus) → (x == t) ≡ false → (t == x) ≡ false
    flipped x t n = ground (arith, n)

    differs : (x t s : InvoiceStatus) → (x == t) ≡ false → (x == s) ≡ true → (t == s) ≡ false
    differs x t s n y = ap (λ k. t == k) (sym ((status_eq.beq_iff x s).0 y)) ∙ flipped x t n

count_of-count :
    (s : InvoiceStatus) (vs : List Invoice)
    → count_of s (count_by_status vs) ≡ length (keep (λ v. Invoice.status v == s) vs)
unfolding count_of count_by_status
count_of-count s [] = refl
count_of-count s (v ∷ vs) =
    count_of-add_to s v.status (count_by_status vs) ∙ elim (Bool-cases (v.status == s)) [
      | inl y ↦ rw (y, count_of-count s vs) refl
      | inr n ↦ rw (n, count_of-count s vs) refl
    ]

keep_all : (vs : List Invoice) → length (keep (λ v. true) vs) ≡ length vs
keep_all [] = refl
keep_all (v ∷ vs) = ap suc (keep_all vs)

abbrev pub with_status : List InvoiceStatus → List Invoice → ℕ
with_status ss vs = length (keep (λ v. contains ss (Invoice.status v)) vs)

-- The counts of the queue page are the number of all invoices, of those that wait for review, of
-- the approved ones, and of the rejected or failed ones.
pub status_counts_lem :
    (vs : List Invoice)
    → status_counts vs ≡ (record {
      total = length vs;
      needs_review = length (keep (λ v. Invoice.status v == InvoiceStatus.needs_review) vs);
      approved = with_status (auto_approved ∷ InvoiceStatus.approved ∷ []) vs;
      rejected = with_status (InvoiceStatus.rejected ∷ failed ∷ []) vs;
    })
unfolding status_counts
status_counts_lem vs =
    rw
      (
        status_counts,
        sum_where-count (λ s. true) vs,
        count_of-count InvoiceStatus.needs_review vs,
        sum_where-count (λ s. contains (auto_approved ∷ InvoiceStatus.approved ∷ []) s) vs,
        sum_where-count (λ s. contains (InvoiceStatus.rejected ∷ failed ∷ []) s) vs,
      )
      (ap
        (λ n. record {
          total = n;
          needs_review = length (keep (λ v. Invoice.status v == InvoiceStatus.needs_review) vs);
          approved = with_status (auto_approved ∷ InvoiceStatus.approved ∷ []) vs;
          rejected = with_status (InvoiceStatus.rejected ∷ failed ∷ []) vs;
        })
        (keep_all vs))
