-- ===== src/Workers/Consistent.antt =====
-- What is true of all invoices together between two sessions, and that a session keeps it.
use mathlib.Core.Path.{subst}
use ai_account_payable_invoi.Prelude.{
  ℕ, ◌≡◌, refl, sym, ap, ◌∙◌, false, Bool-cases, none, some, List, [], ◌∷◌, ◌++◌, All, inl, inr,
  ◌==◌, nat_eq, nat_beq_iff, list_eq, arith,
}
use ai_account_payable_invoi.Text.{Text}
use ai_account_payable_invoi.Models.{Invoice, Tables, find_invoice, store_invoice}
use ai_account_payable_invoi.Services.Session.Frame.{
  find_invoice-id, find_invoice-All, store_invoice-All,
}
use ai_account_payable_invoi.Services.Ingestion.{find_digest}
use ai_account_payable_invoi.Services.Ingestion.Unique.{HasUniqueDigests}
use ai_account_payable_invoi.Workers.Staged.{IsSound}
use ai_account_payable_invoi.Workers.Keeps.{Keeps}
use ai_account_payable_invoi.Workers.Sessions.{Session, rolled_back, committed}

abbrev pub HasUniqueIds : List Invoice → Type 0
HasUniqueIds [] = Unit
HasUniqueIds (x ∷ xs) = (find_invoice x.id xs ≡ none) × HasUniqueIds xs

pub record IsConsistent (xs : List Invoice) : Type 0 where
  pub sound : All IsSound xs
  pub ids : HasUniqueIds xs
  pub digests : HasUniqueDigests xs

-- A row that is replaced leaves the ids as they were.
store_invoice-absent :
    (i : ℕ) (w : Invoice) (xs : List Invoice)
    → find_invoice i xs ≡ none
    → find_invoice i (store_invoice w xs) ≡ none
unfolding find_invoice store_invoice
store_invoice-absent i w [] h = refl
store_invoice-absent i w (x ∷ xs) h = elim (Bool-cases (x.id == i)) [
  | inl y ↦ cc (rw y at h)
  | inr n ↦ elim (Bool-cases (x.id == w.id)) [
    | inl y ↦
        let other : (w.id == i) ≡ false =
          ap (λ k. k == i) (sym ((nat_beq_iff x.id w.id).0 y)) ∙ n in
        rw (y, other) (rw n at h)
    | inr m ↦ rw (m, n) (store_invoice-absent i w xs (rw n at h))
  ]
]

store_invoice-HasUniqueIds :
    (w : Invoice) (xs : List Invoice) → HasUniqueIds xs → HasUniqueIds (store_invoice w xs)
unfolding store_invoice
store_invoice-HasUniqueIds w [] h = tt
store_invoice-HasUniqueIds w (x ∷ xs) h = elim (Bool-cases (x.id == w.id)) [
  | inl y ↦
      let same = (nat_beq_iff x.id w.id).0 y in
      rw y (ap (λ k. find_invoice k xs) (sym same) ∙ h.0, h.1)
  | inr n ↦ rw n (store_invoice-absent x.id w xs h.0, store_invoice-HasUniqueIds w xs h.1)
]

pub HasUniqueIds-append :
    (xs : List Invoice) (v : Invoice)
    → HasUniqueIds xs
    → find_invoice v.id xs ≡ none
    → HasUniqueIds (xs ++ (v ∷ []))
unfolding find_invoice
HasUniqueIds-append [] v h q = (refl, tt)
HasUniqueIds-append (x ∷ xs) v h q = elim (Bool-cases (x.id == v.id)) [
  | inl y ↦ cc (rw y at q)
  | inr n ↦
      (absent_after x.id v xs h.0 (not_same x.id v.id n), HasUniqueIds-append xs v h.1 (rw n at q))
]
  where
    not_same : (i j : ℕ) → (i == j) ≡ false → (j == i) ≡ false
    not_same i j h = ground (arith, h)

    absent_after :
        (i : ℕ) (v : Invoice) (xs : List Invoice)
        → find_invoice i xs ≡ none
        → (v.id == i) ≡ false
        → find_invoice i (xs ++ (v ∷ [])) ≡ none
    absent_after i v [] h n = rw n refl
    absent_after i v (x ∷ xs) h n = elim (Bool-cases (x.id == i)) [
      | inl y ↦ cc (rw y at h)
      | inr m ↦ rw m (absent_after i v xs (rw m at h) n)
    ]

-- And the digests, when the row keeps its own.
store_invoice-no_digest :
    (d : Text) (v w : Invoice) (xs : List Invoice)
    → find_invoice w.id xs ≡ some v
    → w.content_sha256 ≡ v.content_sha256
    → find_digest d xs ≡ none
    → find_digest d (store_invoice w xs) ≡ none
unfolding find_invoice store_invoice find_digest
store_invoice-no_digest d v w [] f e h = refl
store_invoice-no_digest d v w (x ∷ xs) f e h = elim (Bool-cases (x.content_sha256 == d)) [
  | inl y ↦ cc (rw y at h)
  | inr n ↦ elim (Bool-cases (x.id == w.id)) [
    | inl y ↦
        let kept : (w.content_sha256 == d) ≡ false =
          ap (λ t. t == d)
            (e ∙ ap (λ (u : Invoice). u.content_sha256) (sym (some_same (rw y at f))))
          ∙ n in
        rw (y, kept) (rw n at h)
    | inr m ↦ rw (m, n) (store_invoice-no_digest d v w xs (rw m at f) e (rw n at h))
  ]
]
  where
    some_same : {a b : Invoice} → some a ≡ some b → a ≡ b
    some_same q = cc

store_invoice-HasUniqueDigests :
    (v w : Invoice) (xs : List Invoice)
    → find_invoice w.id xs ≡ some v
    → w.content_sha256 ≡ v.content_sha256
    → HasUniqueDigests xs
    → HasUniqueDigests (store_invoice w xs)
unfolding find_invoice store_invoice
store_invoice-HasUniqueDigests v w [] f e h = tt
store_invoice-HasUniqueDigests v w (x ∷ xs) f e h = elim (Bool-cases (x.id == w.id)) [
  | inl y ↦
      let same : w.content_sha256 ≡ x.content_sha256 =
        e ∙ ap (λ (u : Invoice). u.content_sha256) (sym (some_same (rw y at f))) in
      rw y (ap (λ t. find_digest t xs) same ∙ h.0, h.1)
  | inr n ↦ rw n (
    store_invoice-no_digest x.content_sha256 v w xs (rw n at f) e h.0,
    store_invoice-HasUniqueDigests v w xs (rw n at f) e h.1,
  )
]
  where
    some_same : {a b : Invoice} → some a ≡ some b → a ≡ b
    some_same q = cc

pub store_invoice-IsConsistent :
    (id : ℕ) (v w : Invoice) (xs : List Invoice)
    → find_invoice id xs ≡ some v
    → Keeps v w
    → IsConsistent xs
    → IsConsistent (store_invoice w xs)
store_invoice-IsConsistent id v w xs found keeps h =
    let by_id : find_invoice w.id xs ≡ some v =
      ap (λ i. find_invoice i xs) (keeps.extends.same_id ∙ find_invoice-id id xs v found) ∙ found in
    record {
      sound =
          store_invoice-All IsSound w xs
            (keeps.sound (find_invoice-All IsSound id xs v found h.sound)) h.sound;
      ids = store_invoice-HasUniqueIds w xs h.ids;
      digests = store_invoice-HasUniqueDigests v w xs by_id keeps.extends.same_digest h.digests;
    }

-- A session keeps the tables consistent.
pub Session-IsConsistent :
    (before after : Tables)
    → Session before after
    → IsConsistent before.invoices
    → IsConsistent after.invoices
Session-IsConsistent before after (rolled_back e) h =
    subst IsConsistent (ap (λ (t : Tables). t.invoices) (sym e)) h
Session-IsConsistent before after (committed id v w found keeps e) h =
    subst IsConsistent (ap (λ (t : Tables). t.invoices) e)
      (store_invoice-IsConsistent id v w before.invoices found keeps h)
