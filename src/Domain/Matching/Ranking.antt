-- ===== src/Domain/Matching/Ranking.antt =====
-- The ranking of the fuzzy candidates: the sort, and the lead that the best must have.
use mathlib.Core.List.{Perm}
use mathlib.Core.List.Perm
use ai_account_payable_invoi.Prelude.{
  ◌≡◌, true, false, some, List, [], ◌∷◌, All, arith, Bool-cases, inl, inr, map,
}
use ai_account_payable_invoi.Prelude.Int.{ℤ, -ℤ_parts}
use ai_account_payable_invoi.Text.{Text, Unicode}
use ai_account_payable_invoi.Float.{Float, finite, lt_float, ge_float, sub_float}
use ai_account_payable_invoi.Domain.Matching.{
  VendorCandidate, VendorIdentity, insert_by_score, sort_by_score, max_score, scored, best_score,
  runner_up, fuzzy_ambiguity_gap, fuzzy_floor, normalize_text,
}

abbrev pub IsFinite : Float → Type 0
IsFinite (finite _) = Unit
IsFinite _ = ⊥

abbrev pub HasScore : VendorCandidate → Type 0
HasScore c = IsFinite c.score

-- Best first.
abbrev pub IsRanked : List VendorCandidate → Type 0
IsRanked [] = Unit
IsRanked (c ∷ cs) = All (λ d. lt_float c.score d.score ≡ false) cs × IsRanked cs

insert-perm :
    (c : VendorCandidate) (cs : List VendorCandidate) → Perm (insert_by_score c cs) (c ∷ cs)
unfolding insert_by_score
insert-perm c [] = Perm.refl _
insert-perm c (d ∷ ds) = elim (Bool-cases (lt_float c.score d.score)) [
  | inl y ↦ rw y (Perm.trans (Perm.cons d (insert-perm c ds)) (Perm.swap _ _ _))
  | inr n ↦ rw n (Perm.refl _)
]

-- Sorting loses and invents no candidate.
pub sort-perm : (cs : List VendorCandidate) → Perm (sort_by_score cs) cs
unfolding sort_by_score
sort-perm [] = Perm.refl _
sort-perm (c ∷ cs) = Perm.trans (insert-perm c (sort_by_score cs)) (Perm.cons c (sort-perm cs))

All-insert {κ} :
    (P : VendorCandidate → Type κ) (c : VendorCandidate) (cs : List VendorCandidate)
    → P c
    → All P cs
    → All P (insert_by_score c cs)
unfolding insert_by_score
All-insert P c [] p h = (p, tt)
All-insert P c (d ∷ ds) p h = elim (Bool-cases (lt_float c.score d.score)) [
  | inl y ↦ rw y (h.0, All-insert P c ds p h.1)
  | inr n ↦ rw n (p, h)
]

pub All-sort {κ} :
    (P : VendorCandidate → Type κ) (cs : List VendorCandidate) → All P cs → All P (sort_by_score cs)
unfolding sort_by_score
All-sort P [] h = tt
All-sort P (c ∷ cs) h = All-insert P c _ h.0 (All-sort P cs h.1)

not_lt_trans :
    (x y z : Float)
    → IsFinite x
    → IsFinite y
    → IsFinite z
    → lt_float x y ≡ false
    → lt_float y z ≡ false
    → lt_float x z ≡ false
not_lt_trans (finite a) (finite b) (finite c) hx hy hz p q = ground arith
not_lt_trans x y z hx hy hz p q = ground arith

lt_not_lt : (x y : Float) → IsFinite x → IsFinite y → lt_float x y ≡ true → lt_float y x ≡ false
lt_not_lt (finite a) (finite b) hx hy p = ground arith
lt_not_lt x y hx hy p = ground arith

-- Two conditions on every candidate give one by one what a third asks.
All-All {ℓ κ μ ν} :
    {A : Type ℓ} {P : A → Type κ} {Q : A → Type μ} {R : A → Type ν} (f : (x : A) → P x → Q x → R x)
    (xs : List A)
    → All P xs
    → All Q xs
    → All R xs
All-All f [] h k = tt
All-All f (x ∷ xs) h k = (f x h.0 k.0, All-All f xs h.1 k.1)

insert-IsRanked :
    (c : VendorCandidate) (cs : List VendorCandidate)
    → HasScore c
    → All HasScore cs
    → IsRanked cs
    → IsRanked (insert_by_score c cs)
unfolding insert_by_score
insert-IsRanked c [] hc h r = (tt, tt)
insert-IsRanked c (d ∷ ds) hc h r = elim (Bool-cases (lt_float c.score d.score)) [
  | inl y ↦ rw y (
    All-insert (λ e. lt_float d.score e.score ≡ false) c ds (lt_not_lt c.score d.score hc h.0 y)
        r.0,
    insert-IsRanked c ds hc h.1 r.1,
  )
  | inr n ↦
      rw n
        ((n, All-All (λ e he q. not_lt_trans c.score d.score e.score hc h.0 he n q) ds h.1 r.0), r)
]

pub sort-IsRanked : (cs : List VendorCandidate) → All HasScore cs → IsRanked (sort_by_score cs)
unfolding sort_by_score
sort-IsRanked [] h = tt
sort-IsRanked (c ∷ cs) h =
    insert-IsRanked c (sort_by_score cs) h.0 (All-sort HasScore cs h.1) (sort-IsRanked cs h.1)

-- When no score is NaN or infinite, the sort keeps every candidate and puts the best first.
pub sort_by_score_lem :
    (cs : List VendorCandidate)
    → All HasScore cs
    → Perm (sort_by_score cs) cs × IsRanked (sort_by_score cs)
sort_by_score_lem cs h = (sort-perm cs, sort-IsRanked cs h)

max_score-IsFinite :
    (best : Float) (xs : List Float)
    → IsFinite best
    → All IsFinite xs
    → IsFinite (max_score best xs)
max_score-IsFinite best [] hb h = hb
max_score-IsFinite best (x ∷ xs) hb h = elim (Bool-cases (lt_float best x)) [
  | inl y ↦ rw y (max_score-IsFinite x xs h.0 h.1)
  | inr n ↦ rw n (max_score-IsFinite best xs hb h.1)
]

module _ (u : Unicode) (ratio : Text → Text → Float)
    (regular : (s t : Text) → IsFinite (ratio s t)) where
  scores-IsFinite :
      (f : Text → Text) (name : Text) (names : List Text)
      → All IsFinite (map (λ n. ratio name (f n)) names)
  scores-IsFinite f name [] = tt
  scores-IsFinite f name (n ∷ names) = (regular name (f n), scores-IsFinite f name names)

  pub scored-HasScore :
      (name : Text) (vendors : List VendorIdentity) → All HasScore (scored u ratio name vendors)
  unfolding scored best_score
  scored-HasScore name [] = tt
  scored-HasScore name (v ∷ vs) =
      let n = λ (t : Text). normalize_text u (some t) in
      let best =
        max_score-IsFinite (ratio name (n v.legal_name)) _ (regular name (n v.legal_name))
          (scores-IsFinite n name v.aliases) in
      elim (Bool-cases (ge_float (best_score u ratio name v) (finite fuzzy_floor))) [
        | inl y ↦ rw y (best, scored-HasScore name vs)
        | inr m ↦ rw m (scored-HasScore name vs)
      ]

lead_step :
    (gap : ℤ) (t c d : Float)
    → IsFinite t
    → IsFinite c
    → IsFinite d
    → lt_float c d ≡ false
    → ge_float (sub_float t c) (finite gap) ≡ true
    → ge_float (sub_float t d) (finite gap) ≡ true
lead_step gap (finite x) (finite y) (finite z) ht hc hd q e =
    ground (arith, -ℤ_parts x y, -ℤ_parts x z)
lead_step gap t c d ht hc hd q e = ground arith

-- The lead of the best over the second holds over all the rest.
pub lead_over-All :
    (top : VendorCandidate) (rest : List VendorCandidate)
    → HasScore top
    → All HasScore rest
    → IsRanked rest
    → ge_float (sub_float top.score (runner_up rest)) (finite fuzzy_ambiguity_gap) ≡ true
    → All (λ c. ge_float (sub_float top.score c.score) (finite fuzzy_ambiguity_gap) ≡ true) rest
lead_over-All top [] ht h r e = tt
lead_over-All top (c ∷ cs) ht h r e = (
  e,
  All-All (λ d hd q. lead_step fuzzy_ambiguity_gap top.score c.score d.score ht h.0 hd q e) cs h.1
      r.0,
)
