-- ===== src/Seeds/Vendors.antt =====
-- What a run of scripts/seed_eval_vendors.py leaves.
use mathlib.Core.List.{append_assoc, append-nil}
use ai_account_payable_invoi.Prelude.{
  ℕ, ◌≡◌, refl, sym, ap, ◌∙◌, Bool-cases, true, false, Option, none, some, List, [], ◌∷◌, ◌++◌, inl,
  inr, All, contains, contains-append_left, contains-append_none, list_eq, nat_eq, list_beq_iff,
  arith,
}
use ai_account_payable_invoi.Text.{Text, text, starts_with}
use ai_account_payable_invoi.Models.{Vendor, Tables}
use ai_account_payable_invoi.Services.Outcome.{ok}
use ai_account_payable_invoi.Seeds.{
  truthy_tax_ids, with_truthy_id, FixtureFile, usable, Seeding, fixture_vendor, seed_one, seed_all,
  seed_eval_vendors, if_given,
}

truthy-append :
    (vs ws : List Vendor) → truthy_tax_ids (vs ++ ws) ≡ truthy_tax_ids vs ++ truthy_tax_ids ws
unfolding truthy_tax_ids
truthy-append [] ws = refl
truthy-append (v ∷ vs) ws = ap (with_truthy_id v.tax_id) (truthy-append vs ws) ∙ inside v.tax_id
  where
    inside :
        (o : Option Text)
        → with_truthy_id o (truthy_tax_ids vs ++ truthy_tax_ids ws)
          ≡ with_truthy_id o (truthy_tax_ids vs) ++ truthy_tax_ids ws
    inside none = refl
    inside (some []) = refl
    inside (some (c ∷ t)) = refl

-- No text occurs twice.
abbrev pub IsDistinct : List Text → Type 0
IsDistinct [] = Unit
IsDistinct (t ∷ ts) = (contains ts t ≡ false) × IsDistinct ts

IsDistinct-append :
    (ts : List Text) (t : Text)
    → IsDistinct ts
    → contains ts t ≡ false
    → IsDistinct (ts ++ (t ∷ []))
IsDistinct-append [] t d n = (refl, tt)
IsDistinct-append (s ∷ ts) t d n =
    let tail = IsDistinct-append ts t d.1 in
    ground (arith, list_beq_iff t s, list_beq_iff s t, contains-append_none ts (t ∷ []) s, tail)

contains-append_last :
    (ts : List Text) (x t : Text) → contains (ts ++ (x ∷ [])) t ≡ contains (x ∷ ts) t
contains-append_last [] x t = refl
contains-append_last (s ∷ ts) x t = ground (arith, contains-append_last ts x t)

-- The vendor of a usable fixture is known.
abbrev pub HasVendor : List Vendor → Option (Text × Text) → Type 0
HasVendor vs none = Unit
HasVendor vs (some (name, tax)) = contains (truthy_tax_ids vs) tax ≡ true

HasVendor-append :
    (vs ws : List Vendor) (o : Option (Text × Text)) → HasVendor vs o → HasVendor (vs ++ ws) o
HasVendor-append vs ws none h = tt
HasVendor-append vs ws (some (name, tax)) h =
    rw (truthy-append vs ws) (contains-append_left (truthy_tax_ids vs) (truthy_tax_ids ws) tax h)

abbrev IsGiven : Option (Text × Text) → Type 0
IsGiven none = Unit
IsGiven (some (name, [])) = ⊥
IsGiven (some (name, c ∷ tax)) = Unit

usable-IsGiven : (f : FixtureFile) → IsGiven (usable f)
unfolding usable
usable-IsGiven f = elim (Bool-cases (starts_with f.stem (text "_TEMPLATE"))) [
  | inl y ↦ rw (usable, y) tt
  | inr n ↦ rw (usable, n) (both f.supplier_name f.supplier_tax_id)
]
  where
    both : (name tax : Option Text) → IsGiven (if_given name tax)
    both (some (c ∷ name)) (some (d ∷ tax)) = tt
    both name tax = tt

-- What the loop keeps: `existing` are the tax ids of the vendors, and none occurs twice.
abbrev IsInStep : Seeding → Type 0
IsInStep s =
    ((t : Text) → contains s.existing t ≡ contains (truthy_tax_ids s.vendors) t)
    × IsDistinct (truthy_tax_ids s.vendors)

truthy-append_one :
    (vs : List Vendor) (id : ℕ) (name : Text) (c : ℕ) (tax : Text)
    → truthy_tax_ids (vs ++ (fixture_vendor id name (c ∷ tax) ∷ []))
      ≡ truthy_tax_ids vs ++ ((c ∷ tax) ∷ [])
unfolding truthy_tax_ids
truthy-append_one vs id name c tax = truthy-append vs (fixture_vendor id name (c ∷ tax) ∷ [])

-- What one fixture does.
module _ (uuid4 : ℕ → ℕ) where
  record IsSeededWith (o : Option (Text × Text)) (s after : Seeding) : Type 0 where
    in_step : IsInStep after
    added : List Vendor
    kept : after.vendors ≡ s.vendors ++ added
    has_vendor : HasVendor after.vendors o

  seed_one-IsSeededWith :
      (o : Option (Text × Text)) (s : Seeding)
      → IsGiven o
      → IsInStep s
      → IsSeededWith o s (seed_one uuid4 o s)
  seed_one-IsSeededWith none s g h = record {
    in_step = h;
    added = [];
    kept = sym (append-nil s.vendors);
    has_vendor = tt;
  }
  seed_one-IsSeededWith (some (name, [])) s g h = absurd g
  seed_one-IsSeededWith (some (name, c ∷ tax)) s g h =
      elim (Bool-cases (contains s.existing (c ∷ tax))) [
        | inl y ↦ rw y (record {
          in_step = h;
          added = [];
          kept = sym (append-nil s.vendors);
          has_vendor = sym (h.0 (c ∷ tax)) ∙ y;
        })
        | inr n ↦
            let known = truthy_tax_ids s.vendors in
            let one = truthy-append_one s.vendors (uuid4 s.seeded) name c tax in
            let not_known : contains known (c ∷ tax) ≡ false = sym (h.0 (c ∷ tax)) ∙ n in
            rw n (record {
              in_step = (
                λ t. rw (one, contains-append_last known (c ∷ tax) t, h.0 t) refl,
                rw one (IsDistinct-append known (c ∷ tax) h.1 not_known),
              );
              added = fixture_vendor (uuid4 s.seeded) name (c ∷ tax) ∷ [];
              kept = refl;
              has_vendor =
                  rw
                    (
                      one,
                      contains-append_last known (c ∷ tax) (c ∷ tax),
                      (list_beq_iff (c ∷ tax) (c ∷ tax)).1 refl,
                    )
                    refl;
            })
      ]

  abbrev AllHaveVendors : List FixtureFile → List Vendor → Type 0
  AllHaveVendors fs vs = All (λ f. HasVendor vs (usable f)) fs

  record IsSeededAll (fs : List FixtureFile) (s after : Seeding) : Type 0 where
    in_step : IsInStep after
    added : List Vendor
    kept : after.vendors ≡ s.vendors ++ added
    covered : AllHaveVendors fs after.vendors

  seed_all-IsSeededAll :
      (fs : List FixtureFile) (s : Seeding) → IsInStep s → IsSeededAll fs s (seed_all uuid4 fs s)
  unfolding seed_all
  seed_all-IsSeededAll [] s h = record {
    in_step = h;
    added = [];
    kept = sym (append-nil s.vendors);
    covered = tt;
  }
  seed_all-IsSeededAll (f ∷ fs) s h =
      let one = seed_one-IsSeededWith (usable f) s (usable-IsGiven f) h in
      let s' = seed_one uuid4 (usable f) s in
      let all = seed_all-IsSeededAll fs s' one.in_step in
      record {
        in_step = all.in_step;
        added = one.added ++ all.added;
        kept =
            all.kept
            ∙ ap (λ vs. vs ++ all.added) one.kept
            ∙ append_assoc s.vendors one.added all.added;
        covered = (
          rw all.kept (HasVendor-append s'.vendors all.added (usable f) one.has_vendor),
          all.covered,
        );
      }

  seed_one-known :
      (o : Option (Text × Text)) (s : Seeding)
      → IsInStep s
      → HasVendor s.vendors o
      → seed_one uuid4 o s ≡ s
  seed_one-known none s h k = refl
  seed_one-known (some (name, tax)) s h k = rw (h.0 tax, k) refl

  seed_all-known :
      (fs : List FixtureFile) (s : Seeding)
      → IsInStep s
      → AllHaveVendors fs s.vendors
      → seed_all uuid4 fs s ≡ s
  unfolding seed_all
  seed_all-known [] s h k = refl
  seed_all-known (f ∷ fs) s h k = rw (seed_one-known (usable f) s h k.0) (seed_all-known fs s h k.1)

-- The vendors after a run, and what another run would do.
pub record IsSeeded (uuid4 again : ℕ → ℕ) (fs : List FixtureFile) (tables : Tables) : Type 0 where
  pub seeded : ℕ
  pub added : List Vendor
  pub after : Tables
  pub keeps : after ≡ record tables { vendors = tables.vendors ++ added }
  pub returns : seed_eval_vendors uuid4 fs tables ≡ ok (seeded, after)
  pub distinct : IsDistinct (truthy_tax_ids after.vendors)
  pub covered : All (λ f. HasVendor after.vendors (usable f)) fs
  pub returns_again : seed_eval_vendors again fs after ≡ ok (0, after)

-- If no tax id occurs twice, a run returns, adds vendors only, and then no tax id occurs twice, and
-- every fixture that is no template and has a name and a tax id has a vendor of that tax id. A
-- further run, whatever its fresh ids, seeds nothing.
pub seed_eval_vendors-IsSeeded :
    (uuid4 again : ℕ → ℕ) (fs : List FixtureFile) (tables : Tables)
    → IsDistinct (truthy_tax_ids tables.vendors)
    → IsSeeded uuid4 again fs tables
unfolding seed_eval_vendors
seed_eval_vendors-IsSeeded uuid4 again fs tables d =
    let start : Seeding = record {
      existing = truthy_tax_ids tables.vendors;
      seeded = 0;
      vendors = tables.vendors;
    } in
    let all = seed_all-IsSeededAll uuid4 fs start ((λ t. refl), d) in
    let done = seed_all uuid4 fs start in
    let restart : Seeding = record {
      existing = truthy_tax_ids done.vendors;
      seeded = 0;
      vendors = done.vendors;
    } in
    let same = seed_all-known again fs restart ((λ t. refl), all.in_step.1) all.covered in
    record {
      seeded = done.seeded;
      added = all.added;
      after = record tables { vendors = done.vendors };
      keeps = ap (λ vs. record tables { vendors = vs }) all.kept;
      returns = refl;
      distinct = all.in_step.1;
      covered = all.covered;
      returns_again =
          ap (λ (s : Seeding). ok (s.seeded, record tables { vendors = s.vendors })) same;
    }
