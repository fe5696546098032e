-- ===== src/Api/Health.antt =====
-- The probes, src/invoice_ops/api/health.py. A probe is what it raised, `none` if nothing.
use Prim.Native.String.{String}
use ai_account_payable_invoi.Prelude.{
  ℕ, ◌≡◌, ◌↔◌, ◌⊎◌, refl, inl, inr, Bool, true, false, ◌&&◌, Option, none, some, List, [], ◌∷◌,
  if◌then◌else◌, arith,
}
use ai_account_payable_invoi.Config.{Settings}
use ai_account_payable_invoi.Storage.{Attempt, fault, done, Fault, Storage}

pub record DependencyStatus : Type 0 where
  pub name : String
  pub ok : Bool
  pub raised : Option Fault

pub record ReadyResponse : Type 0 where
  pub status : String
  pub dependencies : List DependencyStatus

-- `_check`
unfoldable pub check : String → Option Fault → DependencyStatus
check name none = record { name = name; ok = true; raised = none }
check name (some why) = record { name = name; ok = false; raised = some why }

-- `_check_broker`
unfoldable pub check_broker : Settings → Option Fault → Option Fault
check_broker settings connection = if settings.celery_task_always_eager then none else connection

abbrev pub raised_by {ℓ} : {A : Type ℓ} → Attempt A → Option Fault
raised_by (done value) = none
raised_by (fault why) = some why

-- `all(d.ok for d in deps)`
unfoldable pub all_ok : List DependencyStatus → Bool
all_ok [] = true
all_ok (d ∷ deps) = d.ok && all_ok deps

unfoldable pub status_code : List DependencyStatus → ℕ
unfolding all_ok
status_code deps = if all_ok deps then 200 else 503

unfoldable pub ready :
    {W : Type 0} → Settings → Option Fault → Storage W → Option Fault → W → ℕ × ReadyResponse
unfolding all_ok check check_broker status_code
ready settings database storage connection w =
    let deps =
      check "database" database
      ∷ check "storage" (raised_by (storage.ensure_ready w))
      ∷ check "broker" (check_broker settings connection)
      ∷ [] in
    (
      status_code deps,
      record { status = if all_ok deps then "ok" else "degraded"; dependencies = deps },
    )

answer :
    (database storage connection : Option Fault) (eager : Bool)
    → (status_code (
          check "database" database
          ∷ check "storage" storage
          ∷ check "broker" (if eager then none else connection)
          ∷ [])
        ≡ 200)
      ↔ ((database ≡ none) × (storage ≡ none) × ((eager ≡ true) ⊎ (connection ≡ none)))
unfolding check all_ok status_code
answer none none connection true = (λ _. (refl, refl, inl refl), λ _. refl)
answer none none none false = (λ _. (refl, refl, inr refl), λ _. refl)
answer none none (some x) false =
    (λ h. absurd (omega (arith, h)), λ (_, _, h). elim h [ inl e ↦ cc | inr e ↦ cc ])
answer none (some x) connection eager = (λ h. absurd (omega (arith, h)), λ (_, e, _). cc)
answer (some x) storage connection eager = (λ h. absurd (omega (arith, h)), λ (e, _, _). cc)

-- The readiness probe answers 200 exactly when the probes of the database and of the storage raise
-- nothing, and that of the broker raises nothing or is skipped because tasks run inline.
pub ready_iff :
    {W : Type 0} (settings : Settings) (database : Option Fault) (storage : Storage W)
    (connection : Option Fault) (w : W)
    → ((ready settings database storage connection w).0 ≡ 200) ↔ (
        (database ≡ none)
        × (raised_by (storage.ensure_ready w) ≡ none)
        × ((settings.celery_task_always_eager ≡ true) ⊎ (connection ≡ none)))
unfolding ready check check_broker all_ok status_code
ready_iff settings database storage connection w =
    answer database (raised_by (storage.ensure_ready w)) connection
      settings.celery_task_always_eager
