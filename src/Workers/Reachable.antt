-- ===== src/Workers/Reachable.antt =====
-- The steps of the whole system, in any order: uploads, tasks that the broker delivers, decisions.
-- What every system that they lead to has in common.
use mathlib.Core.List.{append-nil}
use mathlib.Core.Path.{subst}
use Prim.Native.String.{String}
use ai_account_payable_invoi.Prelude.{
  false, ℕ, ◌≡◌, refl, sym, ap, ◌∙◌, ◌⊎◌, Bool, true, Option, none, Option-cases, List, [], ◌∷◌,
  ◌++◌, All, All-append, inl, inr, nat_eq, list_eq,
}
use ai_account_payable_invoi.Text.{Text}
use ai_account_payable_invoi.Domain.Export.{Bytes}
use ai_account_payable_invoi.Models.{
  Invoice, Vendor, PurchaseOrder, Tables, Reason, find_invoice, find_vendor, find_order,
}
use ai_account_payable_invoi.Domain.Validation.{ValidationInput}
use ai_account_payable_invoi.Services.Returns.{Takes}
use ai_account_payable_invoi.Services.Ingestion.{
  find_digest, insert_or_winner, new_invoice, ingest_upload,
}
use ai_account_payable_invoi.Services.Ingestion.Unique.{
  HasUniqueDigests, ingest_upload-HasUniqueDigests,
}
use ai_account_payable_invoi.Workers.{Task, System, Surroundings, run_task, decide, upload}
use ai_account_payable_invoi.Workers.Staged.{IsSound}
use ai_account_payable_invoi.Workers.Sessions.{run_task-Session, decide-Session}
use ai_account_payable_invoi.Workers.Consistent.{
  IsConsistent, HasUniqueIds, HasUniqueIds-append, Session-IsConsistent,
}

abbrev pub empty_system : System
empty_system = record {
  tables = record { invoices = []; vendors = []; purchase_orders = [] };
  objects = [];
  tasks = [];
}

-- The storage takes every artifact, and no rule's arithmetic overflows.
pub record IsDependable {Json : Type 0} (env : Surroundings Json) : Type 0 where
  pub takes : Takes env.signer
  pub in_range : (inp : ValidationInput) → env.overflows inp ≡ false

module _ (Json : Type 0) (sha256 : Bytes → Text) (may_lose : Bool) where
  -- A step. The broker delivers any task that waits, and may deliver one twice. If a message may be
  -- lost, it may also never deliver one, and the storage or the decimal module may raise in a task's
  -- session. Vendors and orders may be added and changed; no code deletes one, which would empty the
  -- references of the matches.
  pub data Step (before after : System) : Type 0 where
    uploads :
        (id : ℕ) (bytes : Bytes) (filename : Text) (content_type : String)
        → find_invoice id before.tables.invoices ≡ none
        → (upload sha256 id bytes filename content_type before).1 ≡ after
        → Step before after
    delivers :
        (env : Surroundings Json) (earlier later : List Task) (t : Task)
        → (may_lose ≡ true) ⊎ IsDependable env
        → before.tasks ≡ earlier ++ (t ∷ later)
        → run_task env t (record before { tasks = earlier ++ later }) ≡ after
        → Step before after
    decides :
        (approve : Bool) (actor : Text) (reason : Option Reason) (id : ℕ)
        → (decide approve actor reason id before).1 ≡ after
        → Step before after
    restocks :
        (vendors : List Vendor) (orders : List PurchaseOrder)
        → ((i : ℕ) → find_vendor i vendors ≡ none → find_vendor i before.tables.vendors ≡ none)
        → ((i : ℕ) → find_order i orders ≡ none → find_order i before.tables.purchase_orders ≡ none)
        → record before {
          tables = record before.tables { vendors = vendors; purchase_orders = orders };
        }
          ≡ after
        → Step before after
    repeats :
        (earlier later : List Task) (t : Task)
        → before.tasks ≡ earlier ++ (t ∷ later)
        → record before { tasks = earlier ++ (t ∷ t ∷ later) } ≡ after
        → Step before after
    loses :
        (earlier later : List Task) (t : Task)
        → may_lose ≡ true
        → before.tasks ≡ earlier ++ (t ∷ later)
        → record before { tasks = earlier ++ later } ≡ after
        → Step before after

  pub data Reaches (start : System) : System → Type 0 where
    here : Reaches start start
    later : (s t : System) → Reaches start s → Step s t → Reaches start t

-- A property that every step keeps holds wherever they lead.
pub Reaches-keeps {κ} :
    {Json : Type 0} {sha256 : Bytes → Text} {may_lose : Bool} (P : System → Type κ)
    → ((s t : System) → Step Json sha256 may_lose s t → P s → P t)
    → (start s : System) → Reaches Json sha256 may_lose start s
    → P start
    → P s
Reaches-keeps P kept start _ here h = h
Reaches-keeps P kept start _ (later s t path step) h =
    kept s t step (Reaches-keeps P kept start s path h)

-- What an upload does to the rows: nothing, or one more.
module _ (sha256 : Bytes → Text) (id : ℕ) (bytes : Bytes) (filename : Text) (content_type : String)
    (s : System) where
  abbrev uploaded : System
  uploaded = (upload sha256 id bytes filename content_type s).1

  abbrev row : Invoice
  row = new_invoice sha256 id bytes filename content_type

  pub upload-cases :
      (uploaded ≡ s)
      ⊎ ((uploaded.tables ≡ record s.tables { invoices = s.tables.invoices ++ (row ∷ []) })
          × (uploaded.tasks ≡ s.tasks ++ (Task.to_extract id ∷ [])))
  unfolding upload ingest_upload insert_or_winner
  upload-cases = elim (Option-cases (find_digest (sha256 bytes) s.tables.invoices)) [
    | inr (winner, q) ↦
        inl (rw (upload, ingest_upload, q) (ap (λ l. record s { tasks = l }) (append-nil s.tasks)))
    | inl q ↦
        let again : find_digest (sha256 bytes) (s.tables.invoices ++ []) ≡ none =
          ap (find_digest (sha256 bytes)) (append-nil s.tables.invoices) ∙ q in
        inr (
          rw (upload, ingest_upload, q, insert_or_winner, again)
            (
              ap (λ l. record s.tables { invoices = l ++ (row ∷ []) })
                  (append-nil s.tables.invoices),
              refl,
            ))
  ]

  uploaded-HasUniqueDigests :
      HasUniqueDigests s.tables.invoices → HasUniqueDigests uploaded.tables.invoices
  unfolding upload
  uploaded-HasUniqueDigests h =
      ingest_upload-HasUniqueDigests sha256 id bytes filename content_type [] _
        (rw (append-nil s.tables.invoices) h)

  new-IsSound : IsSound row
  unfolding new_invoice
  new-IsSound = record { history = refl; rows = (refl, refl, refl, refl) }

  pub upload-IsConsistent :
      find_invoice id s.tables.invoices ≡ none
      → IsConsistent s.tables.invoices
      → IsConsistent uploaded.tables.invoices
  unfolding new_invoice
  upload-IsConsistent fresh h = elim upload-cases [
    | inl same ↦ subst (λ (x : System). IsConsistent x.tables.invoices) (sym same) h
    | inr (added, _) ↦
        let by : uploaded.tables.invoices ≡ s.tables.invoices ++ (row ∷ []) =
          ap (λ (t : Tables). t.invoices) added in
        record {
          sound =
              subst (All IsSound) (sym by)
                (All-append IsSound s.tables.invoices (row ∷ []) h.sound (new-IsSound, tt));
          ids = subst HasUniqueIds (sym by) (HasUniqueIds-append s.tables.invoices row h.ids fresh);
          digests = uploaded-HasUniqueDigests h.digests;
        }
  ]

module _ {Json : Type 0} {sha256 : Bytes → Text} {may_lose : Bool} where
  pub Step-IsConsistent :
      (s t : System)
      → Step Json sha256 may_lose s t
      → IsConsistent s.tables.invoices
      → IsConsistent t.tables.invoices
  Step-IsConsistent s t (uploads id bytes filename content_type fresh e) h =
      subst (λ (x : System). IsConsistent x.tables.invoices) e
        (upload-IsConsistent sha256 id bytes filename content_type s fresh h)
  Step-IsConsistent s t (delivers env earlier rest task _ _ e) h =
      subst (λ (x : System). IsConsistent x.tables.invoices) e
        (Session-IsConsistent _ _ (run_task-Session env task _) h)
  Step-IsConsistent s t (decides approve actor reason id e) h =
      subst (λ (x : System). IsConsistent x.tables.invoices) e
        (Session-IsConsistent _ _ (decide-Session approve actor reason id s) h)
  Step-IsConsistent s t (restocks vendors orders _ _ e) h =
      subst (λ (x : System). IsConsistent x.tables.invoices) e h
  Step-IsConsistent s t (repeats earlier rest task _ e) h =
      subst (λ (x : System). IsConsistent x.tables.invoices) e h
  Step-IsConsistent s t (loses earlier rest task _ _ e) h =
      subst (λ (x : System). IsConsistent x.tables.invoices) e h

  -- From the empty system, uploads under fresh ids, tasks delivered in any order, messages repeated
  -- or lost, sessions that raise, decisions, and vendors and orders that are added or changed, lead
  -- only to systems in which every log leads by legal moves to its invoice's status, every invoice
  -- has the rows of its status and none is in EXTRACTING, MATCHING or EXPORTING, and no id and no
  -- digest occurs twice.
  pub reachable-IsConsistent :
      (s : System) → Reaches Json sha256 may_lose empty_system s → IsConsistent s.tables.invoices
  reachable-IsConsistent s path =
      Reaches-keeps (λ (x : System). IsConsistent x.tables.invoices) Step-IsConsistent empty_system
        s path (record { sound = tt; ids = tt; digests = tt })
