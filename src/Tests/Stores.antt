-- ===== src/Tests/Stores.antt =====
-- A small file system and a small S3, and the storage over them.
use ai_account_payable_invoi.Prelude.{
  ◌≡◌, ◌≢◌, false, ◌↔◌, ◌⊎◌, refl, sym, ap, ◌∙◌, true, Option, none, some, [], ◌∷◌, ◌++◌, length,
  take, ◌==◌, nat_eq, list_eq, list_beq_iff, if◌then◌else◌,
}
use ai_account_payable_invoi.Text.{Text, text}
use ai_account_payable_invoi.Config.{default_settings}
use ai_account_payable_invoi.Domain.Export.{Bytes}
use ai_account_payable_invoi.Services.Session.{Objects, get_object, put_object}
use ai_account_payable_invoi.Services.Export.Stage.{get_object-put_same, get_object-put_other}
use ai_account_payable_invoi.Storage.{
  Fault, backend, Attempt, fault, done, FileSystem, local_storage, local_put, local_get, path,
}
use ai_account_payable_invoi.Storage.RoundTrip.{
  IsFileSystem, same_done, local_put-get, local_put_confined,
}
use ai_account_payable_invoi.Api.Health.{raised_by, ready, ready_iff}

record Disk : Type 0 where
  files : Objects

abbrev found_in : Option Bytes → Attempt Bytes
found_in none = fault (backend (text "no such file"))
found_in (some bytes) = done bytes

-- A key that starts with a slash is a path of its own.
abbrev joined : Text → Text → Text
joined root [] = root
joined root (c ∷ key) = if c == 0x2f then c ∷ key else root ++ (0x2f ∷ c ∷ key)

abbrev written : Text → Bytes → Disk → Disk
written p bytes w = record w { files = put_object p bytes w.files }

abbrev files : FileSystem Disk Text
files = record {
  resolve = λ root key w. joined root key;
  is_relative_to = λ p root. take (length root) p == root;
  parent = λ p. p;
  mkdir = λ p w. done w;
  write_bytes = λ p bytes w. done (written p bytes w);
  read_bytes = λ p w. found_in (get_object p w.files);
  as_uri = λ p. p;
}

written-found :
    (p : Text) (bytes : Bytes) (w w' : Disk)
    → done (written p bytes w) ≡ done w'
    → found_in (get_object p w'.files) ≡ done bytes
written-found p bytes w w' h =
    ap (λ (x : Disk). found_in (get_object p x.files)) (sym (same_done h))
    ∙ ap found_in (get_object-put_same p bytes w.files)

written-elsewhere :
    (p q : Text) (bytes kept : Bytes) (w w' : Disk)
    → q ≢ p
    → done (written p bytes w) ≡ done w'
    → found_in (get_object q w.files) ≡ done kept
    → found_in (get_object q w'.files) ≡ done kept
written-elsewhere p q bytes kept w w' n h there =
    ap (λ (x : Disk). found_in (get_object q x.files)) (sym (same_done h))
    ∙ ap found_in (get_object-put_other q p bytes w.files n)
    ∙ there

files-IsFileSystem : IsFileSystem files
files-IsFileSystem = record {
  read_back = written-found;
  write_elsewhere = written-elsewhere;
  mkdir_keeps = λ p q kept w w' h there.
      ap (λ (x : Disk). found_in (get_object q x.files)) (sym (same_done h)) ∙ there;
  mkdir_resolves = λ p root key w w' h. refl;
  write_resolves = λ p root key bytes w w' h. refl;
}

abbrev empty_disk : Disk
empty_disk = record { files = [] }

abbrev root : Text
root = text "/data"

-- One file is there, another is put.
abbrev first_file : Disk
first_file = written (text "/data/raw/a") (7 ∷ []) empty_disk

abbrev both_files : Disk
both_files = written (text "/data/raw/b") (1 ∷ 2 ∷ []) first_file

apart : joined root (text "raw/a") ≢ joined root (text "raw/b")
apart e = let t : false ≡ true = (list_beq_iff (text "/data/raw/a") (text "/data/raw/b")).1 e in cc

local_put-get_example :
    (local_get files root (text "raw/b") both_files ≡ done (1 ∷ 2 ∷ []))
    × (local_get files root (text "raw/a") both_files ≡ done (7 ∷ []))
unfolding local_put local_get path get_object
local_put-get_example =
    local_put-get files root files-IsFileSystem (text "raw/b") (1 ∷ 2 ∷ []) "application/pdf"
      first_file both_files refl (text "raw/a") (7 ∷ []) apart refl

-- A file beside the root.
abbrev outside_file : Disk
outside_file = written (text "/etc/passwd") (9 ∷ []) empty_disk

abbrev and_inside : Disk
and_inside = written (text "/data/raw/b") (1 ∷ 2 ∷ []) outside_file

local_put_confined_example :
    (files.is_relative_to (files.resolve root (text "raw/b") outside_file) root ≡ true)
    × (files.read_bytes (text "/etc/passwd") and_inside ≡ done (9 ∷ []))
unfolding local_put path get_object
local_put_confined_example =
    local_put_confined files root files-IsFileSystem (text "raw/b") (1 ∷ 2 ∷ []) "application/pdf"
      outside_file and_inside refl (text "/etc/passwd") (9 ∷ []) refl refl

abbrev unreachable : Option Fault
unreachable = some (backend (text "broker"))

abbrev healthy : Option Fault
healthy = none

ready_iff_example :
    ((ready default_settings healthy (local_storage files root) unreachable empty_disk).0 ≡ 200) ↔ (
      (healthy ≡ none)
      × (raised_by ((local_storage files root).ensure_ready empty_disk) ≡ none)
      × ((default_settings.celery_task_always_eager ≡ true) ⊎ (unreachable ≡ none)))
ready_iff_example =
    ready_iff default_settings healthy (local_storage files root) unreachable empty_disk
