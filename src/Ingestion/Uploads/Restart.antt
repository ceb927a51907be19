-- ===== src/Ingestion/Uploads/Restart.antt =====
-- Retry and delete of `DocumentService`, and the restart that a repeated upload shares with them
-- (document_service.py, documents.py).
use atlas_knowledge.Common.{
  ℕ, Bool, ◌&&◌, not, Option, none, some, ◌==◌, if◌then◌else◌, keep, find_first, Text, codes,
  Outcome, ok, err,
}
use atlas_knowledge.Errors.{AppError, document_not_found, document_not_retryable}
use atlas_knowledge.Ingestion.World.{
  Status, Stage, Document, IngestionJob, World, run, purge, status_eq, has_id, update_document,
  first_failed_stage, of_document, enqueue,
}

abbrev pub owned_by : ℕ → ℕ → Document → Bool
owned_by user_id i d = d.id == i && d.uploaded_by == user_id

abbrev pub get_owned : ℕ → ℕ → World → Option Document
get_owned user_id i w = find_first (owned_by user_id i) w.documents

-- `_STAGE_ENTRY_STATUS`
abbrev pub entry_status : Stage → Status
entry_status Stage.parse = Status.pending
entry_status Stage.chunk = Status.chunking
entry_status Stage.embed = Status.embedding

abbrev pub restart_row : Status → Document → Document
restart_row status d = record d { status = status; error = none }

abbrev pub enqueue_failed_row : Document → Document
enqueue_failed_row d = record d { status = Status.failed; error = some (codes "解析任務入列失敗,請重試") }

-- `_enqueue_stage`; `queue_fails` says that the queue raises.
unfoldable pub enqueue_stage : Bool → ℕ → Stage → World → World
enqueue_stage queue_fails i stage w =
    if queue_fails
    then record w { documents = update_document i enqueue_failed_row w.documents }
    else enqueue (run stage i) w

abbrev pub or_parse : Option Stage → Stage
or_parse none = Stage.parse
or_parse (some stage) = stage

-- `_restart_from_failed_stage`
unfoldable pub restart : Bool → ℕ → World → World
restart queue_fails i w =
    let stage = or_parse (first_failed_stage i w) in
    enqueue_stage queue_fails i stage
      (record w { documents = update_document i (restart_row (entry_status stage)) w.documents })

-- `_reset_if_failed`
unfoldable pub reset_if_failed : Bool → Document → World → World
reset_if_failed queue_fails d w =
    if status_eq d.status Status.failed then restart queue_fails d.id w else w

-- `retry`
unfoldable pub retry : Bool → ℕ → ℕ → World → Outcome AppError ℕ × World
retry queue_fails user_id i w = elim (get_owned user_id i w) [
  | none ↦ (err document_not_found, w)
  | some d ↦
      if status_eq d.status Status.failed
      then (ok d.id, restart queue_fails d.id w)
      else (err document_not_retryable, w)
]

abbrev pub of_job : ℕ → IngestionJob → Bool
of_job i j = j.document_id == i

-- The row and, by ON DELETE CASCADE, its chunks and jobs.
unfoldable pub delete_rows : ℕ → World → World
delete_rows i w = record w {
  documents = keep (λ d. not (has_id i d)) w.documents;
  chunks = keep (λ c. not (of_document i c)) w.chunks;
  jobs = keep (λ j. not (of_job i j)) w.jobs;
}

-- `delete`; a failing queue leaves the files behind.
unfoldable pub delete : (ℕ → Text) → Bool → ℕ → ℕ → World → Outcome AppError (Unit {0}) × World
delete prefix queue_fails user_id i w = elim (get_owned user_id i w) [
  | none ↦ (err document_not_found, w)
  | some d ↦ (
    ok tt,
    if queue_fails then delete_rows d.id w else enqueue (purge (prefix d.id)) (delete_rows d.id w),
  )
]
