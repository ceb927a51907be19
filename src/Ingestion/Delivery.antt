-- ===== src/Ingestion/Delivery.antt =====
-- What the task shell makes of the end of a stage (`_run_stage` of workers/tasks/ingest.py).
use atlas_knowledge.Common.{
  ℕ, ◌≤◌, ◌<◌, ◌≡◌, refl, inl, inr, true, [], ◌∷◌, some, Bool-cases, arith, Text, leb,
}
use atlas_knowledge.Ingestion.World.{Status, Stage, Document, World, get_document}
use atlas_knowledge.Ingestion.Stages.{
  Ending, returned, timed_out, transient_error, crashed, fail, Adapters, Settings, Run, parse_stage,
  chunk_stage,
}
use atlas_knowledge.Ingestion.Rows.{UniqueIds, allows, get-fail}
use atlas_knowledge.Ingestion.Transitions.{Ends, parse_stage_transition, chunk_stage_transition}
use atlas_knowledge.Ingestion.Tasks.{Shell, done, retry, max_retries, max_backoff, run_stage}

-- After the shell: the document is past the stage or failed, or the stage will run again, and the
-- retries so far are below the limit.
pub data Settled (next : Status) (stage : Stage) (retries : ℕ) : Shell → Status → Type 0 where
  advanced : (s : Status) → s ≡ next → Settled next stage retries done s
  failed : (s : Status) → s ≡ Status.failed → Settled next stage retries done s
  waiting :
      (s : Status) (delay : ℕ)
      → retries < max_retries stage
      → delay ≤ max_backoff
      → Settled next stage retries (retry delay) s

pub record IsSettled (i : ℕ) (next : Status) (stage : Stage) (retries : ℕ) (r : Shell × World)
    : Type 0 where
  pub doc : Document
  pub found : get_document i r.1 ≡ some doc
  pub settled : Settled next stage retries r.0 doc.status

module _ (i : ℕ) (to next : Status) (stage : Stage) (retries : ℕ) where
  fail-IsSettled :
      (w : World) (d : Document) (m : Text)
      → get_document i w ≡ some d
      → IsSettled i next stage retries (done, fail i stage m w)
  fail-IsSettled w d m e = record {
    doc = _;
    found = get-fail i w e stage m;
    settled = failed _ refl;
  }

  run_stage-IsSettled :
      (r : Ending × World)
      → Ends i to next r
      → IsSettled i next stage retries (run_stage stage retries i r)
  unfolding run_stage
  run_stage-IsSettled (returned, w) h = elim h.leaves [
    | inl e ↦ record { doc = h.doc; found = h.found; settled = advanced _ e }
    | inr e ↦ record { doc = h.doc; found = h.found; settled = failed _ e }
  ]
  run_stage-IsSettled (timed_out, w) h = fail-IsSettled w h.doc _ h.found
  run_stage-IsSettled (crashed n, w) h = fail-IsSettled w h.doc _ h.found
  run_stage-IsSettled (transient_error m, w) h =
      elim (Bool-cases (leb (max_retries stage) retries)) [
        | inl e ↦ rw e (fail-IsSettled w h.doc _ h.found)
        | inr e ↦ rw e (record {
          doc = h.doc;
          found = h.found;
          settled = waiting _ _ (ground arith) (omega arith);
        })
      ]

-- With unique document ids, after a parse task on a pending or failed document the document is at
-- `chunking` or failed, or the task is to run again, after a minute at most, and has been retried
-- fewer times than the limit.
parse_document-IsSettled :
    (a : Adapters) (settings : Settings) (r : Run) (i retries : ℕ) (w : World) (d : Document)
    → get_document i w ≡ some d
    → UniqueIds w.documents
    → allows (Status.pending ∷ Status.failed ∷ []) d ≡ true
    → IsSettled i Status.chunking Stage.parse retries
        (run_stage Stage.parse retries i (parse_stage a settings r i w))
parse_document-IsSettled a settings r i retries w d e u h =
    elim (parse_stage_transition a settings r i w d e u) [
      | inl (refused, _) ↦ cc
      | inr (_, ends) ↦
          run_stage-IsSettled i Status.parsing Status.chunking Stage.parse retries _ ends
    ]

-- With unique document ids, after a chunk task on a document at `chunking` or failed the document
-- is at `embedding` or failed, or the task is to run again, after a minute at most, and has been
-- retried fewer times than the limit.
pub chunk_document-IsSettled :
    (a : Adapters) (settings : Settings) (r : Run) (i retries : ℕ) (w : World) (d : Document)
    → get_document i w ≡ some d
    → UniqueIds w.documents
    → allows (Status.chunking ∷ Status.failed ∷ []) d ≡ true
    → IsSettled i Status.embedding Stage.chunk retries
        (run_stage Stage.chunk retries i (chunk_stage a settings r i w))
chunk_document-IsSettled a settings r i retries w d e u h =
    elim (chunk_stage_transition a settings r i w d e u) [
      | inl (refused, _) ↦ cc
      | inr (_, ends) ↦
          run_stage-IsSettled i Status.chunking Status.embedding Stage.chunk retries _ ends
    ]
