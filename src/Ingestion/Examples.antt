-- ===== src/Ingestion/Examples.antt =====
-- A world of two documents, and the statements about the pipeline at it.
use atlas_knowledge.Common.{
  ℕ, ◌+◌, ◌^◌, min, ◌≡◌, refl, ◌⊎◌, Bool, true, false, [], ◌∷◌, none, some, keep, codes, ok, err,
  arith, text_eq,
}
use atlas_knowledge.Errors.{unexpected, document_not_found}
use atlas_knowledge.Documents.{ChunkDraft, text_draft}
use atlas_knowledge.Ingestion.World.{
  Status, Stage, Document, World, get_document, claim_row, replace_for_document, draft_rows,
  of_document, run, first_failed_stage,
}
use atlas_knowledge.Ingestion.Stages.{
  start_of, Adapters, Settings, Run, Ending, returned, vectors, parsed, parse_stage,
}
use atlas_knowledge.Ingestion.Rows.{UniqueIds, allows}
use atlas_knowledge.Ingestion.Transitions.{Ends, parse_stage_transition}
use atlas_knowledge.Ingestion.Embedding.{embed_stage}
use atlas_knowledge.Ingestion.Embedding.Totality.{EmbedEnds, embed_stage-Total}
use atlas_knowledge.Ingestion.Tasks.{done, retry, max_backoff, run_stage}
use atlas_knowledge.Ingestion.Rechunk.{other, replace_for_document_exact}
use atlas_knowledge.Ingestion.Retries.{parse_retry_is_lost}
use atlas_knowledge.Ingestion.Uploads.{insert_upload, create, Upload, upload}
use atlas_knowledge.Ingestion.Uploads.Mime.{Paths}
use atlas_knowledge.Ingestion.Uploads.Restart
use atlas_knowledge.Ingestion.Uploads.Restart.{
  or_parse, entry_status, restart_row, get_owned, delete,
}
use atlas_knowledge.Ingestion.Uploads.Claims.{retry_starts}
use atlas_knowledge.Ingestion.Uploads.Deletion.{Deleted, delete_lem}
use atlas_knowledge.Ingestion.Uploads.Files.{UniqueFiles}
use atlas_knowledge.Ingestion.Uploads.Unique.{Sound, upload-UniqueFiles}

abbrev document : ℕ → Status → Document
document i status = record {
  id = i;
  source_id = 1;
  uploaded_by = 1;
  filename = codes "a.txt";
  mime = codes "text/plain";
  size_bytes = 3;
  storage_key = i ∷ [];
  checksum = i ∷ i ∷ [];
  status = status;
  error = none;
}

abbrev world : Status → World
world status = record {
  documents = document 1 status ∷ document 2 Status.ready ∷ [];
  chunks = [];
  jobs = [];
  sources = [];
  files = (1 ∷ [], codes "abc") ∷ [];
  queue = [];
}

abbrev adapters : Adapters
adapters = record {
  parse_file = λ mime contents filename. parsed [];
  to_json = λ blocks. [];
  of_json = λ raw. ok [];
  embed = λ n texts. vectors [];
  embedding_version = codes "v1";
  document_key = λ i. i ∷ [];
}

abbrev settings : Settings
settings = record {
  chunking = record { target_tokens = 4; overlap_tokens = 1 };
  embedding_batch_size = 2;
}

abbrev good_run : Run
good_run = record { ids = λ n. n; read_fails = none; write_fails = none; enqueue_fails = none }

abbrev failing_run : Run
failing_run = record {
  ids = λ n. n;
  read_fails = some (codes "busy");
  write_fails = none;
  enqueue_fails = none;
}

unique : (status : Status) → UniqueIds (world status).documents
unique status = ((refl, tt), (tt, tt))

parse_stage_transition_example :
    (allows (Status.pending ∷ Status.failed ∷ []) (document 1 Status.pending) ≡ false)
      × (parse_stage adapters settings good_run 1 (world Status.pending)
          ≡ (returned, world Status.pending))
    ⊎ (allows (Status.pending ∷ Status.failed ∷ []) (document 1 Status.pending) ≡ true)
      × Ends 1 Status.parsing Status.chunking
          (parse_stage adapters settings good_run 1 (world Status.pending))
parse_stage_transition_example =
    parse_stage_transition adapters settings good_run 1 (world Status.pending)
      (document 1 Status.pending) refl (unique Status.pending)

embed_stage-Total_example :
    (allows (Status.embedding ∷ Status.failed ∷ []) (document 1 Status.embedding) ≡ false)
      × (embed_stage adapters settings 1 (world Status.embedding)
          ≡ some (returned, world Status.embedding))
    ⊎ (allows (Status.embedding ∷ Status.failed ∷ []) (document 1 Status.embedding) ≡ true)
      × ((r : Ending × World) × (embed_stage adapters settings 1 (world Status.embedding) ≡ some r)
          × EmbedEnds 1 r)
embed_stage-Total_example =
    embed_stage-Total adapters settings 1 (omega arith) (world Status.embedding)
      (document 1 Status.embedding) refl (unique Status.embedding)

abbrev after_failure : World
after_failure =
    (run_stage Stage.parse 0 1
      (parse_stage adapters settings failing_run 1 (world Status.pending))).1

parse_retry_is_lost_example :
    ((run_stage Stage.parse 0 1
        (parse_stage adapters settings failing_run 1 (world Status.pending))).0
      ≡ retry (min (2 ^ 0) max_backoff))
    × (get_document 1 after_failure ≡ some (claim_row Status.parsing (document 1 Status.pending)))
    × (run_stage Stage.parse 1 1 (parse_stage adapters settings good_run 1 after_failure)
        ≡ (done, after_failure))
    × ((queue_fails : Bool) (user_id : ℕ)
        → (Restart.retry queue_fails user_id 1 after_failure).1 ≡ after_failure)
parse_retry_is_lost_example =
    parse_retry_is_lost adapters settings failing_run good_run 1 0 1 (world Status.pending)
      (document 1 Status.pending) (codes "busy") refl (unique Status.pending) refl refl
      (omega arith)

abbrev draft : ChunkDraft
draft = record {
  seq = 0;
  text = codes "abc";
  tokens = 1;
  meta = record { page = none; heading_path = none; block_type = text_draft };
}

replace_for_document_exact_example :
    (keep
        (of_document 1)
        (replace_for_document (λ n. n) 1 (draft ∷ []) (world Status.chunking)).chunks
      ≡ draft_rows (λ n. n) 0 1 (draft ∷ []))
    × (keep (other 1) (replace_for_document (λ n. n) 1 (draft ∷ []) (world Status.chunking)).chunks
        ≡ keep (other 1) (world Status.chunking).chunks)
    × ((replace_for_document
          (λ n. n)
          1
          (draft ∷ [])
          (replace_for_document (λ n. n + 5) 1 [] (world Status.chunking))).chunks
        ≡ (replace_for_document (λ n. n) 1 (draft ∷ []) (world Status.chunking)).chunks)
replace_for_document_exact_example =
    replace_for_document_exact (λ n. n) (λ n. n + 5) 1 (draft ∷ []) [] (world Status.chunking)

retry_starts_example :
    ((Restart.retry false 1 1 (world Status.failed)).0 ≡ ok 1)
    × ((Restart.retry false 1 1 (world Status.failed)).1.queue
        ≡ run (or_parse (first_failed_stage 1 (world Status.failed))) 1 ∷ [])
    × (get_document 1 (Restart.retry false 1 1 (world Status.failed)).1
        ≡ some (
            restart_row
              (entry_status (or_parse (first_failed_stage 1 (world Status.failed))))
              (document 1 Status.failed)))
    × ((claimed : World) × (start_of
            (or_parse (first_failed_stage 1 (world Status.failed)))
            1
            (Restart.retry false 1 1 (world Status.failed)).1
          ≡ some claimed))
retry_starts_example = retry_starts 1 1 (world Status.failed) (unique Status.failed) refl refl

delete_lem_example :
    ((get_owned 1 1 (world Status.ready) ≡ none)
      × (delete (λ i. i ∷ []) false 1 1 (world Status.ready)
          ≡ (err document_not_found, world Status.ready)))
    ⊎ Deleted
        (λ i. i ∷ [])
        false
        1
        2
        (world Status.ready)
        (delete (λ i. i ∷ []) false 1 1 (world Status.ready))
delete_lem_example = delete_lem (λ i. i ∷ []) false 1 1 2 (world Status.ready) refl

abbrev paths : Paths
paths = record { name = λ s. s; suffix = λ s. codes ".txt"; lower = λ s. s }

abbrev incoming : Upload
incoming = record {
  filename = codes "b.txt";
  content_type = none;
  contents = codes "xyz";
  source_id = none;
  document_id = 3;
  new_source_id = 4;
  queue_fails = false;
  other = λ w. w;
  other_source = λ w. w;
  other_lookup = λ w. w;
}

unique_files : UniqueFiles (world Status.ready).documents
unfolding text_eq
unique_files = ((refl, tt), (tt, tt))

upload-UniqueFiles_example :
    Sound 1 (codes "xyz") 3 (upload paths (λ s. s) (λ i. i ∷ []) 1 incoming (world Status.ready))
upload-UniqueFiles_example =
    upload-UniqueFiles paths (λ s. s) (λ i. i ∷ []) 1 incoming (world Status.ready)
      ((λ x h. h), (λ x h. h), (λ x h. h)) unique_files

-- Another session deletes the file that the insert met before it is looked up.
abbrev outrun : Upload
outrun = record incoming { other_lookup = λ w. record w { documents = [] } }

twin_lost :
    (insert_upload paths
      (λ s. s)
      (λ i. i ∷ [])
      1
      outrun
      (document 1 Status.ready)
      (world Status.ready)).0
    ≡ err (unexpected "IntegrityError" "")
unfolding insert_upload create text_eq
twin_lost = refl
