-- ===== src/Ingestion/World.antt =====
-- The tables, the object storage and the task queue that the services share. Columns that no
-- modelled code reads (time stamps, `tsv`, the jobs' ids) are left out; vectors are opaque values.
use atlas_knowledge.Common.{
  ℕ, suc, ◌+◌, Bool, true, false, ◌&&◌, not, List, [], ◌∷◌, ◌++◌, Option, none, some, leb, ◌==◌,
  if◌then◌else◌, any, keep, find_first, take, Text, text_eq,
}
use atlas_knowledge.Documents.{ChunkDraft, DraftMeta}

pub data Status : Type 0 where
  pending parsing chunking embedding ready failed : Status

pub data Stage : Type 0 where
  parse chunk embed : Stage

pub data JobStatus : Type 0 where
  running succeeded failed : JobStatus

pub record Document : Type 0 where
  pub id : ℕ
  pub source_id : ℕ
  pub uploaded_by : ℕ
  pub filename : Text
  pub mime : Text
  pub size_bytes : ℕ
  pub storage_key : Text
  pub checksum : Text
  pub status : Status
  pub error : Option Text

pub record DocumentChunk : Type 0 where
  pub id : ℕ
  pub document_id : ℕ
  pub seq : ℕ
  pub text : Text
  pub tokens : ℕ
  pub meta : DraftMeta
  pub embedding : Option ℕ
  pub embedding_version : Option Text

pub record IngestionJob : Type 0 where
  pub document_id : ℕ
  pub stage : Stage
  pub status : JobStatus
  pub attempts : ℕ
  pub error : Option Text

pub record KnowledgeSource : Type 0 where
  pub id : ℕ
  pub owner_id : ℕ
  pub type : Text
  pub enabled : Bool

pub data Task : Type 0 where
  run : Stage → ℕ → Task
  purge : Text → Task

pub record World : Type 0 where
  pub documents : List Document
  pub chunks : List DocumentChunk
  pub jobs : List IngestionJob
  pub sources : List KnowledgeSource
  pub files : List (Text × Text)
  pub queue : List Task

abbrev pub status_eq : Status → Status → Bool
status_eq pending pending = true
status_eq parsing parsing = true
status_eq chunking chunking = true
status_eq embedding embedding = true
status_eq ready ready = true
status_eq Status.failed Status.failed = true
status_eq _ _ = false

abbrev pub stage_eq : Stage → Stage → Bool
stage_eq parse parse = true
stage_eq chunk chunk = true
stage_eq embed embed = true
stage_eq _ _ = false

-- documents.py

abbrev pub has_id : ℕ → Document → Bool
has_id i d = d.id == i

-- An UPDATE of the row with this id.
unfoldable pub update_document : ℕ → (Document → Document) → List Document → List Document
update_document i f [] = []
update_document i f (d ∷ ds) = (if d.id == i then f d else d) ∷ update_document i f ds

abbrev pub get_document : ℕ → World → Option Document
get_document i w = find_first (has_id i) w.documents

abbrev pub claimable : ℕ → List Status → Document → Bool
claimable i allowed d = d.id == i && any (status_eq d.status) allowed

abbrev pub claim_row : Status → Document → Document
claim_row to d = record d { status = to; error = none }

-- `DocumentRepository.claim`: the conditional UPDATE, and whether it met a row.
unfoldable pub claim_rows : ℕ → List Status → Status → List Document → List Document
claim_rows i allowed to [] = []
claim_rows i allowed to (d ∷ ds) =
    (if claimable i allowed d then claim_row to d else d) ∷ claim_rows i allowed to ds

unfoldable pub claim_document : ℕ → List Status → Status → World → Option World
claim_document i allowed to w =
    if any (claimable i allowed) w.documents
    then some (record w { documents = claim_rows i allowed to w.documents })
    else none

unfoldable pub set_status : ℕ → Status → World → World
set_status i status w = record w {
  documents = update_document i (λ d. record d { status = status }) w.documents;
}

unfoldable pub set_failed : ℕ → Text → World → World
set_failed i error w = record w {
  documents =
      update_document i (λ d. record d { status = Status.failed; error = some error }) w.documents;
}

-- ingestion_jobs.py

abbrev pub is_job : ℕ → Stage → IngestionJob → Bool
is_job i stage j = j.document_id == i && stage_eq j.stage stage

-- INSERT … ON CONFLICT (document_id, stage) DO UPDATE
unfoldable pub upsert_job :
    IngestionJob → (IngestionJob → IngestionJob) → List IngestionJob → List IngestionJob
upsert_job new change [] = new ∷ []
upsert_job new change (j ∷ js) =
    let rest = upsert_job new change js in
    if is_job new.document_id new.stage j then change j ∷ js else j ∷ rest

unfoldable pub mark_running : ℕ → Stage → World → World
mark_running i stage w = record w {
  jobs =
      upsert_job
        (record { document_id = i; stage = stage; status = running; attempts = 1; error = none })
        (λ j. record j { status = running; attempts = j.attempts + 1; error = none }) w.jobs;
}

unfoldable pub mark_finished : ℕ → Stage → JobStatus → Option Text → World → World
mark_finished i stage status error w = record w {
  jobs =
      upsert_job
        (record { document_id = i; stage = stage; status = status; attempts = 1; error = error })
        (λ j. record j { status = status; error = error }) w.jobs;
}

abbrev pub is_failed : JobStatus → Bool
is_failed JobStatus.failed = true
is_failed _ = false

abbrev pub is_failed_job : ℕ → Stage → IngestionJob → Bool
is_failed_job i stage j = is_job i stage j && is_failed j.status

-- `STAGE_ORDER` and `first_failed_stage`
abbrev pub stage_order : List Stage
stage_order = parse ∷ chunk ∷ embed ∷ []

unfoldable pub first_failed_stage : ℕ → World → Option Stage
first_failed_stage i w = find_first (λ s. any (is_failed_job i s) w.jobs) stage_order

-- chunks.py

abbrev pub of_document : ℕ → DocumentChunk → Bool
of_document i c = c.document_id == i

abbrev pub draft_row : ℕ → ℕ → ChunkDraft → DocumentChunk
draft_row i chunk_id d = record {
  id = chunk_id;
  document_id = i;
  seq = d.seq;
  text = d.text;
  tokens = d.tokens;
  meta = d.meta;
  embedding = none;
  embedding_version = none;
}

-- The rows to insert; `ids` gives the id of each.
unfoldable pub draft_rows : (ℕ → ℕ) → ℕ → ℕ → List ChunkDraft → List DocumentChunk
draft_rows ids n i [] = []
draft_rows ids n i (d ∷ ds) = draft_row i (ids n) d ∷ draft_rows ids (suc n) i ds

unfoldable pub replace_for_document : (ℕ → ℕ) → ℕ → List ChunkDraft → World → World
replace_for_document ids i drafts w = record w {
  chunks = keep (λ c. not (of_document i c)) w.chunks ++ draft_rows ids 0 i drafts;
}

abbrev pub is_unset : Option ℕ → Bool
is_unset none = true
is_unset (some _) = false

abbrev pub is_unembedded : ℕ → DocumentChunk → Bool
is_unembedded i c = of_document i c && is_unset c.embedding

unfoldable pub insert_by_seq : DocumentChunk → List DocumentChunk → List DocumentChunk
insert_by_seq c [] = c ∷ []
insert_by_seq c (d ∷ ds) =
    let rest = insert_by_seq c ds in if leb c.seq d.seq then c ∷ d ∷ ds else d ∷ rest

-- ORDER BY seq
unfoldable pub sort_by_seq : List DocumentChunk → List DocumentChunk
sort_by_seq [] = []
sort_by_seq (c ∷ cs) = insert_by_seq c (sort_by_seq cs)

unfoldable pub list_unembedded : ℕ → ℕ → List DocumentChunk → List DocumentChunk
list_unembedded i limit chunks = take limit (sort_by_seq (keep (is_unembedded i) chunks))

abbrev pub embed_row : ℕ → ℕ → Text → DocumentChunk → DocumentChunk
embed_row chunk_id vector version c =
    if c.id == chunk_id
    then record c { embedding = some vector; embedding_version = some version }
    else c

unfoldable pub set_embedding : ℕ → ℕ → Text → List DocumentChunk → List DocumentChunk
set_embedding chunk_id vector version [] = []
set_embedding chunk_id vector version (c ∷ cs) =
    embed_row chunk_id vector version c ∷ set_embedding chunk_id vector version cs

-- The loop of `set_embeddings`.
unfoldable pub set_embeddings : List (ℕ × ℕ) → Text → List DocumentChunk → List DocumentChunk
set_embeddings [] version chunks = chunks
set_embeddings ((i, v) ∷ pairs) version chunks =
    set_embeddings pairs version (set_embedding i v version chunks)

-- Object storage: the newest entry of a key counts.
unfoldable pub read_file : Text → List (Text × Text) → Option Text
read_file key [] = none
read_file key ((k, contents) ∷ files) = if text_eq k key then some contents else read_file key files

abbrev pub write_file : Text → Text → World → World
write_file key contents w = record w { files = (key, contents) ∷ w.files }

abbrev pub enqueue : Task → World → World
enqueue task w = record w { queue = w.queue ++ task ∷ [] }
