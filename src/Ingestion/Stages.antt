-- ===== src/Ingestion/Stages.antt =====
-- The three stages of the pipeline (ingestion_service.py). Parsers, the JSON codec, the embedding
-- provider and the id source are parameters; so are the faults of storage and queue that a run meets.
use atlas_knowledge.Common.{
  ℕ, List, [], ◌∷◌, ◌++◌, Option, none, some, Text, codes, Outcome, ok, err,
}
use atlas_knowledge.Documents.{Block, ChunkingConfig}
use atlas_knowledge.Chunking.Builder
use atlas_knowledge.Ingestion.World.{
  Status, Stage, JobStatus, Document, World, run, claim_document, get_document, set_status,
  set_failed, mark_running, mark_finished, replace_for_document, read_file, write_file, enqueue,
}

-- How a parser ends: blocks, a `ParseError` with its text, or any other exception.
pub data ParseResult : Type 0 where
  parsed : List Block → ParseResult
  parse_error : Text → ParseResult
  parse_crash : Text → ParseResult

-- The codes of `EmbeddingError`, and a provider whose answer is anything else.
pub data ErrorCode : Type 0 where
  rate_limited auth context_length transient provider_error : ErrorCode

pub data EmbedResult : Type 0 where
  vectors : List ℕ → EmbedResult
  embedding_error : ErrorCode → Text → EmbedResult
  embed_crash : Text → EmbedResult

-- `embed n texts` is the answer to the n-th call of a run.
pub record Adapters : Type 0 where
  pub parse_file : Text → Text → Text → ParseResult
  pub to_json : List Block → Text
  pub of_json : Text → Outcome Text (List Block)
  pub embed : ℕ → List Text → EmbedResult
  pub embedding_version : Text
  pub document_key : ℕ → Text

pub record Settings : Type 0 where
  pub chunking : ChunkingConfig
  pub embedding_batch_size : ℕ

-- What one run meets: ids for new rows, the text of an `OSError` of a read or a write, and the class
-- of an exception of the queue.
pub record Run : Type 0 where
  pub ids : ℕ → ℕ
  pub read_fails : Option Text
  pub write_fails : Option Text
  pub enqueue_fails : Option Text

-- How a stage ends: it returns, raises a retryable exception with this text, meets the soft time
-- limit, or raises any other exception of this class.
pub data Ending : Type 0 where
  returned timed_out : Ending
  transient_error crashed : Text → Ending

-- `normalized_key`
abbrev pub normalized_key : Adapters → ℕ → Text
normalized_key a i = a.document_key i ++ codes "normalized.json"

-- `_claim`; `none` after the rollback.
unfoldable pub claim : ℕ → List Status → Status → Stage → World → Option World
claim i allowed to stage w = elim (claim_document i allowed to w) [
  | none ↦ none
  | some claimed ↦ some (mark_running i stage claimed)
]

-- The claims with which the three stages begin.
abbrev pub start_of : Stage → ℕ → World → Option World
start_of Stage.parse i w =
    claim i (Status.pending ∷ Status.failed ∷ []) Status.parsing Stage.parse w
start_of Stage.chunk i w =
    claim i (Status.chunking ∷ Status.failed ∷ []) Status.chunking Stage.chunk w
start_of Stage.embed i w =
    claim i (Status.embedding ∷ Status.failed ∷ []) Status.embedding Stage.embed w

unfoldable pub succeed : ℕ → Stage → Status → World → World
succeed i stage next_status w =
    set_status i next_status (mark_finished i stage JobStatus.succeeded none w)

-- `_fail`, and `mark_stage_failed`, which is the same in a session of its own
unfoldable pub fail : ℕ → Stage → Text → World → World
fail i stage error w = set_failed i error (mark_finished i stage JobStatus.failed (some error) w)

-- The call of the queue at the end of a stage.
abbrev pub hand_on : Run → Stage → ℕ → World → Ending × World
hand_on r stage i w = elim r.enqueue_fails [
  | some name ↦ (crashed name, w)
  | none ↦ (returned, enqueue (run stage i) w)
]

-- The results of a read, as the stages handle them.
pub data ReadResult : Type 0 where
  contents read_error : Text → ReadResult
  missing : ReadResult

abbrev pub read : Run → Text → World → ReadResult
read r key w = elim r.read_fails [
  | some e ↦ read_error (codes "讀取儲存失敗:" ++ e)
  | none ↦ elim (read_file key w.files) [ none ↦ missing | some c ↦ contents c ]
]

module _ (a : Adapters) (settings : Settings) where
  unfoldable pub store_parsed : Run → ℕ → World → ParseResult → Ending × World
  store_parsed r i w (parse_error message) = (returned, fail i Stage.parse message w)
  store_parsed r i w (parse_crash name) = (crashed name, w)
  store_parsed r i w (parsed blocks) = elim r.write_fails [
    | some e ↦ (transient_error (codes "寫入儲存失敗:" ++ e), w)
    | none ↦ hand_on r Stage.chunk i (
        succeed i Stage.parse Status.chunking
          (write_file (normalized_key a i) (a.to_json blocks) w))
  ]

  unfoldable pub parse_contents : Run → ℕ → Document → World → ReadResult → Ending × World
  parse_contents r i doc w (read_error e) = (transient_error e, w)
  parse_contents r i doc w missing = (returned, fail i Stage.parse (codes "找不到原始檔案") w)
  parse_contents r i doc w (contents data') =
      store_parsed r i w (a.parse_file doc.mime data' doc.filename)

  -- After the claim, with the row that is read again.
  unfoldable pub parse_claimed : Run → ℕ → World → Option Document → Ending × World
  parse_claimed r i w none = (returned, w)
  parse_claimed r i w (some doc) = parse_contents r i doc w (read r doc.storage_key w)

  unfoldable pub parse_stage : Run → ℕ → World → Ending × World
  parse_stage r i w = elim (start_of Stage.parse i w) [
    | none ↦ (returned, w)
    | some claimed ↦ parse_claimed r i claimed (get_document i claimed)
  ]

  -- `strategy_for_source_type` gives `default_recursive` for every type of source.
  unfoldable pub store_chunks : Run → ℕ → World → Outcome Text (List Block) → Ending × World
  store_chunks r i w (err message) = (returned, fail i Stage.chunk (codes "解析結果格式錯誤:" ++ message) w)
  store_chunks r i w (ok blocks) = hand_on r Stage.embed i (
      succeed i Stage.chunk Status.embedding
        (replace_for_document r.ids i (Builder.chunk blocks settings.chunking) w))

  unfoldable pub chunk_contents : Run → ℕ → World → ReadResult → Ending × World
  chunk_contents r i w (read_error e) = (transient_error e, w)
  chunk_contents r i w missing = (returned, fail i Stage.chunk (codes "找不到解析結果,請刪除後重新上傳") w)
  chunk_contents r i w (contents raw) = store_chunks r i w (a.of_json raw)

  unfoldable pub chunk_claimed : Run → ℕ → World → Option Document → Ending × World
  chunk_claimed r i w none = (returned, w)
  chunk_claimed r i w (some doc) = chunk_contents r i w (read r (normalized_key a i) w)

  unfoldable pub chunk_stage : Run → ℕ → World → Ending × World
  chunk_stage r i w = elim (start_of Stage.chunk i w) [
    | none ↦ (returned, w)
    | some claimed ↦ chunk_claimed r i claimed (get_document i claimed)
  ]
