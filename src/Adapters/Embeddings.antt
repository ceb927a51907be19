-- ===== src/Adapters/Embeddings.antt =====
-- The embedding adapter (backend/app/infrastructure/embedding/openai_compat.py): batches of texts,
-- and the rows of each answer put back into the order of the texts.
pub mod Aligned
pub mod Served
use atlas_knowledge.Common.{
  ◌≡◌, refl, ℕ, zero, suc, ◌+◌, max, Bool, true, not, List, [], ◌∷◌, ◌++◌, Option, none, some, ◌||◌,
  ◌==◌, leb, if◌then◌else◌, map, any, take, drop, length, Text, codes, Outcome, ok, err,
}
use atlas_knowledge.Common.Sorting.{sorted_by}
use atlas_knowledge.Ingestion.Stages.{
  ErrorCode, rate_limited, auth, context_length, transient, provider_error,
}
use atlas_knowledge.Adapters.Json.{
  Json, null, bool, num, other_number, str, arr, obj, subscript, iterate,
}
use atlas_knowledge.Adapters.Http.{
  Fault, timed_out, http_error, other_error, task_cancelled, reports_length, service_url,
}

-- `_ERROR_MESSAGES`
abbrev pub error_message : ErrorCode → Text
error_message auth = codes "embedding 服務驗證失敗"
error_message rate_limited = codes "embedding 服務忙碌中,請稍後再試"
error_message context_length = codes "待嵌入文字過長,超出模型上限"
error_message transient = codes "embedding 服務暫時無法回應,請稍後再試"
error_message provider_error = codes "embedding 服務回應異常"

-- `_map_http_status`, with the body decoded
unfoldable pub map_http_status : ℕ → Text → ErrorCode
map_http_status status body =
    if status == 401 || status == 403
    then auth
    else if status == 429
    then rate_limited
    else if status == 400
    then (if reports_length body then context_length else provider_error)
    else if leb 500 status
    then transient
    else provider_error

-- An exception on reading the answer: a KeyError, TypeError or ValueError, or any other.
pub data Trouble : Type 0 where
  malformed escaped : Trouble

-- An exception of `embed`: an `EmbeddingError`, or another that goes through it.
pub data Failure : Type 0 where
  embedding_error : ErrorCode → Text → Failure
  uncaught : Fault → Failure

-- `_error`
abbrev pub error : ErrorCode → Failure
error code = embedding_error code (error_message code)

-- Go on with the value, unless there was an exception.
infixl 5 ◌>>=◌
abbrev pub ◌>>=◌ {ℓ} : {E A B : Type ℓ} → Outcome E A → (A → Outcome E B) → Outcome E B
m >>= next = elim m [ err trouble ↦ err trouble | ok value ↦ next value ]

-- Both steps of a chain that gave a value gave one.
pub steps_of_ok {ℓ} :
    {E A B : Type ℓ} {last : B} (next : A → Outcome E B) (m : Outcome E A)
    → m >>= next ≡ ok last
    → (value : A) × (next value ≡ ok last) × (m ≡ ok value)
steps_of_ok next (err trouble) whole = cc
steps_of_ok next (ok value) whole = (value, whole, refl)

abbrev pub or_malformed : {A : Type 0} → Option A → Outcome Trouble A
or_malformed none = err malformed
or_malformed (some a) = ok a

pub record EmbedRequest : Type 0 where
  pub model : Text
  pub input : List Text

-- A response with what `resp.json()` does; its body is decoded without what is no UTF-8.
pub record EmbedResponse : Type 0 where
  pub status : ℕ
  pub content : Text
  pub json : Outcome Trouble Json

pub data Posted : Type 0 where
  unanswered : Fault → Posted
  replied : EmbedResponse → Posted

-- `row["index"]` of each row, in front of the row
unfoldable pub with_index : List Json → Outcome Trouble (List (Json × Json))
with_index [] = ok []
with_index (row ∷ rows) = or_malformed (subscript row (codes "index")) >>= λ i.
    with_index rows >>= λ rest. ok ((i, row) ∷ rest)

-- The rows with their indexes, where all of these are naturals.
unfoldable pub numbered : List (Json × Json) → Option (List (ℕ × Json))
numbered [] = some []
numbered ((num i, row) ∷ rows) = elim (numbered rows) [
  | none ↦ none
  | some rest ↦ some ((i, row) ∷ rest)
]
numbered ((null, row) ∷ rows) = none
numbered ((bool b, row) ∷ rows) = none
numbered ((other_number t, row) ∷ rows) = none
numbered ((str s, row) ∷ rows) = none
numbered ((arr xs, row) ∷ rows) = none
numbered ((obj fs, row) ∷ rows) = none

abbrev pub row_of : ℕ × Json → Json
row_of (i, row) = row

abbrev pub index_of : ℕ × Json → ℕ
index_of (i, row) = i

-- `vectors.extend` in front of the rest of the loop
abbrev pub extend_by : {F : Type 0} → Outcome Failure (List F) → List F → Outcome Failure (List F)
extend_by later vectors = later >>= λ rest. ok (vectors ++ rest)

-- What the adapter is built with.
pub record Settings : Type 0 where
  pub base_url : Text
  pub model : Text
  pub dim : ℕ
  pub batch_size : ℕ

-- `F` stands for the floats and `to_float` for `float`.
module _ {F : Type 0} (to_float : Json → Outcome Trouble F) where
  unfoldable pub floats : List Json → Outcome Trouble (List F)
  floats [] = ok []
  floats (x ∷ xs) = to_float x >>= λ y. floats xs >>= λ ys. ok (y ∷ ys)

  unfoldable pub vector_of : Json → Outcome Trouble (List F)
  vector_of row =
      or_malformed (subscript row (codes "embedding")) >>= λ e. or_malformed (iterate e) >>= floats

  unfoldable pub vectors_of : List Json → Outcome Trouble (List (List F))
  vectors_of [] = ok []
  vectors_of (row ∷ rows) = vector_of row >>= λ v. vectors_of rows >>= λ vs. ok (v ∷ vs)

-- `sort_others` is `sorted` on rows whose indexes are not all naturals.
module _ (sort_others : List (Json × Json) → Outcome Trouble (List Json)) where
  unfoldable pub sort_keyed : List (Json × Json) → Outcome Trouble (List Json)
  sort_keyed keyed = elim (numbered keyed) [
    | none ↦ sort_others keyed
    | some pairs ↦ ok (map row_of (sorted_by index_of pairs))
  ]

  -- `sorted(data, key=lambda row: row["index"])`
  unfoldable pub sorted_rows : List Json → Outcome Trouble (List Json)
  sorted_rows rows = with_index rows >>= sort_keyed

abbrev pub has_other_dim : {F : Type 0} → ℕ → List F → Bool
has_other_dim dim vector = not (length vector == dim)

-- The checks behind the `try` block.
unfoldable pub check_vectors :
    {F : Type 0} → ℕ → List Text → Outcome Trouble (List (List F)) → Outcome Failure (List (List F))
check_vectors dim batch (err malformed) = err (error provider_error)
check_vectors dim batch (err escaped) = err (uncaught other_error)
check_vectors dim batch (ok vectors) =
    if not (length vectors == length batch)
    then err (error provider_error)
    else if any (has_other_dim dim) vectors
    then err (error provider_error)
    else ok vectors

-- `post` is the client's `post`, by the number of texts sent before.
abbrev pub post_batch : Settings → (ℕ → Text → EmbedRequest → Posted) → ℕ → List Text → Posted
post_batch settings post start batch =
    post start (service_url settings.base_url (codes "/embeddings"))
      (record { model = settings.model; input = batch })

module _ {F : Type 0} (to_float : Json → Outcome Trouble F)
    (sort_others : List (Json × Json) → Outcome Trouble (List Json)) where
  -- The vectors of an answer: the `try` block around the reading of `resp.json()`.
  unfoldable pub read_vectors : Outcome Trouble Json → Outcome Trouble (List (List F))
  read_vectors json = json >>= λ answer. or_malformed (subscript answer (codes "data")) >>= λ rows.
      or_malformed (iterate rows) >>= sorted_rows sort_others >>= vectors_of to_float

  -- `_embed_batch`
  unfoldable pub embed_batch : ℕ → List Text → Posted → Outcome Failure (List (List F))
  embed_batch dim batch (unanswered timed_out) = err (error transient)
  embed_batch dim batch (unanswered http_error) = err (error transient)
  embed_batch dim batch (unanswered other_error) = err (uncaught other_error)
  embed_batch dim batch (unanswered task_cancelled) = err (uncaught task_cancelled)
  embed_batch dim batch (replied r) =
      if leb 400 r.status
      then err (error (map_http_status r.status r.content))
      else check_vectors dim batch (read_vectors r.json)

  module _ (settings : Settings) (post : ℕ → Text → EmbedRequest → Posted) where
    -- The loop from one start on, on fuel: no more rounds than there are texts.
    unfoldable pub embed_from : ℕ → ℕ → List Text → Outcome Failure (List (List F))
    embed_from fuel start [] = ok []
    embed_from zero start (t ∷ ts) = ok []
    embed_from (suc fuel) start (t ∷ ts) =
        let size = max 1 settings.batch_size in
        let batch = take size (t ∷ ts) in
        embed_batch settings.dim batch (post_batch settings post start batch)
        >>= extend_by (embed_from fuel (start + size) (drop size (t ∷ ts)))

    -- `embed`
    unfoldable pub embed : List Text → Outcome Failure (List (List F))
    embed texts = embed_from (length texts) 0 texts
