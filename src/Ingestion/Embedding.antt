-- ===== src/Ingestion/Embedding.antt =====
-- The embed stage (ingestion_service.py, `embed`): batch after batch until none is left.
pub mod Progress
pub mod Totality
use atlas_knowledge.Common.{
  ℕ, zero, suc, ◌+◌, Bool, true, false, List, [], ◌∷◌, Option, none, some, if◌then◌else◌, ◌==◌,
  length, keep, Text, codes,
}
use atlas_knowledge.Ingestion.World.{
  Status, Stage, Document, DocumentChunk, World, get_document, list_unembedded, set_embeddings,
  is_unembedded,
}
use atlas_knowledge.Ingestion.Stages.{
  start_of, ErrorCode, rate_limited, transient, EmbedResult, vectors, embedding_error, embed_crash,
  Adapters, Settings, Ending, returned, transient_error, crashed, claim, succeed, fail,
}

-- `_RETRYABLE_EMBEDDING_CODES`
abbrev pub is_retryable : ErrorCode → Bool
is_retryable rate_limited = true
is_retryable transient = true
is_retryable _ = false

pub texts : List DocumentChunk → List Text
texts [] = []
texts (c ∷ cs) = c.text ∷ texts cs

-- `zip(ids, vectors, strict=True)`; `none` for the ValueError of unequal lengths
pub pair_up : List DocumentChunk → List ℕ → Option (List (ℕ × ℕ))
pair_up [] [] = some []
pair_up [] (v ∷ vs) = none
pair_up (c ∷ cs) [] = none
pair_up (c ∷ cs) (v ∷ vs) = elim (pair_up cs vs) [
  | none ↦ none
  | some pairs ↦ some ((c.id, v) ∷ pairs)
]

abbrev pub store_vectors : Text → List (ℕ × ℕ) → World → World
store_vectors version pairs w = record w { chunks = set_embeddings pairs version w.chunks }

-- What one round does with the provider's answer: go on with a new world, or end the stage.
pub data Round : Type 0 where
  again : World → Round
  stop : Ending → World → Round

-- Go on with `next`, if the round says so.
unfoldable pub continue : (World → Option (Ending × World)) → Round → Option (Ending × World)
continue next (stop ending w) = some (ending, w)
continue next (again w) = next w

module _ (a : Adapters) (settings : Settings) where
  unfoldable pub round : ℕ → List DocumentChunk → World → EmbedResult → Round
  round i batch w (embedding_error code message) =
      if is_retryable code
      then stop (transient_error message) w
      else stop returned (fail i Stage.embed message w)
  round i batch w (embed_crash name) = stop (crashed name) w
  round i batch w (vectors vs) = elim (pair_up batch vs) [
    | none ↦ stop (crashed (codes "ValueError")) w
    | some pairs ↦ again (store_vectors a.embedding_version pairs w)
  ]

  -- The loop on fuel; `none` if the fuel runs out. `n` counts the calls of the provider.
  unfoldable pub embed_loop : ℕ → ℕ → ℕ → World → Option (Ending × World)
  embed_loop zero n i w = none
  embed_loop (suc f) n i w = elim (list_unembedded i settings.embedding_batch_size w.chunks) [
    | [] ↦ some (returned, succeed i Stage.embed Status.ready w)
    | c ∷ cs ↦ continue (embed_loop f (n + 1) i) (round i (c ∷ cs) w (a.embed n (texts (c ∷ cs))))
  ]

  -- One more than the number of chunks that wait for their embedding.
  abbrev pub embed_fuel : ℕ → World → ℕ
  embed_fuel i w = suc (length (keep (is_unembedded i) w.chunks))

  unfoldable pub embed_claimed : ℕ → World → Option Document → Option (Ending × World)
  embed_claimed i w none = some (returned, w)
  embed_claimed i w (some doc) = embed_loop (embed_fuel i w) 0 i w

  unfoldable pub embed_stage : ℕ → World → Option (Ending × World)
  embed_stage i w = elim (start_of Stage.embed i w) [
    | none ↦ some (returned, w)
    | some claimed ↦ embed_claimed i claimed (get_document i claimed)
  ]
