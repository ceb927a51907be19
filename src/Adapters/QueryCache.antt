-- ===== src/Adapters/QueryCache.antt =====
-- The cache of query vectors (backend/app/infrastructure/embedding/cache.py).
pub mod Sound
use atlas_knowledge.Common.{
  ℕ, Bool, true, false, List, [], ◌∷◌, ◌++◌, Option, none, some, if◌then◌else◌, Text, codes,
  text_eq, Outcome, ok, err,
}
use atlas_knowledge.Adapters.Json.{Json, iterate}
use atlas_knowledge.Adapters.Http.{other_error}
use atlas_knowledge.Adapters.Embeddings.{
  Trouble, malformed, escaped, Failure, uncaught, ◌>>=◌, or_malformed, floats,
}

-- The server of the cache: its entries, none of which is known to stay, and whether its calls raise.
pub record Redis : Type 0 where
  pub entries : Text → Option Text
  pub get_fails : Bool
  pub set_fails : Bool

-- `loads` is `json.loads`, `dumps` is `json.dumps` and `sha` the digest of a query.
module _ {F : Type 0} (to_float : Json → Outcome Trouble F) (loads : Text → Outcome Trouble Json)
    (dumps : List F → Text) (sha : Text → Text) (version : Text) where
  -- `_key`
  abbrev pub cache_key : Text → Text
  cache_key query = codes "emb:q:" ++ (version ++ (codes ":" ++ sha query))

  -- The `try` block around a stored vector.
  abbrev pub miss_if_malformed : Outcome Trouble (List F) → Outcome Failure (Option (List F))
  miss_if_malformed (ok vector) = ok (some vector)
  miss_if_malformed (err malformed) = ok none
  miss_if_malformed (err escaped) = err (uncaught other_error)

  unfoldable pub read_entry : Text → Outcome Failure (Option (List F))
  read_entry raw =
      miss_if_malformed (loads raw >>= λ value. or_malformed (iterate value) >>= floats to_float)

  -- `get`
  unfoldable pub get_cached : Redis → Text → Outcome Failure (Option (List F))
  get_cached redis query = elim redis.get_fails [
    | true ↦ ok none
    | false ↦ elim (redis.entries (cache_key query)) [ none ↦ ok none | some raw ↦ read_entry raw ]
  ]

  -- `set`
  unfoldable pub set_cached : Redis → Text → List F → Redis
  set_cached redis query vector = if redis.set_fails then redis else record redis {
    entries =
        λ key. if text_eq key (cache_key query) then some (dumps vector) else redis.entries key;
  }

  -- `[vector] = …` and the rest of `embed_query`
  abbrev pub keep_vector :
      Redis → Text → Outcome Failure (List (List F)) → Outcome Failure (List F) × Redis
  keep_vector redis query (err e) = (err e, redis)
  keep_vector redis query (ok []) = (err (uncaught other_error), redis)
  keep_vector redis query (ok (v ∷ [])) = (ok v, set_cached redis query v)
  keep_vector redis query (ok (v ∷ w ∷ vs)) = (err (uncaught other_error), redis)

  abbrev pub embed_missed :
      (List Text → Outcome Failure (List (List F)))
      → Redis
      → Text
      → Outcome Failure (Option (List F))
      → Outcome Failure (List F) × Redis
  embed_missed embed redis text (err e) = (err e, redis)
  embed_missed embed redis text (ok (some vector)) = (ok vector, redis)
  embed_missed embed redis text (ok none) = keep_vector redis text (embed (text ∷ []))

  -- `embed_query`, with the provider's `embed`
  unfoldable pub embed_query :
      (List Text → Outcome Failure (List (List F)))
      → Redis
      → Text
      → Outcome Failure (List F) × Redis
  embed_query embed redis text = embed_missed embed redis text (get_cached redis text)
