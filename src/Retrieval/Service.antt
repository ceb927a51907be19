-- ===== src/Retrieval/Service.antt =====
-- `RetrievalService.retrieve` (backend/app/application/retrieval_service.py), with the reranker of
-- backend/app/domain/ports/reranker.py. Vectors are lists of opaque numbers. A cancelled task is
-- left out.
pub mod Cited
use atlas_knowledge.Common.{
  ℕ, Bool, true, false, List, Option, if◌then◌else◌, take, Text, Outcome, ok, err,
}
use atlas_knowledge.Ingestion.World.{World}
use atlas_knowledge.Chat.Rows.{RetrievedChunk}
use atlas_knowledge.Chat.Stream.{Retrieved, found, embedding_error, failed}
use atlas_knowledge.Adapters.Json.{Json}
use atlas_knowledge.Adapters.Completions.{code_text}
use atlas_knowledge.Adapters.Embeddings.{Trouble, Failure, uncaught}
use atlas_knowledge.Adapters.QueryCache.{Redis, embed_query}
use atlas_knowledge.Retrieval.Tsquery.{index_tokens}
use atlas_knowledge.Retrieval.Index.{Engine, IndexSettings, hybrid_search}

-- `QUERY_EMBED_MAX_CHARS`
abbrev pub query_embed_max_chars : ℕ
query_embed_max_chars = 2000

-- The collaborators of the service, with the tables as the two statements of the search see them,
-- and whether the database raises.
pub record Deps : Type 0 where
  pub cut : Text → List Text
  pub embed : List Text → Outcome Failure (List (List ℕ))
  pub redis : Redis
  pub to_float : Json → Outcome Trouble ℕ
  pub loads : Text → Outcome Trouble Json
  pub dumps : List ℕ → Text
  pub sha : Text → Text
  pub version : Text
  pub engine : Engine
  pub index : IndexSettings
  pub tables : World
  pub tables_later : World
  pub search_fails : Bool

-- `NoopReranker.rerank`
abbrev pub rerank : Text → List RetrievedChunk → ℕ → List RetrievedChunk
rerank query chunks top_n = take top_n chunks

module _ (d : Deps) (user_id : ℕ) (query : Text) (source_ids : Option (List ℕ)) (top_n : ℕ) where
  abbrev pub searched : List ℕ → List RetrievedChunk
  searched qvec =
      hybrid_search d.engine d.index d.tables d.tables_later user_id source_ids
        (index_tokens d.cut query) qvec top_n

  -- The part of `retrieve` behind the query's vector.
  unfoldable pub search : Outcome Failure (List ℕ) → Retrieved
  search (err (Failure.embedding_error code message)) =
      Retrieved.embedding_error (code_text code) message
  search (err (uncaught fault)) = failed
  search (ok qvec) = if d.search_fails then failed else found (rerank query (searched qvec) top_n)

  -- `retrieve`
  unfoldable pub retrieve : Retrieved
  retrieve = search (
      (embed_query d.to_float d.loads d.dumps d.sha d.version d.embed d.redis
        (take query_embed_max_chars query)).0)
