-- ===== src/Retrieval/Index.antt =====
-- The hybrid search over the chunks (backend/app/infrastructure/vector/pgvector_index.py): two
-- ranked legs and their reciprocal rank fusion. A score is a fraction; the source's decimals of
-- PostgreSQL order the sums of two reciprocals of small numbers alike.
pub mod Steps
pub mod Scope
pub mod Ranks
pub mod Fusion
use atlas_knowledge.Common.{
  ℕ, zero, suc, ◌+◌, ◌*◌, Bool, true, false, not, ◌&&◌, ◌||◌, List, [], ◌∷◌, ◌++◌, Option, none,
  some, if◌then◌else◌, ◌==◌, ltb, any, keep, find_first, take, is_empty, map, Text,
}
use atlas_knowledge.Documents.{DraftMeta}
use atlas_knowledge.Ingestion.World.{
  Status, ready, Document, DocumentChunk, KnowledgeSource, World, get_document, status_eq,
}
use atlas_knowledge.Chat.Rows.{RetrievedChunk}
use atlas_knowledge.Retrieval.Tsquery.{build_tsquery}

abbrev pub Fraction : Type 0
Fraction = ℕ × ℕ

-- A row of the two legs joined: a chunk's id with its ranks.
pub record Joined : Type 0 where
  pub id : ℕ
  pub vec_rank : Option ℕ
  pub fts_rank : Option ℕ

-- What PostgreSQL and pgvector do for the statements: the rows of a leg in the order of their
-- distance or rank, as the index finds them; whether a text query matches; the order in which a
-- join is read; the text `law` of the key `kind`, which no chunk of this program has; a score as a
-- float.
pub record Engine : Type 0 where
  pub by_distance : List ℕ → List DocumentChunk → List DocumentChunk
  pub matches : Text → DocumentChunk → Bool
  pub by_rank : Text → List DocumentChunk → List DocumentChunk
  pub scan : List Joined → List Joined
  pub is_law : DocumentChunk → Bool
  pub as_float : Fraction → ℕ

-- `PgVectorChunkIndex.__init__`
pub record IndexSettings : Type 0 where
  pub top_k : ℕ
  pub rrf_k : ℕ

abbrev pub has_source_id : ℕ → KnowledgeSource → Bool
has_source_id i s = s.id == i

abbrev pub has_chunk_id : ℕ → DocumentChunk → Bool
has_chunk_id i c = c.id == i

abbrev pub has_embedding : DocumentChunk → Bool
has_embedding c = elim c.embedding [ none ↦ false | some v ↦ true ]

-- `row_number() over (…)`
abbrev pub row_numbers : ℕ → List DocumentChunk → List (ℕ × ℕ)
row_numbers n [] = []
row_numbers n (c ∷ cs) = (c.id, n) ∷ row_numbers (suc n) cs

abbrev pub rank_in : ℕ → List (ℕ × ℕ) → Option ℕ
rank_in i [] = none
rank_in i ((j, r) ∷ rows) = let rest = rank_in i rows in if j == i then some r else rest

-- `vec v full outer join fts f using (id)`
unfoldable pub join_left : List (ℕ × ℕ) → List (ℕ × ℕ) → List Joined
join_left [] fts = []
join_left ((i, r) ∷ vec) fts =
    record { id = i; vec_rank = some r; fts_rank = rank_in i fts } ∷ join_left vec fts

unfoldable pub join_right : List (ℕ × ℕ) → List (ℕ × ℕ) → List Joined
join_right vec [] = []
join_right vec ((i, r) ∷ fts) = elim (rank_in i vec) [
  | none ↦ record { id = i; vec_rank = none; fts_rank = some r } ∷ join_right vec fts
  | some _ ↦ join_right vec fts
]

abbrev pub full_join : List (ℕ × ℕ) → List (ℕ × ℕ) → List Joined
full_join vec fts = join_left vec fts ++ join_right vec fts

-- `coalesce(1.0/(:rrf_k + r), 0)`
abbrev pub reciprocal : ℕ → Option ℕ → Fraction
reciprocal k none = (0, 1)
reciprocal k (some r) = (1, k + r)

abbrev pub add : Fraction → Fraction → Fraction
add (a, b) (c, d) = (a * d + c * b, b * d)

abbrev pub exceeds : Fraction → Fraction → Bool
exceeds (a, b) (c, d) = ltb (c * b) (a * d)

abbrev pub rrf_score : ℕ → Joined → Fraction
rrf_score k row = add (reciprocal k row.vec_rank) (reciprocal k row.fts_rank)

abbrev pub scored : (Joined → Fraction) → Joined → ℕ × Fraction
scored score row = (row.id, score row)

-- `order by score desc`
unfoldable pub insert_scored : ℕ × Fraction → List (ℕ × Fraction) → List (ℕ × Fraction)
insert_scored a [] = a ∷ []
insert_scored a (b ∷ bs) =
    let rest = insert_scored a bs in if exceeds b.1 a.1 then b ∷ rest else a ∷ b ∷ bs

unfoldable pub by_score : List (ℕ × Fraction) → List (ℕ × Fraction)
by_score [] = []
by_score (a ∷ as') = insert_scored a (by_score as')

-- `meta.get("heading_path")`, as the prompt reads it
abbrev pub non_empty : Option (List Text) → Option (List Text)
non_empty none = none
non_empty (some []) = none
non_empty (some (h ∷ hs)) = some (h ∷ hs)

module _ (e : Engine) (w : World) (user_id : ℕ) (filter_ids : List ℕ) where
  -- The conditions that both legs share, on the chunk's document and its source.
  abbrev pub passes : DocumentChunk → Document → KnowledgeSource → Bool
  passes c d s =
      status_eq d.status ready
      && (s.enabled
          && ((d.uploaded_by == user_id || e.is_law c)
              && (is_empty filter_ids || any (λ i. d.source_id == i) filter_ids)))

  abbrev pub passes_source : DocumentChunk → Document → Option KnowledgeSource → Bool
  passes_source c d none = false
  passes_source c d (some s) = passes c d s

  abbrev pub passes_document : DocumentChunk → Option Document → Bool
  passes_document c none = false
  passes_document c (some d) = passes_source c d (find_first (has_source_id d.source_id) w.sources)

  -- A chunk of the two joins that the conditions leave.
  unfoldable pub is_visible : DocumentChunk → Bool
  is_visible c = passes_document c (get_document c.document_id w)

  -- `_VEC_CTE`
  unfoldable pub vec_leg : ℕ → List ℕ → List (ℕ × ℕ)
  vec_leg top_k qvec =
      row_numbers 1
        (take top_k (e.by_distance qvec (keep (λ c. is_visible c && has_embedding c) w.chunks)))

  -- `_FTS_CTE`
  unfoldable pub fts_leg : ℕ → Text → List (ℕ × ℕ)
  fts_leg top_k tsquery =
      row_numbers 1
        (take top_k (e.by_rank tsquery (keep (λ c. is_visible c && e.matches tsquery c) w.chunks)))

  -- `_RRF_SELECT` and `_VEC_ONLY_SELECT`, by whether there is a text query.
  unfoldable pub fused : IndexSettings → List ℕ → Text → List Joined
  fused s qvec tsquery =
      if is_empty tsquery
      then full_join (vec_leg s.top_k qvec) []
      else full_join (vec_leg s.top_k qvec) (fts_leg s.top_k tsquery)

  unfoldable pub ranked : IndexSettings → List ℕ → Text → ℕ → List (ℕ × Fraction)
  ranked s qvec tsquery top_n =
      take top_n (by_score (map (scored (rrf_score s.rrf_k)) (e.scan (fused s qvec tsquery))))

-- `_LOAD_CHUNKS`, and the list of the hits that it found, with their ranks. It runs behind the
-- ranking and may see another state of the tables.
unfoldable pub hits : Engine → World → ℕ → List (ℕ × Fraction) → List RetrievedChunk
hits e later rank [] = []
hits e later rank ((i, score) ∷ rows) = elim (find_first (has_chunk_id i) later.chunks) [
  | none ↦ hits e later rank rows
  | some c ↦ elim (get_document c.document_id later) [
    | none ↦ hits e later rank rows
    | some d ↦
        record {
          chunk_id = c.id;
          document_id = c.document_id;
          filename = d.filename;
          text = c.text;
          score = e.as_float score;
          rank = rank;
          heading_path = non_empty c.meta.heading_path;
        }
        ∷ hits e later (suc rank) rows
  ]
]

-- `source_ids or ()`
abbrev pub or_empty_ids : Option (List ℕ) → List ℕ
or_empty_ids none = []
or_empty_ids (some ids) = ids

-- `hybrid_search`, on the tables at the ranking and at the loading.
unfoldable pub hybrid_search :
    Engine
    → IndexSettings
    → World
    → World
    → ℕ
    → Option (List ℕ)
    → Text
    → List ℕ
    → ℕ
    → List RetrievedChunk
hybrid_search e s w later user_id source_ids query_tokens query_embedding top_n = hits e later 1 (
    ranked e w user_id (or_empty_ids source_ids) s query_embedding (build_tsquery query_tokens)
      top_n)
