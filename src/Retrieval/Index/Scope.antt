-- ===== src/Retrieval/Index/Scope.antt =====
-- Which chunks a search may return.
use atlas_knowledge.Common.{
  ◌≡◌, refl, ◌⊎◌, inl, inr, ℕ, suc, ◌≤◌, Bool, true, ◌&&◌, ◌||◌, List, [], ◌∷◌, Option, none, some,
  Bool-cases, Option-cases, ==_iff, ◌==◌, any, keep, find_first, take, is_empty, map, length,
  length-take, All, Occurs, Text, arith,
}
use atlas_knowledge.Common.Filtering.{
  Occurs-keep, Occurs-take, All-of_Occurs, All-at, All-take, and_left, and_right, or_cases,
}
use atlas_knowledge.Ingestion.World.{
  ready, Document, DocumentChunk, KnowledgeSource, World, get_document, status_eq,
}
use atlas_knowledge.Chat.Rows.{RetrievedChunk}
use atlas_knowledge.Retrieval.Tsquery.{build_tsquery}
use atlas_knowledge.Retrieval.Index.{
  Fraction, Joined, Engine, IndexSettings, has_source_id, has_chunk_id, has_embedding, row_numbers,
  rrf_score, scored, by_score, passes_source, passes_document, is_visible, vec_leg, fts_leg, fused,
  ranked, hits, or_empty_ids, hybrid_search,
}
use atlas_knowledge.Retrieval.Index.Steps.{
  OnIds, OnJoined, OnScored, row_numbers-OnIds, full_join-OnJoined, scored-OnScored,
  by_score-OnScored, hits-OnHits,
}

-- A chunk with this id that the user may see: it is of a ready document in an enabled source, the
-- document is the user's or the chunk a law's, and the source is among those asked for, if any are.
abbrev pub MaySee : Engine → World → ℕ → List ℕ → ℕ → Type 0
MaySee e w user_id filter_ids i =
    (c : DocumentChunk) × (d : Document) × (s : KnowledgeSource) × Occurs c w.chunks
    × (c.id ≡ i)
    × (get_document c.document_id w ≡ some d)
    × (find_first (has_source_id d.source_id) w.sources ≡ some s)
    × (status_eq d.status ready ≡ true)
    × (s.enabled ≡ true)
    × ((d.uploaded_by ≡ user_id) ⊎ (e.is_law c ≡ true))
    × ((filter_ids ≡ []) ⊎ Occurs d.source_id filter_ids)

Occurs-of_any : (i : ℕ) (ids : List ℕ) → any (λ j. i == j) ids ≡ true → Occurs i ids
Occurs-of_any i [] h = cc
Occurs-of_any i (j ∷ ids) h = elim (Bool-cases (i == j)) [
  | inl e ↦ inl ((==_iff i j).0 e)
  | inr e ↦ inr (Occurs-of_any i ids (rw e at h))
]

module _ (e : Engine) (w : World) (user_id : ℕ) (filter_ids : List ℕ) where
  in_filter :
      (ids : List ℕ) (i : ℕ)
      → (is_empty ids || any (λ j. i == j) ids) ≡ true
      → (ids ≡ []) ⊎ Occurs i ids
  in_filter [] i h = inl refl
  in_filter (j ∷ ids) i h = inr (Occurs-of_any i (j ∷ ids) h)

  is_visible-MaySee :
      (c : DocumentChunk)
      → Occurs c w.chunks
      → is_visible e w user_id filter_ids c ≡ true
      → MaySee e w user_id filter_ids c.id
  unfolding is_visible
  is_visible-MaySee c o v = by_document (get_document c.document_id w) refl v
    where
      owner :
          (d : Document)
          → ((d.uploaded_by == user_id) ≡ true) ⊎ (e.is_law c ≡ true)
          → (d.uploaded_by ≡ user_id) ⊎ (e.is_law c ≡ true)
      owner d (inl k) = inl ((==_iff d.uploaded_by user_id).0 k)
      owner d (inr k) = inr k

      by_source :
          (d : Document) (s : Option KnowledgeSource)
          → get_document c.document_id w ≡ some d
          → find_first (has_source_id d.source_id) w.sources ≡ s
          → passes_source e w user_id filter_ids c d s ≡ true
          → MaySee e w user_id filter_ids c.id
      by_source d none p q h = cc
      by_source d (some s) p q h =
          let h1 = and_right (status_eq d.status ready) _ h in
          let h2 = and_right s.enabled _ h1 in
          (
            c,
            d,
            s,
            o,
            refl,
            p,
            q,
            and_left (status_eq d.status ready) _ h,
            and_left s.enabled _ h1,
            owner d (
                or_cases (d.uploaded_by == user_id) (e.is_law c)
                  (and_left (d.uploaded_by == user_id || e.is_law c) _ h2)),
            in_filter filter_ids d.source_id
                (and_right (d.uploaded_by == user_id || e.is_law c) _ h2),
          )

      by_document :
          (d : Option Document)
          → get_document c.document_id w ≡ d
          → passes_document e w user_id filter_ids c d ≡ true
          → MaySee e w user_id filter_ids c.id
      by_document none p h = cc
      by_document (some d) p h = by_source d _ p refl h

-- What the database promises of the orders: they bring no new rows.
pub record BringsNothing (e : Engine) : Type 0 where
  pub by_distance_from :
      (qvec : List ℕ) (cs : List DocumentChunk) (c : DocumentChunk)
      → Occurs c (e.by_distance qvec cs)
      → Occurs c cs
  pub by_rank_from :
      (tsquery : Text) (cs : List DocumentChunk) (c : DocumentChunk)
      → Occurs c (e.by_rank tsquery cs)
      → Occurs c cs
  pub scan_from : (rows : List Joined) (row : Joined) → Occurs row (e.scan rows) → Occurs row rows

-- The hits are ranked from a number on.
abbrev pub RanksFrom : ℕ → List RetrievedChunk → Type 0
RanksFrom n [] = Unit
RanksFrom n (hit ∷ rest) = (hit.rank ≡ n) × RanksFrom (suc n) rest

-- The hits are numbered, and no more than the rows.
hits_count :
    (e : Engine) (later : World) (n : ℕ) (rows : List (ℕ × Fraction))
    → (length (hits e later n rows) ≤ length rows) × RanksFrom n (hits e later n rows)
unfolding hits
hits_count e later n [] = (omega arith, tt)
hits_count e later n ((i, score) ∷ rows) =
    elim (Option-cases (find_first (has_chunk_id i) later.chunks)) [
      | inl m ↦ simp (hits, m) (fewer (hits_count e later n rows))
      | inr (c, m) ↦ elim (Option-cases (get_document c.document_id later)) [
        | inl k ↦ simp (hits, m, k) (fewer (hits_count e later n rows))
        | inr (d, k) ↦
            let (l, r) = hits_count e later (suc n) rows in
            simp (hits, m, k) (omega arith, (refl, r))
      ]
    ]
  where
    fewer :
        (length (hits e later n rows) ≤ length rows) × RanksFrom n (hits e later n rows)
        → (length (hits e later n rows) ≤ suc (length rows)) × RanksFrom n (hits e later n rows)
    fewer (l, r) = (omega arith, r)

module _ (e : Engine) (b : BringsNothing e) (w : World) (user_id : ℕ) (filter_ids : List ℕ) where
  leg-OnIds :
      (n : ℕ) (p : DocumentChunk → Bool) (order : List DocumentChunk → List DocumentChunk)
      → ((cs : List DocumentChunk) (c : DocumentChunk) → Occurs c (order cs) → Occurs c cs)
      → OnIds (MaySee e w user_id filter_ids) (
          row_numbers 1
            (take n (order (keep (λ c. is_visible e w user_id filter_ids c && p c) w.chunks))))
  leg-OnIds n p order from = row_numbers-OnIds (MaySee e w user_id filter_ids) 1 _ (λ c o.
      let (stored, both) =
        Occurs-keep (λ c. is_visible e w user_id filter_ids c && p c) c w.chunks
          (from (keep (λ c. is_visible e w user_id filter_ids c && p c) w.chunks) c
            (Occurs-take n c _ o)) in
      is_visible-MaySee e w user_id filter_ids c stored
        (and_left (is_visible e w user_id filter_ids c) (p c) both))

  fused-OnJoined :
      (s : IndexSettings) (qvec : List ℕ) (tsquery : Text)
      → OnJoined (MaySee e w user_id filter_ids) (fused e w user_id filter_ids s qvec tsquery)
  unfolding fused vec_leg fts_leg
  fused-OnJoined s qvec tsquery = elim (Bool-cases (is_empty tsquery)) [
    | inl k ↦ rw k (
        full_join-OnJoined _ _ []
          (leg-OnIds s.top_k has_embedding (e.by_distance qvec) (b.by_distance_from qvec)) tt)
    | inr k ↦ rw k (
        full_join-OnJoined _ _ _
          (leg-OnIds s.top_k has_embedding (e.by_distance qvec) (b.by_distance_from qvec))
          (leg-OnIds s.top_k (e.matches tsquery) (e.by_rank tsquery) (b.by_rank_from tsquery)))
  ]

  ranked-OnScored :
      (s : IndexSettings) (qvec : List ℕ) (tsquery : Text) (top_n : ℕ)
      → OnScored
          (MaySee e w user_id filter_ids)
          (ranked e w user_id filter_ids s qvec tsquery top_n)
  unfolding ranked
  ranked-OnScored s qvec tsquery top_n =
      let joined = fused e w user_id filter_ids s qvec tsquery in
      let rows = map (scored (rrf_score s.rrf_k)) (e.scan joined) in
      All-take _ top_n (by_score rows) (
        by_score-OnScored (MaySee e w user_id filter_ids) rows (
          scored-OnScored (MaySee e w user_id filter_ids) (rrf_score s.rrf_k) (e.scan joined) (
            All-of_Occurs _ (e.scan joined) (λ row o.
              All-at _ row joined (fused-OnJoined s qvec tsquery) (b.scan_from joined row o)))))

  length-ranked :
      (s : IndexSettings) (qvec : List ℕ) (tsquery : Text) (top_n : ℕ)
      → length (ranked e w user_id filter_ids s qvec tsquery top_n) ≤ top_n
  unfolding ranked
  length-ranked s qvec tsquery top_n = omega (
    arith,
    length-take top_n (
        by_score (
          map (scored (rrf_score s.rrf_k)) (e.scan (fused e w user_id filter_ids s qvec tsquery)))),
  )

-- A search returns at most top_n hits, ranked from 1, and each is a chunk that at the time of the
-- ranking was of a ready document in an enabled source, uploaded by the user unless it is a law's,
-- and in one of the sources asked for, if any were: whatever the tables hold when the hits are
-- loaded, and however the database orders the rows, if it brings no new ones.
pub hybrid_search_lem :
    (e : Engine) (s : IndexSettings) (w later : World) (user_id : ℕ)
    → (source_ids : Option (List ℕ)) (query_tokens : Text) (query_embedding : List ℕ) (top_n : ℕ)
    → BringsNothing e
    → (let r = hybrid_search e s w later user_id source_ids query_tokens query_embedding top_n in
        All (λ hit. MaySee e w user_id (or_empty_ids source_ids) hit.chunk_id) r
        × (length r ≤ top_n)
        × RanksFrom 1 r)
unfolding hybrid_search
hybrid_search_lem e s w later user_id source_ids query_tokens query_embedding top_n b =
    let ids = or_empty_ids source_ids in
    let rows = ranked e w user_id ids s query_embedding (build_tsquery query_tokens) top_n in
    let (fewer, numbered) = hits_count e later 1 rows in
    (
      hits-OnHits (MaySee e w user_id ids) e later 1 rows
          (ranked-OnScored e b w user_id ids s query_embedding (build_tsquery query_tokens) top_n),
      omega (
        arith,
        length-ranked e b w user_id ids s query_embedding (build_tsquery query_tokens) top_n,
      ),
      numbered,
    )
