-- ===== src/Retrieval/Index/Steps.antt =====
-- A property of ids, along the steps of the fusion.
use mathlib.Core.Path.{subst}
use atlas_knowledge.Common.{
  ◌≡◌, refl, sym, inl, inr, ℕ, suc, List, [], ◌∷◌, Bool-cases, Option-cases, ==_iff, find_first,
  find_first_passes, map, All, All-append, Occurs,
}
use atlas_knowledge.Ingestion.World.{DocumentChunk, World, get_document}
use atlas_knowledge.Chat.Rows.{RetrievedChunk}
use atlas_knowledge.Retrieval.Index.{
  Fraction, Joined, Engine, has_chunk_id, row_numbers, rank_in, join_left, join_right, full_join,
  scored, insert_scored, exceeds, by_score, hits,
}

module _ (P : ℕ → Type 0) where
  abbrev pub OnIds : List (ℕ × ℕ) → Type 0
  OnIds = All (λ row. P row.0)

  abbrev pub OnJoined : List Joined → Type 0
  OnJoined = All (λ row. P row.id)

  abbrev pub OnScored : List (ℕ × Fraction) → Type 0
  OnScored = All (λ row. P row.0)

  pub row_numbers-OnIds :
      (n : ℕ) (cs : List DocumentChunk)
      → ((c : DocumentChunk) → Occurs c cs → P c.id)
      → OnIds (row_numbers n cs)
  row_numbers-OnIds n [] h = tt
  row_numbers-OnIds n (c ∷ cs) h =
      (h c (inl refl), row_numbers-OnIds (suc n) cs (λ a o. h a (inr o)))

  join_left-OnJoined : (vec fts : List (ℕ × ℕ)) → OnIds vec → OnJoined (join_left vec fts)
  unfolding join_left
  join_left-OnJoined [] fts h = tt
  join_left-OnJoined ((i, r) ∷ vec) fts h = (h.0, join_left-OnJoined vec fts h.1)

  join_right-OnJoined : (vec fts : List (ℕ × ℕ)) → OnIds fts → OnJoined (join_right vec fts)
  unfolding join_right
  join_right-OnJoined vec [] h = tt
  join_right-OnJoined vec ((i, r) ∷ fts) h = elim (Option-cases (rank_in i vec)) [
    | inl m ↦ simp (join_right, m) (h.0, join_right-OnJoined vec fts h.1)
    | inr (r', m) ↦ simp (join_right, m) (join_right-OnJoined vec fts h.1)
  ]

  pub full_join-OnJoined :
      (vec fts : List (ℕ × ℕ)) → OnIds vec → OnIds fts → OnJoined (full_join vec fts)
  full_join-OnJoined vec fts h k =
      All-append _ (join_left vec fts) (join_right vec fts) (join_left-OnJoined vec fts h)
        (join_right-OnJoined vec fts k)

  pub scored-OnScored :
      (score : Joined → Fraction) (rows : List Joined)
      → OnJoined rows
      → OnScored (map (scored score) rows)
  scored-OnScored score [] h = tt
  scored-OnScored score (row ∷ rows) h = (h.0, scored-OnScored score rows h.1)

  insert_scored-OnScored :
      (a : ℕ × Fraction) (rows : List (ℕ × Fraction))
      → P a.0
      → OnScored rows
      → OnScored (insert_scored a rows)
  unfolding insert_scored
  insert_scored-OnScored a [] p h = (p, tt)
  insert_scored-OnScored a (b ∷ bs) p h = elim (Bool-cases (exceeds b.1 a.1)) [
    | inl e ↦ rw e (h.0, insert_scored-OnScored a bs p h.1)
    | inr e ↦ rw e (p, h)
  ]

  pub by_score-OnScored : (rows : List (ℕ × Fraction)) → OnScored rows → OnScored (by_score rows)
  unfolding by_score
  by_score-OnScored [] h = tt
  by_score-OnScored (a ∷ as') h =
      insert_scored-OnScored a (by_score as') h.0 (by_score-OnScored as' h.1)

  pub hits-OnHits :
      (e : Engine) (later : World) (n : ℕ) (rows : List (ℕ × Fraction))
      → OnScored rows
      → All (λ (hit : RetrievedChunk). P hit.chunk_id) (hits e later n rows)
  unfolding hits
  hits-OnHits e later n [] h = tt
  hits-OnHits e later n ((i, score) ∷ rows) h =
      elim (Option-cases (find_first (has_chunk_id i) later.chunks)) [
        | inl m ↦ simp (hits, m) (hits-OnHits e later n rows h.1)
        | inr (c, m) ↦ elim (Option-cases (get_document c.document_id later)) [
          | inl k ↦ simp (hits, m, k) (hits-OnHits e later n rows h.1)
          | inr (d, k) ↦
              let same : c.id ≡ i =
                (==_iff c.id i).0 (find_first_passes (has_chunk_id i) later.chunks m) in
              simp (hits, m, k) (subst P (sym same) h.0, hits-OnHits e later (suc n) rows h.1)
        ]
      ]
