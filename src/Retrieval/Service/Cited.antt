-- ===== src/Retrieval/Service/Cited.antt =====
-- What a reply cites, with this retrieval behind it.
use mathlib.Core.Path.{subst}
use atlas_knowledge.Common.{
  ℕ, suc, ◌+◌, ◌-◌, ◌≡◌, refl, sym, ◌∙◌, ap, inl, inr, List, [], ◌∷◌, append-nil, Option,
  Bool-cases, All, is_empty, take, ltb, length, Text, Outcome, ok, err,
}
use atlas_knowledge.Common.Filtering.{All-take}
use atlas_knowledge.Chat.Rows.{ChatDb, RetrievedChunk, enumerated}
use atlas_knowledge.Chat.Prompts.{fill, rag_system_prompt, render_block}
use atlas_knowledge.Chat.Turn.{Request, ChatSettings, TurnContext}
use atlas_knowledge.Chat.Saving.{Storage}
use atlas_knowledge.Chat.Stream.{
  Services, Reply, CitationItem, citation_item, citation_items, found, with_context, cite_and_ask,
  stream_reply, limited,
}
use atlas_knowledge.Chat.Stream.Cases.{Finds, answer_cases, stream_reply-ok}
use atlas_knowledge.Chat.Stream.Sent.{cited}
use atlas_knowledge.Chat.Stream.Kept.{ask-cited}
use atlas_knowledge.Adapters.Embeddings.{Failure, uncaught}
use atlas_knowledge.Retrieval.Tsquery.{index_tokens}
use atlas_knowledge.Retrieval.Index.{or_empty_ids}
use atlas_knowledge.Retrieval.Index.Scope.{MaySee, BringsNothing, hybrid_search_lem}
use atlas_knowledge.Retrieval.Service.{Deps, searched, search, retrieve}

-- The chunks that the user may see, at the time of the search.
abbrev pub AllSeen : Deps → ℕ → List ℕ → List RetrievedChunk → Type 0
AllSeen d user_id ids = All (λ c. MaySee d.engine d.tables user_id ids c.chunk_id)

module _ (d : Deps) (b : BringsNothing d.engine) (user_id : ℕ) (query : Text)
    (source_ids : Option (List ℕ)) (top_n : ℕ) where
  search-AllSeen :
      (r : Outcome Failure (List ℕ)) {chunks : List RetrievedChunk}
      → search d user_id query source_ids top_n r ≡ found chunks
      → AllSeen d user_id (or_empty_ids source_ids) chunks
  unfolding search
  search-AllSeen (err (Failure.embedding_error code message)) h = cc
  search-AllSeen (err (uncaught fault)) h = cc
  search-AllSeen (ok qvec) {chunks} h = elim (Bool-cases d.search_fails) [
    | inl e ↦ cc
    | inr e ↦
        let shown : found (take top_n (searched d user_id query source_ids top_n qvec))
            ≡ found chunks =
          rw e at h in
        let same : take top_n (searched d user_id query source_ids top_n qvec) ≡ chunks =
          cc shown in
        let (seen, _, _) =
          hybrid_search_lem d.engine d.index d.tables d.tables_later user_id source_ids
            (index_tokens d.cut query) qvec top_n b in
        subst (AllSeen d user_id (or_empty_ids source_ids)) same (All-take _ top_n _ seen)
  ]

  retrieve-AllSeen :
      {chunks : List RetrievedChunk}
      → retrieve d user_id query source_ids top_n ≡ found chunks
      → AllSeen d user_id (or_empty_ids source_ids) chunks
  unfolding retrieve
  retrieve-AllSeen h = search-AllSeen _ h

-- The chunks of the prompt are among those found.
fill-All :
    (P : RetrievedChunk → Type 0) (room used : ℕ) (chunks : List RetrievedChunk)
    → All P chunks
    → All P (fill room used chunks).1
unfolding fill
fill-All P room used [] h = tt
fill-All P room used (c ∷ cs) h =
    elim (Bool-cases (ltb room (length (render_block c (used + 1))))) [
      | inl e ↦ rw e tt
      | inr e ↦ rw e (h.0, fill-All P (room - length (render_block c (used + 1))) (used + 1) cs h.1)
    ]

items-All :
    (P : ℕ → Type 0) (n : ℕ) (chunks : List RetrievedChunk)
    → All (λ c. P c.chunk_id) chunks
    → All (λ (item : CitationItem). P item.chunk_id) (enumerated citation_item n chunks)
items-All P n [] h = tt
items-All P n (c ∷ cs) h = (h.0, items-All P (suc n) cs h.1)

module _ (d : Deps) (v : Services) (st : Storage) (q : Request) where
  -- The services with this retrieval.
  abbrev pub with_retrieval : Services
  with_retrieval = record v { retrieve = retrieve d }

  abbrev pub requested : List ℕ
  requested = or_empty_ids q.source_ids

  -- Each item that the events cite is a chunk that the user may see.
  abbrev pub CitesSeen : Reply → Type 0
  CitesSeen r =
      All (λ item. MaySee d.engine d.tables q.user_id requested item.chunk_id) (cited r.events)

  limited-requested : (ids : List ℕ) → or_empty_ids (limited v st q ids) ≡ ids
  limited-requested [] = refl
  limited-requested (i ∷ is) = refl

  cite_and_ask-CitesSeen :
      (t : TurnContext) (db : ChatDb)
      → AllSeen d q.user_id requested t.citations
      → CitesSeen (cite_and_ask with_retrieval st q t db)
  unfolding cite_and_ask citation_items
  cite_and_ask-CitesSeen t db h = elim (Bool-cases (is_empty t.citations)) [
    | inl e ↦ rw e (rw (ask-cited with_retrieval st q t db) tt)
    | inr e ↦ rw e (
        rw (ask-cited with_retrieval st q t db, append-nil)
          (items-All (MaySee d.engine d.tables q.user_id requested) 1 t.citations h))
  ]

  Finds-AllSeen :
      (b : BringsNothing d.engine) (s : ChatSettings) (chunks : List RetrievedChunk)
      → Finds with_retrieval st q s chunks
      → AllSeen d q.user_id requested chunks
  Finds-AllSeen b s chunks (ids, e, f) =
      let seen =
        retrieve-AllSeen d b q.user_id q.content (limited v st q ids) s.retrieval_top_n f in
      subst (λ is. AllSeen d q.user_id is chunks) (limited-requested ids ∙ ap or_empty_ids (sym e))
        seen

  with_context-AllSeen :
      (s : ChatSettings) (t : TurnContext) (chunks : List RetrievedChunk)
      → AllSeen d q.user_id requested chunks
      → AllSeen d q.user_id requested (with_context with_retrieval st q s t chunks).citations
  unfolding with_context rag_system_prompt
  with_context-AllSeen s t chunks h = fill-All _ s.rag_context_char_budget 0 chunks h

  -- With this retrieval a reply cites nothing but chunks that the user may see: of ready documents
  -- in enabled sources, the user's own unless they are laws, and in the sources that the request
  -- names, if it names any; if the database's orders bring no new rows.
  pub stream_reply-CitesSeen :
      (b : BringsNothing d.engine) (s : ChatSettings) (user_message_id assistant_message_id : ℕ)
      → (db : ChatDb) {r : Reply}
      → stream_reply with_retrieval st q s user_message_id assistant_message_id db ≡ ok r
      → CitesSeen r
  stream_reply-CitesSeen b s u a db {r} h =
      let (t, db', _, e) = stream_reply-ok with_retrieval st q s u a db h in
      subst CitesSeen (sym e) (
        answer_cases with_retrieval st q CitesSeen s t db'
          (λ _. rw (ask-cited with_retrieval st q t db') tt) (λ c m. tt)
          (λ chunks finds.
            cite_and_ask-CitesSeen (with_context with_retrieval st q s t chunks) db'
              (with_context-AllSeen s t chunks (Finds-AllSeen b s chunks finds))))
