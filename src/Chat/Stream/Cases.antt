-- ===== src/Chat/Stream/Cases.antt =====
-- The ways a reply comes about, once for all statements about replies.
use atlas_knowledge.Common.{
  ℕ, ◌≡◌, refl, inl, inr, true, false, List, Option, none, some, Bool-cases, Option-cases, Text,
  Outcome, ok, err,
}
use atlas_knowledge.Errors.{AppError}
use atlas_knowledge.Chat.Rows.{ChatDb, RetrievedChunk}
use atlas_knowledge.Chat.Turn.{Request, ChatSettings, TurnContext, prepare_turn}
use atlas_knowledge.Chat.Saving.{Storage, persist_success}
use atlas_knowledge.Chat.Stream.{
  Reply, Services, conclude, ask, with_context, cite_and_ask, answer, stream_reply, message_start,
  Retrieved, found, embedding_error, failed, limited, StopReason, counted, end_with, emit,
  fail_retrieval, internal_error, retrieval_failed_message, done, error, persist_failed_message,
  finish_reason,
}

module _ (v : Services) (st : Storage) (q : Request) where
  -- What the search gave to a request that asks for sources.
  abbrev pub Finds : ChatSettings → List RetrievedChunk → Type 0
  Finds s chunks =
      (ids : List ℕ) × (q.source_ids ≡ some ids)
      × (v.retrieve q.user_id q.content (limited v st q ids) s.retrieval_top_n ≡ found chunks)

module _ {κ} (v : Services) (st : Storage) (q : Request) (P : Reply → Type κ) where
  answer-of_retrieved :
      (s : ChatSettings) (t : TurnContext) (db : ChatDb) (ids : List ℕ) (found_or_not : Retrieved)
      → q.source_ids ≡ some ids
      → v.retrieve q.user_id q.content (limited v st q ids) s.retrieval_top_n ≡ found_or_not
      → ((code message : Text) → P (fail_retrieval v st q t code message db))
      → ((chunks : List RetrievedChunk)
          → Finds v st q s chunks
          → P (cite_and_ask v st q (with_context v st q s t chunks) db))
      → P (answer v st q s t db)
  unfolding answer
  answer-of_retrieved s t db ids (found chunks) e f fails cites =
      simp (answer, e, f) (cites chunks (ids, e, f))
  answer-of_retrieved s t db ids (embedding_error c m) e f fails cites =
      simp (answer, e, f) (fails c m)
  answer-of_retrieved s t db ids failed e f fails cites =
      simp (answer, e, f) (fails internal_error retrieval_failed_message)

  -- What holds of a plain answer, of a failed retrieval and of an answer with what was found holds
  -- of every answer.
  pub answer_cases :
      (s : ChatSettings) (t : TurnContext) (db : ChatDb)
      → (q.source_ids ≡ none → P (ask v st q t db))
      → ((code message : Text) → P (fail_retrieval v st q t code message db))
      → ((chunks : List RetrievedChunk)
          → Finds v st q s chunks
          → P (cite_and_ask v st q (with_context v st q s t chunks) db))
      → P (answer v st q s t db)
  unfolding answer
  answer_cases s t db plain fails cites = elim (Option-cases q.source_ids) [
    | inl e ↦ simp (answer, e) (plain e)
    | inr (ids, e) ↦ answer-of_retrieved s t db ids _ e refl fails cites
  ]

module _ (v : Services) (st : Storage) (q : Request) where
  -- A reply begins with `message_start` and goes on with the answer to a prepared turn.
  pub stream_reply-ok :
      (s : ChatSettings) (u a : ℕ) (db : ChatDb) {r : Reply}
      → stream_reply v st q s u a db ≡ ok r
      → (t : TurnContext) × (db' : ChatDb) × (prepare_turn s u a q db ≡ ok (t, db'))
        × (r
            ≡ emit (message_start t.user_message_id t.assistant_message_id) (answer v st q s t db'))
  unfolding stream_reply
  stream_reply-ok s u a db {r} h = by_outcome (prepare_turn s u a q db) refl h
    where
      by_outcome :
          (o : Outcome AppError (TurnContext × ChatDb))
          → prepare_turn s u a q db ≡ o
          → elim o [
            | err e ↦ err e
            | ok (t, db') ↦ ok (
                emit
                  (message_start t.user_message_id t.assistant_message_id)
                  (answer v st q s t db'))
          ]
            ≡ ok r
          → (t : TurnContext) × (db' : ChatDb) × (prepare_turn s u a q db ≡ ok (t, db'))
            × (r
                ≡ emit
                    (message_start t.user_message_id t.assistant_message_id)
                    (answer v st q s t db'))
      by_outcome (err e) p k = cc
      by_outcome (ok (t, db')) p k = (t, db', p, cc)

  -- The two ends of a stream that ran through.
  pub conclude_cases {κ} :
      (P : Reply → Type κ) (t : TurnContext) (buffer : List Text) (usage : Option (ℕ × ℕ))
      → (reason : StopReason) (db : ChatDb)
      → (let r = persist_success st q t buffer (counted v usage) db in
          (r.0 ≡ true
            → P (
                end_with
                  (done t.assistant_message_id (finish_reason reason) (counted v usage))
                  r.1))
          → (r.0 ≡ false
              → P (end_with (error internal_error persist_failed_message q.trace_id) r.1))
          → P (conclude v st q t buffer usage reason db))
  unfolding conclude
  conclude_cases P t buffer usage reason db good bad =
      elim (Bool-cases (persist_success st q t buffer (counted v usage) db).0) [
        | inl e ↦ rw e (good e)
        | inr e ↦ rw e (bad e)
      ]
