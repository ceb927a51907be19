-- ===== src/Chat/Stream/Kept.antt =====
-- What is kept of an answer: the stored message is what was sent, with the citations that were sent.
use mathlib.Core.Path.{subst}
use atlas_knowledge.Common.{
  ℕ, suc, ◌≡◌, refl, sym, ap, ◌∙◌, ◌⊎◌, inl, inr, true, false, List, [], ◌∷◌, ◌++◌, append-nil,
  Option, none, some, Bool-cases, is_empty, map, All, Text, concat, ok,
}
use atlas_knowledge.Chat.Rows.{
  ChatDb, RetrievedChunk, Message, MessageCitation, enumerated, bump_updated_at,
}
use atlas_knowledge.Chat.Turn.{Request, ChatSettings, TurnContext, prompt, user_message, new_turn}
use atlas_knowledge.Chat.Turn.Laws.{with_message, prepare_turn-ok}
use atlas_knowledge.Chat.Saving.{
  Storage, persist_error, persist_cancelled, citation_rows, citation_row,
}
use atlas_knowledge.Chat.Stream.{
  StreamEvent, Ending, Event, Reply, Services, conclude, relay, ask, with_context, cite_and_ask,
  answer, stream_reply, exhausted, closed, cancelled, raised, text_delta, tool_call, usage_info,
  stream_stop, stream_error, StopReason, citations, done, error, citation_items, citation_item,
  counted, emit, fail_retrieval, finish_reason, internal_error, persist_failed_message, returned,
  interrupted,
}
use atlas_knowledge.Chat.Stream.Cases.{answer_cases, conclude_cases, stream_reply-ok}
use atlas_knowledge.Chat.Stream.Sent.{
  deltas, cited, has_done, as_item, Untouched, KeepsWhatIsSent, keeps_partial, keeps_whole,
  keeps-delta, persist_error_cases, persist_cancelled_cases,
}

module _ (v : Services) (st : Storage) (q : Request) where
  conclude-keeps :
      (t : TurnContext) (buffer : List Text) (usage : Option (ℕ × ℕ)) (reason : StopReason)
      (db : ChatDb)
      → KeepsWhatIsSent t db buffer (conclude v st q t buffer usage reason db)
  conclude-keeps t buffer usage reason db =
      conclude_cases v st q (KeepsWhatIsSent t db buffer) t buffer usage reason db
        (λ e.
          keeps_whole st q t buffer (counted v usage) db
            (done t.assistant_message_id (finish_reason reason) (counted v usage)) refl (inr e))
        (λ e.
          keeps_whole st q t buffer (counted v usage) db
            (error internal_error persist_failed_message q.trace_id) refl (inl refl))

  relay-keeps :
      (t : TurnContext) (evs : List StreamEvent) (ending : Ending) (buffer : List Text)
      → (usage : Option (ℕ × ℕ)) (db : ChatDb)
      → KeepsWhatIsSent t db buffer (relay v st q t evs ending buffer usage db)
  unfolding relay
  relay-keeps t [] exhausted buffer usage db = conclude-keeps t buffer usage _ db
  relay-keeps t [] closed buffer usage db =
      keeps_partial st q t buffer none db (persist_cancelled st q t buffer db) [] interrupted refl
        refl (persist_cancelled_cases st q t buffer db)
  relay-keeps t [] cancelled buffer usage db =
      keeps_partial st q t buffer none db (persist_cancelled st q t buffer db) [] interrupted refl
        refl (persist_cancelled_cases st q t buffer db)
  relay-keeps t [] raised buffer usage db = inr (refl, refl, refl)
  relay-keeps t (text_delta x ∷ evs) ending buffer usage db =
      keeps-delta t x buffer db (relay v st q t evs ending (buffer ++ x ∷ []) usage db)
        (relay-keeps t evs ending (buffer ++ x ∷ []) usage db)
  relay-keeps t (tool_call i n a ∷ evs) ending buffer usage db =
      relay-keeps t evs ending buffer usage db
  relay-keeps t (usage_info i n ∷ evs) ending buffer usage db =
      relay-keeps t evs ending buffer (some (i, n)) db
  relay-keeps t (stream_error c m ∷ evs) ending buffer usage db =
      keeps_partial st q t buffer (some c) db (persist_error st q t buffer c db)
        (error c m q.trace_id ∷ []) returned refl refl (persist_error_cases st q t buffer c db)
  relay-keeps t (stream_stop reason ∷ evs) ending buffer usage db =
      conclude-keeps t buffer usage reason db

  relay-cited :
      (t : TurnContext) (evs : List StreamEvent) (ending : Ending) (buffer : List Text)
      → (usage : Option (ℕ × ℕ)) (db : ChatDb)
      → cited (relay v st q t evs ending buffer usage db).events ≡ []
  unfolding relay
  relay-cited t [] exhausted buffer usage db =
      conclude_cases v st q (λ r. cited r.events ≡ []) t buffer usage _ db (λ e. refl) (λ e. refl)
  relay-cited t [] closed buffer usage db = refl
  relay-cited t [] cancelled buffer usage db = refl
  relay-cited t [] raised buffer usage db = refl
  relay-cited t (text_delta x ∷ evs) ending buffer usage db =
      relay-cited t evs ending (buffer ++ x ∷ []) usage db
  relay-cited t (tool_call i n a ∷ evs) ending buffer usage db =
      relay-cited t evs ending buffer usage db
  relay-cited t (usage_info i n ∷ evs) ending buffer usage db =
      relay-cited t evs ending buffer (some (i, n)) db
  relay-cited t (stream_error c m ∷ evs) ending buffer usage db = refl
  relay-cited t (stream_stop reason ∷ evs) ending buffer usage db =
      conclude_cases v st q (λ r. cited r.events ≡ []) t buffer usage reason db (λ e. refl)
        (λ e. refl)

rows_belong :
    (i rank : ℕ) (chunks : List RetrievedChunk)
    → All (λ r. r.message_id ≡ i) (enumerated (citation_row i) rank chunks)
rows_belong i rank [] = tt
rows_belong i rank (c ∷ cs) = (refl, rows_belong i (suc rank) cs)

rows_as_items :
    (i rank : ℕ) (chunks : List RetrievedChunk)
    → map as_item (enumerated (citation_row i) rank chunks) ≡ enumerated citation_item rank chunks
rows_as_items i rank [] = refl
rows_as_items i rank (c ∷ cs) = ap (λ xs. citation_item rank c ∷ xs) (rows_as_items i (suc rank) cs)

-- Either one answer was stored: the very texts of the `delta` events, joined, with one row for each
-- item of the `citations` event, in their order, and whole if `done` was sent; or nothing of the
-- answer was stored and no `done` was sent.
abbrev pub Faithful : ChatDb → List Event → ChatDb → Type 0
Faithful db es db' =
    ((m : Message) × (rows : List MessageCitation) × (db'.messages ≡ db.messages ++ m ∷ [])
      × (db'.citations ≡ db.citations ++ rows)
      × All (λ r. r.message_id ≡ m.id) rows
      × (map as_item rows ≡ cited es)
      × (m.content ≡ concat (deltas es))
      × (has_done es ≡ true → m.content_meta.is_partial ≡ false))
    ⊎ Untouched db es db'

empty→nil : {A : Type 0} (xs : List A) → is_empty xs ≡ true → xs ≡ []
empty→nil [] h = refl
empty→nil (x ∷ xs) h = cc

faithful :
    (t : TurnContext) (db : ChatDb) (r : Reply)
    → cited r.events ≡ citation_items t.citations
    → KeepsWhatIsSent t db [] r
    → Faithful db r.events r.db
unfolding citation_items citation_rows
faithful t db r e (inl (m, (ms, cs, i, c, w))) = inl (
  m,
  citation_rows t,
  ms,
  cs,
  subst (λ k. All (λ x. x.message_id ≡ k) (citation_rows t)) (sym i)
      (rows_belong t.assistant_message_id 1 t.citations),
  rows_as_items t.assistant_message_id 1 t.citations ∙ sym e,
  c,
  w,
)
faithful t db r e (inr untouched) = inr untouched

module _ (v : Services) (st : Storage) (q : Request) where
  ask-keeps : (t : TurnContext) (db : ChatDb) → KeepsWhatIsSent t db [] (ask v st q t db)
  unfolding ask
  ask-keeps t db =
      relay-keeps v st q t (v.chat (prompt t) t.params).0 (v.chat (prompt t) t.params).1 [] none db

  pub ask-cited : (t : TurnContext) (db : ChatDb) → cited (ask v st q t db).events ≡ []
  unfolding ask
  ask-cited t db =
      relay-cited v st q t (v.chat (prompt t) t.params).0 (v.chat (prompt t) t.params).1 [] none db

  -- An answer without citations.
  asked :
      (t : TurnContext) (db : ChatDb)
      → t.citations ≡ []
      → Faithful db (ask v st q t db).events (ask v st q t db).db
  unfolding citation_items
  asked t db e =
      faithful t db (ask v st q t db) (ask-cited t db ∙ ap citation_items (sym e)) (ask-keeps t db)

  -- A retrieval that failed.
  unretrieved :
      (t : TurnContext) (db : ChatDb) (code message : Text)
      → Faithful db
          (fail_retrieval v st q t code message db).events
          (fail_retrieval v st q t code message db).db
  unfolding persist_error bump_updated_at
  unretrieved t db code message = elim (Bool-cases st.transaction_fails) [
    | inl e ↦ simp e (inr (refl, refl, refl))
    | inr e ↦ simp e (inr (refl, refl, refl))
  ]

  cite_and_ask-faithful :
      (t : TurnContext) (db : ChatDb)
      → Faithful db (cite_and_ask v st q t db).events (cite_and_ask v st q t db).db
  unfolding cite_and_ask
  cite_and_ask-faithful t db = elim (Bool-cases (is_empty t.citations)) [
    | inl e ↦ rw e (asked t db (empty→nil t.citations e))
    | inr e ↦ rw e (
        faithful t db (emit (citations (citation_items t.citations)) (ask v st q t db))
          (ap (λ xs. citation_items t.citations ++ xs) (ask-cited t db)
            ∙ append-nil (citation_items t.citations))
          (ask-keeps t db))
  ]

  answer-faithful :
      (s : ChatSettings) (t : TurnContext) (db : ChatDb)
      → t.citations ≡ []
      → Faithful db (answer v st q s t db).events (answer v st q s t db).db
  answer-faithful s t db h =
      answer_cases v st q (λ r. Faithful db r.events r.db) s t db (λ _. asked t db h)
        (λ code message. unretrieved t db code message)
        (λ chunks _. cite_and_ask-faithful (with_context v st q s t chunks) db)

  -- Compared with the tables that hold the user's message at the end, a reply has either stored
  -- one answer, namely the texts of its `delta` events joined, with one citation row for each item
  -- of its `citations` event in the same order, and whole if `done` was sent; or it has stored no
  -- message and no citation, and sent no `done`.
  pub stream_reply_keeps :
      (s : ChatSettings) (user_message_id assistant_message_id : ℕ) (db : ChatDb) {r : Reply}
      → stream_reply v st q s user_message_id assistant_message_id db ≡ ok r
      → Faithful (with_message (user_message user_message_id q) db) r.events r.db
  unfolding new_turn
  stream_reply_keeps s u a db {r} h =
      let (t, db', p, e) = stream_reply-ok v st q s u a db h in
      let (same, (conv, owned, built), sources, fresh) = prepare_turn-ok s u a q db p in
      subst (λ x. Faithful (with_message (user_message u q) db) x.events x.db) (sym e)
        (subst (λ w. Faithful w (answer v st q s t db').events (answer v st q s t db').db) same
          (answer-faithful s t db' (ap (λ x. x.citations) built ∙ refl)))
