-- ===== src/Chat/Stream.antt =====
-- The generator `stream_reply` (chat_orchestrator.py). The model and the retrieval are parameters:
-- the model answers a prompt with its events and the way its stream ends for the generator.
pub mod Cases
pub mod Grammar
pub mod Sent
pub mod Completion
pub mod Kept
use atlas_knowledge.Common.{
  ℕ, suc, Bool, true, false, List, [], ◌∷◌, ◌++◌, Option, none, some, if◌then◌else◌, is_empty, take,
  Text, codes, Outcome, ok, err,
}
use atlas_knowledge.Errors.{AppError}
use atlas_knowledge.Chat.Rows.{
  RetrievedChunk, ChatMessage, ModelParams, ChatDb, enumerated, snippet_max_chars,
}
use atlas_knowledge.Chat.Prompts.{rag_system_prompt}
use atlas_knowledge.Chat.Turn.{Request, ChatSettings, TurnContext, prompt, prepare_turn}
use atlas_knowledge.Chat.Saving.{
  Storage, Measured, persist_success, persist_error, persist_cancelled,
}

pub data StopReason : Type 0 where
  end_turn tool_use max_tokens : StopReason

-- `StreamEvent`, with `Text` for the literal types of codes
pub data StreamEvent : Type 0 where
  text_delta : Text → StreamEvent
  tool_call : Text → Text → Text → StreamEvent
  usage_info : ℕ → ℕ → StreamEvent
  stream_stop : StopReason → StreamEvent
  stream_error : Text → Text → StreamEvent

-- How the loop over the model's events ends after the last of them, where none of them ends it:
-- the stream is exhausted, the caller closes the generator, its task is cancelled, or the model
-- raises another exception.
pub data Ending : Type 0 where
  exhausted closed cancelled raised : Ending

pub record CitationItem : Type 0 where
  pub rank : ℕ
  pub chunk_id : ℕ
  pub document_id : ℕ
  pub filename : Text
  pub snippet : Text
  pub score : ℕ

pub data FinishReason : Type 0 where
  stop length : FinishReason

-- The application events, each with the data of `_event`.
pub data Event : Type 0 where
  message_start : ℕ → ℕ → Event
  citations : List CitationItem → Event
  delta : Text → Event
  done : ℕ → FinishReason → Measured → Event
  error : Text → Text → ℕ → Event

-- Whether the generator returned, or an exception went through it.
pub data Finish : Type 0 where
  returned interrupted : Finish

pub record Reply : Type 0 where
  pub events : List Event
  pub finish : Finish
  pub db : ChatDb

-- `_FINISH_REASON.get(stop_reason, "stop")`
abbrev pub finish_reason : StopReason → FinishReason
finish_reason StopReason.end_turn = FinishReason.stop
finish_reason StopReason.tool_use = FinishReason.stop
finish_reason StopReason.max_tokens = FinishReason.length

abbrev pub citation_item : ℕ → RetrievedChunk → CitationItem
citation_item rank c = record {
  rank = rank;
  chunk_id = c.chunk_id;
  document_id = c.document_id;
  filename = c.filename;
  snippet = take snippet_max_chars c.text;
  score = c.score;
}

-- `_citation_items`
unfoldable pub citation_items : List RetrievedChunk → List CitationItem
citation_items chunks = enumerated citation_item 1 chunks

abbrev pub internal_error : Text
internal_error = codes "internal_error"

abbrev pub retrieval_failed_message : Text
retrieval_failed_message = codes "知識庫檢索暫時無法使用,請稍後再試"

abbrev pub persist_failed_message : Text
persist_failed_message = codes "伺服器暫時發生錯誤,回覆未能儲存,請稍後再試"

-- The result of the retrieval: chunks, an `EmbeddingError`, or another exception.
pub data Retrieved : Type 0 where
  found : List RetrievedChunk → Retrieved
  embedding_error : Text → Text → Retrieved
  failed : Retrieved

-- The collaborators of the orchestrator.
pub record Services : Type 0 where
  pub retrieve : ℕ → Text → Option (List ℕ) → ℕ → Retrieved
  pub chat : List ChatMessage → ModelParams → List StreamEvent × Ending
  pub latency_ms : ℕ

abbrev pub emit : Event → Reply → Reply
emit e r = record r { events = e ∷ r.events }

abbrev pub counted : Services → Option (ℕ × ℕ) → Measured
counted v none = record { tokens_in = none; tokens_out = none; latency_ms = some v.latency_ms }
counted v (some (i, o)) = record {
  tokens_in = some i;
  tokens_out = some o;
  latency_ms = some v.latency_ms;
}

abbrev pub end_with : Event → ChatDb → Reply
end_with e db = record { events = e ∷ []; finish = Finish.returned; db = db }

module _ (v : Services) (st : Storage) (q : Request) where
  -- `stream_reply` from line 230 on.
  unfoldable pub conclude : TurnContext → List Text → Option (ℕ × ℕ) → StopReason → ChatDb → Reply
  conclude t buffer usage reason db =
      let (succeeded, db') = persist_success st q t buffer (counted v usage) db in
      if succeeded
      then end_with (done t.assistant_message_id (finish_reason reason) (counted v usage)) db'
      else end_with (error internal_error persist_failed_message q.trace_id) db'

  -- The loop over the model's events, with the buffer and the usage so far.
  unfoldable pub relay :
      TurnContext → List StreamEvent → Ending → List Text → Option (ℕ × ℕ) → ChatDb → Reply
  relay t [] exhausted buffer usage db = conclude t buffer usage StopReason.end_turn db
  relay t [] closed buffer usage db = record {
    events = [];
    finish = Finish.interrupted;
    db = persist_cancelled st q t buffer db;
  }
  relay t [] cancelled buffer usage db = record {
    events = [];
    finish = Finish.interrupted;
    db = persist_cancelled st q t buffer db;
  }
  relay t [] raised buffer usage db = record { events = []; finish = Finish.interrupted; db = db }
  relay t (text_delta x ∷ evs) ending buffer usage db =
      emit (delta x) (relay t evs ending (buffer ++ x ∷ []) usage db)
  relay t (tool_call i n a ∷ evs) ending buffer usage db = relay t evs ending buffer usage db
  relay t (usage_info i o ∷ evs) ending buffer usage db = relay t evs ending buffer (some (i, o)) db
  relay t (stream_error code message ∷ evs) ending buffer usage db =
      end_with (error code message q.trace_id) (persist_error st q t buffer code db)
  relay t (stream_stop reason ∷ evs) ending buffer usage db = conclude t buffer usage reason db

  unfoldable pub ask : TurnContext → ChatDb → Reply
  ask t db = let answer = v.chat (prompt t) t.params in relay t answer.0 answer.1 [] none db

  -- `turn.source_ids or None`
  abbrev pub limited : List ℕ → Option (List ℕ)
  limited [] = none
  limited (i ∷ is) = some (i ∷ is)

  -- `_retrieve` after the search: the prompt and the citations of the turn.
  unfoldable pub with_context : ChatSettings → TurnContext → List RetrievedChunk → TurnContext
  with_context s t chunks =
      let built = rag_system_prompt s.chat_system_prompt chunks s.rag_context_char_budget in
      record t { system_prompt = built.0; citations = built.1 }

  abbrev pub fail_retrieval : TurnContext → Text → Text → ChatDb → Reply
  fail_retrieval t code message db =
      end_with (error code message q.trace_id) (persist_error st q t [] code db)

  unfoldable pub cite_and_ask : TurnContext → ChatDb → Reply
  cite_and_ask t db =
      if is_empty t.citations
      then ask t db
      else emit (citations (citation_items t.citations)) (ask t db)

  -- The part of `stream_reply` after `message_start`.
  unfoldable pub answer : ChatSettings → TurnContext → ChatDb → Reply
  answer s t db = elim q.source_ids [
    | none ↦ ask t db
    | some ids ↦ elim (v.retrieve q.user_id q.content (limited ids) s.retrieval_top_n) [
      | embedding_error code message ↦ fail_retrieval t code message db
      | failed ↦ fail_retrieval t internal_error retrieval_failed_message db
      | found chunks ↦ cite_and_ask (with_context s t chunks) db
    ]
  ]

  -- `stream_reply`: an error before the stream, or the reply. A caller that closes the generator
  -- before the first event of the model or while it takes the last event is not modelled.
  unfoldable pub stream_reply : ChatSettings → ℕ → ℕ → ChatDb → Outcome AppError Reply
  stream_reply s user_message_id assistant_message_id db =
      elim (prepare_turn s user_message_id assistant_message_id q db) [
        | err e ↦ err e
        | ok (t, db') ↦
            ok (emit (message_start t.user_message_id t.assistant_message_id) (answer s t db'))
      ]
