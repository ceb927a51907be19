-- ===== src/Chat/Saving.antt =====
-- TXN B of a turn: what is stored of the answer (`_persist_success`, `_persist_error` and
-- `_persist_cancelled` of chat_orchestrator.py). `Storage` says whether the transaction and the
-- broker of the queue raise; a transaction that raises stores nothing.
use atlas_knowledge.Common.{
  ℕ, Bool, true, false, List, [], ◌∷◌, ◌++◌, Option, none, some, if◌then◌else◌, is_empty, take,
  Text, concat,
}
use atlas_knowledge.Chat.Rows.{
  RetrievedChunk, Role, Message, MessageCitation, ModelUsageLog, UsageStatus, ChatDb,
  bump_updated_at, enumerated, snippet_max_chars,
}
use atlas_knowledge.Chat.Turn.{Request, TurnContext, content_meta}

pub record Storage : Type 0 where
  pub now : ℕ
  pub provider : Text
  pub transaction_fails : Bool
  pub queue_fails : Bool

-- The optional numbers that a stored answer carries.
pub record Measured : Type 0 where
  pub tokens_in : Option ℕ
  pub tokens_out : Option ℕ
  pub latency_ms : Option ℕ

abbrev pub unmeasured : Measured
unmeasured = record { tokens_in = none; tokens_out = none; latency_ms = none }

-- The assistant's message; `_assistant_partial` where it is partial.
unfoldable pub assistant_message :
    Storage → Request → TurnContext → List Text → Bool → Option Text → Measured → Message
assistant_message st q t buffer is_partial error_code n = record {
  id = t.assistant_message_id;
  conversation_id = q.conversation_id;
  role = Role.assistant;
  content = concat buffer;
  content_meta = content_meta is_partial error_code t;
  client_message_id = none;
  provider = some st.provider;
  model = some t.params.model;
  tokens_in = n.tokens_in;
  tokens_out = n.tokens_out;
  latency_ms = n.latency_ms;
}

abbrev pub citation_row : ℕ → ℕ → RetrievedChunk → MessageCitation
citation_row message_id rank c = record {
  message_id = message_id;
  chunk_id = c.chunk_id;
  document_id = c.document_id;
  filename = c.filename;
  snippet = take snippet_max_chars c.text;
  score = c.score;
  rank = rank;
}

-- `_add_citations`: the rows that it adds.
unfoldable pub citation_rows : TurnContext → List MessageCitation
citation_rows t = enumerated (citation_row t.assistant_message_id) 1 t.citations

-- `_usage_log`
unfoldable pub usage_log :
    Storage → Request → TurnContext → Measured → UsageStatus → Option Text → ModelUsageLog
usage_log st q t n status error_code = record {
  user_id = q.user_id;
  conversation_id = q.conversation_id;
  message_id = t.assistant_message_id;
  provider = st.provider;
  model = t.params.model;
  tokens_in = n.tokens_in;
  tokens_out = n.tokens_out;
  latency_ms = n.latency_ms;
  status = status;
  error_code = error_code;
}

abbrev pub add_answer : TurnContext → Message → ChatDb → ChatDb
add_answer t m db = record db {
  messages = db.messages ++ m ∷ [];
  citations = db.citations ++ citation_rows t;
}

abbrev pub add_usage : ModelUsageLog → ChatDb → ChatDb
add_usage u db = record db { usage = db.usage ++ u ∷ [] }

-- `CeleryTaskQueue.enqueue_generate_title` (celery_queue.py), which only logs a failure.
abbrev pub enqueue_title : Storage → ℕ → ChatDb → ChatDb
enqueue_title st i db =
    if st.queue_fails then db else record db { title_tasks = db.title_tasks ++ i ∷ [] }

-- `_persist_success`: whether it returns, and the tables. The title is queued after the commit.
unfoldable pub persist_success :
    Storage → Request → TurnContext → List Text → Measured → ChatDb → Bool × ChatDb
persist_success st q t buffer n db =
    let saved = add_usage (usage_log st q t n UsageStatus.ok_status none) (
      bump_updated_at st.now q.conversation_id
        (add_answer t (assistant_message st q t buffer false none n) db)) in
    if st.transaction_fails
    then (false, db)
    else (true, if t.title_is_none then enqueue_title st q.conversation_id saved else saved)

abbrev pub add_partial : Storage → Request → TurnContext → List Text → Option Text → ChatDb → ChatDb
add_partial st q t buffer error_code db =
    add_answer t (assistant_message st q t buffer true error_code unmeasured) db

-- `_persist_error`, whose exceptions both callers only log.
unfoldable pub persist_error : Storage → Request → TurnContext → List Text → Text → ChatDb → ChatDb
persist_error st q t buffer code db =
    let answered = if is_empty buffer then db else add_partial st q t buffer (some code) db in
    if st.transaction_fails
    then db
    else add_usage (usage_log st q t unmeasured UsageStatus.error_status (some code))
        (bump_updated_at st.now q.conversation_id answered)

-- `_persist_cancelled`, whose exceptions are only logged.
unfoldable pub persist_cancelled : Storage → Request → TurnContext → List Text → ChatDb → ChatDb
persist_cancelled st q t buffer db =
    if is_empty buffer
    then db
    else if st.transaction_fails
    then db
    else add_usage (usage_log st q t unmeasured UsageStatus.ok_status none)
        (bump_updated_at st.now q.conversation_id (add_partial st q t buffer none db))
