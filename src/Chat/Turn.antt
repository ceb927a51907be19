-- ===== src/Chat/Turn.antt =====
-- TXN A of a turn: the user's message, the history and the parameters of the model
-- (`_prepare_turn`, `_assert_sources_owned` and `_TurnContext` of chat_orchestrator.py). The ids
-- that are drawn are arguments, and `resolve` stands for models.yaml.
pub mod Laws
use atlas_knowledge.Common.{
  ℕ, Bool, true, false, List, [], ◌∷◌, ◌++◌, Option, none, some, if◌then◌else◌, any, find_first,
  map, length, Text, Outcome, ok, err,
}
use atlas_knowledge.Errors.{AppError, conversation_not_found, source_not_found, duplicate_message}
use atlas_knowledge.Ingestion.Uploads.{owned_source}
use atlas_knowledge.Chat.Rows.{
  RetrievedChunk, Role, ChatMessage, ModelParams, Conversation, RagMeta, ContentMeta, Message,
  ChatDb, get_owned_conversation, add_message, list_recent,
}

-- The arguments of `stream_reply`; `source_ids` is `none` for a chat without the knowledge base.
pub record Request : Type 0 where
  pub user_id : ℕ
  pub trace_id : ℕ
  pub conversation_id : ℕ
  pub content : Text
  pub client_message_id : Option ℕ
  pub source_ids : Option (List ℕ)

pub record ChatSettings : Type 0 where
  pub chat_history_max_messages : ℕ
  pub chat_system_prompt : Text
  pub rag_context_char_budget : ℕ
  pub retrieval_top_n : ℕ
  pub resolve : Text → ModelParams

-- `_TurnContext`
pub record TurnContext : Type 0 where
  pub user_message_id : ℕ
  pub assistant_message_id : ℕ
  pub history : List ChatMessage
  pub system_prompt : Text
  pub params : ModelParams
  pub title_is_none : Bool
  pub source_ids : Option (List ℕ)
  pub citations : List RetrievedChunk

-- `prompt`
unfoldable pub prompt : TurnContext → List ChatMessage
prompt t = record { role = Role.system; content = t.system_prompt } ∷ t.history

abbrev pub rag_meta : TurnContext → Option RagMeta
rag_meta t = elim t.source_ids [
  | none ↦ none
  | some ids ↦ some (record { source_ids = ids; top_n = length t.citations })
]

-- `content_meta`
unfoldable pub content_meta : Bool → Option Text → TurnContext → ContentMeta
content_meta is_partial error_code t = record {
  is_partial = is_partial;
  error_code = error_code;
  rag = rag_meta t;
}

abbrev pub all_owned : ℕ → List ℕ → ChatDb → Bool
all_owned user_id [] db = true
all_owned user_id (i ∷ is) db = elim (find_first (owned_source user_id i) db.sources) [
  | none ↦ false
  | some s ↦ all_owned user_id is db
]

-- `_assert_sources_owned`: whether it returns.
unfoldable pub sources_owned : ℕ → Option (List ℕ) → ChatDb → Bool
sources_owned user_id none db = true
sources_owned user_id (some is) db = all_owned user_id is db

unfoldable pub user_message : ℕ → Request → Message
user_message i q = record {
  id = i;
  conversation_id = q.conversation_id;
  role = Role.user;
  content = q.content;
  content_meta = record { is_partial = false; error_code = none; rag = none };
  client_message_id = q.client_message_id;
  provider = none;
  model = none;
  tokens_in = none;
  tokens_out = none;
  latency_ms = none;
}

abbrev pub as_chat_message : Message → ChatMessage
as_chat_message m = record { role = m.role; content = m.content }

abbrev pub is_none {ℓ} : {A : Type ℓ} → Option A → Bool
is_none none = true
is_none (some a) = false

unfoldable pub new_turn : ChatSettings → ℕ → ℕ → Request → Conversation → ChatDb → TurnContext
new_turn s user_message_id assistant_message_id q conv db = record {
  user_message_id = user_message_id;
  assistant_message_id = assistant_message_id;
  history = map as_chat_message (list_recent q.conversation_id s.chat_history_max_messages db);
  system_prompt = s.chat_system_prompt;
  params = s.resolve conv.model_alias;
  title_is_none = is_none conv.title;
  source_ids = q.source_ids;
  citations = [];
}

-- `_prepare_turn`: the error that it raises, or the turn and the tables that it commits.
unfoldable pub prepare_turn :
    ChatSettings → ℕ → ℕ → Request → ChatDb → Outcome AppError (TurnContext × ChatDb)
prepare_turn s user_message_id assistant_message_id q db =
    elim (get_owned_conversation q.user_id q.conversation_id db) [
      | none ↦ err conversation_not_found
      | some conv ↦
          if sources_owned q.user_id q.source_ids db
          then elim (add_message (user_message user_message_id q) db) [
            | none ↦ err duplicate_message
            | some db' ↦ ok (new_turn s user_message_id assistant_message_id q conv db', db')
          ]
          else err source_not_found
    ]
