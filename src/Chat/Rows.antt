-- ===== src/Chat/Rows.antt =====
-- The rows of a chat and their repositories (models.py, repositories/messages.py, citations.py,
-- usage.py, conversations.py). Messages stand in the order of (created_at, id). Scores are only
-- copied, and stand as numbers; a temperature stands in tenths.
use mathlib.Core.List.{reverse}
use atlas_knowledge.Common.{
  ℕ, suc, Bool, false, ◌&&◌, List, [], ◌∷◌, ◌++◌, Option, none, some, ◌==◌, if◌then◌else◌, any,
  keep, find_first, map, take, Text,
}
use atlas_knowledge.Ingestion.World.{KnowledgeSource}

-- `RetrievedChunk`; `heading_path` is `none` where the key is missing, empty or not a list.
pub record RetrievedChunk : Type 0 where
  pub chunk_id : ℕ
  pub document_id : ℕ
  pub filename : Text
  pub text : Text
  pub score : ℕ
  pub rank : ℕ
  pub heading_path : Option (List Text)

pub data Role : Type 0 where
  system user assistant tool : Role

pub record ChatMessage : Type 0 where
  pub role : Role
  pub content : Text

pub record ModelParams : Type 0 where
  pub model : Text
  pub temperature : ℕ
  pub max_tokens : Option ℕ

pub record Conversation : Type 0 where
  pub id : ℕ
  pub user_id : ℕ
  pub title : Option Text
  pub model_alias : Text
  pub updated_at : ℕ

-- `content_meta["rag"]`
pub record RagMeta : Type 0 where
  pub source_ids : List ℕ
  pub top_n : ℕ

-- `content_meta`; an absent `partial` is false.
pub record ContentMeta : Type 0 where
  pub is_partial : Bool
  pub error_code : Option Text
  pub rag : Option RagMeta

pub record Message : Type 0 where
  pub id : ℕ
  pub conversation_id : ℕ
  pub role : Role
  pub content : Text
  pub content_meta : ContentMeta
  pub client_message_id : Option ℕ
  pub provider : Option Text
  pub model : Option Text
  pub tokens_in : Option ℕ
  pub tokens_out : Option ℕ
  pub latency_ms : Option ℕ

pub record MessageCitation : Type 0 where
  pub message_id : ℕ
  pub chunk_id : ℕ
  pub document_id : ℕ
  pub filename : Text
  pub snippet : Text
  pub score : ℕ
  pub rank : ℕ

pub data UsageStatus : Type 0 where
  ok_status error_status : UsageStatus

pub record ModelUsageLog : Type 0 where
  pub user_id : ℕ
  pub conversation_id : ℕ
  pub message_id : ℕ
  pub provider : Text
  pub model : Text
  pub tokens_in : Option ℕ
  pub tokens_out : Option ℕ
  pub latency_ms : Option ℕ
  pub status : UsageStatus
  pub error_code : Option Text

-- The tables, and the conversations whose title is to be generated.
pub record ChatDb : Type 0 where
  pub conversations : List Conversation
  pub sources : List KnowledgeSource
  pub messages : List Message
  pub citations : List MessageCitation
  pub usage : List ModelUsageLog
  pub title_tasks : List ℕ

abbrev pub owns_conversation : ℕ → ℕ → Conversation → Bool
owns_conversation user_id i c = c.id == i && c.user_id == user_id

-- `ConversationRepository.get_owned`
abbrev pub get_owned_conversation : ℕ → ℕ → ChatDb → Option Conversation
get_owned_conversation user_id i db = find_first (owns_conversation user_id i) db.conversations

abbrev pub bump_row : ℕ → ℕ → Conversation → Conversation
bump_row now i c = if c.id == i then record c { updated_at = now } else c

-- `bump_updated_at`
unfoldable pub bump_updated_at : ℕ → ℕ → ChatDb → ChatDb
bump_updated_at now i db = record db { conversations = map (bump_row now i) db.conversations }

-- `ux_messages_client_id`: the two messages may not both be stored.
unfoldable pub same_client_id : ℕ → ℕ → Message → Bool
same_client_id conversation_id client_id m = elim m.client_message_id [
  | none ↦ false
  | some other ↦ m.conversation_id == conversation_id && other == client_id
]

unfoldable pub clashes : Message → ChatDb → Bool
clashes m db = elim m.client_message_id [
  | none ↦ false
  | some client_id ↦ any (same_client_id m.conversation_id client_id) db.messages
]

-- `MessageRepository.add`: `none` is the IntegrityError.
unfoldable pub add_message : Message → ChatDb → Option ChatDb
add_message m db =
    if clashes m db then none else some (record db { messages = db.messages ++ m ∷ [] })

abbrev pub of_conversation : ℕ → Message → Bool
of_conversation i m = m.conversation_id == i

-- `list_recent`: the latest `limit` messages, the oldest of them first
unfoldable pub list_recent : ℕ → ℕ → ChatDb → List Message
list_recent i limit db = reverse (take limit (reverse (keep (of_conversation i) db.messages)))

-- `enumerate(chunks, start=rank)` under a function of the rank and the chunk
abbrev pub enumerated {ℓ} :
    {A : Type ℓ} → (ℕ → RetrievedChunk → A) → ℕ → List RetrievedChunk → List A
enumerated f rank [] = []
enumerated f rank (c ∷ cs) = f rank c ∷ enumerated f (suc rank) cs

abbrev pub snippet_max_chars : ℕ
snippet_max_chars = 200
