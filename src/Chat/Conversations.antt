-- ===== src/Chat/Conversations.antt =====
-- `ConversationService` (backend/app/application/conversation_service.py). models.yaml is given by its
-- default alias and a test; `list_messages` is left out, whose time stamps are not in the rows.
pub mod Isolation
use atlas_knowledge.Common.{
  ℕ, Bool, true, false, ◌&&◌, not, List, [], ◌∷◌, ◌++◌, Option, none, some, String, ◌==◌,
  if◌then◌else◌, any, keep, map, is_empty, Text, Outcome, ok, err,
}
use atlas_knowledge.Errors.{AppError, conversation_not_found, validation_error}
use atlas_knowledge.Paging.{Key, Codec, list_rows}
use atlas_knowledge.Chat.Rows.{
  Conversation, Message, MessageCitation, ChatDb, get_owned_conversation, of_conversation,
}

pub record Models : Type 0 where
  pub default_alias : Text
  pub alias_exists : Text → Bool

-- `model_alias or default_alias()`
abbrev pub chosen_alias : Models → Option Text → Text
chosen_alias models none = models.default_alias
chosen_alias models (some alias) = if is_empty alias then models.default_alias else alias

abbrev pub new_conversation : ℕ → ℕ → ℕ → Option Text → Text → Conversation
new_conversation now i user_id title alias = record {
  id = i;
  user_id = user_id;
  title = title;
  model_alias = alias;
  updated_at = now;
}

-- `create`
unfoldable pub create_conversation :
    Models → ℕ → ℕ → ℕ → Option Text → Option Text → ChatDb → Outcome AppError Conversation × ChatDb
create_conversation models now i user_id title model_alias db =
    let alias = chosen_alias models model_alias in
    let conv = new_conversation now i user_id title alias in
    if not (models.alias_exists alias)
    then (err (validation_error (some "model_alias 無效")), db)
    else (ok conv, record db { conversations = db.conversations ++ conv ∷ [] })

-- `get`
unfoldable pub get_conversation : ℕ → ℕ → ChatDb → Outcome AppError Conversation
get_conversation user_id i db = elim (get_owned_conversation user_id i db) [
  | none ↦ err conversation_not_found
  | some conv ↦ ok conv
]

abbrev pub renamed : ℕ → Text → Conversation → Conversation
renamed now title c = record c { title = some title; updated_at = now }

abbrev pub rename_row : ℕ → ℕ → Text → Conversation → Conversation
rename_row now i title c = if c.id == i then renamed now title c else c

-- `rename`
unfoldable pub rename : ℕ → ℕ → ℕ → Text → ChatDb → Outcome AppError Conversation × ChatDb
rename now user_id i title db = elim (get_conversation user_id i db) [
  | err e ↦ (err e, db)
  | ok conv ↦ (
    ok (renamed now title conv),
    record db { conversations = map (rename_row now conv.id title) db.conversations },
  )
]

abbrev pub cites_in : ℕ → List Message → MessageCitation → Bool
cites_in i messages r = any (λ m. m.id == r.message_id && of_conversation i m) messages

-- The row and, by ON DELETE CASCADE, its messages and their citations; usage logs stay.
unfoldable pub delete_conversation_rows : ℕ → ChatDb → ChatDb
delete_conversation_rows i db = record db {
  conversations = keep (λ c. not (c.id == i)) db.conversations;
  messages = keep (λ m. not (of_conversation i m)) db.messages;
  citations = keep (λ r. not (cites_in i db.messages r)) db.citations;
}

-- `delete`
unfoldable pub delete_conversation : ℕ → ℕ → ChatDb → Outcome AppError (Unit {0}) × ChatDb
delete_conversation user_id i db = elim (get_conversation user_id i db) [
  | err e ↦ (err e, db)
  | ok conv ↦ (ok tt, delete_conversation_rows conv.id db)
]

abbrev pub of_user : ℕ → Conversation → Bool
of_user user_id c = c.user_id == user_id

abbrev pub conversation_key : Conversation → Key
conversation_key c = (c.updated_at, c.id)

-- `list_conversations`
unfoldable pub list_conversations :
    Codec → ℕ → ℕ → Option Text → ChatDb → Outcome AppError (List Conversation × Option Text)
list_conversations codec user_id limit cursor db =
    list_rows codec conversation_key (keep (of_user user_id) db.conversations) limit cursor
