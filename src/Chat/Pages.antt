-- ===== src/Chat/Pages.antt =====
-- The pages of a conversation (conversation_service.py, `list_messages`) with the citations of their
-- messages (messages.py, citations.py). The time stamps of messages are a function of the message.
pub mod Cited
use atlas_knowledge.Common.{
  ℕ, Bool, true, false, List, [], ◌∷◌, ◌++◌, Option, none, some, ◌==◌, if◌then◌else◌, any, keep,
  map, is_empty, Text, Outcome, ok, err,
}
use atlas_knowledge.Common.Sorting.{sorted_by}
use atlas_knowledge.Errors.{AppError}
use atlas_knowledge.Paging.{Key, Codec, list_rows}
use atlas_knowledge.Chat.Rows.{ChatDb, Conversation, Message, MessageCitation}
use atlas_knowledge.Chat.Conversations.{get_conversation}

abbrev pub in_conversation : ℕ → Message → Bool
in_conversation i m = m.conversation_id == i

-- `_msg_key`
abbrev pub message_key : (Message → ℕ) → Message → Key
message_key created_at m = (created_at m, m.id)

abbrev pub cites_for : ℕ → MessageCitation → Bool
cites_for i c = c.message_id == i

abbrev pub cites_any : List ℕ → MessageCitation → Bool
cites_any ids c = any (λ i. c.message_id == i) ids

abbrev pub message_of : MessageCitation → ℕ
message_of c = c.message_id

abbrev pub rank_of : MessageCitation → ℕ
rank_of c = c.rank

-- `grouped.setdefault(citation.message_id, []).append(citation)`
unfoldable pub add_to_group :
    MessageCitation → List (ℕ × List MessageCitation) → List (ℕ × List MessageCitation)
add_to_group c [] = (c.message_id, c ∷ []) ∷ []
add_to_group c ((i, cs) ∷ groups) =
    let rest = add_to_group c groups in
    if i == c.message_id then (i, cs ++ c ∷ []) ∷ groups else (i, cs) ∷ rest

unfoldable pub group_citations :
    List (ℕ × List MessageCitation) → List MessageCitation → List (ℕ × List MessageCitation)
group_citations groups [] = groups
group_citations groups (c ∷ cs) = group_citations (add_to_group c groups) cs

-- `list_for_messages`
unfoldable pub list_for_messages : List ℕ → ChatDb → List (ℕ × List MessageCitation)
list_for_messages ids db =
    if is_empty ids
    then []
    else group_citations []
        (sorted_by message_of (sorted_by rank_of (keep (cites_any ids) db.citations)))

-- `grouped.get(i, [])`
abbrev pub citations_of : ℕ → List (ℕ × List MessageCitation) → List MessageCitation
citations_of i [] = []
citations_of i ((j, cs) ∷ groups) = let rest = citations_of i groups in if j == i then cs else rest

-- A page: its messages, their citations and the next cursor.
pub record MessagePage : Type 0 where
  pub items : List Message
  pub citations : List (ℕ × List MessageCitation)
  pub next_cursor : Option Text

abbrev pub with_citations : ChatDb → List Message × Option Text → MessagePage
with_citations db (items, next) = record {
  items = items;
  citations = list_for_messages (map (λ m. m.id) items) db;
  next_cursor = next;
}

module _ (codec : Codec) (created_at : Message → ℕ) where
  abbrev pub list_owned : ℕ → ℕ → Option Text → ChatDb → Outcome AppError MessagePage
  list_owned conversation_id limit cursor db =
      elim (list_rows codec (message_key created_at)
        (keep (in_conversation conversation_id) db.messages) limit cursor) [
          | err e ↦ err e
          | ok page ↦ ok (with_citations db page)
        ]

  -- `list_messages`
  unfoldable pub list_messages : ℕ → ℕ → ℕ → Option Text → ChatDb → Outcome AppError MessagePage
  list_messages user_id conversation_id limit cursor db =
      elim (get_conversation user_id conversation_id db) [
        | err e ↦ err e
        | ok conversation ↦ list_owned conversation_id limit cursor db
      ]
