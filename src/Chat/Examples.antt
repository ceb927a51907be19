-- ===== src/Chat/Examples.antt =====
-- A conversation with one question, and the statements about its answer.
use atlas_knowledge.Common.{
  ℕ, ◌⊎◌, err, ◌≡◌, refl, true, false, List, [], ◌∷◌, ◌++◌, map, none, some, Text, codes, ok,
}
use atlas_knowledge.Chat.Rows.{
  MessageCitation, RetrievedChunk, Role, ModelParams, Conversation, ChatDb, get_owned_conversation,
  add_message, clashes, list_recent,
}
use atlas_knowledge.Chat.Prompts.{rag_system_prompt, rag_instruction, context_of}
use atlas_knowledge.Chat.Prompts.Budget.{IsFilled, rag_system_prompt_lem}
use atlas_knowledge.Chat.Turn.{
  Request, ChatSettings, TurnContext, prepare_turn, user_message, new_turn, sources_owned,
  as_chat_message,
}
use atlas_knowledge.Chat.Turn.Laws.{with_message, prepare_turn_lem}
use atlas_knowledge.Chat.Saving.{Storage, assistant_message}
use atlas_knowledge.Chat.Stream.{
  ask, text_delta, usage_info, stream_stop, end_turn, exhausted, message_start, Reply, Services,
  found, emit, answer, counted, stream_reply,
}
use atlas_knowledge.Chat.Stream.Grammar.{unstarted, FollowsFrom, stream_reply_order}
use atlas_knowledge.Chat.Stream.Kept.{Faithful, stream_reply_keeps}
use atlas_knowledge.Common.Sorting.{sorted_by, insert_by}
use atlas_knowledge.Paging.{Codec, list_rows, list_page, order, insert, paginate, next_cursor}
use atlas_knowledge.Chat.Conversations.{get_conversation}
use atlas_knowledge.Chat.Pages.{
  MessagePage, list_messages, list_for_messages, group_citations, add_to_group,
}
use atlas_knowledge.Chat.Pages.Cited.{ShowsPage, list_messages_lem}
use atlas_knowledge.Chat.Titles.{generate_title}
use atlas_knowledge.Chat.Titles.Laws.{Retitled, generate_title_lem}
use atlas_knowledge.Chat.Conversations.{rename, delete_conversation}
use atlas_knowledge.Chat.Conversations.Isolation.{RenameSpares, DeleteSpares, rename-delete_lem}
use atlas_knowledge.Errors.{conversation_not_found}
use atlas_knowledge.Chat.Stream.Completion.{Completed, ask_lem}

abbrev pub chunk : RetrievedChunk
chunk = record {
  chunk_id = 1;
  document_id = 2;
  filename = codes "a.txt";
  text = codes "abc";
  score = 1;
  rank = 1;
  heading_path = some (codes "T" ∷ []);
}

abbrev pub model : ModelParams
model = record { model = codes "m"; temperature = 7; max_tokens = none }

abbrev pub settings : ChatSettings
settings = record {
  chat_history_max_messages = 20;
  chat_system_prompt = codes "S";
  rag_context_char_budget = 100;
  retrieval_top_n = 5;
  resolve = λ alias. model;
}

abbrev pub conversation : Conversation
conversation = record { id = 5; user_id = 1; title = none; model_alias = codes "d"; updated_at = 0 }

abbrev pub db : ChatDb
db = record {
  conversations = conversation ∷ [];
  sources = [];
  messages = [];
  citations = [];
  usage = [];
  title_tasks = [];
}

abbrev pub request : Request
request = record {
  user_id = 1;
  trace_id = 9;
  conversation_id = 5;
  content = codes "why";
  client_message_id = some 3;
  source_ids = some [];
}

abbrev pub services : Services
services = record {
  retrieve = λ user query sources n. found (chunk ∷ []);
  chat = λ prompt params. (
    text_delta (codes "be")
        ∷ usage_info 3 2
        ∷ text_delta (codes "cause")
        ∷ stream_stop end_turn
        ∷ [],
    exhausted,
  );
  latency_ms = 8;
}

abbrev pub storage : Storage
storage = record { now = 4; provider = codes "p"; transaction_fails = false; queue_fails = true }

abbrev turn : TurnContext
turn = new_turn settings 10 11 request conversation (with_message (user_message 10 request) db)

abbrev asked : ChatDb
asked = with_message (user_message 10 request) db

prepared : prepare_turn settings 10 11 request db ≡ ok (turn, asked)
unfolding prepare_turn sources_owned add_message clashes user_message
prepared = refl

abbrev reply : Reply
reply =
    emit (message_start turn.user_message_id turn.assistant_message_id)
      (answer services storage request settings turn asked)

replied : stream_reply services storage request settings 10 11 db ≡ ok reply
unfolding stream_reply prepare_turn sources_owned add_message clashes user_message
replied = refl

prepare_turn_lem_example :
    ((conv : Conversation) × (get_owned_conversation 1 5 db ≡ some conv)
      × (turn.params ≡ settings.resolve conv.model_alias))
    × (sources_owned 1 (some []) db ≡ true)
    × (clashes (user_message 10 request) db ≡ false)
    × (asked ≡ with_message (user_message 10 request) db)
    × (turn.history
        ≡ map as_chat_message (list_recent 5 19 db)
          ++ record { role = Role.user; content = codes "why" } ∷ [])
prepare_turn_lem_example = prepare_turn_lem settings 10 11 request db 19 refl prepared

rag_system_prompt_lem_example :
    (blocks : List Text) × IsFilled 100 1
      (chunk ∷ [])
      (blocks, (rag_system_prompt (codes "S") (chunk ∷ []) 100).1)
    × ((rag_system_prompt (codes "S") (chunk ∷ []) 100).0
        ≡ codes "S" ++ (codes "\n\n" ++ (rag_instruction ++ (codes "\n\n" ++ context_of blocks))))
rag_system_prompt_lem_example = rag_system_prompt_lem (codes "S") (chunk ∷ []) 100

stream_reply_order_example : FollowsFrom unstarted reply
stream_reply_order_example = stream_reply_order services storage request settings 10 11 db replied

stream_reply_keeps_example : Faithful asked reply.events reply.db
stream_reply_keeps_example = stream_reply_keeps services storage request settings 10 11 db replied

ask_lem_example :
    Completed services storage request turn true
      (codes "because")
      (some (3, 2))
      asked
      (ask services storage request turn asked)
ask_lem_example = ask_lem services storage request turn asked

abbrev answered : ChatDb
answered = record asked {
  messages =
      asked.messages
      ++ assistant_message storage request turn (codes "so" ∷ []) false none (counted services none)
        ∷ [];
}

generate_title_lem_example :
    (generate_title (λ alias. model) services.chat 6 (λ w. w) 5 answered ≡ answered)
    ⊎ (Retitled 6 5 answered.conversations
          (generate_title (λ alias. model) services.chat 6 (λ w. w) 5 answered).conversations
        × ((generate_title (λ alias. model) services.chat 6 (λ w. w) 5 answered).messages
            ≡ answered.messages))
generate_title_lem_example = generate_title_lem (λ alias. model) services.chat 6 (λ w. w) 5 answered

rename-delete_lem_example :
    ((get_owned_conversation 1 5 answered ≡ none)
      × (rename 7 1 5 (codes "N") answered ≡ (err conversation_not_found, answered))
      × (delete_conversation 1 5 answered ≡ (err conversation_not_found, answered)))
    ⊎ (((conv : Conversation) × ((rename 7 1 5 (codes "N") answered).0 ≡ ok conv))
        × RenameSpares 6 answered (rename 7 1 5 (codes "N") answered).1
        × ((delete_conversation 1 5 answered).0 ≡ ok tt)
        × DeleteSpares 5 6 answered (delete_conversation 1 5 answered).1)
rename-delete_lem_example = rename-delete_lem 7 1 5 6 (codes "N") answered refl

-- An answer with two citations, stored out of the order of their ranks.
abbrev citation : ℕ → MessageCitation
citation rank = record {
  message_id = 10;
  chunk_id = rank;
  document_id = 2;
  filename = [];
  snippet = [];
  score = 1;
  rank = rank;
}

abbrev discussed : ChatDb
discussed = record asked { citations = citation 2 ∷ citation 1 ∷ [] }

abbrev shown : MessagePage
shown = record {
  items = discussed.messages;
  citations = (10, citation 1 ∷ citation 2 ∷ []) ∷ [];
  next_cursor = none;
}

abbrev no_cursors : Codec
no_cursors = record { encode = λ k. []; decode = λ s. none }

listed : list_messages no_cursors (λ m. m.id) 1 5 10 none discussed ≡ ok shown
unfolding list_messages get_conversation list_rows list_page order insert paginate next_cursor
    list_for_messages sorted_by insert_by group_citations add_to_group user_message
listed = refl

list_messages_lem_example :
    ((c : Conversation) × (get_owned_conversation 1 5 discussed ≡ some c))
    × ShowsPage no_cursors (λ m. m.id) 5 10 none discussed shown
list_messages_lem_example = list_messages_lem no_cursors (λ m. m.id) 1 5 10 none discussed listed
