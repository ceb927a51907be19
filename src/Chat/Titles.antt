-- ===== src/Chat/Titles.antt =====
-- The background task that titles a conversation (backend/app/workers/tasks/titles.py, and
-- `title_prompt` of prompts.py). `other` is what other sessions commit while the model answers.
pub mod Laws
use atlas_knowledge.Common.{
  ℕ, Bool, true, false, ◌&&◌, ◌||◌, List, [], ◌∷◌, ◌++◌, Option, none, some, leb, ◌==◌,
  if◌then◌else◌, any, find_first, map, is_empty, take, Text, codes, concat, strip, strip_by,
}
use atlas_knowledge.Chat.Rows.{
  Role, ChatMessage, ModelParams, Conversation, Message, ChatDb, of_conversation,
}
use atlas_knowledge.Chat.Turn.{is_none}
use atlas_knowledge.Chat.Stream.{
  StreamEvent, text_delta, stream_error, Ending, exhausted, closed, cancelled, raised,
}

abbrev pub title_max_chars : ℕ
title_max_chars = 20

abbrev pub strip_chars : Text
strip_chars = codes " \t\r\n「」『』\"'“”‘’"

abbrev pub is_strip_char : ℕ → Bool
is_strip_char c = any (λ d. c == d) strip_chars

-- The characters at which `str.splitlines` ends a line.
unfoldable pub is_line_break : ℕ → Bool
is_line_break c =
    (leb 0xa c && leb c 0xd)
    || ((leb 0x1c c && leb c 0x1e) || (c == 0x85 || (c == 0x2028 || c == 0x2029)))

-- `s.splitlines()[0]` of a text that is not empty
unfoldable pub first_line : Text → Text
first_line [] = []
first_line (c ∷ s) = let rest = first_line s in if is_line_break c then [] else c ∷ rest

-- `_clean`
unfoldable pub clean : Text → Text
clean raw =
    let stripped = strip raw in
    if is_empty stripped
    then []
    else take title_max_chars (strip_by is_strip_char (first_line stripped))

-- `_TITLE_SYSTEM`
pub title_system : Text
title_system =
    codes "你是為對話生成標題的助理。根據使用者的第一則訊息與助理的回覆,產出一個不超過 20 字、精準概括主題的繁體中文標題。只輸出標題本身,不要加引號、句末標點或任何多餘說明。"

-- `title_prompt`
unfoldable pub title_prompt : Text → Text → List ChatMessage
title_prompt user_content assistant_content =
    record { role = Role.system; content = title_system }
    ∷ record {
      role = Role.user;
      content = codes "使用者:" ++ (user_content ++ (codes "\n助理:" ++ assistant_content));
    }
    ∷ []

abbrev pub is_user : Role → Bool
is_user Role.user = true
is_user _ = false

abbrev pub is_assistant : Role → Bool
is_assistant Role.assistant = true
is_assistant _ = false

-- `first_of_role`
unfoldable pub first_of_role : ℕ → (Role → Bool) → ChatDb → Option Message
first_of_role i p db = find_first (λ m. of_conversation i m && p m.role) db.messages

abbrev pub has_conversation_id : ℕ → Conversation → Bool
has_conversation_id i c = c.id == i

abbrev pub title_row : ℕ → ℕ → Text → Conversation → Conversation
title_row now i title c =
    if c.id == i && is_none c.title then record c { title = some title; updated_at = now } else c

-- `set_title_if_null`; the update also sets `updated_at`.
unfoldable pub set_title_if_null : ℕ → ℕ → Text → ChatDb → ChatDb
set_title_if_null now i title db = record db {
  conversations = map (title_row now i title) db.conversations;
}

-- The loop over the model's events: the texts, or `none` where the task ends without a title.
unfoldable pub collect : List Text → List StreamEvent → Ending → Option (List Text)
collect parts [] exhausted = some parts
collect parts [] _ = none
collect parts (text_delta x ∷ evs) ending = collect (parts ++ x ∷ []) evs ending
collect parts (stream_error code message ∷ evs) ending = none
collect parts (_ ∷ evs) ending = collect parts evs ending

unfoldable pub store_title : ℕ → ℕ → Option (List Text) → ChatDb → ChatDb
store_title now i none db = db
store_title now i (some parts) db =
    let title = clean (concat parts) in
    if is_empty title then db else set_title_if_null now i title db

-- `_TITLE_TEMPERATURE` and `_TITLE_MAX_TOKENS` on the model that the alias resolves to; the
-- temperature stands in tenths.
abbrev pub title_params : ModelParams → ModelParams
title_params resolved = record { model = resolved.model; temperature = 3; max_tokens = some 64 }

module _ (resolve : Text → ModelParams)
    (chat : List ChatMessage → ModelParams → List StreamEvent × Ending) (now : ℕ)
    (other : ChatDb → ChatDb) where
  unfoldable pub ask_title : ℕ → Conversation → Message → Message → ChatDb → ChatDb
  ask_title i conv user assistant db =
      let said =
        chat (title_prompt user.content assistant.content)
          (title_params (resolve conv.model_alias)) in
      store_title now i (collect [] said.0 said.1) (other db)

  unfoldable pub title_turn : ℕ → Conversation → Option Message → Option Message → ChatDb → ChatDb
  title_turn i conv none assistant db = db
  title_turn i conv (some user) none db = db
  title_turn i conv (some user) (some assistant) db = ask_title i conv user assistant db

  -- `_generate_title`, whose exceptions the task only logs
  unfoldable pub generate_title : ℕ → ChatDb → ChatDb
  generate_title i db = elim (find_first (has_conversation_id i) db.conversations) [
    | none ↦ db
    | some conv ↦
        if is_none conv.title
        then title_turn i conv (first_of_role i is_user db) (first_of_role i is_assistant db) db
        else db
  ]
