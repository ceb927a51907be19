-- ===== src/Chat/Turn/Laws.antt =====
-- What a prepared turn holds.
use mathlib.Core.List.{reverse, reverse-append, reverse-cons}
use mathlib.Core.Path.{subst}
use atlas_knowledge.Common.{
  ℕ, suc, ◌≡◌, refl, ap, ◌∙◌, inl, inr, Bool, true, false, List, [], ◌∷◌, ◌++◌, some, Bool-cases,
  Option-cases, map, take, keep, Outcome, ok, err, ==_refl, ◌==◌,
}
use atlas_knowledge.Errors.{AppError}
use atlas_knowledge.Chat.Rows.{
  ChatDb, Role, Message, Conversation, get_owned_conversation, add_message, clashes, list_recent,
  of_conversation,
}
use atlas_knowledge.Chat.Turn.{
  Request, ChatSettings, TurnContext, prepare_turn, new_turn, user_message, sources_owned,
  as_chat_message,
}

abbrev pub with_message : Message → ChatDb → ChatDb
with_message m db = record db { messages = db.messages ++ m ∷ [] }

-- What `prepare_turn` answers: an error without a write, or the turn over the tables with the
-- user's message at the end.
abbrev pub Prepared :
    ChatSettings → ℕ → ℕ → Request → ChatDb → Outcome AppError (TurnContext × ChatDb) → Type 0
Prepared s u a q db (err e) = Unit
Prepared s u a q db (ok (t, db')) =
    (db' ≡ with_message (user_message u q) db)
    × ((conv : Conversation) × (get_owned_conversation q.user_id q.conversation_id db ≡ some conv)
        × (t ≡ new_turn s u a q conv db'))
    × (sources_owned q.user_id q.source_ids db ≡ true)
    × (clashes (user_message u q) db ≡ false)

prepare_turn-Prepared :
    (s : ChatSettings) (u a : ℕ) (q : Request) (db : ChatDb)
    → Prepared s u a q db (prepare_turn s u a q db)
unfolding prepare_turn add_message
prepare_turn-Prepared s u a q db =
    elim (Option-cases (get_owned_conversation q.user_id q.conversation_id db)) [
      | inl e ↦ simp (prepare_turn, e) tt
      | inr (conv, e) ↦ elim (Bool-cases (sources_owned q.user_id q.source_ids db)) [
        | inr f ↦ simp (prepare_turn, e, f) tt
        | inl f ↦ elim (Bool-cases (clashes (user_message u q) db)) [
          | inl g ↦ simp (prepare_turn, add_message, e, f, g) tt
          | inr g ↦ simp (prepare_turn, add_message, e, f, g) (refl, (conv, refl, refl), refl, refl)
        ]
      ]
    ]

map_append :
    (xs ys : List Message)
    → map as_chat_message (xs ++ ys) ≡ map as_chat_message xs ++ map as_chat_message ys
map_append [] ys = refl
map_append (x ∷ xs) ys = ap (λ zs. as_chat_message x ∷ zs) (map_append xs ys)

pub prepare_turn-ok :
    (s : ChatSettings) (u a : ℕ) (q : Request) (db : ChatDb) {t : TurnContext} {db' : ChatDb}
    → prepare_turn s u a q db ≡ ok (t, db')
    → Prepared s u a q db (ok (t, db'))
prepare_turn-ok s u a q db h = subst (Prepared s u a q db) h (prepare_turn-Prepared s u a q db)

module _ {A : Type 0} (p : A → Bool) where
  keep-concat : (xs : List A) (x : A) → p x ≡ true → keep p (xs ++ x ∷ []) ≡ keep p xs ++ x ∷ []
  keep-concat [] x h = rw h refl
  keep-concat (y ∷ xs) x h = elim (Bool-cases (p y)) [
    | inl e ↦ rw (e, keep-concat xs x h) refl
    | inr e ↦ rw (e, keep-concat xs x h) refl
  ]

-- With room for one message, the latest message is the last of the recent ones.
list_recent-concat :
    (i limit : ℕ) (m : Message) (db : ChatDb)
    → m.conversation_id ≡ i
    → list_recent i (suc limit) (with_message m db) ≡ list_recent i limit db ++ m ∷ []
unfolding list_recent
list_recent-concat i limit m db e =
    ap (λ xs. reverse (take (suc limit) (reverse xs)))
      (keep-concat (of_conversation i) db.messages m
        (subst (λ k. (m.conversation_id == k) ≡ true) e (==_refl m.conversation_id)))
    ∙ ap (λ xs. reverse (take (suc limit) xs))
        (reverse-append (keep (of_conversation i) db.messages) (m ∷ []))
    ∙ reverse-cons m (take limit (reverse (keep (of_conversation i) db.messages)))

-- A prepared turn belongs to a conversation and to sources of the user, and its message repeats no
-- client id of the conversation; the one write is the user's message; and with room for one message
-- the history ends with it, after the latest messages of the conversation before.
pub prepare_turn_lem :
    (s : ChatSettings) (u a : ℕ) (q : Request) (db : ChatDb) (limit : ℕ)
    → {t : TurnContext} {db' : ChatDb} → s.chat_history_max_messages ≡ suc limit
    → prepare_turn s u a q db ≡ ok (t, db')
    → ((conv : Conversation) × (get_owned_conversation q.user_id q.conversation_id db ≡ some conv)
        × (t.params ≡ s.resolve conv.model_alias))
      × (sources_owned q.user_id q.source_ids db ≡ true)
      × (clashes (user_message u q) db ≡ false)
      × (db' ≡ with_message (user_message u q) db)
      × (t.history
          ≡ map as_chat_message (list_recent q.conversation_id limit db)
            ++ record { role = Role.user; content = q.content } ∷ [])
unfolding new_turn user_message
prepare_turn_lem s u a q db limit {t} {db'} room h =
    let (same, (conv, owned, built), sources, fresh) = prepare_turn-ok s u a q db h in
    (
      (conv, owned, ap (λ x. x.params) built),
      sources,
      fresh,
      same,
      ap (λ x. x.history) built
          ∙ ap (λ n. map as_chat_message (list_recent q.conversation_id n db')) room
          ∙ ap (λ w. map as_chat_message (list_recent q.conversation_id (suc limit) w)) same
          ∙ ap (map as_chat_message)
              (list_recent-concat q.conversation_id limit (user_message u q) db refl)
          ∙ map_append (list_recent q.conversation_id limit db) (user_message u q ∷ []),
    )
