-- ===== src/Chat/Conversations/Isolation.antt =====
-- What a rename and a delete leave alone.
use mathlib.Core.Path.{subst}
use atlas_knowledge.Common.{
  ℕ, ◌≡◌, refl, sym, ap, ◌∙◌, ◌⊎◌, inl, inr, Bool, true, false, not, List, [], ◌∷◌, none, ◌==◌,
  Bool-cases, Option-cases, arith, keep, map, find_first, find_first_passes, Text, ok, err,
}
use atlas_knowledge.Errors.{conversation_not_found}
use atlas_knowledge.Chat.Rows.{
  Conversation, Message, ChatDb, get_owned_conversation, owns_conversation, of_conversation,
}
use atlas_knowledge.Chat.Conversations.{
  get_conversation, renamed, rename_row, rename, delete_conversation_rows, delete_conversation,
}

abbrev pub has_conversation_id : ℕ → Conversation → Bool
has_conversation_id i c = c.id == i

module _ (i j : ℕ) (n : (i == j) ≡ false) where
  find-renamed :
      (now : ℕ) (title : Text) (cs : List Conversation)
      → find_first (has_conversation_id j) (map (rename_row now i title) cs)
        ≡ find_first (has_conversation_id j) cs
  find-renamed now title [] = refl
  find-renamed now title (c ∷ cs) = elim (Bool-cases (c.id == i)) [
    | inl p ↦
        let away : (c.id == j) ≡ false = ground arith in rw (p, away) (find-renamed now title cs)
    | inr p ↦ elim (Bool-cases (c.id == j)) [
      | inl q ↦ rw (p, q)
      | inr q ↦ rw (p, q) (find-renamed now title cs)
    ]
  ]

  find-deleted :
      (cs : List Conversation)
      → find_first (has_conversation_id j) (keep (λ c. not (c.id == i)) cs)
        ≡ find_first (has_conversation_id j) cs
  find-deleted [] = refl
  find-deleted (c ∷ cs) = elim (Bool-cases (c.id == i)) [
    | inl p ↦ let away : (c.id == j) ≡ false = ground arith in rw (p, away) (find-deleted cs)
    | inr p ↦ elim (Bool-cases (c.id == j)) [
      | inl q ↦ rw (p, q)
      | inr q ↦ rw (p, q) (find-deleted cs)
    ]
  ]

  messages-kept :
      (ms : List Message)
      → keep (of_conversation j) (keep (λ m. not (of_conversation i m)) ms)
        ≡ keep (of_conversation j) ms
  messages-kept [] = refl
  messages-kept (m ∷ ms) = elim (Bool-cases (m.conversation_id == i)) [
    | inl p ↦
        let away : (m.conversation_id == j) ≡ false = ground arith in
        rw (p, away) (messages-kept ms)
    | inr p ↦ elim (Bool-cases (m.conversation_id == j)) [
      | inl q ↦ rw (p, q) (ap (λ r. m ∷ r) (messages-kept ms))
      | inr q ↦ rw (p, q) (messages-kept ms)
    ]
  ]

messages-gone :
    (i : ℕ) (ms : List Message)
    → keep (of_conversation i) (keep (λ m. not (of_conversation i m)) ms) ≡ []
messages-gone i [] = refl
messages-gone i (m ∷ ms) = elim (Bool-cases (m.conversation_id == i)) [
  | inl p ↦ rw p (messages-gone i ms)
  | inr p ↦ rw (p, p) (messages-gone i ms)
]

find-gone :
    (i : ℕ) (cs : List Conversation)
    → find_first (has_conversation_id i) (keep (λ c. not (c.id == i)) cs) ≡ none
find-gone i [] = refl
find-gone i (c ∷ cs) = elim (Bool-cases (c.id == i)) [
  | inl p ↦ rw p (find-gone i cs)
  | inr p ↦ rw (p, p) (find-gone i cs)
]

-- After a rename the conversation `j` and all messages are as before.
abbrev pub RenameSpares : ℕ → ChatDb → ChatDb → Type 0
RenameSpares j db db' =
    (find_first (has_conversation_id j) db'.conversations
      ≡ find_first (has_conversation_id j) db.conversations)
    × (db'.messages ≡ db.messages)

-- After a delete the conversation `i` is gone with its messages, and the conversation `j`, its
-- messages and all usage logs are as before.
abbrev pub DeleteSpares : ℕ → ℕ → ChatDb → ChatDb → Type 0
DeleteSpares i j db db' =
    (find_first (has_conversation_id i) db'.conversations ≡ none)
    × (keep (of_conversation i) db'.messages ≡ [])
    × (find_first (has_conversation_id j) db'.conversations
        ≡ find_first (has_conversation_id j) db.conversations)
    × (keep (of_conversation j) db'.messages ≡ keep (of_conversation j) db.messages)
    × (db'.usage ≡ db.usage)

-- For two different ids `i` and `j`: a rename and a delete of a conversation `i` that is not the
-- user's are both refused and write nothing. Otherwise both succeed: the rename leaves the
-- conversation `j` and all messages as they were, and the delete takes the conversation `i` with
-- its messages and leaves the conversation `j` with its messages, and all usage logs.
pub rename-delete_lem :
    (now user_id i j : ℕ) (title : Text) (db : ChatDb)
    → (i == j) ≡ false
    → ((get_owned_conversation user_id i db ≡ none)
        × (rename now user_id i title db ≡ (err conversation_not_found, db))
        × (delete_conversation user_id i db ≡ (err conversation_not_found, db)))
      ⊎ (((conv : Conversation) × ((rename now user_id i title db).0 ≡ ok conv))
          × RenameSpares j db (rename now user_id i title db).1
          × ((delete_conversation user_id i db).0 ≡ ok tt)
          × DeleteSpares i j db (delete_conversation user_id i db).1)
unfolding get_conversation rename delete_conversation delete_conversation_rows
rename-delete_lem now user_id i j title db n =
    elim (Option-cases (get_owned_conversation user_id i db)) [
      | inl e ↦ rw (rename, delete_conversation, get_conversation, e) (inl (refl, refl, refl))
      | inr (conv, e) ↦
          let own : owns_conversation user_id i conv ≡ true =
            find_first_passes (owns_conversation user_id i) db.conversations e in
          let same : conv.id ≡ i = ground arith in
          rw (rename, delete_conversation, get_conversation, e)
            (inr (
              (renamed now title conv, refl),
              (
                ap
                      (λ k.
                        find_first (has_conversation_id j)
                          (map (rename_row now k title) db.conversations))
                      same
                    ∙ find-renamed i j n now title db.conversations,
                refl,
              ),
              refl,
              subst (λ k. DeleteSpares i j db (delete_conversation_rows k db)) (sym same)
                  (
                    find-gone i db.conversations,
                    messages-gone i db.messages,
                    find-deleted i j n db.conversations,
                    messages-kept i j n db.messages,
                    refl,
                  ),
            ))
    ]
