-- ===== src/Chat/Pages/Cited.antt =====
-- What a page of messages shows.
use atlas_knowledge.Common.{
  Option, some, Option-cases, Text, Outcome, ok, err, ◌⊎◌, arith, ◌≡◌, refl, sym, ap, ◌∙◌, inl, inr,
  ℕ, true, false, List, [], ◌∷◌, ◌++◌, append_assoc, append-nil, Bool-cases, ==_iff, ==_refl, ◌==◌,
  if◌then◌else◌, keep, any, map, All, Occurs,
}
use atlas_knowledge.Common.Sorting.{sorted_by}
use atlas_knowledge.Common.Stable.{keep-sorted_by, sorted_by_same}
use mathlib.Core.Path.{subst}
use atlas_knowledge.Errors.{AppError, conversation_not_found}
use atlas_knowledge.Paging.{Codec, list_rows}
use atlas_knowledge.Chat.Conversations.{get_conversation}
use atlas_knowledge.Chat.Rows.{
  ChatDb, Conversation, Message, MessageCitation, get_owned_conversation,
}
use atlas_knowledge.Chat.Pages.{
  MessagePage, with_citations, list_messages, in_conversation, message_key, cites_for, cites_any,
  message_of, rank_of, add_to_group, group_citations, list_for_messages, citations_of,
}

-- What a new citation adds to the group of a message.
abbrev added : ℕ → MessageCitation → List MessageCitation
added i c = if cites_for i c then c ∷ [] else []

citations_of-add_to_group :
    (i : ℕ) (c : MessageCitation) (groups : List (ℕ × List MessageCitation))
    → citations_of i (add_to_group c groups) ≡ citations_of i groups ++ added i c
unfolding add_to_group
citations_of-add_to_group i c [] = ground arith
citations_of-add_to_group i c ((j, cs) ∷ groups) =
    ground (
      arith,
      citations_of-add_to_group i c groups,
      append-nil cs,
      append-nil (citations_of i groups),
    )

citations_of-group_citations :
    (i : ℕ) (groups : List (ℕ × List MessageCitation)) (cs : List MessageCitation)
    → citations_of i (group_citations groups cs) ≡ citations_of i groups ++ keep (cites_for i) cs
unfolding group_citations
citations_of-group_citations i groups [] = sym (append-nil (citations_of i groups))
citations_of-group_citations i groups (c ∷ cs) =
    citations_of-group_citations i (add_to_group c groups) cs
    ∙ (ap (λ x. x ++ keep (cites_for i) cs) (citations_of-add_to_group i c groups)
        ∙ joined (Bool-cases (cites_for i c)))
  where
    joined :
        (cites_for i c ≡ true) ⊎ (cites_for i c ≡ false)
        → (citations_of i groups ++ added i c) ++ keep (cites_for i) cs
          ≡ citations_of i groups ++ keep (cites_for i) (c ∷ cs)
    joined (inl e) = rw e (append_assoc (citations_of i groups) (c ∷ []) (keep (cites_for i) cs))
    joined (inr e) =
        rw e (ap (λ x. x ++ keep (cites_for i) cs) (append-nil (citations_of i groups)))

any_of_Occurs : (i : ℕ) (ids : List ℕ) → Occurs i ids → any (λ j. i == j) ids ≡ true
any_of_Occurs i [] o = elim o [ ]
any_of_Occurs i (j ∷ ids) (inl e) = rw (e, ==_refl j) refl
any_of_Occurs i (j ∷ ids) (inr o) = rw (any_of_Occurs i ids o) (ground arith)

-- The citations of one of the messages are among those of the page.
keep-cites_any :
    (i : ℕ) (ids : List ℕ) (cs : List MessageCitation)
    → Occurs i ids
    → keep (cites_for i) (keep (cites_any ids) cs) ≡ keep (cites_for i) cs
keep-cites_any i ids [] o = refl
keep-cites_any i ids (c ∷ cs) o = elim (Bool-cases (cites_for i c)) [
  | inl e ↦
      let same : c.message_id ≡ i = (==_iff c.message_id i).0 e in
      let taken : cites_any ids c ≡ true = simp same (any_of_Occurs i ids o) in
      rw (taken, e) (ap (λ x. c ∷ x) (keep-cites_any i ids cs o))
  | inr e ↦ elim (Bool-cases (cites_any ids c)) [
    | inl k ↦ rw (k, e) (keep-cites_any i ids cs o)
    | inr k ↦ rw (k, e) (keep-cites_any i ids cs o)
  ]
]

keep-All : (i : ℕ) (cs : List MessageCitation) → All (λ c. message_of c ≡ i) (keep (cites_for i) cs)
keep-All i [] = tt
keep-All i (c ∷ cs) = elim (Bool-cases (cites_for i c)) [
  | inl e ↦ rw e ((==_iff c.message_id i).0 e, keep-All i cs)
  | inr e ↦ rw e (keep-All i cs)
]

list_for_messages_lem :
    (ids : List ℕ) (db : ChatDb) (i : ℕ)
    → Occurs i ids
    → citations_of i (list_for_messages ids db)
      ≡ sorted_by rank_of (keep (cites_for i) db.citations)
unfolding list_for_messages
list_for_messages_lem [] db i o = elim o [ ]
list_for_messages_lem (j ∷ ids) db i o =
    let shown = keep (cites_any (j ∷ ids)) db.citations in
    let by_rank = sorted_by rank_of shown in
    citations_of-group_citations i [] (sorted_by message_of by_rank)
    ∙ (keep-sorted_by message_of (cites_for i) by_rank
        ∙ (sorted_by_same message_of i (keep (cites_for i) by_rank) (keep-All i by_rank)
            ∙ (keep-sorted_by rank_of (cites_for i) shown
                ∙ ap (sorted_by rank_of) (keep-cites_any i (j ∷ ids) db.citations o))))

-- What a page says of the conversation: its messages are a page of those of the conversation, and
-- each comes with its citations by rank.
abbrev pub ShowsPage : Codec → (Message → ℕ) → ℕ → ℕ → Option Text → ChatDb → MessagePage → Type 0
ShowsPage codec created_at i limit cursor db page =
    (list_rows codec (message_key created_at) (keep (in_conversation i) db.messages) limit cursor
      ≡ ok (page.items, page.next_cursor))
    × ((m : Message)
        → Occurs m page.items
        → citations_of m.id page.citations ≡ sorted_by rank_of (keep (cites_for m.id) db.citations))

Occurs-map : (m : Message) (ms : List Message) → Occurs m ms → Occurs m.id (map (λ x. x.id) ms)
Occurs-map m [] o = elim o [ ]
Occurs-map m (x ∷ ms) (inl e) = inl (ap (λ (y : Message). y.id) e)
Occurs-map m (x ∷ ms) (inr o) = inr (Occurs-map m ms o)

list_owned-ShowsPage :
    (codec : Codec) (created_at : Message → ℕ) (i limit : ℕ) (cursor : Option Text) (db : ChatDb)
    → (o : Outcome AppError (List Message × Option Text))
    → list_rows codec (message_key created_at) (keep (in_conversation i) db.messages) limit cursor
      ≡ o
    → {page : MessagePage} → elim o [ err e ↦ err e | ok p ↦ ok (with_citations db p) ] ≡ ok page
    → ShowsPage codec created_at i limit cursor db page
list_owned-ShowsPage codec created_at i limit cursor db (err e) l h = cc
list_owned-ShowsPage codec created_at i limit cursor db (ok (items, next)) l {page} h =
    let same : with_citations db (items, next) ≡ page = cc h in
    subst (ShowsPage codec created_at i limit cursor db) same
      (l, λ m o. list_for_messages_lem (map (λ x. x.id) items) db m.id (Occurs-map m items o))

-- Messages are listed only of a conversation of the user; the page is the page of the
-- conversation's own messages at the cursor, and the citations of each message on it are all its
-- citations, in the order of their ranks.
pub list_messages_lem :
    (codec : Codec) (created_at : Message → ℕ) (user_id conversation_id limit : ℕ)
    → (cursor : Option Text) (db : ChatDb) {page : MessagePage}
    → list_messages codec created_at user_id conversation_id limit cursor db ≡ ok page
    → ((c : Conversation) × (get_owned_conversation user_id conversation_id db ≡ some c))
      × ShowsPage codec created_at conversation_id limit cursor db page
unfolding list_messages get_conversation
list_messages_lem codec created_at user_id i limit cursor db {page} h =
    elim (Option-cases (get_owned_conversation user_id i db)) [
      | inl e ↦
          let bad : err conversation_not_found ≡ ok page =
            rw (e, list_messages, get_conversation) at h in
          cc bad
      | inr (c, e) ↦ (
        (c, e),
        list_owned-ShowsPage codec created_at i limit cursor db _ refl
            (rw (e, list_messages, get_conversation) at h),
      )
    ]
