-- ===== src/Chat/Stream/Completion.antt =====
-- When an answer is reported as whole, and what is then stored of the model's events.
use atlas_knowledge.Common.{
  ℕ, ◌≡◌, ◌⊎◌, refl, ap, inl, inr, Bool, true, false, not, ◌&&◌, List, [], ◌∷◌, ◌++◌, append_assoc,
  append-nil, Option, none, some, Bool-cases, Text, concat, concat-append, is_empty, if◌then◌else◌,
}
use mathlib.Core.Path.{subst}
use atlas_knowledge.Chat.Rows.{ChatDb, Message, ModelUsageLog, Role, UsageStatus, bump_updated_at}
use atlas_knowledge.Chat.Turn.{Request, TurnContext, prompt}
use atlas_knowledge.Chat.Saving.{
  Storage, persist_success, persist_error, persist_cancelled, assistant_message, usage_log,
  enqueue_title,
}
use atlas_knowledge.Chat.Stream.{
  Services, Reply, StopReason, StreamEvent, text_delta, tool_call, usage_info, stream_stop,
  stream_error, Ending, exhausted, closed, cancelled, raised, conclude, counted, relay, ask,
}
use atlas_knowledge.Chat.Stream.Sent.{has_done}

-- The text of the model's events up to the one that ends them.
abbrev pub spoken : List StreamEvent → Text
spoken [] = []
spoken (text_delta x ∷ evs) = x ++ spoken evs
spoken (tool_call i n a ∷ evs) = spoken evs
spoken (usage_info i o ∷ evs) = spoken evs
spoken (stream_stop r ∷ evs) = []
spoken (stream_error c m ∷ evs) = []

-- The last counts up to there, if there are any.
abbrev pub last_counts : Option (ℕ × ℕ) → List StreamEvent → Option (ℕ × ℕ)
last_counts counts [] = counts
last_counts counts (text_delta x ∷ evs) = last_counts counts evs
last_counts counts (tool_call i n a ∷ evs) = last_counts counts evs
last_counts counts (usage_info i o ∷ evs) = last_counts (some (i, o)) evs
last_counts counts (stream_stop r ∷ evs) = counts
last_counts counts (stream_error c m ∷ evs) = counts

-- The events end with a stop, or the stream is exhausted.
abbrev pub ends_well : List StreamEvent → Ending → Bool
ends_well [] exhausted = true
ends_well [] closed = false
ends_well [] cancelled = false
ends_well [] raised = false
ends_well (text_delta x ∷ evs) ending = ends_well evs ending
ends_well (tool_call i n a ∷ evs) ending = ends_well evs ending
ends_well (usage_info i o ∷ evs) ending = ends_well evs ending
ends_well (stream_stop r ∷ evs) ending = true
ends_well (stream_error c m ∷ evs) ending = false

abbrev pub first_of : Option (ℕ × ℕ) → Option ℕ
first_of none = none
first_of (some (i, o)) = some i

abbrev pub second_of : Option (ℕ × ℕ) → Option ℕ
second_of none = none
second_of (some (i, o)) = some o

module _ (v : Services) (st : Storage) (q : Request) (t : TurnContext) where
  -- The answer's row, with this text and these counts.
  abbrev pub IsAnswer : Text → Option (ℕ × ℕ) → Message → Type 0
  IsAnswer text counts m =
      (m.id ≡ t.assistant_message_id)
      × (m.conversation_id ≡ q.conversation_id)
      × (m.role ≡ Role.assistant)
      × (m.content ≡ text)
      × (m.tokens_in ≡ first_of counts)
      × (m.tokens_out ≡ second_of counts)

  abbrev pub IsBilled : Message → ModelUsageLog → Type 0
  IsBilled m u =
      (u.user_id ≡ q.user_id)
      × (u.message_id ≡ m.id)
      × (u.model ≡ t.params.model)
      × (u.tokens_in ≡ m.tokens_in)
      × (u.tokens_out ≡ m.tokens_out)
      × (u.status ≡ UsageStatus.ok_status)

  -- One answer and one usage row are added, and the title is queued for a conversation without one,
  -- if the broker takes it.
  abbrev pub Completes : Text → Option (ℕ × ℕ) → ChatDb → ChatDb → Type 0
  Completes text counts db after =
      (m : Message) × (u : ModelUsageLog) × IsAnswer text counts m
      × IsBilled m u
      × (after.messages ≡ db.messages ++ m ∷ [])
      × (after.usage ≡ db.usage ++ u ∷ [])
      × (after.title_tasks ≡ (
          if t.title_is_none && not st.queue_fails
          then db.title_tasks ++ q.conversation_id ∷ []
          else db.title_tasks))

  -- A reply to a stream that ends well or not.
  abbrev pub Completed : Bool → Text → Option (ℕ × ℕ) → ChatDb → Reply → Type 0
  Completed well text counts db r =
      (((well && not st.transaction_fails) ≡ true)
        × (has_done r.events ≡ true)
        × Completes text counts db r.db)
      ⊎ (((well && not st.transaction_fails) ≡ false)
          × (has_done r.events ≡ false)
          × (r.db.title_tasks ≡ db.title_tasks))

  counted_first : (counts : Option (ℕ × ℕ)) → (counted v counts).tokens_in ≡ first_of counts
  counted_first none = refl
  counted_first (some (i, o)) = refl

  counted_second : (counts : Option (ℕ × ℕ)) → (counted v counts).tokens_out ≡ second_of counts
  counted_second none = refl
  counted_second (some (i, o)) = refl

  -- What the title task adds to the tables.
  enqueued :
      (saved : ChatDb)
      → (if t.title_is_none then enqueue_title st q.conversation_id saved else saved)
        ≡ record saved {
          title_tasks =
              if t.title_is_none && not st.queue_fails
              then saved.title_tasks ++ q.conversation_id ∷ []
              else saved.title_tasks;
        }
  enqueued saved = elim (Bool-cases t.title_is_none) [
    | inr f ↦ rw f refl
    | inl f ↦ elim (Bool-cases st.queue_fails) [ inl g ↦ rw (f, g) refl | inr g ↦ rw (f, g) refl ]
  ]

  conclude-Completed :
      (buffer : List Text) (counts : Option (ℕ × ℕ)) (reason : StopReason) (db : ChatDb)
      → Completed true (concat buffer) counts db (conclude v st q t buffer counts reason db)
  unfolding conclude persist_success bump_updated_at assistant_message usage_log
  conclude-Completed buffer counts reason db = elim (Bool-cases st.transaction_fails) [
    | inl e ↦ rw e (inr (refl, refl, refl))
    | inr e ↦
        let n = counted v counts in
        let m = assistant_message st q t buffer false none n in
        let u = usage_log st q t n UsageStatus.ok_status none in
        rw e (
          inl (
            refl,
            refl,
            (
              m,
              u,
              (refl, refl, refl, refl, counted_first counts, counted_second counts),
              (refl, refl, refl, refl, refl, refl),
              ap (λ (d : ChatDb). d.messages) (enqueued _),
              ap (λ (d : ChatDb). d.usage) (enqueued _),
              ap (λ (d : ChatDb). d.title_tasks) (enqueued _),
            ),
          ))
  ]

  cancelled_tasks :
      (buffer : List Text) (db : ChatDb)
      → (persist_cancelled st q t buffer db).title_tasks ≡ db.title_tasks
  unfolding persist_cancelled bump_updated_at
  cancelled_tasks [] db = refl
  cancelled_tasks (b ∷ bs) db = elim (Bool-cases st.transaction_fails) [
    | inl e ↦ rw (persist_cancelled, e) refl
    | inr e ↦ rw (persist_cancelled, e) refl
  ]

  error_tasks :
      (buffer : List Text) (code : Text) (db : ChatDb)
      → (persist_error st q t buffer code db).title_tasks ≡ db.title_tasks
  unfolding persist_error bump_updated_at
  error_tasks buffer code db = elim (Bool-cases st.transaction_fails) [
    | inl e ↦ rw (persist_error, e) refl
    | inr e ↦ elim (Bool-cases (is_empty buffer)) [
      | inl k ↦ rw (persist_error, e, k) refl
      | inr k ↦ rw (persist_error, e, k) refl
    ]
  ]

  said_more :
      (buffer : List Text) (x rest : Text)
      → concat (buffer ++ x ∷ []) ++ rest ≡ concat buffer ++ (x ++ rest)
  said_more buffer x rest =
      rw (concat-append buffer (x ∷ []), append-nil x) (append_assoc (concat buffer) x rest)

  relay-Completed :
      (evs : List StreamEvent) (ending : Ending) (buffer : List Text) (counts : Option (ℕ × ℕ))
      → (db : ChatDb)
      → Completed
          (ends_well evs ending)
          (concat buffer ++ spoken evs)
          (last_counts counts evs)
          db
          (relay v st q t evs ending buffer counts db)
  unfolding relay persist_cancelled persist_error bump_updated_at
  relay-Completed [] exhausted buffer counts db =
      rw (append-nil (concat buffer)) (conclude-Completed buffer counts StopReason.end_turn db)
  relay-Completed [] closed buffer counts db = inr (refl, refl, cancelled_tasks buffer db)
  relay-Completed [] cancelled buffer counts db = inr (refl, refl, cancelled_tasks buffer db)
  relay-Completed [] raised buffer counts db = inr (refl, refl, refl)
  relay-Completed (text_delta x ∷ evs) ending buffer counts db =
      subst
        (λ text.
          Completed (ends_well evs ending) text (last_counts counts evs) db
            (relay v st q t (text_delta x ∷ evs) ending buffer counts db))
        (said_more buffer x (spoken evs)) (relay-Completed evs ending (buffer ++ x ∷ []) counts db)
  relay-Completed (tool_call i n a ∷ evs) ending buffer counts db =
      relay-Completed evs ending buffer counts db
  relay-Completed (usage_info i o ∷ evs) ending buffer counts db =
      relay-Completed evs ending buffer (some (i, o)) db
  relay-Completed (stream_stop r ∷ evs) ending buffer counts db =
      rw (append-nil (concat buffer)) (conclude-Completed buffer counts r db)
  relay-Completed (stream_error c m ∷ evs) ending buffer counts db =
      inr (refl, refl, error_tasks buffer c db)

-- The model's answer to a turn is reported as done exactly if its events end with a stop, or are
-- exhausted, and the transaction does not raise. Then one message is stored, with the text and the
-- last counts of the events up to the end, and one usage row of the user with the same counts; and a
-- title is queued exactly for a conversation without one, if the broker takes it, whose failure
-- changes nothing else. An answer that is not reported as done queues no title.
pub ask_lem :
    (v : Services) (st : Storage) (q : Request) (t : TurnContext) (db : ChatDb)
    → (let (evs, ending) = v.chat (prompt t) t.params in
        Completed v st q t
          (ends_well evs ending)
          (spoken evs)
          (last_counts none evs)
          db
          (ask v st q t db))
unfolding ask
ask_lem v st q t db =
    let answer = v.chat (prompt t) t.params in relay-Completed v st q t answer.0 answer.1 [] none db
