-- ===== src/Chat/Stream/Sent.antt =====
-- What one transaction stores of the texts sent so far.
use mathlib.Core.Bool.{true≢false}
use atlas_knowledge.Common.{
  ◌≡◌, refl, sym, ap, ◌∙◌, ◌⊎◌, inl, inr, Bool, true, false, List, [], ◌∷◌, ◌++◌, append_assoc,
  append-nil, Option, none, some, Bool-cases, Text, concat,
}
use atlas_knowledge.Chat.Rows.{ChatDb, Message, MessageCitation, bump_updated_at}
use atlas_knowledge.Chat.Turn.{Request, TurnContext, content_meta}
use atlas_knowledge.Chat.Saving.{
  Storage, Measured, unmeasured, persist_success, persist_error, persist_cancelled,
  assistant_message, citation_rows,
}
use atlas_knowledge.Chat.Stream.{
  Event, Finish, Reply, CitationItem, citations, delta, done, end_with, emit,
}

-- The texts of the `delta` events, the items of the `citations` events, and whether one is `done`.
abbrev pub deltas : List Event → List Text
deltas [] = []
deltas (delta x ∷ es) = x ∷ deltas es
deltas (_ ∷ es) = deltas es

abbrev pub cited : List Event → List CitationItem
cited [] = []
cited (citations items ∷ es) = items ++ cited es
cited (_ ∷ es) = cited es

abbrev pub has_done : List Event → Bool
has_done [] = false
has_done (done i r n ∷ es) = true
has_done (_ ∷ es) = has_done es

-- The event's view of a stored citation.
abbrev pub as_item : MessageCitation → CitationItem
as_item r = record {
  rank = r.rank;
  chunk_id = r.chunk_id;
  document_id = r.document_id;
  filename = r.filename;
  snippet = r.snippet;
  score = r.score;
}

-- One answer `m` was stored with the rows of the turn; it has the texts sent, `sent` before these
-- events, and it is whole when the client was told so.
abbrev pub Stored : TurnContext → ChatDb → List Text → List Event → ChatDb → Message → Type 0
Stored t db sent events db' m =
    (db'.messages ≡ db.messages ++ m ∷ [])
    × (db'.citations ≡ db.citations ++ citation_rows t)
    × (m.id ≡ t.assistant_message_id)
    × (m.content ≡ concat (sent ++ deltas events))
    × (has_done events ≡ true → m.content_meta.is_partial ≡ false)

-- No answer and no citation was stored, and the client was not told that one was.
abbrev pub Untouched : ChatDb → List Event → ChatDb → Type 0
Untouched db events db' =
    (db'.messages ≡ db.messages) × (db'.citations ≡ db.citations) × (has_done events ≡ false)

abbrev pub KeepsWhatIsSent : TurnContext → ChatDb → List Text → Reply → Type 0
KeepsWhatIsSent t db sent r =
    ((m : Message) × Stored t db sent r.events r.db m) ⊎ Untouched db r.events r.db

-- A transaction added one answer with the turn's citations.
abbrev AddsAnswer : TurnContext → ChatDb → ChatDb → Message → Type 0
AddsAnswer t db db' m =
    (db'.messages ≡ db.messages ++ m ∷ []) × (db'.citations ≡ db.citations ++ citation_rows t)

abbrev AddsNone : ChatDb → ChatDb → Type 0
AddsNone db db' = (db'.messages ≡ db.messages) × (db'.citations ≡ db.citations)

module _ (st : Storage) (q : Request) where
  persist_success_cases :
      (t : TurnContext) (buffer : List Text) (n : Measured) (db : ChatDb)
      → AddsAnswer t db
          (persist_success st q t buffer n db).1
          (assistant_message st q t buffer false none n)
        ⊎ (AddsNone db (persist_success st q t buffer n db).1
            × ((persist_success st q t buffer n db).0 ≡ false))
  unfolding persist_success bump_updated_at
  persist_success_cases t buffer n db = elim (Bool-cases st.transaction_fails) [
    | inl e ↦ simp e (inr ((refl, refl), refl))
    | inr e ↦ elim (Bool-cases t.title_is_none) [
      | inr f ↦ simp (e, f) (inl (refl, refl))
      | inl f ↦ elim (Bool-cases st.queue_fails) [
        | inl g ↦ simp (e, f, g) (inl (refl, refl))
        | inr g ↦ simp (e, f, g) (inl (refl, refl))
      ]
    ]
  ]

  pub persist_error_cases :
      (t : TurnContext) (buffer : List Text) (code : Text) (db : ChatDb)
      → AddsAnswer t db
          (persist_error st q t buffer code db)
          (assistant_message st q t buffer true (some code) unmeasured)
        ⊎ AddsNone db (persist_error st q t buffer code db)
  unfolding persist_error bump_updated_at
  persist_error_cases t [] code db = elim (Bool-cases st.transaction_fails) [
    | inl e ↦ simp e (inr (refl, refl))
    | inr e ↦ simp e (inr (refl, refl))
  ]
  persist_error_cases t (b ∷ bs) code db = elim (Bool-cases st.transaction_fails) [
    | inl e ↦ simp e (inr (refl, refl))
    | inr e ↦ simp e (inl (refl, refl))
  ]

  pub persist_cancelled_cases :
      (t : TurnContext) (buffer : List Text) (db : ChatDb)
      → AddsAnswer t db
          (persist_cancelled st q t buffer db)
          (assistant_message st q t buffer true none unmeasured)
        ⊎ AddsNone db (persist_cancelled st q t buffer db)
  unfolding persist_cancelled bump_updated_at
  persist_cancelled_cases t [] db = inr (refl, refl)
  persist_cancelled_cases t (b ∷ bs) db = elim (Bool-cases st.transaction_fails) [
    | inl e ↦ simp e (inr (refl, refl))
    | inr e ↦ simp e (inl (refl, refl))
  ]

  -- The two ways of a reply that is over: with its answer stored, or with none.
  pub keeps_partial :
      (t : TurnContext) (buffer : List Text) (code : Option Text) (db db' : ChatDb)
      (es : List Event) (f : Finish)
      → deltas es ≡ []
      → has_done es ≡ false
      → AddsAnswer t db db' (assistant_message st q t buffer true code unmeasured) ⊎ AddsNone db db'
      → KeepsWhatIsSent t db buffer (record { events = es; finish = f; db = db' })
  unfolding assistant_message
  keeps_partial t buffer code db db' es f d n (inl (ms, cs)) =
      inl (_, (ms, cs, refl, simp (d, append-nil), λ told. elim (true≢false (sym told ∙ n)) [ ]))
  keeps_partial t buffer code db db' es f d n (inr (ms, cs)) = inr (ms, cs, n)

  pub keeps_whole :
      (t : TurnContext) (buffer : List Text) (n : Measured) (db : ChatDb) (e : Event)
      → deltas (e ∷ []) ≡ []
      → (has_done (e ∷ []) ≡ false) ⊎ ((persist_success st q t buffer n db).0 ≡ true)
      → KeepsWhatIsSent t db buffer (end_with e (persist_success st q t buffer n db).1)
  unfolding assistant_message content_meta
  keeps_whole t buffer n db e d told = elim (persist_success_cases t buffer n db) [
    | inl (ms, cs) ↦ inl (_, (ms, cs, refl, simp (d, append-nil), λ _. refl))
    | inr ((ms, cs), failed) ↦ elim told [
      | inl untold ↦ inr (ms, cs, untold)
      | inr succeeded ↦ elim (true≢false (sym succeeded ∙ failed)) [ ]
    ]
  ]

pub keeps-delta :
    (t : TurnContext) (x : Text) (sent : List Text) (db : ChatDb) (r : Reply)
    → KeepsWhatIsSent t db (sent ++ x ∷ []) r
    → KeepsWhatIsSent t db sent (emit (delta x) r)
keeps-delta t x sent db r (inl (m, (ms, cs, i, c, w))) =
    inl (m, (ms, cs, i, c ∙ ap concat (append_assoc sent (x ∷ []) (deltas r.events)), w))
keeps-delta t x sent db r (inr untouched) = inr untouched
