-- ===== src/Chat/Stream/Grammar.antt =====
-- The order of the events of `stream_reply`, as a state machine on the events.
use mathlib.Core.Path.{subst}
use atlas_knowledge.Common.{
  sym, ℕ, ◌≡◌, refl, ◌⊎◌, inl, inr, List, [], ◌∷◌, ◌++◌, Option, none, some, Bool-cases, is_empty,
  Text, ok,
}
use atlas_knowledge.Chat.Stream.Cases.{answer_cases, conclude_cases, stream_reply-ok}
use atlas_knowledge.Chat.Rows.{ChatDb}
use atlas_knowledge.Chat.Turn.{Request, ChatSettings, TurnContext, prompt}
use atlas_knowledge.Chat.Saving.{Storage, Measured, persist_success, persist_error}
use atlas_knowledge.Chat.Stream.{
  StreamEvent, Ending, Event, Finish, Reply, Services, conclude, relay, ask, with_context,
  cite_and_ask, answer, stream_reply, exhausted, closed, cancelled, raised, text_delta, tool_call,
  usage_info, stream_stop, stream_error, StopReason, FinishReason, counted, end_with, message_start,
  citations, delta, done, error, returned, interrupted,
}

-- Where a reply stands: before its first event, after `message_start`, after `citations` or a
-- `delta`, or after `done` or `error`.
pub data Phase : Type 0 where
  unstarted started streaming ended : Phase

abbrev pub next : Phase → Event → Option Phase
next unstarted (message_start u a) = some started
next started (citations items) = some streaming
next started (delta x) = some streaming
next started (done i r n) = some ended
next started (error c m t) = some ended
next streaming (delta x) = some streaming
next streaming (done i r n) = some ended
next streaming (error c m t) = some ended
next _ _ = none

abbrev pub phase_after : Phase → List Event → Option Phase
phase_after p [] = some p
phase_after p (e ∷ es) = elim (next p e) [ none ↦ none | some p' ↦ phase_after p' es ]

-- An open phase is one in which a `delta` or the last event may come.
abbrev IsOpen : Phase → Type 0
IsOpen unstarted = ⊥
IsOpen started = Unit
IsOpen streaming = Unit
IsOpen ended = ⊥

-- A reply that returned has its last event, and one that was interrupted may go on.
abbrev pub FitsFinish : Finish → Phase → Type 0
FitsFinish returned p = p ≡ ended
FitsFinish interrupted p = (p ≡ started) ⊎ (p ≡ streaming)

abbrev pub FollowsFrom : Phase → Reply → Type 0
FollowsFrom p r = (p' : Phase) × (phase_after p r.events ≡ some p') × FitsFinish r.finish p'

open-fits : (p : Phase) → IsOpen p → FitsFinish Finish.interrupted p
open-fits unstarted o = elim o [ ]
open-fits started o = inl refl
open-fits streaming o = inr refl
open-fits ended o = elim o [ ]

done-follows :
    (p : Phase)
    → IsOpen p
    → (i : ℕ) (r : FinishReason) (n : Measured) (db : ChatDb)
    → FollowsFrom p (end_with (done i r n) db)
done-follows unstarted o i r n db = elim o [ ]
done-follows started o i r n db = (ended, refl, refl)
done-follows streaming o i r n db = (ended, refl, refl)
done-follows ended o i r n db = elim o [ ]

error-follows :
    (p : Phase)
    → IsOpen p
    → (code message : Text) (trace : ℕ) (db : ChatDb)
    → FollowsFrom p (end_with (error code message trace) db)
error-follows unstarted o c m t db = elim o [ ]
error-follows started o c m t db = (ended, refl, refl)
error-follows streaming o c m t db = (ended, refl, refl)
error-follows ended o c m t db = elim o [ ]

module _ (v : Services) (st : Storage) (q : Request) where
  conclude-follows :
      (p : Phase)
      → IsOpen p
      → (t : TurnContext) (buffer : List Text) (usage : Option (ℕ × ℕ)) (reason : StopReason)
        (db : ChatDb)
      → FollowsFrom p (conclude v st q t buffer usage reason db)
  conclude-follows p o t buffer usage reason db =
      conclude_cases v st q (FollowsFrom p) t buffer usage reason db
        (λ e. done-follows p o _ _ _ (persist_success st q t buffer (counted v usage) db).1)
        (λ e. error-follows p o _ _ _ (persist_success st q t buffer (counted v usage) db).1)

  relay-follows :
      (p : Phase)
      → IsOpen p
      → (t : TurnContext) (evs : List StreamEvent) (ending : Ending) (buffer : List Text)
        (usage : Option (ℕ × ℕ)) (db : ChatDb)
      → FollowsFrom p (relay v st q t evs ending buffer usage db)
  unfolding relay
  relay-follows p o t [] exhausted buffer usage db = conclude-follows p o t buffer usage _ db
  relay-follows p o t [] closed buffer usage db = (p, refl, open-fits p o)
  relay-follows p o t [] cancelled buffer usage db = (p, refl, open-fits p o)
  relay-follows p o t [] raised buffer usage db = (p, refl, open-fits p o)
  relay-follows started o t (text_delta x ∷ evs) ending buffer usage db =
      relay-follows streaming tt t evs ending (buffer ++ x ∷ []) usage db
  relay-follows streaming o t (text_delta x ∷ evs) ending buffer usage db =
      relay-follows streaming tt t evs ending (buffer ++ x ∷ []) usage db
  relay-follows unstarted o t (text_delta x ∷ evs) ending buffer usage db = elim o [ ]
  relay-follows ended o t (text_delta x ∷ evs) ending buffer usage db = elim o [ ]
  relay-follows p o t (tool_call i n a ∷ evs) ending buffer usage db =
      relay-follows p o t evs ending buffer usage db
  relay-follows p o t (usage_info i n ∷ evs) ending buffer usage db =
      relay-follows p o t evs ending buffer (some (i, n)) db
  relay-follows p o t (stream_error c m ∷ evs) ending buffer usage db =
      error-follows p o c m q.trace_id (persist_error st q t buffer c db)
  relay-follows p o t (stream_stop reason ∷ evs) ending buffer usage db =
      conclude-follows p o t buffer usage reason db

  ask-follows :
      (p : Phase) → IsOpen p → (t : TurnContext) (db : ChatDb) → FollowsFrom p (ask v st q t db)
  unfolding ask
  ask-follows p o t db =
      relay-follows p o t (v.chat (prompt t) t.params).0 (v.chat (prompt t) t.params).1 [] none db

  cite_and_ask-follows :
      (t : TurnContext) (db : ChatDb) → FollowsFrom started (cite_and_ask v st q t db)
  unfolding cite_and_ask
  cite_and_ask-follows t db = elim (Bool-cases (is_empty t.citations)) [
    | inl e ↦ rw e (ask-follows started tt t db)
    | inr e ↦ rw e (ask-follows streaming tt t db)
  ]

  answer-follows :
      (s : ChatSettings) (t : TurnContext) (db : ChatDb)
      → FollowsFrom started (answer v st q s t db)
  answer-follows s t db =
      answer_cases v st q (FollowsFrom started) s t db (λ _. ask-follows started tt t db)
        (λ c m. error-follows started tt c m q.trace_id (persist_error st q t [] c db))
        (λ chunks _. cite_and_ask-follows (with_context v st q s t chunks) db)

  -- A reply starts with `message_start`, then has at most one `citations`, then any number of
  -- `delta`, and exactly one `done` or `error`, last, when it returned; when an exception goes
  -- through the generator it has neither.
  pub stream_reply_order :
      (s : ChatSettings) (user_message_id assistant_message_id : ℕ) (db : ChatDb) {r : Reply}
      → stream_reply v st q s user_message_id assistant_message_id db ≡ ok r
      → FollowsFrom unstarted r
  stream_reply_order s u a db {r} h =
      let (t, db', p, e) = stream_reply-ok v st q s u a db h in
      subst (FollowsFrom unstarted) (sym e) (answer-follows s t db')
