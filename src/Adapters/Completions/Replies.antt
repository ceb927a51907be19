-- ===== src/Adapters/Completions/Replies.antt =====
-- The adapter as the model of `stream_reply`: what a whole reply says of the response behind it.
use mathlib.Core.Bool.{true≢false}
use mathlib.Core.Path.{subst}
use atlas_knowledge.Common.{
  is_empty, ℕ, ◌<◌, ◌≡◌, ◌⊎◌, refl, sym, ap, ◌∙◌, Bool, true, false, List, [], ◌∷◌, ◌++◌,
  append-nil, Option, none, some, inl, inr, Bool-cases, Option-cases, Text, codes, text_eq, leb,
  leb-false→lt, Outcome, ok, err, any,
}
use atlas_knowledge.Chat.Rows.{ChatDb, RetrievedChunk}
use atlas_knowledge.Chat.Turn.{Request, ChatSettings, TurnContext, prompt, prepare_turn}
use atlas_knowledge.Chat.Saving.{Storage}
use atlas_knowledge.Chat.Stream.{
  StreamEvent, text_delta, tool_call, usage_info, stream_stop, stream_error, Ending, exhausted,
  closed, cancelled, raised, Services, Reply, relay, ask, stream_reply, cite_and_ask, with_context,
}
use atlas_knowledge.Chat.Stream.Cases.{Finds, answer_cases, stream_reply-ok}
use atlas_knowledge.Chat.Stream.Sent.{has_done}
use atlas_knowledge.Adapters.Json.{Json}
use atlas_knowledge.Adapters.Http.{
  Fault, timed_out, http_error, other_error, task_cancelled, service_url,
}
use atlas_knowledge.Adapters.Completions.{
  Sent, refused, answered, LoopEnd, saw_done, cut_off, broke, RequestBody, request_body, listen,
  payload_of, done_payload, go_on, stream, chat, conclude_stream, reject, handle_fault,
  nothing_heard,
}
use atlas_knowledge.Adapters.Payloads.{Heard, read_payload}
use atlas_knowledge.Adapters.Completions.Order.{
  Place, talking, counted, over, place_after, FitsEnding, AllDeltas, listen-AllDeltas,
  chat-KeepsContract,
}

abbrev has_stop : List StreamEvent → Bool
has_stop [] = false
has_stop (stream_stop r ∷ es) = true
has_stop (_ ∷ es) = has_stop es

-- The line of the end mark, `done_payload`.
abbrev pub is_done_line : Text → Bool
is_done_line raw_line = elim (payload_of raw_line) [
  | none ↦ false
  | some payload ↦ text_eq payload done_payload
]

has_stop-append :
    (evs rest : List StreamEvent) → AllDeltas evs → has_stop (evs ++ rest) ≡ has_stop rest
has_stop-append [] rest h = refl
has_stop-append (text_delta x ∷ evs) rest h = has_stop-append evs rest h.1
has_stop-append (tool_call i n a ∷ evs) rest h = elim h.0 [ ]
has_stop-append (usage_info i o ∷ evs) rest h = elim h.0 [ ]
has_stop-append (stream_stop r ∷ evs) rest h = elim h.0 [ ]
has_stop-append (stream_error c m ∷ evs) rest h = elim h.0 [ ]

-- A response that may be told as a whole answer.
abbrev pub IsWhole : Sent → Type 0
IsWhole (refused fault) = ⊥
IsWhole (answered r) = (r.status < 400) × (r.close_fault ≡ none) × (any is_done_line r.lines ≡ true)

handle_fault-stops :
    (evs : List StreamEvent) (fault : Fault)
    → AllDeltas evs
    → has_stop (handle_fault (evs, some fault)).0 ≡ false
handle_fault-stops evs timed_out d = has_stop-append evs _ d
handle_fault-stops evs http_error d = has_stop-append evs _ d
handle_fault-stops evs other_error d = has_stop-append evs _ d
handle_fault-stops evs task_cancelled d =
    ap has_stop (sym (append-nil evs)) ∙ has_stop-append evs [] d

-- Only a loop that saw the end mark and a block left in order give a stop.
conclude_stream-stops :
    (r : List StreamEvent × LoopEnd) (close_fault : Option Fault)
    → AllDeltas r.0
    → has_stop (handle_fault (conclude_stream r close_fault)).0 ≡ true
    → (h : Heard) × (r.1 ≡ saw_done h) × (close_fault ≡ none)
conclude_stream-stops (evs, e) (some fault) d h =
    elim (true≢false (sym h ∙ handle_fault-stops evs fault d)) [ ]
conclude_stream-stops (evs, broke fault) none d h =
    elim (true≢false (sym h ∙ handle_fault-stops evs fault d)) [ ]
conclude_stream-stops (evs, cut_off) none d h =
    elim (true≢false (sym h ∙ has_stop-append evs _ d)) [ ]
conclude_stream-stops (evs, saw_done heard) none d h = (heard, refl, refl)

module _ (loads : Text → Option Json) (as_count : Json → Option ℕ) where
  go_on-saw_done :
      (rest : Heard → List StreamEvent × LoopEnd) (r : List StreamEvent × Option Heard) (h : Heard)
      → (go_on rest r).1 ≡ saw_done h
      → (h' : Heard) × ((rest h').1 ≡ saw_done h)
  go_on-saw_done rest (evs, none) h e = cc
  go_on-saw_done rest (evs, some h') h e = (h', e)

  listen-saw_done :
      (lines : List Text) (ends_by : Option Fault) (h heard : Heard)
      → (listen loads as_count lines ends_by h).1 ≡ saw_done heard
      → any is_done_line lines ≡ true
  unfolding listen
  listen-saw_done [] none h heard e = cc
  listen-saw_done [] (some fault) h heard e = cc
  listen-saw_done (l ∷ lines) ends_by h heard e = elim (Option-cases (payload_of l)) [
    | inl p ↦ simp (is_done_line, p) (listen-saw_done lines ends_by h heard (simp (listen, p) at e))
    | inr (payload, p) ↦ elim (Bool-cases (text_eq payload done_payload)) [
      | inl t ↦ simp (is_done_line, p, t) refl
      | inr f ↦
          let (h', e') =
            go_on-saw_done (listen loads as_count lines ends_by)
              (read_payload loads as_count payload h) heard (simp (listen, p, f) at e) in
          simp (is_done_line, p, f) (listen-saw_done lines ends_by h' heard e')
    ]
  ]

  reject-stops :
      (status : ℕ) (body : Outcome Fault Text)
      → has_stop (handle_fault (reject status body)).0 ≡ false
  reject-stops status (err fault) = handle_fault-stops [] fault tt
  reject-stops status (ok body) = refl

  stream-IsWhole :
      (sent : Sent) → has_stop (handle_fault (stream loads as_count sent)).0 ≡ true → IsWhole sent
  unfolding stream
  stream-IsWhole (refused fault) h = elim (true≢false (sym h ∙ handle_fault-stops [] fault tt)) [ ]
  stream-IsWhole (answered r) h = elim (Bool-cases (leb 400 r.status)) [
    | inl e ↦ elim (true≢false (sym (rw e at h) ∙ reject-stops r.status r.body)) [ ]
    | inr e ↦
        let (heard, d, c) =
          conclude_stream-stops (listen loads as_count r.lines r.ends_by nothing_heard)
            r.close_fault (listen-AllDeltas loads as_count r.lines r.ends_by nothing_heard)
            (rw e at h) in
        (leb-false→lt 400 r.status e, c, listen-saw_done r.lines r.ends_by nothing_heard heard d)
  ]

-- A place before the last event.
abbrev IsBefore : Place → Type 0
IsBefore talking = Unit
IsBefore counted = Unit
IsBefore over = ⊥

module _ (v : Services) (st : Storage) (q : Request) where
  -- A reply is done only if the model's events, in order, hold a stop.
  relay-stops :
      (from to : Place)
      → IsBefore from
      → (t : TurnContext) (evs : List StreamEvent) (ending : Ending) (buffer : List Text)
      → (usage : Option (ℕ × ℕ)) (db : ChatDb) → place_after from evs ≡ some to
      → FitsEnding ending to
      → has_done (relay v st q t evs ending buffer usage db).events ≡ true
      → has_stop evs ≡ true
  unfolding relay
  relay-stops talking to b t [] exhausted buffer usage db e f h = cc
  relay-stops counted to b t [] exhausted buffer usage db e f h = cc
  relay-stops from to b t [] closed buffer usage db e f h = elim f [ ]
  relay-stops from to b t [] cancelled buffer usage db e f h = cc
  relay-stops from to b t [] raised buffer usage db e f h = elim f [ ]
  relay-stops talking to b t (text_delta x ∷ evs) ending buffer usage db e f h =
      relay-stops talking to tt t evs ending (buffer ++ x ∷ []) usage db e f h
  relay-stops talking to b t (tool_call i n a ∷ evs) ending buffer usage db e f h =
      relay-stops talking to tt t evs ending buffer usage db e f h
  relay-stops talking to b t (usage_info i n ∷ evs) ending buffer usage db e f h =
      relay-stops counted to tt t evs ending buffer (some (i, n)) db e f h
  relay-stops counted to b t (text_delta x ∷ evs) ending buffer usage db e f h = cc
  relay-stops counted to b t (tool_call i n a ∷ evs) ending buffer usage db e f h = cc
  relay-stops counted to b t (usage_info i n ∷ evs) ending buffer usage db e f h = cc
  relay-stops from to b t (stream_stop r ∷ evs) ending buffer usage db e f h = refl
  relay-stops from to b t (stream_error c m ∷ evs) ending buffer usage db e f h = cc
  relay-stops over to b t evs ending buffer usage db e f h = elim b [ ]

module _ (loads : Text → Option Json) (as_count : Json → Option ℕ)
    (post : Text → RequestBody → Sent) (base_url : Text) (v : Services) (st : Storage)
    (q : Request) where
  -- The services with this adapter for the model.
  abbrev pub served : Services
  served = record v { chat = chat loads as_count post base_url }

  -- The service's response to the prompt of this turn, which is whole.
  abbrev pub AnswersWhole : TurnContext → Type 0
  AnswersWhole t =
      IsWhole
        (post (service_url base_url (codes "/chat/completions")) (request_body (prompt t) t.params))

  -- The turn that the reply answers: the prepared one, as it is for a request without sources, and
  -- with the prompt of the chunks that the search found otherwise.
  abbrev pub IsAsked : ChatSettings → TurnContext → TurnContext → Type 0
  IsAsked s prepared t =
      ((q.source_ids ≡ none) × (t ≡ prepared))
      ⊎ ((chunks : List RetrievedChunk) × Finds served st q s chunks
          × (t ≡ with_context served st q s prepared chunks))

  ask-AnswersWhole :
      (t : TurnContext) (db : ChatDb)
      → has_done (ask served st q t db).events ≡ true
      → AnswersWhole t
  unfolding ask chat
  ask-AnswersWhole t db h =
      let (to, e, f) = chat-KeepsContract loads as_count post base_url (prompt t) t.params in
      stream-IsWhole loads as_count _ (relay-stops served st q talking to tt t _ _ [] none db e f h)

  cite_and_ask-AnswersWhole :
      (t : TurnContext) (db : ChatDb)
      → has_done (cite_and_ask served st q t db).events ≡ true
      → AnswersWhole t
  unfolding cite_and_ask
  cite_and_ask-AnswersWhole t db h = elim (Bool-cases (is_empty t.citations)) [
    | inl e ↦ ask-AnswersWhole t db (rw e at h)
    | inr e ↦ ask-AnswersWhole t db (rw e at h)
  ]

  -- With this adapter a reply is reported as done only if the service answered the very prompt and
  -- parameters of this turn, the prepared one or for a request with sources the one with the chunks
  -- found, with a status below 400, lines among which is the end mark of the stream, and an exchange
  -- left without a fault.
  pub stream_reply-HasWholeResponse :
      (s : ChatSettings) (user_message_id assistant_message_id : ℕ) (db : ChatDb) {r : Reply}
      → stream_reply served st q s user_message_id assistant_message_id db ≡ ok r
      → has_done r.events ≡ true
      → (prepared : TurnContext) × (db' : ChatDb) × (t : TurnContext) × (prepare_turn s
            user_message_id assistant_message_id q db
          ≡ ok (prepared, db'))
        × IsAsked s prepared t
        × AnswersWhole t
  stream_reply-HasWholeResponse s u a db {r} h d =
      let (t, db', p, e) = stream_reply-ok served st q s u a db h in
      let (t', asked, whole) =
        answer_cases served st q
          (λ (r' : Reply).
            has_done r'.events ≡ true → (t' : TurnContext) × IsAsked s t t' × AnswersWhole t')
          s t db' (λ n f. (t, inl (n, refl), ask-AnswersWhole t db' f))
          (λ c m f. elim (true≢false (sym f)) [ ])
          (λ chunks found f. (
            with_context served st q s t chunks,
            inr (chunks, found, refl),
            cite_and_ask-AnswersWhole (with_context served st q s t chunks) db' f,
          ))
          (subst (λ (r' : Reply). has_done r'.events ≡ true) e d) in
      (t, db', t', p, asked, whole)
