-- ===== src/Adapters/Completions/Order.antt =====
-- The order contract of `StreamEvent` (backend/app/domain/ports/llm.py, the module's comment), as a
-- state machine.
use mathlib.Core.Path.{subst}
use atlas_knowledge.Common.{
  ℕ, codes, ap, append-nil, All-append, Outcome, ◌≡◌, refl, sym, ◌∙◌, List, [], ◌∷◌, ◌++◌, Option,
  none, some, inl, inr, Bool-cases, Option-cases, All, Text, text_eq, leb, ok, err,
}
use atlas_knowledge.Ingestion.Stages.{transient, provider_error}
use atlas_knowledge.Chat.Rows.{ChatMessage, ModelParams}
use atlas_knowledge.Chat.Stream.{
  StreamEvent, text_delta, tool_call, usage_info, stream_stop, stream_error, StopReason, Ending,
  exhausted, closed, cancelled, raised,
}
use atlas_knowledge.Adapters.Json.{
  Json, null, bool, num, other_number, str, arr, obj, ◌>>=◌, steps_of_some, get, first, is_truthy,
}
use atlas_knowledge.Adapters.Http.{Fault, timed_out, http_error, other_error, task_cancelled}
use atlas_knowledge.Adapters.Completions.{
  Sent, refused, answered, LoopEnd, saw_done, cut_off, broke, RequestBody, listen, payload_of,
  done_payload, go_on, stream, chat, conclude_stream, reject, usage_events, handle_fault,
  error_event, nothing_heard,
}
use atlas_knowledge.Adapters.Payloads.{
  Heard, delta_event, event_of_content, event_of_delta, or_empty, content_events, read_choices,
  read_value, read_payload,
}

-- Before the usage, after it, and after the last event.
pub data Place : Type 0 where
  talking counted over : Place

abbrev pub next : Place → StreamEvent → Option Place
next talking (text_delta x) = some talking
next talking (tool_call i n a) = some talking
next talking (usage_info i o) = some counted
next talking (stream_stop r) = some over
next talking (stream_error c m) = some over
next counted (stream_stop r) = some over
next counted (stream_error c m) = some over
next _ _ = none

abbrev pub place_after : Place → List StreamEvent → Option Place
place_after p [] = some p
place_after p (e ∷ es) = elim (next p e) [ none ↦ none | some p' ↦ place_after p' es ]

-- A stream that is exhausted has had its last event, and one whose task is cancelled has not.
abbrev pub FitsEnding : Ending → Place → Type 0
FitsEnding exhausted p = p ≡ over
FitsEnding cancelled p = p ≡ talking
FitsEnding closed p = ⊥
FitsEnding raised p = ⊥

abbrev pub KeepsContract : List StreamEvent × Ending → Type 0
KeepsContract (evs, ending) = (p : Place) × (place_after talking evs ≡ some p) × FitsEnding ending p

abbrev IsDelta : StreamEvent → Type 0
IsDelta (text_delta x) = Unit
IsDelta (tool_call i n a) = ⊥
IsDelta (usage_info i o) = ⊥
IsDelta (stream_stop r) = ⊥
IsDelta (stream_error c m) = ⊥

abbrev pub AllDeltas : List StreamEvent → Type 0
AllDeltas = All IsDelta

-- Deltas change nothing of the place.
pub place_after-append :
    (evs rest : List StreamEvent)
    → AllDeltas evs
    → place_after talking (evs ++ rest) ≡ place_after talking rest
place_after-append [] rest h = refl
place_after-append (text_delta x ∷ evs) rest h = place_after-append evs rest h.1
place_after-append (tool_call i n a ∷ evs) rest h = elim h.0 [ ]
place_after-append (usage_info i o ∷ evs) rest h = elim h.0 [ ]
place_after-append (stream_stop r ∷ evs) rest h = elim h.0 [ ]
place_after-append (stream_error c m ∷ evs) rest h = elim h.0 [ ]

delta_event-AllDeltas :
    (c : Json) {evs : List StreamEvent} → delta_event c ≡ some evs → AllDeltas evs
delta_event-AllDeltas (str s) {evs} h =
    let e : text_delta s ∷ [] ≡ evs = cc in subst AllDeltas e (tt, tt)
delta_event-AllDeltas null h = cc
delta_event-AllDeltas (bool b) h = cc
delta_event-AllDeltas (num n) h = cc
delta_event-AllDeltas (other_number t) h = cc
delta_event-AllDeltas (arr xs) h = cc
delta_event-AllDeltas (obj fs) h = cc

event_of_content-AllDeltas :
    (c : Json) {evs : List StreamEvent} → event_of_content c ≡ some evs → AllDeltas evs
event_of_content-AllDeltas c {evs} k = elim (Bool-cases (is_truthy c)) [
  | inl t ↦ delta_event-AllDeltas c (rw t at k)
  | inr t ↦
      let none_sent : some [] ≡ some evs = rw t at k in
      let e : [] ≡ evs = cc in subst AllDeltas e tt
]

content_events-AllDeltas :
    (choice : Json) {evs : List StreamEvent} → content_events choice ≡ some evs → AllDeltas evs
unfolding content_events
content_events-AllDeltas choice {evs} h =
    let (d, h', _) = steps_of_some event_of_delta (get choice (codes "delta")) h in
    let (c, k, _) = steps_of_some event_of_content (get (or_empty d) (codes "content")) h' in
    event_of_content-AllDeltas c k

read_choices-AllDeltas :
    (choices : Json) (reason : StopReason) → AllDeltas (read_choices choices reason).0
unfolding read_choices
read_choices-AllDeltas choices reason = elim (Bool-cases (is_truthy choices)) [
  | inr f ↦ rw f tt
  | inl t ↦ elim (Option-cases (first choices >>= content_events)) [
    | inl e ↦ rw t (simp e tt)
    | inr (evs, e) ↦
        let (c, k, _) = steps_of_some content_events (first choices) e in
        rw t (simp e (content_events-AllDeltas c k))
  ]
]

module _ (loads : Text → Option Json) (as_count : Json → Option ℕ) where
  read_value-AllDeltas : (v : Json) (h : Heard) → AllDeltas (read_value loads as_count v h).0
  unfolding read_value
  read_value-AllDeltas v h = elim (Option-cases (get v (codes "choices"))) [
    | inl e ↦ simp (read_value, e) tt
    | inr (choices, e) ↦ simp (read_value, e) (read_choices-AllDeltas choices h.stop_reason)
  ]

  read_payload-AllDeltas :
      (payload : Text) (h : Heard) → AllDeltas (read_payload loads as_count payload h).0
  unfolding read_payload
  read_payload-AllDeltas payload h = elim (Option-cases (loads payload)) [
    | inl e ↦ simp (read_payload, e) tt
    | inr (v, e) ↦ simp (read_payload, e) (read_value-AllDeltas v h)
  ]

  go_on-AllDeltas :
      (rest : Heard → List StreamEvent × LoopEnd) (r : List StreamEvent × Option Heard)
      → AllDeltas r.0
      → ((h : Heard) → AllDeltas (rest h).0)
      → AllDeltas (go_on rest r).0
  go_on-AllDeltas rest (evs, none) d k = d
  go_on-AllDeltas rest (evs, some h) d k = All-append IsDelta evs (rest h).0 d (k h)

  pub listen-AllDeltas :
      (lines : List Text) (ends_by : Option Fault) (h : Heard)
      → AllDeltas (listen loads as_count lines ends_by h).0
  unfolding listen
  listen-AllDeltas [] none h = tt
  listen-AllDeltas [] (some fault) h = tt
  listen-AllDeltas (l ∷ lines) ends_by h = elim (Option-cases (payload_of l)) [
    | inl e ↦ simp (listen, e) (listen-AllDeltas lines ends_by h)
    | inr (payload, e) ↦ elim (Bool-cases (text_eq payload done_payload)) [
      | inl t ↦ simp (listen, e, t) tt
      | inr f ↦
          simp (listen, e, f)
            (go_on-AllDeltas (listen loads as_count lines ends_by)
              (read_payload loads as_count payload h) (read_payload-AllDeltas payload h)
              (listen-AllDeltas lines ends_by))
    ]
  ]

-- Events that are deltas, and then one more list, keep the contract as that list does.
behind_deltas :
    (evs rest : List StreamEvent) (ending : Ending)
    → AllDeltas evs
    → KeepsContract (rest, ending)
    → KeepsContract (evs ++ rest, ending)
behind_deltas evs rest ending d (p, e, k) = (p, place_after-append evs rest d ∙ e, k)

handle_fault-KeepsContract :
    (evs : List StreamEvent) (fault : Fault)
    → AllDeltas evs
    → KeepsContract (handle_fault (evs, some fault))
handle_fault-KeepsContract evs timed_out d =
    behind_deltas evs (error_event transient ∷ []) exhausted d (over, refl, refl)
handle_fault-KeepsContract evs http_error d =
    behind_deltas evs (error_event transient ∷ []) exhausted d (over, refl, refl)
handle_fault-KeepsContract evs other_error d =
    behind_deltas evs (error_event provider_error ∷ []) exhausted d (over, refl, refl)
handle_fault-KeepsContract evs task_cancelled d =
    (talking, ap (place_after talking) (sym (append-nil evs)) ∙ place_after-append evs [] d, refl)

conclude_stream-KeepsContract :
    (r : List StreamEvent × LoopEnd) (close_fault : Option Fault)
    → AllDeltas r.0
    → KeepsContract (handle_fault (conclude_stream r close_fault))
conclude_stream-KeepsContract (evs, e) (some fault) d = handle_fault-KeepsContract evs fault d
conclude_stream-KeepsContract (evs, broke fault) none d = handle_fault-KeepsContract evs fault d
conclude_stream-KeepsContract (evs, cut_off) none d =
    behind_deltas evs (error_event transient ∷ []) exhausted d (over, refl, refl)
conclude_stream-KeepsContract (evs, saw_done h) none d =
    behind_deltas evs _ exhausted d (last_events h.usage)
  where
    last_events :
        (usage : Option (ℕ × ℕ))
        → KeepsContract (usage_events usage ++ stream_stop h.stop_reason ∷ [], exhausted)
    last_events none = (over, refl, refl)
    last_events (some (i, o)) = (over, refl, refl)

reject-KeepsContract :
    (status : ℕ) (body : Outcome Fault Text) → KeepsContract (handle_fault (reject status body))
reject-KeepsContract status (err fault) = handle_fault-KeepsContract [] fault tt
reject-KeepsContract status (ok body) = (over, refl, refl)

module _ (loads : Text → Option Json) (as_count : Json → Option ℕ) where
  stream-KeepsContract : (sent : Sent) → KeepsContract (handle_fault (stream loads as_count sent))
  unfolding stream
  stream-KeepsContract (refused fault) = handle_fault-KeepsContract [] fault tt
  stream-KeepsContract (answered r) = elim (Bool-cases (leb 400 r.status)) [
    | inl e ↦ rw e (reject-KeepsContract r.status r.body)
    | inr e ↦ rw e (
        conclude_stream-KeepsContract (listen loads as_count r.lines r.ends_by nothing_heard)
          r.close_fault (listen-AllDeltas loads as_count r.lines r.ends_by nothing_heard))
  ]

  -- Whatever the service answers, and however the exchange fails, the events of the adapter are
  -- any number of deltas or tool calls, then at most one usage, then exactly one stop or error and
  -- nothing behind it; only if the task is cancelled on the way are there deltas alone.
  pub chat-KeepsContract :
      (post : Text → RequestBody → Sent) (base_url : Text) (messages : List ChatMessage)
      → (params : ModelParams) → KeepsContract (chat loads as_count post base_url messages params)
  unfolding chat
  chat-KeepsContract post base_url messages params = stream-KeepsContract _
