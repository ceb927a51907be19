-- ===== src/Adapters/Payloads.antt =====
-- One value of the chat service's stream (backend/app/infrastructure/llm/openai_compat.py,
-- `_stream`): what it sends and what it leaves for the end. `none` is an exception.
use atlas_knowledge.Common.{
  ℕ, List, [], ◌∷◌, Option, none, some, if◌then◌else◌, Text, codes, text_eq,
}
use atlas_knowledge.Chat.Stream.{
  StreamEvent, text_delta, StopReason, end_turn, tool_use, max_tokens,
}
use atlas_knowledge.Adapters.Json.{
  Json, null, bool, num, other_number, str, arr, obj, end, ◌>>=◌, is_truthy, get, subscript, first,
}

-- The variables of the loop over the lines.
pub record Heard : Type 0 where
  pub stop_reason : StopReason
  pub usage : Option (ℕ × ℕ)

-- `_FINISH_MAP.get(value)`; a list or a dict has no hash
abbrev pub mapped_finish : Json → Option (Option StopReason)
mapped_finish (str s) = some (
    if text_eq s (codes "stop")
    then some end_turn
    else if text_eq s (codes "length")
    then some max_tokens
    else if text_eq s (codes "tool_calls")
    then some tool_use
    else none)
mapped_finish null = some none
mapped_finish (bool b) = some none
mapped_finish (num n) = some none
mapped_finish (other_number t) = some none
mapped_finish (arr xs) = none
mapped_finish (obj fs) = none

-- `TextDelta(text=content)`, which refuses all but texts
abbrev pub delta_event : Json → Option (List StreamEvent)
delta_event (str s) = some (text_delta s ∷ [])
delta_event null = none
delta_event (bool b) = none
delta_event (num n) = none
delta_event (other_number t) = none
delta_event (arr xs) = none
delta_event (obj fs) = none

-- `value or {}`
abbrev pub or_empty : Json → Json
or_empty v = if is_truthy v then v else obj end

-- The event of one choice, and the stop reason after it.
abbrev pub event_of_content : Json → Option (List StreamEvent)
event_of_content content = if is_truthy content then delta_event content else some []

abbrev pub event_of_delta : Json → Option (List StreamEvent)
event_of_delta d = get (or_empty d) (codes "content") >>= event_of_content

unfoldable pub content_events : Json → Option (List StreamEvent)
content_events choice = get choice (codes "delta") >>= event_of_delta

unfoldable pub reason_after : Json → StopReason → Option StopReason
reason_after choice reason = get choice (codes "finish_reason") >>= λ f.
    mapped_finish f >>= λ mapped. some (elim mapped [ none ↦ reason | some r ↦ r ])

-- The part of a payload under `choices`: an exception after the event leaves the event sent.
unfoldable pub read_choices : Json → StopReason → List StreamEvent × Option StopReason
read_choices choices reason =
    if is_truthy choices
    then elim (first choices >>= content_events) [
      | none ↦ ([], none)
      | some evs ↦ (evs, first choices >>= λ choice. reason_after choice reason)
    ]
    else ([], some reason)

-- `loads` is `json.loads`, and `as_count` the validation of an `int` field, for counts.
module _ (loads : Text → Option Json) (as_count : Json → Option ℕ) where
  unfoldable pub read_usage : Json → Option (ℕ × ℕ) → Option (Option (ℕ × ℕ))
  read_usage value before =
      if is_truthy value
      then (subscript value (codes "prompt_tokens") >>= λ i.
          subscript value (codes "completion_tokens") >>= λ o.
          as_count i >>= λ n. as_count o >>= λ m. some (some (n, m)))
      else some before

  -- One value of the stream: the events sent, and the variables after it or an exception.
  unfoldable pub read_value : Json → Heard → List StreamEvent × Option Heard
  read_value value h = elim (get value (codes "choices")) [
    | none ↦ ([], none)
    | some choices ↦ (
      (read_choices choices h.stop_reason).0,
      (read_choices choices h.stop_reason).1 >>= λ reason. get value (codes "usage") >>= λ u.
          read_usage u h.usage >>= λ usage. some (record { stop_reason = reason; usage = usage }),
    )
  ]

  unfoldable pub read_payload : Text → Heard → List StreamEvent × Option Heard
  read_payload payload h = elim (loads payload) [ none ↦ ([], none) | some v ↦ read_value v h ]
