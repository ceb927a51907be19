-- ===== src/Adapters/Completions.antt =====
-- The chat adapter (backend/app/infrastructure/llm/openai_compat.py): one response of the service,
-- read line by line, becomes a list of events and the way the generator ends.
pub mod Order
pub mod Replies
use atlas_knowledge.Common.{
  ℕ, Bool, true, List, [], ◌∷◌, ◌++◌, Option, none, some, ◌||◌, ◌==◌, leb, if◌then◌else◌, drop,
  Text, codes, text_eq, strip, starts_with, Outcome, ok, err,
}
use atlas_knowledge.Ingestion.Stages.{
  ErrorCode, rate_limited, auth, context_length, transient, provider_error,
}
use atlas_knowledge.Chat.Rows.{ChatMessage, ModelParams}
use atlas_knowledge.Chat.Stream.{
  StreamEvent, text_delta, usage_info, stream_stop, stream_error, StopReason, end_turn, tool_use,
  max_tokens, Ending, exhausted,
}
use atlas_knowledge.Adapters.Json.{
  Json, null, bool, num, other_number, str, arr, obj, end, ◌>>=◌, is_truthy, get, subscript, first,
}
use atlas_knowledge.Adapters.Http.{
  Fault, timed_out, http_error, other_error, task_cancelled, reports_length, service_url,
}
use atlas_knowledge.Adapters.Payloads.{Heard, read_payload}

-- The values of `ProviderErrorCode` as texts.
abbrev pub code_text : ErrorCode → Text
code_text rate_limited = codes "rate_limited"
code_text auth = codes "auth"
code_text context_length = codes "context_length"
code_text transient = codes "transient"
code_text provider_error = codes "provider_error"

-- `_ERROR_MESSAGES`
abbrev pub error_message : ErrorCode → Text
error_message auth = codes "上游服務驗證失敗"
error_message rate_limited = codes "上游服務忙碌中,請稍後再試"
error_message context_length = codes "對話內容過長,超出模型上限"
error_message transient = codes "上游服務暫時無法回應,請稍後再試"
error_message provider_error = codes "上游服務回應異常"

-- `_error`
abbrev pub error_event : ErrorCode → StreamEvent
error_event code = stream_error (code_text code) (error_message code)

-- `_map_http_status`, with the body decoded
unfoldable pub map_http_status : ℕ → Text → ErrorCode
map_http_status status body =
    if status == 401 || status == 403
    then auth
    else if status == 429
    then rate_limited
    else if status == 400
    then (if reports_length body then context_length else provider_error)
    else if leb 500 status
    then transient
    else provider_error

-- The request of `chat`, always for a stream with its usage.
pub record RequestBody : Type 0 where
  pub model : Text
  pub messages : List ChatMessage
  pub temperature : ℕ
  pub stream : Bool
  pub include_usage : Bool
  pub max_tokens : Option ℕ

abbrev pub request_body : List ChatMessage → ModelParams → RequestBody
request_body messages params = record {
  model = params.model;
  messages = messages;
  temperature = params.temperature;
  stream = true;
  include_usage = true;
  max_tokens = params.max_tokens;
}

-- A response: its status, its whole body or the fault on reading it, its lines and the fault that
-- ends them, and the fault on leaving the block of the stream.
pub record Response : Type 0 where
  pub status : ℕ
  pub body : Outcome Fault Text
  pub lines : List Text
  pub ends_by : Option Fault
  pub close_fault : Option Fault

pub data Sent : Type 0 where
  refused : Fault → Sent
  answered : Response → Sent

-- How the loop ends: at the end mark of the stream, at the end of the lines without it, or by an exception.
pub data LoopEnd : Type 0 where
  saw_done : Heard → LoopEnd
  cut_off : LoopEnd
  broke : Fault → LoopEnd

-- The payload of a line that starts with `data:`.
unfoldable pub payload_of : Text → Option Text
payload_of raw_line =
    if starts_with (strip raw_line) (codes "data:")
    then some (strip (drop 5 (strip raw_line)))
    else none

abbrev pub done_payload : Text
done_payload = codes "[DONE]"

-- Send events before the rest of the loop, or end the loop by an exception.
abbrev pub go_on :
    (Heard → List StreamEvent × LoopEnd)
    → List StreamEvent × Option Heard
    → List StreamEvent × LoopEnd
go_on rest (evs, none) = (evs, broke other_error)
go_on rest (evs, some h) = (evs ++ (rest h).0, (rest h).1)

abbrev pub usage_events : Option (ℕ × ℕ) → List StreamEvent
usage_events none = []
usage_events (some (i, o)) = usage_info i o ∷ []

-- `_stream` from the end of the loop on
abbrev pub conclude_stream :
    List StreamEvent × LoopEnd → Option Fault → List StreamEvent × Option Fault
conclude_stream (evs, e) (some fault) = (evs, some fault)
conclude_stream (evs, broke fault) none = (evs, some fault)
conclude_stream (evs, cut_off) none = (evs ++ error_event transient ∷ [], none)
conclude_stream (evs, saw_done h) none =
    (evs ++ (usage_events h.usage ++ stream_stop h.stop_reason ∷ []), none)

abbrev pub reject : ℕ → Outcome Fault Text → List StreamEvent × Option Fault
reject status (err fault) = ([], some fault)
reject status (ok body) = (error_event (map_http_status status body) ∷ [], none)

abbrev pub nothing_heard : Heard
nothing_heard = record { stop_reason = end_turn; usage = none }

-- The handlers of `chat`.
abbrev pub handle_fault : List StreamEvent × Option Fault → List StreamEvent × Ending
handle_fault (evs, none) = (evs, exhausted)
handle_fault (evs, some timed_out) = (evs ++ error_event transient ∷ [], exhausted)
handle_fault (evs, some http_error) = (evs ++ error_event transient ∷ [], exhausted)
handle_fault (evs, some other_error) = (evs ++ error_event provider_error ∷ [], exhausted)
handle_fault (evs, some task_cancelled) = (evs, Ending.cancelled)

-- `loads` is `json.loads`, and `as_count` the validation of an `int` field, for counts.
module _ (loads : Text → Option Json) (as_count : Json → Option ℕ) where
  unfoldable pub listen : List Text → Option Fault → Heard → List StreamEvent × LoopEnd
  listen [] none h = ([], cut_off)
  listen [] (some fault) h = ([], broke fault)
  listen (raw_line ∷ lines) ends_by h = elim (payload_of raw_line) [
    | none ↦ listen lines ends_by h
    | some payload ↦
        if text_eq payload done_payload
        then ([], saw_done h)
        else go_on (listen lines ends_by) (read_payload loads as_count payload h)
  ]

  -- `_stream`. The response of a rejected request is closed once its body is read.
  unfoldable pub stream : Sent → List StreamEvent × Option Fault
  stream (refused fault) = ([], some fault)
  stream (answered r) =
      if leb 400 r.status
      then reject r.status r.body
      else conclude_stream (listen r.lines r.ends_by nothing_heard) r.close_fault

  -- `chat`, with the client's `stream("POST", url, json=body)` as a parameter
  unfoldable pub chat :
      (Text → RequestBody → Sent)
      → Text
      → List ChatMessage
      → ModelParams
      → List StreamEvent × Ending
  chat post base_url messages params = handle_fault (
      stream
        (post (service_url base_url (codes "/chat/completions")) (request_body messages params)))
