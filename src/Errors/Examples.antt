-- ===== src/Errors/Examples.antt =====
-- An unexpected exception, and the statement about its response.
use atlas_knowledge.Common.{◌≡◌, ◌↔◌, ◌≤◌}
use atlas_knowledge.Errors.{Failure, unexpected, handle}
use atlas_knowledge.Errors.Laws.{redact, IsUnexpected, handle_response}

abbrev key_error : Failure
key_error = unexpected "KeyError" "secret"

handle_response_example :
    ((handle "t1" key_error).0.trace_id ≡ "t1")
    × ((handle "t1" key_error).0.request_id ≡ "t1")
    × (400 ≤ (handle "t1" key_error).0.status)
    × (((handle "t1" key_error).0.status ≡ 500) ↔ IsUnexpected key_error)
    × ((handle "t1" key_error).0 ≡ (handle "t1" (redact key_error)).0)
handle_response_example = handle_response "t1" key_error
