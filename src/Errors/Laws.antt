-- ===== src/Errors/Laws.antt =====
-- What the error responses never show.
use atlas_knowledge.Common.{◌↔◌, ◌≤◌, ◌<◌, ◌≡◌, refl, String, arith}
use atlas_knowledge.Errors.{
  AppError, email_already_registered, Failure, app, request_validation, unexpected, handle,
  http_status,
}

app-status : (e : AppError) → (400 ≤ http_status e) × (http_status e < 500)
unfolding http_status
app-status email_already_registered = omega arith
app-status _ = omega arith

-- What a client may learn of a failure: nothing of an unexpected exception or a rejected body.
abbrev pub redact : Failure → Failure
redact (app e) = app e
redact (request_validation details) = request_validation ""
redact (unexpected name details) = unexpected "" ""

abbrev pub IsUnexpected : Failure → Type 0
IsUnexpected (unexpected name details) = Unit
IsUnexpected _ = ⊥

-- Every response names its trace in the header and the body alike, has an error status, which is 500
-- exactly for an exception that is no `AppError` and no validation error, and is the response to the
-- redacted failure: it depends on no detail of the exception.
pub handle_response :
    (trace : String) (f : Failure)
    → ((handle trace f).0.trace_id ≡ trace)
      × ((handle trace f).0.request_id ≡ trace)
      × (400 ≤ (handle trace f).0.status)
      × (((handle trace f).0.status ≡ 500) ↔ IsUnexpected f)
      × ((handle trace f).0 ≡ (handle trace (redact f)).0)
unfolding handle
handle_response trace (app e) =
    (refl, refl, (app-status e).0, (λ h. omega (arith, (app-status e).1), λ h. elim h [ ]), refl)
handle_response trace (request_validation d) =
    (refl, refl, omega arith, (λ h. omega arith, λ h. elim h [ ]), refl)
handle_response trace (unexpected n d) = (refl, refl, omega arith, (λ h. tt, λ h. refl), refl)
