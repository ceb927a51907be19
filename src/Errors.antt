-- ===== src/Errors.antt =====
-- The application's errors and their HTTP responses (backend/app/core/errors.py).
pub mod Laws
mod Examples
use atlas_knowledge.Common.{ℕ, String, Option, none, some, if◌then◌else◌, List, [], ◌∷◌}

-- The subclasses of `AppError`; `ValidationError` may carry a message of its own.
pub data AppError : Type 0 where
  email_already_registered invalid_credentials user_inactive invalid_token : AppError
  invalid_refresh_token conversation_not_found invalid_cursor duplicate_message : AppError
  document_not_found source_not_found unsupported_media_type file_too_large : AppError
  document_not_retryable : AppError
  validation_error : Option String → AppError

pub code : AppError → String
code email_already_registered = "email_already_registered"
code invalid_credentials = "invalid_credentials"
code user_inactive = "user_inactive"
code invalid_token = "invalid_token"
code invalid_refresh_token = "invalid_refresh_token"
code conversation_not_found = "conversation_not_found"
code invalid_cursor = "invalid_cursor"
code duplicate_message = "duplicate_message"
code document_not_found = "document_not_found"
code source_not_found = "source_not_found"
code unsupported_media_type = "unsupported_media_type"
code file_too_large = "file_too_large"
code document_not_retryable = "document_not_retryable"
code (validation_error message) = "validation_error"

pub http_status : AppError → ℕ
http_status email_already_registered = 409
http_status invalid_credentials = 401
http_status user_inactive = 403
http_status invalid_token = 401
http_status invalid_refresh_token = 401
http_status conversation_not_found = 404
http_status invalid_cursor = 422
http_status duplicate_message = 409
http_status document_not_found = 404
http_status source_not_found = 404
http_status unsupported_media_type = 415
http_status file_too_large = 413
http_status document_not_retryable = 409
http_status (validation_error message) = 422

pub message : AppError → String
message email_already_registered = "此 email 已被註冊"
message invalid_credentials = "帳號或密碼錯誤"
message user_inactive = "帳號已停用"
message invalid_token = "憑證無效或已過期"
message invalid_refresh_token = "登入憑證已失效,請重新登入"
message conversation_not_found = "找不到對話"
message invalid_cursor = "分頁游標無效"
message duplicate_message = "訊息已送出"
message document_not_found = "找不到文件"
message source_not_found = "找不到知識來源"
message unsupported_media_type = "不支援的檔案型別"
message file_too_large = "檔案超過大小上限"
message document_not_retryable = "僅處理失敗的文件可重試"
message (validation_error none) = "請求參數驗證失敗"
message (validation_error (some m)) = m

pub record Response : Type 0 where
  pub status : ℕ
  pub error_code : String
  pub error_message : String
  pub trace_id : String
  -- the header X-Request-ID
  pub request_id : String

envelope : String → String → String → ℕ → Response
envelope c m trace status = record {
  status = status;
  error_code = c;
  error_message = m;
  trace_id = trace;
  request_id = trace;
}

-- What reaches the handlers; of any other exception its name and its details are known.
pub data Failure : Type 0 where
  app : AppError → Failure
  request_validation : String → Failure
  unexpected : String → String → Failure

-- The three handlers, chosen by the class of the exception. The second result is what is logged.
pub handle : String → Failure → Response × List (String × String)
unfolding code http_status message envelope
handle trace (app e) = (envelope (code e) (message e) trace (http_status e), [])
handle trace (request_validation details) = (envelope "validation_error" "請求參數驗證失敗" trace 422, [])
handle trace (unexpected name details) =
    (envelope "internal_error" "伺服器發生非預期錯誤,請稍後再試" trace 500, (name, details) ∷ [])
