-- ===== src/Error.antt =====
-- The errors of the program (src/error.rs): classes with their exit codes, the error value, and
-- `AppResult`. A message that is built by `format!` is built here too.
pub mod Failing
pub mod Pure
use dmlpact.Base.{ℕ, String, ◌<>◌}

pub data ErrorClass : Type 0 where
  io usage policy budget contract : ErrorClass

unfoldable pub exit_code : ErrorClass → ℕ
exit_code io = 1
exit_code usage = 2
exit_code policy = 3
exit_code budget = 4
exit_code contract = 5

unfoldable pub class_as_str : ErrorClass → String
class_as_str io = "io"
class_as_str usage = "usage"
class_as_str policy = "policy"
class_as_str budget = "budget"
class_as_str contract = "contract"

pub record AppError : Type 0 where
  pub class : ErrorClass
  pub code : String
  pub message : String

-- `AppError::new`.
abbrev pub app_error : ErrorClass → String → String → AppError
app_error class code message = record { class = class; code = code; message = message }

pub data AppResult {ℓ} (A : Type ℓ) : Type ℓ where
  ok : A → AppResult A
  err : AppError → AppResult A

pub record ErrorDocument : Type 0 where
  pub schema_version : String
  pub class : String
  pub code : String
  pub message : String

-- `ErrorDocument::from(&AppError)`.
unfoldable pub error_document : AppError → ErrorDocument
unfolding class_as_str
error_document error = record {
  schema_version = "dmlpact.error.v1";
  class = class_as_str error.class;
  code = error.code;
  message = error.message;
}

-- `Display for AppError`.
unfoldable pub display_error : AppError → String
display_error error = error.code <> (": " <> error.message)
