-- ===== src/Script.antt =====
-- The check server of the lab images: images/script/runner.go. `decode` and `encode` stand for
-- `encoding/json`, with `none` for an error, `run` for `exec.Command("bash", "-c", …)` and its
-- `CombinedOutput`, and `http_error` for what `http.Error` writes.
pub mod Checks
use notebook_operator.Base.{Option, none, some, []}
use notebook_operator.Base.Int.{ℤ, pos}
use notebook_operator.Base.Text.{Text, codes}

pub record CheckRequest : Type 0 where
  pub command : Text

pub record CheckResponse : Type 0 where
  pub exit_code : ℤ
  pub stdout : Text
  pub stderr : Text

-- The error of a command: an `*exec.ExitError` with its `ExitCode()`, or another, as when there is no
-- shell.
pub data RunError : Type 0 where
  exit_error : ℤ → RunError
  other_error : RunError

-- What the handler writes to the `http.ResponseWriter`.
pub record Reply : Type 0 where
  pub status : ℤ
  pub content_type : Text
  pub body : Text

abbrev pub exit_code_of : Option RunError → ℤ
exit_code_of none = pos 0
exit_code_of (some (exit_error code)) = code
exit_code_of (some other_error) = pos 1

-- The field `Stderr` is left out.
unfoldable pub response_of : Text → Option RunError → CheckResponse
response_of out e = record { exit_code = exit_code_of e; stdout = out; stderr = [] }

module _ {World : Type 0} (decode : Text → Option CheckRequest)
    (encode : CheckResponse → Option Text) (run : Text → World → (Text × Option RunError) × World)
    (http_error : Text → ℤ → Reply) where
  unfoldable pub encoded_reply : Option Text → Reply
  encoded_reply none = http_error (codes "Failed to encode response") (pos 500)
  encoded_reply (some body) = record {
    status = pos 200;
    content_type = codes "application/json";
    body = body;
  }

  unfoldable pub check_by : Option CheckRequest → World → Reply × World
  unfolding encoded_reply response_of
  check_by none w = (http_error (codes "Invalid request body") (pos 400), w)
  check_by (some req) w =
      let ran = run req.command w in (encoded_reply (encode (response_of ran.0.0 ran.0.1)), ran.1)

  unfoldable pub handle_check : Text → World → Reply × World
  unfolding check_by
  handle_check body w = check_by (decode body) w
