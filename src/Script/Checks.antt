-- ===== src/Script/Checks.antt =====
-- What the answer of the check server says of the command.
use notebook_operator.Base.{◌≡◌, ◌≢◌, ◌↔◌, refl, Option, none, some}
use notebook_operator.Base.Int.{ℤ, pos}
use notebook_operator.Base.Text.{Text, codes}
use notebook_operator.Script.{
  CheckRequest, CheckResponse, RunError, exit_error, other_error, Reply, exit_code_of, response_of,
  encoded_reply, check_by, handle_check,
}

exit_code_lem :
    (e : Option RunError)
    → ((n : ℤ) → e ≡ some (exit_error n) → n ≢ pos 0)
    → (exit_code_of e ≡ pos 0) ↔ (e ≡ none)
exit_code_lem none h = (λ _. refl, λ _. refl)
exit_code_lem (some (exit_error n)) h = (λ z. absurd (h n refl z), λ x. absurd (cc))
exit_code_lem (some other_error) h = (λ z. absurd (cc), λ x. absurd (cc))

module _ {World : Type 0} (decode : Text → Option CheckRequest)
    (encode : CheckResponse → Option Text) (run : Text → World → (Text × Option RunError) × World)
    (http_error : Text → ℤ → Reply) where
  -- What should become of a request: of a body that is none, an error, and no command is run; else
  -- the command is run once, and the reply is the encoded answer, whose exit code is 0 exactly if the
  -- command succeeded.
  abbrev pub Answers : Option CheckRequest → World → Reply × World → Type 0
  Answers none w (reply, v) =
      (reply ≡ http_error (codes "Invalid request body") (pos 400)) × (v ≡ w)
  Answers (some req) w (reply, v) =
      (v ≡ (run req.command w).1)
      × ((answer : CheckResponse) × (reply
            ≡ encoded_reply decode encode run http_error (encode answer))
          × (answer.stdout ≡ (run req.command w).0.0)
          × ((answer.exit_code ≡ pos 0) ↔ ((run req.command w).0.1 ≡ none)))

  check_by-Answers :
      ((c : Text) (w : World) (n : ℤ) → (run c w).0.1 ≡ some (exit_error n) → n ≢ pos 0)
      → (o : Option CheckRequest) (w : World)
      → Answers o w (check_by decode encode run http_error o w)
  unfolding check_by response_of
  check_by-Answers h none w = (refl, refl)
  check_by-Answers h (some req) w =
      (refl, (_, refl, refl, exit_code_lem (run req.command w).0.1 (h req.command w)))

  -- The server answers a body that is no request with status 400 and runs nothing. It runs the command
  -- of a request once, and its answer has the output of the command and the exit code 0 exactly if
  -- the command succeeded, if an exit error never has the exit code 0.
  pub handle_check-Answers :
      ((c : Text) (w : World) (n : ℤ) → (run c w).0.1 ≡ some (exit_error n) → n ≢ pos 0)
      → (body : Text) (w : World)
      → Answers (decode body) w (handle_check decode encode run http_error body w)
  unfolding handle_check
  handle_check-Answers h body w = check_by-Answers h (decode body) w
