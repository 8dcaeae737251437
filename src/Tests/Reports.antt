-- ===== src/Tests/Reports.antt =====
-- The reports of errors, and the check server, at concrete values.
use notebook_operator.Base.{◌≡◌, ◌≢◌, Option, some, [], ◌∷◌, List}
use notebook_operator.Base.Int.{ℤ, pos}
use notebook_operator.Base.Text.{Text, codes}
use notebook_operator.Exec.Agrees.{Agrees}
use notebook_operator.Notebook.Reconcile.{provision}
use notebook_operator.Notebook.Reports.{notebook_report, notebook_parts}
use notebook_operator.ClusterLab.Reconcile.{provision_lab}
use notebook_operator.ClusterLab.Reports.{lab_report, lab_parts}
use notebook_operator.InstanceLab.Reconcile.{provision_instance}
use notebook_operator.InstanceLab.Reports.{instance_report, instance_parts}
use notebook_operator.System.Reports.{reports-Agrees}
use notebook_operator.Script.{
  CheckRequest, CheckResponse, RunError, exit_error, Reply, handle_check,
}
use notebook_operator.Script.Checks.{Answers, handle_check-Answers}
use notebook_operator.Tests.Fixtures.{client, machinery, notebook}
use notebook_operator.Tests.Labs.{readings, lab, lab_clock}
use notebook_operator.Tests.Instances.{machine, lab_in, no_env}

reports-Agrees_example :
    Agrees
      (notebook_report machinery client (notebook (pos 30)))
      (provision machinery client (notebook (pos 30)))
      (notebook_parts machinery client (notebook (pos 30)))
    × Agrees
        (lab_report machinery client lab_clock lab)
        (provision_lab machinery client lab_clock lab)
        (lab_parts machinery client lab_clock lab)
    × Agrees
        (instance_report machinery client readings machine)
        (provision_instance machinery client readings machine
          (λ es. es)
          no_env
          (lab_in (codes "Running")))
        (instance_parts machinery client readings machine
          (λ es. es)
          no_env
          (lab_in (codes "Running")))
reports-Agrees_example =
    reports-Agrees machinery client (notebook (pos 30)) lab_clock lab readings machine (λ es. es)
      no_env (lab_in (codes "Running"))

-- Every body is a command, and every command ends with the exit code 3.
abbrev as_command : Text → Option CheckRequest
as_command body = some (record { command = body })

abbrev as_text : CheckResponse → Option Text
as_text answer = some answer.stdout

-- The world is the list of the commands that have been run.
abbrev failing_shell : Text → List Text → (Text × Option RunError) × List Text
failing_shell command ran = ((codes "no", some (exit_error (pos 3))), command ∷ ran)

abbrev plain_error : Text → ℤ → Reply
plain_error message code = record {
  status = code;
  content_type = codes "text/plain";
  body = message;
}

exit_error_nonzero :
    (c : Text) (ran : List Text) (n : ℤ)
    → (failing_shell c ran).0.1 ≡ some (exit_error n)
    → n ≢ pos 0
exit_error_nonzero c ran n h z = cc

handle_check-Answers_example :
    Answers as_command as_text failing_shell plain_error
      (as_command (codes "false"))
      []
      (handle_check as_command as_text failing_shell plain_error (codes "false") [])
handle_check-Answers_example =
    handle_check-Answers as_command as_text failing_shell plain_error exit_error_nonzero
      (codes "false") []
