-- ===== src/Notebook/Reports.antt =====
-- How a run of the NotebookLab controller ends at an error, and how it reports it.
use notebook_operator.Base.{refl, none, some}
use notebook_operator.Exec.{Failure, Exec, ◌>>=◌, ◌>>◌}
use notebook_operator.Exec.Agrees.{
  Marked, part, Agrees, PassesOn, Agrees-part, Agrees-bind, Agrees-handled,
}
use notebook_operator.Api.NotebookLab.{NotebookLab, failed}
use notebook_operator.Client.{Client, Machinery, notebooklab}
use notebook_operator.Notebook.Deployment.{reconcile_jupyter_deployment}
use notebook_operator.Notebook.Networking.{reconcile_networking}
use notebook_operator.Notebook.Status.{update_status_error, update_notebook_status}
use notebook_operator.Notebook.Reconcile.{
  workspace_of, report_by, reported, workspace_step, provision,
}

module _ (M : Machinery) (C : Client M.Quantity) (notebook : NotebookLab M.Quantity) where
  -- The report of an error: one update of the status, with the phase Failed, whose own error is
  -- dropped.
  abbrev pub notebook_report : Unit {0} → Failure → C.World → C.World
  notebook_report mark e w =
      (C.update_status notebooklab
        (record notebook { status = record notebook.status { phase = failed } }) w).1

  report_by-PassesOn : PassesOn notebook_report tt (report_by M C notebook)
  unfolding report_by update_status_error ◌>>=◌
  report_by-PassesOn = record { value = λ a w. refl; error = λ e w. refl }

  reported-Agrees :
      (m : Exec C.World (Unit {0}))
      → Agrees notebook_report (reported M C notebook m) (part (some tt) m)
  unfolding reported
  reported-Agrees m =
      Agrees-handled notebook_report tt (report_by M C notebook) report_by-PassesOn m

  -- The four parts in a row; an error of the first three is reported.
  abbrev pub notebook_parts : Exec (Marked (Unit {0}) C.World) (Unit {0})
  notebook_parts = do
    part (some tt) (workspace_step M C notebook (workspace_of notebook))
    part (some tt) (reconcile_jupyter_deployment M C notebook)
    part (some tt) (reconcile_networking M C notebook)
    part none (update_notebook_status M C notebook)

  -- The run over the workspace, the deployment, the network and the status ends at the first part that
  -- fails and returns its error, after one report of it if it is not the last part.
  pub provision-Agrees : Agrees notebook_report (provision M C notebook) notebook_parts
  unfolding provision
  provision-Agrees = Agrees-bind _ _ _ _ _ (reported-Agrees _) λ a.
      Agrees-bind _ _ _ _ _ (reported-Agrees _)
        λ b. Agrees-bind _ _ _ _ _ (reported-Agrees _) λ c. Agrees-part _ _
