-- ===== src/Notebook/Status.antt =====
-- `updateNotebookStatus` and `updateStatusError` of internal/controller/notebooklab_controller.go.
use notebook_operator.Base.{◌++◌, if◌then◌else◌}
use notebook_operator.Base.Int.{ℤ, pos, ltb_ℤ, eqb_ℤ}
use notebook_operator.Base.Text.{Text, codes}
use notebook_operator.Exec.{
  Failure, Result, ok, err, Exec, is_not_found, pure, fail, reads, attempt, ◌>>=◌, ◌>>◌,
}
use notebook_operator.Kube.Objects.{Deployment, DeploymentStatus}
use notebook_operator.Api.NotebookLab.{
  NotebookLab, NotebookLabPhase, provisioning, running, pausing, paused, failed,
}
use notebook_operator.Client.{Client, Machinery, notebooklab, deployment}
use notebook_operator.Notebook.Children.{own_key, default_token, reconcile_notebook_secret}
use notebook_operator.Notebook.Deployment.{wanted_replicas}

unfoldable pub phase_of : ℤ → DeploymentStatus → NotebookLabPhase
phase_of replicas d =
    if eqb_ℤ replicas (pos 0)
    then (if eqb_ℤ d.replicas (pos 0) then paused else pausing)
    else (if ltb_ℤ (pos 0) d.ready_replicas then running else provisioning)

module _ {Quantity : Type 0} where
  abbrev pub with_phase : NotebookLabPhase → NotebookLab Quantity → NotebookLab Quantity
  with_phase p notebook = record notebook { status = record notebook.status { phase = p } }

  unfoldable pub access_url : NotebookLab Quantity → Text → Text
  access_url notebook token =
      codes "https://" ++ notebook.metadata.name ++ codes ".local/lab?token=" ++ token

  -- The notebook with the status that is reported of its deployment.
  unfoldable pub observed : NotebookLab Quantity → Deployment Quantity → Text → NotebookLab Quantity
  unfolding phase_of access_url
  observed notebook deploy token = record notebook {
    status = record notebook.status {
      phase = phase_of (wanted_replicas notebook) deploy.status;
      pvc_name = notebook.metadata.name ++ codes "-workspace";
      access_url = access_url notebook token;
    };
  }

  token_or_default : NotebookLab Quantity → Result Text → Text
  token_or_default notebook (ok token) = token
  token_or_default notebook (err e) = default_token notebook

module _ (M : Machinery) (C : Client M.Quantity) (notebook : NotebookLab M.Quantity) where
  unfoldable pub status_by : Result (Deployment M.Quantity) → Exec C.World (Unit {0})
  unfolding token_or_default
  status_by (ok deploy) = do
    token ← attempt (reconcile_notebook_secret M C notebook)
    C.update_status notebooklab (observed notebook deploy (token_or_default notebook token))
    pure tt
  status_by (err e) =
      if is_not_found e
      then (do C.update_status notebooklab (with_phase provisioning notebook); pure tt)
      else fail e

  unfoldable pub update_notebook_status : Exec C.World (Unit {0})
  update_notebook_status = do
    found ← attempt (reads (C.get deployment (own_key notebook)))
    status_by found

  -- The error of the status update is logged only, and the first error is returned.
  unfoldable pub update_status_error : Failure → Exec C.World (Unit {0})
  update_status_error e = do
    attempt (C.update_status notebooklab (with_phase failed notebook))
    fail e
