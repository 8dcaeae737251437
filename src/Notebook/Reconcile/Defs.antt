-- ===== src/Notebook/Reconcile/Defs.antt =====
-- `Reconcile` of internal/controller/notebooklab_controller.go. The result is `RequeueAfter`, where
-- 0 stands for no requeue.
use notebook_operator.Base.{Option, none, some, if◌then◌else◌}
use notebook_operator.Base.Int.{pos}
use notebook_operator.Base.Duration.{Duration}
use notebook_operator.Exec.{
  Result, ok, err, Exec, is_not_found, pure, fail, reads, attempt, ◌>>=◌, ◌>>◌,
}
use notebook_operator.Kube.Meta.{NamespacedName}
use notebook_operator.Api.NotebookLab.{NotebookLab, WorkspaceSpec}
use notebook_operator.Client.{Client, Machinery, notebooklab}
use notebook_operator.Notebook.Lifecycle.{Clock, Lifecycle, reconcile_lifecycle}
use notebook_operator.Notebook.Children.{reconcile_workspace_pvc}
use notebook_operator.Notebook.Deployment.{reconcile_jupyter_deployment}
use notebook_operator.Notebook.Networking.{reconcile_networking}
use notebook_operator.Notebook.Status.{update_notebook_status, update_status_error}

-- notebook.Spec.Storage.Workspace, if neither pointer is nil
abbrev pub workspace_of :
    {Quantity : Type 0} → NotebookLab Quantity → Option (WorkspaceSpec Quantity)
workspace_of notebook = elim notebook.spec.storage [ none ↦ none | some s ↦ s.workspace ]

module _ (M : Machinery) (C : Client M.Quantity) where
  module _ (notebook : NotebookLab M.Quantity) where
    unfoldable pub report_by : Result (Unit {0}) → Exec C.World (Unit {0})
    report_by (ok done) = pure tt
    report_by (err e) = update_status_error M C notebook e

    -- A step whose error is reported in the status before it is returned.
    unfoldable pub reported : Exec C.World (Unit {0}) → Exec C.World (Unit {0})
    unfolding report_by
    reported m = do r ← attempt m; report_by r

    unfoldable pub workspace_step : Option (WorkspaceSpec M.Quantity) → Exec C.World (Unit {0})
    workspace_step none = pure tt
    workspace_step (some workspace) = reconcile_workspace_pvc M C notebook workspace

    -- Parts 2 to 5.
    unfoldable pub provision : Exec C.World (Unit {0})
    provision = do
      reported (workspace_step (workspace_of notebook))
      reported (reconcile_jupyter_deployment M C notebook)
      reported (reconcile_networking M C notebook)
      update_notebook_status M C notebook

  unfoldable pub after_lifecycle : Lifecycle M.Quantity → Exec C.World Duration
  after_lifecycle l =
      if l.purged then pure (pos 0) else do provision l.notebook; pure l.requeue_after

  unfoldable pub reconcile_found : Clock → Result (NotebookLab M.Quantity) → Exec C.World Duration
  reconcile_found clock (ok notebook) = do
    l ← reconcile_lifecycle C clock notebook
    after_lifecycle l
  reconcile_found clock (err e) = if is_not_found e then pure (pos 0) else fail e

  unfoldable pub reconcile : Clock → NamespacedName → Exec C.World Duration
  reconcile clock req = do
    found ← attempt (reads (C.get notebooklab req))
    reconcile_found clock found
