-- ===== src/Notebook/Reconcile/Keeps.antt =====
-- What the parts of `provision` keep: whatever a create, a patch of the deployment and an update of
-- the notebook's status keep.
use notebook_operator.Base.{Option, none, some}
use notebook_operator.Exec.{Result, ok, err, Exec}
use notebook_operator.Exec.Keeps.{Keeps, keeps_rules}
use notebook_operator.Kube.Objects.{PersistentVolumeClaim, Secret, Deployment, Service, Ingress}
use notebook_operator.Api.NotebookLab.{NotebookLab, WorkspaceSpec}
use notebook_operator.Client.{
  Kind, Obj, Client, Machinery, notebooklab, pvc, secret, deployment, service, ingress,
}
use notebook_operator.Notebook.Children.{
  workspace_pvc_by, create_workspace_pvc, reconcile_workspace_pvc, create_secret,
  notebook_secret_by, reconcile_notebook_secret,
}
use notebook_operator.Notebook.Deployment.{
  apply_deployment, place_deployment, reconcile_jupyter_deployment,
}
use notebook_operator.Notebook.Networking.{
  create_service, service_by, create_ingress, ingress_by, reconcile_service, reconcile_ingress,
  reconcile_networking,
}
use notebook_operator.Notebook.Status.{status_by, update_notebook_status, update_status_error}
use notebook_operator.Notebook.Reconcile.Defs.{report_by, reported, workspace_step, provision}

-- The kinds of the objects that a notebook gets.
pub data IsChild : Kind → Type 0 where
  a_claim : IsChild pvc
  a_secret : IsChild secret
  a_deployment : IsChild deployment
  a_service : IsChild service
  an_ingress : IsChild ingress

ruleset child_kinds = (a_claim, a_secret, a_deployment, a_service, an_ingress)

module _ (M : Machinery) (C : Client M.Quantity) (notebook : NotebookLab M.Quantity)
    {P : C.World → Type 0}
    (creates : (k : Kind) → IsChild k → (o : Obj M.Quantity k) → Keeps P (C.create k o))
    (patches : (o n : Deployment M.Quantity) → Keeps P (C.patch deployment o n))
    (reports : (o : NotebookLab M.Quantity) → Keeps P (C.update_status notebooklab o)) where
  workspace_pvc_by-Keeps :
      (workspace : WorkspaceSpec M.Quantity) (r : Result (PersistentVolumeClaim M.Quantity))
      → Keeps P (workspace_pvc_by M C notebook workspace r)
  unfolding workspace_pvc_by create_workspace_pvc
  workspace_pvc_by-Keeps workspace (ok claim) = search keeps_rules
  workspace_pvc_by-Keeps workspace (err e) = search (keeps_rules, creates, child_kinds)

  pub reconcile_workspace_pvc-Keeps :
      (workspace : WorkspaceSpec M.Quantity)
      → Keeps P (reconcile_workspace_pvc M C notebook workspace)
  unfolding reconcile_workspace_pvc
  reconcile_workspace_pvc-Keeps workspace = search (keeps_rules, workspace_pvc_by-Keeps)

  notebook_secret_by-Keeps : (r : Result Secret) → Keeps P (notebook_secret_by M C notebook r)
  unfolding notebook_secret_by create_secret
  notebook_secret_by-Keeps (ok s) = search keeps_rules
  notebook_secret_by-Keeps (err e) = search (keeps_rules, creates, child_kinds)

  pub reconcile_notebook_secret-Keeps : Keeps P (reconcile_notebook_secret M C notebook)
  unfolding reconcile_notebook_secret
  reconcile_notebook_secret-Keeps = search (keeps_rules, notebook_secret_by-Keeps)

  apply_deployment-Keeps :
      (d : Deployment M.Quantity) (r : Result (Deployment M.Quantity))
      → Keeps P (apply_deployment M C notebook d r)
  unfolding apply_deployment
  apply_deployment-Keeps d (ok existing) = search (keeps_rules, patches)
  apply_deployment-Keeps d (err e) = search (keeps_rules, creates, child_kinds)

  pub place_deployment-Keeps : Keeps P (place_deployment M C notebook)
  unfolding place_deployment
  place_deployment-Keeps = search (keeps_rules, apply_deployment-Keeps)

  pub reconcile_jupyter_deployment-Keeps : Keeps P (reconcile_jupyter_deployment M C notebook)
  unfolding reconcile_jupyter_deployment
  reconcile_jupyter_deployment-Keeps =
      search (keeps_rules, reconcile_notebook_secret-Keeps, place_deployment-Keeps)

  service_by-Keeps : (r : Result Service) → Keeps P (service_by M C notebook r)
  unfolding service_by create_service
  service_by-Keeps (ok s) = search keeps_rules
  service_by-Keeps (err e) = search (keeps_rules, creates, child_kinds)

  ingress_by-Keeps : (r : Result Ingress) → Keeps P (ingress_by M C notebook r)
  unfolding ingress_by create_ingress
  ingress_by-Keeps (ok s) = search keeps_rules
  ingress_by-Keeps (err e) = search (keeps_rules, creates, child_kinds)

  pub reconcile_service-Keeps : Keeps P (reconcile_service M C notebook)
  unfolding reconcile_service
  reconcile_service-Keeps = search (keeps_rules, service_by-Keeps)

  pub reconcile_ingress-Keeps : Keeps P (reconcile_ingress M C notebook)
  unfolding reconcile_ingress
  reconcile_ingress-Keeps = search (keeps_rules, ingress_by-Keeps)

  pub reconcile_networking-Keeps : Keeps P (reconcile_networking M C notebook)
  unfolding reconcile_networking
  reconcile_networking-Keeps =
      search (keeps_rules, reconcile_service-Keeps, reconcile_ingress-Keeps)

  status_by-Keeps : (r : Result (Deployment M.Quantity)) → Keeps P (status_by M C notebook r)
  unfolding status_by
  status_by-Keeps (ok d) = search (keeps_rules, reconcile_notebook_secret-Keeps, reports)
  status_by-Keeps (err e) = search (keeps_rules, reports)

  pub update_notebook_status-Keeps : Keeps P (update_notebook_status M C notebook)
  unfolding update_notebook_status
  update_notebook_status-Keeps = search (keeps_rules, status_by-Keeps)

  report_by-Keeps : (r : Result (Unit {0})) → Keeps P (report_by M C notebook r)
  unfolding report_by update_status_error
  report_by-Keeps (ok done) = search keeps_rules
  report_by-Keeps (err e) = search (keeps_rules, reports)

  pub reported-Keeps : (m : Exec C.World (Unit {0})) → Keeps P m → Keeps P (reported M C notebook m)
  unfolding reported
  reported-Keeps m k = search (keeps_rules, report_by-Keeps)

  pub workspace_step-Keeps :
      (workspace : Option (WorkspaceSpec M.Quantity))
      → Keeps P (workspace_step M C notebook workspace)
  unfolding workspace_step
  workspace_step-Keeps none = search keeps_rules
  workspace_step-Keeps (some workspace) = reconcile_workspace_pvc-Keeps workspace

  pub provision-Keeps : Keeps P (provision M C notebook)
  unfolding provision
  provision-Keeps =
      search
        (
          keeps_rules, reported-Keeps, workspace_step-Keeps, reconcile_jupyter_deployment-Keeps,
          reconcile_networking-Keeps, update_notebook_status-Keeps,
        )
        depth 9
