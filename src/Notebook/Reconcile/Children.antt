-- ===== src/Notebook/Reconcile/Children.antt =====
-- Each step of `provision` that returns no error leaves its child object of the notebook in place.
use notebook_operator.Base.{◌≡◌, refl, ap, subst, ◌∙◌}
use notebook_operator.Base.Text.{codes}
use notebook_operator.Exec.{Result, ok, err, Exec, is_not_found, pure, ◌>>=◌, ◌>>◌}
use notebook_operator.Exec.Keeps.{Keeps}
use notebook_operator.Exec.Ensures.{
  Ensures, Returned, Any, Ensures-of, Ensures-pure, Ensures-fail, Ensures-if, Ensures-bind,
  Ensures-reads, Ensures-attempt-reads, Ensures-attempt, Ensures-any, Ensures-weaken,
}
use notebook_operator.Kube.Meta.{ObjectMeta, NamespacedName}
use notebook_operator.Kube.Objects.{PersistentVolumeClaim, Secret, Deployment, Service, Ingress}
use notebook_operator.Api.NotebookLab.{NotebookLab, WorkspaceSpec}
use notebook_operator.Client.{
  Kind, Obj, key_of, metadata_of, Client, Machinery, notebooklab, deployment, pvc, secret, service,
  ingress,
}
use notebook_operator.Client.Laws.{Exists, IsLawful, KeepsNames}
use notebook_operator.Notebook.Lifecycle.{workspace_key}
use notebook_operator.Notebook.Children.{
  child_key, own_key, owned, workspace_pvc_by, create_workspace_pvc, reconcile_workspace_pvc,
  create_secret, notebook_secret_by, reconcile_notebook_secret, new_workspace_pvc, new_secret,
}
use notebook_operator.Notebook.Deployment.{apply_deployment, place_deployment, desired_deployment}
use notebook_operator.Notebook.Networking.{
  create_service, service_by, create_ingress, ingress_by, reconcile_service, reconcile_ingress,
  new_service, new_ingress,
}
use notebook_operator.Notebook.Status.{update_status_error}
use notebook_operator.Notebook.Reconcile.Defs.{report_by, reported}

abbrev name_in : ObjectMeta → NamespacedName
name_in m = record { namespace = m.namespace; name = m.name }

module _ (M : Machinery) (C : Client M.Quantity) (L : IsLawful C) where
  pub Keeps-create :
      (j : Kind) (key : NamespacedName) (k : Kind) (o : Obj M.Quantity k)
      → Keeps (Exists C j key) (C.create k o)
  Keeps-create j key k o = record { at = λ w (x, h). (x, L.get-create_old k j o key x w h) }

  pub Keeps-patch :
      (j : Kind) (key : NamespacedName) (o n : Deployment M.Quantity)
      → Keeps (Exists C j key) (C.patch deployment o n)
  Keeps-patch j key o n = record { at = λ w h. L.Exists-patch deployment j o n key w h }

  pub Keeps-update_status :
      (j : Kind) (key : NamespacedName) (o : NotebookLab M.Quantity)
      → Keeps (Exists C j key) (C.update_status notebooklab o)
  Keeps-update_status j key o = record {
    at = λ w h. L.Exists-update_status notebooklab j o key w h;
  }

  Ensures-create :
      (P : C.World → Type 0) (k : Kind) (o : Obj M.Quantity k) (key : NamespacedName)
      → key_of M.Quantity k o ≡ key
      → Ensures P (C.create k o) (λ x. Exists C k key)
  Ensures-create P k o key e =
      Ensures-of P (C.create k o) _
        (λ w a p h. subst (λ i. Exists C k i (C.create k o w).1) e (a, L.get-create_self k o a w h))

module _ (M : Machinery) (C : Client M.Quantity) (L : IsLawful C) (N : KeepsNames M)
    (notebook : NotebookLab M.Quantity) where
  owned_name :
      (m m' : ObjectMeta)
      → M.set_controller_reference notebook.metadata m ≡ ok m'
      → name_in m' ≡ name_in m
  owned_name m m' h = cc (N.name notebook.metadata m m' h, N.namespace notebook.metadata m m' h)

  -- Making the notebook the owner of new metadata, then creating the object with it.
  Ensures-create_owned :
      {A : Type 0} (k : Kind) (o : ObjectMeta → Obj M.Quantity k) (m : ObjectMeta) (a : A)
      → ((x : ObjectMeta) → metadata_of M.Quantity k (o x) ≡ x)
      → Ensures Any
          (owned M C notebook m >>= λ m'. C.create k (o m') >> pure a)
          (λ _. Exists C k (name_in m))
  Ensures-create_owned k o m a keeps =
      Ensures-bind (owned M C notebook m) _ (Ensures-reads Any _) λ m'. record {
        at = λ w p.
            (Ensures-bind (C.create k (o m')) (λ _. pure a)
                (Ensures-create M C L Any k (o m') (name_in m)
                  (ap name_in (keeps m') ∙ owned_name m m' p.1))
                (λ x. Ensures-pure a (λ w h. h))).at
              w tt;
      }

  workspace_pvc_by-Ensures :
      (workspace : WorkspaceSpec M.Quantity) (r : Result (PersistentVolumeClaim M.Quantity))
      → Ensures
          (λ w. Any w × (C.get pvc (workspace_key notebook) w ≡ r))
          (workspace_pvc_by M C notebook workspace r)
          (λ _. Exists C pvc (workspace_key notebook))
  unfolding workspace_pvc_by create_workspace_pvc new_workspace_pvc
  workspace_pvc_by-Ensures workspace (ok claim) = Ensures-pure tt (λ w h. (claim, h.1))
  workspace_pvc_by-Ensures workspace (err e) =
      Ensures-if (is_not_found e) _ _
        (Ensures-weaken Any _ _ _ (λ w h. tt) (Ensures-create_owned pvc _ _ tt (λ x. refl)))
        (Ensures-fail e)

  pub workspace-Ensures :
      (workspace : WorkspaceSpec M.Quantity)
      → Ensures Any
          (reconcile_workspace_pvc M C notebook workspace)
          (λ _. Exists C pvc (workspace_key notebook))
  unfolding reconcile_workspace_pvc
  workspace-Ensures workspace =
      Ensures-bind _ _ (Ensures-attempt-reads Any _) (workspace_pvc_by-Ensures workspace)

  pub secret_by-Ensures :
      (r : Result Secret)
      → Ensures
          (λ w. Any w × (C.get secret (child_key notebook (codes "-secret")) w ≡ r))
          (notebook_secret_by M C notebook r)
          (λ _. Exists C secret (child_key notebook (codes "-secret")))
  unfolding notebook_secret_by create_secret new_secret
  secret_by-Ensures (ok s) = Ensures-pure _ (λ w h. (s, h.1))
  secret_by-Ensures (err e) =
      Ensures-if (is_not_found e) _ _
        (Ensures-weaken Any _ _ _ (λ w h. tt) (Ensures-create_owned secret _ _ _ (λ x. refl)))
        (Ensures-fail e)

  pub secret-Ensures :
      Ensures Any
        (reconcile_notebook_secret M C notebook)
        (λ _. Exists C secret (child_key notebook (codes "-secret")))
  unfolding reconcile_notebook_secret
  secret-Ensures = Ensures-bind _ _ (Ensures-attempt-reads Any _) secret_by-Ensures

  pub service_by-Ensures :
      (r : Result Service)
      → Ensures
          (λ w. Any w × (C.get service (child_key notebook (codes "-svc")) w ≡ r))
          (service_by M C notebook r)
          (λ _. Exists C service (child_key notebook (codes "-svc")))
  unfolding service_by create_service new_service
  service_by-Ensures (ok s) = Ensures-pure _ (λ w h. (s, h.1))
  service_by-Ensures (err e) =
      Ensures-if (is_not_found e) _ _
        (Ensures-weaken Any _ _ _ (λ w h. tt) (Ensures-create_owned service _ _ _ (λ x. refl)))
        (Ensures-fail e)

  pub service-Ensures :
      Ensures Any
        (reconcile_service M C notebook)
        (λ _. Exists C service (child_key notebook (codes "-svc")))
  unfolding reconcile_service
  service-Ensures = Ensures-bind _ _ (Ensures-attempt-reads Any _) service_by-Ensures

  pub ingress_by-Ensures :
      (r : Result Ingress)
      → Ensures
          (λ w. Any w × (C.get ingress (child_key notebook (codes "-ingress")) w ≡ r))
          (ingress_by M C notebook r)
          (λ _. Exists C ingress (child_key notebook (codes "-ingress")))
  unfolding ingress_by create_ingress new_ingress
  ingress_by-Ensures (ok s) = Ensures-pure _ (λ w h. (s, h.1))
  ingress_by-Ensures (err e) =
      Ensures-if (is_not_found e) _ _
        (Ensures-weaken Any _ _ _ (λ w h. tt) (Ensures-create_owned ingress _ _ _ (λ x. refl)))
        (Ensures-fail e)

  pub ingress-Ensures :
      Ensures Any
        (reconcile_ingress M C notebook)
        (λ _. Exists C ingress (child_key notebook (codes "-ingress")))
  unfolding reconcile_ingress
  ingress-Ensures = Ensures-bind _ _ (Ensures-attempt-reads Any _) ingress_by-Ensures

  pub apply_deployment-Ensures :
      (m : ObjectMeta)
      → name_in m ≡ own_key notebook
      → (r : Result (Deployment M.Quantity))
      → Ensures
          (λ w. Any w × (C.get deployment (own_key notebook) w ≡ r))
          (apply_deployment M C notebook
            (record (desired_deployment M notebook) { metadata = m })
            r)
          (λ _. Exists C deployment (own_key notebook))
  unfolding apply_deployment
  apply_deployment-Ensures m e (ok existing) =
      Ensures-bind {R = λ _. Exists C deployment (own_key notebook)} _ _
        (Ensures-of _ _ _ (λ w a p h.
          L.Exists-patch deployment deployment existing _ (own_key notebook) w (existing, p.1)))
        (λ x. Ensures-pure tt (λ w h. h))
  apply_deployment-Ensures m e (err f) =
      Ensures-if (is_not_found f) _ _
        (Ensures-bind _ _ (Ensures-create M C L _ deployment _ _ e)
          (λ x. Ensures-pure tt (λ w h. h)))
        (Ensures-fail f)

  pub place-Ensures :
      Ensures Any (place_deployment M C notebook) (λ _. Exists C deployment (own_key notebook))
  unfolding place_deployment desired_deployment
  place-Ensures = Ensures-bind _ _ (Ensures-reads Any _) λ m. record {
    at = λ w p.
        (Ensures-bind _ _ (Ensures-attempt-reads Any _)
            (apply_deployment-Ensures m (owned_name _ m p.1))).at
          w tt;
  }

  pub reported-Ensures :
      (Q : C.World → Type 0) (m : Exec C.World (Unit {0}))
      → Ensures Any m (λ _. Q)
      → Ensures Any (reported M C notebook m) (λ _. Q)
  unfolding reported report_by update_status_error
  reported-Ensures Q m e = Ensures-bind _ _ (Ensures-attempt Any m (λ _. Q) e) by_result
    where
      by_result :
          (r : Result (Unit {0}))
          → Ensures (Returned (λ _. Q) r) (report_by M C notebook r) (λ _. Q)
      by_result (ok done) = Ensures-pure tt (λ w h. h)
      by_result (err f) = Ensures-bind _ _ (Ensures-any _ _) (λ x. Ensures-fail f)
