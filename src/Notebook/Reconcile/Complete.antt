-- ===== src/Notebook/Reconcile/Complete.antt =====
-- A run of `Reconcile` that neither fails nor purges leaves every child object in place.
use notebook_operator.Base.{false, Option, none, some, ◌≡◌}
use notebook_operator.Base.Text.{codes}
use notebook_operator.Base.Duration.{Duration}
use notebook_operator.Exec.{ok, Exec, pure, ◌>>=◌, ◌>>◌, >>=-eq-ok}
use notebook_operator.Exec.Keeps.{Keeps, keeps_rules}
use notebook_operator.Exec.Ensures.{Ensures, Any, Ensures-first, Ensures-second}
use notebook_operator.Kube.Meta.{NamespacedName}
use notebook_operator.Api.NotebookLab.{NotebookLab, WorkspaceSpec}
use notebook_operator.Client.{
  Kind, Client, Machinery, notebooklab, deployment, pvc, secret, service, ingress,
}
use notebook_operator.Client.Laws.{Exists, IsLawful, KeepsNames}
use notebook_operator.Notebook.Lifecycle.{workspace_key, Clock, Lifecycle, reconcile_lifecycle}
use notebook_operator.Notebook.Children.{child_key, own_key}
use notebook_operator.Notebook.Deployment.{place_deployment, reconcile_jupyter_deployment}
use notebook_operator.Notebook.Networking.{reconcile_ingress, reconcile_networking}
use notebook_operator.Notebook.Status.{update_notebook_status}
use notebook_operator.Notebook.Reconcile.Defs.{
  reported, workspace_step, provision, workspace_of, after_lifecycle, reconcile_found, reconcile,
}
use notebook_operator.Notebook.Reconcile.Keeps.{
  reconcile_networking-Keeps, reported-Keeps, update_notebook_status-Keeps, place_deployment-Keeps,
  reconcile_jupyter_deployment-Keeps, reconcile_ingress-Keeps,
}
use notebook_operator.Notebook.Reconcile.Children.{
  Keeps-create, Keeps-patch, Keeps-update_status, workspace-Ensures, secret-Ensures,
  service-Ensures, ingress-Ensures, place-Ensures, reported-Ensures,
}

module _ (M : Machinery) (C : Client M.Quantity) (notebook : NotebookLab M.Quantity) where
  -- All the child objects, the claim if the notebook asks for a workspace.
  pub record Provisioned (w : C.World) : Type 0 where
    pub workspace :
        (spec : WorkspaceSpec M.Quantity)
        → workspace_of notebook ≡ some spec
        → Exists C pvc (workspace_key notebook) w
    pub secret : Exists C secret (child_key notebook (codes "-secret")) w
    pub deployment : Exists C deployment (own_key notebook) w
    pub service : Exists C service (child_key notebook (codes "-svc")) w
    pub ingress : Exists C ingress (child_key notebook (codes "-ingress")) w

module _ (M : Machinery) (C : Client M.Quantity) (L : IsLawful C) (N : KeepsNames M)
    (notebook : NotebookLab M.Quantity) (j : Kind) (key : NamespacedName) where
  abbrev There : C.World → Type 0
  There = Exists C j key

  place-Keeps : Keeps There (place_deployment M C notebook)
  place-Keeps =
      place_deployment-Keeps M C notebook (λ k c. Keeps-create M C L j key k)
        (Keeps-patch M C L j key) (Keeps-update_status M C L j key)

  ingress-Keeps : Keeps There (reconcile_ingress M C notebook)
  ingress-Keeps =
      reconcile_ingress-Keeps M C notebook (λ k c. Keeps-create M C L j key k)
        (Keeps-patch M C L j key) (Keeps-update_status M C L j key)

  status-Keeps : Keeps There (update_notebook_status M C notebook)
  status-Keeps =
      update_notebook_status-Keeps M C notebook (λ k c. Keeps-create M C L j key k)
        (Keeps-patch M C L j key) (Keeps-update_status M C L j key)

  step-Keeps : (m : Exec C.World (Unit {0})) → Keeps There m → Keeps There (reported M C notebook m)
  step-Keeps =
      reported-Keeps M C notebook (λ k c. Keeps-create M C L j key k) (Keeps-patch M C L j key)
        (Keeps-update_status M C L j key)

  deployment-Keeps : Keeps There (reconcile_jupyter_deployment M C notebook)
  deployment-Keeps =
      reconcile_jupyter_deployment-Keeps M C notebook (λ k c. Keeps-create M C L j key k)
        (Keeps-patch M C L j key) (Keeps-update_status M C L j key)

  networking-Keeps : Keeps There (reconcile_networking M C notebook)
  networking-Keeps =
      reconcile_networking-Keeps M C notebook (λ k c. Keeps-create M C L j key k)
        (Keeps-patch M C L j key) (Keeps-update_status M C L j key)

  ruleset step_rules = (keeps_rules, step-Keeps, deployment-Keeps, networking-Keeps, status-Keeps)

  -- What the first, the second or the third step of `provision` ensures is there at its end.
  after_first :
      Ensures Any (workspace_step M C notebook (workspace_of notebook)) (λ _. There)
      → Ensures Any (provision M C notebook) (λ _. There)
  unfolding provision
  after_first e =
      Ensures-first There _ _ (reported-Ensures M C L N notebook There _ e) (search step_rules)

  after_second :
      Ensures Any (reconcile_jupyter_deployment M C notebook) (λ _. There)
      → Ensures Any (provision M C notebook) (λ _. There)
  unfolding provision
  after_second e =
      Ensures-second There _ _
        (Ensures-first There _ _ (reported-Ensures M C L N notebook There _ e) (search step_rules))

  after_third :
      Ensures Any (reconcile_networking M C notebook) (λ _. There)
      → Ensures Any (provision M C notebook) (λ _. There)
  unfolding provision
  after_third e = Ensures-second There _ _ (
      Ensures-second There _ _
        (Ensures-first There _ _ (reported-Ensures M C L N notebook There _ e) (search step_rules)))

module _ (M : Machinery) (C : Client M.Quantity) (L : IsLawful C) (N : KeepsNames M)
    (notebook : NotebookLab M.Quantity) where
  secret-after :
      Ensures Any
        (reconcile_jupyter_deployment M C notebook)
        (λ _. Exists C secret (child_key notebook (codes "-secret")))
  unfolding reconcile_jupyter_deployment
  secret-after =
      Ensures-first _ _ _ (secret-Ensures M C L N notebook) (place-Keeps M C L N notebook secret _)

  deployment-after :
      Ensures Any
        (reconcile_jupyter_deployment M C notebook)
        (λ _. Exists C deployment (own_key notebook))
  unfolding reconcile_jupyter_deployment
  deployment-after = Ensures-second _ _ _ (place-Ensures M C L N notebook)

  service-after :
      Ensures Any
        (reconcile_networking M C notebook)
        (λ _. Exists C service (child_key notebook (codes "-svc")))
  unfolding reconcile_networking
  service-after =
      Ensures-first _ _ _ (service-Ensures M C L N notebook)
        (ingress-Keeps M C L N notebook service _)

  ingress-after :
      Ensures Any
        (reconcile_networking M C notebook)
        (λ _. Exists C ingress (child_key notebook (codes "-ingress")))
  unfolding reconcile_networking
  ingress-after = Ensures-second _ _ _ (ingress-Ensures M C L N notebook)

  workspace-after :
      (spec : WorkspaceSpec M.Quantity) (o : Option (WorkspaceSpec M.Quantity))
      → o ≡ some spec
      → Ensures Any (workspace_step M C notebook o) (λ _. Exists C pvc (workspace_key notebook))
  unfolding workspace_step
  workspace-after spec none e = cc
  workspace-after spec (some s) e = workspace-Ensures M C L N notebook s

  abbrev Ends : (C.World → Type 0) → C.World → Type 0
  Ends Q w = (a : Unit {0}) → (provision M C notebook w).0 ≡ ok a → Q (provision M C notebook w).1

  ends :
      (Q : C.World → Type 0)
      → Ensures Any (provision M C notebook) (λ _. Q)
      → (w : C.World) → Ends Q w
  ends Q e w a h = rw h at (e.at w tt)

  provision-Provisioned :
      (w : C.World) (a : Unit {0})
      → (provision M C notebook w).0 ≡ ok a
      → Provisioned M C notebook (provision M C notebook w).1
  provision-Provisioned w a h = record {
    workspace =
        λ spec e. ends _ (after_first M C L N notebook pvc _ (workspace-after spec _ e)) w a h;
    secret = ends _ (after_second M C L N notebook secret _ secret-after) w a h;
    deployment = ends _ (after_second M C L N notebook deployment _ deployment-after) w a h;
    service = ends _ (after_third M C L N notebook service _ service-after) w a h;
    ingress = ends _ (after_third M C L N notebook ingress _ ingress-after) w a h;
  }

module _ (M : Machinery) (C : Client M.Quantity) where
  -- A run on a notebook that is there, up to the outcome of its policies.
  pub reconcile_unfolded :
      (clock : Clock) (req : NamespacedName) (notebook : NotebookLab M.Quantity) (w w' : C.World)
      (l : Lifecycle M.Quantity)
      → C.get notebooklab req w ≡ ok notebook
      → reconcile_lifecycle C clock notebook w ≡ (ok l, w')
      → reconcile M C clock req w ≡ after_lifecycle M C l w'
  unfolding reconcile reconcile_found ◌>>=◌
  reconcile_unfolded clock req notebook w w' l found policies =
      rw (found, reconcile_found, policies)

  after_lifecycle_complete :
      IsLawful C
      → KeepsNames M
      → (l : Lifecycle M.Quantity) (w : C.World) (d : Duration) → l.purged ≡ false
      → (after_lifecycle M C l w).0 ≡ ok d
      → Provisioned M C l.notebook (after_lifecycle M C l w).1 × (d ≡ l.requeue_after)
  unfolding after_lifecycle ◌>>=◌
  after_lifecycle_complete L N l w d kept h = rw kept (
      let run : Exec C.World Duration = provision M C l.notebook >> pure l.requeue_after in
      let e : (run w).0 ≡ ok d = rw kept at h in
      let (a, done, whole) =
        >>=-eq-ok (provision M C l.notebook) (λ _. pure l.requeue_after) w d e in
      (rw whole (provision-Provisioned M C L N l.notebook w a done), cc (e, whole)))

  -- If a run of `Reconcile` on a notebook that is there does not purge it and returns no error, then
  -- at its end the secret, the deployment, the service and the ingress of the notebook exist, and the
  -- workspace claim if the notebook asks for one; the requeue time is that of the policies. The
  -- client is assumed to obey its laws, and owner references to leave names alone.
  pub reconcile_complete :
      IsLawful C
      → KeepsNames M
      → (clock : Clock) (req : NamespacedName) (notebook : NotebookLab M.Quantity) (w w' : C.World)
        (l : Lifecycle M.Quantity) (d : Duration)
      → C.get notebooklab req w ≡ ok notebook
      → reconcile_lifecycle C clock notebook w ≡ (ok l, w')
      → l.purged ≡ false
      → (reconcile M C clock req w).0 ≡ ok d
      → Provisioned M C l.notebook (reconcile M C clock req w).1 × (d ≡ l.requeue_after)
  reconcile_complete L N clock req notebook w w' l d found policies kept h =
      let e = reconcile_unfolded clock req notebook w w' l found policies in
      rw e (after_lifecycle_complete L N l w' d kept (rw e at h))
