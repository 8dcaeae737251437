-- ===== src/System/Notebooks.antt =====
-- What a run of the NotebookLab controller leaves alone.
use notebook_operator.Base.{◌≡◌, ◌≢◌, refl, inl, inr, Option, none, some}
use notebook_operator.Base.Duration.{Duration}
use notebook_operator.Exec.{Result, ok, err, ◌>>=◌}
use notebook_operator.Exec.Keeps.{Keeps, keeps_rules}
use notebook_operator.Kube.Meta.{NamespacedName, Time}
use notebook_operator.Kube.Objects.{PersistentVolumeClaim}
use notebook_operator.Api.NotebookLab.{NotebookLab, LifecycleSpec}
use notebook_operator.Client.{Kind, Obj, Client, Machinery, notebooklab, pvc, deployment}
use notebook_operator.Client.Laws.{IsLawful}
use notebook_operator.Client.Frame.{
  Still, create-Still, patch-Still, delete-Still, update_status-Still,
}
use notebook_operator.Notebook.Lifecycle.{
  Clock, Lifecycle, delete_workspace, purge, check_purge, check_pauses, lifecycle_by,
  reconcile_lifecycle,
}
use notebook_operator.Notebook.Reconcile.{provision, after_lifecycle, reconcile_found, reconcile}
use notebook_operator.Notebook.Reconcile.Keeps.{
  IsChild, a_claim, a_secret, a_deployment, a_service, an_ingress, provision-Keeps,
}
use notebook_operator.Notebook.Reconcile.Untouched.{check_idle-Keeps, check_lifespan_by-Keeps}
use notebook_operator.Manager.Controllers.{Watches, notebook_lab_controller}

module _ (M : Machinery) (C : Client M.Quantity) (L : IsLawful C) (j : Kind)
    (unwatched : ¬ Watches (notebook_lab_controller {Quantity = M.Quantity}).watched j)
    (key : NamespacedName) (r : Result (Obj M.Quantity j)) where
  abbrev Same : C.World → Type 0
  Same = Still C L j key r

  not_a_notebook : notebooklab ≢ j
  not_a_notebook e = unwatched (inl e)

  child-Unwatched : (k : Kind) → IsChild k → k ≢ j
  child-Unwatched _ a_deployment e = unwatched (inr (inl e))
  child-Unwatched _ a_claim e = unwatched (inr (inr (inl e)))
  child-Unwatched _ a_service e = unwatched (inr (inr (inr (inl e))))
  child-Unwatched _ an_ingress e = unwatched (inr (inr (inr (inr (inl e)))))
  child-Unwatched _ a_secret e = unwatched (inr (inr (inr (inr (inr (inl e))))))

  delete_notebook-Same : (nb : NotebookLab M.Quantity) → Keeps Same (C.delete notebooklab nb)
  delete_notebook-Same nb = delete-Still C L j key r notebooklab nb (inl not_a_notebook)

  delete_claim-Same : (o : PersistentVolumeClaim M.Quantity) → Keeps Same (C.delete pvc o)
  delete_claim-Same o = delete-Still C L j key r pvc o (inl (child-Unwatched pvc a_claim))

  patch_notebook-Same : (o n : NotebookLab M.Quantity) → Keeps Same (C.patch notebooklab o n)
  patch_notebook-Same o n = patch-Still C L j key r notebooklab o n (inl not_a_notebook)

  delete_workspace-Same :
      (s : Result (PersistentVolumeClaim M.Quantity)) → Keeps Same (delete_workspace C s)
  unfolding delete_workspace
  delete_workspace-Same (ok o) = search (keeps_rules, delete_claim-Same)
  delete_workspace-Same (err e) = search keeps_rules

  check_purge-Same :
      (l : LifecycleSpec) (now : Time) (nb : NotebookLab M.Quantity)
      → Keeps Same (check_purge C l now nb)
  unfolding check_purge purge
  check_purge-Same l now nb =
      search (keeps_rules, delete_workspace-Same, delete_notebook-Same) depth 9

  check_pauses-Same :
      (l : LifecycleSpec) (clock : Clock) (nb : NotebookLab M.Quantity) (o : Option Duration)
      → Keeps Same (check_pauses C l clock nb o)
  unfolding check_pauses
  check_pauses-Same l clock nb none = search keeps_rules
  check_pauses-Same l clock nb (some d) = search (
    keeps_rules,
    check_idle-Keeps C patch_notebook-Same,
    check_lifespan_by-Keeps C patch_notebook-Same,
  )

  lifecycle_by-Same :
      (clock : Clock) (nb : NotebookLab M.Quantity) (o : Option LifecycleSpec)
      → Keeps Same (lifecycle_by C clock nb o)
  unfolding lifecycle_by
  lifecycle_by-Same clock nb none = search keeps_rules
  lifecycle_by-Same clock nb (some l) = search (keeps_rules, check_purge-Same, check_pauses-Same)

  provision-Same : (nb : NotebookLab M.Quantity) → Keeps Same (provision M C nb)
  provision-Same nb =
      provision-Keeps M C nb
        (λ k child o. create-Still C L j key r k o (inl (child-Unwatched k child)))
        (λ o n.
          patch-Still C L j key r deployment o n (inl (child-Unwatched deployment a_deployment)))
        (λ o. update_status-Still C L j key r notebooklab o (inl not_a_notebook))

  after_lifecycle-Same : (l : Lifecycle M.Quantity) → Keeps Same (after_lifecycle M C l)
  unfolding after_lifecycle
  after_lifecycle-Same l = search (keeps_rules, provision-Same)

  found-Same :
      (clock : Clock) (s : Result (NotebookLab M.Quantity))
      → Keeps Same (reconcile_found M C clock s)
  unfolding reconcile_found reconcile_lifecycle
  found-Same clock (ok nb) = search (keeps_rules, lifecycle_by-Same, after_lifecycle-Same)
  found-Same clock (err e) = search keeps_rules

  pub notebook_run-Same :
      (clock : Clock) (req : NamespacedName) (w : C.World)
      → Same w
      → Same (reconcile M C clock req w).1
  unfolding reconcile ◌>>=◌
  notebook_run-Same clock req w same = (found-Same clock (C.get notebooklab req w)).at w same

-- A run of the NotebookLab controller, whether it fails or not, writes only objects of the kinds whose
-- changes it is told of: every read of an object of a kind that it does not watch answers afterwards
-- what it did before. The client is assumed to obey its laws.
pub notebook_writes_watched :
    (M : Machinery) (C : Client M.Quantity)
    → IsLawful C
    → (j : Kind) (key : NamespacedName) (clock : Clock) (req : NamespacedName) (w : C.World)
    → ¬ Watches (notebook_lab_controller {Quantity = M.Quantity}).watched j
    → C.get j key (reconcile M C clock req w).1 ≡ C.get j key w
notebook_writes_watched M C L j key clock req w unwatched =
    notebook_run-Same M C L j unwatched key (C.get j key w) clock req w refl
