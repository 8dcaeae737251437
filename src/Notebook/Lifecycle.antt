-- ===== src/Notebook/Lifecycle.antt =====
-- `reconcileLifecycle` of internal/controller/notebooklab_controller.go: the policies by which a
-- notebook is purged or paused.
pub mod Limits
pub mod Purge
pub mod Requeue
use notebook_operator.Base.{
  Bool, true, false, ◌&&◌, ◌||◌, Option, none, some, ◌++◌, ite, if◌then◌else◌,
}
use notebook_operator.Base.Int.{pos, ltb_ℤ, leb_ℤ, eqb_ℤ, wrap64, ◌-ℤ◌}
use notebook_operator.Base.Duration.{Duration, minute, hour, times, sub}
use notebook_operator.Base.Text.{codes}
use notebook_operator.Exec.{
  nil_dereference, Result, ok, err, Exec, pure, fail, reads, attempt, ◌>>=◌, ◌>>◌,
}
use notebook_operator.Kube.Meta.{Time, NamespacedName}
use notebook_operator.Kube.Objects.{PersistentVolumeClaim}
use notebook_operator.Api.NotebookLab.{NotebookLab, LifecycleSpec, running, phase_dec}
use notebook_operator.Client.{Client, notebooklab, pvc}

-- The readings of the clock by the three calls of `time.Since`.
pub record Clock : Type 0 where
  pub at_purge : Time
  pub at_idle : Time
  pub at_lifespan : Time

module _ {Quantity : Type 0} where
  -- `lastActive`
  unfoldable pub last_active : NotebookLab Quantity → Time
  last_active notebook = elim notebook.status.last_active_time [
    | none ↦ notebook.metadata.creation_timestamp
    | some t ↦ t
  ]

  -- notebook.Spec.Replicas = ptr.To(int32(0))
  abbrev pub paused_spec : NotebookLab Quantity → NotebookLab Quantity
  paused_spec notebook = record notebook { spec = record notebook.spec { replicas = some (pos 0) } }

  abbrev pub is_running : NotebookLab Quantity → Bool
  is_running notebook = ite (phase_dec notebook.status.phase running) true false

  abbrev pub workspace_key : NotebookLab Quantity → NamespacedName
  workspace_key notebook = record {
    namespace = notebook.metadata.namespace;
    name = notebook.metadata.name ++ codes "-workspace";
  }

-- The three limits, as the products of `time.Duration`.
unfoldable pub max_inactive : LifecycleSpec → Duration
unfolding times
max_inactive l = times (times l.purge_after_inactive_days (pos 24)) hour

unfoldable pub max_idle : LifecycleSpec → Duration
unfolding times
max_idle l = times l.idle_timeout_minutes minute

unfoldable pub max_lifespan : LifecycleSpec → Duration
unfolding times
max_lifespan l = times l.max_lifespan_hours hour

-- The new value of `requeueAfter`, where 0 stands for none, from the time that is left of a limit.
unfoldable pub sooner : Duration → Duration → Duration
sooner requeue_after remaining =
    if eqb_ℤ requeue_after (pos 0) || ltb_ℤ remaining requeue_after
    then remaining
    else requeue_after

-- What `reconcileLifecycle` returns, with the notebook as it leaves it.
pub record Lifecycle (Quantity : Type 0) : Type 0 where
  pub purged : Bool
  pub requeue_after : Duration
  pub notebook : NotebookLab Quantity

module _ {Quantity : Type 0} (C : Client Quantity) where
  -- The deletion of the workspace claim, with its errors logged only.
  unfoldable pub delete_workspace :
      Result (PersistentVolumeClaim Quantity) → Exec C.World (Unit {0})
  delete_workspace (ok claim) = do attempt (C.delete pvc claim); pure tt
  delete_workspace (err e) = pure tt

  unfoldable pub purge : NotebookLab Quantity → Exec C.World (Unit {0})
  purge notebook = do
    found ← attempt (reads (C.get pvc (workspace_key notebook)))
    delete_workspace found
    C.delete notebooklab notebook

  -- Part 1. `none` if the notebook has been purged.
  unfoldable pub check_purge :
      LifecycleSpec → Time → NotebookLab Quantity → Exec C.World (Option Duration)
  check_purge l now notebook =
      let inactive = sub now (last_active notebook) in
      if ltb_ℤ (pos 0) l.purge_after_inactive_days
      then (if leb_ℤ (max_inactive l) inactive
          then (do purge notebook; pure none)
          else pure (some (wrap64 (max_inactive l -ℤ inactive))))
      else pure (some (pos 0))

  -- What parts 2 and 3 do when `elapsed` is measured against `limit`.
  unfoldable pub pause_at :
      Duration → Duration → Duration → NotebookLab Quantity → Exec C.World (Lifecycle Quantity)
  pause_at limit elapsed requeue_after notebook =
      if leb_ℤ limit elapsed
      then (do
        notebook' ← C.patch notebooklab notebook (paused_spec notebook)
        pure (record { purged = false; requeue_after = requeue_after; notebook = notebook' }))
      else pure (record {
        purged = false;
        requeue_after = sooner requeue_after (wrap64 (limit -ℤ elapsed));
        notebook = notebook;
      })

  abbrev unchanged : Duration → NotebookLab Quantity → Exec C.World (Lifecycle Quantity)
  unchanged requeue_after notebook =
      pure (record { purged = false; requeue_after = requeue_after; notebook = notebook })

  -- Part 2.
  unfoldable pub check_idle :
      LifecycleSpec → Time → Duration → NotebookLab Quantity → Exec C.World (Lifecycle Quantity)
  check_idle l now requeue_after notebook =
      if ltb_ℤ (pos 0) l.idle_timeout_minutes && is_running notebook
      then pause_at (max_idle l) (sub now (last_active notebook)) requeue_after notebook
      else unchanged requeue_after notebook

  -- Part 3.
  unfoldable pub check_lifespan :
      LifecycleSpec → Time → Duration → NotebookLab Quantity → Exec C.World (Lifecycle Quantity)
  check_lifespan l now requeue_after notebook =
      if ltb_ℤ (pos 0) l.max_lifespan_hours && is_running notebook
      then pause_at (max_lifespan l) (sub now notebook.metadata.creation_timestamp) requeue_after
          notebook
      else unchanged requeue_after notebook

  -- Part 3 reads the policies again, from the notebook that the patch of part 2 may have answered.
  unfoldable pub check_lifespan_by :
      Option LifecycleSpec
      → Time
      → Duration
      → NotebookLab Quantity
      → Exec C.World (Lifecycle Quantity)
  unfolding check_lifespan
  check_lifespan_by none now requeue_after notebook = fail nil_dereference
  check_lifespan_by (some l) now requeue_after notebook =
      check_lifespan l now requeue_after notebook

  -- The parts after the first.
  unfoldable pub check_pauses :
      LifecycleSpec
      → Clock
      → NotebookLab Quantity
      → Option Duration
      → Exec C.World (Lifecycle Quantity)
  check_pauses l clock notebook none =
      pure (record { purged = true; requeue_after = pos 0; notebook = notebook })
  check_pauses l clock notebook (some requeue_after) = do
    idle ← check_idle l clock.at_idle requeue_after notebook
    check_lifespan_by idle.notebook.spec.lifecycle clock.at_lifespan idle.requeue_after
        idle.notebook

  -- `reconcileLifecycle`, past its test for a policy.
  unfoldable pub lifecycle_by :
      Clock → NotebookLab Quantity → Option LifecycleSpec → Exec C.World (Lifecycle Quantity)
  lifecycle_by clock notebook none = unchanged (pos 0) notebook
  lifecycle_by clock notebook (some l) = do
    left ← check_purge l clock.at_purge notebook
    check_pauses l clock notebook left

  unfoldable pub reconcile_lifecycle :
      Clock → NotebookLab Quantity → Exec C.World (Lifecycle Quantity)
  unfolding lifecycle_by
  reconcile_lifecycle clock notebook = lifecycle_by clock notebook notebook.spec.lifecycle
