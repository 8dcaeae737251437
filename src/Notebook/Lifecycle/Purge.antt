-- ===== src/Notebook/Lifecycle/Purge.antt =====
-- When `reconcileLifecycle` purges a notebook.
use mathlib.Core.Option.{some-ne-none}
use notebook_operator.Base.{
  ◌∙◌, ap, ℕ, ◌≤◌, ◌<◌, ◌≡◌, refl, sym, subst, true, false, Option, none, some, arith, ◌++◌,
}
use notebook_operator.Base.Text.{codes}
use notebook_operator.Base.Int.{pos, ltb_ℤ, leb_ℤ, ◌≤ℤ◌}
use notebook_operator.Base.Duration.{Duration, sub}
use notebook_operator.Exec.{Result, ok, err, Exec, ◌>>=◌}
use notebook_operator.Exec.Ensures.{Ensures, Any, Ensures-pure, Ensures-bind, Returned-if}
use notebook_operator.Kube.Meta.{Time, NamespacedName}
use notebook_operator.Kube.Objects.{PersistentVolumeClaim}
use notebook_operator.Api.NotebookLab.{NotebookLab, LifecycleSpec}
use notebook_operator.Client.{Client, notebooklab, pvc}
use notebook_operator.Notebook.Lifecycle.{
  Clock, Lifecycle, last_active, max_inactive, check_purge, check_pauses, lifecycle_by,
  reconcile_lifecycle, purge, delete_workspace,
}
use notebook_operator.Notebook.Lifecycle.Limits.{days_bound, max_inactive_negative, sub_nonneg}

module _ {Quantity : Type 0} (C : Client Quantity) where
  abbrev Kept : Exec C.World (Lifecycle Quantity) → Type 0
  Kept m = Ensures Any m (λ o w. o.purged ≡ false)

  module _ (nb : NotebookLab Quantity) where
    abbrev pub workspace_claim : NamespacedName
    workspace_claim = record {
      namespace = nb.metadata.namespace;
      name = nb.metadata.name ++ codes "-workspace";
    }

    -- The deletion of the workspace claim, which may fail; there is none if the claim cannot be read.
    abbrev pub without_claim : Result (PersistentVolumeClaim Quantity) → C.World → C.World
    without_claim (ok claim) w = (C.delete pvc claim w).1
    without_claim (err e) w = w

    -- The notebook has been deleted, after the deletion of its workspace claim, and nothing else has
    -- been done.
    abbrev pub Purged : C.World → C.World → Type 0
    Purged w w' =
        C.delete notebooklab nb (without_claim (C.get pvc workspace_claim w) w) ≡ (ok tt, w')

    claim_lem :
        (r : Result (PersistentVolumeClaim Quantity)) (w : C.World)
        → delete_workspace C r w ≡ (ok tt, without_claim r w)
    unfolding delete_workspace ◌>>=◌
    claim_lem (ok claim) w = refl
    claim_lem (err e) w = refl

    purge_lem :
        (w : C.World)
        → purge C nb w ≡ C.delete notebooklab nb (without_claim (C.get pvc workspace_claim w) w)
    unfolding purge ◌>>=◌
    purge_lem w = rw claim_lem

    ok_eta : (x : Result (Unit {0}) × C.World) (a : Unit {0}) → x.0 ≡ ok a → x ≡ (ok tt, x.1)
    ok_eta (r, v) a h = ap (λ s. (s, v)) h

    purge-Purged : (w : C.World) → Ensures (λ v. v ≡ w) (purge C nb) (λ _ w'. Purged w w')
    purge-Purged w = record {
      at = λ v e.
          Returned-if (λ _ w'. Purged w w') (purge C nb v).0 (purge C nb v).1
            (λ a h. subst (λ u. Purged u (purge C nb v).1) e (sym (purge_lem v) ∙ ok_eta _ a h));
    }

  module _ (l : LifecycleSpec) (now : Time) (nb : NotebookLab Quantity) where
    -- Part 1 returns `none` or `some`, as the limit is met or not.
    check_purge-due :
        (w : C.World)
        → ltb_ℤ (pos 0) l.purge_after_inactive_days ≡ true
        → leb_ℤ (max_inactive l) (sub now (last_active nb)) ≡ true
        → Ensures (λ v. v ≡ w) (check_purge C l now nb) (λ o w'. (o ≡ none) × Purged nb w w')
    unfolding check_purge
    check_purge-due w on due =
        rw (on, due)
          (Ensures-bind _ _ (purge-Purged nb w) (λ x. Ensures-pure _ (λ w' h. (refl, h))))

  module _ (clock : Clock) (nb : NotebookLab Quantity) (l : LifecycleSpec)
      (policy : nb.spec.lifecycle ≡ some l) where
    purged_if :
        (w : C.World)
        → ltb_ℤ (pos 0) l.purge_after_inactive_days ≡ true
        → leb_ℤ (max_inactive l) (sub clock.at_purge (last_active nb)) ≡ true
        → Ensures
            (λ v. v ≡ w)
            (reconcile_lifecycle C clock nb)
            (λ o w'. (o.purged ≡ true) × Purged nb w w')
    unfolding reconcile_lifecycle check_pauses
    purged_if w on due =
        subst
          (λ p.
            Ensures (λ v. v ≡ w) (lifecycle_by C clock nb p)
              (λ o w'. (o.purged ≡ true) × Purged nb w w'))
          (sym policy)
          (Ensures-bind _ _ (check_purge-due l clock.at_purge nb w on due) (elim [
            | none ↦ Ensures-pure _ (λ w' h. (refl, h.1))
            | some r ↦ record { at = λ w' h. absurd (some-ne-none _ h.0) }
          ]))

    module _ (w : C.World) (o : Lifecycle Quantity)
        (outcome : (reconcile_lifecycle C clock nb w).0 ≡ ok o) where
      -- With a purge policy of 106752 to 213503 days, a run of the policies that returns no error
      -- purges the notebook whatever its age, if its last activity does not lie in the future: it has
      -- deleted the claim `<name>-workspace`, if it could be read, and after it the notebook,
      -- successfully.
      pub purged_by_overflow :
          (days : ℕ)
          → l.purge_after_inactive_days ≡ pos days
          → days_bound < days
          → days ≤ 213503
          → last_active nb ≤ℤ clock.at_purge
          → (o.purged ≡ true) × Purged nb w (reconcile_lifecycle C clock nb w).1
      purged_by_overflow days e low high past =
          let limit = max_inactive_negative l days e low high in
          let some_time = sub_nonneg clock.at_purge (last_active nb) past in
          rw outcome at ((purged_if w (ground arith) (ground arith)).at w refl)
