-- ===== src/Notebook/Reconcile/Untouched.antt =====
-- A run of `Reconcile` on a notebook whose purge is not due leaves every existing object alone, but for
-- notebooks and deployments.
use notebook_operator.Base.{◌≡◌, ◌≢◌, refl, ◌∙◌, inl, Bool, true, false, Option, none, some}
use notebook_operator.Base.Int.{pos, ltb_ℤ, leb_ℤ}
use notebook_operator.Base.Duration.{Duration, sub}
use notebook_operator.Exec.{ok, ◌>>=◌}
use notebook_operator.Exec.Keeps.{Keeps, Keeps-if, Keeps-bind, keeps_rules}
use notebook_operator.Kube.Meta.{NamespacedName, Time}
use notebook_operator.Api.NotebookLab.{NotebookLab, LifecycleSpec}
use notebook_operator.Client.{Kind, Obj, Client, Machinery, notebooklab, deployment}
use notebook_operator.Client.Laws.{IsLawful}
use notebook_operator.Notebook.Lifecycle.{
  Clock, Lifecycle, last_active, max_inactive, check_purge, pause_at, check_idle, check_lifespan,
  check_lifespan_by, check_pauses, lifecycle_by, reconcile_lifecycle,
}
use notebook_operator.Notebook.Reconcile.Defs.{
  provision, after_lifecycle, reconcile_found, reconcile,
}
use notebook_operator.Notebook.Reconcile.Keeps.{provision-Keeps}

module _ {Quantity : Type 0} (C : Client Quantity) {P : C.World → Type 0}
    (patches : (o n : NotebookLab Quantity) → Keeps P (C.patch notebooklab o n)) where
  pause_at-Keeps :
      (limit elapsed r : Duration) (nb : NotebookLab Quantity)
      → Keeps P (pause_at C limit elapsed r nb)
  unfolding pause_at
  pause_at-Keeps limit elapsed r nb = search (keeps_rules, patches)

  pub check_idle-Keeps :
      (l : LifecycleSpec) (now : Time) (r : Duration) (nb : NotebookLab Quantity)
      → Keeps P (check_idle C l now r nb)
  unfolding check_idle
  check_idle-Keeps l now r nb = search (keeps_rules, pause_at-Keeps)

  pub check_lifespan-Keeps :
      (l : LifecycleSpec) (now : Time) (r : Duration) (nb : NotebookLab Quantity)
      → Keeps P (check_lifespan C l now r nb)
  unfolding check_lifespan
  check_lifespan-Keeps l now r nb = search (keeps_rules, pause_at-Keeps)

  pub check_lifespan_by-Keeps :
      (o : Option LifecycleSpec) (now : Time) (r : Duration) (nb : NotebookLab Quantity)
      → Keeps P (check_lifespan_by C o now r nb)
  unfolding check_lifespan_by
  check_lifespan_by-Keeps none now r nb = search keeps_rules
  check_lifespan_by-Keeps (some l) now r nb = check_lifespan-Keeps l now r nb

  check_pauses-Keeps :
      (l : LifecycleSpec) (clock : Clock) (nb : NotebookLab Quantity) (o : Option Duration)
      → Keeps P (check_pauses C l clock nb o)
  unfolding check_pauses
  check_pauses-Keeps l clock nb none = search keeps_rules
  check_pauses-Keeps l clock nb (some r) =
      search (keeps_rules, check_idle-Keeps, check_lifespan_by-Keeps)

  module _ (clock : Clock) (nb : NotebookLab Quantity) where
    check_purge-Keeps :
        (l : LifecycleSpec) (b : Bool)
        → ltb_ℤ (pos 0) l.purge_after_inactive_days ≡ b
        → (b ≡ true → leb_ℤ (max_inactive l) (sub clock.at_purge (last_active nb)) ≡ false)
        → Keeps P (check_purge C l clock.at_purge nb)
    unfolding check_purge
    check_purge-Keeps l true on early = rw (on, early refl) (search keeps_rules)
    check_purge-Keeps l false off early = rw off (search keeps_rules)

    lifecycle_by-Keeps :
        (o : Option LifecycleSpec)
        → ((l : LifecycleSpec)
            → o ≡ some l
            → ltb_ℤ (pos 0) l.purge_after_inactive_days ≡ true
            → leb_ℤ (max_inactive l) (sub clock.at_purge (last_active nb)) ≡ false)
        → Keeps P (lifecycle_by C clock nb o)
    unfolding lifecycle_by
    lifecycle_by-Keeps none early = search keeps_rules
    lifecycle_by-Keeps (some l) early =
        Keeps-bind _ _ (check_purge-Keeps l _ refl (early l refl)) (check_pauses-Keeps l clock nb)

-- No purge of the notebook is due when `time.Since` reads the clock: it has no policy for it, or the
-- limit of the policy is not reached.
abbrev pub NotDue : {Quantity : Type 0} → Clock → NotebookLab Quantity → Type 0
NotDue clock nb =
    (l : LifecycleSpec)
    → nb.spec.lifecycle ≡ some l
    → ltb_ℤ (pos 0) l.purge_after_inactive_days ≡ true
    → leb_ℤ (max_inactive l) (sub clock.at_purge (last_active nb)) ≡ false

module _ (M : Machinery) (C : Client M.Quantity) (L : IsLawful C) where
  module _ (j : Kind) (key : NamespacedName) (x : Obj M.Quantity j) where
    abbrev Holds : C.World → Type 0
    Holds w = C.get j key w ≡ ok x

    Keeps-create_old : (k : Kind) (o : Obj M.Quantity k) → Keeps Holds (C.create k o)
    Keeps-create_old k o = record { at = λ w h. L.get-create_old k j o key x w h }

    Keeps-patch_ne : (k : Kind) → k ≢ j → (o n : Obj M.Quantity k) → Keeps Holds (C.patch k o n)
    Keeps-patch_ne k ne o n = record { at = λ w h. L.get-patch_ne k j o n key w (inl ne) ∙ h }

    Keeps-update_status_ne :
        (k : Kind) → k ≢ j → (o : Obj M.Quantity k) → Keeps Holds (C.update_status k o)
    Keeps-update_status_ne k ne o = record {
      at = λ w h. L.get-update_status_ne k j o key w (inl ne) ∙ h;
    }

    provision-Holds :
        notebooklab ≢ j
        → deployment ≢ j
        → (nb : NotebookLab M.Quantity) → Keeps Holds (provision M C nb)
    provision-Holds a b nb =
        provision-Keeps M C nb (λ k c. Keeps-create_old k) (Keeps-patch_ne deployment b)
          (Keeps-update_status_ne notebooklab a)

    after-Holds :
        notebooklab ≢ j
        → deployment ≢ j
        → (l : Lifecycle M.Quantity) → Keeps Holds (after_lifecycle M C l)
    unfolding after_lifecycle
    after-Holds a b l =
        Keeps-if l.purged _ _ (search keeps_rules)
          (search (keeps_rules, provision-Holds a b l.notebook))

    found-Holds :
        notebooklab ≢ j
        → deployment ≢ j
        → (clock : Clock) (nb : NotebookLab M.Quantity) → NotDue clock nb
        → Keeps Holds (reconcile_found M C clock (ok nb))
    unfolding reconcile_found reconcile_lifecycle
    found-Holds a b clock nb early =
        Keeps-bind _ _ (lifecycle_by-Keeps C (Keeps-patch_ne notebooklab a) clock nb _ early)
          (after-Holds a b)

  -- A run of Reconcile on a notebook that is there and that is not due to be purged when the policies
  -- read the clock, whether the run fails or not and at whatever call it fails, leaves every object
  -- that exists and is neither a notebook nor a deployment exactly as it is: workspace claims,
  -- secrets, services and ingresses are never overwritten or removed. The client is assumed to obey
  -- its laws.
  pub existing_objects_kept :
      (clock : Clock) (req : NamespacedName) (notebook : NotebookLab M.Quantity) (w : C.World)
      → C.get notebooklab req w ≡ ok notebook
      → NotDue clock notebook
      → (j : Kind) (key : NamespacedName) (x : Obj M.Quantity j) → notebooklab ≢ j
      → deployment ≢ j
      → C.get j key w ≡ ok x
      → C.get j key (reconcile M C clock req w).1 ≡ ok x
  unfolding reconcile ◌>>=◌
  existing_objects_kept clock req notebook w found early j key x a b h =
      rw found ((found-Holds j key x a b clock notebook early).at w h)
