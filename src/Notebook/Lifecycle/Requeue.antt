-- ===== src/Notebook/Lifecycle/Requeue.antt =====
-- When no policy is due, `reconcileLifecycle` changes nothing and asks for a run at the first moment
-- at which one will be.
use notebook_operator.Base.{
  ℕ, ◌-◌, ◌*◌, ◌≤◌, ◌<◌, ◌^◌, ◌≡◌, ◌⊎◌, inl, inr, refl, ◌∙◌, ap, Bool, true, false, ◌&&◌, some,
  List, [], ◌∷◌, All, arith, Bool-cases, if◌then◌else◌,
}
use notebook_operator.Base.Int.{ℤ, pos, pos_part, ltb_ℤ, ◌-ℤ◌, ◌≤ℤ◌}
use notebook_operator.Base.Duration.{Duration, sub}
use notebook_operator.Exec.{ok, ◌>>=◌}
use notebook_operator.Kube.Meta.{Time}
use notebook_operator.Api.NotebookLab.{NotebookLab, LifecycleSpec}
use notebook_operator.Client.{Client}
use notebook_operator.Notebook.Lifecycle.{
  Clock, Lifecycle, last_active, max_inactive, max_idle, max_lifespan, check_purge, pause_at,
  check_idle, check_lifespan, check_lifespan_by, check_pauses, lifecycle_by, reconcile_lifecycle,
  is_running, sooner,
}
use notebook_operator.Notebook.Lifecycle.Limits.{
  day_ns, minute_ns, hour_ns, days_bound, minutes_bound, hours_bound, max_inactive_lem,
  max_idle_lem, max_lifespan_lem, sub_lem, left_of,
}

-- A policy: whether it applies, its limit, and the time that has passed, in nanoseconds.
pub record Policy : Type 0 where
  pub active : Bool
  pub limit : ℕ
  pub elapsed : ℕ

abbrev pub left : Policy → ℕ
left p = p.limit - p.elapsed

-- If the policy is active, it has not reached its limit.
abbrev pub IsEarly : Policy → Type 0
IsEarly p = p.active ≡ true → p.elapsed < p.limit

abbrev pub OneOf : ℕ → List Policy → Type 0
OneOf r [] = ⊥
OneOf r (p ∷ ps) = ((p.active ≡ true) × (r ≡ left p)) ⊎ OneOf r ps

-- `r` is the least time that is left of an active policy, and 0 if none is active.
pub record IsEarliest (r : ℕ) (ps : List Policy) : Type 0 where
  pub bound : All (λ p. p.active ≡ true → r ≤ left p) ps
  pub attained : OneOf r ps ⊎ (All (λ p. p.active ≡ false) ps × (r ≡ 0))

-- The requeue time after one more policy.
after : ℕ → Policy → ℕ
after r p = pos_part (if p.active then sooner (pos r) (pos (left p)) else pos r)

earliest : Policy → Policy → Policy → ℕ
unfolding after
earliest p q s = after (after (if p.active then left p else 0) q) s

earliest-IsEarliest :
    (p q s : Policy)
    → IsEarly p
    → IsEarly q
    → IsEarly s
    → IsEarliest (earliest p q s) (p ∷ q ∷ s ∷ [])
unfolding earliest sooner
earliest-IsEarliest p q s hp hq hs = ground arith

module _ {Quantity : Type 0} (l : LifecycleSpec) (clock : Clock) (nb : NotebookLab Quantity) where
  abbrev pub purge_policy : Policy
  purge_policy = record {
    active = ltb_ℤ (pos 0) l.purge_after_inactive_days;
    limit = pos_part l.purge_after_inactive_days * day_ns;
    elapsed = pos_part (clock.at_purge -ℤ last_active nb);
  }

  abbrev pub idle_policy : Policy
  idle_policy = record {
    active = ltb_ℤ (pos 0) l.idle_timeout_minutes && is_running nb;
    limit = pos_part l.idle_timeout_minutes * minute_ns;
    elapsed = pos_part (clock.at_idle -ℤ last_active nb);
  }

  abbrev pub lifespan_policy : Policy
  lifespan_policy = record {
    active = ltb_ℤ (pos 0) l.max_lifespan_hours && is_running nb;
    limit = pos_part l.max_lifespan_hours * hour_ns;
    elapsed = pos_part (clock.at_lifespan -ℤ nb.metadata.creation_timestamp);
  }

  -- The limits fit a `time.Duration`, the clock is not behind the notebook's times, and no policy is
  -- due.
  pub record IsQuiet : Type 0 where
    pub days : pos_part l.purge_after_inactive_days ≤ days_bound
    pub minutes : pos_part l.idle_timeout_minutes ≤ minutes_bound
    pub hours : pos_part l.max_lifespan_hours ≤ hours_bound
    pub after_activity : pos 0 ≤ℤ clock.at_purge -ℤ last_active nb
    pub after_activity_idle : pos 0 ≤ℤ clock.at_idle -ℤ last_active nb
    pub after_creation : pos 0 ≤ℤ clock.at_lifespan -ℤ nb.metadata.creation_timestamp
    pub purge_early : IsEarly purge_policy
    pub idle_early : IsEarly idle_policy
    pub lifespan_early : IsEarly lifespan_policy

pos_of : (z : ℤ) → pos 0 ≤ℤ z → z ≡ pos (pos_part z)
pos_of z h = ground arith

pos_of_active : (z : ℤ) → ltb_ℤ (pos 0) z ≡ true → z ≡ pos (pos_part z)
pos_of_active z h = ground arith

and_first : (a b : Bool) → (a && b) ≡ true → a ≡ true
and_first a b h = ground arith

pos_sooner : (a b : ℕ) → sooner (pos a) (pos b) ≡ pos (pos_part (sooner (pos a) (pos b)))
unfolding sooner
pos_sooner a b = ground arith

module _ {Quantity : Type 0} (C : Client Quantity) where
  pause_at_early :
      (limit elapsed r : Duration) (n x m : ℕ) (nb : NotebookLab Quantity) (w : C.World)
      → limit ≡ pos n
      → elapsed ≡ pos x
      → r ≡ pos m
      → x < n
      → n < 2 ^ 63
      → pause_at C limit elapsed r nb w ≡ (
        ok (record { purged = false; requeue_after = sooner (pos m) (pos (n - x)); notebook = nb }),
        w,
      )
  unfolding pause_at ◌>>=◌
  pause_at_early limit elapsed r n x m nb w el ee er h k =
      rw (el, ee, er) (ground (arith, left_of n x h k))

  purge_early :
      (l : LifecycleSpec) (now : Time) (n x : ℕ) (nb : NotebookLab Quantity) (w : C.World)
      → ltb_ℤ (pos 0) l.purge_after_inactive_days ≡ true
      → max_inactive l ≡ pos n
      → sub now (last_active nb) ≡ pos x
      → x < n
      → n < 2 ^ 63
      → check_purge C l now nb w ≡ (ok (some (pos (n - x))), w)
  unfolding check_purge ◌>>=◌
  purge_early l now n x nb w on el ee h k = rw (on, el, ee) (ground (arith, left_of n x h k))

  abbrev pub kept : ℕ → NotebookLab Quantity → Lifecycle Quantity
  kept m nb = record { purged = false; requeue_after = pos m; notebook = nb }

  module _ (l : LifecycleSpec) (clock : Clock) (nb : NotebookLab Quantity)
      (quiet : IsQuiet l clock nb) (w : C.World) where
    check_purge_early : check_purge C l clock.at_purge nb w ≡ (
      ok (
          some
            (pos (if (purge_policy l clock nb).active then left (purge_policy l clock nb) else 0))),
      w,
    )
    unfolding check_purge ◌>>=◌
    check_purge_early = elim (Bool-cases (ltb_ℤ (pos 0) l.purge_after_inactive_days)) [
      | inl on ↦
          (purge_early l clock.at_purge _ _ nb w on
              (max_inactive_lem l _ (pos_of_active l.purge_after_inactive_days on) quiet.days)
              (sub_lem clock.at_purge (last_active nb) _ (pos_of _ quiet.after_activity)
                (omega (arith, quiet.purge_early on, quiet.days)))
              (quiet.purge_early on) (omega (arith, quiet.days))
            ∙ rw on)
      | inr off ↦ rw off
    ]

    check_idle_early :
        (m : ℕ)
        → check_idle C l clock.at_idle (pos m) nb w
          ≡ (ok (kept (after m (idle_policy l clock nb)) nb), w)
    unfolding check_idle after ◌>>=◌
    check_idle_early m = elim (Bool-cases (idle_policy l clock nb).active) [
      | inl on ↦
          rw (on, check_idle)
            (pause_at_early (max_idle l) (sub clock.at_idle (last_active nb)) (pos m) _ _ m nb w
                (max_idle_lem l _
                  (pos_of_active l.idle_timeout_minutes (and_first _ (is_running nb) on))
                  quiet.minutes)
                (sub_lem clock.at_idle (last_active nb) _ (pos_of _ quiet.after_activity_idle)
                  (omega (arith, quiet.idle_early on, quiet.minutes)))
                refl (quiet.idle_early on) (omega (arith, quiet.minutes))
              ∙ rw pos_sooner)
      | inr off ↦ rw off
    ]

    check_lifespan_early :
        (m : ℕ)
        → check_lifespan C l clock.at_lifespan (pos m) nb w
          ≡ (ok (kept (after m (lifespan_policy l clock nb)) nb), w)
    unfolding check_lifespan after ◌>>=◌
    check_lifespan_early m = elim (Bool-cases (lifespan_policy l clock nb).active) [
      | inl on ↦
          rw (on, check_lifespan)
            (pause_at_early (max_lifespan l) (sub clock.at_lifespan nb.metadata.creation_timestamp)
                (pos m) _ _ m nb w
                (max_lifespan_lem l _
                  (pos_of_active l.max_lifespan_hours (and_first _ (is_running nb) on)) quiet.hours)
                (sub_lem clock.at_lifespan nb.metadata.creation_timestamp _
                  (pos_of _ quiet.after_creation)
                  (omega (arith, quiet.lifespan_early on, quiet.hours)))
                refl (quiet.lifespan_early on) (omega (arith, quiet.hours))
              ∙ rw pos_sooner)
      | inr off ↦ rw off
    ]

    check_lifespan_by_early :
        nb.spec.lifecycle ≡ some l
        → (m : ℕ)
        → check_lifespan_by C nb.spec.lifecycle clock.at_lifespan (pos m) nb w
          ≡ (ok (kept (after m (lifespan_policy l clock nb)) nb), w)
    unfolding check_lifespan_by
    check_lifespan_by_early policy m =
        ap (λ o. check_lifespan_by C o clock.at_lifespan (pos m) nb w) policy
        ∙ check_lifespan_early m

    abbrev first_due : ℕ
    first_due =
        earliest (purge_policy l clock nb) (idle_policy l clock nb) (lifespan_policy l clock nb)

    quiet_run :
        nb.spec.lifecycle ≡ some l
        → lifecycle_by C clock nb (some l) w ≡ (ok (kept first_due nb), w)
    unfolding lifecycle_by check_pauses earliest ◌>>=◌
    quiet_run policy = rw check_purge_early (rw check_idle_early (check_lifespan_by_early policy _))

    -- If the limits fit a `time.Duration`, the clock is not behind the notebook's times and no policy
    -- is due, then a run of the policies returns no error, leaves the notebook and the cluster as
    -- they are, and asks for a requeue after the least time that is left of an active policy, or for
    -- none if no policy is active.
    pub reconcile_lifecycle_quiet :
        nb.spec.lifecycle ≡ some l
        → (r : ℕ) × (reconcile_lifecycle C clock nb w ≡ (ok (kept r nb), w))
          × IsEarliest r
              (purge_policy l clock nb ∷ idle_policy l clock nb ∷ lifespan_policy l clock nb ∷ [])
    unfolding reconcile_lifecycle
    reconcile_lifecycle_quiet policy = (
      first_due,
      ap (λ o. lifecycle_by C clock nb o w) policy ∙ quiet_run policy,
      earliest-IsEarliest (purge_policy l clock nb) (idle_policy l clock nb)
          (lifespan_policy l clock nb) quiet.purge_early quiet.idle_early quiet.lifespan_early,
    )
