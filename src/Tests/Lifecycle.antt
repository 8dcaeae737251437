-- ===== src/Tests/Lifecycle.antt =====
-- Policies of concrete notebooks.
use notebook_operator.Base.{ℕ, ◌*◌, ◌≡◌, refl, true, [], ◌∷◌, arith}
use notebook_operator.Base.Int.{pos, ◌-ℤ◌}
use notebook_operator.Base.Text.{codes}
use notebook_operator.Base.Duration.{times, sub}
use notebook_operator.Exec.{ok, ◌>>=◌}
use notebook_operator.Client.Memory.{delete}
use notebook_operator.Client.Tables.{find, remove, replace, key_dec}
use notebook_operator.Notebook.Lifecycle.{
  Clock, last_active, reconcile_lifecycle, Lifecycle, check_purge, check_pauses, lifecycle_by,
  purge, delete_workspace, max_inactive,
}
use notebook_operator.Notebook.Lifecycle.Limits.{day_ns}
use notebook_operator.Notebook.Lifecycle.Purge.{Purged, purged_by_overflow}
use notebook_operator.Notebook.Lifecycle.Requeue.{
  IsQuiet, IsEarliest, kept, purge_policy, idle_policy, lifespan_policy, reconcile_lifecycle_quiet,
}
use notebook_operator.Tests.Fixtures.{client, notebook, cluster, policies, clock_after}

abbrev gone : Lifecycle ℕ
gone = record { purged = true; requeue_after = pos 0; notebook = notebook (pos 1) }

abbrev gone_after : client.World
gone_after =
    (reconcile_lifecycle client (clock_after (2 * day_ns)) (notebook (pos 1)) (cluster (pos 1))).1

abbrev gone_early : Lifecycle ℕ
gone_early = record { purged = true; requeue_after = pos 0; notebook = notebook (pos 110000) }

gone_early_run :
    (reconcile_lifecycle client (clock_after 60) (notebook (pos 110000)) (cluster (pos 110000))).0
    ≡ ok gone_early
unfolding reconcile_lifecycle lifecycle_by check_purge check_pauses purge delete_workspace ◌>>=◌
    max_inactive times sub last_active delete find remove replace key_dec codes
gone_early_run = refl

abbrev gone_early_after : client.World
gone_early_after =
    (reconcile_lifecycle client (clock_after 60) (notebook (pos 110000)) (cluster (pos 110000))).1

-- A purge after about 301 years happens in the first minute.
purged_by_overflow_example :
    (gone_early.purged ≡ true)
    × Purged client (notebook (pos 110000)) (cluster (pos 110000)) gone_early_after
unfolding last_active
purged_by_overflow_example =
    purged_by_overflow client (clock_after 60) (notebook (pos 110000)) (policies (pos 110000)) refl
      (cluster (pos 110000)) gone_early gone_early_run 110000 refl (omega arith) (omega arith)
      (ground arith)

notebook-IsQuiet : IsQuiet (policies (pos 30)) (clock_after 60) (notebook (pos 30))
unfolding last_active ◌-ℤ◌
notebook-IsQuiet = record {
  days = omega arith;
  minutes = omega arith;
  hours = omega arith;
  after_activity = ground arith;
  after_activity_idle = ground arith;
  after_creation = ground arith;
  purge_early = λ e. ground arith;
  idle_early = λ e. ground arith;
  lifespan_early = λ e. ground arith;
}

abbrev quiet_clock : Clock
quiet_clock = clock_after 60

reconcile_lifecycle_quiet_example :
    (r : ℕ) × (reconcile_lifecycle client quiet_clock (notebook (pos 30)) (cluster (pos 30))
      ≡ (ok (kept client r (notebook (pos 30))), cluster (pos 30)))
    × IsEarliest r (
        purge_policy (policies (pos 30)) quiet_clock (notebook (pos 30))
        ∷ idle_policy (policies (pos 30)) quiet_clock (notebook (pos 30))
        ∷ lifespan_policy (policies (pos 30)) quiet_clock (notebook (pos 30))
        ∷ [])
reconcile_lifecycle_quiet_example =
    reconcile_lifecycle_quiet client (policies (pos 30)) quiet_clock (notebook (pos 30))
      notebook-IsQuiet (cluster (pos 30)) refl
