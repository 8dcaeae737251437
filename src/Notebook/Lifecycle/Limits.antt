-- ===== src/Notebook/Lifecycle/Limits.antt =====
-- The limits of the policies as exact numbers of nanoseconds, where the products fit an `int64`, and
-- what `time.Since` and the differences are then.
use notebook_operator.Base.{ℕ, ◌-◌, ◌*◌, ◌^◌, ◌≤◌, ◌<◌, ◌≡◌, ◌↔◌, true, arith}
use notebook_operator.Base.Int.{ℤ, pos, ◌-ℤ◌, ◌≤ℤ◌, ◌<ℤ◌, leb_ℤ, wrap64}
use notebook_operator.Base.Duration.{sub, times}
use notebook_operator.Api.NotebookLab.{LifecycleSpec}
use notebook_operator.Notebook.Lifecycle.{max_inactive, max_idle, max_lifespan}

abbrev pub day_ns : ℕ
day_ns = 86400000000000

abbrev pub minute_ns : ℕ
minute_ns = 60000000000

abbrev pub hour_ns : ℕ
hour_ns = 3600000000000

-- The greatest numbers whose products fit: about 292 years each.
abbrev pub days_bound : ℕ
days_bound = 106751

abbrev pub minutes_bound : ℕ
minutes_bound = 153722867

abbrev pub hours_bound : ℕ
hours_bound = 2562047

pub times_pos : (a b : ℕ) → a * b < 2 ^ 63 → times (pos a) (pos b) ≡ pos (a * b)
unfolding times
times_pos a b h = ground arith

pub max_inactive_lem :
    (l : LifecycleSpec) (d : ℕ)
    → l.purge_after_inactive_days ≡ pos d
    → d ≤ days_bound
    → max_inactive l ≡ pos (d * day_ns)
unfolding max_inactive
max_inactive_lem l d e h = ground arith

pub max_idle_lem :
    (l : LifecycleSpec) (n : ℕ)
    → l.idle_timeout_minutes ≡ pos n
    → n ≤ minutes_bound
    → max_idle l ≡ pos (n * minute_ns)
unfolding max_idle
max_idle_lem l n e h = ground arith

pub max_lifespan_lem :
    (l : LifecycleSpec) (n : ℕ)
    → l.max_lifespan_hours ≡ pos n
    → n ≤ hours_bound
    → max_lifespan l ≡ pos (n * hour_ns)
unfolding max_lifespan
max_lifespan_lem l n e h = ground arith

-- Beyond the bound the product wraps to a negative duration.
pub max_inactive_negative :
    (l : LifecycleSpec) (d : ℕ)
    → l.purge_after_inactive_days ≡ pos d
    → days_bound < d
    → d ≤ 213503
    → max_inactive l <ℤ pos 0
unfolding max_inactive
max_inactive_negative l d e low high = ground arith

-- A saturated difference meets a limit exactly when the true one does.
pub sub_reaches :
    (t u : ℤ) (n : ℕ) → n < 2 ^ 63 → (leb_ℤ (pos n) (sub t u) ≡ true) ↔ (pos n ≤ℤ t -ℤ u)
unfolding sub
sub_reaches t u n h = ground arith

pub sub_nonneg : (t u : ℤ) → u ≤ℤ t → pos 0 ≤ℤ sub t u
unfolding sub
sub_nonneg t u h = ground arith

pub sub_lem : (t u : ℤ) (x : ℕ) → t -ℤ u ≡ pos x → x < 2 ^ 63 → sub t u ≡ pos x
unfolding sub
sub_lem t u x e h = ground arith

pub left_of : (n x : ℕ) → x < n → n < 2 ^ 63 → wrap64 (pos n -ℤ pos x) ≡ pos (n - x)
unfolding wrap64 ◌-ℤ◌
left_of n x h k = ground arith
