-- ===== src/ClusterLab/Ttl.antt =====
-- When a cluster lab expires.
use notebook_operator.Base.{
  ap, inl, inr, ◌∙◌, Bool-cases, ◌≡◌, ◌↔◌, refl, Bool, true, false, Option, some, arith,
}
use notebook_operator.Base.Int.{ℤ, pos, leb_ℤ, ◌+ℤ◌, ◌-ℤ◌, ◌≤ℤ◌, IsInt64}
use notebook_operator.Base.Text.{Text}
use notebook_operator.Base.Duration.{Duration, sub}
use notebook_operator.Utils.Strings.{is_empty}
use notebook_operator.Exec.{ok}
use notebook_operator.Api.ClusterLab.{ClusterLab}
use notebook_operator.ClusterLab.Status.{LabClock}
use notebook_operator.ClusterLab.Reconcile.{Ttl, ttl_by, reconcile_ttl}

sub_exact : (t u : ℤ) → IsInt64 (t -ℤ u) → sub t u ≡ t -ℤ u
unfolding sub
sub_exact t u h = ground arith

module _ {Quantity : Type 0} (clock : LabClock) (lab : ClusterLab Quantity) where
  -- A TTL of `d` gives the status, the test and the requeue time that it should.
  pub record Expires (d : Duration) (t : Ttl Quantity) : Type 0 where
    pub expires_at : t.lab.status.expires_at ≡ some (lab.metadata.creation_timestamp +ℤ d)
    pub expired : (t.is_expired ≡ true) ↔ (lab.metadata.creation_timestamp +ℤ d ≤ℤ clock.at_ttl)
    pub left :
        t.is_expired ≡ false
        → IsInt64 (lab.metadata.creation_timestamp +ℤ d -ℤ clock.at_until)
        → t.requeue_after ≡ lab.metadata.creation_timestamp +ℤ d -ℤ clock.at_until

  abbrev outcome : Duration → Bool → Duration → Ttl Quantity
  outcome d b left = record {
    is_expired = b;
    requeue_after = left;
    lab = record lab {
      status = record lab.status { expires_at = some (lab.metadata.creation_timestamp +ℤ d) };
    };
  }

  ttl_by_lem :
      (parse_duration : Text → Option Duration) (d : Duration)
      → (t : Ttl Quantity) × (ttl_by parse_duration clock lab (some d) ≡ ok t) × Expires d t
  unfolding ttl_by
  ttl_by_lem parse d =
      let expires = lab.metadata.creation_timestamp +ℤ d in
      elim (Bool-cases (leb_ℤ expires clock.at_ttl)) [
        | inl late ↦ (
          outcome d true (pos 0),
          rw late,
          record { expires_at = refl; expired = (λ e. ground arith, λ e. refl); left = λ e. cc },
        )
        | inr early ↦ (
          outcome d false (sub expires clock.at_until),
          rw early,
          record {
            expires_at = refl;
            expired = (λ e. cc, λ e. absurd (ground arith));
            left = λ e fits. sub_exact expires clock.at_until fits;
          },
        )
      ]

ttl_opened :
    (parse_duration : Text → Option Duration) {Quantity : Type 0} (clock : LabClock)
    (lab : ClusterLab Quantity) (d : Duration)
    → is_empty lab.spec.ttl ≡ false
    → parse_duration lab.spec.ttl ≡ some d
    → reconcile_ttl parse_duration clock lab ≡ ttl_by parse_duration clock lab (some d)
unfolding reconcile_ttl
ttl_opened parse clock lab d given parsed = rw given (ap (λ o. ttl_by parse clock lab o) parsed)

-- A cluster lab with a TTL that parses as `d` expires at its creation time plus `d`, and its status
-- says so; it counts as expired exactly if the clock has reached that moment, and otherwise the
-- requeue time is what is left until it, if that fits an `int64`.
pub reconcile_ttl_lem :
    (parse_duration : Text → Option Duration) {Quantity : Type 0} (clock : LabClock)
    (lab : ClusterLab Quantity) (d : Duration)
    → is_empty lab.spec.ttl ≡ false
    → parse_duration lab.spec.ttl ≡ some d
    → (t : Ttl Quantity) × (reconcile_ttl parse_duration clock lab ≡ ok t) × Expires clock lab d t
reconcile_ttl_lem parse clock lab d given parsed =
    let (t, e, x) = ttl_by_lem clock lab parse d in
    (t, ttl_opened parse clock lab d given parsed ∙ e, x)
