-- ===== src/Tests/Drains.antt =====
-- A cluster lab in memory that is let go, after the namespace controller has emptied its namespace.
use notebook_operator.Base.{
  ℕ, ◌-◌, ◌≤◌, ◌≡◌, refl, inl, inr, arith, true, Option-cases, none, some, List, [], ◌∷◌, length,
}
use notebook_operator.Base.Int.{pos}
use notebook_operator.Base.Text.{codes}
use notebook_operator.Exec.{api, ok}
use notebook_operator.Kube.Meta.{NamespacedName}
use notebook_operator.Kube.Objects.{Namespace}
use notebook_operator.Api.ClusterLab.{ClusterLab}
use notebook_operator.Client.{clusterlab, namespace}
use notebook_operator.Client.Memory.{overwrite}
use notebook_operator.Client.Tables.{Tables, find, replace, replace_self, key_dec}
use notebook_operator.ClusterLab.Drains.{Empties, IsGone, finalized, lab_run, reruns, deletion_ends}
use notebook_operator.Tests.Fixtures.{machinery}
use notebook_operator.Tests.Labs.{leaving_lab, lab_key, lab_clock, one_hour}
use notebook_operator.Tests.LabRuns.{lingering, lingering-IsLawful, terminating, has_finalizer}

drop_one : List (NamespacedName × Namespace) → List (NamespacedName × Namespace)
drop_one [] = []
drop_one (x ∷ xs) = xs

-- One namespace goes between two runs.
abbrev between : Tables ℕ → Tables ℕ
between w = replace ℕ namespace (drop_one (w namespace)) w

abbrev left : Tables ℕ → ℕ
left w = length (w namespace)

length-drop_one : (xs : List (NamespacedName × Namespace)) → length (drop_one xs) ≤ length xs - 1
unfolding drop_one
length-drop_one [] = omega arith
length-drop_one (x ∷ xs) = omega arith

empty_finds_none :
    (xs : List (NamespacedName × Namespace)) (key : NamespacedName)
    → length xs ≡ 0
    → find key xs ≡ none
unfolding find
empty_finds_none [] key h = refl
empty_finds_none (x ∷ xs) key h = absurd (omega arith)

updates :
    (w : Tables ℕ)
    → lingering.get clusterlab lab_key w ≡ ok leaving_lab
    → (o : ClusterLab ℕ) × ((lingering.update clusterlab
          (finalized machinery lingering leaving_lab lab_key)
          w).0
        ≡ ok o)
unfolding overwrite
updates w found = elim (Option-cases (find lab_key (w clusterlab))) [
  | inl h ↦ absurd (ground arith)
  | inr (old, h) ↦ (finalized machinery lingering leaving_lab lab_key, rw (h, overwrite))
]

namespace-Empties : Empties machinery lingering leaving_lab lab_key between left
namespace-Empties = record {
  accepted = λ w. refl;
  updated = updates;
  gone = λ w h. (api true (codes "not found"), rw (empty_finds_none (w namespace) _ h), refl);
  empties =
      λ w. rw (replace_self ℕ namespace (drop_one (w namespace)) w) (length-drop_one (w namespace));
  still = λ w h. unfold replace in h;
}

leaving_found : lingering.get clusterlab lab_key terminating ≡ ok leaving_lab
unfolding find replace key_dec codes
leaving_found = refl

one_left : left terminating ≤ 1
unfolding replace
one_left = omega arith

deletion_ends_example :
    (v : Tables ℕ) × IsGone machinery lingering leaving_lab lab_key v
    × (reruns
          (lab_run machinery lingering leaving_lab lab_key one_hour
            (λ n. lab_clock)
            lingering-IsLawful)
          between
          2
          terminating
        ≡ some
            (lingering.update clusterlab (finalized machinery lingering leaving_lab lab_key) v).1)
deletion_ends_example =
    deletion_ends machinery lingering leaving_lab lab_key one_hour (λ n. lab_clock)
      lingering-IsLawful namespace-Empties (pos 2000000000) refl has_finalizer 1 terminating
      one_left leaving_found
