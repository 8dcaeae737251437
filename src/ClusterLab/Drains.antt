-- ===== src/ClusterLab/Drains.antt =====
-- The runs on a cluster lab that is being deleted, one after another, until the last.
use notebook_operator.Base.{
  ℕ, zero, suc, ◌-◌, ◌≤◌, ap, ◌≡◌, ◌⊎◌, inl, inr, refl, ◌∙◌, Bool, true, false, Bool-cases, Option,
  none, some, arith,
}
use notebook_operator.Base.Int.{ℤ, pos, eqb_ℤ, ◌*ℤ◌}
use notebook_operator.Base.Text.{Text}
use notebook_operator.Base.Duration.{Duration, second}
use notebook_operator.Exec.{Failure, Result, ok, err, is_not_found, Exec, ◌>>=◌}
use notebook_operator.Kube.Meta.{NamespacedName}
use notebook_operator.Kube.Objects.{Namespace}
use notebook_operator.Api.ClusterLab.{ClusterLab}
use notebook_operator.Client.{Client, Machinery, clusterlab, namespace}
use notebook_operator.Client.Laws.{IsLawful}
use notebook_operator.ClusterLab.Status.{LabClock}
use notebook_operator.ClusterLab.Reconcile.{
  cluster_lab_finalizer, namespace_object, namespace_key, serious, doomed_namespace, finalize_by,
  check_deleted, delete_target, remove_lab_finalizer, reconcile_finalizer, reconcile_cluster_lab,
  reconcile_lab_found, reconcile_lab,
}

-- The run asks for no other.
abbrev pub is_last : Result Duration → Bool
is_last (ok requeue_after) = eqb_ℤ requeue_after (pos 0)
is_last (err e) = false

module _ {W : Type 0} (run : ℕ → Exec W Duration) (between : W → W) where
  -- The runs of a request: while one asks for another or fails, the request comes back later, when the
  -- rest of the cluster has moved on by `between`. The number bounds the runs and names each of them;
  -- `none` if the last of them still asks for another.
  pub reruns : ℕ → W → Option W
  reruns zero w = none
  reruns (suc n) w = elim (is_last (run n w).0) [
    | true ↦ some (run n w).1
    | false ↦ reruns n (between (run n w).1)
  ]

  reruns_last :
      (n : ℕ) (w v : W) (r : Result Duration)
      → run n w ≡ (r, v)
      → is_last r ≡ true
      → reruns (suc n) w ≡ some v
  unfolding reruns
  reruns_last n w v r h last =
      let e : is_last (run n w).0 ≡ true = ap (λ x. is_last x.0) h ∙ last in
      rw (e, reruns) (ap (λ x. some x.1) h)

  reruns_more :
      (n : ℕ) (w v : W) (r : Result Duration)
      → run n w ≡ (r, v)
      → is_last r ≡ false
      → reruns (suc n) w ≡ reruns n (between v)
  unfolding reruns
  reruns_more n w v r h more =
      let e : is_last (run n w).0 ≡ false = ap (λ x. is_last x.0) h ∙ more in
      rw (e, reruns) (ap (λ x. reruns n (between x.1)) h)

module _ (M : Machinery) (C : Client M.Quantity) (lab : ClusterLab M.Quantity)
    (req : NamespacedName) where
  abbrev pub finalized : ClusterLab M.Quantity
  finalized = record lab { metadata = M.remove_finalizer lab.metadata cluster_lab_finalizer }

  abbrev pub after_delete : C.World → C.World
  after_delete w = (C.delete namespace (namespace_object (doomed_namespace lab)) w).1

  -- There is no target namespace.
  abbrev pub IsGone : C.World → Type 0
  IsGone w =
      (e : Failure) × (C.get namespace (namespace_key (doomed_namespace lab)) w ≡ err e)
      × (is_not_found e ≡ true)

  -- The API server accepts the deletion of the target namespace and the update that takes the
  -- finalizer off, and its namespace controller empties the namespace in as many steps as `left`
  -- says, after which the namespace is gone.
  pub record Empties (between : C.World → C.World) (left : C.World → ℕ) : Type 0 where
    pub accepted :
        (w : C.World)
        → serious (C.delete namespace (namespace_object (doomed_namespace lab)) w).0 ≡ none
    pub updated :
        (w : C.World)
        → C.get clusterlab req w ≡ ok lab
        → (o : ClusterLab M.Quantity) × ((C.update clusterlab finalized w).0 ≡ ok o)
    pub gone : (w : C.World) → left w ≡ 0 → IsGone (after_delete w)
    pub empties : (w : C.World) → left (between (after_delete w)) ≤ left w - 1
    pub still :
        (w : C.World) → C.get clusterlab req w ≡ ok lab → C.get clusterlab req (between w) ≡ ok lab

  module _ (parse_duration : Text → Option Duration) (clocks : ℕ → LabClock) (L : IsLawful C) where
    abbrev pub lab_run : ℕ → Exec C.World Duration
    lab_run n = reconcile_cluster_lab M C parse_duration (clocks n) req

    -- The namespace is gone and the finalizer is taken off, or there is to be another run.
    abbrev Ends : C.World → Result Duration × C.World → Type 0
    Ends v r =
        (IsGone v × (r ≡ (ok (pos 0), (C.update clusterlab finalized v).1)))
        ⊎ ((¬ IsGone v) × (r ≡ (ok (pos 3 *ℤ second), v)))

    finalize_by-Ends :
        (v : C.World) (r : Result Namespace)
        → C.get namespace (namespace_key (doomed_namespace lab)) v ≡ r
        → (o : ClusterLab M.Quantity) → (C.update clusterlab finalized v).0 ≡ ok o
        → Ends v (finalize_by M C lab r v)
    unfolding finalize_by remove_lab_finalizer ◌>>=◌
    finalize_by-Ends v (ok ns) read o done = inr (λ (e, h, x). cc, refl)
    finalize_by-Ends v (err f) read o done = elim (Bool-cases (is_not_found f)) [
      | inl b ↦ inl ((f, read, b), rw (b, done))
      | inr b ↦ inr (λ (e, h, x). cc, rw b)
    ]

    still_read :
        (w : C.World)
        → C.get clusterlab req w ≡ ok lab
        → C.get clusterlab req (after_delete w) ≡ ok lab
    still_read w found = L.get-delete_ne namespace clusterlab _ req w (inl (λ e. cc)) ∙ found

    module _ {between : C.World → C.World} {left : C.World → ℕ} (E : Empties between left) (t : ℤ)
        (leaving : lab.metadata.deletion_timestamp ≡ some t)
        (has : M.contains_finalizer lab.metadata cluster_lab_finalizer ≡ true) where
      run_unfolded :
          (n : ℕ) (w : C.World)
          → C.get clusterlab req w ≡ ok lab
          → lab_run n w
            ≡ finalize_by M C lab
                (C.get namespace (namespace_key (doomed_namespace lab)) (after_delete w))
                (after_delete w)
      unfolding reconcile_cluster_lab reconcile_lab_found reconcile_lab reconcile_finalizer
          delete_target check_deleted ◌>>=◌
      run_unfolded n w found =
          ap (λ r. reconcile_lab_found M C parse_duration (clocks n) r w) found
          ∙ ap (λ d. reconcile_lab M C parse_duration (clocks n) lab d w) leaving
          ∙ rw (has, E.accepted w)

      run-Ends :
          (n : ℕ) (w : C.World)
          → C.get clusterlab req w ≡ ok lab
          → Ends (after_delete w) (lab_run n w)
      run-Ends n w found =
          let (o, done) = E.updated (after_delete w) (still_read w found) in
          rw (run_unfolded n w found) (finalize_by-Ends (after_delete w) _ refl o done)

      -- A cluster lab that is being deleted and has its finalizer is let go: if the API server accepts
      -- the deletion of the target namespace and the update of the cluster lab, and it takes at most
      -- `n` steps to empty the namespace, of which one passes between two runs, then at most `n + 1`
      -- runs end with one that asks for no other; and its last call is the update that takes the
      -- finalizer off, made when the namespace is gone. The client is assumed to obey its laws.
      pub deletion_ends :
          (n : ℕ) (w : C.World)
          → left w ≤ n
          → C.get clusterlab req w ≡ ok lab
          → (v : C.World) × IsGone v
            × (reruns lab_run between (suc n) w ≡ some (C.update clusterlab finalized v).1)
      unfolding ◌*ℤ◌
      deletion_ends zero w few found = elim (run-Ends zero w found) [
        | inl (gone, last) ↦ (after_delete w, gone, reruns_last lab_run between _ w _ _ last refl)
        | inr (there, more) ↦ absurd (there (E.gone w (omega arith)))
      ]
      deletion_ends (suc n) w few found = elim (run-Ends (suc n) w found) [
        | inl (gone, last) ↦ (after_delete w, gone, reruns_last lab_run between _ w _ _ last refl)
        | inr (there, more) ↦
            let next = between (after_delete w) in
            let (v, gone, rest) =
              deletion_ends n next (omega (arith, E.empties w))
                (E.still (after_delete w) (still_read w found)) in
            (v, gone, reruns_more lab_run between _ w _ _ more refl ∙ rest)
      ]
