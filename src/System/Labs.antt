-- ===== src/System/Labs.antt =====
-- What a run of the ClusterLab controller leaves alone.
use notebook_operator.Base.{sym, subst, Bool-cases, inl, inr, arith, ◌≡◌, refl, Option, none, some}
use notebook_operator.Base.Int.{ℤ}
use notebook_operator.Base.Text.{Text, codes}
use notebook_operator.Base.Duration.{Duration}
use notebook_operator.Utils.Strings.{is_empty}
use notebook_operator.Utils.Names.{generate_target_namespace}
use notebook_operator.Exec.{error_text, Failure, Result, ok, err, Exec, pure, ◌>>◌, ◌>>=◌}
use notebook_operator.Exec.Keeps.{
  Keeps, Keeps-bind, Keeps-pure, Keeps-if, Keeps-attempt, Keeps-reads, keeps_rules,
}
use notebook_operator.Kube.Meta.{ObjectMeta, NamespacedName}
use notebook_operator.Kube.Objects.{Namespace}
use notebook_operator.Api.ClusterLab.{ClusterLab}
use notebook_operator.Client.{
  Kind, Obj, Client, Machinery, clusterlab, namespace, resource_quota, network_policy, key_of,
}
use notebook_operator.Client.Laws.{Apart, IsLawful, KeepsNames}
use notebook_operator.Client.Frame.{
  Still, update-Still, update_status-Still, delete-Still, create_or_update-Still,
}
use notebook_operator.ClusterLab.Provision.{
  lab_policy, quota_name, reconcile_namespace, reconcile_resource_quota, reconcile_network_policy,
}
use notebook_operator.ClusterLab.Status.{
  LabClock, reported_lab, failed_lab, update_cluster_lab_status, update_status_failed,
}
use notebook_operator.ClusterLab.Reconcile.{
  Ttl, namespace_key, doomed_namespace, with_target, ttl_by, reconcile_ttl, remove_lab_finalizer,
  finalize_by, check_deleted, delete_target, reconcile_finalizer, add_lab_finalizer, expire_by,
  expire, lab_report_by, lab_reported, provision_lab, after_ttl, reconcile_lab, reconcile_lab_found,
  reconcile_cluster_lab,
}
use notebook_operator.ClusterLab.Governed.{in_namespace}

-- An object that is neither the cluster lab with that metadata nor its target namespace nor the
-- quota or the policy that it has there.
pub record IsForeign (m : ObjectMeta) (j : Kind) (key : NamespacedName) : Type 0 where
  pub itself : Apart clusterlab (in_namespace m.namespace m.name) j key
  pub target : Apart namespace (namespace_key (generate_target_namespace m.name)) j key
  pub quota :
      Apart resource_quota (in_namespace (generate_target_namespace m.name) quota_name) j key
  pub policy :
      Apart network_policy
        (in_namespace (generate_target_namespace m.name) (codes "lab-network-policy"))
        j
        key

module _ {Quantity : Type 0} (j : Kind) (key : NamespacedName) where
  -- If the cluster lab is there, it has nothing to do with the object.
  abbrev pub IsUnrelated : Result (ClusterLab Quantity) → Type 0
  IsUnrelated (ok lab) =
      IsForeign lab.metadata j key × Apart namespace (namespace_key (doomed_namespace lab)) j key
  IsUnrelated (err e) = Unit {0}

module _ (M : Machinery) (C : Client M.Quantity) (L : IsLawful C) (N : KeepsNames M) (j : Kind)
    (key : NamespacedName) (r : Result (Obj M.Quantity j)) where
  abbrev Same : C.World → Type 0
  Same = Still C L j key r

  module _ (lab : ClusterLab M.Quantity) (f : IsForeign lab.metadata j key) where
    remove-Still : Keeps Same (remove_lab_finalizer M C lab)
    unfolding remove_lab_finalizer
    remove-Still =
        Keeps-bind _ _
          (update-Still C L j key r clusterlab _
            (rw (N.remove_finalizer_name, N.remove_finalizer_namespace) f.itself))
          (λ a. Keeps-pure _)

    add-Still : Keeps Same (add_lab_finalizer M C lab)
    unfolding add_lab_finalizer
    add-Still =
        Keeps-bind _ _
          (update-Still C L j key r clusterlab _
            (rw (N.add_finalizer_name, N.add_finalizer_namespace) f.itself))
          (λ a. Keeps-pure _)

    finalize_by-Still : (s : Result Namespace) → Keeps Same (finalize_by M C lab s)
    unfolding finalize_by
    finalize_by-Still (ok ns) = search keeps_rules
    finalize_by-Still (err e) = search (keeps_rules, remove-Still)

    check_deleted-Still :
        (o : Option Failure) (target : Text) → Keeps Same (check_deleted M C lab o target)
    unfolding check_deleted
    check_deleted-Still (some e) target = search keeps_rules
    check_deleted-Still none target = search (keeps_rules, finalize_by-Still)

    finalizer-Still :
        Apart namespace (namespace_key (doomed_namespace lab)) j key
        → Keeps Same (reconcile_finalizer M C lab)
    unfolding reconcile_finalizer delete_target
    finalizer-Still doomed =
        search (keeps_rules, check_deleted-Still, delete-Still C L j key r namespace _ doomed)

    expire_by-Still : (o : Option Failure) → Keeps Same (expire_by M C lab o)
    unfolding expire_by
    expire_by-Still (some e) = search keeps_rules
    expire_by-Still none = search keeps_rules

    expire-Still : Keeps Same (expire M C lab)
    unfolding expire
    expire-Still =
        Keeps-bind _ _ (Keeps-attempt _ (delete-Still C L j key r clusterlab lab f.itself))
          (λ a. expire_by-Still _)

    module _ (clock : LabClock) where
      failed-Still :
          (reason : Text) (e : Failure) → Keeps Same (update_status_failed M C clock lab reason e)
      unfolding update_status_failed failed_lab
      failed-Still reason e =
          Keeps-bind _ _
            (Keeps-attempt _ (
              update_status-Still C L j key r clusterlab
                (failed_lab M C clock lab reason (error_text e)) f.itself))
            (λ a. Keeps-pure _)

      report_by-Still :
          (reason : Text) (s : Result (Unit {0}))
          → Keeps Same (lab_report_by M C clock lab reason s)
      unfolding lab_report_by
      report_by-Still reason (ok done) = search keeps_rules
      report_by-Still reason (err e) = search (keeps_rules, failed-Still)

      step-Still :
          (reason : Text) (m : Exec C.World (Unit {0}))
          → Keeps Same m
          → Keeps Same (lab_reported M C clock lab reason m)
      unfolding lab_reported
      step-Still reason m k = search (keeps_rules, report_by-Still)

      changed-Still :
          (k : Kind) (o : Obj M.Quantity k) (g : Obj M.Quantity k → Obj M.Quantity k)
          → ((x : Obj M.Quantity k) → key_of M.Quantity k (g x) ≡ key_of M.Quantity k x)
          → Apart k (key_of M.Quantity k o) j key
          → Keeps Same (C.create_or_update k o g >> pure tt)
      changed-Still k o g names ne =
          Keeps-bind _ _ (create_or_update-Still C L j key r k o g names ne) (λ a. Keeps-pure _)

      status-Still : (ns : Text) → Keeps Same (update_cluster_lab_status M C clock lab ns)
      unfolding update_cluster_lab_status reported_lab
      status-Still ns = Keeps-bind _ _ (Keeps-attempt _ (Keeps-reads _)) λ quota.
          Keeps-bind _ _ (Keeps-attempt _ (Keeps-reads _)) λ instances.
            Keeps-bind _ _
              (update_status-Still C L j key r clusterlab
                (reported_lab M clock lab ns quota instances) f.itself)
              (λ a. Keeps-pure _)

      namespace-Still :
          Keeps Same (reconcile_namespace M C lab (generate_target_namespace lab.metadata.name))
      unfolding reconcile_namespace
      namespace-Still = changed-Still namespace _ _ (λ x. refl) f.target

      quota-Still :
          Keeps Same
            (reconcile_resource_quota M C lab (generate_target_namespace lab.metadata.name))
      unfolding reconcile_resource_quota
      quota-Still = changed-Still resource_quota _ _ (λ x. refl) f.quota

      policy-Still :
          Keeps Same
            (reconcile_network_policy M C lab (generate_target_namespace lab.metadata.name))
      unfolding reconcile_network_policy lab_policy
      policy-Still = changed-Still network_policy _ _ (λ x. refl) f.policy

      provision-Still : Keeps Same (provision_lab M C clock lab)
      unfolding provision_lab
      provision-Still =
          search (keeps_rules, step-Still, namespace-Still, quota-Still, policy-Still, status-Still)

  module _ (parse_duration : Text → Option Duration) (clock : LabClock) where
    -- The outcome of the TTL is of the cluster lab with that metadata.
    abbrev IsOf : ObjectMeta → Result (Ttl M.Quantity) → Type 0
    IsOf m (ok t) = t.lab.metadata ≡ m
    IsOf m (err e) = Unit {0}

    ttl_by-IsOf :
        (lab : ClusterLab M.Quantity) (o : Option Duration)
        → IsOf lab.metadata (ttl_by parse_duration clock lab o)
    unfolding ttl_by
    ttl_by-IsOf lab none = tt
    ttl_by-IsOf lab (some d) = ground arith

    reconcile_ttl-IsOf :
        (lab : ClusterLab M.Quantity) → IsOf lab.metadata (reconcile_ttl parse_duration clock lab)
    unfolding reconcile_ttl
    reconcile_ttl-IsOf lab = elim (Bool-cases (is_empty lab.spec.ttl)) [
      | inl b ↦ rw b refl
      | inr b ↦ rw b (ttl_by-IsOf lab (parse_duration lab.spec.ttl))
    ]

    with_target_metadata : (lab : ClusterLab M.Quantity) → (with_target lab).metadata ≡ lab.metadata
    unfolding with_target
    with_target_metadata lab = ground arith

    after_ttl-Still :
        (m : ObjectMeta)
        → IsForeign m j key
        → (o : Result (Ttl M.Quantity)) → IsOf m o
        → Keeps Same (after_ttl M C parse_duration clock o)
    unfolding after_ttl
    after_ttl-Still m f (err e) h = search keeps_rules
    after_ttl-Still m f (ok t) h =
        let g = subst (λ x. IsForeign x j key) (sym h) f in
        Keeps-if _ _ _ (expire-Still t.lab g)
          (Keeps-bind _ _ (provision-Still t.lab g clock) (λ a. Keeps-pure _))

    lab-Still :
        (lab : ClusterLab M.Quantity) (deleted : Option ℤ)
        → IsForeign lab.metadata j key
        → Apart namespace (namespace_key (doomed_namespace lab)) j key
        → Keeps Same (reconcile_lab M C parse_duration clock lab deleted)
    unfolding reconcile_lab
    lab-Still lab (some t) f doomed = finalizer-Still lab f doomed
    lab-Still lab none f doomed =
        Keeps-if _ _ _
          (after_ttl-Still lab.metadata f _ (
            subst (λ m. IsOf m (reconcile_ttl parse_duration clock (with_target lab)))
              (with_target_metadata lab) (reconcile_ttl-IsOf (with_target lab))))
          (add-Still lab f)

    found-Still :
        (s : Result (ClusterLab M.Quantity))
        → IsUnrelated j key s
        → Keeps Same (reconcile_lab_found M C parse_duration clock s)
    unfolding reconcile_lab_found
    found-Still (ok lab) (f, doomed) = lab-Still lab _ f doomed
    found-Still (err e) h = search keeps_rules

    -- The run leaves the object as it is, whatever it answers.
    pub lab_run-Still :
        (req : NamespacedName) (w : C.World)
        → IsUnrelated j key (C.get clusterlab req w)
        → Same w
        → Same (reconcile_cluster_lab M C parse_duration clock req w).1
    unfolding reconcile_cluster_lab ◌>>=◌
    lab_run-Still req w h same = (found-Still (C.get clusterlab req w) h).at w same
