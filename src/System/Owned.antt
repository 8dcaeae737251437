-- ===== src/System/Owned.antt =====
-- The statuses of cluster labs name no other target namespace than the one made of the name.
use notebook_operator.Base.{
  sym, Bool-cases, inl, inr, ◌≡◌, ◌≢◌, ◌⊎◌, ◌∙◌, refl, Bool, true, false, Option, none, some,
  if◌then◌else◌,
}
use notebook_operator.Base.Text.{Text}
use notebook_operator.Utils.Strings.{is_empty}
use notebook_operator.Utils.Names.{generate_target_namespace}
use notebook_operator.Exec.{error_text, Failure, Result, ok, err, Exec, pure, ◌>>◌}
use notebook_operator.Exec.Keeps.{
  Keeps, Keeps-bind, Keeps-pure, Keeps-attempt, Keeps-reads, keeps_rules,
}
use notebook_operator.Kube.Meta.{NamespacedName}
use notebook_operator.Kube.Objects.{Namespace}
use notebook_operator.Api.ClusterLab.{ClusterLab}
use notebook_operator.Client.{
  Kind, Obj, Client, Machinery, clusterlab, namespace, resource_quota, network_policy, key_of,
}
use notebook_operator.Client.Laws.{IsLawful, KeepsNames}
use notebook_operator.Client.Frame.{Still, delete-Still, create_or_update-Still}
use notebook_operator.ClusterLab.Provision.{
  lab_policy, reconcile_namespace, reconcile_resource_quota, reconcile_network_policy,
}
use notebook_operator.ClusterLab.Status.{
  LabClock, reported_lab, failed_lab, update_cluster_lab_status, update_status_failed,
}
use notebook_operator.ClusterLab.Reconcile.{
  doomed_namespace, with_target, remove_lab_finalizer, finalize_by, check_deleted, delete_target,
  reconcile_finalizer, add_lab_finalizer, expire_by, expire, lab_report_by, lab_reported,
  provision_lab,
}

either_way : (b : Bool) (a : Text) → (if b then a else a) ≡ a
either_way true a = refl
either_way false a = refl

module _ {Quantity : Type 0} where
  -- Two cluster labs with one name, and one target namespace in the status.
  abbrev pub Alike : ClusterLab Quantity → ClusterLab Quantity → Type 0
  Alike a b =
      (a.metadata.name ≡ b.metadata.name) × (a.status.target_namespace ≡ b.status.target_namespace)

  -- The namespace that would be deleted with the cluster lab is the one made of its name.
  abbrev pub IsOwn : ClusterLab Quantity → Type 0
  IsOwn lab = doomed_namespace lab ≡ generate_target_namespace lab.metadata.name

  pub Alike-IsOwn : (a b : ClusterLab Quantity) → Alike a b → IsOwn b → IsOwn a
  unfolding doomed_namespace
  Alike-IsOwn a b (e, f) h = rw (e, f) h

  pub with_target-IsOwn : (lab : ClusterLab Quantity) → IsOwn lab → IsOwn (with_target lab)
  unfolding with_target doomed_namespace
  with_target-IsOwn lab h = elim (Bool-cases (is_empty lab.status.target_namespace)) [
    | inl b ↦ rw b (either_way _ _)
    | inr b ↦ rw b h
  ]

  target-IsOwn :
      (lab : ClusterLab Quantity)
      → lab.status.target_namespace ≡ generate_target_namespace lab.metadata.name
      → IsOwn lab
  unfolding doomed_namespace
  target-IsOwn lab h = rw h (either_way _ _)

-- If the read finds a cluster lab, it is of that kind.
abbrev pub OwnFound : {Quantity : Type 0} → Result (ClusterLab Quantity) → Type 0
OwnFound (ok lab) = IsOwn lab
OwnFound (err e) = Unit {0}

pub OwnFound-of :
    {Quantity : Type 0} (s : Result (ClusterLab Quantity))
    → ((x : ClusterLab Quantity) → s ≡ ok x → IsOwn x)
    → OwnFound s
OwnFound-of (ok lab) h = h lab refl
OwnFound-of (err e) h = tt

-- What a write of a cluster lab leaves under any name: a cluster lab like the one that was written, or
-- like the one that was there, since a plain update leaves the status and an update of the status
-- leaves the rest. A deletion leaves what was there, or what finalizers hold back of it.
pub record TellsStatus {Quantity : Type 0} (C : Client Quantity) : Type 0 where
  pub updated :
      (o : ClusterLab Quantity) (key : NamespacedName) (x : ClusterLab Quantity) (w : C.World)
      → C.get clusterlab key (C.update clusterlab o w).1 ≡ ok x
      → Alike x o ⊎ ((y : ClusterLab Quantity) × (C.get clusterlab key w ≡ ok y) × Alike x y)
  pub status_updated :
      (o : ClusterLab Quantity) (key : NamespacedName) (x : ClusterLab Quantity) (w : C.World)
      → C.get clusterlab key (C.update_status clusterlab o w).1 ≡ ok x
      → Alike x o ⊎ ((y : ClusterLab Quantity) × (C.get clusterlab key w ≡ ok y) × Alike x y)
  pub deleted :
      (o : ClusterLab Quantity) (key : NamespacedName) (x : ClusterLab Quantity) (w : C.World)
      → C.get clusterlab key (C.delete clusterlab o w).1 ≡ ok x
      → (y : ClusterLab Quantity) × (C.get clusterlab key w ≡ ok y) × Alike x y

-- Every cluster lab is of that kind.
abbrev pub Owned : {Quantity : Type 0} (C : Client Quantity) → C.World → Type 0
Owned {Quantity} C w =
    (key : NamespacedName) (x : ClusterLab Quantity) → C.get clusterlab key w ≡ ok x → IsOwn x

module _ (M : Machinery) (C : Client M.Quantity) (L : IsLawful C) (N : KeepsNames M)
    (S : TellsStatus C) where
  update-Owned : (o : ClusterLab M.Quantity) → IsOwn o → Keeps (Owned C) (C.update clusterlab o)
  update-Owned o own = record {
    at = λ w h key x e. elim (S.updated o key x w e) [
      | inl like ↦ Alike-IsOwn x o like own
      | inr (y, e', like) ↦ Alike-IsOwn x y like (h key y e')
    ];
  }

  status-Owned :
      (o : ClusterLab M.Quantity) → IsOwn o → Keeps (Owned C) (C.update_status clusterlab o)
  status-Owned o own = record {
    at = λ w h key x e. elim (S.status_updated o key x w e) [
      | inl like ↦ Alike-IsOwn x o like own
      | inr (y, e', like) ↦ Alike-IsOwn x y like (h key y e')
    ];
  }

  delete-Owned : (o : ClusterLab M.Quantity) → Keeps (Owned C) (C.delete clusterlab o)
  delete-Owned o = record {
    at = λ w h key x e.
        let (y, e', like) = S.deleted o key x w e in Alike-IsOwn x y like (h key y e');
  }

  -- What leaves every cluster lab as it is.
  Owned-of-Still :
      {A : Type 0} (m : Exec C.World A)
      → ((key : NamespacedName) (r : Result (ClusterLab M.Quantity))
          → Keeps (Still C L clusterlab key r) m)
      → Keeps (Owned C) m
  Owned-of-Still m still = record {
    at = λ w h key x e. h key x (sym ((still key (C.get clusterlab key w)).at w refl) ∙ e);
  }

  changed-Owned :
      (k : Kind) (o : Obj M.Quantity k) (g : Obj M.Quantity k → Obj M.Quantity k)
      → k ≢ clusterlab
      → ((x : Obj M.Quantity k) → key_of M.Quantity k (g x) ≡ key_of M.Quantity k x)
      → Keeps (Owned C) (C.create_or_update k o g >> pure tt)
  changed-Owned k o g ne names =
      Keeps-bind _ _
        (Owned-of-Still _
          (λ key r. create_or_update-Still C L clusterlab key r k o g names (inl ne)))
        (λ a. Keeps-pure _)

  delete_namespace-Owned : (ns : Namespace) → Keeps (Owned C) (C.delete namespace ns)
  delete_namespace-Owned ns =
      Owned-of-Still _ (λ key r. delete-Still C L clusterlab key r namespace ns (inl (λ e. cc)))

  module _ (lab : ClusterLab M.Quantity) (own : IsOwn lab) where
    pub remove-Owned : Keeps (Owned C) (remove_lab_finalizer M C lab)
    unfolding remove_lab_finalizer
    remove-Owned =
        Keeps-bind _ _ (update-Owned _ (Alike-IsOwn _ lab (N.remove_finalizer_name _ _, refl) own))
          (λ a. Keeps-pure _)

    pub add-Owned : Keeps (Owned C) (add_lab_finalizer M C lab)
    unfolding add_lab_finalizer
    add-Owned =
        Keeps-bind _ _ (update-Owned _ (Alike-IsOwn _ lab (N.add_finalizer_name _ _, refl) own))
          (λ a. Keeps-pure _)

    finalize_by-Owned : (s : Result Namespace) → Keeps (Owned C) (finalize_by M C lab s)
    unfolding finalize_by
    finalize_by-Owned (ok ns) = search keeps_rules
    finalize_by-Owned (err e) = search (keeps_rules, remove-Owned)

    check_deleted-Owned :
        (o : Option Failure) (target : Text) → Keeps (Owned C) (check_deleted M C lab o target)
    unfolding check_deleted
    check_deleted-Owned (some e) target = search keeps_rules
    check_deleted-Owned none target = search (keeps_rules, finalize_by-Owned)

    pub finalizer-Owned : Keeps (Owned C) (reconcile_finalizer M C lab)
    unfolding reconcile_finalizer delete_target
    finalizer-Owned = search (keeps_rules, check_deleted-Owned, delete_namespace-Owned)

    expire_by-Owned : (o : Option Failure) → Keeps (Owned C) (expire_by M C lab o)
    unfolding expire_by
    expire_by-Owned (some e) = search keeps_rules
    expire_by-Owned none = search keeps_rules

    pub expire-Owned : Keeps (Owned C) (expire M C lab)
    unfolding expire
    expire-Owned = search (keeps_rules, delete-Owned, expire_by-Owned)

    module _ (clock : LabClock) where
      failed-Owned :
          (reason : Text) (e : Failure)
          → Keeps (Owned C) (update_status_failed M C clock lab reason e)
      unfolding update_status_failed failed_lab
      failed-Owned reason e =
          Keeps-bind _ _
            (Keeps-attempt _ (
              status-Owned (failed_lab M C clock lab reason (error_text e))
                (Alike-IsOwn _ lab (refl, refl) own)))
            (λ a. Keeps-pure _)

      report_by-Owned :
          (reason : Text) (s : Result (Unit {0}))
          → Keeps (Owned C) (lab_report_by M C clock lab reason s)
      unfolding lab_report_by
      report_by-Owned reason (ok done) = search keeps_rules
      report_by-Owned reason (err e) = search (keeps_rules, failed-Owned)

      step-Owned :
          (reason : Text) (m : Exec C.World (Unit {0}))
          → Keeps (Owned C) m
          → Keeps (Owned C) (lab_reported M C clock lab reason m)
      unfolding lab_reported
      step-Owned reason m k = search (keeps_rules, report_by-Owned)

      report-Owned :
          Keeps
            (Owned C)
            (update_cluster_lab_status M C clock lab (generate_target_namespace lab.metadata.name))
      unfolding update_cluster_lab_status reported_lab
      report-Owned = Keeps-bind _ _ (Keeps-attempt _ (Keeps-reads _)) λ quota.
          Keeps-bind _ _ (Keeps-attempt _ (Keeps-reads _)) λ instances.
            Keeps-bind _ _
              (status-Owned
                (reported_lab M clock lab (generate_target_namespace lab.metadata.name) quota
                  instances)
                (target-IsOwn _ refl))
              (λ a. Keeps-pure _)

      namespace-Owned : (ns : Text) → Keeps (Owned C) (reconcile_namespace M C lab ns)
      unfolding reconcile_namespace
      namespace-Owned ns = changed-Owned namespace _ _ (λ e. cc) (λ x. refl)

      quota-Owned : (ns : Text) → Keeps (Owned C) (reconcile_resource_quota M C lab ns)
      unfolding reconcile_resource_quota
      quota-Owned ns = changed-Owned resource_quota _ _ (λ e. cc) (λ x. refl)

      policy-Owned : (ns : Text) → Keeps (Owned C) (reconcile_network_policy M C lab ns)
      unfolding reconcile_network_policy lab_policy
      policy-Owned ns = changed-Owned network_policy _ _ (λ e. cc) (λ x. refl)

      pub provision-Owned : Keeps (Owned C) (provision_lab M C clock lab)
      unfolding provision_lab
      provision-Owned =
          search (keeps_rules, step-Owned, namespace-Owned, quota-Owned, policy-Owned, report-Owned)
