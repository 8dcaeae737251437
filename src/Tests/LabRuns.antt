-- ===== src/Tests/LabRuns.antt =====
-- Runs of the ClusterLab controller on a cluster in memory.
use notebook_operator.Base.{◌+◌, ◌-◌, ℕ, ◌≡◌, ◌≢◌, refl, inl, true, false, some, [], ◌∷◌}
use notebook_operator.Base.Int.{◌+ℤ◌, pos}
use notebook_operator.Base.Text.{codes, text_dec}
use notebook_operator.Base.Duration.{sub}
use notebook_operator.Utils.Names.{generate_target_namespace, sanitize_name}
use notebook_operator.Exec.{◌>>=◌, Failure, is_not_found, ok, err}
use notebook_operator.Kube.Meta.{NamespacedName}
use notebook_operator.Api.ClusterLab.{ClusterLab}
use notebook_operator.Client.{Client, clusterlab, namespace, secret}
use notebook_operator.Client.Laws.{IsLawful}
use notebook_operator.Client.Memory.{create_or_update, create, overwrite, settle}
use notebook_operator.Client.Memory.Lawful.{memory-IsLawful}
use notebook_operator.Client.Tables.{remove, Tables, replace, find, key_dec}
use notebook_operator.ClusterLab.Provision.{
  reconcile_namespace, reconcile_resource_quota, reconcile_network_policy,
}
use notebook_operator.ClusterLab.Status.{reported_lab, update_cluster_lab_status}
use notebook_operator.ClusterLab.Reconcile.{
  reconcile_lab_found, reconcile_lab, after_ttl, provision_lab, lab_reported, lab_report_by, Ttl,
  reconcile_ttl, reconcile_finalizer, reconcile_cluster_lab, doomed_namespace, with_target,
  cluster_lab_finalizer, namespace_object, namespace_key,
}
use notebook_operator.ClusterLab.Governed.{IsGoverned}
use notebook_operator.ClusterLab.Complete.{reconcile_cluster_lab-IsGoverned}
use notebook_operator.ClusterLab.Deletion.{reconcile_finalizer_waits, finalizer_first}
use notebook_operator.Tests.Fixtures.{client, machinery, machinery-KeepsNames}
use notebook_operator.Tests.Labs.{lab, leaving_lab, lab_key, only, lab_clock, one_hour}

-- A client whose server keeps what is deleted: the namespace is terminating.
abbrev pub lingering : Client ℕ
lingering = record client { delete = λ k o w. (ok tt, w) }

pub lingering-IsLawful : IsLawful lingering
lingering-IsLawful =
    let L = memory-IsLawful ℕ in
    record {
      get-create_ne = L.get-create_ne;
      get-create_self = L.get-create_self;
      get-create_old = L.get-create_old;
      get-patch_ne = L.get-patch_ne;
      Exists-patch = L.Exists-patch;
      get-update_ne = L.get-update_ne;
      get-update_status_ne = L.get-update_status_ne;
      Exists-update_status = L.Exists-update_status;
      get-create_or_update_ne = L.get-create_or_update_ne;
      get-create_or_update_self = L.get-create_or_update_self;
      get-delete_all_of_ne = L.get-delete_all_of_ne;
      delete_all_of-IsLeaving = L.delete_all_of-IsLeaving;
      get-delete_ne = λ k j o key w h. refl;
    }

abbrev pub terminating : Tables ℕ
terminating =
    replace ℕ namespace ((namespace_key (codes "lab-ml"), namespace_object (codes "lab-ml")) ∷ [])
      (only leaving_lab)

still_there :
    (e : Failure)
    → lingering.get namespace
        (namespace_key (doomed_namespace leaving_lab))
        (lingering.delete namespace (namespace_object (doomed_namespace leaving_lab)) terminating).1
      ≡ err e
    → is_not_found e ≡ false
unfolding doomed_namespace find replace key_dec codes
still_there e h = cc

pub has_finalizer : machinery.contains_finalizer leaving_lab.metadata cluster_lab_finalizer ≡ true
unfolding codes text_dec
has_finalizer = refl

reconcile_finalizer_waits_example :
    ((key : NamespacedName)
      → lingering.get clusterlab key
          (reconcile_finalizer machinery lingering leaving_lab terminating).1
        ≡ lingering.get clusterlab key terminating)
    × ((reconcile_finalizer machinery lingering leaving_lab terminating).0 ≢ ok (pos 0))
reconcile_finalizer_waits_example =
    reconcile_finalizer_waits machinery lingering leaving_lab lingering-IsLawful terminating
      has_finalizer still_there

abbrev secret_key : NamespacedName
secret_key = record { namespace = codes "default"; name = codes "s" }

finalizer_first_example :
    client.get secret secret_key
      (reconcile_cluster_lab machinery client one_hour lab_clock lab_key (only lab)).1
    ≡ client.get secret secret_key (only lab)
unfolding find replace key_dec codes
finalizer_first_example =
    finalizer_first machinery client lab (memory-IsLawful ℕ) machinery-KeepsNames one_hour lab_clock
      lab_key (only lab) refl refl refl secret secret_key (inl (λ e. cc))

-- A cluster lab that has its finalizer.
abbrev pub settled_lab : ClusterLab ℕ
settled_lab = record lab {
  metadata = record lab.metadata { finalizers = cluster_lab_finalizer ∷ [] };
}

abbrev pub live_ttl : Ttl ℕ
live_ttl = record {
  is_expired = false;
  requeue_after = pos (3600000000000 + 1000000000 - 5000000001);
  lab = record settled_lab {
    status = record settled_lab.status {
      target_namespace = codes "lab-ml";
      expires_at = some (pos (3600000000000 + 1000000000));
    };
  };
}

settled_found : client.get clusterlab lab_key (only settled_lab) ≡ ok settled_lab
unfolding find replace key_dec codes
settled_found = refl

pub settled_has : machinery.contains_finalizer settled_lab.metadata cluster_lab_finalizer ≡ true
unfolding codes text_dec
settled_has = refl

pub settled_ttl : reconcile_ttl one_hour lab_clock (with_target settled_lab) ≡ ok live_ttl
unfolding codes with_target reconcile_ttl ◌+ℤ◌ sub generate_target_namespace sanitize_name
settled_ttl = refl

settled_run :
    (reconcile_cluster_lab machinery client one_hour lab_clock lab_key (only settled_lab)).0
    ≡ ok live_ttl.requeue_after
unfolding codes reconcile_cluster_lab reconcile_lab_found reconcile_lab after_ttl reconcile_ttl
    with_target provision_lab lab_reported lab_report_by reconcile_namespace
    reconcile_resource_quota reconcile_network_policy create_or_update create overwrite settle
    update_cluster_lab_status ◌>>=◌ find replace remove key_dec generate_target_namespace
    sanitize_name ◌+ℤ◌ sub text_dec reported_lab
settled_run = refl

reconcile_cluster_lab-IsGoverned_example :
    IsGoverned machinery client live_ttl.lab
      (reconcile_cluster_lab machinery client one_hour lab_clock lab_key (only settled_lab)).1
reconcile_cluster_lab-IsGoverned_example =
    reconcile_cluster_lab-IsGoverned machinery client one_hour lab_clock (memory-IsLawful ℕ) lab_key
      settled_lab live_ttl (only settled_lab) live_ttl.requeue_after settled_found refl settled_has
      settled_ttl refl settled_run
