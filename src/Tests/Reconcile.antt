-- ===== src/Tests/Reconcile.antt =====
-- Runs on a cluster in memory.
use mathlib.Core.Option.{some-injective, none-ne-some}
use notebook_operator.Base.{
  subst, ◌++◌, some, inl, inr, Option-cases, arith, [], ◌∷◌, ℕ, ◌-◌, ◌≡◌, refl, false,
}
use notebook_operator.Base.Int.{pos}
use notebook_operator.Base.Text.{Text, codes}
use notebook_operator.Base.Duration.{times, sub}
use notebook_operator.Base.Dict.{Dict, lookup}
use notebook_operator.Exec.{Failure, err, ok, ◌>>=◌}
use notebook_operator.Api.NotebookLab.{phase_dec}
use notebook_operator.Kube.Meta.{NamespacedName}
use notebook_operator.Kube.Objects.{Secret}
use notebook_operator.Client.{notebooklab, secret, key_of}
use notebook_operator.Client.Memory.{settle, create, overwrite}
use notebook_operator.Client.Memory.Lawful.{memory-IsLawful}
use notebook_operator.Client.Tables.{Tables, find, remove, replace, key_dec}
use notebook_operator.Notebook.Lifecycle.{
  last_active, reconcile_lifecycle, Lifecycle, sooner, check_purge, check_pauses, check_idle,
  check_lifespan, check_lifespan_by, pause_at, lifecycle_by, max_idle, max_inactive, max_lifespan,
}
use notebook_operator.Notebook.Children.{
  new_workspace_pvc, new_secret, token_of, create_workspace_pvc, workspace_pvc_by,
  reconcile_workspace_pvc, create_secret, notebook_secret_by, reconcile_notebook_secret,
}
use notebook_operator.Notebook.Deployment.{
  apply_deployment, place_deployment, reconcile_jupyter_deployment, desired_deployment,
}
use notebook_operator.Notebook.Networking.{
  new_service, new_ingress, create_service, service_by, create_ingress, ingress_by,
  reconcile_service, reconcile_ingress, reconcile_networking,
}
use notebook_operator.Notebook.Status.{observed, status_by, update_notebook_status}
use notebook_operator.Notebook.Reconcile.{
  report_by, reported, workspace_step, provision, after_lifecycle, reconcile_found, reconcile,
}
use notebook_operator.Notebook.Token.{IsMerging, reconcile_notebook_secret_twice}
use notebook_operator.Notebook.Reconcile.Complete.{Provisioned, reconcile_complete}
use notebook_operator.Notebook.Reconcile.Untouched.{NotDue, existing_objects_kept}
use notebook_operator.Tests.Fixtures.{
  metadata, client, machinery, machinery-KeepsNames, notebook, notebook_key, cluster, clock_after,
}

abbrev kept : Lifecycle ℕ
kept = record {
  purged = false;
  requeue_after = pos (3600000000000 - 60);
  notebook = notebook (pos 30);
}

policies_run :
    (w : Tables ℕ)
    → reconcile_lifecycle client (clock_after 60) (notebook (pos 30)) w ≡ (ok kept, w)
unfolding reconcile_lifecycle lifecycle_by check_purge check_pauses check_idle check_lifespan
    check_lifespan_by pause_at sooner ◌>>=◌ max_inactive max_idle max_lifespan times sub last_active
    codes phase_dec
policies_run w = refl

found_run : client.get notebooklab notebook_key (cluster (pos 30)) ≡ ok (notebook (pos 30))
unfolding find replace key_dec codes
found_run = refl

whole_run :
    (reconcile machinery client (clock_after 60) notebook_key (cluster (pos 30))).0
    ≡ ok kept.requeue_after
unfolding reconcile reconcile_found after_lifecycle provision workspace_step reported report_by
    reconcile_lifecycle lifecycle_by check_purge check_pauses check_idle check_lifespan
    check_lifespan_by pause_at sooner ◌>>=◌ max_inactive max_idle max_lifespan times sub last_active
    codes find replace remove key_dec new_workspace_pvc new_secret token_of create_workspace_pvc
    workspace_pvc_by reconcile_workspace_pvc create_secret notebook_secret_by
    reconcile_notebook_secret apply_deployment place_deployment reconcile_jupyter_deployment
    desired_deployment new_service new_ingress create_service service_by create_ingress ingress_by
    reconcile_service reconcile_ingress reconcile_networking observed status_by
    update_notebook_status create overwrite settle lookup phase_dec
whole_run = refl

reconcile_complete_example :
    Provisioned machinery client
      (notebook (pos 30))
      (reconcile machinery client (clock_after 60) notebook_key (cluster (pos 30))).1
    × (kept.requeue_after ≡ kept.requeue_after)
reconcile_complete_example =
    reconcile_complete machinery client (memory-IsLawful ℕ) machinery-KeepsNames (clock_after 60)
      notebook_key (notebook (pos 30)) (cluster (pos 30)) (cluster (pos 30)) kept kept.requeue_after
      found_run (policies_run (cluster (pos 30))) refl whole_run

abbrev secret_key : NamespacedName
secret_key = record { namespace = codes "lab"; name = codes "nb-secret" }

-- A secret with a token that somebody has changed.
abbrev own_secret : Secret
own_secret = record {
  metadata = metadata (codes "lab") (codes "nb-secret");
  data_map = (codes "token", codes "changed") ∷ [];
  string_data = [];
}

abbrev cluster_with_secret : Tables ℕ
cluster_with_secret = replace ℕ secret ((secret_key, own_secret) ∷ []) (cluster (pos 30))

found_beside : client.get notebooklab notebook_key cluster_with_secret ≡ ok (notebook (pos 30))
unfolding find replace key_dec codes
found_beside = refl

secret_before : client.get secret secret_key cluster_with_secret ≡ ok own_secret
unfolding find replace key_dec codes
secret_before = refl

-- The notebook is a minute old, and is purged after thirty days.
not_due : NotDue (clock_after 60) (notebook (pos 30))
unfolding max_inactive times sub last_active
not_due l policy on = rw (← some-injective _ _ policy) refl

existing_objects_kept_example :
    client.get secret secret_key
      (reconcile machinery client (clock_after 60) notebook_key cluster_with_secret).1
    ≡ ok own_secret
existing_objects_kept_example =
    existing_objects_kept machinery client (memory-IsLawful ℕ) (clock_after 60) notebook_key
      (notebook (pos 30)) cluster_with_secret found_beside not_due secret secret_key own_secret
      (λ e. cc) (λ e. cc) secret_before

first_token :
    (reconcile_notebook_secret machinery client (notebook (pos 30)) (cluster (pos 30))).0
    ≡ ok (codes "nb-token-sec")
unfolding reconcile_notebook_secret notebook_secret_by create_secret new_secret ◌>>=◌ find replace
    create key_dec codes settle
first_token = refl

err-ne-ok : {A : Type 0} {a : A} {e : Failure} → ¬ (err e ≡ ok a)
err-ne-ok h = cc

-- The client in memory merges the string data of a secret.
merged : (k v : Text) (xs ys : Dict Text) → lookup k xs ≡ some v → lookup k (xs ++ ys) ≡ some v
unfolding lookup
merged k v [] ys h = absurd (none-ne-some v h)
merged k v ((j, u) ∷ xs) ys h = ground (arith, merged k v xs ys)

settled_data :
    (s s' : Secret) (k v : Text)
    → ok (settle ℕ secret s) ≡ ok s'
    → lookup k s.string_data ≡ some v
    → lookup k s'.data_map ≡ some v
unfolding settle
settled_data s s' k v made h =
    let same : settle ℕ secret s ≡ s' = cc made in
    subst (λ (t : Secret). lookup k t.data_map ≡ some v) same
      (merged k v s.string_data s.data_map h)

client-IsMerging : IsMerging client
unfolding create
client-IsMerging = record {
  at = λ s s' w k v made h. elim (Option-cases (find (key_of ℕ secret s) (w secret))) [
    | inl e ↦ settled_data s s' k v (rw (e, create) at made) h
    | inr (old, e) ↦ absurd (err-ne-ok (rw (e, create) at made))
  ];
}

reconcile_notebook_secret_twice_example :
    reconcile_notebook_secret machinery client
      (notebook (pos 30))
      (reconcile_notebook_secret machinery client (notebook (pos 30)) (cluster (pos 30))).1
    ≡ (
      ok (codes "nb-token-sec"),
      (reconcile_notebook_secret machinery client (notebook (pos 30)) (cluster (pos 30))).1,
    )
reconcile_notebook_secret_twice_example =
    reconcile_notebook_secret_twice machinery client (memory-IsLawful ℕ) machinery-KeepsNames
      client-IsMerging (notebook (pos 30)) (cluster (pos 30)) (codes "nb-token-sec") first_token
