-- ===== src/Tests/System.antt =====
-- The two controllers in turn, on a cluster in memory.
use notebook_operator.Base.{ℕ, ap, length, ◌≡◌, ◌≤◌, refl, sym, subst, arith, some, [], ◌∷◌}
use notebook_operator.Base.Int.{◌+ℤ◌, pos}
use notebook_operator.Base.Text.{codes, text_dec}
use notebook_operator.Base.Duration.{sub}
use notebook_operator.Utils.Names.{generate_target_namespace, sanitize_name}
use notebook_operator.Exec.{Result, ok, err, ◌>>=◌}
use notebook_operator.Kube.Meta.{NamespacedName}
use notebook_operator.Api.ClusterLab.{ClusterLab}
use notebook_operator.Client.{secret, clusterlab, instancelab}
use notebook_operator.Client.Memory.{create_or_update, create, overwrite, settle}
use notebook_operator.Client.Memory.Lawful.{memory-IsLawful}
use notebook_operator.Client.Tables.{remove, Tables, replace, find, key_dec}
use notebook_operator.ClusterLab.Provision.{
  reconcile_namespace, reconcile_resource_quota, reconcile_network_policy,
}
use notebook_operator.ClusterLab.Status.{reported_lab, update_cluster_lab_status}
use notebook_operator.ClusterLab.Reconcile.{
  reconcile_lab_found, reconcile_lab, after_ttl, provision_lab, lab_reported, lab_report_by,
  reconcile_ttl, reconcile_cluster_lab, with_target, doomed_namespace,
}
use notebook_operator.ClusterLab.Governed.{IsGoverned, target}
use notebook_operator.ClusterLab.Complete.{reconcile_cluster_lab-IsGoverned}
use notebook_operator.Utils.Strings.{equal_fold}
use notebook_operator.InstanceLab.Objects.{reconcile_instance_pvc}
use notebook_operator.InstanceLab.Pod.{reconcile_sysbox_pod}
use notebook_operator.InstanceLab.Network.{
  exposed_ports, services_by, reconcile_services, instance_ingress_by, reconcile_instance_ingress,
}
use notebook_operator.InstanceLab.Status.{
  access_endpoints, endpoints_at, reported_instance, report_instance, update_instance_lab_status,
}
use notebook_operator.InstanceLab.Reconcile.{
  Parent, adopt, resolve_by, resolve_parent_cluster_lab, reconcile_instance_found,
  reconcile_instance, after_parent, provision_instance, instance_reported, instance_report_by,
  reconcile_instance_lab,
}
use notebook_operator.InstanceLab.Steps.{IsInstalled}
use notebook_operator.System.Neighbours.{IsNeighbour, Neighbouring, Respects, Runs-IsGoverned}
use notebook_operator.System.Owned.{IsOwn, Owned}
use notebook_operator.System.OwnedRuns.{lab_run-Owned}
use notebook_operator.Tests.Statuses.{memory-TellsStatus, find-Each}
use notebook_operator.System.Handover.{lab_hands_over}
use notebook_operator.System.Steps.{Runs, none_yet, then_lab, then_instance}
use notebook_operator.System.Kinds.{its_secret, notebook_kinds_kept}
use notebook_operator.Tests.Fixtures.{client, machinery, machinery-KeepsNames}
use notebook_operator.Tests.Labs.{readings, lab, lab_key, lab_clock, one_hour}
use notebook_operator.Tests.LabRuns.{settled_lab, live_ttl, settled_has, settled_ttl}
use notebook_operator.Tests.Instances.{machine, machine_key, campus, no_env}
use notebook_operator.Tests.InstanceRuns.{as_listed, adopted, has_finalizer}

-- Others leave the secrets alone.
abbrev KeepsSecrets : Tables ℕ → Tables ℕ → Type 0
KeepsSecrets u v = v secret ≡ u secret

-- Another cluster lab, which has not been reconciled yet.
abbrev bio : ClusterLab ℕ
bio = record lab { metadata = record lab.metadata { name = codes "bio" } }

abbrev bio_key : NamespacedName
bio_key = record { namespace = codes "default"; name = codes "bio" }

-- Two cluster labs, of which one is settled, and an instance in that one.
abbrev start : Tables ℕ
start =
    replace ℕ clusterlab ((lab_key, settled_lab) ∷ (bio_key, bio) ∷ []) (campus machine settled_lab)

abbrev governed : Tables ℕ
governed = (reconcile_cluster_lab machinery client one_hour lab_clock lab_key start).1

abbrev secret_key : NamespacedName
secret_key = record { namespace = codes "default"; name = codes "s" }

notebook_kinds_kept_example :
    client.get secret secret_key
      (reconcile_instance_lab machinery client as_listed no_env readings machine_key governed).1
    ≡ client.get secret secret_key start
notebook_kinds_kept_example =
    notebook_kinds_kept machinery client one_hour as_listed no_env (memory-IsLawful ℕ)
      machinery-KeepsNames KeepsSecrets secret secret_key its_secret (λ u v h. rw h)
      (then_instance (then_lab none_yet lab_clock lab_key tt) readings machine_key)

bio_found : client.get clusterlab bio_key governed ≡ ok bio
unfolding codes reconcile_cluster_lab reconcile_lab_found reconcile_lab after_ttl reconcile_ttl
    with_target provision_lab lab_reported lab_report_by reconcile_namespace
    reconcile_resource_quota reconcile_network_policy create_or_update create overwrite settle
    update_cluster_lab_status ◌>>=◌ find replace remove key_dec generate_target_namespace
    sanitize_name ◌+ℤ◌ sub text_dec reported_lab
bio_found = refl

bio-IsNeighbour : IsNeighbour live_ttl.lab bio
unfolding codes
bio-IsNeighbour = record { other = λ e. cc; short = omega arith }

lab_found : client.get clusterlab lab_key start ≡ ok settled_lab
unfolding find replace key_dec codes
lab_found = refl

lab_run :
    (reconcile_cluster_lab machinery client one_hour lab_clock lab_key start).0
    ≡ ok live_ttl.requeue_after
unfolding codes reconcile_cluster_lab reconcile_lab_found reconcile_lab after_ttl reconcile_ttl
    with_target provision_lab lab_reported lab_report_by reconcile_namespace
    reconcile_resource_quota reconcile_network_policy create_or_update create overwrite settle
    update_cluster_lab_status ◌>>=◌ find replace remove key_dec generate_target_namespace
    sanitize_name ◌+ℤ◌ sub text_dec reported_lab
lab_run = refl

governed-IsGoverned : IsGoverned machinery client live_ttl.lab governed
governed-IsGoverned =
    reconcile_cluster_lab-IsGoverned machinery client one_hour lab_clock (memory-IsLawful ℕ) lab_key
      settled_lab live_ttl start live_ttl.requeue_after lab_found refl settled_has settled_ttl refl
      lab_run

abbrev GovernedRuns : Tables ℕ → Tables ℕ → Type 0
GovernedRuns =
    Runs machinery client one_hour as_listed no_env (Neighbouring live_ttl.lab) (λ u v. v ≡ u)

ml-Respects : Respects client live_ttl.lab (λ u v. v ≡ u)
ml-Respects = record {
  leaves = λ j key u v g e. ap (client.get j key) e;
  owned = λ u v e h. subst (Owned client) (sym e) h;
}

-- No cluster lab has been given a namespace yet.
start-Owned : Owned client start
unfolding replace doomed_namespace codes
start-Owned key x h = find-Each IsOwn key (start clusterlab) x (refl, (refl, tt)) h

governed-Owned : Owned client governed
governed-Owned =
    lab_run-Owned machinery client (memory-IsLawful ℕ) machinery-KeepsNames memory-TellsStatus
      one_hour lab_clock lab_key start start-Owned

ml_short : length live_ttl.lab.metadata.name ≤ 59
unfolding codes
ml_short = omega arith

-- The other cluster lab gets its finalizer.
bio_run :
    GovernedRuns governed
      (reconcile_cluster_lab machinery client one_hour lab_clock bio_key governed).1
bio_run =
    then_lab none_yet lab_clock bio_key
      (subst (Neighbouring live_ttl.lab) (sym bio_found) bio-IsNeighbour)

Runs-IsGoverned_example :
    IsGoverned machinery client live_ttl.lab
      (reconcile_cluster_lab machinery client one_hour lab_clock bio_key governed).1
    × Owned client (reconcile_cluster_lab machinery client one_hour lab_clock bio_key governed).1
Runs-IsGoverned_example =
    Runs-IsGoverned machinery client (memory-IsLawful ℕ) machinery-KeepsNames memory-TellsStatus
      one_hour as_listed no_env live_ttl.lab ml_short (λ u v. v ≡ u) ml-Respects governed-IsGoverned
      governed-Owned bio_run

abbrev value_or : {A : Type 0} → A → Result A → A
value_or a (ok b) = b
value_or a (err e) = a

-- The cluster lab as the run has left it.
abbrev ready_lab : ClusterLab ℕ
ready_lab = value_or lab (client.get clusterlab lab_key governed)

abbrev parent : Parent ℕ
parent = record { cluster = some ready_lab; inst = adopted }

abbrev resolved : Tables ℕ
resolved = (overwrite ℕ instancelab machine_key adopted governed).1

machine_found : client.get instancelab machine_key governed ≡ ok machine
unfolding codes reconcile_cluster_lab reconcile_lab_found reconcile_lab after_ttl reconcile_ttl
    with_target provision_lab lab_reported lab_report_by reconcile_namespace
    reconcile_resource_quota reconcile_network_policy create_or_update create overwrite settle
    update_cluster_lab_status ◌>>=◌ find replace remove key_dec generate_target_namespace
    sanitize_name ◌+ℤ◌ sub text_dec reported_lab
machine_found = refl

lab_resolved : resolve_parent_cluster_lab machinery client machine governed ≡ (ok parent, resolved)
unfolding codes reconcile_cluster_lab reconcile_lab_found reconcile_lab after_ttl reconcile_ttl
    with_target provision_lab lab_reported lab_report_by reconcile_namespace
    reconcile_resource_quota reconcile_network_policy create_or_update create overwrite settle
    update_cluster_lab_status ◌>>=◌ find replace remove key_dec generate_target_namespace
    sanitize_name ◌+ℤ◌ sub text_dec reported_lab resolve_parent_cluster_lab resolve_by adopt
    equal_fold
lab_resolved = refl

ready_name : ready_lab.metadata.name ≡ live_ttl.lab.metadata.name
unfolding codes reconcile_cluster_lab reconcile_lab_found reconcile_lab after_ttl reconcile_ttl
    with_target provision_lab lab_reported lab_report_by reconcile_namespace
    reconcile_resource_quota reconcile_network_policy create_or_update create overwrite settle
    update_cluster_lab_status ◌>>=◌ find replace remove key_dec generate_target_namespace
    sanitize_name ◌+ℤ◌ sub text_dec reported_lab doomed_namespace
ready_name = refl

machine_run :
    (reconcile_instance_lab machinery client as_listed no_env readings machine_key governed).0
    ≡ ok (pos 0)
unfolding codes reconcile_cluster_lab reconcile_lab_found reconcile_lab after_ttl reconcile_ttl
    with_target provision_lab lab_reported lab_report_by reconcile_namespace
    reconcile_resource_quota reconcile_network_policy create_or_update create overwrite settle
    update_cluster_lab_status ◌>>=◌ find replace remove key_dec generate_target_namespace
    sanitize_name ◌+ℤ◌ sub text_dec reported_lab reconcile_instance_lab reconcile_instance_found
    reconcile_instance resolve_parent_cluster_lab resolve_by adopt after_parent equal_fold
    provision_instance instance_reported instance_report_by reconcile_instance_pvc
    reconcile_sysbox_pod reconcile_services services_by reconcile_instance_ingress
    instance_ingress_by exposed_ports update_instance_lab_status report_instance access_endpoints
    endpoints_at reported_instance
machine_run = refl

lab_hands_over_example :
    IsInstalled machinery client adopted
      (target machinery client live_ttl.lab)
      (reconcile_instance_lab machinery client as_listed no_env readings machine_key governed).1
    × IsGoverned machinery client live_ttl.lab
        (reconcile_instance_lab machinery client as_listed no_env readings machine_key governed).1
lab_hands_over_example =
    lab_hands_over machinery client (memory-IsLawful ℕ) machinery-KeepsNames memory-TellsStatus
      one_hour as_listed no_env lab_clock lab_key settled_lab live_ttl start live_ttl.requeue_after
      lab_found refl settled_has settled_ttl refl lab_run ml_short start-Owned (λ u v. v ≡ u)
      governed ml-Respects none_yet readings machine_key machine parent ready_lab resolved (pos 0)
      machine_found refl has_finalizer lab_resolved refl ready_name machine_run
