-- ===== src/Tests/InstanceRuns.antt =====
-- Runs of the InstanceLab controller on a cluster in memory.
use notebook_operator.Base.{
  ℕ, ◌≡◌, ◌≢◌, refl, true, false, Option, Option-cases, none, some, inl, inr, List, [], ◌∷◌,
}
use notebook_operator.Base.Int.{pos}
use notebook_operator.Base.Text.{Text, codes, text_dec}
use notebook_operator.Base.Dict.{Dict}
use notebook_operator.Utils.Strings.{equal_fold}
use notebook_operator.Exec.{ok, err, nil_dereference, api, ◌>>=◌}
use notebook_operator.Kube.Meta.{NamespacedName}
use notebook_operator.Api.InstanceLab.{InstanceLab}
use notebook_operator.Client.{Kind, Obj, Client, key_of, instancelab, clusterlab}
use notebook_operator.Client.Memory.{create, overwrite, create_or_update, settle, found}
use notebook_operator.Client.Memory.Lawful.{memory-IsLawful}
use notebook_operator.Client.Tables.{Tables, find, remove, replace, key_dec}
use notebook_operator.ClusterLab.Reconcile.{doomed_namespace}
use notebook_operator.InstanceLab.Objects.{reconcile_instance_pvc}
use notebook_operator.InstanceLab.Pod.{reconcile_sysbox_pod}
use notebook_operator.InstanceLab.Network.{
  exposed_ports, services_by, reconcile_services, instance_ingress_by, reconcile_instance_ingress,
}
use notebook_operator.InstanceLab.Status.{
  access_endpoints, endpoints_at, reported_instance, report_instance, update_instance_lab_status,
}
use notebook_operator.InstanceLab.Reconcile.{
  Parent, parent_key, adopt, resolve_by, resolve_parent_cluster_lab, instance_lab_finalizer,
  clean_up, reconcile_instance_found, reconcile_instance, after_parent, provision_instance,
  instance_reported, instance_report_by, reconcile_instance_finalizer, reconcile_instance_lab,
}
use notebook_operator.InstanceLab.Sound.{IsRemote, reconcile_instance_lab_no_nil}
use notebook_operator.InstanceLab.Cleanup.{target, without_finalizer, finalizer_removed_anyway}
use notebook_operator.InstanceLab.Steps.{IsInstalled}
use notebook_operator.InstanceLab.Complete.{reconcile_instance_lab-IsInstalled}
use notebook_operator.InstanceLab.Waiting.{IsUnready, unready_answer, unready_parent}
use notebook_operator.Tests.Fixtures.{client, machinery}
use notebook_operator.Tests.Labs.{readings}
use notebook_operator.Tests.Instances.{
  machine, leaving_machine, machine_key, lab_in, campus, no_env,
}

abbrev pub as_listed : Dict Text → List (Text × Text)
as_listed entries = entries

found-remote : {A : Type 0} (o : Option A) → found ℕ o ≢ err nil_dereference
found-remote none e = cc
found-remote (some a) e = cc

overwrite-remote :
    (k : Kind) (key : NamespacedName) (o : Obj ℕ k) (w : Tables ℕ)
    → (overwrite ℕ k key o w).0 ≢ err nil_dereference
unfolding overwrite
overwrite-remote k key o w = elim (Option-cases (find key (w k))) [
  | inl h ↦ λ e. cc
  | inr (old, h) ↦ λ e. cc
]

create-remote : (k : Kind) (o : Obj ℕ k) (w : Tables ℕ) → (create ℕ k o w).0 ≢ err nil_dereference
unfolding create
create-remote k o w = elim (Option-cases (find (key_of ℕ k o) (w k))) [
  | inl h ↦ λ e. cc
  | inr (old, h) ↦ λ e. cc
]

change-remote :
    (k : Kind) (o : Obj ℕ k) (f : Obj ℕ k → Obj ℕ k) (w : Tables ℕ)
    → (create_or_update ℕ k o f w).0 ≢ err nil_dereference
unfolding create_or_update
change-remote k o f w = elim (Option-cases (find (key_of ℕ k o) (w k))) [
  | inl h ↦ rw (h, create_or_update) (create-remote k (f o) w)
  | inr (old, h) ↦ rw (h, create_or_update) (overwrite-remote k (key_of ℕ k o) (f old) w)
]

client-IsRemote : IsRemote client
client-IsRemote = record {
  get = λ k key w. found-remote (find key (w k));
  update = λ k o w. overwrite-remote k _ o w;
  update_status = λ k o w. overwrite-remote k _ o w;
  create_or_update = change-remote;
}

reconcile_instance_lab_no_nil_example :
    (reconcile_instance_lab machinery client as_listed no_env readings machine_key
      (campus machine (lab_in (codes "Running")))).0
    ≢ err nil_dereference
reconcile_instance_lab_no_nil_example =
    reconcile_instance_lab_no_nil machinery client client-IsRemote as_listed no_env readings
      machine_key (campus machine (lab_in (codes "Running")))

pub has_finalizer : machinery.contains_finalizer machine.metadata instance_lab_finalizer ≡ true
unfolding codes text_dec
has_finalizer = refl

abbrev ending : Tables ℕ
ending = campus leaving_machine (lab_in (codes "Running"))

-- A client to which deletions are forbidden, and which takes every update.
abbrev forbidden : Client ℕ
forbidden = record client {
  update = λ k o w. (ok o, w);
  delete_all_of = λ k ns labels w. (err (api false (codes "forbidden")), w);
}

finalizer_removed_anyway_example :
    ((reconcile_instance_finalizer machinery forbidden leaving_machine ending).0 ≡ ok (pos 0))
    × ((reconcile_instance_finalizer machinery forbidden leaving_machine ending).1
        ≡ (forbidden.update instancelab
            (without_finalizer machinery forbidden leaving_machine)
            (clean_up machinery forbidden leaving_machine
              (target machinery forbidden leaving_machine ending)
              ending).1).1)
finalizer_removed_anyway_example =
    finalizer_removed_anyway machinery forbidden leaving_machine ending has_finalizer
      (λ o v. (o, refl))

abbrev waiting : Tables ℕ
waiting = campus machine (lab_in (codes "Pending"))

waiting_found : client.get instancelab machine_key waiting ≡ ok machine
unfolding find replace key_dec codes
waiting_found = refl

waiting-IsUnready : IsUnready (client.get clusterlab (parent_key machine) waiting)
unfolding find replace key_dec codes equal_fold
waiting-IsUnready = refl

unready_parent_example :
    ((reconcile_instance_lab machinery client as_listed no_env readings machine_key waiting).0
      ≡ unready_answer (client.get clusterlab (parent_key machine) waiting))
    × ((j : Kind) (key : NamespacedName)
        → instancelab ≢ j
        → client.get j key
            (reconcile_instance_lab machinery client as_listed no_env readings machine_key
              waiting).1
          ≡ client.get j key waiting)
unready_parent_example =
    unready_parent machinery client as_listed no_env readings (memory-IsLawful ℕ) machine_key
      machine waiting waiting_found refl has_finalizer waiting-IsUnready

abbrev running : Tables ℕ
running = campus machine (lab_in (codes "Running"))

abbrev pub adopted : InstanceLab ℕ
adopted = record machine {
  metadata = record machine.metadata {
    owner_references = record { uid = codes "1"; controller = true } ∷ [];
  };
}

abbrev parent : Parent ℕ
parent = record { cluster = some (lab_in (codes "Running")); inst = adopted }

abbrev resolved : Tables ℕ
resolved = (overwrite ℕ instancelab machine_key adopted running).1

running_found : client.get instancelab machine_key running ≡ ok machine
unfolding find replace key_dec codes
running_found = refl

running-parent : resolve_parent_cluster_lab machinery client machine running ≡ (ok parent, resolved)
unfolding resolve_parent_cluster_lab resolve_by adopt overwrite find replace remove key_dec codes
    ◌>>=◌ text_dec equal_fold
running-parent = refl

running_run :
    (reconcile_instance_lab machinery client as_listed no_env readings machine_key running).0
    ≡ ok (pos 0)
unfolding reconcile_instance_lab ◌>>=◌ reconcile_instance_found find replace key_dec codes
    reconcile_instance resolve_parent_cluster_lab resolve_by adopt after_parent equal_fold text_dec
    provision_instance instance_reported instance_report_by reconcile_instance_pvc overwrite create
    settle remove create_or_update reconcile_sysbox_pod reconcile_services services_by
    reconcile_instance_ingress instance_ingress_by exposed_ports update_instance_lab_status
    report_instance access_endpoints endpoints_at reported_instance
running_run = refl

reconcile_instance_lab-IsInstalled_example :
    IsInstalled machinery client adopted
      (doomed_namespace (lab_in (codes "Running")))
      (reconcile_instance_lab machinery client as_listed no_env readings machine_key running).1
reconcile_instance_lab-IsInstalled_example =
    reconcile_instance_lab-IsInstalled machinery client as_listed no_env readings
      (memory-IsLawful ℕ) machine_key machine parent (lab_in (codes "Running")) running resolved
      (pos 0) running_found refl has_finalizer running-parent refl running_run
