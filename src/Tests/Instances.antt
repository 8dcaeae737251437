-- ===== src/Tests/Instances.antt =====
-- Instances for the tests, and what their objects become.
use mathlib.Core.List.{Perm, Nodup}
use mathlib.Core.List.Perm
use notebook_operator.Base.{
  ◌↔◌, ◌≢◌, ℕ, ◌≡◌, refl, true, none, some, List, [], ◌∷◌, ◌++◌, arith, if◌then◌else◌,
}
use notebook_operator.Base.Int.{pos}
use notebook_operator.Base.Text.{Text, codes}
use notebook_operator.Utils.Names.{generate_ingress_host}
use notebook_operator.Kube.Meta.{NamespacedName}
use notebook_operator.Kube.Pod.{Pod, Volume, VolumeMount}
use notebook_operator.Kube.Objects.{PersistentVolumeClaim, Service, Ingress}
use notebook_operator.Api.ClusterLab.{ClusterLab}
use notebook_operator.Api.InstanceLab.{InstanceLab, InstanceLabPort}
use notebook_operator.Client.{instancelab, clusterlab}
use notebook_operator.Client.Tables.{Tables, replace}
use notebook_operator.InstanceLab.Objects.{instance_claim, empty_claim}
use notebook_operator.InstanceLab.Pod.{
  lxcfs_mounts, sysbox_volumes, sysbox_mounts, sysbox_pod, empty_pod,
}
use notebook_operator.InstanceLab.Network.{
  exposed_ports, instance_service, instance_ingress, empty_service, empty_ingress,
}
use notebook_operator.InstanceLab.Status.{reported_instance, failed_instance, endpoint_at, host_of}
use notebook_operator.InstanceLab.Reconcile.{instance_lab_finalizer, waiting_instance}
use notebook_operator.InstanceLab.Endpoints.{Routed, exposed_port_unrouted}
use notebook_operator.InstanceLab.Converges.{stamped, instance_objects_converge}
use notebook_operator.InstanceLab.Phases.{IsPhase, written_phases}
use notebook_operator.InstanceLab.Mounts.{
  volume_names, mount_names, mount_paths, sysbox_mounts-AnyOrder,
}
use notebook_operator.Tests.Fixtures.{client, machinery, metadata, empty}
use notebook_operator.Tests.Labs.{readings, lab, lab_key}

abbrev pub web : InstanceLabPort
web = record { name = codes "web"; port = pos 80; target_port = pos 8080; expose = true }

abbrev pub api_port : InstanceLabPort
api_port = record { name = codes "api"; port = pos 81; target_port = pos 8081; expose = true }

-- A machine with a disk and two exposed ports, which has its finalizer.
abbrev pub machine : InstanceLab ℕ
machine = record {
  metadata = record (metadata (codes "default") (codes "vm")) {
    finalizers = instance_lab_finalizer ∷ [];
  };
  spec = record {
    cluster_lab_ref = codes "ml";
    image = [];
    image_pull_secrets = [];
    hostname = codes "box";
    resources = record {
      cpu = record { request = 1; limit = 2 };
      memory = record { request = 0; limit = 4 };
      storage = record { limit = 10 };
    };
    ports = web ∷ api_port ∷ [];
  };
  status = record {
    phase = [];
    pod_name = [];
    pod_ip = [];
    access_endpoints = [];
    conditions = [];
  };
}

abbrev pub leaving_machine : InstanceLab ℕ
leaving_machine = record machine {
  metadata = record machine.metadata { deletion_timestamp = some (pos 2000000000) };
}

abbrev pub machine_key : NamespacedName
machine_key = record { namespace = codes "default"; name = codes "vm" }

-- A lab in the phase.
abbrev pub lab_in : Text → ClusterLab ℕ
lab_in phase = record lab { status = record lab.status { phase = phase } }

-- The instance and its parent.
abbrev pub campus : InstanceLab ℕ → ClusterLab ℕ → Tables ℕ
campus inst l =
    replace ℕ instancelab ((machine_key, inst) ∷ [])
      (replace ℕ clusterlab ((lab_key, l) ∷ []) empty)

abbrev pub no_env : Text → Text
no_env name = []

abbrev disk : PersistentVolumeClaim ℕ
disk = empty_claim machinery client machine (codes "lab-ml")

abbrev box : Pod ℕ
box = empty_pod machinery client (λ es. es) machine (codes "lab-ml")

abbrev door : Service
door = empty_service machinery client no_env machine (codes "lab-ml")

abbrev gate : Ingress
gate = empty_ingress machinery client no_env machine (codes "lab-ml")

-- The ingress after the run, which routes to the first port.
abbrev routed_gate : Ingress
routed_gate = instance_ingress machine no_env (codes "ml") (codes "vm-svc") gate

exposed_port_unrouted_example :
    (¬ Routed (instance_ingress machine no_env (codes "ml") (codes "vm-svc") gate) (pos 81))
    × ((endpoint_at [] api_port (
          if api_port.expose
          then host_of (some (instance_ingress machine no_env (codes "ml") (codes "vm-svc") gate))
          else none)).url
        ≡ codes "https://" ++ generate_ingress_host (codes "vm") (codes "ml") [])
unfolding exposed_ports
exposed_port_unrouted_example =
    exposed_port_unrouted machine no_env (codes "ml") (codes "vm-svc") gate web api_port
      (api_port ∷ []) [] refl refl (λ e. ground arith)

written_phases_example :
    IsPhase (reported_instance machinery readings machine (some box) []).status.phase
    × IsPhase (reported_instance machinery readings machine none []).status.phase
    × IsPhase (waiting_instance machinery client readings machine).status.phase
    × IsPhase (failed_instance machinery readings client machine (codes "PodError") []).status.phase
    × (((reported_instance machinery readings machine (some box) []).status.phase ≡ codes "Running")
        ↔ (box.status.phase ≡ codes "Running"))
    × ((reported_instance machinery readings machine none []).status.phase ≢ codes "Running")
written_phases_example =
    written_phases machinery readings client machine box [] (codes "PodError") []

-- The first two of the map's entries swapped.
abbrev shuffled : List (Text × Text)
shuffled =
    (codes "lxcfs-proc-diskstats", codes "/proc/diskstats")
    ∷ (codes "lxcfs-proc-cpuinfo", codes "/proc/cpuinfo")
    ∷ (codes "lxcfs-proc-meminfo", codes "/proc/meminfo")
    ∷ (codes "lxcfs-proc-stat", codes "/proc/stat")
    ∷ (codes "lxcfs-proc-swaps", codes "/proc/swaps")
    ∷ (codes "lxcfs-proc-uptime", codes "/proc/uptime")
    ∷ []

abbrev one_volumes : List (Volume ℕ)
one_volumes = sysbox_volumes lxcfs_mounts (some disk)

abbrev other_volumes : List (Volume ℕ)
other_volumes = sysbox_volumes shuffled (some disk)

abbrev one_order : List VolumeMount
one_order = sysbox_mounts lxcfs_mounts (some disk)

abbrev other_order : List VolumeMount
other_order = sysbox_mounts shuffled (some disk)

instance_objects_converge_example :
    (instance_claim machine (instance_claim machine disk) ≡ instance_claim machine disk)
    × (sysbox_pod machinery machine other_volumes other_order (
          stamped machinery machine
            (pos 0)
            (sysbox_pod machinery machine one_volumes one_order box))
        ≡ stamped machinery machine
            (pos 0)
            (sysbox_pod machinery machine one_volumes one_order box))
    × (instance_service machine (instance_service machine door) ≡ instance_service machine door)
    × (instance_ingress machine no_env
          (codes "ml")
          (codes "vm-svc")
          (instance_ingress machine no_env (codes "ml") (codes "vm-svc") gate)
        ≡ instance_ingress machine no_env (codes "ml") (codes "vm-svc") gate)
instance_objects_converge_example =
    instance_objects_converge machinery machine one_volumes other_volumes one_order other_order
      (pos 0) no_env (codes "ml") (codes "vm-svc") disk box door gate (λ e. cc)

sysbox_mounts-AnyOrder_example :
    Perm (sysbox_volumes shuffled (some disk)) (sysbox_volumes lxcfs_mounts (some disk))
    × Perm (sysbox_mounts shuffled (some disk)) (sysbox_mounts lxcfs_mounts (some disk))
    × (mount_names (sysbox_mounts shuffled (some disk))
        ≡ volume_names (sysbox_volumes shuffled (some disk)))
    × Nodup (volume_names (sysbox_volumes shuffled (some disk)))
    × Nodup (mount_paths (sysbox_mounts shuffled (some disk)))
sysbox_mounts-AnyOrder_example = sysbox_mounts-AnyOrder (some disk) shuffled (Perm.swap _ _ _)
