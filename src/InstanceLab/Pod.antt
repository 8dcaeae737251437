-- ===== src/InstanceLab/Pod.antt =====
-- The pod of an instance: `reconcileSysboxPod` of internal/controller/instancelab_controller.go.
-- `order` stands for the order in which Go's `range` walks a map, which the language leaves open; one
-- walk fills both lists.
use notebook_operator.Base.{
  Bool, true, false, ◌&&◌, ◌||◌, Option, none, some, List, [], ◌∷◌, ◌++◌, map, if◌then◌else◌,
}
use notebook_operator.Base.Int.{eqb_ℤ}
use notebook_operator.Base.Text.{Text, codes, ◌==◌}
use notebook_operator.Base.Dict.{Dict, insert}
use notebook_operator.Utils.Strings.{is_empty}
use notebook_operator.Utils.Names.{sanitize_name}
use notebook_operator.Exec.{Exec}
use notebook_operator.Kube.Meta.{zero_time}
use notebook_operator.Kube.Objects.{PersistentVolumeClaim}
use notebook_operator.Kube.Pod.{
  persistent_volume_claim, empty_dir, host_path, Volume, VolumeMount, ContainerPort, Container,
  ResourceRequirements, PodSpec, Pod,
}
use notebook_operator.Api.InstanceLab.{InstanceLab, InstanceLabPort}
use notebook_operator.Client.{Client, Machinery, pod}
use notebook_operator.Notebook.Children.{new_metadata}
use notebook_operator.InstanceLab.Objects.{pod_name, with_instance_labels}

abbrev pub lxcfs_mounts : Dict Text
lxcfs_mounts =
    (codes "lxcfs-proc-cpuinfo", codes "/proc/cpuinfo")
    ∷ (codes "lxcfs-proc-diskstats", codes "/proc/diskstats")
    ∷ (codes "lxcfs-proc-meminfo", codes "/proc/meminfo")
    ∷ (codes "lxcfs-proc-stat", codes "/proc/stat")
    ∷ (codes "lxcfs-proc-swaps", codes "/proc/swaps")
    ∷ (codes "lxcfs-proc-uptime", codes "/proc/uptime")
    ∷ []

module _ {Quantity : Type 0} where
  -- What is appended to `volumes`.
  abbrev pub mqueue_volume : Volume Quantity
  mqueue_volume = record { name = codes "mqueue-bypass"; source = empty_dir none }

  unfoldable pub lxcfs_volume : Text × Text → Volume Quantity
  lxcfs_volume (name, path) = record {
    name = name;
    source = host_path (codes "/var/lib/lxcfs" ++ path) (codes "File");
  }

  unfoldable pub claim_volumes : Option (PersistentVolumeClaim Quantity) → List (Volume Quantity)
  claim_volumes none = []
  claim_volumes (some claim) =
      record {
        name = codes "workspace-volume";
        source = persistent_volume_claim claim.metadata.name false;
      }
      ∷ []

  -- `volumes`, with the entries of the map in the given order.
  unfoldable pub sysbox_volumes :
      List (Text × Text) → Option (PersistentVolumeClaim Quantity) → List (Volume Quantity)
  unfolding lxcfs_volume claim_volumes
  sysbox_volumes entries claim = mqueue_volume ∷ (map lxcfs_volume entries ++ claim_volumes claim)

-- What is appended to `mounts`.
abbrev pub mqueue_mount : VolumeMount
mqueue_mount = record {
  name = codes "mqueue-bypass";
  mount_path = codes "/dev/mqueue";
  read_only = false;
}

unfoldable pub lxcfs_mount : Text × Text → VolumeMount
lxcfs_mount (name, path) = record { name = name; mount_path = path; read_only = false }

module _ {Quantity : Type 0} where
  unfoldable pub claim_mounts : Option (PersistentVolumeClaim Quantity) → List VolumeMount
  claim_mounts none = []
  claim_mounts (some claim) =
      record { name = codes "workspace-volume"; mount_path = codes "/workspace"; read_only = false }
      ∷ []

  -- `mounts`, with the entries of the map in the given order.
  unfoldable pub sysbox_mounts :
      List (Text × Text) → Option (PersistentVolumeClaim Quantity) → List VolumeMount
  unfolding lxcfs_mount claim_mounts
  sysbox_mounts entries claim = mqueue_mount ∷ (map lxcfs_mount entries ++ claim_mounts claim)

unfoldable pub container_port : InstanceLabPort → ContainerPort
container_port p = record {
  name = sanitize_name p.name 15;
  container_port = p.target_port;
  protocol = codes "TCP";
}

unfoldable pub sysbox_image : Text → Text
sysbox_image image =
    if is_empty image || image == codes "ubuntu:24.04"
    then codes "nestybox/ubuntu-jammy-systemd:latest"
    else image

abbrev pub post_start_command : List Text
post_start_command =
    codes "/bin/bash"
    ∷ codes "-c"
    ∷ codes
        "echo -e '#!/bin/bash\n/usr/bin/df \"$@\" | grep -vE \"^overlay|^tmpfs|^shm|^/dev/nvme|^/dev/sda|^/dev/vda\"' > /usr/local/bin/df && chmod +x /usr/local/bin/df && mount -t tmpfs tmpfs /sys/block && mount -t tmpfs tmpfs /sys/class/block"
    ∷ []

abbrev pub is_empty_list : {A : Type 0} → List A → Bool
is_empty_list [] = true
is_empty_list (x ∷ xs) = false

module _ (M : Machinery) where
  -- list[resource] = q, unless q is zero.
  unfoldable pub set_nonzero : Text → M.Quantity → Dict M.Quantity → Dict M.Quantity
  set_nonzero resource q list = if M.is_zero q then list else insert resource q list

  unfoldable pub instance_resources : InstanceLab M.Quantity → ResourceRequirements M.Quantity
  unfolding set_nonzero
  instance_resources inst =
      let r = inst.spec.resources in
      let requests =
        set_nonzero (codes "memory") r.memory.request
          (set_nonzero (codes "cpu") r.cpu.request []) in
      let limits =
        set_nonzero (codes "ephemeral-storage") r.storage.limit (
          set_nonzero (codes "memory") r.memory.limit (set_nonzero (codes "cpu") r.cpu.limit [])) in
      if is_empty_list requests && is_empty_list limits
      then record { limits = []; requests = [] }
      else record { limits = limits; requests = requests }

  unfoldable pub sysbox_container : InstanceLab M.Quantity → List VolumeMount → Container M.Quantity
  unfolding container_port sysbox_image instance_resources
  sysbox_container inst mounts = record {
    name = codes "main";
    image = sysbox_image inst.spec.image;
    image_pull_policy = codes "IfNotPresent";
    command = codes "/sbin/init" ∷ [];
    volume_mounts = mounts;
    ports = map container_port inst.spec.ports;
    env = [];
    resources = instance_resources inst;
    post_start = some post_start_command;
    security_context = some (record {
      allow_privilege_escalation = none;
      drop = [];
      app_armor_profile = some (codes "Unconfined");
    });
  }

  module _ (inst : InstanceLab M.Quantity) where
    -- The part of the change that reaches every pod.
    unfoldable pub sysbox_settings : PodSpec M.Quantity → PodSpec M.Quantity
    sysbox_settings spec = record spec {
      enable_service_links = some false;
      security_context = some (record {
        run_as_non_root = none;
        run_as_user = none;
        run_as_group = none;
        fs_group = none;
        seccomp_profile = some (codes "Unconfined");
        app_armor_profile = some (codes "Unconfined");
      });
      node_selector = insert (codes "sysbox-install") (codes "yes") spec.node_selector;
      runtime_class_name = some (codes "sysbox-runc");
      restart_policy = codes "Never";
      hostname = if is_empty inst.spec.hostname then spec.hostname else inst.spec.hostname;
      image_pull_secrets =
          if is_empty_list inst.spec.image_pull_secrets
          then spec.image_pull_secrets
          else inst.spec.image_pull_secrets;
    }

    -- The volumes and the container are set on a new pod only.
    unfoldable pub sysbox_spec :
        List (Volume M.Quantity) → List VolumeMount → Bool → PodSpec M.Quantity → PodSpec M.Quantity
    unfolding sysbox_settings sysbox_container
    sysbox_spec volumes mounts is_new spec =
        if is_new
        then record (sysbox_settings spec) {
          volumes = volumes;
          containers = sysbox_container inst mounts ∷ [];
        }
        else sysbox_settings spec

    unfoldable pub sysbox_pod :
        List (Volume M.Quantity) → List VolumeMount → Pod M.Quantity → Pod M.Quantity
    unfolding sysbox_spec with_instance_labels
    sysbox_pod volumes mounts p =
        let m = with_instance_labels inst p.metadata in
        record p {
          metadata = record m { labels = insert (codes "app") (pod_name inst) m.labels };
          spec = sysbox_spec volumes mounts (eqb_ℤ p.metadata.creation_timestamp zero_time) p.spec;
        }

module _ (M : Machinery) (C : Client M.Quantity) (order : Dict Text → List (Text × Text))
    (inst : InstanceLab M.Quantity) where
  abbrev pub empty_pod : Text → Pod M.Quantity
  empty_pod target_ns = record {
    metadata = new_metadata (pod_name inst) target_ns [];
    spec = record {
      volumes = [];
      containers = [];
      automount_service_account_token = none;
      security_context = none;
      node_selector = [];
      tolerations = [];
      image_pull_secrets = [];
      enable_service_links = none;
      runtime_class_name = none;
      restart_policy = [];
      hostname = [];
    };
    status = record { phase = []; pod_ip = [] };
  }

  unfoldable pub reconcile_sysbox_pod :
      Text → Option (PersistentVolumeClaim M.Quantity) → Exec C.World (Pod M.Quantity)
  reconcile_sysbox_pod target_ns claim = C.create_or_update pod (empty_pod target_ns) (
      sysbox_pod M inst (sysbox_volumes (order lxcfs_mounts) claim)
        (sysbox_mounts (order lxcfs_mounts) claim))
