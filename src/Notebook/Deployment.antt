-- ===== src/Notebook/Deployment.antt =====
-- `reconcileJupyterDeployment` of internal/controller/notebooklab_controller.go.
use notebook_operator.Base.{
  Bool, true, false, Option, none, some, List, [], ◌∷◌, ◌++◌, if◌then◌else◌,
}
use notebook_operator.Base.Int.{ℤ, pos}
use notebook_operator.Base.Text.{codes}
use notebook_operator.Exec.{
  Result, ok, err, Exec, is_not_found, pure, fail, reads, attempt, ◌>>=◌, ◌>>◌,
}
use notebook_operator.Kube.Pod.{
  Toleration, EnvVar, SecurityContext, PodSecurityContext, Container, PodSpec,
}
use notebook_operator.Kube.Objects.{Deployment}
use notebook_operator.Api.NotebookLab.{NotebookLab, GpuSpec}
use notebook_operator.Client.{Client, Machinery, deployment}
use notebook_operator.Notebook.Gpu.{inject_gpu_resources}
use notebook_operator.Notebook.Volumes.{volumes, volume_mounts}
use notebook_operator.Notebook.Children.{new_metadata, own_key, owned, reconcile_notebook_secret}

abbrev pub gpu_toleration : Toleration
gpu_toleration = record {
  key = codes "nvidia.com/gpu";
  operator = codes "Exists";
  value = [];
  effect = codes "NoSchedule";
}

unfoldable pub default_tolerations : Bool → List Toleration → List Toleration
default_tolerations true [] = gpu_toleration ∷ []
default_tolerations _ ts = ts

abbrev pub pod_security_context : PodSecurityContext
pod_security_context = record {
  run_as_non_root = some true;
  run_as_user = some (pos 1000);
  run_as_group = some (pos 1000);
  fs_group = some (pos 1000);
  seccomp_profile = some (codes "RuntimeDefault");
  app_armor_profile = none;
}

unfoldable pub container_security_context : Bool → SecurityContext
container_security_context gpu =
    if gpu
    then record { allow_privilege_escalation = some true; drop = []; app_armor_profile = none }
    else record {
      allow_privilege_escalation = some false;
      drop = codes "ALL" ∷ [];
      app_armor_profile = none;
    }

module _ {Quantity : Type 0} where
  -- `replicas`, which is 1 where the specification gives none
  abbrev pub wanted_replicas : NotebookLab Quantity → ℤ
  wanted_replicas notebook = elim notebook.spec.replicas [ none ↦ pos 1 | some n ↦ n ]

  -- `gpuEnabled`
  abbrev pub gpu_enabled : NotebookLab Quantity → Bool
  gpu_enabled notebook = elim notebook.spec.gpu [ none ↦ false | some gpu ↦ gpu.enable ]

  abbrev pub token_env : NotebookLab Quantity → EnvVar
  token_env notebook = record {
    name = codes "JUPYTER_TOKEN";
    value = [];
    value_from =
        some (record { name = notebook.metadata.name ++ codes "-secret"; key = codes "token" });
  }

module _ (M : Machinery) where
  -- The container before the GPU resources.
  unfoldable pub base_container : NotebookLab M.Quantity → Container M.Quantity
  unfolding container_security_context
  base_container notebook = record {
    name = codes "jupyter";
    image = notebook.spec.image;
    image_pull_policy = [];
    command = [];
    volume_mounts = volume_mounts M notebook;
    ports = [];
    env = token_env notebook ∷ [];
    resources = notebook.spec.resources;
    post_start = none;
    security_context = some (container_security_context (gpu_enabled notebook));
  }

  inject_if_enabled : Option (GpuSpec M.Quantity) → Container M.Quantity → Container M.Quantity
  inject_if_enabled none c = c
  inject_if_enabled (some gpu) c = if gpu.enable then inject_gpu_resources M c gpu else c

  unfoldable pub jupyter_container : NotebookLab M.Quantity → Container M.Quantity
  unfolding base_container inject_if_enabled
  jupyter_container notebook = inject_if_enabled notebook.spec.gpu (base_container notebook)

  unfoldable pub notebook_pod_spec : NotebookLab M.Quantity → PodSpec M.Quantity
  unfolding default_tolerations
  notebook_pod_spec notebook = record {
    volumes = volumes M notebook;
    containers = jupyter_container notebook ∷ [];
    automount_service_account_token = some false;
    security_context = some pod_security_context;
    node_selector = notebook.spec.node_selector;
    tolerations = default_tolerations (gpu_enabled notebook) notebook.spec.tolerations;
    image_pull_secrets = notebook.spec.image_pull_secrets;
    enable_service_links = none;
    runtime_class_name = none;
    restart_policy = [];
    hostname = [];
  }

  -- The deployment that the notebook asks for.
  unfoldable pub desired_deployment : NotebookLab M.Quantity → Deployment M.Quantity
  unfolding notebook_pod_spec
  desired_deployment notebook = record {
    metadata =
        new_metadata notebook.metadata.name notebook.metadata.namespace notebook.metadata.labels;
    spec = record {
      replicas = some (wanted_replicas notebook);
      strategy = codes "Recreate";
      selector = record { match_labels = (codes "app", notebook.metadata.name) ∷ [] };
      template = record {
        labels = (codes "app", notebook.metadata.name) ∷ [];
        spec = notebook_pod_spec notebook;
      };
    };
    status = record { replicas = pos 0; ready_replicas = pos 0 };
  }

  -- The existing deployment with the labels, replicas, strategy and template of the desired one.
  unfoldable pub updated_deployment :
      Deployment M.Quantity → Deployment M.Quantity → Deployment M.Quantity
  updated_deployment existing deploy = record existing {
    metadata = record existing.metadata { labels = deploy.metadata.labels };
    spec = record existing.spec {
      replicas = deploy.spec.replicas;
      strategy = deploy.spec.strategy;
      template = deploy.spec.template;
    };
  }

module _ (M : Machinery) (C : Client M.Quantity) (notebook : NotebookLab M.Quantity) where
  unfoldable pub apply_deployment :
      Deployment M.Quantity → Result (Deployment M.Quantity) → Exec C.World (Unit {0})
  apply_deployment deploy (ok existing) = do
    C.patch deployment existing (updated_deployment M existing deploy)
    pure tt
  apply_deployment deploy (err e) =
      if is_not_found e then (do C.create deployment deploy; pure tt) else fail e

  unfoldable pub place_deployment : Exec C.World (Unit {0})
  place_deployment = do
    m ← owned M C notebook (desired_deployment M notebook).metadata
    existing ← attempt (reads (C.get deployment (own_key notebook)))
    apply_deployment (record (desired_deployment M notebook) { metadata = m }) existing

  unfoldable pub reconcile_jupyter_deployment : Exec C.World (Unit {0})
  reconcile_jupyter_deployment = do reconcile_notebook_secret M C notebook; place_deployment
