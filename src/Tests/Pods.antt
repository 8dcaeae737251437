-- ===== src/Tests/Pods.antt =====
-- The pods of concrete notebooks.
use notebook_operator.Base.{ℕ, ◌≡◌, none, some, [], ◌∷◌, map, true, Each}
use notebook_operator.Base.Int.{pos}
use notebook_operator.Base.Text.{codes}
use notebook_operator.Base.Dict.{lookup}
use notebook_operator.Kube.Pod.{Volume}
use notebook_operator.Api.NotebookLab.{NotebookLab, GpuSpec, DatasetSpec}
use notebook_operator.Notebook.Gpu.{inject_gpu_resources}
use notebook_operator.Notebook.Gpu.Limits.{gpu_limit, inject_gpu_resources_lem}
use notebook_operator.Notebook.Volumes.{volumes, volume_mounts}
use notebook_operator.Notebook.Volumes.Names.{IsMountOf, volume_mounts_lem}
use notebook_operator.Notebook.Volumes.Distinct.{Distinct, volumes-Distinct}
use notebook_operator.Notebook.Deployment.{base_container}
use notebook_operator.Tests.Fixtures.{machinery, notebook, workspace}

abbrev half_gpu : GpuSpec ℕ
half_gpu = record {
  enable = true;
  type = codes "hami";
  hami = some (record { cores = pos 50; memory = 4294967296 });
  mig = none;
}

inject_gpu_resources_lem_example :
    lookup
      (codes "nvidia.com/gpumem")
      (inject_gpu_resources machinery
        (base_container machinery (notebook (pos 30)))
        half_gpu).resources.limits
    ≡ elim (gpu_limit machinery half_gpu (codes "nvidia.com/gpumem")) [
      | none ↦
          lookup
            (codes "nvidia.com/gpumem")
            (base_container machinery (notebook (pos 30))).resources.limits
      | some q ↦ some q
    ]
inject_gpu_resources_lem_example =
    inject_gpu_resources_lem machinery (base_container machinery (notebook (pos 30))) half_gpu
      (codes "nvidia.com/gpumem")

abbrev images : DatasetSpec
images = record { name = codes "images"; pvc_name = codes "images-pvc"; mount_path = codes "/data" }

-- A notebook with a workspace and a dataset.
abbrev with_images : NotebookLab ℕ
with_images = record (notebook (pos 30)) {
  spec = record (notebook (pos 30)).spec {
    storage = some (record { workspace = some workspace; datasets = images ∷ []; tmp = none });
  };
}

volume_mounts_lem_example :
    Each (IsMountOf machinery) (volumes machinery with_images) (volume_mounts machinery with_images)
volume_mounts_lem_example = volume_mounts_lem machinery with_images

volumes-Distinct_example : Distinct (map (λ (v : Volume ℕ). v.name) (volumes machinery with_images))
unfolding codes
volumes-Distinct_example =
    volumes-Distinct machinery with_images (tt, tt) (((λ e. cc), (λ e. cc)), tt)
