-- ===== src/Notebook/Volumes/Distinct.antt =====
-- When the volumes of a notebook's pod have distinct names, as Kubernetes asks of a pod.
use notebook_operator.Base.{◌≢◌, sym, Option, none, some, List, [], ◌∷◌, ◌++◌, map, All}
use notebook_operator.Base.Text.{Text, codes}
use notebook_operator.Kube.Pod.{Volume}
use notebook_operator.Api.NotebookLab.{NotebookLab, WorkspaceSpec, TmpSpec, DatasetSpec}
use notebook_operator.Client.{Machinery}
use notebook_operator.Notebook.Volumes.{
  storage_workspace, datasets_of, storage_tmp, workspace_volumes, dataset_volume, tmp_volume,
  volumes,
}

abbrev pub Distinct : List Text → Type 0
Distinct [] = Unit {0}
Distinct (x ∷ xs) = All (λ y. x ≢ y) xs × Distinct xs

abbrev pub dataset_names : List DatasetSpec → List Text
dataset_names ds = map (λ (d : DatasetSpec). d.name) ds

-- The names that the program itself gives to volumes.
abbrev pub IsFree : Text → Type 0
IsFree name = (name ≢ codes "workspace") × (name ≢ codes "tmp")

workspace_not_tmp : codes "workspace" ≢ codes "tmp"
unfolding codes
workspace_not_tmp e = cc

module _ (M : Machinery) where
  abbrev names : List (Volume M.Quantity) → List Text
  names vs = map (λ (v : Volume M.Quantity). v.name) vs

  -- The volumes after that of the workspace.
  abbrev others : List DatasetSpec → Volume M.Quantity → List (Volume M.Quantity)
  others ds t = map dataset_volume ds ++ t ∷ []

  fresh_in_others :
      (x : Text) (ds : List DatasetSpec) (t : Volume M.Quantity)
      → All (λ n. x ≢ n) (dataset_names ds)
      → x ≢ t.name
      → All (λ n. x ≢ n) (names (others ds t))
  unfolding dataset_volume
  fresh_in_others x [] t h k = (k, tt)
  fresh_in_others x (d ∷ ds) t (h, hs) k = (h, fresh_in_others x ds t hs k)

  others-Distinct :
      (ds : List DatasetSpec) (t : Volume M.Quantity)
      → Distinct (dataset_names ds)
      → All (λ n. n ≢ t.name) (dataset_names ds)
      → Distinct (names (others ds t))
  unfolding dataset_volume
  others-Distinct [] t h k = (tt, tt)
  others-Distinct (d ∷ ds) t (h, hs) (k, ks) =
      (fresh_in_others d.name ds t h k, others-Distinct ds t hs ks)

  free_of_tmp : (ds : List Text) → All IsFree ds → All (λ n. n ≢ codes "tmp") ds
  free_of_tmp [] h = tt
  free_of_tmp (d ∷ ds) ((a, b), hs) = (b, free_of_tmp ds hs)

  free_of_workspace : (ds : List Text) → All IsFree ds → All (λ n. codes "workspace" ≢ n) ds
  free_of_workspace [] h = tt
  free_of_workspace (d ∷ ds) ((a, b), hs) = (λ e. a (sym e), free_of_workspace ds hs)

  storage-Distinct :
      (name : Text) (workspace : Option (WorkspaceSpec M.Quantity)) (ds : List DatasetSpec)
      (tmp : Option (TmpSpec M.Quantity))
      → Distinct (dataset_names ds)
      → All IsFree (dataset_names ds)
      → Distinct (names (workspace_volumes name workspace ++ others ds (tmp_volume M tmp)))
  unfolding workspace_volumes tmp_volume
  storage-Distinct name none ds tmp h k = others-Distinct ds (tmp_volume M tmp) h (free_of_tmp _ k)
  storage-Distinct name (some w) ds tmp h k = (
    fresh_in_others (codes "workspace") ds (tmp_volume M tmp) (free_of_workspace _ k)
        workspace_not_tmp,
    others-Distinct ds (tmp_volume M tmp) h (free_of_tmp _ k),
  )

  -- If the datasets of a notebook have distinct names and none of them is called "workspace" or
  -- "tmp", the volumes of its pod have distinct names.
  pub volumes-Distinct :
      (notebook : NotebookLab M.Quantity)
      → Distinct (dataset_names (datasets_of notebook))
      → All IsFree (dataset_names (datasets_of notebook))
      → Distinct (map (λ (v : Volume M.Quantity). v.name) (volumes M notebook))
  unfolding volumes
  volumes-Distinct notebook h k =
      storage-Distinct notebook.metadata.name (storage_workspace notebook) (datasets_of notebook)
        (storage_tmp notebook) h k
