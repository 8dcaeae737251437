-- ===== src/Notebook/Children.antt =====
-- The workspace claim and the token secret of a notebook: `reconcileWorkspacePVC` and
-- `reconcileNotebookSecret`.
use notebook_operator.Base.{none, some, [], ◌∷◌, ◌++◌, if◌then◌else◌}
use notebook_operator.Base.Text.{Text, codes}
use notebook_operator.Base.Dict.{Dict, lookup}
use notebook_operator.Utils.Strings.{is_empty}
use notebook_operator.Exec.{
  Result, ok, err, Exec, is_not_found, pure, fail, reads, attempt, ◌>>=◌, ◌>>◌,
}
use notebook_operator.Kube.Meta.{ObjectMeta, NamespacedName, zero_time}
use notebook_operator.Kube.Objects.{PersistentVolumeClaim, Secret}
use notebook_operator.Api.NotebookLab.{NotebookLab, WorkspaceSpec}
use notebook_operator.Client.{Client, Machinery, pvc, secret}
use notebook_operator.Notebook.Lifecycle.{workspace_key}

-- `metav1.ObjectMeta{Name, Namespace, Labels}`; the other fields have their zero values.
abbrev pub new_metadata : Text → Text → Dict Text → ObjectMeta
new_metadata name ns labels = record {
  name = name;
  namespace = ns;
  uid = [];
  labels = labels;
  annotations = [];
  finalizers = [];
  owner_references = [];
  creation_timestamp = zero_time;
  deletion_timestamp = none;
}

module _ {Quantity : Type 0} where
  -- A name of the notebook's namespace that begins with the notebook's name.
  abbrev pub child_key : NotebookLab Quantity → Text → NamespacedName
  child_key notebook suffix = record {
    namespace = notebook.metadata.namespace;
    name = notebook.metadata.name ++ suffix;
  }

  -- The deployment and the notebook itself have the notebook's name.
  abbrev pub own_key : NotebookLab Quantity → NamespacedName
  own_key notebook = record {
    namespace = notebook.metadata.namespace;
    name = notebook.metadata.name;
  }

  abbrev pub child_metadata : NotebookLab Quantity → Text → ObjectMeta
  child_metadata notebook suffix =
      new_metadata (notebook.metadata.name ++ suffix) notebook.metadata.namespace
        notebook.metadata.labels

  unfoldable pub new_workspace_pvc :
      NotebookLab Quantity → WorkspaceSpec Quantity → PersistentVolumeClaim Quantity
  new_workspace_pvc notebook workspace = record {
    metadata = child_metadata notebook (codes "-workspace");
    spec = record {
      access_modes = codes "ReadWriteOnce" ∷ [];
      requests = (codes "storage", workspace.size) ∷ [];
      storage_class_name =
          if is_empty workspace.storage_class_name then none else some workspace.storage_class_name;
    };
  }

  abbrev pub default_token : NotebookLab Quantity → Text
  default_token notebook = notebook.metadata.name ++ codes "-token-sec"

  unfoldable pub new_secret : NotebookLab Quantity → Secret
  new_secret notebook = record {
    metadata = child_metadata notebook (codes "-secret");
    data_map = [];
    string_data = (codes "token", default_token notebook) ∷ [];
  }

-- `string(secret.Data["token"])`
unfoldable pub token_of : Secret → Text
token_of s = elim (lookup (codes "token") s.data_map) [ none ↦ [] | some token ↦ token ]

module _ (M : Machinery) (C : Client M.Quantity) (notebook : NotebookLab M.Quantity) where
  -- `ctrl.SetControllerReference(notebook, …)`, on the metadata of the new object.
  abbrev pub owned : ObjectMeta → Exec C.World ObjectMeta
  owned m = reads (λ w. M.set_controller_reference notebook.metadata m)

  unfoldable pub create_workspace_pvc : WorkspaceSpec M.Quantity → Exec C.World (Unit {0})
  create_workspace_pvc workspace = do
    let new_pvc = new_workspace_pvc notebook workspace
    m ← owned new_pvc.metadata
    C.create pvc (record new_pvc { metadata = m })
    pure tt

  unfoldable pub workspace_pvc_by :
      WorkspaceSpec M.Quantity → Result (PersistentVolumeClaim M.Quantity) → Exec C.World (Unit {0})
  workspace_pvc_by workspace (ok claim) = pure tt
  workspace_pvc_by workspace (err e) =
      if is_not_found e then create_workspace_pvc workspace else fail e

  unfoldable pub reconcile_workspace_pvc : WorkspaceSpec M.Quantity → Exec C.World (Unit {0})
  reconcile_workspace_pvc workspace = do
    existing ← attempt (reads (C.get pvc (workspace_key notebook)))
    workspace_pvc_by workspace existing

  unfoldable pub create_secret : Exec C.World Text
  create_secret = do
    let new_secret = new_secret notebook
    m ← owned new_secret.metadata
    C.create secret (record new_secret { metadata = m })
    pure (default_token notebook)

  unfoldable pub notebook_secret_by : Result Secret → Exec C.World Text
  notebook_secret_by (ok s) = pure (token_of s)
  notebook_secret_by (err e) = if is_not_found e then create_secret else fail e

  -- The token of the notebook.
  unfoldable pub reconcile_notebook_secret : Exec C.World Text
  reconcile_notebook_secret = do
    existing ← attempt (reads (C.get secret (child_key notebook (codes "-secret"))))
    notebook_secret_by existing
