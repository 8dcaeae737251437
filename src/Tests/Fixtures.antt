-- ===== src/Tests/Fixtures.antt =====
-- A small cluster in memory with one notebook, and stand-ins for the helper packages: quantities are
-- natural numbers.
use notebook_operator.Base.{refl, false, Bool, List, ◌||◌, ℕ, ◌+◌, true, none, some, [], ◌∷◌}
use notebook_operator.Base.Int.{pos, ℤ, pos_part, eqb_ℤ}
use notebook_operator.Base.Text.{◌==◌, Text, codes}
use notebook_operator.Exec.{ok}
use notebook_operator.Kube.Meta.{ObjectMeta, NamespacedName}
use notebook_operator.Api.NotebookLab.{NotebookLab, LifecycleSpec, WorkspaceSpec, running}
use notebook_operator.Client.{Client, Machinery, notebooklab}
use notebook_operator.Client.Laws.{KeepsNames}
use notebook_operator.Client.Memory.{memory}
use notebook_operator.Client.Tables.{Tables, replace}
use notebook_operator.Notebook.Lifecycle.{Clock}

abbrev has : Text → List Text → Bool
has f [] = false
has f (g ∷ fs) = f == g || has f fs

abbrev pub machinery : Machinery
machinery = record {
  Quantity = ℕ;
  is_zero = λ n. eqb_ℤ (pos n) (pos 0);
  value = pos;
  new_quantity = pos_part;
  set_controller_reference = λ owner m.
      ok (record m { owner_references = record { uid = owner.uid; controller = true } ∷ [] });
  contains_finalizer = λ m f. has f m.finalizers;
  add_finalizer = λ m f. record m { finalizers = f ∷ m.finalizers };
  remove_finalizer = λ m f. record m { finalizers = [] };
  set_status_condition = λ cs c. c ∷ cs;
}

pub machinery-KeepsNames : KeepsNames machinery
machinery-KeepsNames = record {
  name = λ owner m m' h. cc;
  namespace = λ owner m m' h. cc;
  add_finalizer_name = λ m f. refl;
  add_finalizer_namespace = λ m f. refl;
  remove_finalizer_name = λ m f. refl;
  remove_finalizer_namespace = λ m f. refl;
}

abbrev pub client : Client ℕ
client = memory ℕ

abbrev pub metadata : Text → Text → ObjectMeta
metadata ns name = record {
  name = name;
  namespace = ns;
  uid = codes "1";
  labels = [];
  annotations = [];
  finalizers = [];
  owner_references = [];
  creation_timestamp = pos 1000000000;
  deletion_timestamp = none;
}

abbrev pub policies : ℤ → LifecycleSpec
policies days = record {
  idle_timeout_minutes = pos 60;
  max_lifespan_hours = pos 8;
  purge_after_inactive_days = days;
}

abbrev pub workspace : WorkspaceSpec ℕ
workspace = record { size = 5; storage_class_name = []; mount_path = codes "/home" }

-- A running notebook that is purged after `days` days.
abbrev pub notebook : ℤ → NotebookLab ℕ
notebook days = record {
  metadata = metadata (codes "lab") (codes "nb");
  spec = record {
    replicas = none;
    image = codes "jupyter";
    lifecycle = some (policies days);
    image_pull_secrets = [];
    resources = record { limits = []; requests = [] };
    node_selector = [];
    tolerations = [];
    gpu = none;
    storage = some (record { workspace = some workspace; datasets = []; tmp = none });
  };
  status = record {
    phase = running;
    pod_name = [];
    pvc_name = [];
    access_url = [];
    last_active_time = none;
    expires_at = none;
    node_name = [];
    gpu_status = none;
    conditions = [];
  };
}

abbrev pub notebook_key : NamespacedName
notebook_key = record { namespace = codes "lab"; name = codes "nb" }

abbrev pub empty : Tables ℕ
empty k = []

-- The cluster that holds that notebook and nothing else.
abbrev pub cluster : ℤ → Tables ℕ
cluster days = replace ℕ notebooklab ((notebook_key, notebook days) ∷ []) empty

-- The clock `n` nanoseconds after the creation of the notebook.
abbrev pub clock_after : ℕ → Clock
clock_after n =
    let t = pos (1000000000 + n) in record { at_purge = t; at_idle = t; at_lifespan = t }
