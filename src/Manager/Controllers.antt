-- ===== src/Manager/Controllers.antt =====
-- The `SetupWithManager` methods: which objects each controller watches, as the builder of
-- controller-runtime is told.
use notebook_operator.Base.{◌≡◌, ◌⊎◌, List, [], ◌∷◌}
use notebook_operator.Base.Text.{Text, codes}
use notebook_operator.Kube.Meta.{NamespacedName}
use notebook_operator.Client.{
  Kind, Obj, notebooklab, clusterlab, instancelab, pvc, secret, deployment, service, ingress,
}
use notebook_operator.ClusterLab.Reconcile.{find_parent_cluster_lab}

-- `For`, `Owns`, and `Watches` with `EnqueueRequestsFromMapFunc`.
pub data Watch (Quantity : Type 0) : Type 0 where
  for_kind : Kind → Watch Quantity
  owns : Kind → Watch Quantity
  watches : (k : Kind) → (Obj Quantity k → List NamespacedName) → Watch Quantity

-- What `Complete` gets; the name is empty if there is no `Named`.
pub record Controller (Quantity : Type 0) : Type 0 where
  pub watched : List (Watch Quantity)
  pub named : Text

module _ {Quantity : Type 0} where
  abbrev pub notebook_lab_controller : Controller Quantity
  notebook_lab_controller = record {
    watched =
        for_kind notebooklab
        ∷ owns deployment
        ∷ owns pvc
        ∷ owns service
        ∷ owns ingress
        ∷ owns secret
        ∷ [];
    named = [];
  }

  abbrev pub cluster_lab_controller : Controller Quantity
  cluster_lab_controller = record {
    watched = for_kind clusterlab ∷ watches instancelab find_parent_cluster_lab ∷ [];
    named = codes "clusterlab";
  }

  abbrev pub instance_lab_controller : Controller Quantity
  instance_lab_controller = record {
    watched = for_kind instancelab ∷ [];
    named = codes "instancelab";
  }

  abbrev pub watch_kind : Watch Quantity → Kind
  watch_kind (for_kind k) = k
  watch_kind (owns k) = k
  watch_kind (watches k f) = k

  -- The controller is told of changes of objects of that kind.
  abbrev pub Watches : List (Watch Quantity) → Kind → Type 0
  Watches [] j = ⊥
  Watches (x ∷ xs) j = (watch_kind x ≡ j) ⊎ Watches xs j
