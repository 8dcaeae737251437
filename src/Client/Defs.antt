-- ===== src/Client/Defs.antt =====
-- `client.Client` of controller-runtime with the API server behind it, and the helpers of
-- apimachinery, as records of operations.
use notebook_operator.Base.{Bool, List}
use notebook_operator.Base.Int.{ℤ}
use notebook_operator.Base.Text.{Text}
use notebook_operator.Base.Dict.{Dict}
use notebook_operator.Exec.{Result, Exec}
use notebook_operator.Kube.Meta.{ObjectMeta, NamespacedName, Condition}
use notebook_operator.Kube.Pod.{Pod}
use notebook_operator.Kube.Objects.{
  PersistentVolumeClaim, Secret, Deployment, Service, Ingress, Namespace, ResourceQuota,
  NetworkPolicy,
}
use notebook_operator.Api.NotebookLab.{NotebookLab}
use notebook_operator.Api.ClusterLab.{ClusterLab}
use notebook_operator.Api.InstanceLab.{InstanceLab}

-- The Go type of an object, by which a typed client finds its resource.
pub data Kind : Type 0 where
  notebooklab clusterlab instancelab pvc secret deployment service ingress namespace resource_quota
        network_policy pod :
      Kind

module _ (Quantity : Type 0) where
  abbrev pub Obj : Kind → Type 0
  Obj notebooklab = NotebookLab Quantity
  Obj clusterlab = ClusterLab Quantity
  Obj instancelab = InstanceLab Quantity
  Obj pvc = PersistentVolumeClaim Quantity
  Obj secret = Secret
  Obj deployment = Deployment Quantity
  Obj service = Service
  Obj ingress = Ingress
  Obj namespace = Namespace
  Obj resource_quota = ResourceQuota Quantity
  Obj network_policy = NetworkPolicy
  Obj pod = Pod Quantity

  abbrev pub metadata_of : (k : Kind) → Obj k → ObjectMeta
  metadata_of notebooklab o = o.metadata
  metadata_of clusterlab o = o.metadata
  metadata_of instancelab o = o.metadata
  metadata_of pvc o = o.metadata
  metadata_of secret o = o.metadata
  metadata_of deployment o = o.metadata
  metadata_of service o = o.metadata
  metadata_of ingress o = o.metadata
  metadata_of namespace o = o.metadata
  metadata_of resource_quota o = o.metadata
  metadata_of network_policy o = o.metadata
  metadata_of pod o = o.metadata

  abbrev pub key_of : (k : Kind) → Obj k → NamespacedName
  key_of k o = let m = metadata_of k o in record { namespace = m.namespace; name = m.name }

-- A call that writes returns the object as the server answers it, which the Go call stores in its
-- argument. `patch` takes the object before and after the change, `create_or_update` the object to
-- create and the function that changes it.
pub record Client (Quantity : Type 0) : Type 1 where
  pub World : Type 0
  pub get : (k : Kind) → NamespacedName → World → Result (Obj Quantity k)
  pub list : (k : Kind) → Text → World → Result (List (Obj Quantity k))
  pub create : (k : Kind) → Obj Quantity k → Exec World (Obj Quantity k)
  pub update : (k : Kind) → Obj Quantity k → Exec World (Obj Quantity k)
  pub update_status : (k : Kind) → Obj Quantity k → Exec World (Obj Quantity k)
  pub patch : (k : Kind) → Obj Quantity k → Obj Quantity k → Exec World (Obj Quantity k)
  pub delete : (k : Kind) → Obj Quantity k → Exec World (Unit {0})
  pub delete_all_of : (k : Kind) → Text → Dict Text → Exec World (Unit {0})
  pub create_or_update :
      (k : Kind) → Obj Quantity k → (Obj Quantity k → Obj Quantity k) → Exec World (Obj Quantity k)

-- `resource.Quantity`, `controllerutil.SetControllerReference` (the owner, then the object, whose
-- metadata it returns), `ContainsFinalizer`, `AddFinalizer` and `RemoveFinalizer` of
-- `controllerutil`, and `meta.SetStatusCondition`.
pub record Machinery : Type 1 where
  pub Quantity : Type 0
  pub is_zero : Quantity → Bool
  pub value : Quantity → ℤ
  pub new_quantity : ℤ → Quantity
  pub set_controller_reference : ObjectMeta → ObjectMeta → Result ObjectMeta
  pub contains_finalizer : ObjectMeta → Text → Bool
  pub add_finalizer : ObjectMeta → Text → ObjectMeta
  pub remove_finalizer : ObjectMeta → Text → ObjectMeta
  pub set_status_condition : List Condition → Condition → List Condition
