-- ===== src/System/Steps.antt =====
-- The manager of cmd/main.go at work: runs of the two controllers that it starts, in any order and on
-- any requests, with whatever users and other controllers do between the runs.
use notebook_operator.Base.{Option, List}
use notebook_operator.Base.Text.{Text}
use notebook_operator.Base.Dict.{Dict}
use notebook_operator.Base.Duration.{Duration}
use notebook_operator.Exec.{Result}
use notebook_operator.InstanceLab.Status.{InstanceClock}
use notebook_operator.Kube.Meta.{NamespacedName}
use notebook_operator.Api.ClusterLab.{ClusterLab}
use notebook_operator.Client.{Client, Machinery, clusterlab}
use notebook_operator.ClusterLab.Status.{LabClock}
use notebook_operator.ClusterLab.Reconcile.{reconcile_cluster_lab}
use notebook_operator.InstanceLab.Reconcile.{reconcile_instance_lab}

module _ (M : Machinery) (C : Client M.Quantity) (parse_duration : Text → Option Duration)
    (order : Dict Text → List (Text × Text)) (env : Text → Text) where
  -- From the world `w` to another. `Fits` says of the answer to the read of a cluster lab whether its
  -- controller may run on it, `Other` what the rest of the cluster does in one step.
  pub data Runs (Fits : Result (ClusterLab M.Quantity) → Type 0)
      (Other : C.World → C.World → Type 0) (w : C.World) : C.World → Type 0 where
    none_yet : Runs Fits Other w w
    then_lab :
        {v : C.World}
        → Runs Fits Other w v
        → (clock : LabClock) (req : NamespacedName) → Fits (C.get clusterlab req v)
        → Runs Fits Other w (reconcile_cluster_lab M C parse_duration clock req v).1
    then_instance :
        {v : C.World}
        → Runs Fits Other w v
        → (now : InstanceClock) (req : NamespacedName)
        → Runs Fits Other w (reconcile_instance_lab M C order env now req v).1
    then_other : {v u : C.World} → Runs Fits Other w v → Other v u → Runs Fits Other w u

  module _ {Fits : Result (ClusterLab M.Quantity) → Type 0} {Other : C.World → C.World → Type 0}
      (P : C.World → Type 0)
      (labs : (clock : LabClock) (req : NamespacedName) (v : C.World)
        → Fits (C.get clusterlab req v)
        → P v
        → P (reconcile_cluster_lab M C parse_duration clock req v).1)
      (instances : (now : InstanceClock) (req : NamespacedName) (v : C.World)
        → P v
        → P (reconcile_instance_lab M C order env now req v).1)
      (others : (v u : C.World) → Other v u → P v → P u) where
    -- What every step keeps holds at the end.
    pub Runs-Keeps : {w v : C.World} → Runs Fits Other w v → P w → P v
    Runs-Keeps none_yet h = h
    Runs-Keeps (then_lab r clock req fits) h = labs clock req _ fits (Runs-Keeps r h)
    Runs-Keeps (then_instance r now req) h = instances now req _ (Runs-Keeps r h)
    Runs-Keeps (then_other r other) h = others _ _ other (Runs-Keeps r h)
