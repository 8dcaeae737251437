-- ===== src/System/Reports.antt =====
-- How the three controllers report errors.
use notebook_operator.Base.{List}
use notebook_operator.Base.Text.{Text}
use notebook_operator.Base.Dict.{Dict}
use notebook_operator.Exec.Agrees.{Agrees}
use notebook_operator.InstanceLab.Status.{InstanceClock}
use notebook_operator.Api.NotebookLab.{NotebookLab}
use notebook_operator.Api.ClusterLab.{ClusterLab}
use notebook_operator.Api.InstanceLab.{InstanceLab}
use notebook_operator.Client.{Client, Machinery}
use notebook_operator.Notebook.Reconcile.{provision}
use notebook_operator.Notebook.Reports.{notebook_report, notebook_parts, provision-Agrees}
use notebook_operator.ClusterLab.Status.{LabClock}
use notebook_operator.ClusterLab.Reconcile.{provision_lab}
use notebook_operator.ClusterLab.Reports.{lab_report, lab_parts, provision_lab-Agrees}
use notebook_operator.InstanceLab.Reconcile.{provision_instance}
use notebook_operator.InstanceLab.Reports.{
  instance_report, instance_parts, provision_instance-Agrees,
}

-- In each of the three controllers the run over the objects and the status ends at the first
-- part that fails: over the workspace, the deployment, the network and the status of a notebook,
-- over the namespace, the quota, the network policy and the status of a cluster lab, and over
-- the claim, the pod, the service, the ingress and the status of an instance. It returns that
-- part's error, and the cluster is as the parts up to that one left it, but for one report of
-- the error, which is made for every part but the last: an update of the status with the phase
-- Failed, and for a cluster lab or an instance with the reason of the part and the text of the
-- error in the condition Ready, whether that update succeeds or not. Without an error the run
-- leaves the cluster as the parts in a row leave it.
pub reports-Agrees :
    (M : Machinery) (C : Client M.Quantity) (notebook : NotebookLab M.Quantity) (clock : LabClock)
    (lab : ClusterLab M.Quantity) (now : InstanceClock) (inst : InstanceLab M.Quantity)
    (order : Dict Text → List (Text × Text)) (env : Text → Text) (parent : ClusterLab M.Quantity)
    → Agrees (notebook_report M C notebook) (provision M C notebook) (notebook_parts M C notebook)
      × Agrees (lab_report M C clock lab) (provision_lab M C clock lab) (lab_parts M C clock lab)
      × Agrees
          (instance_report M C now inst)
          (provision_instance M C now inst order env parent)
          (instance_parts M C now inst order env parent)
reports-Agrees M C notebook clock lab now inst order env parent = (
  provision-Agrees M C notebook,
  provision_lab-Agrees M C clock lab,
  provision_instance-Agrees M C now inst order env parent,
)
