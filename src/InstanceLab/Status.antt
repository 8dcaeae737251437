-- ===== src/InstanceLab/Status.antt =====
-- The status of an instance: `updateInstanceLabStatus` and `updateStatusFailed` of
-- internal/controller/instancelab_controller.go. A nil pointer is `none`, and following one ends the
-- run with `nil_dereference`.
use notebook_operator.Base.{Option, none, some, List, [], ◌∷◌, ◌++◌, if◌then◌else◌}
use notebook_operator.Base.Int.{ℤ}
use notebook_operator.Base.Text.{Text, codes, ◌==◌}
use notebook_operator.Utils.Decimal.{decimal}
use notebook_operator.Utils.Strings.{equal_fold}
use notebook_operator.Exec.{Failure, nil_dereference, Exec, error_text, pure, fail, attempt, ◌>>◌}
use notebook_operator.Kube.Meta.{Time}
use notebook_operator.Kube.Pod.{Pod}
use notebook_operator.Kube.Objects.{Service, Ingress, IngressRule}
use notebook_operator.Api.InstanceLab.{
  InstanceLab, InstanceLabPort, InstanceLabAccessEndpoint, InstanceLabStatus,
}
use notebook_operator.Client.{Client, Machinery, instancelab}
use notebook_operator.ClusterLab.Status.{set_condition}

-- The readings of the clock by the calls of `metav1.Now`, for the conditions.
pub record InstanceClock : Type 0 where
  pub at_waiting : Time
  pub at_pod_ready : Time
  pub at_ready : Time

-- ing.Spec.Rules[0].Host, if `ing` is not nil and has a rule.
abbrev pub first_host : List IngressRule → Option Text
first_host [] = none
first_host (rule ∷ rules) = some rule.host

abbrev pub host_of : Option Ingress → Option Text
host_of none = none
host_of (some ing) = first_host ing.spec.rules

-- An endpoint of the port, with `host` for the URL.
unfoldable pub endpoint_at : Text → InstanceLabPort → Option Text → InstanceLabAccessEndpoint
endpoint_at internal_addr p none = record {
  name = p.name;
  protocol = codes "TCP";
  url = [];
  internal_address = internal_addr;
}
endpoint_at internal_addr p (some host) = record {
  name = p.name;
  protocol = codes "HTTPS";
  url = codes "https://" ++ host;
  internal_address = internal_addr;
}

abbrev pub internal_address_of : Text → Text → ℤ → Text
internal_address_of svc_name pod_ns port =
    codes "http://"
    ++ svc_name
    ++ codes "."
    ++ pod_ns
    ++ codes ".svc.cluster.local:"
    ++ decimal port

unfoldable pub endpoints_at :
    Text → Text → Option Text → List InstanceLabPort → List InstanceLabAccessEndpoint
unfolding endpoint_at
endpoints_at svc_name pod_ns host [] = []
endpoints_at svc_name pod_ns host (p ∷ ports) =
    endpoint_at (internal_address_of svc_name pod_ns p.port) p (if p.expose then host else none)
    ∷ endpoints_at svc_name pod_ns host ports

module _ {Quantity : Type 0} where
  -- The loop over the ports: `svc` and `pod` are followed in each turn, so in none without ports.
  unfoldable pub access_endpoints :
      Option (Pod Quantity)
      → Option Service
      → Option Text
      → List InstanceLabPort
      → Option (List InstanceLabAccessEndpoint)
  unfolding endpoints_at
  access_endpoints p svc host [] = some []
  access_endpoints (some p) (some svc) host (port ∷ ports) =
      some (endpoints_at svc.metadata.name p.metadata.namespace host (port ∷ ports))
  access_endpoints none svc host (port ∷ ports) = none
  access_endpoints (some p) none host (port ∷ ports) = none

module _ (M : Machinery) (now : InstanceClock) where
  -- The switch on the pod's phase.
  unfoldable pub phase_status : Text → InstanceLabStatus → InstanceLabStatus
  unfolding set_condition
  phase_status phase status =
      if phase == codes "Running"
      then record status {
        phase = codes "Running";
        conditions =
            set_condition M now.at_pod_ready status.conditions (codes "PodReady") (codes "True")
              (codes "ContainerRunning") (codes "Sysbox VM instance is running and responsive");
      }
      else if phase == codes "Pending"
      then record status {
        phase = codes "Creating";
        conditions =
            set_condition M now.at_pod_ready status.conditions (codes "PodReady") (codes "False")
              (codes "PodPending") (codes "Waiting for K8s scheduler and volume mounting");
      }
      else if phase == codes "Failed"
      then record status {
        phase = codes "Failed";
        conditions =
            set_condition M now.at_pod_ready status.conditions (codes "PodReady") (codes "False")
              (codes "PodFailed") (codes "Sysbox VM Pod execution failed");
      }
      else record status { phase = codes "Creating" }

  unfoldable pub pod_status : Option (Pod M.Quantity) → InstanceLabStatus → InstanceLabStatus
  unfolding phase_status
  pod_status none status = record status { phase = codes "Creating" }
  pod_status (some p) status =
      phase_status p.status.phase
        (record status { pod_name = p.metadata.name; pod_ip = p.status.pod_ip })

  unfoldable pub ready_status : InstanceLabStatus → InstanceLabStatus
  unfolding set_condition
  ready_status status = record status {
    conditions =
        if equal_fold status.phase (codes "Running")
        then set_condition M now.at_ready status.conditions (codes "Ready") (codes "True")
            (codes "InstanceReady") (codes "InstanceLab is ready for student connectivity")
        else set_condition M now.at_ready status.conditions (codes "Ready") (codes "False")
            (codes "InstanceProvisioning") (codes "InstanceLab is currently being provisioned");
  }

  -- The instance with the status that is reported of it.
  unfoldable pub reported_instance :
      InstanceLab M.Quantity
      → Option (Pod M.Quantity)
      → List InstanceLabAccessEndpoint
      → InstanceLab M.Quantity
  unfolding pod_status ready_status
  reported_instance inst p endpoints = record inst {
    status = ready_status (record (pod_status p inst.status) { access_endpoints = endpoints });
  }

  module _ (C : Client M.Quantity) (inst : InstanceLab M.Quantity) where
    unfoldable pub report_instance :
        Option (Pod M.Quantity) → Option (List InstanceLabAccessEndpoint) → Exec C.World (Unit {0})
    report_instance p none = fail nil_dereference
    report_instance p (some endpoints) = do
      C.update_status instancelab (reported_instance inst p endpoints)
      pure tt

    unfoldable pub update_instance_lab_status :
        Option (Pod M.Quantity) → Option Service → Option Ingress → Exec C.World (Unit {0})
    unfolding report_instance access_endpoints
    update_instance_lab_status p svc ing =
        report_instance p (access_endpoints p svc (host_of ing) inst.spec.ports)

    unfoldable pub failed_instance : Text → Text → InstanceLab M.Quantity
    unfolding set_condition
    failed_instance reason message = record inst {
      status = record inst.status {
        phase = codes "Failed";
        conditions =
            set_condition M now.at_ready inst.status.conditions (codes "Ready") (codes "False")
              reason message;
      };
    }

    -- The error of the update is dropped.
    unfoldable pub update_instance_status_failed : Text → Failure → Exec C.World (Unit {0})
    unfolding failed_instance
    update_instance_status_failed reason e = do
      attempt (C.update_status instancelab (failed_instance reason (error_text e)))
      pure tt
