-- ===== src/InstanceLab/Phases.antt =====
-- The phases that the InstanceLab controller writes.
use notebook_operator.Base.{◌≡◌, ◌≢◌, ◌↔◌, ◌⊎◌, refl, inl, inr, none, some, List, [], ◌∷◌, arith}
use notebook_operator.Base.Text.{Text, codes}
use notebook_operator.InstanceLab.Status.{InstanceClock}
use notebook_operator.Kube.Pod.{Pod}
use notebook_operator.Api.InstanceLab.{InstanceLab, InstanceLabStatus, InstanceLabAccessEndpoint}
use notebook_operator.Client.{Machinery}
use notebook_operator.InstanceLab.Status.{
  phase_status, pod_status, ready_status, reported_instance, failed_instance,
}
use notebook_operator.InstanceLab.Reconcile.{waiting_instance}
use notebook_operator.Client.{Client}

abbrev OneOf : Text → List Text → Type 0
OneOf t [] = ⊥
OneOf t (u ∷ us) = (t ≡ u) ⊎ OneOf t us

-- The values that the schema of the resource admits.
abbrev pub instance_phases : List Text
instance_phases =
    codes "Pending" ∷ codes "Creating" ∷ codes "Running" ∷ codes "Stopped" ∷ codes "Failed" ∷ []

abbrev pub IsPhase : Text → Type 0
IsPhase t = OneOf t instance_phases

phases_apart : (codes "Creating" ≢ codes "Running") × (codes "Failed" ≢ codes "Running")
unfolding codes
phases_apart = (λ e. cc, λ e. cc)

module _ (M : Machinery) (now : InstanceClock) where
  phase_status-IsPhase :
      (phase : Text) (status : InstanceLabStatus) → IsPhase (phase_status M now phase status).phase
  unfolding phase_status
  phase_status-IsPhase phase status = ground arith

  phase_status_running :
      (phase : Text) (status : InstanceLabStatus)
      → ((phase_status M now phase status).phase ≡ codes "Running") ↔ (phase ≡ codes "Running")
  unfolding phase_status
  phase_status_running phase status = ground (arith, phases_apart)

  -- The status with what is read of the pod.
  abbrev seen : InstanceLab M.Quantity → Pod M.Quantity → InstanceLabStatus
  seen inst p = record inst.status { pod_name = p.metadata.name; pod_ip = p.status.pod_ip }

  -- Whatever phase the instance and its pod have, the phase that a run writes is one that the schema
  -- admits: when it reports the pod, when it waits for the parent and when it reports an error. And
  -- it reports an instance as running exactly if its pod is there and runs.
  pub written_phases :
      (C : Client M.Quantity) (inst : InstanceLab M.Quantity) (p : Pod M.Quantity)
      (endpoints : List InstanceLabAccessEndpoint) (reason message : Text)
      → IsPhase (reported_instance M now inst (some p) endpoints).status.phase
        × IsPhase (reported_instance M now inst none endpoints).status.phase
        × IsPhase (waiting_instance M C now inst).status.phase
        × IsPhase (failed_instance M now C inst reason message).status.phase
        × (((reported_instance M now inst (some p) endpoints).status.phase ≡ codes "Running")
            ↔ (p.status.phase ≡ codes "Running"))
        × ((reported_instance M now inst none endpoints).status.phase ≢ codes "Running")
  unfolding reported_instance ready_status pod_status waiting_instance failed_instance
  written_phases C inst p endpoints reason message = (
    phase_status-IsPhase p.status.phase (seen inst p),
    inr (inl refl),
    inl refl,
    inr (inr (inr (inr (inl refl)))),
    phase_status_running p.status.phase (seen inst p),
    phases_apart.0,
  )
