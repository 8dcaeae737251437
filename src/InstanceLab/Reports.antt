-- ===== src/InstanceLab/Reports.antt =====
-- How a run of the InstanceLab controller ends at an error, and how it reports it.
use notebook_operator.Base.{List, none, some, refl}
use notebook_operator.Base.Text.{Text, codes}
use notebook_operator.Base.Dict.{Dict}
use notebook_operator.Exec.{Failure, error_text, Exec, ◌>>=◌}
use notebook_operator.Exec.Agrees.{
  Marked, part, Agrees, PassesOn, Agrees-part, Agrees-bind, Agrees-handled,
}
use notebook_operator.InstanceLab.Status.{InstanceClock}
use notebook_operator.Api.ClusterLab.{ClusterLab}
use notebook_operator.Api.InstanceLab.{InstanceLab}
use notebook_operator.Client.{Client, Machinery, instancelab}
use notebook_operator.ClusterLab.Reconcile.{doomed_namespace}
use notebook_operator.InstanceLab.Objects.{reconcile_instance_pvc}
use notebook_operator.InstanceLab.Pod.{reconcile_sysbox_pod}
use notebook_operator.InstanceLab.Network.{reconcile_services, reconcile_instance_ingress}
use notebook_operator.InstanceLab.Status.{
  update_instance_lab_status, update_instance_status_failed, failed_instance,
}
use notebook_operator.ClusterLab.Status.{set_condition}
use notebook_operator.InstanceLab.Reconcile.{
  instance_report_by, instance_reported, provision_instance,
}

module _ (M : Machinery) (C : Client M.Quantity) (now : InstanceClock)
    (inst : InstanceLab M.Quantity) where
  -- The report of an error: one update of the status, with the phase Failed and a condition with the
  -- reason and the text of the error, whose own error is dropped.
  abbrev pub instance_report : Text → Failure → C.World → C.World
  instance_report reason e w =
      (C.update_status instancelab
        (record inst {
          status = record inst.status {
            phase = codes "Failed";
            conditions =
                set_condition M now.at_ready inst.status.conditions (codes "Ready") (codes "False")
                  reason (error_text e);
          };
        })
        w).1

  instance_report_by-PassesOn :
      {A : Type 0} (reason : Text)
      → PassesOn instance_report reason (instance_report_by M C now inst {A = A} reason)
  unfolding instance_report_by update_instance_status_failed failed_instance ◌>>=◌
  instance_report_by-PassesOn reason = record { value = λ a w. refl; error = λ e w. refl }

  instance_reported-Agrees :
      {A : Type 0} (reason : Text) (m : Exec C.World A)
      → Agrees instance_report (instance_reported M C now inst reason m) (part (some reason) m)
  unfolding instance_reported
  instance_reported-Agrees reason m =
      Agrees-handled instance_report reason (instance_report_by M C now inst reason)
        (instance_report_by-PassesOn reason) m

  module _ (order : Dict Text → List (Text × Text)) (env : Text → Text)
      (lab : ClusterLab M.Quantity) where
    -- The five parts in a row, with the reason for which an error of each is reported.
    abbrev pub instance_parts : Exec (Marked Text C.World) (Unit {0})
    instance_parts = do
      let target = doomed_namespace lab
      claim ← part (some (codes "PVCError")) (reconcile_instance_pvc M C inst target)
      p ← part (some (codes "PodError")) (reconcile_sysbox_pod M C order inst target claim)
      svc ← part (some (codes "ServiceError")) (reconcile_services M C env inst target)
      ing ←
          part (some (codes "IngressError"))
            (reconcile_instance_ingress M C env inst lab.metadata.name target svc)
      part none (update_instance_lab_status M now C inst (some p) svc ing)

    -- The run over the claim, the pod, the service, the ingress and the status ends at the first part
    -- that fails and returns its error, after one report of it if it is not the last part.
    pub provision_instance-Agrees :
        Agrees instance_report (provision_instance M C now inst order env lab) instance_parts
    unfolding provision_instance
    provision_instance-Agrees = Agrees-bind _ _ _ _ _ (instance_reported-Agrees _ _) λ claim.
        Agrees-bind _ _ _ _ _ (instance_reported-Agrees _ _) λ p.
          Agrees-bind _ _ _ _ _ (instance_reported-Agrees _ _)
            λ svc. Agrees-bind _ _ _ _ _ (instance_reported-Agrees _ _) λ ing. Agrees-part _ _
