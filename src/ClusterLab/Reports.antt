-- ===== src/ClusterLab/Reports.antt =====
-- How a run of the ClusterLab controller ends at an error, and how it reports it.
use notebook_operator.Base.{refl, none, some}
use notebook_operator.Base.Text.{Text, codes}
use notebook_operator.Utils.Names.{generate_target_namespace}
use notebook_operator.Exec.{Failure, error_text, Exec, ◌>>=◌, ◌>>◌}
use notebook_operator.Exec.Agrees.{
  Marked, part, Agrees, PassesOn, Agrees-part, Agrees-bind, Agrees-handled,
}
use notebook_operator.Api.ClusterLab.{ClusterLab}
use notebook_operator.Client.{Client, Machinery, clusterlab}
use notebook_operator.ClusterLab.Provision.{
  reconcile_namespace, reconcile_resource_quota, reconcile_network_policy,
}
use notebook_operator.ClusterLab.Status.{
  LabClock, set_condition, update_cluster_lab_status, update_status_failed, failed_lab,
}
use notebook_operator.ClusterLab.Reconcile.{lab_report_by, lab_reported, provision_lab}

module _ (M : Machinery) (C : Client M.Quantity) (clock : LabClock)
    (lab : ClusterLab M.Quantity) where
  -- The report of an error: one update of the status, with the phase Failed and a condition with the
  -- reason and the text of the error, whose own error is dropped.
  abbrev pub lab_report : Text → Failure → C.World → C.World
  lab_report reason e w =
      (C.update_status clusterlab
        (record lab {
          status = record lab.status {
            phase = codes "Failed";
            conditions =
                set_condition M clock.at_ready lab.status.conditions (codes "Ready") (codes "False")
                  reason (error_text e);
          };
        })
        w).1

  lab_report_by-PassesOn :
      (reason : Text) → PassesOn lab_report reason (lab_report_by M C clock lab reason)
  unfolding lab_report_by update_status_failed failed_lab ◌>>=◌
  lab_report_by-PassesOn reason = record { value = λ a w. refl; error = λ e w. refl }

  lab_reported-Agrees :
      (reason : Text) (m : Exec C.World (Unit {0}))
      → Agrees lab_report (lab_reported M C clock lab reason m) (part (some reason) m)
  unfolding lab_reported
  lab_reported-Agrees reason m =
      Agrees-handled lab_report reason (lab_report_by M C clock lab reason)
        (lab_report_by-PassesOn reason) m

  -- The four parts in a row, with the reason for which an error of each is reported.
  abbrev pub lab_parts : Exec (Marked Text C.World) (Unit {0})
  lab_parts = do
    let target = generate_target_namespace lab.metadata.name
    part (some (codes "NamespaceError")) (reconcile_namespace M C lab target)
    part (some (codes "QuotaError")) (reconcile_resource_quota M C lab target)
    part (some (codes "NetworkPolicyError")) (reconcile_network_policy M C lab target)
    part none (update_cluster_lab_status M C clock lab target)

  -- The run over the namespace, the quota, the network policy and the status ends at the first part
  -- that fails and returns its error, after one report of it if it is not the last part.
  pub provision_lab-Agrees : Agrees lab_report (provision_lab M C clock lab) lab_parts
  unfolding provision_lab
  provision_lab-Agrees = Agrees-bind _ _ _ _ _ (lab_reported-Agrees _ _) λ a.
      Agrees-bind _ _ _ _ _ (lab_reported-Agrees _ _)
        λ b. Agrees-bind _ _ _ _ _ (lab_reported-Agrees _ _) λ c. Agrees-part _ _
