-- ===== src/Admission/Update.antt =====
-- greenplum-operator/pkg/admission/validate_update_greenplumclusters.go
pub mod Rules
pub mod Unchanged
use greenplum_for_kubernetes.Prelude.{
  Bool, true, false, ◌||◌, ◌&&◌, not, List, [], ◌∷◌, if◌then◌else◌,
}
use greenplum_for_kubernetes.Prelude.Int.{pos, ltb_ℤ}
use greenplum_for_kubernetes.Prelude.Text.{String, ◌&◌, str_eq, to_lower, trim_space}
use greenplum_for_kubernetes.Prelude.Effects.{Eff, Result, ok, err}
use greenplum_for_kubernetes.Api.Quantity.{Quantities}
use greenplum_for_kubernetes.Api.Cluster.{GreenplumCluster, GreenplumClusterPhase, running}
use greenplum_for_kubernetes.Api.Objects.{JobStatus}
use greenplum_for_kubernetes.Operator.Executor.{get_current_active_master}
use greenplum_for_kubernetes.Admission.Verdict.{Verdict, pass, deny, deny_if, in_turn}
use greenplum_for_kubernetes.Admission.Access.{Access}

abbrev pub upgrade_cluster_help_msg : String
upgrade_cluster_help_msg =
    "Cannot update greenplumCluster instance -- operator only supports updates to clusters at the latest version. Please update greenplumCluster to the latest version in order to make updates"

abbrev pub is_running : GreenplumClusterPhase → Bool
is_running running = true
is_running _ = false

abbrev pub check_expand_schema_cmd : List String
check_expand_schema_cmd =
    "/bin/bash" ∷ "-c" ∷ "--"
    ∷ "source /usr/local/greenplum-db/greenplum_path.sh && psql -d postgres -tAc \"SELECT count(*) FROM information_schema.schemata WHERE schema_name = 'gpexpand'\""
    ∷ []

abbrev pub job_name : String → String
job_name cluster = cluster & "-gpexpand-job"

module _ {Q : Type 0} (access : Access Q) where
  -- GetCurrentActiveMaster, answered by the pods that this request sees; no history is kept.
  abbrev ask : List String → String → String → Eff Unit String
  ask command namespace pod h = (access.execute command namespace pod, h)

  abbrev or_none : Result String → String
  or_none (ok s) = s
  or_none (err e) = ""

  unfoldable pub active_master : String → String
  unfolding get_current_active_master
  active_master namespace = or_none (get_current_active_master ask namespace []).0

  abbrev job_check : Result JobStatus → Verdict
  job_check (err e) =
      if e.is_not_found
      then pass
      else deny ("failed to check for previous expand job: " & e.message)
  job_check (ok job) =
      if ltb_ℤ (pos 0) job.succeeded
      then pass
      else if ltb_ℤ (pos 0) job.failed
      then deny "cannot expand cluster because previous gpexpand job failed"
      else deny "cannot expand cluster because a gpexpand job is currently running"

  abbrev schema_check : Result String → Verdict
  schema_check (err e) = deny ("failed to check for expansion schema: " & e.message)
  schema_check (ok out) =
      deny_if (not (str_eq (trim_space out) "0"))
        "previous expansion schema exists. you must redistribute data and clean up expansion schema prior to performing another expansion"

  unfoldable pub validate_expand : GreenplumCluster Q → GreenplumCluster Q → Verdict
  validate_expand old new =
      let master = active_master new.namespace in
      let checks = in_turn (
        deny_if (not (is_running old.status.phase)) "updates only supported when cluster is Running"
        ∷ deny_if (str_eq master "") "failed to contact an active gpdb master"
        ∷ schema_check (access.execute check_expand_schema_cmd new.namespace master)
        ∷ job_check (access.get_job new.namespace (job_name new.name))
        ∷ []) in
      if ltb_ℤ old.spec.segments.primary_segment_count new.spec.segments.primary_segment_count
      then checks
      else pass

  module _ (quantities : Quantities Q) where
    -- x.String() != y.String()
    abbrev printed_ne : Q → Q → Bool
    printed_ne x y = not (str_eq (quantities.to_string x) (quantities.to_string y))

    abbrev lower_ne : String → String → Bool
    lower_ne x y = not (str_eq (to_lower x) (to_lower y))

    unfoldable pub validate_image : GreenplumCluster Q → GreenplumCluster Q → Verdict
    validate_image old new =
        deny_if
          (not (access.cluster_spec_equal old.spec new.spec)
            && not (str_eq old.status.instance_image access.instance_image))
          (upgrade_cluster_help_msg & "; GreenplumCluster has image: " & old.status.instance_image
            & "; Operator supports image: " & access.instance_image)

    -- The checks between the image check and the expansion, in the order of the code.
    unfoldable pub validate_fixed_fields : GreenplumCluster Q → GreenplumCluster Q → Verdict
    validate_fixed_fields old new =
        let om = old.spec.master_and_standby in
        let nm = new.spec.master_and_standby in
        let og = old.spec.segments in
        let ng = new.spec.segments in
        in_turn (
          deny_if (not (str_eq nm.standby om.standby))
            "standby value cannot be changed after the cluster has been created"
          ∷ deny_if (not (str_eq nm.host_based_authentication om.host_based_authentication))
              "hostBasedAuthentication cannot be changed after the cluster has been created"
          ∷ deny_if (printed_ne nm.pod.cpu om.pod.cpu || printed_ne ng.pod.cpu og.pod.cpu)
              "CPU reservation cannot be changed after the cluster has been created"
          ∷ deny_if
              (printed_ne nm.pod.memory om.pod.memory || printed_ne ng.pod.memory og.pod.memory)
              "Memory reservation cannot be changed after the cluster has been created"
          ∷ deny_if
              (not (access.selector_equal nm.pod.worker_selector om.pod.worker_selector)
                || not (access.selector_equal ng.pod.worker_selector og.pod.worker_selector))
              "workerSelector cannot be changed after the cluster has been created"
          ∷ deny_if
              (lower_ne nm.pod.anti_affinity om.pod.anti_affinity
                || lower_ne ng.pod.anti_affinity og.pod.anti_affinity)
              "antiAffinity cannot be changed after the cluster has been created"
          ∷ deny_if (lower_ne ng.mirrors og.mirrors)
              "mirrors cannot be changed after the cluster has been created"
          ∷ deny_if
              (not (quantities.same nm.pod.storage om.pod.storage)
                || not (quantities.same ng.pod.storage og.pod.storage))
              "storage cannot be changed after the cluster has been created"
          ∷ deny_if
              (not (str_eq nm.pod.storage_class_name om.pod.storage_class_name)
                || not (str_eq ng.pod.storage_class_name og.pod.storage_class_name))
              "storageClassName cannot be changed after the cluster has been created"
          ∷ deny_if (ltb_ℤ ng.primary_segment_count og.primary_segment_count)
              "primarySegmentCount cannot be decreased after the cluster has been created"
          ∷ [])

    unfoldable pub validate_update_greenplum_cluster :
        GreenplumCluster Q → GreenplumCluster Q → Verdict
    validate_update_greenplum_cluster old new = in_turn (
        validate_image old new
        ∷ validate_fixed_fields old new
        ∷ validate_expand old new
        ∷ deny_if (not (str_eq new.spec.pxf.service_name old.spec.pxf.service_name))
            "PXF serviceName cannot be changed after the cluster has been created"
        ∷ [])
