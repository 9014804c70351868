-- ===== src/Admission/Create.antt =====
-- greenplum-operator/pkg/admission/validate_create_greenplumclusters.go
pub mod Checks
pub mod Admissible
use greenplum_for_kubernetes.Prelude.{
  ℕ, Bool, true, false, ◌&&◌, ◌||◌, not, List, [], ◌∷◌, Option, none, some, length, ◌==◌, ltb,
  if◌then◌else◌,
}
use greenplum_for_kubernetes.Prelude.Int.{pos, int32, ltb_ℤ, ◌==ℤ◌}
use greenplum_for_kubernetes.Prelude.Map.{lookup}
use greenplum_for_kubernetes.Prelude.Text.{String, ◌&◌, str_eq}
use greenplum_for_kubernetes.Prelude.Effects.{Result, ok, err}
use greenplum_for_kubernetes.Api.Quantity.{Quantities}
use greenplum_for_kubernetes.Api.Cluster.{GreenplumCluster}
use greenplum_for_kubernetes.Api.Objects.{Pvc}
use greenplum_for_kubernetes.Operator.Defaults.{
  supported_greenplum_major_version, set_default_greenplum_cluster_values,
}
use greenplum_for_kubernetes.Admission.Verdict.{Verdict, pass, deny, deny_if, after, in_turn, ◌>>◌}
use greenplum_for_kubernetes.Admission.Access.{Access}
use greenplum_for_kubernetes.Admission.Shared.{
  validate_worker_selector, validate_resource_quantity, validate_storage_helper,
  generate_long_pvc_err_str,
}

-- pvcVersionErrFmt names my-gp-instance, whatever the cluster's name.
abbrev pub version_message : String → String
version_message found =
    "the existing PVCs for my-gp-instance are not compatible with this controller. Expected PVCs to have greenplum-major-version="
    & supported_greenplum_major_version & "; found " & found

module _ {Q : Type 0} (access : Access Q) where
  -- getGreenplumPVCs, and getPVCs of validate_shared_functions.go
  abbrev pub get_greenplum_pvcs : GreenplumCluster Q → String → Result (List (Pvc Q))
  get_greenplum_pvcs c typ =
      access.list_pvcs c.namespace
        (("app", "greenplum") ∷ ("greenplum-cluster", c.name) ∷ ("type", typ) ∷ [])

  unfoldable pub validate_unique_cluster : GreenplumCluster Q → Verdict
  validate_unique_cluster c = elim (access.list_clusters c.namespace) [
    | err e ↦
        deny ("could not check if a cluster exists in namespace " & c.namespace & ". " & e.message)
    | ok clusters ↦
        deny_if (ltb 0 (length clusters))
          ("only one GreenplumCluster is allowed in namespace " & c.namespace)
  ]

  abbrev label_check : Option String → Verdict → Verdict
  label_check none result = deny (version_message "no label")
  label_check (some ver) result =
      if str_eq ver supported_greenplum_major_version
      then result
      else deny (version_message ("greenplum-major-version=" & ver))

  -- The loop goes on after a bad claim, so the message is that of the last one.
  unfoldable pub check_versions : List (Pvc Q) → Verdict → Verdict
  check_versions [] result = result
  check_versions (pvc ∷ rest) result =
      check_versions rest (label_check (lookup "greenplum-major-version" pvc.labels) result)

  unfoldable pub validate_pvc_greenplum_version : GreenplumCluster Q → String → Verdict
  validate_pvc_greenplum_version c typ =
      after (get_greenplum_pvcs c typ) (λ pvcs. check_versions pvcs pass)

  unfoldable pub validate_primary_segment_count : GreenplumCluster Q → Verdict
  validate_primary_segment_count c = after (get_greenplum_pvcs c "segment-a") λ pvcs.
      deny_if (ltb_ℤ c.spec.segments.primary_segment_count (int32 (length pvcs))) (
        generate_long_pvc_err_str "Greenplum" c.name (int32 (length pvcs)) "segments"
          "segments.primarySegmentCount" "decreased")

  unfoldable pub validate_anti_affinity : GreenplumCluster Q → Verdict
  validate_anti_affinity c =
      let on =
        not (str_eq c.spec.master_and_standby.pod.anti_affinity "no")
        || not (str_eq c.spec.segments.pod.anti_affinity "no") in
      do
        deny_if (str_eq c.spec.master_and_standby.standby "no" && on)
            "when standby is set to \"no\", antiAffinity must also be set to \"no\""
        deny_if (str_eq c.spec.segments.mirrors "no" && on)
            "when mirrors is set to \"no\", antiAffinity must also be set to \"no\""

  abbrev previous_standby : Bool → String
  previous_standby true = "yes"
  previous_standby false = "no"

  -- int32(len(items)) is compared with 0 and with 2.
  unfoldable pub validate_standby : GreenplumCluster Q → Verdict
  validate_standby c = after (get_greenplum_pvcs c "master") λ pvcs.
      let masters = int32 (length pvcs) in
      deny_if
        (not (masters ==ℤ pos 0)
          && not (str_eq (previous_standby (masters ==ℤ pos 2)) c.spec.master_and_standby.standby))
        (generate_long_pvc_err_str "Greenplum" c.name masters "masters" "masterAndStandby.standby"
          "changed")

  abbrev mirrors_check : GreenplumCluster Q → ℕ → Verdict
  mirrors_check c mirrors =
      deny_if
        ((mirrors == 0 && str_eq c.spec.segments.mirrors "yes")
          || (ltb 0 mirrors && str_eq c.spec.segments.mirrors "no"))
        (generate_long_pvc_err_str "Greenplum" c.name (pos mirrors) "mirrors" "segments.mirrors"
          "changed")

  unfoldable pub validate_mirrors : GreenplumCluster Q → Verdict
  validate_mirrors c = after (get_greenplum_pvcs c "segment-a") λ primaries.
      let mirrors =
        after (get_greenplum_pvcs c "segment-b") (λ pvcs. mirrors_check c (length pvcs)) in
      if length primaries == 0 then pass else mirrors

  module _ (quantities : Quantities Q) where
    unfoldable pub validate_greenplum_storage_from_pvcs : GreenplumCluster Q → Verdict
    validate_greenplum_storage_from_pvcs c =
        let m = c.spec.master_and_standby.pod in
        let g = c.spec.segments.pod in
        do
          after (get_greenplum_pvcs c "master") λ pvcs.
              validate_storage_helper quantities pvcs m.storage m.storage_class_name "Greenplum"
          after (get_greenplum_pvcs c "segment-a") λ pvcs.
              validate_storage_helper quantities pvcs g.storage g.storage_class_name "Greenplum"

    -- The checks on the cluster with its defaults set, in the order of the code.
    unfoldable pub validate_defaulted : GreenplumCluster Q → Verdict
    validate_defaulted c =
        let m = c.spec.master_and_standby.pod in
        let g = c.spec.segments.pod in
        in_turn (
          validate_anti_affinity c
          ∷ validate_unique_cluster c
          ∷ validate_greenplum_storage_from_pvcs c
          ∷ validate_pvc_greenplum_version c "master"
          ∷ validate_pvc_greenplum_version c "segment-a"
          ∷ validate_pvc_greenplum_version c "segment-b"
          ∷ validate_standby c
          ∷ validate_primary_segment_count c
          ∷ validate_mirrors c
          ∷ validate_worker_selector m.worker_selector "masterAndStandby"
          ∷ validate_worker_selector g.worker_selector "segments"
          ∷ validate_resource_quantity quantities m.cpu "masterAndStandby" "cpu"
          ∷ validate_resource_quantity quantities g.cpu "segments" "cpu"
          ∷ validate_resource_quantity quantities m.memory "masterAndStandby" "memory"
          ∷ validate_resource_quantity quantities g.memory "segments" "memory"
          ∷ validate_resource_quantity quantities m.storage "masterAndStandby" "storage"
          ∷ validate_resource_quantity quantities g.storage "segments" "storage"
          ∷ [])

    unfoldable pub validate_create_greenplum_cluster : GreenplumCluster Q → Verdict
    unfolding validate_defaulted
    validate_create_greenplum_cluster c =
        validate_defaulted (set_default_greenplum_cluster_values c)
