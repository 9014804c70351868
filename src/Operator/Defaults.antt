-- ===== src/Operator/Defaults.antt =====
-- greenplum-operator/controllers/greenplumcluster/reconcile_defaults.go
use greenplum_for_kubernetes.Prelude.Text.{String, to_lower}
use greenplum_for_kubernetes.Api.Cluster.{GreenplumCluster}

-- SupportedGreenplumMajorVersion of greenplumcluster_controller.go
abbrev pub supported_greenplum_major_version : String
supported_greenplum_major_version = "6"

module _ {Q : Type 0} where
  unfoldable pub set_default_greenplum_cluster_values : GreenplumCluster Q → GreenplumCluster Q
  set_default_greenplum_cluster_values c =
      let s = c.spec in
      let m = s.master_and_standby in
      let g = s.segments in
      record c {
        spec = record s {
          master_and_standby = record m {
            pod = record (m.pod) { anti_affinity = to_lower m.pod.anti_affinity };
            standby = to_lower m.standby;
          };
          segments = record g {
            pod = record (g.pod) { anti_affinity = to_lower g.pod.anti_affinity };
            mirrors = to_lower g.mirrors;
          };
        };
      }
