-- ===== src/Operator/StatefulSet.antt =====
-- greenplum-operator/pkg/sset/sset.go: what is asked of a StatefulSet.
pub mod Modify
use greenplum_for_kubernetes.Prelude.{if◌then◌else◌}
use greenplum_for_kubernetes.Prelude.Int.{ℤ, pos}
use greenplum_for_kubernetes.Prelude.Text.{String, str_eq}
use greenplum_for_kubernetes.Api.Cluster.{GreenplumCluster, GreenplumPodSpec}

pub data StatefulSetType : Type 0 where
  type_master type_segment_a type_segment_b : StatefulSetType

pub record GreenplumStatefulSetParams (Q : Type 0) : Type 0 where
  pub type : StatefulSetType
  pub cluster_name : String
  pub replicas : ℤ
  pub instance_image : String
  pub gp_pod_spec : GreenplumPodSpec Q

module _ {Q : Type 0} where
  -- GenerateStatefulSetParams
  unfoldable pub generate_stateful_set_params :
      StatefulSetType → GreenplumCluster Q → String → GreenplumStatefulSetParams Q
  generate_stateful_set_params type_master c image = record {
    type = type_master;
    cluster_name = c.name;
    replicas = if str_eq c.spec.master_and_standby.standby "yes" then pos 2 else pos 1;
    instance_image = image;
    gp_pod_spec = c.spec.master_and_standby.pod;
  }
  generate_stateful_set_params type c image = record {
    type = type;
    cluster_name = c.name;
    replicas = c.spec.segments.primary_segment_count;
    instance_image = image;
    gp_pod_spec = c.spec.segments.pod;
  }
