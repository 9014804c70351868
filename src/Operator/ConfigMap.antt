-- ===== src/Operator/ConfigMap.antt =====
-- greenplum-operator/pkg/configmap/config_map.go. A nil map and an empty one are the same here.
use greenplum_for_kubernetes.Prelude.{Bool, true, false, [], ◌∷◌}
use greenplum_for_kubernetes.Prelude.Map.{Labels, insert_all}
use greenplum_for_kubernetes.Prelude.Text.{String, show_ℤ, str_eq}
use greenplum_for_kubernetes.Api.Cluster.{GreenplumCluster}

pub record ConfigMap : Type 0 where
  pub labels : Labels
  pub data_ : Labels

-- fmt.Sprint of a bool
abbrev pub show_bool : Bool → String
show_bool true = "true"
show_bool false = "false"

module _ {Q : Type 0} where
  abbrev pub config_data : GreenplumCluster Q → Labels
  config_data c =
      ("segmentCount", show_ℤ c.spec.segments.primary_segment_count)
      ∷ ("standby", show_bool (str_eq c.spec.master_and_standby.standby "yes"))
      ∷ ("mirrors", show_bool (str_eq c.spec.segments.mirrors "yes"))
      ∷ ("hostBasedAuthentication", c.spec.master_and_standby.host_based_authentication)
      ∷ ("GUCs", "gp_resource_manager = group\ngp_resource_group_memory_limit = 1.0")
      ∷ ("pxfServiceName", c.spec.pxf.service_name)
      ∷ []

  unfoldable pub modify_config_map : GreenplumCluster Q → ConfigMap → ConfigMap
  modify_config_map c m = record {
    labels = insert_all (("app", "greenplum") ∷ ("greenplum-cluster", c.name) ∷ []) m.labels;
    data_ = config_data c;
  }
