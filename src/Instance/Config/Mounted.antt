-- ===== src/Instance/Config/Mounted.antt =====
-- The config map that the operator writes, read back in the pod where it is mounted.
use greenplum_for_kubernetes.Prelude.{◌≡◌, false, List, ◌∷◌, refl, Bool, All}
use greenplum_for_kubernetes.Prelude.Int.{pos, leb_ℤ}
use greenplum_for_kubernetes.Prelude.Text.{◌&◌, show_ℤ, str_eq}
use greenplum_for_kubernetes.Prelude.Effects.{ok}
use greenplum_for_kubernetes.Api.Cluster.{GreenplumCluster}
use greenplum_for_kubernetes.Operator.ConfigMap.{ConfigMap, show_bool, modify_config_map}
use greenplum_for_kubernetes.Instance.Machine.{Machine, Call, read_file}
use greenplum_for_kubernetes.Instance.Config.{
  Parsers, ConfigValues, read_int, read_bool, read_string_helper, get_config_values,
}

module _ {K Q : Type 0} (m : Machine K) (parsers : Parsers) (c : GreenplumCluster Q)
    (old : ConfigMap) where
  -- The entries of the config map are files of the pod, and so are the pod's namespace and label.
  pub record Mounted : Type 0 where
    pub config :
        (h : List Call)
        → All
            (λ entry. m.read_file h ("/etc/config/" & entry.0) ≡ ok entry.1)
            (modify_config_map c old).data_
    pub namespace : (h : List Call) → m.read_file h "/etc/podinfo/namespace" ≡ ok c.namespace
    pub name : (h : List Call) → m.read_file h "/etc/podinfo/greenplumClusterName" ≡ ok c.name

  -- The parsers read back the number of primaries and the Booleans, as they were printed.
  pub record ParsePrinted : Type 0 where
    pub count :
        parsers.atoi (show_ℤ c.spec.segments.primary_segment_count)
        ≡ ok c.spec.segments.primary_segment_count
    pub bool : (b : Bool) → parsers.parse_bool (show_bool b) ≡ ok b

  -- What the cluster asks for, as the pod's programs see it.
  abbrev pub values_of : ConfigValues
  values_of = record {
    namespace = c.namespace;
    greenplum_cluster_name = c.name;
    segment_count = c.spec.segments.primary_segment_count;
    mirrors = str_eq c.spec.segments.mirrors "yes";
    standby = str_eq c.spec.master_and_standby.standby "yes";
    pxf_service_name = c.spec.pxf.service_name;
  }

  -- In a pod where the config map is mounted as the operator wrote it for a cluster with at least
  -- one primary, whatever the map held before, and where the parsers read back that number and
  -- Booleans, reading the configuration gives the cluster's own values.
  pub get_config_values-modify_config_map :
      Mounted
      → ParsePrinted
      → leb_ℤ c.spec.segments.primary_segment_count (pos 0) ≡ false
      → (h : List Call) → (get_config_values m parsers h).0 ≡ ok values_of
  unfolding get_config_values read_int read_bool read_string_helper modify_config_map
  get_config_values-modify_config_map mounted parse positive h =
      let count = c.spec.segments.primary_segment_count in
      let mirrors = str_eq c.spec.segments.mirrors "yes" in
      let standby = str_eq c.spec.master_and_standby.standby "yes" in
      let h1 = read_file "/etc/podinfo/namespace" ∷ h in
      let h2 = read_file "/etc/podinfo/greenplumClusterName" ∷ h1 in
      let h3 = read_file "/etc/config/segmentCount" ∷ h2 in
      let h4 = read_file "/etc/config/mirrors" ∷ h3 in
      let h5 = read_file "/etc/config/standby" ∷ h4 in
      let (e1, _) = mounted.config h2 in
      let (_, (_, (e2, _))) = mounted.config h3 in
      let (_, (e3, _)) = mounted.config h4 in
      let (_, (_, (_, (_, (_, (e4, _)))))) = mounted.config h5 in
      rw
        (
          mounted.namespace h,
          mounted.name h1,
          e1,
          parse.count,
          positive,
          e2,
          parse.bool mirrors,
          e3,
          parse.bool standby,
          e4,
        )
        refl
