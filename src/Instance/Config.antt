-- ===== src/Instance/Config.antt =====
-- pkg/instanceconfig/reader.go
pub mod Mounted
use greenplum_for_kubernetes.Prelude.{Bool, true, false, not, ◌&&◌, if◌then◌else◌}
use greenplum_for_kubernetes.Prelude.Int.{ℤ, pos, leb_ℤ}
use greenplum_for_kubernetes.Prelude.Text.{String, ◌&◌}
use greenplum_for_kubernetes.Prelude.Effects.{Eff, Result, ok, err, pure, fail, attempt, ◌>>=◌}
use greenplum_for_kubernetes.Instance.Machine.{Machine, Call, do_read_file, plain}

pub record ConfigValues : Type 0 where
  pub namespace : String
  pub greenplum_cluster_name : String
  pub segment_count : ℤ
  pub mirrors : Bool
  pub standby : Bool
  pub pxf_service_name : String

-- strconv.Atoi and strconv.ParseBool
pub record Parsers : Type 0 where
  pub atoi : String → Result ℤ
  pub parse_bool : String → Result Bool

abbrev config_map_path_prefix : String
config_map_path_prefix = "/etc/config/"

abbrev pod_info_path_prefix : String
pod_info_path_prefix = "/etc/podinfo/"

module _ {K : Type 0} (m : Machine K) (parsers : Parsers) where
  abbrev check_positive : String → Result ℤ → Eff Call ℤ
  check_positive key (err e) = fail e
  check_positive key (ok value) =
      if leb_ℤ value (pos 0) then fail (plain (key & " must be > 0")) else pure value

  unfoldable pub read_int : String → String → Eff Call ℤ
  read_int prefix key = do
    text ← do_read_file m (prefix & key)
    check_positive key (parsers.atoi text)

  abbrev check_bool : String → String → Result Bool → Eff Call Bool
  check_bool key text (err e) =
      fail (plain ("error parsing " & key & ", must be a boolean, got: " & text))
  check_bool key text (ok value) = pure value

  abbrev parse_read : String → Result String → Eff Call Bool
  parse_read key (err e) = fail (plain ("error reading " & key & ": " & e.message))
  parse_read key (ok text) = check_bool key text (parsers.parse_bool text)

  unfoldable pub read_bool : String → String → Eff Call Bool
  read_bool prefix key = do answer ← attempt (do_read_file m (prefix & key)); parse_read key answer

  abbrev pub or_empty : Bool → Result String → Eff Call String
  or_empty required (ok text) = pure text
  or_empty required (err e) = if not required && e.is_not_found then pure "" else fail e

  unfoldable pub read_string_helper : String → String → (required : Bool) → Eff Call String
  read_string_helper prefix key required = do
    answer ← attempt (do_read_file m (prefix & key))
    or_empty required answer

  abbrev pub get_namespace : Eff Call String
  get_namespace = read_string_helper pod_info_path_prefix "namespace" true

  abbrev pub get_greenplum_cluster_name : Eff Call String
  get_greenplum_cluster_name = read_string_helper pod_info_path_prefix "greenplumClusterName" true

  abbrev pub get_segment_count : Eff Call ℤ
  get_segment_count = read_int config_map_path_prefix "segmentCount"

  abbrev pub get_mirrors : Eff Call Bool
  get_mirrors = read_bool config_map_path_prefix "mirrors"

  abbrev pub get_standby : Eff Call Bool
  get_standby = read_bool config_map_path_prefix "standby"

  abbrev pub get_pxf_service_name : Eff Call String
  get_pxf_service_name = read_string_helper config_map_path_prefix "pxfServiceName" false

  unfoldable pub get_config_values : Eff Call ConfigValues
  get_config_values = do
    ns ← get_namespace
    name ← get_greenplum_cluster_name
    segments ← get_segment_count
    mirrors ← get_mirrors
    standby ← get_standby
    pxf ← get_pxf_service_name
    pure (record {
      namespace = ns;
      greenplum_cluster_name = name;
      segment_count = segments;
      mirrors = mirrors;
      standby = standby;
      pxf_service_name = pxf;
    })
