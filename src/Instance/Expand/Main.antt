-- ===== src/Instance/Expand/Main.antt =====
-- greenplum-instance/cmd/runGpexpand/main.go and cmd/waitForKnownHosts/main.go. Their exit status is
-- 1 where the model gives an error.
pub mod Expands
use greenplum_for_kubernetes.Prelude.{Bool}
use greenplum_for_kubernetes.Prelude.Int.{ℤ}
use greenplum_for_kubernetes.Prelude.Effects.{Eff, ◌>>=◌, ◌>>◌}
use greenplum_for_kubernetes.Instance.Machine.{Machine, Call, wait_for_known_host, foreach_or_fail}
use greenplum_for_kubernetes.Instance.Config.{Parsers, ConfigValues, get_config_values}
use greenplum_for_kubernetes.Instance.Hosts.{generate_host_list}
use greenplum_for_kubernetes.Instance.Expand.{
  GenerateGpexpandConfigParams, exec_psql_query_and_return_int, run_generate, run_gpexpand,
}

module _ {K : Type 0} (m : Machine K) (parsers : Parsers) where
  -- GetOldSegmentCount
  unfoldable pub get_old_segment_count : Eff Call ℤ
  unfolding exec_psql_query_and_return_int
  get_old_segment_count =
      exec_psql_query_and_return_int m parsers
        "SELECT COUNT(*) FROM gp_segment_configuration WHERE hostname LIKE 'segment-a%'"

  abbrev pub params : (old new : ℤ) → ConfigValues → GenerateGpexpandConfigParams
  params old new config = record {
    old_segment_count = old;
    new_segment_count = new;
    is_mirrored = config.mirrors;
  }

  -- The configuration and the run, once the old count and the mounted values are known.
  abbrev pub expand_with : (new old : ℤ) → ConfigValues → Eff Call (Unit {0})
  expand_with new old config =
      run_generate m parsers (params old new config)
      >> run_gpexpand m parsers new config.mirrors config.standby

  -- main of runGpexpand, with its flag.
  unfoldable pub run_gpexpand_main : (new_primary_segment_count : ℤ) → Eff Call (Unit {0})
  unfolding get_old_segment_count get_config_values run_generate run_gpexpand
  run_gpexpand_main new = do
    old ← get_old_segment_count
    config ← get_config_values m parsers
    expand_with new old config

  -- main of waitForKnownHosts, with its flag.
  unfoldable pub wait_for_known_hosts_main : (new_primary_segment_count : ℤ) → Eff Call (Unit {0})
  unfolding get_config_values foreach_or_fail
  wait_for_known_hosts_main new = do
    config ← get_config_values m parsers
    foreach_or_fail m wait_for_known_host (generate_host_list new config.mirrors config.standby "")
        ""
