-- ===== src/Instance/Database/Daemon.antt =====
-- startContainerUtils/cluster_init_daemon.go
pub mod Steps
use greenplum_for_kubernetes.Prelude.{Bool, true, false, List, [], ◌∷◌, if◌then◌else◌}
use greenplum_for_kubernetes.Prelude.Text.{String, ◌&◌, str_eq, trim_newline}
use greenplum_for_kubernetes.Prelude.Effects.{
  Error, Eff, Result, ok, err, pure, fail, attempt, ◌>>=◌, ◌>>◌,
}
use greenplum_for_kubernetes.Instance.Machine.{
  Machine, Call, Cmd, FileInfo, resolve, greenplum_command, plain_command, plain, do_run, do_output,
  do_stat, foreach_or_fail, append,
}
use greenplum_for_kubernetes.Instance.Config.{Parsers, ConfigValues, get_config_values}
use greenplum_for_kubernetes.Instance.Hosts.{generate_host_list}
use greenplum_for_kubernetes.Instance.KnownHosts.{Keys, scan_host_keys}
use greenplum_for_kubernetes.Instance.Database.Cluster.{
  ErrorTests, initialize, gp_start, run_post_initialization,
}

-- What NewPostgresInitializer picks by the host's name, with the data directory.
pub data PostgresInitializer : Type 0 where
  master_initializer segment_initializer : (data_dir : String) → PostgresInitializer

unfoldable pub new_postgres_initializer : String → PostgresInitializer
new_postgres_initializer hostname =
    if str_eq hostname "master-0"
    then master_initializer "/greenplum/data-1"
    else if str_eq hostname "master-1"
    then segment_initializer "/greenplum/data-1"
    else segment_initializer "/greenplum/data"

abbrev pub pg_ctl_command : String → Cmd
pg_ctl_command data_dir = greenplum_command (
    "/usr/local/greenplum-db/bin/pg_ctl"
    ∷ "-D"
    ∷ data_dir
    ∷ "-l"
    ∷ (data_dir & "/pg_log/startup.log")
    ∷ "restart"
    ∷ [])

abbrev pub is_ok : {A : Type 0} → Result A → Bool
is_ok (ok _) = true
is_ok (err _) = false

module _ {K : Type 0} (m : Machine K) (parsers : Parsers) (keys : Keys K) (tests : ErrorTests) where
  abbrev report_write : Result (Unit {0}) → Eff Call (Unit {0})
  report_write (ok _) = pure tt
  report_write (err e) = fail (plain ("failed to write known_hosts file: " & e.message))

  abbrev append_keys : Result String → Eff Call (Unit {0})
  append_keys (err e) = fail (plain ("failed to scan segment host keys: " & e.message))
  append_keys (ok text) = do
    written ← attempt (append m "/home/gpadmin/.ssh" "/home/gpadmin/.ssh/known_hosts" text)
    report_write written

  unfoldable pub setup_passwordless_ssh : List String → Eff Call (Unit {0})
  setup_passwordless_ssh hosts = do
    scanned ← attempt (scan_host_keys m keys hosts)
    append_keys scanned

  unfoldable pub check_preinitialized_cluster : String → Eff Call Bool
  check_preinitialized_cluster data_dir = do info ← attempt (do_stat m data_dir); pure (is_ok info)

  unfoldable pub check_and_run_gp_start : Bool → Eff Call (Unit {0})
  check_and_run_gp_start true = pure tt
  check_and_run_gp_start false = gp_start m parsers tests

  abbrev pub start_or_initialize : (initialized standby : Bool) → Eff Call (Unit {0})
  start_or_initialize true standby = check_and_run_gp_start standby
  start_or_initialize false standby = initialize m parsers tests

  -- masterPostgresInitializer.InitializePostgres
  unfoldable pub initialize_master : String → Eff Call (Unit {0})
  unfolding setup_passwordless_ssh check_preinitialized_cluster check_and_run_gp_start
  initialize_master data_dir = do
    domain ← do_output m (plain_command ("dnsdomainname" ∷ []))
    config ← get_config_values m parsers
    let hosts =
        generate_host_list config.segment_count config.mirrors config.standby
          ("." & trim_newline domain)
    foreach_or_fail m resolve hosts "failed to resolve dns entries for all masters and segments"
    setup_passwordless_ssh hosts
    initialized ← check_preinitialized_cluster data_dir
    start_or_initialize initialized config.standby
    run_post_initialization m parsers tests

  abbrev report_restart : Result (Unit {0}) → Eff Call (Unit {0})
  report_restart (ok _) = pure tt
  report_restart (err _) = fail (plain "pg_ctl failed to restart")

  unfoldable pub pg_ctl_restart : String → Eff Call (Unit {0})
  pg_ctl_restart data_dir = do
    ended ← attempt (do_run m (pg_ctl_command data_dir))
    report_restart ended

  abbrev restart_if : Bool → String → Eff Call (Unit {0})
  restart_if true data_dir = pg_ctl_restart data_dir
  restart_if false data_dir = pure tt

  -- segmentPostgresInitializer.InitializePostgres
  unfoldable pub initialize_segment : String → Eff Call (Unit {0})
  unfolding pg_ctl_restart
  initialize_segment data_dir = do
    initialized ← check_preinitialized_cluster data_dir
    restart_if initialized data_dir

  abbrev initialize_by : PostgresInitializer → Eff Call (Unit {0})
  initialize_by (master_initializer data_dir) = initialize_master data_dir
  initialize_by (segment_initializer data_dir) = initialize_segment data_dir

  -- InitializeCluster, given what the host's name was found to be.
  unfoldable pub initialize_cluster : Result String → Eff Call (Unit {0})
  unfolding new_postgres_initializer
  initialize_cluster (err e) = fail e
  initialize_cluster (ok hostname) = initialize_by (new_postgres_initializer hostname)
