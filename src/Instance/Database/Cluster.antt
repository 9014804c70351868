-- ===== src/Instance/Database/Cluster.antt =====
-- startContainerUtils/cluster/cluster.go. Its reader of the configuration and its gpinitsystem are
-- the ones that the container starter gives it.
pub mod Order
use greenplum_for_kubernetes.Prelude.{Bool, true, false, List, [], ◌∷◌, not, ltb, if◌then◌else◌}
use greenplum_for_kubernetes.Prelude.Text.{String, ◌&◌, str_eq}
use greenplum_for_kubernetes.Prelude.Effects.{
  Error, Eff, Result, ok, err, wrapping, pure, fail, attempt, ◌>>=◌, ◌>>◌,
}
use greenplum_for_kubernetes.Instance.Machine.{
  Machine, Call, FileInfo, Cmd, greenplum_command, plain_command, plain, do_run, do_stat, do_lstat,
}
use greenplum_for_kubernetes.Instance.Config.{Parsers, get_standby, get_pxf_service_name}
use greenplum_for_kubernetes.Instance.Database.InitSystem.{generate_config, run_gp_init_system}

abbrev pub create_db_command : Cmd
create_db_command = greenplum_command ("/usr/local/greenplum-db/bin/createdb" ∷ [])

abbrev pub gp_start_command : Cmd
gp_start_command = greenplum_command ("/usr/local/greenplum-db/bin/gpstart" ∷ "-am" ∷ [])

abbrev pub gp_restart_command : Cmd
gp_restart_command = greenplum_command ("/usr/local/greenplum-db/bin/gpstop" ∷ "-ar" ∷ [])

abbrev pub probe_command : Cmd
probe_command = greenplum_command (
    "/usr/local/greenplum-db/bin/psql" ∷ "-U" ∷ "gpadmin" ∷ "-c"
    ∷ "select * from gp_segment_configuration" ∷ [])

abbrev pub reload_command : Cmd
reload_command = greenplum_command ("/usr/local/greenplum-db/bin/gpstop" ∷ "-u" ∷ [])

abbrev pub create_extension_command : String → Cmd
create_extension_command extension = greenplum_command (
    "/usr/local/greenplum-db/bin/psql"
    ∷ "-U"
    ∷ "gpadmin"
    ∷ "-d"
    ∷ "gpadmin"
    ∷ "-c"
    ∷ ("CREATE EXTENSION IF NOT EXISTS " & extension)
    ∷ [])

abbrev pub hba_source : String
hba_source = "/etc/config/hostBasedAuthentication"

abbrev pub append_hba_command : String → Cmd
append_hba_command host =
    plain_command
      ("/usr/bin/ssh" ∷ host ∷ "cat" ∷ hba_source ∷ ">>" ∷ "/greenplum/data-1/pg_hba.conf" ∷ [])

-- What the code asks of an error: whether it is an *os.PathError, and whether the error that one
-- wraps is os.ErrNotExist itself.
pub record ErrorTests : Type 0 where
  pub is_path_error : Error → Bool
  pub wraps_err_not_exist : Error → Bool

module _ {K : Type 0} (m : Machine K) (parsers : Parsers) (tests : ErrorTests) where
  abbrev content_of : Result FileInfo → Eff Call Bool
  content_of (err e) = if tests.wraps_err_not_exist e then pure false else fail e
  content_of (ok info) =
      if info.is_dir then fail (plain "invalid argument") else pure (ltb 0 info.size)

  -- HasContent of pkg/fileutil/has_content.go
  unfoldable pub has_content : String → Eff Call Bool
  has_content source = do info ← attempt (do_lstat m source); content_of info

  abbrev append_hba : Bool → String → Eff Call (Unit {0})
  append_hba true host =
      wrapping
        ("Attempting to append from '" & hba_source & "' to end of /greenplum/data-1/pg_hba.conf")
        (do_run m (append_hba_command host))
  append_hba false host = pure tt

  unfoldable pub add_host_based_authentication : String → Eff Call (Unit {0})
  unfolding has_content
  add_host_based_authentication host = do
    content ←
        wrapping ("verifying if " & hba_source & " has any content failed") (has_content hba_source)
    append_hba content host

  abbrev also_standby : Bool → Eff Call (Unit {0})
  also_standby true =
      wrapping "adding host-based authentication failed" (add_host_based_authentication "master-1")
  also_standby false = pure tt

  unfoldable pub add_master_and_standby_host_based_authentication : Eff Call (Unit {0})
  add_master_and_standby_host_based_authentication = do
    wrapping "adding host-based authentication failed" (add_host_based_authentication "master-0")
    standby ← wrapping "reading standby failed" (get_standby m parsers)
    also_standby standby

  abbrev pub has_no_data : Result FileInfo → Bool
  has_no_data (ok _) = false
  has_no_data (err e) = tests.is_path_error e

  abbrev set_up : Result FileInfo → Eff Call (Unit {0})
  set_up data_dir =
      let go = (do
        wrapping "gpinitsystem config failed" (generate_config m parsers)
        wrapping "gpinitsystem failed" (run_gp_init_system m parsers)
        wrapping "createdb failed" (do_run m create_db_command)
        add_master_and_standby_host_based_authentication) in
      if not (has_no_data data_dir)
      then fail (plain "master data directory already exists at /greenplum/data-1")
      else go

  unfoldable pub initialize : Eff Call (Unit {0})
  initialize = do data_dir ← attempt (do_stat m "/greenplum/data-1"); set_up data_dir

  unfoldable pub gp_start : Eff Call (Unit {0})
  gp_start = do
    wrapping "gpstart in maintenance mode failed" (do_run m gp_start_command)
    wrapping "restart segments failed" (do_run m gp_restart_command)

  unfoldable pub create_pxf_extension : Eff Call (Unit {0})
  create_pxf_extension = do
    service ← get_pxf_service_name m parsers
    let create = do_run m (create_extension_command "pxf")
    if not (str_eq service "") then create else pure tt

  abbrev after_probe : Result (Unit {0}) → Eff Call (Unit {0})
  after_probe (err _) = pure tt
  after_probe (ok _) = do
    wrapping "gpstop failed" (do_run m reload_command)
    wrapping "createPXFExtension failed" create_pxf_extension

  unfoldable pub run_post_initialization : Eff Call (Unit {0})
  unfolding create_pxf_extension
  run_post_initialization = do probed ← attempt (do_run m probe_command); after_probe probed
