-- ===== src/Instance/Expand.antt =====
-- greenplum-instance/cmd/runGpexpand: the configuration of gpexpand, and the run of it.
pub mod Generate
pub mod Layout
pub mod Run
pub mod Main
use greenplum_for_kubernetes.Prelude.{ℕ, zero, suc, Bool, true, false, List, [], ◌∷◌, if◌then◌else◌}
use greenplum_for_kubernetes.Prelude.Int.{ℤ, pos, leb_ℤ, suc_ℤ, rounds}
use greenplum_for_kubernetes.Prelude.Text.{String, ◌&◌, show_ℤ, trim_space}
use greenplum_for_kubernetes.Prelude.Effects.{
  Error, Eff, Result, ok, err, pure, fail, attempt, ◌>>=◌, ◌>>◌,
}
use greenplum_for_kubernetes.Instance.Machine.{
  Machine, Call, Operation, resolve, wait_for_known_host, ssh_execute, greenplum_command,
  plain_command, plain, do_output, do_run, do_read_file, do_write_file, foreach_or_fail,
}
use greenplum_for_kubernetes.Instance.Config.{Parsers}
use greenplum_for_kubernetes.Instance.Hosts.{generate_host_list}

-- A line of the configuration, gpexpandFmt.
abbrev pub expand_line :
    (kind : String) (i : ℤ) (namespace : String) (port : ℤ) (dir : String) (dbid content : ℤ)
    (role : String)
    → String
expand_line kind i namespace port dir dbid content role =
    kind
    & "-"
    & show_ℤ i
    & ".agent."
    & namespace
    & ".svc.cluster.local|"
    & kind
    & "-"
    & show_ℤ i
    & "|"
    & show_ℤ port
    & "|"
    & dir
    & "|"
    & show_ℤ dbid
    & "|"
    & show_ℤ content
    & "|"
    & role
    & "\n"

abbrev pub primary_line : String → ℤ → ℤ → ℤ → String
primary_line namespace i dbid content =
    expand_line "segment-a" i namespace (pos 40000) "/greenplum/data" dbid content "p"

abbrev pub mirror_line : String → ℤ → ℤ → ℤ → String
mirror_line namespace i dbid content =
    expand_line "segment-b" i namespace (pos 50000) "/greenplum/mirror/data" dbid content "m"

-- The loop with `n` rounds left, at segment `i`, with the dbid and the content id given out last
-- and the text built so far.
unfoldable pub expand_lines :
    (n : ℕ) (is_mirrored : Bool) (namespace : String) (i dbid content : ℤ) (out : String) → String
expand_lines zero is_mirrored namespace i dbid content out = out
expand_lines (suc n) true namespace i dbid content out =
    expand_lines n true namespace (suc_ℤ i) (suc_ℤ (suc_ℤ dbid)) (suc_ℤ content) (
      (out & primary_line namespace i (suc_ℤ dbid) (suc_ℤ content))
      & mirror_line namespace i (suc_ℤ (suc_ℤ dbid)) (suc_ℤ content))
expand_lines (suc n) false namespace i dbid content out =
    expand_lines n false namespace (suc_ℤ i) (suc_ℤ dbid) (suc_ℤ content)
      (out & primary_line namespace i (suc_ℤ dbid) (suc_ℤ content))

pub record GenerateGpexpandConfigParams : Type 0 where
  pub old_segment_count : ℤ
  pub new_segment_count : ℤ
  pub is_mirrored : Bool

abbrev pub expand_config : GenerateGpexpandConfigParams → ℤ → ℤ → String → String
expand_config p max_dbid max_content_id namespace =
    expand_lines (rounds p.old_segment_count p.new_segment_count) p.is_mirrored namespace
      p.old_segment_count max_dbid max_content_id ""

module _ {K : Type 0} (m : Machine K) (parsers : Parsers) where
  abbrev lift : {A : Type 0} → Result A → Eff Call A
  lift r h = (r, h)

  -- A failing query loses its standard error here, which the code puts into the error's text.
  unfoldable pub exec_psql_query_and_return_int : String → Eff Call ℤ
  exec_psql_query_and_return_int query = do
    out ← do_output m (
        greenplum_command
          ("/usr/local/greenplum-db/bin/psql" ∷ "-U" ∷ "gpadmin" ∷ "-tAc" ∷ query ∷ []))
    lift (parsers.atoi (trim_space out))

  unfoldable pub generate_config :
      GenerateGpexpandConfigParams → ℤ → ℤ → String → Eff Call (Unit {0})
  generate_config p max_dbid max_content_id namespace =
      let write =
        do_write_file m "/tmp/gpexpand_config"
          (expand_config p max_dbid max_content_id namespace) in
      if leb_ℤ p.new_segment_count p.old_segment_count
      then fail (plain "newSegmentCount cannot be less than or equal to OldSegmentCount")
      else write

  -- GenerateGpexpandConfigParams.Run
  unfoldable pub run_generate : GenerateGpexpandConfigParams → Eff Call (Unit {0})
  unfolding exec_psql_query_and_return_int generate_config
  run_generate p =
      let go = (do
        max_dbid ← exec_psql_query_and_return_int "SELECT MAX(dbid) FROM gp_segment_configuration"
        max_content_id ←
            exec_psql_query_and_return_int "SELECT MAX(content) FROM gp_segment_configuration"
        namespace ← do_read_file m "/var/run/secrets/kubernetes.io/serviceaccount/namespace"
        generate_config p max_dbid max_content_id namespace) in
      if leb_ℤ p.new_segment_count (pos 0)
      then fail (plain "new segment count cannot be <= 0")
      else go

  abbrev pub gpexpand_command : List String
  gpexpand_command =
      "bash" ∷ "-c"
      ∷ "source /usr/local/greenplum-db/greenplum_path.sh && MASTER_DATA_DIRECTORY=/greenplum/data-1 gpexpand -i /tmp/gpexpand_config"
      ∷ []

  abbrev pub wait_command : ℤ → String
  wait_command n = "/tools/waitForKnownHosts --newPrimarySegmentCount " & show_ℤ n

  -- RunGpexpandConfig.Run of gpexpand/gpexpand.go, with the operations that main gives it.
  unfoldable pub run_gpexpand :
      (new_segment_count : ℤ) (mirrors standby : Bool) → Eff Call (Unit {0})
  run_gpexpand n mirrors standby = do
    let hosts = generate_host_list n mirrors standby ""
    foreach_or_fail m resolve hosts "failed to resolve DNS entries for all masters and segments"
    foreach_or_fail m wait_for_known_host hosts "timed out waiting for known_hosts on master"
    foreach_or_fail m (ssh_execute (wait_command n)) hosts
        "timed out waiting for known_hosts on all masters and segments"
    do_run m (plain_command gpexpand_command)
