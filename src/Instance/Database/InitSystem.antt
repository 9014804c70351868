-- ===== src/Instance/Database/InitSystem.antt =====
-- startContainerUtils/cluster/gpinitsystem_config.go
pub mod Layout
use greenplum_for_kubernetes.Prelude.{
  ℕ, zero, suc, ◌+◌, Bool, true, false, List, [], ◌∷◌, ◌++◌, if◌then◌else◌,
}
use greenplum_for_kubernetes.Prelude.Int.{ℤ, pos, rounds}
use greenplum_for_kubernetes.Prelude.Text.{String, ◌&◌, show, str_eq, trim_newline}
use greenplum_for_kubernetes.Prelude.Effects.{
  Error, Eff, Result, ok, err, wrap, wrapping, pure, fail, attempt, ◌>>=◌, ◌>>◌,
}
use greenplum_for_kubernetes.Instance.Machine.{
  Machine, Call, FileInfo, greenplum_command, plain_command, do_output, do_run, do_lstat,
  do_open_file, do_write, do_close,
}
use greenplum_for_kubernetes.Instance.Config.{Parsers, get_segment_count, get_mirrors, get_standby}

abbrev pub gpinitsystem_config_path : String
gpinitsystem_config_path = "/home/gpadmin/gpinitsystem_config"

abbrev pub primary_entry : (segment : ℕ) → String → (dbid : ℕ) → String
primary_entry segment subdomain dbid =
    "segment-a-"
    & show segment
    & "."
    & subdomain
    & "~40000~/greenplum/data~"
    & show dbid
    & "~"
    & show segment
    & "\n"

abbrev pub mirror_entry : (segment : ℕ) → String → (dbid : ℕ) → String
mirror_entry segment subdomain dbid =
    "segment-b-"
    & show segment
    & "."
    & subdomain
    & "~50000~/greenplum/mirror/data~"
    & show dbid
    & "~"
    & show segment
    & "\n"

-- The two loops: the text written so far and the next dbid, with `n` rounds left.
unfoldable pub write_entries :
    (ℕ → String → ℕ → String) → (n segment : ℕ) → String → (dbid : ℕ) → (out : String) → String × ℕ
write_entries entry zero segment subdomain dbid out = (out, dbid)
write_entries entry (suc n) segment subdomain dbid out =
    write_entries entry n (suc segment) subdomain (dbid + 1) (out & entry segment subdomain dbid)

abbrev with_mirrors : Bool → (n : ℕ) → String → String × ℕ → String
with_mirrors false n subdomain (out, dbid) = out
with_mirrors true n subdomain (out, dbid) =
    (write_entries mirror_entry n 0 subdomain dbid (out & "declare -a MIRROR_ARRAY=(\n")).0 & ")\n"

-- The text of the file.
unfoldable pub config_text : (segment_count : ℤ) (use_mirrors : Bool) (subdomain : String) → String
unfolding write_entries
config_text segment_count use_mirrors subdomain =
    let n = rounds (pos 0) segment_count in
    let head =
      ("QD_PRIMARY_ARRAY=master-0." & subdomain & "~5432~/greenplum/data-1~" & show 1 & "~-1~0\n")
      & "declare -a PRIMARY_ARRAY=(\n" in
    let (out, dbid) = write_entries primary_entry n 0 subdomain 2 head in
    with_mirrors use_mirrors n subdomain (out & ")\n", dbid) & "HBA_HOSTNAMES=1\n"

module _ {K : Type 0} (m : Machine K) (parsers : Parsers) where
  -- The errors of the writes are not looked at.
  unfoldable pub generate_config : Eff Call (Unit {0})
  generate_config = do
    segment_count ← get_segment_count m parsers
    use_mirrors ← get_mirrors m parsers
    output ←
        wrapping "dnsdomainname failed to determine this host's dns name"
          (do_output m (plain_command ("dnsdomainname" ∷ [])))
    do_open_file m gpinitsystem_config_path
    written ← attempt (
        do_write m gpinitsystem_config_path
          (config_text segment_count use_mirrors (trim_newline output)))
    do_close m gpinitsystem_config_path

  abbrev standby_args : Bool → String → List String
  standby_args true dns_suffix = "-s" ∷ ("master-1." & dns_suffix) ∷ []
  standby_args false dns_suffix = []

  abbrev guc_args : Result FileInfo → List String
  guc_args (ok _) = "-p" ∷ "/etc/config/GUCs" ∷ []
  guc_args (err _) = []

  -- gpinitsystem ends with status 1 where it only warned.
  abbrev pub tolerate : Result (Unit {0}) → Eff Call (Unit {0})
  tolerate (ok _) = pure tt
  tolerate (err e) =
      if str_eq e.message "exit status 1" then pure tt else fail (wrap "gpinitsystem failed" e)

  abbrev pub gpinitsystem_args : Bool → String → Result FileInfo → List String
  gpinitsystem_args standby dns_suffix gucs =
      "/usr/local/greenplum-db/bin/gpinitsystem"
      ∷ "-a"
      ∷ "-I"
      ∷ gpinitsystem_config_path
      ∷ (standby_args standby dns_suffix ++ guc_args gucs)

  -- Run
  unfoldable pub run_gp_init_system : Eff Call (Unit {0})
  run_gp_init_system = do
    output ←
        wrapping "dnsdomainname failed to determine this host's dns name"
          (do_output m (plain_command ("dnsdomainname" ∷ [])))
    standby ← get_standby m parsers
    gucs ← attempt (do_lstat m "/etc/config/GUCs")
    ended ←
        attempt
          (do_run m (greenplum_command (gpinitsystem_args standby (trim_newline output) gucs)))
    tolerate ended
