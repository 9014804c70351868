-- ===== src/Instance/KeyScan.antt =====
-- greenplum-instance/cmd/sshKeyScan/main.go: the keys of all hosts of the cluster.
use greenplum_for_kubernetes.Prelude.{[], ◌∷◌, ℕ}
use greenplum_for_kubernetes.Prelude.Text.{String, ◌&◌, trim_newline}
use greenplum_for_kubernetes.Prelude.Effects.{
  Eff, Result, ok, err, pure, fail, attempt, wrapping, ◌>>=◌,
}
use greenplum_for_kubernetes.Instance.Machine.{
  Machine, Call, plain, plain_command, do_output, append,
}
use greenplum_for_kubernetes.Instance.Config.{Parsers, get_config_values}
use greenplum_for_kubernetes.Instance.Hosts.{generate_host_list}
use greenplum_for_kubernetes.Instance.KnownHosts.{Keys, known_hosts_filename, scan_host_keys}

module _ {K : Type 0} (m : Machine K) (parsers : Parsers) (keys : Keys K) where
  abbrev suffix_of : Result String → Eff Call String
  suffix_of (ok out) = pure ("." & trim_newline out)
  suffix_of (err e) = fail (
      plain
        "scanning for segment host keys: dnsdomainname failed to determine this host's dns name")

  unfoldable pub scan_segment_host_keys : Eff Call (Unit {0})
  unfolding get_config_values scan_host_keys append
  scan_segment_host_keys = do
    out ← attempt (do_output m (plain_command ("dnsdomainname" ∷ [])))
    dns_suffix ← suffix_of out
    config ← get_config_values m parsers
    text ←
        scan_host_keys m keys
          (generate_host_list config.segment_count config.mirrors config.standby dns_suffix)
    wrapping ("failed to append known hosts to file: " & known_hosts_filename)
        (append m "/home/gpadmin/.ssh" known_hosts_filename text)

  abbrev status_of : Result (Unit {0}) → Eff Call ℕ
  status_of (ok _) = pure 0
  status_of (err _) = pure 1

  -- KeyScanApp.Run, which gives the exit status.
  unfoldable pub run_key_scan : Eff Call ℕ
  unfolding scan_segment_host_keys
  run_key_scan = do result ← attempt scan_segment_host_keys; status_of result
