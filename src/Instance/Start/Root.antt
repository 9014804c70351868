-- ===== src/Instance/Start/Root.antt =====
-- root_container_starter.go: what the container's root does before anything else.
pub mod Keys
use greenplum_for_kubernetes.Prelude.{◌∷◌, List, []}
use greenplum_for_kubernetes.Prelude.Int.{ℤ}
use greenplum_for_kubernetes.Prelude.Text.{String}
use greenplum_for_kubernetes.Prelude.Effects.{
  Eff, Result, ok, err, pure, attempt, wrapping, ◌>>=◌, ◌>>◌,
}
use greenplum_for_kubernetes.Instance.Machine.{
  Machine, Call, Cmd, FileInfo, do_lstat, do_mkdir_all, do_run, plain_command,
}
use greenplum_for_kubernetes.Instance.Files.{copy_file, change_directory_owner}
use greenplum_for_kubernetes.Instance.Start.Cgroup.{create_gpdb_cgroup}
use greenplum_for_kubernetes.Instance.Start.SubDomain.{add_sub_domain}

abbrev pub host_key_path : String
host_key_path = "/greenplum/hostKeyDir/ssh_host_rsa_key"

abbrev pub keygen_command : Cmd
keygen_command =
    plain_command ("/usr/bin/ssh-keygen" ∷ "-t" ∷ "rsa" ∷ "-f" ∷ host_key_path ∷ "-N" ∷ "" ∷ [])

module _ {K : Type 0} (m : Machine K) where
  -- Only where the key is not there.
  abbrev pub generate_unless : Result FileInfo → Eff Call (Unit {0})
  generate_unless (ok _) = pure tt
  generate_unless (err _) = do
    made ← attempt (do_mkdir_all m "/greenplum/hostKeyDir")
    wrapping "failed to generate SSH host key at /greenplum/hostKeyDir/ssh_host_rsa_key "
        (do_run m keygen_command)

  unfoldable pub setup_ssh_host_keys : Eff Call (Unit {0})
  unfolding copy_file
  setup_ssh_host_keys = do
    info ← attempt (do_lstat m host_key_path)
    generate_unless info
    wrapping "failed to copy SSH host key to /etc/ssh/ssh_host_rsa_key"
        (copy_file m host_key_path "/etc/ssh/ssh_host_rsa_key")

  module _ (atoi : String → Result ℤ) (scanned : List Call → String → List String) where
    unfoldable pub chown_greenplum_dir : Eff Call (Unit {0})
    unfolding change_directory_owner
    chown_greenplum_dir =
        wrapping "changing ownership of /greenplum dir to gpadmin failed"
          (change_directory_owner m atoi "/greenplum" "gpadmin")

    -- RootContainerStarter.Run
    unfoldable pub run_root : Eff Call (Unit {0})
    unfolding create_gpdb_cgroup chown_greenplum_dir setup_ssh_host_keys add_sub_domain
    run_root =
        create_gpdb_cgroup m scanned
        >> chown_greenplum_dir
        >> setup_ssh_host_keys
        >> add_sub_domain m
