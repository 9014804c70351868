-- ===== src/Tests/OfStart.antt =====
-- The start of a container, its daemons and PXF, on concrete answers.
use greenplum_for_kubernetes.Prelude.{
  if◌then◌else◌, ◌≡◌, ◌↔◌, ◌⊎◌, refl, inl, inr, ℕ, ◌≤◌, ◌<◌, ◌+◌, ◌*◌, none, some, true, false,
  List, [], ◌∷◌, map, In, All, length, pushed,
}
use greenplum_for_kubernetes.Prelude.Int.{pos}
use greenplum_for_kubernetes.Prelude.Text.{◌&◌, String, str_eq}
use greenplum_for_kubernetes.Prelude.Map.{lookup, insert}
use greenplum_for_kubernetes.Prelude.Effects.{Error, ok, err, call, fail}
use greenplum_for_kubernetes.Tests.Fixtures.{broken}
use greenplum_for_kubernetes.Tests.OfInstance.{machine}
use greenplum_for_kubernetes.Instance.Machine.{Call, Cmd, run, open_file, mkdir_all}
use greenplum_for_kubernetes.Instance.Multidaemon.{
  running, sending, System, initial, start, Reach, here, next, returns, tests,
}
use greenplum_for_kubernetes.Instance.Multidaemon.Invariant.{
  IsConsistent, InitializeDaemons-IsConsistent,
}
use greenplum_for_kubernetes.Instance.Multidaemon.Progress.{
  IsFinished, IsEnded, InitializeDaemons-completes,
}
use greenplum_for_kubernetes.Instance.Start.SubDomain.{sub_domain_text}
use greenplum_for_kubernetes.Instance.Start.SubDomain.Again.{sub_domain_text-idempotent}
use greenplum_for_kubernetes.Instance.Start.Cgroup.{create_gpdb_cgroup, install_command}
use greenplum_for_kubernetes.Instance.Start.Cgroup.Only.{
  group_lines, mount_lines, IsCgroupCommand, create_gpdb_cgroup-commands,
}
use greenplum_for_kubernetes.Instance.Start.Root.{
  host_key_path, keygen_command, setup_ssh_host_keys,
}
use greenplum_for_kubernetes.Instance.Start.Root.Keys.{setup_ssh_host_keys-keygen_iff}
use greenplum_for_kubernetes.Instance.Start.LabelPvc.{
  gp_version, get_pvc, new_client, read_namespace, hostname, get_pod, Answers, Pvc, Pod,
  run_label_pvc,
}
use greenplum_for_kubernetes.Instance.Start.LabelPvc.Claim.{IsOnlyClaim}
use greenplum_for_kubernetes.Instance.Start.LabelPvc.Version.{
  version_command, IsVersion, IsLabelled, run_label_pvc-IsLabelled,
}
use greenplum_for_kubernetes.Instance.Start.Container.{Starters, run_container}
use greenplum_for_kubernetes.Instance.Start.Container.Status.{sequence, run_container-zero_iff}
use greenplum_for_kubernetes.Instance.Pxf.{S3, ObjectInfo, list_objects, download_bucket_path}
use greenplum_for_kubernetes.Instance.Pxf.Download.{
  contents, fetches, IsWritten, download_bucket_path_complete,
}

-- Two daemons; the second fails, and has cancelled the context of the first.
abbrev daemons : List ℕ
daemons = 1 ∷ 2 ∷ []

abbrev failing : System
failing = record {
  is_signalled = false;
  is_watching = true;
  is_cancelled = true;
  daemons = running ∷ sending (some broken) ∷ [];
  rounds = 2;
  errs = [];
  has_returned = false;
}

failing-reached : Reach (initial (start daemons)) 2 failing
failing-reached =
    next (next here (returns (running ∷ []) [] (some broken) refl refl))
      (tests (running ∷ []) [] (some broken) refl refl)

InitializeDaemons-IsConsistent_example : IsConsistent failing
InitializeDaemons-IsConsistent_example = InitializeDaemons-IsConsistent daemons failing-reached

InitializeDaemons-completes_example :
    (2 ≤ 3 * length daemons + 3)
    × ((failing.has_returned ≡ false) ⊎ All IsFinished failing.daemons)
    × ((m : ℕ) × (t : System) × Reach failing m t × IsEnded t)
InitializeDaemons-completes_example = InitializeDaemons-completes daemons failing-reached

abbrev resolv_conf : String
resolv_conf = "nameserver 10.0.0.1\nsearch gp.svc.cluster.local svc.cluster.local\n"

sub_domain_text-idempotent_example :
    sub_domain_text (sub_domain_text resolv_conf) ≡ sub_domain_text resolv_conf
sub_domain_text-idempotent_example = sub_domain_text-idempotent resolv_conf

-- One control group's mount, and the pod's own groups.
abbrev scanned : List Call → String → List String
scanned h path =
    if str_eq path "/proc/mounts"
    then "cgroup /sys/fs/cgroup/cpu cgroup rw,cpu 0 0" ∷ []
    else "4:cpu:/pod" ∷ "3:blkio:/pod" ∷ []

abbrev install_cpu : Cmd
install_cpu = install_command "/sys/fs/cgroup/cpu/pod/gpdb"

installs : In (run install_cpu) (create_gpdb_cgroup machine scanned []).1
unfolding create_gpdb_cgroup lookup insert
installs = inr (inr (inl refl))

create_gpdb_cgroup-commands_example :
    In (run install_cpu) []
    ⊎ IsCgroupCommand (mount_lines machine scanned []) (group_lines machine scanned []) install_cpu
create_gpdb_cgroup-commands_example =
    create_gpdb_cgroup-commands machine scanned [] install_cpu installs

setup_ssh_host_keys-keygen_iff_example :
    In (run keygen_command) (setup_ssh_host_keys machine []).1
    ↔ (In (run keygen_command) [] ⊎ ((e : Error) × (machine.lstat [] host_key_path ≡ err e)))
setup_ssh_host_keys-keygen_iff_example = setup_ssh_host_keys-keygen_iff machine []

-- A pod of version 6 with a claim that has no label yet.
abbrev answers : Answers
answers = record {
  new_client = λ h. ok tt;
  read_namespace = λ h. ok "gp";
  hostname = λ h. ok "segment-a-0";
  get_pod = λ h ns name. ok (record {
    volumes = record { claim_name = none } ∷ record { claim_name = some "pgdata-segment-a-0" } ∷ [];
  });
  gp_version = λ h c. ok "postgres (Greenplum Database) 6.10.1 build commit:ab";
  exit_stderr = λ e. none;
  get_pvc = λ h ns name. ok (record { labels = [] });
  patch_pvc = λ h ns name old changed. ok changed;
  match_version = λ out. some "6.10.1";
  major = λ v. some "6";
}

labels_pvc : (run_label_pvc answers []).0 ≡ ok tt
unfolding run_label_pvc lookup insert
labels_pvc = refl

run_label_pvc-IsLabelled_example :
    (namespace host name version : String) × (pod : Pod) × (pvc : Pvc) × (answers.read_namespace
        (new_client ∷ [])
      ≡ ok namespace)
    × (answers.hostname (read_namespace ∷ new_client ∷ []) ≡ ok host)
    × (answers.get_pod (hostname ∷ read_namespace ∷ new_client ∷ []) namespace host ≡ ok pod)
    × IsOnlyClaim pod.volumes name
    × IsVersion answers
        (get_pod namespace host ∷ hostname ∷ read_namespace ∷ new_client ∷ [])
        version
    × (answers.get_pvc
          (gp_version (version_command answers)
            ∷ get_pod namespace host
            ∷ hostname
            ∷ read_namespace
            ∷ new_client
            ∷ [])
          namespace
          name
        ≡ ok pvc)
    × IsLabelled answers
        (get_pvc namespace name
          ∷ gp_version (version_command answers)
          ∷ get_pod namespace host
          ∷ hostname
          ∷ read_namespace
          ∷ new_client
          ∷ [])
        namespace
        name
        version
        pvc
run_label_pvc-IsLabelled_example = run_label_pvc-IsLabelled answers [] labels_pvc

-- A container whose sudo fails.
abbrev starters : Starters ℕ
starters = record {
  sudo = λ program. fail broken;
  root = call 0 (λ h. ok tt);
  gpadmin = call 1 (λ h. ok tt);
  label_pvc = call 2 (λ h. ok tt);
  multidaemon = call 3 (λ h. ok tt);
}

run_container-zero_iff_example :
    ((run_container starters (pos 1000) ("start" ∷ []) []).0 ≡ ok 0) ↔ (
      ((e : Error) × ((starters.sudo "start" []).0 ≡ err e))
      ⊎ ((sequence
            (starters.sudo "start"
              ∷ starters.gpadmin
              ∷ starters.label_pvc
              ∷ starters.multidaemon
              ∷ [])
            []).0
          ≡ ok tt))
run_container-zero_iff_example = run_container-zero_iff starters (pos 1000) "start" []

-- A bucket with a directory and one file of three bytes.
abbrev bucket : S3
bucket = record {
  getenv = λ name. "";
  parse_bool = λ text. false;
  new_downloader = λ h s3. ok tt;
  list_objects = λ h b f.
      ok (record { key = "servers/"; size = 0 })
      ∷ ok (record { key = "servers/a.xml"; size = 3 })
      ∷ [];
  get_object = λ h b key. ok tt;
  mkdir_all = λ h dir. ok tt;
  open_file = λ h name. ok tt;
  copy_object = λ h key name. ok 3;
  run = λ h c. ok tt;
  read_file = λ h name. ok "42\n";
  join_path = λ dir key. dir & "/" & key;
  dir_of = λ path. "/etc/pxf/servers";
  has_suffix = λ text suffix. str_eq text "servers/";
  trim_prefix = λ text prefix. text;
}

downloads : (download_bucket_path bucket "pxf" "" "/etc/pxf" []).0 ≡ ok tt
unfolding download_bucket_path
downloads = refl

download_bucket_path_complete_example :
    (infos : List ObjectInfo) × (bucket.list_objects [] "pxf" "" ≡ map (λ i. ok i) infos)
    × (0 < length (contents bucket "pxf" "" "/etc/pxf" infos))
    × All (IsWritten bucket "pxf" "" "/etc/pxf") (contents bucket "pxf" "" "/etc/pxf" infos)
    × ((download_bucket_path bucket "pxf" "" "/etc/pxf" []).1
        ≡ pushed
            (fetches bucket "pxf" "" "/etc/pxf" (contents bucket "pxf" "" "/etc/pxf" infos))
            (list_objects "pxf" "" ∷ []))
download_bucket_path_complete_example =
    download_bucket_path_complete bucket "pxf" "" "/etc/pxf" [] downloads
