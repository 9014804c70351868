-- ===== src/Tests/OfInstance.antt =====
-- The pods on concrete answers.
use greenplum_for_kubernetes.Prelude.{
  leb, ◌⊎◌, ◌≤◌, Option, some, Bool, ℕ, ◌+◌, ◌<◌, true, false, none, List, [], ◌∷◌, ◌≡◌, ◌≢◌, ◌↔◌,
  inl, inr, Bool-cases, refl, arith, In, All, Empty, if◌then◌else◌,
}
use greenplum_for_kubernetes.Prelude.Int.{pos}
use greenplum_for_kubernetes.Prelude.Text.{
  String, ◌&◌, str_eq, count, show, show_ℤ, length-eq-zero_iff,
}
use greenplum_for_kubernetes.Prelude.Map.{Labels, lookup}
use greenplum_for_kubernetes.Operator.ConfigMap.{ConfigMap, show_bool, modify_config_map}
use greenplum_for_kubernetes.Instance.Config.Mounted.{
  Mounted, ParsePrinted, values_of, get_config_values-modify_config_map,
}
use greenplum_for_kubernetes.Tests.Fixtures.{differ, cluster, missing, broken}
use greenplum_for_kubernetes.Prelude.Effects.{Result, err, ok}
use greenplum_for_kubernetes.Instance.Machine.{
  plain, Machine, HostKey, run, stat, read_file, errors_of, foreach_or_fail,
}
use greenplum_for_kubernetes.Instance.Config.{Parsers, read_string_helper, get_config_values}
use greenplum_for_kubernetes.Instance.Expand.{
  GenerateGpexpandConfigParams, expand_config, exec_psql_query_and_return_int, generate_config,
  run_generate, run_gpexpand,
}
use greenplum_for_kubernetes.Instance.Expand.Layout.{layout, expand_config-layout}
use greenplum_for_kubernetes.Instance.Expand.Generate.{asked, Inputs, run_generate-writes}
use greenplum_for_kubernetes.Instance.Expand.Run.{ready, run_gpexpand-starts}
use greenplum_for_kubernetes.Instance.Dns.{Polling, Clock, execute}
use greenplum_for_kubernetes.Instance.Dns.Consistent.{Confirmed, execute-confirms}
use greenplum_for_kubernetes.Instance.Dns.Stable.{IsStable, execute-resolves}
use greenplum_for_kubernetes.Instance.Database.InitSystem.{primary_entry, mirror_entry, config_text}
use greenplum_for_kubernetes.Instance.Database.InitSystem.Layout.{entries, config_text-mirrored}
use greenplum_for_kubernetes.Instance.Database.Cluster.{
  ErrorTests, probe_command, reload_command, create_pxf_extension, run_post_initialization,
}
use greenplum_for_kubernetes.Instance.Database.Cluster.Order.{
  probed, reloaded, run_post_initialization-extension,
}
use greenplum_for_kubernetes.Instance.Database.Daemon.{pg_ctl_command, initialize_cluster}
use greenplum_for_kubernetes.Instance.Database.Daemon.Steps.{initialize_cluster-segment}
use greenplum_for_kubernetes.Instance.KnownHosts.{
  Parsed, eof, entry, Keys, collect, finish, get_new_ready_hosts, joined, read_entries,
}
use greenplum_for_kubernetes.Instance.KnownHosts.Scan.{Accepted, lines, collect-ok_iff}
use greenplum_for_kubernetes.Instance.KnownHosts.Ready.{get_new_ready_hosts-In_iff}
use greenplum_for_kubernetes.Instance.KnownHosts.Read.{Reads, read_entries-Reads}

-- A pod on which everything answers; keys are numbers.
abbrev pub machine : Machine ℕ
machine = record {
  run = λ h c. ok tt;
  output = λ h c. ok "3\n";
  stat = λ h p. ok (record { is_dir = true; size = 1 });
  lstat = λ h p. ok (record { is_dir = false; size = 1 });
  read_file = λ h p. ok "my-pxf";
  open_file = λ h p. ok tt;
  write = λ h p text. ok tt;
  close = λ h p. ok tt;
  write_file = λ h p text. ok tt;
  read_all = λ h p. ok "umask 022\n";
  copy = λ h from to. ok tt;
  mkdir_all = λ h p. ok tt;
  symlink = λ h from to. ok tt;
  lookup_user = λ h name. ok (record { uid = "1000"; gid = "1000" });
  walk = λ h dir. ok dir ∷ [];
  chown = λ h p uid gid. ok tt;
  operate = λ h op hs. [];
  scan = λ h hs. [];
}

abbrev pub parsers : Parsers
parsers = record { atoi = λ s. ok (pos 3); parse_bool = λ s. ok true }

abbrev error_tests : ErrorTests
error_tests = record { is_path_error = λ e. true; wraps_err_not_exist = λ e. false }

-- A parser that finds nothing in the empty text, and one entry in any other.
abbrev pub parse : String → Parsed ℕ
parse text = if str_eq text "" then eof else entry "" ("master-0" ∷ []) 7 ""

abbrev pub keys : Keys ℕ
keys = record {
  parse_known_hosts = parse;
  marshal = show;
  marshal_authorized_key = λ k. show k & "\n";
}

abbrev expansion : GenerateGpexpandConfigParams
expansion = record { old_segment_count = pos 1; new_segment_count = pos 3; is_mirrored = true }

expand_config-layout_example :
    expand_config expansion (pos 5) (pos 0) "gp" ≡ layout 2 0 true "gp" (pos 1) (pos 5) (pos 0)
expand_config-layout_example = expand_config-layout expansion (pos 5) (pos 0) "gp"

run_generate-writes_example :
    (asked machine parsers expansion ≡ asked machine parsers expansion)
    × Inputs machine parsers expansion (expand_config expansion (pos 3) (pos 3) "my-pxf")
unfolding run_generate exec_psql_query_and_return_int generate_config
run_generate-writes_example =
    run_generate-writes machine parsers expansion (expand_config expansion (pos 3) (pos 3) "my-pxf")
      (asked machine parsers expansion) refl

run_gpexpand-starts_example :
    (ready machine parsers (pos 3) true true [] ≡ ready machine parsers (pos 3) true true [])
    × (errors_of [] ≡ [])
    × (errors_of [] ≡ [])
    × (errors_of [] ≡ [])
unfolding run_gpexpand foreach_or_fail errors_of
run_gpexpand-starts_example =
    run_gpexpand-starts machine parsers (pos 3) true true []
      (ready machine parsers (pos 3) true true []) refl

config_text-mirrored_example :
    config_text (pos 2) true "agent"
    ≡ (((((("QD_PRIMARY_ARRAY=master-0." & "agent" & "~5432~/greenplum/data-1~1~-1~0\n")
                & "declare -a PRIMARY_ARRAY=(\n")
              & entries primary_entry 2 0 "agent" 2)
            & ")\n")
          & "declare -a MIRROR_ARRAY=(\n")
        & entries mirror_entry 2 0 "agent" (2 + 2))
      & ")\n"
      & "HBA_HOSTNAMES=1\n"
config_text-mirrored_example = config_text-mirrored 2 "agent"

run_post_initialization-extension_example :
    (service : String) × (read_file "/etc/config/pxfServiceName"
        ∷ run reload_command
        ∷ run probe_command
        ∷ []
      ≡ read_file "/etc/config/pxfServiceName" ∷ reloaded machine parsers error_tests [])
    × (machine.run [] probe_command ≡ ok tt)
    × (machine.run (probed machine parsers error_tests []) reload_command ≡ ok tt)
    × (machine.read_file (reloaded machine parsers error_tests []) "/etc/config/pxfServiceName"
        ≡ ok service)
    × (service ≢ "")
unfolding run_post_initialization create_pxf_extension read_string_helper
run_post_initialization-extension_example =
    run_post_initialization-extension machine parsers error_tests []
      (read_file "/etc/config/pxfServiceName" ∷ run reload_command ∷ run probe_command ∷ []) refl

initialize_cluster-segment_example :
    (initialize_cluster machine parsers keys error_tests (ok "segment-a-0") []).1
    ≡ run (pg_ctl_command "/greenplum/data") ∷ stat "/greenplum/data" ∷ []
initialize_cluster-segment_example =
    initialize_cluster-segment machine parsers keys error_tests "segment-a-0" []
      (differ "segment-a-0" "master-0" refl)

abbrev answers : List (HostKey ℕ)
answers =
    record { hostname = "segment-a-0"; public_key = ok 5 }
    ∷ record { hostname = "master-0"; public_key = ok 7 }
    ∷ []

collect-ok_iff_example :
    (finish (collect keys (("master-0", 7) ∷ []) answers "" none) ≡ ok "segment-a-0 5\n") ↔ (
      All (Accepted keys (("master-0", 7) ∷ [])) answers
      × ("segment-a-0 5\n" ≡ lines keys (("master-0", 7) ∷ []) answers))
collect-ok_iff_example = collect-ok_iff keys (("master-0", 7) ∷ []) answers "segment-a-0 5\n"

get_new_ready_hosts-In_iff_example :
    In {A = String} "segment-a-0"
      (get_new_ready_hosts ("master-0" ∷ []) (("master-0" ∷ "segment-a-0" ∷ []) ∷ []))
    ↔ (In {A = String} "segment-a-0" (joined (("master-0" ∷ "segment-a-0" ∷ []) ∷ []))
        × (In {A = String} "segment-a-0" ("master-0" ∷ []) → Empty {0}))
get_new_ready_hosts-In_iff_example =
    get_new_ready_hosts-In_iff "segment-a-0" ("master-0" ∷ [])
      (("master-0" ∷ "segment-a-0" ∷ []) ∷ [])

parse-shrinks :
    (text marker : String) (hs : List String) (key : ℕ) (rest : String)
    → parse text ≡ entry marker hs key rest
    → count rest < count text
parse-shrinks text marker hs key rest e = elim (Bool-cases (str_eq text "")) [
  | inl f ↦ absurd (ground arith)
  | inr f ↦
      let r : rest ≡ "" = ground arith in
      let n : count text ≢ 0 = λ z. differ text "" f (length-eq-zero_iff.0 z) in rw r (ground arith)
]

read_entries-Reads_example : Reads keys "x" [] (read_entries keys 2 "x" [])
read_entries-Reads_example = read_entries-Reads keys parse-shrinks 2 "x" [] (ground arith)

-- A pod in which the config map of the cluster is mounted.
abbrev old_map : ConfigMap
old_map = record { labels = []; data_ = [] }

abbrev files : Labels
files =
    ("/etc/podinfo/namespace", "gp")
    ∷ ("/etc/podinfo/greenplumClusterName", "my-greenplum")
    ∷ ("/etc/config/segmentCount", "2")
    ∷ ("/etc/config/standby", "true")
    ∷ ("/etc/config/mirrors", "true")
    ∷ ("/etc/config/hostBasedAuthentication", "")
    ∷ ("/etc/config/GUCs", "gp_resource_manager = group\ngp_resource_group_memory_limit = 1.0")
    ∷ ("/etc/config/pxfServiceName", "")
    ∷ []

abbrev answer_of : Option String → Result String
answer_of none = err missing
answer_of (some text) = ok text

abbrev mounted_machine : Machine ℕ
mounted_machine = record machine { read_file = λ h p. answer_of (lookup p files) }

abbrev printed_parsers : Parsers
printed_parsers = record {
  atoi = λ s. if str_eq s "2" then ok (pos 2) else err broken;
  parse_bool = λ s. if str_eq s "true" then ok true else ok false;
}

cluster-Mounted : Mounted mounted_machine printed_parsers cluster old_map
unfolding modify_config_map lookup show show_ℤ
cluster-Mounted = record {
  config = λ h. (refl, (refl, (refl, (refl, (refl, (refl, tt))))));
  namespace = λ h. refl;
  name = λ h. refl;
}

parse_show_bool : (b : Bool) → printed_parsers.parse_bool (show_bool b) ≡ ok b
parse_show_bool true = refl
parse_show_bool false = refl

cluster-ParsePrinted : ParsePrinted mounted_machine printed_parsers cluster old_map
unfolding show show_ℤ
cluster-ParsePrinted = record { count = refl; bool = parse_show_bool }

get_config_values-modify_config_map_example :
    (get_config_values mounted_machine printed_parsers []).0
    ≡ ok (values_of mounted_machine printed_parsers cluster old_map)
get_config_values-modify_config_map_example =
    get_config_values-modify_config_map mounted_machine printed_parsers cluster old_map
      cluster-Mounted cluster-ParsePrinted refl []

-- Every lookup fails, and every sleep is a second late.
abbrev failing : Clock
failing = record { answers = λ now polls. false; late = λ now. 1; takes = λ n. 0 }

abbrev start : Polling
start = record { now = 0; polls = 0 }

execute-confirms_example :
    (((execute failing start).0 ≡ none)
      × Confirmed failing (start.now + 300) (execute failing start).1)
    ⊎ (((execute failing start).0 ≡ some (plain "DNS lookup timed out"))
        × (start.now + 300 ≤ (execute failing start).1.now))
execute-confirms_example = execute-confirms failing start

-- A name that comes up after a minute, with lookups that take two seconds.
abbrev coming_up : Clock
coming_up = record { answers = λ now polls. leb 60 now; late = λ now. 1; takes = λ n. 2 }

coming_up-IsStable : IsStable coming_up 60 1 2
coming_up-IsStable = record {
  finds = λ now polls l. ground arith;
  sleeps = λ now. omega arith;
  looks = λ polls. omega arith;
}

execute-resolves_example : (execute coming_up start).0 ≡ none
execute-resolves_example = execute-resolves coming_up 60 1 2 coming_up-IsStable start (omega arith)
