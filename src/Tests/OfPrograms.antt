-- ===== src/Tests/OfPrograms.antt =====
-- The labelling of nodes, the start of the webhook, a command on another host and the expansion
-- program, on concrete answers.
use greenplum_for_kubernetes.Prelude.{
  ◌≡◌, refl, ℕ, ◌≤◌, ◌+◌, true, false, some, List, [], ◌∷◌, length, pushed, In, ◌⊎◌, inl, inr,
}
use greenplum_for_kubernetes.Prelude.Int.{pos}
use greenplum_for_kubernetes.Prelude.Text.{show, String}
use greenplum_for_kubernetes.Prelude.Map.{insert, lookup}
use greenplum_for_kubernetes.Prelude.Effects.{ok, err}
use greenplum_for_kubernetes.Tests.Fixtures.{missing}
use greenplum_for_kubernetes.Tests.OfOperator.{world, nodes}
use greenplum_for_kubernetes.Tests.OfInstance.{machine, parsers, keys}
use greenplum_for_kubernetes.Operator.World.{Call}
use greenplum_for_kubernetes.Operator.AntiAffinity.{label_alternate_nodes}
use greenplum_for_kubernetes.Operator.AntiAffinity.Balance.{
  labelled_with, label_alternate_nodes-balanced,
}
use greenplum_for_kubernetes.Admission.Registration.{Webhook}
use greenplum_for_kubernetes.Admission.Webhook.{
  WebhookWorld, WebhookCall, start_server, run_webhook,
}
use greenplum_for_kubernetes.Admission.Webhook.Signed.{Signed}
use greenplum_for_kubernetes.Admission.Webhook.Started.{Registered, run_webhook-started}
use greenplum_for_kubernetes.Instance.Machine as Machine
use greenplum_for_kubernetes.Instance.KnownHosts.{
  reconcile_known_hosts, get_known_hosts, scan_host_keys, read_entries, get_new_ready_hosts,
  collect, mark, new_of,
}
use greenplum_for_kubernetes.Instance.KnownHosts.Controller.{
  Event, added, updated, endpoints, other, watch_known_hosts, run_controller, handle_events,
}
use greenplum_for_kubernetes.Instance.KnownHosts.Controller.Touches.{
  IsReady, Touched, watch_known_hosts-touches,
}
use greenplum_for_kubernetes.Instance.Machine.{scan, append, errors_of, foreach_or_fail}
use greenplum_for_kubernetes.Instance.Config.{Parsers, read_string_helper}
use greenplum_for_kubernetes.Instance.Ssh.{
  Ssh, close, combined_output, new_session, dial, read_known_hosts, run_ssh_command,
}
use greenplum_for_kubernetes.Instance.Ssh.Known.{run_ssh_command-known}

labels_nodes : (label_alternate_nodes world nodes "zone" "a" "b" []).0 ≡ ok tt
unfolding label_alternate_nodes
labels_nodes = refl

label_alternate_nodes-balanced_example :
    (calls : List (Call ℕ)) × ((label_alternate_nodes world nodes "zone" "a" "b" []).1
      ≡ pushed calls [])
    × (labelled_with "zone" "b" calls ≤ labelled_with "zone" "a" calls)
    × (labelled_with "zone" "a" calls ≤ labelled_with "zone" "b" calls + 1)
    × (labelled_with "zone" "a" calls + labelled_with "zone" "b" calls ≡ length nodes)
    × (length calls ≡ length nodes)
label_alternate_nodes-balanced_example =
    label_alternate_nodes-balanced world nodes "zone" [] labels_nodes

-- Keys and certificates are texts, and no earlier request is there.
abbrev authority : WebhookWorld String String
authority = record {
  generate_request = λ h name. ok ("key", "request");
  own_csr = λ csr. ok csr;
  delete_csr = λ h csr. err missing;
  create_csr = λ h csr. ok csr;
  approve_csr = λ h csr. ok csr;
  wait_signed = λ h csr seconds. ok "signed";
  key_pair = λ pem key. ok "loaded";
  read_config = λ h. ok (record { labels = []; webhooks = [] });
  own_config = λ config. ok config;
  write_config = λ h config. ok tt;
  own_service = λ service. ok service;
  create_service = λ h service. ok tt;
  start_server = λ h loaded. ok tt;
  is_server_closed = λ e. false;
}

abbrev webhook : Webhook
webhook = record { namespace = "gp"; name_suffix = "-1" }

serves : (run_webhook authority webhook []).0 ≡ ok tt
unfolding run_webhook
serves = refl

run_webhook-started_example :
    (pem : String) × (loaded : String) × (h1 : List (WebhookCall String String)) × (h2 : List
      (WebhookCall String String))
    × Signed authority webhook pem loaded [] h1
    × Registered authority webhook pem h1 h2
    × ((run_webhook authority webhook []).1 ≡ start_server loaded ∷ h2)
run_webhook-started_example = run_webhook-started authority webhook [] serves

-- Host and private keys are numbers.
abbrev pub ssh : Ssh ℕ ℕ
ssh = record {
  known_hosts = λ h. ok (("segment-a-0", 7) ∷ []);
  read_private_key = λ h. ok "key";
  parse_private_key = λ text. ok 1;
  no_key = 0;
  dial = λ h address expected private. ok (7 ∷ []);
  new_session = λ h address. ok tt;
  combined_output = λ h address command. ok tt;
}

runs_command : (run_ssh_command ssh "segment-a-0" "true" 1 []).0 ≡ ok tt
unfolding run_ssh_command lookup
runs_command = refl

run_ssh_command-known_example :
    (known : List (String × ℕ)) × (key : ℕ) × (ssh.known_hosts [] ≡ ok known)
    × (lookup "segment-a-0" known ≡ some key)
    × ((run_ssh_command ssh "segment-a-0" "true" 1 []).1
        ≡ close "segment-a-0:22"
          ∷ combined_output "segment-a-0:22" "true"
          ∷ new_session "segment-a-0:22"
          ∷ dial "segment-a-0:22" (some key) 1
          ∷ read_known_hosts
          ∷ [])
run_ssh_command-known_example = run_ssh_command-known ssh "segment-a-0" "true" 1 [] runs_command

-- Every number that is read is 3.
abbrev threes : Parsers
threes = record { atoi = λ s. ok (pos 3); parse_bool = λ s. ok true }

-- The first event names a host that is not known yet and one that is; the second is no Endpoints.
abbrev events : List Event
events = added (endpoints (("segment-a-0" ∷ "master-0" ∷ []) ∷ [])) ∷ updated other other ∷ []

abbrev scanned : Machine.Call
scanned = scan ("segment-a-0" ∷ [])

watch_known_hosts-touches_example : In scanned [] ⊎ Touched (IsReady events) scanned
unfolding watch_known_hosts run_controller handle_events reconcile_known_hosts read_string_helper
    get_known_hosts scan_host_keys append read_entries get_new_ready_hosts collect foreach_or_fail
    errors_of mark new_of lookup insert show
watch_known_hosts-touches_example =
    watch_known_hosts-touches machine (IsReady events) keys parsers (ok tt) (λ options. events)
      (λ options host r. r) [] scanned (inr (inr (inr (inr (inr (inl refl))))))
