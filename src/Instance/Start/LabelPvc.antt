-- ===== src/Instance/Start/LabelPvc.antt =====
-- label_pvc_starter.go and pkg/hostpod: the volume claim of the pod keeps the major version of the
-- database that wrote to it.
pub mod Claim
pub mod Version
use greenplum_for_kubernetes.Prelude.{◌≡◌, refl, Option, none, some, List, [], ◌∷◌, if◌then◌else◌}
use greenplum_for_kubernetes.Prelude.Text.{String, ◌&◌, str_eq, trim_space}
use greenplum_for_kubernetes.Prelude.Map.{Labels, lookup}
use greenplum_for_kubernetes.Prelude.Map as Map
use greenplum_for_kubernetes.Prelude.Effects.{
  returned, Eff, Error, Result, ok, err, call, pure, fail, attempt, wrapping, wrap, ◌>>=◌, ◌>>◌,
}
use greenplum_for_kubernetes.Instance.Machine.{Machine, Call, Cmd, greenplum_command, plain}

-- A volume of a pod: the name of its claim, if it has one.
pub record Volume : Type 0 where
  pub claim_name : Option String

pub record Pod : Type 0 where
  pub volumes : List Volume

pub record Pvc : Type 0 where
  pub labels : Labels

-- What the starter asks: the API server, the pod's name, the namespace's file, and the command.
pub data Query : Type 0 where
  new_client : Query
  read_namespace : Query
  hostname : Query
  get_pod : (namespace name : String) → Query
  gp_version : Cmd → Query
  get_pvc : (namespace name : String) → Query
  patch_pvc : (namespace name : String) → (original changed : Pvc) → Query

-- The answers; a patch fills in the object that the server keeps. `match_version` is versionRe with
-- its group, `major` the first component of the release that go-semi-semantic finds in a version.
pub record Answers : Type 0 where
  pub new_client : List Query → Result (Unit {0})
  pub read_namespace : List Query → Result String
  pub hostname : List Query → Result String
  pub get_pod : List Query → String → String → Result Pod
  pub gp_version : List Query → Cmd → Result String
  pub exit_stderr : Error → Option String
  pub get_pvc : List Query → String → String → Result Pvc
  pub patch_pvc : List Query → String → String → Pvc → Pvc → Result Pvc
  pub match_version : String → Option String
  pub major : String → Option String

abbrev pub version_label : String
version_label = "greenplum-major-version"

-- The loop over the volumes: the name of the only claim, or "" where there is none.
unfoldable pub claim_of : (found : String) → List Volume → Result String
claim_of found [] = ok found
claim_of found (v ∷ rest) = elim v.claim_name [
  | none ↦ claim_of found rest
  | some name ↦
      let more = claim_of name rest in
      if str_eq found "" then more else err (plain "found more pvc volumes than expected")
]

-- `labels[key]`, which gives "" where the key is missing.
abbrev pub label_text : Option String → String
label_text none = ""
label_text (some version) = version

module _ (a : Answers) where
  unfoldable pub get_current_namespace : Eff Query String
  get_current_namespace = call read_namespace (λ h. a.read_namespace h)

  unfoldable pub get_this_pod : String → Eff Query Pod
  get_this_pod namespace = do
    host ← wrapping "getting hostname" (call hostname (λ h. a.hostname h))
    call (get_pod namespace host) (λ h. a.get_pod h namespace host)

  abbrev version_error : Error → Option String → Error
  version_error e none = wrap "trying to get greenplum version" e
  version_error e (some stderr) =
      plain ("trying to get greenplum version: " & e.message & "; stderr: " & trim_space stderr)

  abbrev or_unparsed : Option String → (out : String) → Result String
  or_unparsed none out = err (plain ("couldn't parse greenplum version in: " & trim_space out))
  or_unparsed (some version) out = ok version

  abbrev pub major_of : Option String → (out : String) → Result String
  major_of none out = err (plain ("couldn't parse greenplum version in: " & trim_space out))
  major_of (some version) out = or_unparsed (a.major version) out

  abbrev output_of : Result String → Eff Query String
  output_of (ok out) = returned (major_of (a.match_version out) out)
  output_of (err e) = fail (version_error e (a.exit_stderr e))

  unfoldable pub get_greenplum_major_version : Eff Query String
  get_greenplum_major_version = do
    let c = greenplum_command ("/usr/local/greenplum-db/bin/postgres" ∷ "--gp-version" ∷ [])
    out ← attempt (call (gp_version c) (λ h. a.gp_version h c))
    output_of out

  -- The claim after the label is set where it was missing.
  abbrev pub labelled : (namespace name version : String) → Pvc → Option String → Eff Query Pvc
  labelled namespace name version pvc (some _) = pure pvc
  labelled namespace name version pvc none =
      let changed : Pvc = record { labels = Map.insert version_label version pvc.labels } in
      wrapping "patching pvc label" (
        call (patch_pvc namespace name pvc changed) (λ h. a.patch_pvc h namespace name pvc changed))

  abbrev pub check_label : (version : String) → Pvc → Eff Query (Unit {0})
  check_label version pvc =
      let found = label_text (lookup version_label pvc.labels) in
      if str_eq found version
      then pure tt
      else fail (
          plain (
            "GPDB version on PVC does not match pod version. PVC greenplum-major-version=" & found
            & "; Pod version: " & version))

  -- LabelPvcStarter.Run
  unfoldable pub run_label_pvc : Eff Query (Unit {0})
  unfolding get_current_namespace get_this_pod claim_of get_greenplum_major_version
  run_label_pvc = do
    wrapping "unable to create client" (call new_client (λ h. a.new_client h))
    namespace ← get_current_namespace
    pod ← get_this_pod namespace
    name ← returned (claim_of "" pod.volumes)
    version ← get_greenplum_major_version
    pvc ← call (get_pvc namespace name) (λ h. a.get_pvc h namespace name)
    kept ← labelled namespace name version pvc (lookup version_label pvc.labels)
    check_label version kept
