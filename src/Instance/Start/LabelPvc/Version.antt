-- ===== src/Instance/Start/LabelPvc/Version.antt =====
-- A container starts only on data of its own major version.
use greenplum_for_kubernetes.Prelude.{
  Option-cases, [], ◌∷◌, ◌≡◌, ◌∙◌, sym, refl, ap, ◌⊎◌, inl, inr, Option, none, some, List, arith,
  Bool-cases,
}
use greenplum_for_kubernetes.Prelude.Text.{String, str_eq, eq_iff}
use greenplum_for_kubernetes.Prelude.Map.{lookup}
use greenplum_for_kubernetes.Prelude.Map as Map
use greenplum_for_kubernetes.Prelude.Effects.{
  Result-cases, ok, wrapping, returned, call, wrap, ◌>>=◌,
}
use greenplum_for_kubernetes.Prelude.Effects.Success.{bind-ok, map_err-ok}
use greenplum_for_kubernetes.Instance.Machine.{Cmd, greenplum_command}
use greenplum_for_kubernetes.Instance.Start.LabelPvc.Claim.{IsOnlyClaim, claim_of-IsOnlyClaim}
use greenplum_for_kubernetes.Instance.Start.LabelPvc.{
  gp_version, read_namespace, hostname, get_pod, get_pvc, new_client, Eff, Answers, Query, Pvc, Pod,
  version_label, claim_of, get_current_namespace, get_this_pod, get_greenplum_major_version,
  labelled, label_text, check_label, run_label_pvc,
}

module _ (a : Answers) where
  namespace_ok :
      (h : List Query) (namespace : String)
      → (get_current_namespace a h).0 ≡ ok namespace
      → a.read_namespace h ≡ ok namespace
  unfolding get_current_namespace
  namespace_ok h namespace e = e

  -- The pod is got under the host name.
  get_this_pod-ok :
      (namespace : String) (h : List Query) (pod : Pod)
      → (get_this_pod a namespace h).0 ≡ ok pod
      → (host : String) × (a.hostname h ≡ ok host)
        × (a.get_pod (hostname ∷ h) namespace host ≡ ok pod)
        × ((get_this_pod a namespace h).1 ≡ get_pod namespace host ∷ hostname ∷ h)
  unfolding get_this_pod
  get_this_pod-ok namespace h pod e = elim (Result-cases (a.hostname h)) [
    | inr (x, f) ↦ absurd (ground arith)
    | inl (host, f) ↦ (host, f, rw f at e, rw f refl)
  ]

  -- The claim that was got carries the version, or it carries none and the server's answer to the
  -- patch that adds it does.
  abbrev pub IsLabelled : (g : List Query) (namespace name version : String) → Pvc → Type 0
  IsLabelled g namespace name version pvc =
      (lookup version_label pvc.labels ≡ some version)
      ⊎ ((lookup version_label pvc.labels ≡ none)
          × (kept : Pvc) × (a.patch_pvc g namespace name pvc
                (record { labels = Map.insert version_label version pvc.labels })
              ≡ ok kept)
          × (label_text (lookup version_label kept.labels) ≡ version))

  check_label-ok :
      (version : String) (pvc : Pvc) (h : List Query)
      → (check_label a version pvc h).0 ≡ ok tt
      → label_text (lookup version_label pvc.labels) ≡ version
  check_label-ok version pvc h e =
      let found = label_text (lookup version_label pvc.labels) in
      elim (Bool-cases (str_eq found version)) [
        | inl f ↦ (eq_iff found version).0 f
        | inr f ↦ absurd (ground arith)
      ]

  labelled-ok :
      (namespace name version : String) (pvc : Pvc) (found : Option String) (h : List Query)
      → lookup version_label pvc.labels ≡ found
      → ((labelled a namespace name version pvc found >>= λ kept. check_label a version kept) h).0
        ≡ ok tt
      → IsLabelled h namespace name version pvc
  labelled-ok namespace name version pvc (some v) h l e =
      inl (l ∙ ap (λ t. some t) (sym (ap label_text l) ∙ check_label-ok version pvc h e))
  labelled-ok namespace name version pvc none h l e =
      let changed : Pvc = record { labels = Map.insert version_label version pvc.labels } in
      let (kept, f, g) =
        bind-ok (labelled a namespace name version pvc none) (λ p. check_label a version p) h tt
          e in
      inr (
        l,
        kept,
        map_err-ok (wrap "patching pvc label") (a.patch_pvc h namespace name pvc changed) kept f,
        check_label-ok version kept _ g,
      )

  -- The rest of Run, step by step from its end.
  abbrev labelling : (namespace name version : String) → Eff Query (Unit {0})
  labelling namespace name version =
      call (get_pvc namespace name) (λ h. a.get_pvc h namespace name) >>= λ pvc.
      labelled a namespace name version pvc (lookup version_label pvc.labels) >>= λ kept.
      check_label a version kept

  abbrev asking_version : (namespace name : String) → Eff Query (Unit {0})
  asking_version namespace name =
      get_greenplum_major_version a >>= λ version. labelling namespace name version

  abbrev finding_claim : (namespace : String) → Pod → Eff Query (Unit {0})
  finding_claim namespace pod =
      returned (claim_of "" pod.volumes) >>= λ name. asking_version namespace name

  abbrev finding_pod : (namespace : String) → Eff Query (Unit {0})
  finding_pod namespace = get_this_pod a namespace >>= λ pod. finding_claim namespace pod

  abbrev pub version_command : Cmd
  version_command = greenplum_command ("/usr/local/greenplum-db/bin/postgres" ∷ "--gp-version" ∷ [])

  -- The version is what the pod's own postgres says when it is asked.
  abbrev pub IsVersion : List Query → (version : String) → Type 0
  IsVersion h version =
      (out : String) × (text : String) × (a.gp_version h
          (greenplum_command ("/usr/local/greenplum-db/bin/postgres" ∷ "--gp-version" ∷ []))
        ≡ ok out)
      × (a.match_version out ≡ some text)
      × (a.major text ≡ some version)

  get_greenplum_major_version-IsVersion :
      (h : List Query) (version : String)
      → (get_greenplum_major_version a h).0 ≡ ok version
      → IsVersion h version × ((get_greenplum_major_version a h).1 ≡ gp_version version_command ∷ h)
  unfolding get_greenplum_major_version
  get_greenplum_major_version-IsVersion h version e =
      let c = version_command in
      elim (Result-cases (a.gp_version h c)) [
        | inr (x, f) ↦ absurd (ground arith)
        | inl (out, f) ↦ elim (Option-cases (a.match_version out)) [
          | inl g ↦ absurd (let z = rw (f, g) at e in ground arith)
          | inr (text, g) ↦ elim (Option-cases (a.major text)) [
            | inl k ↦ absurd (let z = rw (f, g, k) at e in ground arith)
            | inr (v, k) ↦
                ((out, text, f, g, let z = rw (f, g, k) at e in k ∙ ground arith), rw f refl)
          ]
        ]
      ]

  -- Where LabelPvcStarter.Run succeeds, the claim was read that is the only one among the volumes of
  -- this pod, found by the host name in the namespace of the pod's file. It is labelled with the
  -- major version that the pod's own postgres tells: it was, or it had no such label and the
  -- server's answer to the patch that adds it shows this version.
  pub run_label_pvc-IsLabelled :
      (h : List Query)
      → (run_label_pvc a h).0 ≡ ok tt
      → (namespace host name version : String) × (pod : Pod) × (pvc : Pvc) × (a.read_namespace
            (new_client ∷ h)
          ≡ ok namespace)
        × (a.hostname (read_namespace ∷ new_client ∷ h) ≡ ok host)
        × (a.get_pod (hostname ∷ read_namespace ∷ new_client ∷ h) namespace host ≡ ok pod)
        × IsOnlyClaim pod.volumes name
        × IsVersion (get_pod namespace host ∷ hostname ∷ read_namespace ∷ new_client ∷ h) version
        × (a.get_pvc
              (gp_version version_command
                ∷ get_pod namespace host
                ∷ hostname
                ∷ read_namespace
                ∷ new_client
                ∷ h)
              namespace
              name
            ≡ ok pvc)
        × IsLabelled
            (get_pvc namespace name
              ∷ gp_version version_command
              ∷ get_pod namespace host
              ∷ hostname
              ∷ read_namespace
              ∷ new_client
              ∷ h)
            namespace
            name
            version
            pvc
  unfolding run_label_pvc
  run_label_pvc-IsLabelled h e =
      let h1 : List Query = new_client ∷ h in
      let h2 : List Query = read_namespace ∷ h1 in
      let (u, _, e1) =
        bind-ok (wrapping "unable to create client" (call new_client (λ h. a.new_client h)))
          (λ u. get_current_namespace a >>= λ n. finding_pod n) h tt e in
      let (namespace, n, e2) = bind-ok (get_current_namespace a) finding_pod h1 tt e1 in
      let (pod, p0, e3) = bind-ok (get_this_pod a namespace) (finding_claim namespace) h2 tt e2 in
      let (host, asked, got, after) = get_this_pod-ok namespace h2 pod p0 in
      let h3 : List Query = get_pod namespace host ∷ hostname ∷ h2 in
      let e4 = rw after at e3 in
      let (name, c, e5) =
        bind-ok (returned (claim_of "" pod.volumes)) (asking_version namespace) h3 tt e4 in
      let (version, v, e6) =
        bind-ok (get_greenplum_major_version a) (labelling namespace name) h3 tt e5 in
      let (told, last) = get_greenplum_major_version-IsVersion h3 version v in
      let h4 : List Query = gp_version version_command ∷ h3 in
      let e6 = rw last at e6 in
      let (pvc, p, e7) =
        bind-ok (call (get_pvc namespace name) (λ h. a.get_pvc h namespace name))
          (λ pvc.
            labelled a namespace name version pvc (lookup version_label pvc.labels) >>= λ kept.
            check_label a version kept)
          h4 tt e6 in
      (
        namespace,
        host,
        name,
        version,
        pod,
        pvc,
        namespace_ok h1 namespace n,
        asked,
        got,
        claim_of-IsOnlyClaim pod.volumes name c,
        told,
        p,
        labelled-ok namespace name version pvc (lookup version_label pvc.labels)
            (get_pvc namespace name ∷ h4) refl e7,
      )
