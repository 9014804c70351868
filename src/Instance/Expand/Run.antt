-- ===== src/Instance/Expand/Run.antt =====
-- What has happened when gpexpand was run.
use greenplum_for_kubernetes.Prelude.{
  Bool, List, [], ◌∷◌, ◌≡◌, inl, inr, refl, arith, List-cases, ◌⊎◌,
}
use greenplum_for_kubernetes.Prelude.Int.{ℤ}
use greenplum_for_kubernetes.Prelude.Text.{String}
use greenplum_for_kubernetes.Prelude.Effects.{ok, err}
use greenplum_for_kubernetes.Instance.Machine.{
  Machine, Call, Operation, resolve, wait_for_known_host, ssh_execute, operate, run, plain_command,
  errors_of, foreach_or_fail, plain,
}
use greenplum_for_kubernetes.Instance.Config.{Parsers}
use greenplum_for_kubernetes.Instance.Hosts.{generate_host_list}
use greenplum_for_kubernetes.Instance.Expand.{gpexpand_command, wait_command, run_gpexpand}

module _ {K : Type 0} (m : Machine K) (parsers : Parsers) where
  -- An operation that did not fail on the whole left no error on any host.
  pub foreach_or_fail-cases :
      (op : Operation) (hosts : List String) (text : String) (h : List Call)
      → ((foreach_or_fail m op hosts text h ≡ (ok tt, operate op hosts ∷ h))
          × (errors_of (m.operate h op hosts) ≡ []))
        ⊎ (foreach_or_fail m op hosts text h ≡ (err (plain text), operate op hosts ∷ h))
  unfolding foreach_or_fail
  foreach_or_fail-cases op hosts text h = elim (List-cases (errors_of (m.operate h op hosts))) [
    | inl e ↦ inl (rw e refl, e)
    | inr (x, xs, e) ↦ inr (rw e refl)
  ]

  -- The histories after the first, the second and the third operation on the hosts.
  module _ (n : ℤ) (mirrors standby : Bool) (h : List Call) where
    abbrev pub hosts : List String
    hosts = generate_host_list n mirrors standby ""

    abbrev pub resolved : List Call
    resolved = operate resolve hosts ∷ h

    abbrev pub known : List Call
    known = operate wait_for_known_host hosts ∷ resolved

    abbrev pub ready : List Call
    ready = operate (ssh_execute (wait_command m parsers n)) hosts ∷ known

    -- Where gpexpand was started, every host of the cluster had been resolved, was known to this
    -- host, and knew the others, in this order, with no error on any host.
    pub run_gpexpand-starts :
        (rest : List Call)
        → (run_gpexpand m parsers n mirrors standby h).1
          ≡ run (plain_command (gpexpand_command m parsers)) ∷ rest
        → (rest ≡ ready)
          × (errors_of (m.operate h resolve hosts) ≡ [])
          × (errors_of (m.operate resolved wait_for_known_host hosts) ≡ [])
          × (errors_of (m.operate known (ssh_execute (wait_command m parsers n)) hosts) ≡ [])
    unfolding run_gpexpand
    run_gpexpand-starts rest e =
        let f1 =
          foreach_or_fail-cases resolve hosts
            "failed to resolve DNS entries for all masters and segments" h in
        let f2 =
          foreach_or_fail-cases wait_for_known_host hosts
            "timed out waiting for known_hosts on master" resolved in
        let f3 =
          foreach_or_fail-cases (ssh_execute (wait_command m parsers n)) hosts
            "timed out waiting for known_hosts on all masters and segments" known in
        elim f1 [
          | inr a ↦ absurd (ground arith)
          | inl (a, a0) ↦ elim f2 [
            | inr b ↦ absurd (ground arith)
            | inl (b, b0) ↦ elim f3 [
              | inr c ↦ absurd (ground arith)
              | inl (c, c0) ↦ (ground arith, a0, b0, c0)
            ]
          ]
        ]
