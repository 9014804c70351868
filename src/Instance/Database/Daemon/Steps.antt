-- ===== src/Instance/Database/Daemon/Steps.antt =====
-- What a pod of the database does when it starts.
use greenplum_for_kubernetes.Prelude.{
  false, List, ◌∷◌, ◌≡◌, ◌≢◌, inl, inr, arith, Bool-cases, if◌then◌else◌,
}
use greenplum_for_kubernetes.Prelude.Text.{String, str_eq, eq_iff}
use greenplum_for_kubernetes.Prelude.Effects.{ok, Result-cases}
use greenplum_for_kubernetes.Instance.Machine.{Machine, Call, run, stat}
use greenplum_for_kubernetes.Instance.Config.{Parsers}
use greenplum_for_kubernetes.Instance.Database.Cluster.{ErrorTests}
use greenplum_for_kubernetes.Instance.KnownHosts.{Keys}
use greenplum_for_kubernetes.Instance.Database.Daemon.{
  is_ok, pg_ctl_command, check_preinitialized_cluster, initialize_segment, initialize_cluster,
}

-- Where the standby and the segments keep their data.
abbrev pub data_dir_of : String → String
data_dir_of hostname = if str_eq hostname "master-1" then "/greenplum/data-1" else "/greenplum/data"

module _ {K : Type 0} (m : Machine K) (parsers : Parsers) (keys : Keys K) (tests : ErrorTests) where
  restart_trace :
      (dir : String) (h : List Call)
      → (initialize_segment m parsers keys tests dir h).1
        ≡ (if is_ok (m.stat h dir) then run (pg_ctl_command dir) ∷ stat dir ∷ h else stat dir ∷ h)
  unfolding initialize_segment check_preinitialized_cluster
  restart_trace dir h = elim (Result-cases (m.stat h dir)) [
    | inr (x, e) ↦ ground arith
    | inl (info, e) ↦ elim (Result-cases (m.run (stat dir ∷ h) (pg_ctl_command dir))) [
      | inl (u, f) ↦ ground arith
      | inr (x, f) ↦ ground arith
    ]
  ]

  -- On every host but master-0, nothing is run but pg_ctl, which restarts the database where the
  -- host's data directory is there.
  pub initialize_cluster-segment :
      (hostname : String) (h : List Call)
      → hostname ≢ "master-0"
      → (initialize_cluster m parsers keys tests (ok hostname) h).1 ≡ (
          if is_ok (m.stat h (data_dir_of hostname))
          then run (pg_ctl_command (data_dir_of hostname)) ∷ stat (data_dir_of hostname) ∷ h
          else stat (data_dir_of hostname) ∷ h)
  unfolding initialize_cluster
  initialize_cluster-segment hostname h n =
      let i = eq_iff hostname "master-0" in
      let a : str_eq hostname "master-0" ≡ false = ground arith in
      elim (Bool-cases (str_eq hostname "master-1")) [
        | inl b ↦ rw (a, b) (restart_trace "/greenplum/data-1" h)
        | inr b ↦ rw (a, b) (restart_trace "/greenplum/data" h)
      ]
