-- ===== src/Instance/Database/Cluster/Order.antt =====
-- The order of the commands on the master.
use greenplum_for_kubernetes.Prelude.{List, ◌∷◌, ◌≡◌, ◌≢◌, inl, inr, arith, Bool-cases}
use greenplum_for_kubernetes.Prelude.Text.{String, eq_iff}
use greenplum_for_kubernetes.Prelude.Effects.{ok, Result-cases}
use greenplum_for_kubernetes.Instance.Machine.{Machine, Call, run, read_file}
use greenplum_for_kubernetes.Instance.Config.{Parsers, read_string_helper}
use greenplum_for_kubernetes.Instance.Database.Cluster.{
  ErrorTests, probe_command, reload_command, create_extension_command, run_post_initialization,
}

module _ {K : Type 0} (m : Machine K) (parsers : Parsers) (tests : ErrorTests) (h : List Call) where
  abbrev pub probed : List Call
  probed = run probe_command ∷ h

  abbrev pub reloaded : List Call
  reloaded = run reload_command ∷ probed

  -- The extension is created only on a database that answered and has reloaded its configuration,
  -- and only where the configuration names a PXF service.
  pub run_post_initialization-extension :
      (rest : List Call)
      → (run_post_initialization m parsers tests h).1 ≡ run (create_extension_command "pxf") ∷ rest
      → (service : String) × (rest ≡ read_file "/etc/config/pxfServiceName" ∷ reloaded)
        × (m.run h probe_command ≡ ok tt)
        × (m.run probed reload_command ≡ ok tt)
        × (m.read_file reloaded "/etc/config/pxfServiceName" ≡ ok service)
        × (service ≢ "")
  unfolding run_post_initialization read_string_helper
  run_post_initialization-extension rest e = elim (Result-cases (m.run h probe_command)) [
    | inr (x, f) ↦ absurd (ground arith)
    | inl (tt, f) ↦ elim (Result-cases (m.run probed reload_command)) [
      | inr (x, g) ↦ absurd (ground arith)
      | inl (tt, g) ↦ elim (Result-cases (m.read_file reloaded "/etc/config/pxfServiceName")) [
        | inr (x, k) ↦ elim (Bool-cases x.is_not_found) [
          | inl l ↦ absurd (ground arith)
          | inr l ↦ absurd (ground arith)
        ]
        | inl (service, k) ↦
            let i = eq_iff service "" in (service, ground arith, f, g, k, ground arith)
      ]
    ]
  ]
