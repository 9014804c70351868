-- ===== src/Operator/Executor.antt =====
-- greenplum-operator/pkg/executor/active_master.go; `execute` is PodExecInterface.Execute.
use greenplum_for_kubernetes.Prelude.{List, [], ◌∷◌}
use greenplum_for_kubernetes.Prelude.Text.{String}
use greenplum_for_kubernetes.Prelude.Effects.{Eff, Result, ok, err, pure, attempt, ◌>>=◌}

abbrev pub test_if_primary_master_command : List String
test_if_primary_master_command =
    "/bin/bash" ∷ "-c" ∷ "--"
    ∷ "source /usr/local/greenplum-db/greenplum_path.sh && psql -U gpadmin -c 'select * from gp_segment_configuration'"
    ∷ []

module _ {C : Type 0} (execute : List String → String → String → Eff C String) where
  abbrev if_answers : Result String → String → Eff C String → Eff C String
  if_answers (ok _) pod next = pure pod
  if_answers (err _) pod next = next

  -- The first of the two masters on which the query runs, and "" if it runs on none.
  unfoldable pub get_current_active_master : String → Eff C String
  get_current_active_master namespace = do
    first ← attempt (execute test_if_primary_master_command namespace "master-0")
    if_answers first "master-0" (do
      second ← attempt (execute test_if_primary_master_command namespace "master-1")
      if_answers second "master-1" (pure ""))
