-- ===== src/Instance/Start/Container.antt =====
-- start_container.go: the program of the container, as root and as the database's user.
pub mod Status
use greenplum_for_kubernetes.Prelude.{Bool, ◌&&◌, not, List, [], ◌∷◌, ℕ, if◌then◌else◌}
use greenplum_for_kubernetes.Prelude.Int.{ℤ, ◌==ℤ◌, pos}
use greenplum_for_kubernetes.Prelude.Text.{String, str_eq}
use greenplum_for_kubernetes.Prelude.Effects.{Eff, Result, ok, err, pure, fail, attempt, ◌>>=◌}
use greenplum_for_kubernetes.Instance.Machine.{index_out_of_range}

-- The program's parts: the command that runs it again as root, and the starters. `C` is what any of
-- them may call.
pub record Starters (C : Type 0) : Type 0 where
  pub sudo : (program : String) → Eff C (Unit {0})
  pub root : Eff C (Unit {0})
  pub gpadmin : Eff C (Unit {0})
  pub label_pvc : Eff C (Unit {0})
  pub multidaemon : Eff C (Unit {0})

module _ {C : Type 0} where
  abbrev status_of : Result (Unit {0}) → Eff C ℕ
  status_of (ok _) = pure 0
  status_of (err _) = pure 1

  abbrev pub next_step : Result (Unit {0}) → Eff C ℕ → Eff C ℕ
  next_step (ok _) rest = rest
  next_step (err _) rest = pure 1

  unfoldable pub run_steps : List (Eff C (Unit {0})) → Eff C ℕ
  run_steps [] = pure 0
  run_steps (step ∷ rest) = do result ← attempt step; next_step result (run_steps rest)

  -- `return` with the status still 0 where the root's part fails.
  abbrev after_sudo : Result (Unit {0}) → Eff C ℕ → Eff C ℕ
  after_sudo (ok _) rest = rest
  after_sudo (err _) rest = pure 0

  module _ (s : Starters C) (uid : ℤ) where
    abbrev run_as_root : Eff C ℕ
    run_as_root =
        let go = (do result ← attempt s.root; status_of result) in
        if uid ==ℤ pos 0 then go else pure 1

    abbrev pub run_as_user : (program : String) → Eff C ℕ
    run_as_user program = do
      result ← attempt (s.sudo program)
      after_sudo result (run_steps (s.gpadmin ∷ s.label_pvc ∷ s.multidaemon ∷ []))

    -- GreenplumContainerStarter.Run, which gives the exit status; `args[1:]` of no arguments panics.
    unfoldable pub run_container : (args : List String) → Eff C ℕ
    unfolding run_steps
    run_container [] = fail index_out_of_range
    run_container (program ∷ []) = run_as_user program
    run_container (program ∷ option ∷ []) =
        if str_eq option "--do-root-startup" then run_as_root else pure 1
    run_container (_ ∷ _ ∷ _ ∷ _) = pure 1
