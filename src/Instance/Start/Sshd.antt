-- ===== src/Instance/Start/Sshd.antt =====
-- sshd.go and multidaemon_starter.go: sshd as one of the daemons of a pod, and the outcome of all.
use greenplum_for_kubernetes.Prelude.{ℕ, List, [], ◌∷◌}
use greenplum_for_kubernetes.Prelude.Text.{show}
use greenplum_for_kubernetes.Prelude.Effects.{
  Eff, Error, Result, ok, err, call, pure, fail, attempt, wrap, ◌>>=◌,
}
use greenplum_for_kubernetes.Instance.Machine.{Cmd, plain_command, plain}

-- What the daemon calls; `wait` is the end of the process, of which the channel tells.
pub data SshdCall : Type 0 where
  start : Cmd → SshdCall
  select : SshdCall
  kill : Cmd → SshdCall
  wait : (pid : ℕ) → SshdCall

-- The case of the select that is taken: either may be where both are ready.
pub data Selected : Type 0 where
  context_done : Selected
  terminated : (with_error : Result (Unit {0})) → Selected

-- `start` gives the process id.
pub record Sshd : Type 0 where
  pub start : List SshdCall → Cmd → Result ℕ
  pub select : List SshdCall → Selected
  pub kill : List SshdCall → Cmd → Result (Unit {0})

abbrev pub sshd_command : Cmd
sshd_command = plain_command ("/usr/bin/sudo" ∷ "/usr/sbin/sshd" ∷ "-D" ∷ [])

abbrev pub kill_command : ℕ → Cmd
kill_command pid = plain_command ("/usr/bin/sudo" ∷ "/bin/kill" ∷ "-SIGKILL" ∷ show pid ∷ [])

module _ (s : Sshd) where
  -- A process that is not killed is not waited for.
  abbrev wait_if_killed : ℕ → Result (Unit {0}) → Eff SshdCall (Unit {0})
  wait_if_killed pid (ok _) = call (wait pid) (λ h. ok tt)
  wait_if_killed pid (err _) = pure tt

  -- A process that ended by itself is an error, also where it ended well: Go prints its error then
  -- as %!w(<nil>).
  abbrev end_of : ℕ → Selected → Eff SshdCall (Unit {0})
  end_of pid context_done = do
    killed ← attempt (call (kill (kill_command pid)) (λ h. s.kill h (kill_command pid)))
    wait_if_killed pid killed
  end_of pid (terminated (err e)) = fail (wrap "sshd is not running" e)
  end_of pid (terminated (ok _)) = fail (plain "sshd is not running: %!w(<nil>)")

  -- SSHDaemon.Run
  unfoldable pub run_sshd : Eff SshdCall (Unit {0})
  run_sshd = do
    pid ← call (start sshd_command) (λ h. s.start h sshd_command)
    selected ← call select (λ h. ok (s.select h))
    end_of pid selected

-- MultidaemonStarter.Run, from the errors that InitializeDaemons collected; `aggregate` is
-- NewAggregate of the API machinery.
unfoldable pub run_multidaemon : (aggregate : List Error → Error) → List Error → Result (Unit {0})
run_multidaemon aggregate [] = ok tt
run_multidaemon aggregate (e ∷ rest) = err (aggregate (e ∷ rest))
