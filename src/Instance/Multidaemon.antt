-- ===== src/Instance/Multidaemon.antt =====
-- pkg/multidaemon/multidaemon.go: InitializeDaemons as a system of goroutines. The watcher of the
-- signal, one goroutine for every daemon, and the caller, which receives from the unbuffered
-- channel, take their steps in any order.
pub mod Invariant
pub mod Balance
pub mod Progress
use greenplum_for_kubernetes.Prelude.{
  ◌≡◌, ℕ, suc, length, Bool, true, false, Option, none, some, List, [], ◌∷◌, ◌++◌,
}
use greenplum_for_kubernetes.Prelude.Effects.{Error}

-- Where a daemon's goroutine stands: in `f(ctx)`, after it with `err`, past the `if` and at the
-- send, or at its end.
pub data Daemon : Type 0 where
  running : Daemon
  returned : Option Error → Daemon
  sending : Option Error → Daemon
  finished : Option Error → Daemon

-- `is_watching`: the watcher waits for the signal. The caller is in its loop, with `rounds` left
-- and `errs` collected, or has returned `errs`.
pub record System : Type 0 where
  pub is_signalled : Bool
  pub is_watching : Bool
  pub is_cancelled : Bool
  pub daemons : List Daemon
  pub rounds : ℕ
  pub errs : List Error
  pub has_returned : Bool

abbrev pub initial : List Daemon → System
initial daemons = record {
  is_signalled = false;
  is_watching = true;
  is_cancelled = false;
  daemons = daemons;
  rounds = length daemons;
  errs = [];
  has_returned = false;
}

-- One goroutine for every daemon that is passed.
abbrev pub start : {A : Type 0} → List A → List Daemon
start [] = []
start (_ ∷ rest) = running ∷ start rest

-- `if err != nil { errs = append(errs, err) }`
abbrev pub collect : Option Error → List Error → List Error
collect none errs = errs
collect (some e) errs = errs ++ (e ∷ [])

-- `if err != nil { cancel() }`
abbrev pub cancel : Option Error → Bool → Bool
cancel none is_cancelled = is_cancelled
cancel (some _) is_cancelled = true

-- A step of the system. A daemon may return at any time and with any result, also before the
-- context is cancelled; it is the one between `before` and `after`. A daemon's send and the caller's
-- receive are one step, for which the caller has to be in its loop: the channel is unbuffered.
pub data Step (s t : System) : Type 0 where
  signal : s.is_signalled ≡ false → t ≡ record s { is_signalled = true } → Step s t
  watch :
      s.is_signalled ≡ true
      → s.is_watching ≡ true
      → t ≡ record s { is_watching = false; is_cancelled = true }
      → Step s t
  returns :
      (before after : List Daemon) (result : Option Error)
      → s.daemons ≡ before ++ (running ∷ after)
      → t ≡ record s { daemons = before ++ (returned result ∷ after) }
      → Step s t
  tests :
      (before after : List Daemon) (result : Option Error)
      → s.daemons ≡ before ++ (returned result ∷ after)
      → t ≡ record s {
        is_cancelled = cancel result s.is_cancelled;
        daemons = before ++ (sending result ∷ after);
      }
      → Step s t
  receives :
      (before after : List Daemon) (result : Option Error) (left : ℕ)
      → s.daemons ≡ before ++ (sending result ∷ after)
      → s.rounds ≡ suc left
      → t ≡ record s {
        daemons = before ++ (finished result ∷ after);
        rounds = left;
        errs = collect result s.errs;
      }
      → Step s t
  ends : s.rounds ≡ 0 → s.has_returned ≡ false → t ≡ record s { has_returned = true } → Step s t

-- `n` steps.
pub data Reach (s : System) : ℕ → System → Type 0 where
  here : Reach s 0 s
  next : {n : ℕ} {t u : System} → Reach s n t → Step t u → Reach s (suc n) u
