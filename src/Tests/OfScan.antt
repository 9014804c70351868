-- ===== src/Tests/OfScan.antt =====
-- The scan of a host key, polled a number of times.
use greenplum_for_kubernetes.Prelude.{
  ◌≡◌, refl, ℕ, zero, suc, none, some, Option, List, [], ap, arith, ◌∙◌,
}
use greenplum_for_kubernetes.Prelude.Effects.{ok, err, Eff, Result}
use greenplum_for_kubernetes.Tests.Fixtures.{missing}
use greenplum_for_kubernetes.Tests.OfPrograms.{ssh}
use greenplum_for_kubernetes.Instance.Ssh.{SshCall, ssh_key_scan, scan_once, last_key}
use greenplum_for_kubernetes.Instance.Ssh.Scanned.{EndsDone, IsShown, ssh_key_scan-IsShown}

-- A poll that gives up after as many rounds as the timeout has seconds.
module _ {K P : Type 0} where
  abbrev go_on :
      Result (Option (Option K)) × List (SshCall K P)
      → Eff (SshCall K P) (Option K)
      → Result (Option K) × List (SshCall K P)
  go_on (ok (some key), h) next = (ok key, h)
  go_on (ok none, h) next = next h
  go_on (err e, h) next = (err e, h)

  unfoldable poll_rounds : ℕ → Eff (SshCall K P) (Option (Option K)) → Eff (SshCall K P) (Option K)
  poll_rounds zero condition h = (err missing, h)
  poll_rounds (suc n) condition h = go_on (condition h) (λ h1. poll_rounds n condition h1)

  abbrev DoneAt : Eff (SshCall K P) (Option (Option K)) → Option K → List (SshCall K P) → Type 0
  DoneAt condition key end =
      (now : List (SshCall K P)) × ((condition now).0 ≡ ok (some key)) × ((condition now).1 ≡ end)

  go_on-DoneAt :
      (condition : Eff (SshCall K P) (Option (Option K))) (key : Option K) (h : List (SshCall K P))
      → (r : Result (Option (Option K)) × List (SshCall K P))
      → (next : Eff (SshCall K P) (Option K)) → condition h ≡ r
      → ((next r.1).0 ≡ ok key → DoneAt condition key (next r.1).1)
      → (go_on r next).0 ≡ ok key
      → DoneAt condition key (go_on r next).1
  go_on-DoneAt condition key h (ok (some k), end) next c later e =
      (h, ap (λ p. p.0) c ∙ ap (λ (k : Option K). ok (some k)) (ground arith), ap (λ p. p.1) c)
  go_on-DoneAt condition key h (ok none, end) next c later e = later e
  go_on-DoneAt condition key h (err x, end) next c later e = absurd (ground arith)

  poll_rounds-DoneAt :
      (n : ℕ) (condition : Eff (SshCall K P) (Option (Option K))) (key : Option K)
      (h : List (SshCall K P))
      → (poll_rounds n condition h).0 ≡ ok key
      → DoneAt condition key (poll_rounds n condition h).1
  unfolding poll_rounds
  poll_rounds-DoneAt zero condition key h e = absurd (ground arith)
  poll_rounds-DoneAt (suc n) condition key h e =
      go_on-DoneAt condition key h (condition h) (λ h1. poll_rounds n condition h1) refl
        (λ f. poll_rounds-DoneAt n condition key (condition h).1 f) e

poll_rounds-EndsDone : EndsDone ssh poll_rounds
unfolding EndsDone
poll_rounds-EndsDone = poll_rounds-DoneAt

ssh_key_scan-IsShown_example :
    (now : List (SshCall ℕ ℕ)) × IsShown ssh "segment-a-0"
      (some 7)
      now
      (ssh_key_scan ssh poll_rounds "segment-a-0" 5 []).1
unfolding ssh_key_scan scan_once poll_rounds last_key
ssh_key_scan-IsShown_example =
    ssh_key_scan-IsShown ssh poll_rounds poll_rounds-EndsDone "segment-a-0" 5 [] (some 7) refl
