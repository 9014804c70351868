-- ===== src/Instance/Dns.antt =====
-- pkg/net/dns/resolver.go: PollUntilConsistent and Execute.
pub mod Deadline
pub mod Consistent
pub mod Stable
use greenplum_for_kubernetes.Prelude.{
  ℕ, zero, suc, ◌+◌, Bool, true, false, List, ◌∷◌, Option, none, some, ltb, if◌then◌else◌,
}
use greenplum_for_kubernetes.Prelude.Effects.{Error}
use greenplum_for_kubernetes.Instance.Machine.{plain}

-- The time in seconds, and how often the name was looked up.
pub record Polling : Type 0 where
  pub now : ℕ
  pub polls : ℕ

-- `answers` tells whether the lookup with that number succeeds at that time; a sleep of a second
-- takes one second and `late` more, which may depend on when it began, and lookup number `n` takes
-- `takes n` seconds.
pub record Clock : Type 0 where
  pub answers : ℕ → ℕ → Bool
  pub late : ℕ → ℕ
  pub takes : ℕ → ℕ

-- nil, the error of the deadline, or rounds that ran out.
pub data PollResult : Type 0 where
  consistent timed_out out_of_rounds : PollResult

module _ (clock : Clock) where
  abbrev pub sleep : Polling → Polling
  sleep s = record s { now = s.now + 1 + clock.late s.now }

  abbrev pub poll : Polling → Bool × Polling
  poll s = (
    clock.answers s.now s.polls,
    record { now = s.now + clock.takes s.polls; polls = s.polls + 1 },
  )

  -- The inner loop with `n` rounds left; the first failing lookup breaks it.
  unfoldable pub poll_times : ℕ → Polling → Bool × Polling
  poll_times zero s = (true, s)
  poll_times (suc n) s =
      let (success, s1) = poll s in
      let rest = poll_times n s1 in if success then rest else (false, s1)

  abbrev confirm : Bool × Polling → Bool × Polling
  confirm (false, s) = (false, s)
  confirm (true, s) = poll_times 15 (sleep s)

  abbrev finish_round : Bool × Polling → (Polling → PollResult × Polling) → PollResult × Polling
  finish_round (true, s) next = (consistent, s)
  finish_round (false, s) next = next (sleep s)

  -- The outer loop, with a bound on its rounds.
  unfoldable pub poll_until : ℕ → (deadline : ℕ) → Polling → PollResult × Polling
  unfolding poll_times
  poll_until zero deadline s = (out_of_rounds, s)
  poll_until (suc fuel) deadline s =
      let next = finish_round (confirm (poll s)) (λ t. poll_until fuel deadline t) in
      if ltb s.now deadline then next else (timed_out, s)

  -- Five minutes from now; 301 rounds are enough, since each takes a second at least.
  unfoldable pub poll_until_consistent : Polling → PollResult × Polling
  unfolding poll_until
  poll_until_consistent s = poll_until 301 (s.now + 300) s

  abbrev pub error_of : PollResult → Option Error
  error_of consistent = none
  error_of timed_out = some (plain "DNS lookup timed out")
  error_of out_of_rounds = some (plain "out of rounds")

  -- ConsistentDNSResolver.Execute, without what it logs.
  unfoldable pub execute : Polling → Option Error × Polling
  unfolding poll_until_consistent
  execute s = let (result, end) = poll_until_consistent s in (error_of result, end)
