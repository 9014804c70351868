-- ===== src/Instance/Dns/Consistent.antt =====
-- What a resolved name has shown.
use greenplum_for_kubernetes.Prelude.{
  ℕ, zero, suc, ◌+◌, ◌≤◌, Bool, true, false, none, some, ltb, ◌≡◌, ◌⊎◌, inl, inr, refl, arith,
  Bool-cases,
}
use greenplum_for_kubernetes.Instance.Machine.{plain}
use greenplum_for_kubernetes.Instance.Dns.{
  Polling, Clock, PollResult, consistent, sleep, poll, poll_times, confirm, finish_round,
  poll_until, poll_until_consistent, execute,
}
use greenplum_for_kubernetes.Instance.Dns.Deadline.{poll_until_consistent-ends}

module _ (clock : Clock) where
  -- The state after `n` lookups.
  unfoldable pub after : ℕ → Polling → Polling
  after zero s = s
  after (suc n) s = after n (poll clock s).1

  -- The next `n` lookups find the name.
  unfoldable pub Answered : ℕ → Polling → Type 0
  unfolding after
  Answered zero s = Unit {0}
  Answered (suc n) s = (clock.answers s.now s.polls ≡ true) × Answered n (poll clock s).1

  poll_times-Answered :
      (n : ℕ) (s : Polling)
      → (poll_times clock n s).0 ≡ true
      → Answered n s × ((poll_times clock n s).1 ≡ after n s)
  unfolding poll_times Answered after
  poll_times-Answered zero s h = (tt, refl)
  poll_times-Answered (suc n) s h = elim (Bool-cases (clock.answers s.now s.polls)) [
    | inl e ↦ let (a, b) = poll_times-Answered n (poll clock s).1 (rw e at h) in ((e, a), rw e b)
    | inr e ↦ let f = rw e at h in absurd (ground arith)
  ]

  -- A lookup before the deadline found the name, and so did the fifteen that followed a sleep;
  -- the polling stopped after them.
  pub Confirmed : ℕ → Polling → Type 0
  Confirmed deadline end =
      (s : Polling) × (s.now + 1 ≤ deadline)
      × (clock.answers s.now s.polls ≡ true)
      × Answered 15 (sleep clock (poll clock s).1)
      × (end ≡ after 15 (sleep clock (poll clock s).1))

  confirm-Confirmed :
      (deadline : ℕ) (s : Polling)
      → s.now + 1 ≤ deadline
      → (confirm clock (poll clock s)).0 ≡ true
      → Confirmed deadline (confirm clock (poll clock s)).1
  unfolding Confirmed
  confirm-Confirmed deadline s l h = elim (Bool-cases (clock.answers s.now s.polls)) [
    | inl e ↦
        let (a, b) = poll_times-Answered 15 (sleep clock (poll clock s).1) (rw e at h) in
        (s, l, e, a, rw e b)
    | inr e ↦ let f = rw e at h in absurd (ground arith)
  ]

  Found : ℕ → PollResult × Polling → Type 0
  Found deadline r = r.0 ≡ consistent → Confirmed deadline r.1

  finish_round-Found :
      (deadline : ℕ) (r : Bool × Polling) (next : Polling → PollResult × Polling)
      → (r.0 ≡ true → Confirmed deadline r.1)
      → Found deadline (next (sleep clock r.1))
      → Found deadline (finish_round clock r next)
  unfolding Found
  finish_round-Found deadline (true, t) next c h = λ _. c refl
  finish_round-Found deadline (false, t) next c h = h

  poll_until-Found :
      (fuel deadline : ℕ) (s : Polling) → Found deadline (poll_until clock fuel deadline s)
  unfolding poll_until Found
  poll_until-Found zero deadline s = λ e. absurd (ground arith)
  poll_until-Found (suc fuel) deadline s = elim (Bool-cases (ltb s.now deadline)) [
    | inl e ↦
        let c = confirm clock (poll clock s) in
        rw e (
          finish_round-Found deadline c (λ t. poll_until clock fuel deadline t)
            (confirm-Confirmed deadline s (ground arith))
            (poll_until-Found fuel deadline (sleep clock c.1)))
    | inr e ↦ rw e (λ e. absurd (ground arith))
  ]

  found :
      (s : Polling)
      → (poll_until_consistent clock s).0 ≡ consistent
      → Confirmed (s.now + 300) (poll_until_consistent clock s).1
  unfolding poll_until_consistent Found
  found s e = poll_until-Found 301 (s.now + 300) s e

  -- Execute always returns. Without an error, a lookup before the deadline, five minutes from the
  -- start, found the name, and so did the fifteen lookups that came after a sleep, the last thing
  -- it did; with an error, the error is that of the time-out, and five minutes have passed.
  pub execute-confirms :
      (s : Polling)
      → (((execute clock s).0 ≡ none) × Confirmed (s.now + 300) (execute clock s).1)
        ⊎ (((execute clock s).0 ≡ some (plain "DNS lookup timed out"))
            × (s.now + 300 ≤ (execute clock s).1.now))
  unfolding execute
  execute-confirms s = elim (poll_until_consistent-ends clock s) [
    | inl e ↦ inl (rw e refl, found s e)
    | inr (e, l) ↦ inr (rw e refl, l)
  ]
