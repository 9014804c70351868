-- ===== src/Instance/Dns/Deadline.antt =====
-- The polling ends.
use greenplum_for_kubernetes.Prelude.{
  ℕ, zero, suc, ◌+◌, ◌≤◌, Bool, true, false, ltb, ◌≡◌, ◌⊎◌, inl, inr, refl, arith, Bool-cases,
}
use greenplum_for_kubernetes.Instance.Dns.{
  Polling, Clock, PollResult, consistent, timed_out, sleep, poll, poll_times, confirm, finish_round,
  poll_until, poll_until_consistent,
}

module _ (clock : Clock) where
  -- Time does not run backwards in the lookups.
  pub now-poll_times : (n : ℕ) (s : Polling) → s.now ≤ (poll_times clock n s).1.now
  unfolding poll_times
  now-poll_times zero s = omega arith
  now-poll_times (suc n) s =
      let ih = now-poll_times n (poll clock s).1 in
      elim (Bool-cases (clock.answers s.now s.polls)) [
        | inl e ↦ rw e (omega (arith, ih))
        | inr e ↦ rw e (omega arith)
      ]

  -- Time does not run backwards in a round.
  pub confirm-later : (s : Polling) → s.now ≤ (confirm clock (poll clock s)).1.now
  confirm-later s =
      let t = now-poll_times 15 (sleep clock (poll clock s).1) in
      elim (Bool-cases (clock.answers s.now s.polls)) [
        | inl e ↦ rw e (omega (arith, t))
        | inr e ↦ rw e (omega arith)
      ]

  -- What the loop ends with: success, or the deadline once it has passed.
  Ended : ℕ → PollResult × Polling → Type 0
  Ended deadline r = (r.0 ≡ consistent) ⊎ ((r.0 ≡ timed_out) × (deadline ≤ r.1.now))

  round-Ended :
      (deadline : ℕ) (r : Bool × Polling) (next : Polling → PollResult × Polling)
      → Ended deadline (next (sleep clock r.1))
      → Ended deadline (finish_round clock r next)
  unfolding Ended
  round-Ended deadline (true, t) next h = inl refl
  round-Ended deadline (false, t) next h = h

  poll_until-Ended :
      (fuel deadline : ℕ) (s : Polling)
      → deadline ≤ s.now + fuel
      → Ended deadline (poll_until clock (suc fuel) deadline s)
  unfolding poll_until Ended
  poll_until-Ended zero deadline s h = elim (Bool-cases (ltb s.now deadline)) [
    | inl e ↦ absurd (ground arith)
    | inr e ↦ rw e (inr (refl, ground arith))
  ]
  poll_until-Ended (suc fuel) deadline s h = elim (Bool-cases (ltb s.now deadline)) [
    | inr e ↦ rw e (inr (refl, ground arith))
    | inl e ↦
        let c = confirm clock (poll clock s) in
        let later = confirm-later s in
        rw e (
          round-Ended deadline c (λ t. poll_until clock (suc fuel) deadline t)
            (poll_until-Ended fuel deadline (sleep clock c.1) (omega (arith, later, h))))
  ]

  -- However late the sleeps are and whatever the lookups answer, the polling ends within the
  -- rounds it is given: it found the answers consistent, or five minutes have passed and it says
  -- that it timed out.
  pub poll_until_consistent-ends :
      (s : Polling)
      → ((poll_until_consistent clock s).0 ≡ consistent)
        ⊎ (((poll_until_consistent clock s).0 ≡ timed_out)
            × (s.now + 300 ≤ (poll_until_consistent clock s).1.now))
  unfolding poll_until_consistent Ended
  poll_until_consistent-ends s = poll_until-Ended 300 (s.now + 300) s (omega arith)
