-- ===== src/Instance/Dns/Stable.antt =====
-- A name that comes up in time is resolved.
use greenplum_for_kubernetes.Prelude.{
  ℕ, zero, suc, ◌+◌, ◌*◌, ◌≤◌, Bool, true, false, none, ltb, ◌≡◌, inl, inr, refl, arith, Bool-cases,
}
use greenplum_for_kubernetes.Instance.Dns.{
  Polling, Clock, PollResult, consistent, sleep, poll, poll_times, confirm, finish_round,
  poll_until, poll_until_consistent, execute,
}
use greenplum_for_kubernetes.Instance.Dns.Deadline.{confirm-later}

-- From the time `from` on every lookup finds the name; a sleep is at most `late` seconds late and
-- a lookup takes at most `takes` seconds.
pub record IsStable (clock : Clock) (from late takes : ℕ) : Type 0 where
  pub finds : (now polls : ℕ) → from ≤ now → clock.answers now polls ≡ true
  pub sleeps : (now : ℕ) → clock.late now ≤ late
  pub looks : (polls : ℕ) → clock.takes polls ≤ takes

module _ (clock : Clock) (from late takes : ℕ) (h : IsStable clock from late takes) where
  poll_times-finds : (n : ℕ) (s : Polling) → from ≤ s.now → (poll_times clock n s).0 ≡ true
  unfolding poll_times
  poll_times-finds zero s l = refl
  poll_times-finds (suc n) s l =
      rw (h.finds s.now s.polls l) (poll_times-finds n (poll clock s).1 (omega (arith, l)))

  poll_times-takes : (n : ℕ) (s : Polling) → (poll_times clock n s).1.now ≤ s.now + n * takes
  unfolding poll_times
  poll_times-takes zero s = omega arith
  poll_times-takes (suc n) s =
      let ih = poll_times-takes n (poll clock s).1 in
      let t = h.looks s.polls in
      elim (Bool-cases (clock.answers s.now s.polls)) [
        | inl e ↦ rw e (omega (arith, ih, t))
        | inr e ↦ rw e (omega (arith, t))
      ]

  confirm-takes :
      (s : Polling) → (confirm clock (poll clock s)).1.now ≤ s.now + (1 + late + 16 * takes)
  confirm-takes s =
      let t = h.looks s.polls in
      let first = h.sleeps (poll clock s).1.now in
      let more = poll_times-takes 15 (sleep clock (poll clock s).1) in
      elim (Bool-cases (clock.answers s.now s.polls)) [
        | inl e ↦ rw e (omega (arith, t, first, more))
        | inr e ↦ rw e (omega (arith, t))
      ]

  -- A round with the sleep after it.
  round-takes :
      (s : Polling)
      → (sleep clock (confirm clock (poll clock s)).1).now ≤ s.now + (2 + 2 * late + 16 * takes)
  round-takes s =
      let t = confirm-takes s in
      let last = h.sleeps (confirm clock (poll clock s)).1.now in omega (arith, t, last)

  confirm-finds : (s : Polling) → from ≤ s.now → (confirm clock (poll clock s)).0 ≡ true
  confirm-finds s l =
      rw (h.finds s.now s.polls l)
        (poll_times-finds 15 (sleep clock (poll clock s).1) (omega (arith, l)))

  -- A round that fails began before `from`, so the next one begins before the deadline.
  before_deadline :
      (deadline : ℕ) (s : Polling)
      → (confirm clock (poll clock s)).0 ≡ false
      → from + (2 + 2 * late + 16 * takes) + 1 ≤ deadline
      → (sleep clock (confirm clock (poll clock s)).1).now + 1 ≤ deadline
  before_deadline deadline s failed b = elim (Bool-cases (ltb s.now from)) [
    | inl e ↦
        let t = round-takes s in let l : s.now + 1 ≤ from = ground arith in omega (arith, t, l, b)
    | inr e ↦ let yes = confirm-finds s (ground arith) in absurd (ground arith)
  ]

  finish_round-consistent :
      (r : Bool × Polling) (next : Polling → PollResult × Polling)
      → (r.0 ≡ false → (next (sleep clock r.1)).0 ≡ consistent)
      → (finish_round clock r next).0 ≡ consistent
  finish_round-consistent (true, t) next h = refl
  finish_round-consistent (false, t) next h = h refl

  poll_until-finds :
      (fuel deadline : ℕ) (s : Polling)
      → deadline ≤ s.now + fuel
      → s.now + 1 ≤ deadline
      → from + (2 + 2 * late + 16 * takes) + 1 ≤ deadline
      → (poll_until clock fuel deadline s).0 ≡ consistent
  unfolding poll_until
  poll_until-finds zero deadline s f l b = absurd (omega (arith, f, l))
  poll_until-finds (suc fuel) deadline s f l b =
      let c = confirm clock (poll clock s) in
      let later = confirm-later clock s in
      let e : ltb s.now deadline ≡ true = ground arith in
      rw e (
        finish_round-consistent c (λ t. poll_until clock fuel deadline t)
          (λ failed.
            poll_until-finds fuel deadline (sleep clock c.1) (omega (arith, later, f))
              (before_deadline deadline s failed b) b))

  -- A name that every lookup finds from a time on is resolved, if a round of sixteen lookups and
  -- two sleeps, each as slow as it may be, still fits between that time and the deadline: Execute
  -- returns no error.
  pub execute-resolves :
      (s : Polling)
      → from + (2 + 2 * late + 16 * takes) + 1 ≤ s.now + 300
      → (execute clock s).0 ≡ none
  unfolding execute poll_until_consistent
  execute-resolves s b =
      rw (poll_until-finds 301 (s.now + 300) s (omega arith) (omega arith) b) refl
