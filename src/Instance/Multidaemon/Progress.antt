-- ===== src/Instance/Multidaemon/Progress.antt =====
-- A run of the daemons takes a bounded number of steps, and can always go on to its end.
use greenplum_for_kubernetes.Prelude.{
  true, sym, Bool-cases, ◌≡◌, ◌≢◌, ap, ◌∙◌, ◌⊎◌, inl, inr, ℕ, zero, suc, ◌+◌, ◌*◌, ◌≤◌, none, List,
  [], ◌∷◌, ◌++◌, arith, refl, All, length, Empty, if◌then◌else◌,
}
use greenplum_for_kubernetes.Instance.Multidaemon.Balance.{
  open_sends, IsBalanced, open_sends-receives, Step-IsBalanced, Reach-IsBalanced,
}
use greenplum_for_kubernetes.Instance.Multidaemon.{
  false, Daemon, running, returned, sending, finished, System, initial, start, collect, cancel,
  Step, signal, watch, returns, tests, receives, ends, Reach, here, next,
}

-- The steps that are left for a daemon's goroutine, and for all of them.
abbrev left : Daemon → ℕ
left running = 3
left (returned _) = 2
left (sending _) = 1
left (finished _) = 0

abbrev total : List Daemon → ℕ
total [] = 0
total (d ∷ rest) = left d + total rest

abbrev weight : System → ℕ
weight s =
    (if s.is_signalled then 0 else 1)
    + (if s.is_watching then 1 else 0)
    + (if s.has_returned then 0 else 1)
    + total s.daemons

abbrev pub IsFinished : Daemon → Type 0
IsFinished (finished _) = Unit
IsFinished _ = Empty

total-append : (xs ys : List Daemon) → total (xs ++ ys) ≡ total xs + total ys
total-append [] ys = omega arith
total-append (d ∷ xs) ys = omega (arith, total-append xs ys)

total-replaced :
    (xs ys : List Daemon) (a b : Daemon)
    → left a ≡ suc (left b)
    → total (xs ++ (a ∷ ys)) ≡ suc (total (xs ++ (b ∷ ys)))
total-replaced xs ys a b e = omega (arith, e, total-append xs (a ∷ ys), total-append xs (b ∷ ys))

Step-weight : {s t : System} → Step s t → weight s ≡ suc (weight t)
Step-weight (signal f e) = rw (e, f) (omega arith)
Step-weight (watch f g e) = rw (e, f, g) (omega arith)
Step-weight {s} (returns xs ys r d e) =
    rw (e, d) (omega (arith, total-replaced xs ys running (returned r) refl))
Step-weight {s} (tests xs ys r d e) =
    rw (e, d) (omega (arith, total-replaced xs ys (returned r) (sending r) refl))
Step-weight {s} (receives xs ys r n d l e) =
    rw (e, d) (omega (arith, total-replaced xs ys (sending r) (finished r) refl))
Step-weight (ends f g e) = rw (e, g) (omega arith)

Reach-weight : {s t : System} {n : ℕ} → Reach s n t → n + weight t ≡ weight s
Reach-weight here = omega arith
Reach-weight (next r st) = omega (arith, Reach-weight r, Step-weight st)

total-start : {A : Type 0} (daemons : List A) → total (start daemons) ≡ 3 * length daemons
total-start [] = refl
total-start (d ∷ rest) = omega (arith, total-start rest)

-- The first daemon that is not finished.
pending :
    (ds : List Daemon)
    → All IsFinished ds
      ⊎ ((before : List Daemon) × (d : Daemon) × (after : List Daemon) × (ds
            ≡ before ++ (d ∷ after))
          × (left d ≢ 0)
          × (1 ≤ open_sends ds))
pending [] = inl tt
pending (finished r ∷ ds) = elim (pending ds) [
  | inl a ↦ inl (tt, a)
  | inr (b, d, c, e, f, o) ↦ inr (finished r ∷ b, d, c, ap (λ l. finished r ∷ l) e, f, o)
]
pending (running ∷ ds) = inr ([], running, ds, refl, λ e. absurd (ground arith), omega arith)
pending (returned r ∷ ds) = inr ([], returned r, ds, refl, λ e. absurd (ground arith), omega arith)
pending (sending r ∷ ds) = inr ([], sending r, ds, refl, λ e. absurd (ground arith), omega arith)

All-open_sends : (ds : List Daemon) → open_sends ds ≡ 0 → All IsFinished ds
All-open_sends ds e = elim (pending ds) [
  | inl a ↦ a
  | inr (b, d, c, f, g, o) ↦ absurd (omega (arith, e, o))
]

open_sends-All : (ds : List Daemon) → All IsFinished ds → open_sends ds ≡ 0
open_sends-All [] a = refl
open_sends-All (finished r ∷ ds) a = open_sends-All ds a.1
open_sends-All (running ∷ ds) a = elim a.0 [ ]
open_sends-All (returned r ∷ ds) a = elim a.0 [ ]
open_sends-All (sending r ∷ ds) a = elim a.0 [ ]

-- A daemon that is not finished can go on; one that runs returns without an error, and one that
-- sends is received, since the caller still has a round.
advance :
    (s : System) (before : List Daemon) (d : Daemon) (after : List Daemon)
    → s.daemons ≡ before ++ (d ∷ after)
    → (left d ≢ 0)
    → IsBalanced s
    → (t : System) × Step s t × (total s.daemons ≡ suc (total t.daemons))
advance s b running c e f h = (
  record s { daemons = b ++ (returned none ∷ c) },
  returns b c none e refl,
  ap total e ∙ total-replaced b c running (returned none) refl,
)
advance s b (returned r) c e f h = (
  record s { is_cancelled = cancel r s.is_cancelled; daemons = b ++ (sending r ∷ c) },
  tests b c r e refl,
  ap total e ∙ total-replaced b c (returned r) (sending r) refl,
)
advance s b (sending r) c e f h =
    let n = open_sends (b ++ (finished r ∷ c)) in
    let round : s.rounds ≡ suc n = h.balanced ∙ ap open_sends e ∙ open_sends-receives b c r in
    (
      record s { daemons = b ++ (finished r ∷ c); rounds = n; errs = collect r s.errs },
      receives b c r n e round refl,
      ap total e ∙ total-replaced b c (sending r) (finished r) refl,
    )
advance s b (finished r) c e f h = absurd (f refl)

prepend : {s t u : System} {n : ℕ} → Step s t → Reach t n u → Reach s (suc n) u
prepend st here = next here st
prepend st (next r last) = next (prepend st r) last

-- The end of InitializeDaemons: the caller has returned, and no goroutine of a daemon is left.
pub record IsEnded (s : System) : Type 0 where
  pub returned : s.has_returned ≡ true
  pub finished : All IsFinished s.daemons

-- With every daemon finished, the caller has no round left and returns.
finish :
    (s : System)
    → IsBalanced s
    → All IsFinished s.daemons
    → (m : ℕ) × (t : System) × Reach s m t × IsEnded t
finish s h a = elim (Bool-cases s.has_returned) [
  | inl e ↦ (0, s, here, record { returned = e; finished = a })
  | inr e ↦
      let zero_left = h.balanced ∙ open_sends-All s.daemons a in
      (
        1,
        record s { has_returned = true },
        next here (ends zero_left e refl),
        record { returned = refl; finished = a },
      )
]

complete :
    (k : ℕ) (s : System)
    → IsBalanced s
    → total s.daemons ≤ k
    → (m : ℕ) × (t : System) × Reach s m t × IsEnded t
complete zero s h w = elim (pending s.daemons) [
  | inl a ↦ finish s h a
  | inr (b, d, c, e, f, _) ↦ absurd (omega (arith, ap total e, total-append b (d ∷ c), f))
]
complete (suc k) s h w = elim (pending s.daemons) [
  | inl a ↦ finish s h a
  | inr (b, d, c, e, f, _) ↦
      let (t, st, l) = advance s b d c e f h in
      let (m, u, r, all) = complete k t (Step-IsBalanced st h) (omega arith) in
      (suc m, u, prepend st r, all)
]

-- From every state that InitializeDaemons reaches, the run can go on until the caller has returned
-- and every daemon's goroutine is at its end, whatever the daemons have returned so far: no send
-- and no receive is left without its other side. No run is longer than three steps for every
-- daemon, two for the signal and one for the return, and the caller has not returned before every
-- daemon was heard of.
pub InitializeDaemons-completes :
    {A : Type 0} (daemons : List A) {n : ℕ} {s : System}
    → Reach (initial (start daemons)) n s
    → (n ≤ 3 * length daemons + 3)
      × ((s.has_returned ≡ false) ⊎ All IsFinished s.daemons)
      × ((m : ℕ) × (t : System) × Reach s m t × IsEnded t)
InitializeDaemons-completes daemons {s = s} r =
    let h = Reach-IsBalanced daemons r in
    (
      omega (arith, Reach-weight r, total-start daemons),
      elim (Bool-cases s.has_returned) [
        | inl e ↦ inr (All-open_sends s.daemons (sym h.balanced ∙ h.closed e))
        | inr e ↦ inl e
      ],
      complete (total s.daemons) s h (omega arith),
    )
