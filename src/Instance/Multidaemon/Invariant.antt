-- ===== src/Instance/Multidaemon/Invariant.antt =====
-- What holds of the daemons in every state that a run reaches.
use mathlib.Core.List.{Perm, perm_middle, append-nil}
use mathlib.Core.List.Perm
use greenplum_for_kubernetes.Prelude.{
  ◌≡◌, ap, ℕ, Bool, true, false, Option, none, some, List, [], ◌∷◌, ◌++◌, arith, refl, subst, ◌∙◌,
  ◌||◌, not,
}
use greenplum_for_kubernetes.Prelude.Effects.{Error}
use greenplum_for_kubernetes.Instance.Multidaemon.{
  Daemon, running, returned, sending, finished, System, initial, start, collect, cancel, Step,
  signal, watch, returns, tests, receives, ends, Reach, here, next,
}

-- The errors that the caller received, daemon by daemon.
abbrev pub received : List Daemon → List Error
received [] = []
received (finished (some e) ∷ rest) = e ∷ received rest
received (_ ∷ rest) = received rest

-- Some daemon failed and is past `cancel()`.
abbrev pub failed : Daemon → Bool
failed (sending (some _)) = true
failed (finished (some _)) = true
failed _ = false

abbrev pub any_failed : List Daemon → Bool
any_failed [] = false
any_failed (d ∷ rest) = failed d || any_failed rest

-- The context is cancelled exactly if the watcher saw the signal or a daemon failed; the watcher
-- ends only on a signal; and the caller has every error of a daemon that it heard of once.
pub record IsConsistent (s : System) : Type 0 where
  pub cancelled : s.is_cancelled ≡ (not s.is_watching || any_failed s.daemons)
  pub signalled : s.is_watching ≡ false → s.is_signalled ≡ true
  pub collected : Perm s.errs (received s.daemons)

received-append : (xs ys : List Daemon) → received (xs ++ ys) ≡ received xs ++ received ys
received-append [] ys = refl
received-append (running ∷ xs) ys = received-append xs ys
received-append (returned _ ∷ xs) ys = received-append xs ys
received-append (sending _ ∷ xs) ys = received-append xs ys
received-append (finished none ∷ xs) ys = received-append xs ys
received-append (finished (some e) ∷ xs) ys = ap (λ l. e ∷ l) (received-append xs ys)

any_failed-append : (xs ys : List Daemon) → any_failed (xs ++ ys) ≡ (any_failed xs || any_failed ys)
any_failed-append [] ys = refl
any_failed-append (d ∷ xs) ys = ground (arith, any_failed-append xs ys)

-- Where nothing is heard of and nobody fails, a daemon may be replaced.
received-quiet :
    (xs ys : List Daemon) (a b : Daemon)
    → received (a ∷ ys) ≡ received (b ∷ ys)
    → received (xs ++ (a ∷ ys)) ≡ received (xs ++ (b ∷ ys))
received-quiet xs ys a b e = rw (received-append xs (a ∷ ys), received-append xs (b ∷ ys), e) refl

any_failed-quiet :
    (xs ys : List Daemon) (a b : Daemon)
    → failed a ≡ failed b
    → any_failed (xs ++ (a ∷ ys)) ≡ any_failed (xs ++ (b ∷ ys))
any_failed-quiet xs ys a b e =
    rw (any_failed-append xs (a ∷ ys), any_failed-append xs (b ∷ ys), e) refl

any_failed-tests :
    (xs ys : List Daemon) (r : Option Error) (c w : Bool)
    → c ≡ (not w || any_failed (xs ++ (returned r ∷ ys)))
    → cancel r c ≡ (not w || any_failed (xs ++ (sending r ∷ ys)))
any_failed-tests xs ys none c w e =
    e ∙ ap (λ b. not w || b) (any_failed-quiet xs ys (returned none) (sending none) refl)
any_failed-tests xs ys (some x) c w e = ground (arith, any_failed-append xs (sending (some x) ∷ ys))

collected-receives :
    (xs ys : List Daemon) (r : Option Error) (errs : List Error)
    → Perm errs (received (xs ++ (sending r ∷ ys)))
    → Perm (collect r errs) (received (xs ++ (finished r ∷ ys)))
collected-receives xs ys none errs p =
    subst (λ l. Perm errs l) (received-quiet xs ys (sending none) (finished none) refl) p
collected-receives xs ys (some e) errs p = rw (received-append xs (finished (some e) ∷ ys)) (
    Perm.trans
      (Perm.trans (perm_middle errs []) (
        rw (append-nil errs)
          (Perm.cons e (subst (λ l. Perm errs l) (received-append xs (sending (some e) ∷ ys)) p))))
      (Perm.symm (perm_middle (received xs) (received ys))))

failed-sent : (r : Option Error) → failed (sending r) ≡ failed (finished r)
failed-sent none = refl
failed-sent (some e) = refl

start-quiet : {A : Type 0} (daemons : List A) → false ≡ any_failed (start daemons)
start-quiet [] = refl
start-quiet (_ ∷ rest) = start-quiet rest

start-silent : {A : Type 0} (daemons : List A) → received (start daemons) ≡ []
start-silent [] = refl
start-silent (_ ∷ rest) = start-silent rest

Step-IsConsistent : {s t : System} → Step s t → IsConsistent s → IsConsistent t
Step-IsConsistent {s} (signal f e) h =
    rw e (record { cancelled = h.cancelled; signalled = λ _. refl; collected = h.collected })
Step-IsConsistent {s} (watch f g e) h =
    rw e (record { cancelled = refl; signalled = λ _. f; collected = h.collected })
Step-IsConsistent {s} (returns xs ys r d e) h = rw e (record {
  cancelled =
      h.cancelled
      ∙ ap (λ b. not s.is_watching || b)
          (ap any_failed d ∙ any_failed-quiet xs ys running (returned r) refl);
  signalled = h.signalled;
  collected =
      subst (λ l. Perm s.errs l) (ap received d ∙ received-quiet xs ys running (returned r) refl)
        h.collected;
})
Step-IsConsistent {s} (tests xs ys r d e) h = rw e (record {
  cancelled =
      any_failed-tests xs ys r s.is_cancelled s.is_watching
        (h.cancelled ∙ ap (λ l. not s.is_watching || any_failed l) d);
  signalled = h.signalled;
  collected =
      subst (λ l. Perm s.errs l)
        (ap received d ∙ received-quiet xs ys (returned r) (sending r) refl) h.collected;
})
Step-IsConsistent {s} (receives xs ys r n d l e) h = rw e (record {
  cancelled =
      h.cancelled
      ∙ ap (λ b. not s.is_watching || b)
          (ap any_failed d ∙ any_failed-quiet xs ys (sending r) (finished r) (failed-sent r));
  signalled = h.signalled;
  collected =
      collected-receives xs ys r s.errs (subst (λ l. Perm s.errs (received l)) d h.collected);
})
Step-IsConsistent {s} (ends f g e) h =
    rw e (record { cancelled = h.cancelled; signalled = h.signalled; collected = h.collected })

start-IsConsistent : {A : Type 0} (daemons : List A) → IsConsistent (initial (start daemons))
start-IsConsistent daemons = record {
  cancelled = start-quiet daemons;
  signalled = λ e. absurd (ground arith);
  collected = rw (start-silent daemons) (Perm.refl []);
}

-- Every state that InitializeDaemons reaches is consistent: the context of the daemons is cancelled
-- exactly if the watcher saw the signal or a daemon that failed has called `cancel`, and the
-- collected errors are, up to their order, the errors of the daemons that the caller heard of.
pub InitializeDaemons-IsConsistent :
    {A : Type 0} (daemons : List A) {n : ℕ} {s : System}
    → Reach (initial (start daemons)) n s
    → IsConsistent s
InitializeDaemons-IsConsistent daemons here = start-IsConsistent daemons
InitializeDaemons-IsConsistent daemons (next r st) =
    Step-IsConsistent st (InitializeDaemons-IsConsistent daemons r)
