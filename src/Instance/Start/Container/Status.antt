-- ===== src/Instance/Start/Container/Status.antt =====
-- The exit status of the container's program.
use greenplum_for_kubernetes.Prelude.{◌≡◌, ◌↔◌, ◌⊎◌, inl, inr, List, [], ◌∷◌, arith, refl}
use greenplum_for_kubernetes.Prelude.Int.{ℤ}
use greenplum_for_kubernetes.Prelude.Text.{String}
use greenplum_for_kubernetes.Prelude.Effects.{Eff, Error, ok, err, Result-cases, ◌>>◌}
use greenplum_for_kubernetes.Instance.Start.Container.{pure, Starters, run_steps, run_container}

module _ {C : Type 0} where
  -- The parts one after the other, up to the first that fails.
  abbrev pub sequence : List (Eff C (Unit {0})) → Eff C (Unit {0})
  sequence [] = pure tt
  sequence (step ∷ rest) = step >> sequence rest

  run_steps-zero_iff :
      (steps : List (Eff C (Unit {0}))) (h : List C)
      → ((run_steps steps h).0 ≡ ok 0) ↔ ((sequence steps h).0 ≡ ok tt)
  unfolding run_steps
  run_steps-zero_iff [] h = (λ _. refl, λ _. refl)
  run_steps-zero_iff (step ∷ rest) h = elim (Result-cases (step h).0) [
    | inl (u, e) ↦ rw e (run_steps-zero_iff rest (step h).1)
    | inr (x, e) ↦ rw e (λ f. absurd (ground arith), λ f. absurd (ground arith))
  ]

  module _ (s : Starters C) (uid : ℤ) where
    -- Started by the database's user, the program ends with status 0 exactly if all its parts
    -- succeed, one after the other, or its first part, which sudo runs as root, fails: that failure
    -- does not show in the status.
    pub run_container-zero_iff :
        (program : String) (h : List C)
        → ((run_container s uid (program ∷ []) h).0 ≡ ok 0) ↔ (
            ((e : Error) × ((s.sudo program h).0 ≡ err e))
            ⊎ ((sequence (s.sudo program ∷ s.gpadmin ∷ s.label_pvc ∷ s.multidaemon ∷ []) h).0
                ≡ ok tt))
    unfolding run_container
    run_container-zero_iff program h = elim (Result-cases (s.sudo program h).0) [
      | inr (x, e) ↦ rw e (λ _. inl (x, refl), λ _. refl)
      | inl (u, e) ↦
          let steps = s.gpadmin ∷ s.label_pvc ∷ s.multidaemon ∷ [] in
          let both = run_steps-zero_iff steps (s.sudo program h).1 in
          rw e (
            λ f. inr (both.0 f),
            λ f. elim f [ inl (x, g) ↦ absurd (ground arith) | inr g ↦ both.1 g ],
          )
    ]
