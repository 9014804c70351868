-- ===== src/Operator/Pxf/Phase.antt =====
-- The phase of a PXF service, and what a reconcile of it writes.
use greenplum_for_kubernetes.Prelude.{
  Empty, List, [], ◌∷◌, ◌≡◌, ◌≢◌, ◌↔◌, ◌⊎◌, inl, inr, true, false, arith,
}
use greenplum_for_kubernetes.Prelude.Int.{ℤ, pos, ltb_ℤ, ==ℤ_iff}
use greenplum_for_kubernetes.Prelude.Text.{String, eq_iff}
use greenplum_for_kubernetes.Prelude.Effects.{Error, ok, err, Result-cases}
use greenplum_for_kubernetes.Api.Pxf.{
  GreenplumPxfService, GreenplumPxfServicePhase, unset, pending, degraded, running,
}
use greenplum_for_kubernetes.Api.Objects.{Deployment}
use greenplum_for_kubernetes.Operator.Pxf.{
  PxfCall, PxfWorld, get_pxf, get_deployment, write_service, write_deployment, patch_pxf, phase_of,
  reconcile_pxf,
}

-- A service is Running exactly when some replica is ready, none is unavailable and at least as
-- many are up to date as were asked for.
pub phase_of-running_iff :
    (desired : ℤ) (d : Deployment)
    → (phase_of desired d ≡ running) ↔ (
        (d.ready_replicas ≢ pos 0)
        × (d.unavailable_replicas ≡ pos 0)
        × (ltb_ℤ d.updated_replicas desired ≡ false))
unfolding phase_of
phase_of-running_iff desired d =
    let a = ==ℤ_iff d.ready_replicas (pos 0) in
    let b = ==ℤ_iff d.unavailable_replicas (pos 0) in
    (λ e. (ground arith, ground arith, ground arith), λ (e, f, g). ground arith)

-- What a phase says of a deployment that should have `desired` replicas: no replica is ready; some is,
-- but one is unavailable or too few are up to date; or all is well.
pub IsPhaseOf : (desired : ℤ) → Deployment → GreenplumPxfServicePhase → Type 0
IsPhaseOf desired d unset = Empty
IsPhaseOf desired d pending = d.ready_replicas ≡ pos 0
IsPhaseOf desired d degraded =
    (d.ready_replicas ≢ pos 0)
    × ((d.unavailable_replicas ≢ pos 0) ⊎ (ltb_ℤ d.updated_replicas desired ≡ true))
IsPhaseOf desired d running =
    (d.ready_replicas ≢ pos 0)
    × (d.unavailable_replicas ≡ pos 0)
    × (ltb_ℤ d.updated_replicas desired ≡ false)

module _ {Q : Type 0} (w : PxfWorld Q) (image : String) (namespace name : String) where
  -- A deployment that runs another image, or one that cannot be read for another reason than
  -- that there is none, is left alone: nothing is read or written after it.
  pub reconcile_pxf-leaves :
      (wrong : (d : Deployment)
        → w.get_deployment [] namespace name ≡ ok d
        → (first : String) × (rest : List String) × (d.images ≡ first ∷ rest) × (first ≢ image))
      → (missing : (e : Error)
          → w.get_deployment [] namespace name ≡ err e
          → e.is_not_found ≡ false)
      → (reconcile_pxf w image namespace name []).1 ≡ get_deployment namespace name ∷ []
  unfolding reconcile_pxf
  reconcile_pxf-leaves wrong missing = elim (Result-cases (w.get_deployment [] namespace name)) [
    | inl (d, e) ↦
        let (first, rest, f, n) = wrong d e in simp (e, f) (ground (arith, eq_iff first image))
    | inr (x, e) ↦ let m = missing x e in ground arith
  ]

  -- Nothing is written: the deployment runs another image, or there is no such service.
  abbrev pub LeftAlone : (h after : List (PxfCall Q)) → Type 0
  LeftAlone h after =
      ((d : Deployment) × (first : String) × (rest : List String) × (w.get_deployment h namespace
            name
          ≡ ok d)
        × (d.images ≡ first ∷ rest)
        × (first ≢ image)
        × (after ≡ get_deployment namespace name ∷ h))
      ⊎ ((e : Error) × (w.get_pxf (get_deployment namespace name ∷ h) namespace name ≡ err e)
          × (e.is_not_found ≡ true)
          × (after ≡ get_pxf namespace name ∷ get_deployment namespace name ∷ h))

  -- The service that was read is written, and has, or is patched to, the phase of the deployment.
  abbrev pub Written : (h after : List (PxfCall Q)) → Type 0
  Written h after =
      let asked : List (PxfCall Q) = get_pxf namespace name ∷ get_deployment namespace name ∷ h in
      (p : GreenplumPxfService Q) × (d : Deployment) × (phase : GreenplumPxfServicePhase)
      × (w.get_pxf (get_deployment namespace name ∷ h) namespace name ≡ ok p)
      × (w.write_deployment (write_service p ∷ asked) p image ≡ ok d)
      × IsPhaseOf p.spec.replicas d phase
      × (((p.phase ≡ phase) × (after ≡ write_deployment p image ∷ write_service p ∷ asked))
          ⊎ ((p.phase ≢ phase)
              × (after
                  ≡ patch_pxf (record p { phase = phase })
                    ∷ write_deployment p image
                    ∷ write_service p
                    ∷ asked)))
