-- ===== src/Operator/Pxf.antt =====
-- Reconcile of greenplum-operator/controllers/greenplumpxfservice_controller.go
pub mod Objects
pub mod Phase
use greenplum_for_kubernetes.Prelude.{Bool, true, false, ◌||◌, not, List, [], ◌∷◌, if◌then◌else◌}
use greenplum_for_kubernetes.Prelude.Int.{ℤ, pos, ◌==ℤ◌, ltb_ℤ}
use greenplum_for_kubernetes.Prelude.Text.{String, str_eq}
use greenplum_for_kubernetes.Prelude.Effects.{
  Eff, Result, ok, err, wrap, wrapping, pure, fail, call, attempt, ◌>>=◌, ◌>>◌,
}
use greenplum_for_kubernetes.Api.Pxf.{
  GreenplumPxfService, GreenplumPxfServicePhase, unset, pending, degraded, running,
}
use greenplum_for_kubernetes.Api.Objects.{Deployment}

pub data PxfCall (Q : Type 0) : Type 0 where
  get_deployment : (namespace name : String) → PxfCall Q
  get_pxf : (namespace name : String) → PxfCall Q
  write_service : GreenplumPxfService Q → PxfCall Q
  write_deployment : GreenplumPxfService Q → (image : String) → PxfCall Q
  patch_pxf : GreenplumPxfService Q → PxfCall Q

-- The answers of the API server; `write_deployment` gives the deployment that the server holds
-- after CreateOrUpdate.
pub record PxfWorld (Q : Type 0) : Type 0 where
  pub get_deployment : List (PxfCall Q) → String → String → Result Deployment
  pub get_pxf : List (PxfCall Q) → String → String → Result (GreenplumPxfService Q)
  pub write_service : List (PxfCall Q) → GreenplumPxfService Q → Result (Unit {0})
  pub write_deployment : List (PxfCall Q) → GreenplumPxfService Q → String → Result Deployment
  pub patch_pxf : List (PxfCall Q) → GreenplumPxfService Q → Result (Unit {0})

-- ctrl.Result{} with no error, or the panic of Containers[0] on a deployment with no container.
pub data PxfOutcome : Type 0 where
  done panic : PxfOutcome

abbrev pub same_pxf_phase : GreenplumPxfServicePhase → GreenplumPxfServicePhase → Bool
same_pxf_phase unset unset = true
same_pxf_phase pending pending = true
same_pxf_phase degraded degraded = true
same_pxf_phase running running = true
same_pxf_phase _ _ = false

-- The phase that the counters of the deployment give.
unfoldable pub phase_of : ℤ → Deployment → GreenplumPxfServicePhase
phase_of desired d =
    if d.ready_replicas ==ℤ pos 0
    then pending
    else if not (d.unavailable_replicas ==ℤ pos 0) || ltb_ℤ d.updated_replicas desired
    then degraded
    else running

module _ {Q : Type 0} (w : PxfWorld Q) (instance_image : String) where
  abbrev pub with_pxf_phase :
      GreenplumPxfService Q → GreenplumPxfServicePhase → GreenplumPxfService Q
  with_pxf_phase p phase = record p { phase = phase }

  unfoldable pub update_pxf_status : GreenplumPxfService Q → Deployment → Eff (PxfCall Q) PxfOutcome
  update_pxf_status p d =
      let changed = with_pxf_phase p (phase_of p.spec.replicas d) in
      let patch = (do call (patch_pxf changed) (λ h. w.patch_pxf h changed); pure done) in
      if same_pxf_phase changed.phase p.phase then pure done else patch

  unfoldable pub write_pxf : GreenplumPxfService Q → Eff (PxfCall Q) PxfOutcome
  write_pxf p = do
    wrapping "unable to CreateOrUpdate PXF Service"
        (call (write_service p) (λ h. w.write_service h p))
    d ←
        wrapping "unable to CreateOrUpdate PXF Deployment"
          (call (write_deployment p instance_image) (λ h. w.write_deployment h p instance_image))
    update_pxf_status p d

  abbrev on_pxf : Result (GreenplumPxfService Q) → Eff (PxfCall Q) PxfOutcome
  on_pxf (ok p) = write_pxf p
  on_pxf (err e) =
      if e.is_not_found then pure done else fail (wrap "unable to fetch GreenplumPXFService" e)

  abbrev pub fetch_pxf : String → String → Eff (PxfCall Q) PxfOutcome
  fetch_pxf namespace name = do
    fetched ← attempt (call (get_pxf namespace name) (λ h. w.get_pxf h namespace name))
    on_pxf fetched

  abbrev check_image : List String → String → String → Eff (PxfCall Q) PxfOutcome
  check_image [] namespace name = pure panic
  check_image (image ∷ _) namespace name =
      let go = fetch_pxf namespace name in
      if not (str_eq image instance_image) then pure done else go

  abbrev on_deployment : Result Deployment → String → String → Eff (PxfCall Q) PxfOutcome
  on_deployment (ok d) namespace name = check_image d.images namespace name
  on_deployment (err e) namespace name =
      let go = fetch_pxf namespace name in
      if not e.is_not_found then fail (wrap "unable to fetch PXF Deployment" e) else go

  unfoldable pub reconcile_pxf : String → String → Eff (PxfCall Q) PxfOutcome
  reconcile_pxf namespace name = do
    deployment ←
        attempt (call (get_deployment namespace name) (λ h. w.get_deployment h namespace name))
    on_deployment deployment namespace name
