-- ===== src/Operator/Pxf/Objects/Again.antt =====
-- Filling in a PXF deployment twice is the same as once.
use greenplum_for_kubernetes.Prelude.{
  Option-cases, Bool-cases, List, [], ◌∷◌, ◌≡◌, inl, inr, refl, ap,
}
use greenplum_for_kubernetes.Prelude.Text.{String}
use greenplum_for_kubernetes.Api.Quantity.{Quantities}
use greenplum_for_kubernetes.Api.Pxf.{GreenplumPxfService}
use greenplum_for_kubernetes.Operator.Pxf.Objects.{
  PxfContainer, PxfDeployment, resources_differ, wanted_limits, fill_pxf_container, fill_first,
  blank_pxf_container, modify_deployment,
}

module _ {Q : Type 0} (quantity : Quantities Q) (p : GreenplumPxfService Q) (image : String) where
  fill_again :
      (c : PxfContainer Q)
      → fill_pxf_container quantity p image (fill_pxf_container quantity p image c)
        ≡ fill_pxf_container quantity p image c
  unfolding fill_pxf_container
  fill_again c = elim (Bool-cases (resources_differ quantity p image c.limits)) [
    | inr e ↦ elim (Option-cases c.readiness_probe) [
      | inl f ↦ simp (e, f) refl
      | inr (probe, f) ↦ simp (e, f) refl
    ]
    | inl e ↦
        elim (Bool-cases (resources_differ quantity p image (wanted_limits quantity p image))) [
          | inl g ↦ elim (Option-cases c.readiness_probe) [
            | inl f ↦ simp (e, f, g) refl
            | inr (probe, f) ↦ simp (e, f, g) refl
          ]
          | inr g ↦ elim (Option-cases c.readiness_probe) [
            | inl f ↦ simp (e, f, g) refl
            | inr (probe, f) ↦ simp (e, f, g) refl
          ]
        ]
  ]

  fill_first-again :
      (l : List (PxfContainer Q))
      → fill_first quantity p image (fill_first quantity p image l) ≡ fill_first quantity p image l
  fill_first-again [] = ap (λ c. c ∷ []) (fill_again (blank_pxf_container quantity p image))
  fill_first-again (c ∷ rest) = ap (λ c. c ∷ rest) (fill_again c)

  -- A PXF deployment that was filled in is left as it is, whole, when it is filled in again.
  pub modify_deployment-idempotent :
      (d : PxfDeployment Q)
      → modify_deployment quantity p image (modify_deployment quantity p image d)
        ≡ modify_deployment quantity p image d
  unfolding modify_deployment
  modify_deployment-idempotent d = let e = fill_first-again d.containers in simp e refl
