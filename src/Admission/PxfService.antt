-- ===== src/Admission/PxfService.antt =====
-- greenplum-operator/pkg/admission/validate_greenplumpxfservices.go
use greenplum_for_kubernetes.Prelude.{not, List, [], ◌∷◌, Option, none, some, if◌then◌else◌}
use greenplum_for_kubernetes.Prelude.Text.{String, ◌&◌, str_eq}
use greenplum_for_kubernetes.Prelude.Effects.{Result, ok, err}
use greenplum_for_kubernetes.Api.Quantity.{Quantities}
use greenplum_for_kubernetes.Api.Pxf.{GreenplumPxfService}
use greenplum_for_kubernetes.Api.Objects.{Deployment}
use greenplum_for_kubernetes.Admission.Verdict.{Verdict, pass, deny, panic, deny_if, ◌>>◌}
use greenplum_for_kubernetes.Admission.Access.{Access}
use greenplum_for_kubernetes.Admission.Shared.{validate_worker_selector, validate_resource_quantity}

abbrev pub upgrade_pxf_help_msg : String
upgrade_pxf_help_msg =
    "Cannot update GreenplumPXFService instance -- operator only supports updates to greenplumpxfservices at the latest version. Please update GreenplumPXFService to the latest version in order to make updates"

module _ {Q : Type 0} (access : Access Q) (quantities : Quantities Q) where
  -- Containers[0] panics on a Deployment without containers.
  abbrev image_check : List String → Verdict
  image_check [] = panic
  image_check (image ∷ _) = deny_if (not (str_eq image access.instance_image)) (
      upgrade_pxf_help_msg & "; GreenplumPXFService has image: " & image
      & "; Operator supports image: " & access.instance_image)

  abbrev deployment_check : Result Deployment → Verdict
  deployment_check (err e) = deny ("failed to get PXF Deployment. Try again later: " & e.message)
  deployment_check (ok d) = image_check d.images

  -- `none` for a create, the old object for an update
  abbrev upgrade_check : Option (GreenplumPxfService Q) → GreenplumPxfService Q → Verdict
  upgrade_check none new = pass
  upgrade_check (some old) new =
      if access.pxf_spec_equal old.spec new.spec
      then pass
      else deployment_check (access.get_deployment old.namespace old.name)

  unfoldable pub validate_greenplum_pxf_service :
      Option (GreenplumPxfService Q) → GreenplumPxfService Q → Verdict
  validate_greenplum_pxf_service old new = do
    upgrade_check old new
    validate_worker_selector new.spec.worker_selector "pxf"
    validate_resource_quantity quantities new.spec.cpu "pxf" "cpu"
    validate_resource_quantity quantities new.spec.memory "pxf" "memory"
