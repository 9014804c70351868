-- ===== src/Admission/Shared.antt =====
-- greenplum-operator/pkg/admission/validate_shared_functions.go
pub mod Facts
use Prim.Native.String.{len}
use greenplum_for_kubernetes.Prelude.{
  ℕ, zero, Bool, true, false, ◌||◌, not, List, [], ◌∷◌, Option, none, some, ltb, if◌then◌else◌,
}
use greenplum_for_kubernetes.Prelude.Int.{ℤ, pos, negsuc}
use greenplum_for_kubernetes.Prelude.Map.{Labels}
use greenplum_for_kubernetes.Prelude.Text.{String, ◌&◌, show, show_ℤ, str_eq}
use greenplum_for_kubernetes.Api.Quantity.{Quantities}
use greenplum_for_kubernetes.Api.Objects.{Pvc}
use greenplum_for_kubernetes.Admission.Verdict.{Verdict, pass, deny, panic, deny_if}

abbrev pub max_label_len : ℕ
max_label_len = 63

abbrev pub generate_short_pvc_err_str : String → String → String → String
generate_short_pvc_err_str child_object_path verb parent_object_type =
    child_object_path & " cannot be " & verb
    & " without first deleting PVCs. This will result in a new, empty " & parent_object_type
    & " cluster"

abbrev pub generate_long_pvc_err_str : String → String → ℤ → String → String → String → String
generate_long_pvc_err_str parent_object_type parent_object previous_count child_object_name
      child_object_path verb =
    parent_object
    & " has PVCs for "
    & show_ℤ previous_count
    & " "
    & child_object_name
    & ". "
    & generate_short_pvc_err_str child_object_path verb parent_object_type

-- The loop returns at the first key or value that is too long; its order does not show, since the
-- message names neither.
unfoldable pub validate_worker_selector : Labels → String → Verdict
validate_worker_selector [] typ = pass
validate_worker_selector ((k, v) ∷ rest) typ =
    let later = validate_worker_selector rest typ in
    if ltb max_label_len (len k) || ltb max_label_len (len v)
    then deny
        (typ & " workerSelector key/value is longer than " & show max_label_len & " characters")
    else later

-- Sign() is -1, 0 or 1.
abbrev pub is_minus_one : ℤ → Bool
is_minus_one (negsuc zero) = true
is_minus_one _ = false

abbrev pub is_zero : ℤ → Bool
is_zero (pos zero) = true
is_zero _ = false

module _ {Q : Type 0} (quantities : Quantities Q) where
  unfoldable pub validate_resource_quantity : Q → String → String → Verdict
  validate_resource_quantity quantity typ field =
      deny_if (is_minus_one (quantities.sign quantity)) (
        "invalid "
        & typ
        & " "
        & field
        & " value: \""
        & quantities.to_string quantity
        & "\": must be greater than or equal to 0")

  -- Limits[storage], the zero quantity where the claim has none
  abbrev pub pvc_storage : Option Q → Q
  pvc_storage none = quantities.zero
  pvc_storage (some q) = q

  -- `*pvc.Spec.StorageClassName` panics on a claim without a storage class
  abbrev class_check : Option String → String → String → Verdict
  class_check none class parent = panic
  class_check (some c) class parent =
      deny_if (not (str_eq c class))
        (generate_short_pvc_err_str "storageClassName" "changed" parent)

  -- Only the first claim is looked at.
  unfoldable pub validate_storage_helper : List (Pvc Q) → Q → String → String → Verdict
  validate_storage_helper [] new_storage new_storage_class_name parent_object_type = pass
  validate_storage_helper (pvc ∷ _) new_storage new_storage_class_name parent_object_type =
      if is_zero (quantities.cmp (pvc_storage pvc.storage_limit) new_storage)
      then class_check pvc.storage_class_name new_storage_class_name parent_object_type
      else deny (generate_short_pvc_err_str "storage" "changed" parent_object_type)
