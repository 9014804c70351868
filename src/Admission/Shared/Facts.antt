-- ===== src/Admission/Shared/Facts.antt =====
-- When the shared checks pass.
use Prim.Native.String.{len}
use greenplum_for_kubernetes.Prelude.{
  ◌≤◌, List, [], ◌∷◌, some, ◌≡◌, ◌≢◌, ◌↔◌, All, arith, refl, Option-cases, inl, inr,
}
use greenplum_for_kubernetes.Prelude.Int.{pos, negsuc}
use greenplum_for_kubernetes.Prelude.Map.{Labels}
use greenplum_for_kubernetes.Prelude.Text.{String, eq_iff}
use greenplum_for_kubernetes.Api.Quantity.{Quantities}
use greenplum_for_kubernetes.Api.Objects.{Pvc}
use greenplum_for_kubernetes.Admission.Verdict.{pass}
use greenplum_for_kubernetes.Admission.Shared.{
  max_label_len, validate_worker_selector, validate_resource_quantity, validate_storage_helper,
  pvc_storage,
}

-- Every key and value of a selector has at most 63 bytes.
abbrev pub ShortLabels : Labels → Type 0
ShortLabels = All (λ (e : String × String). (len e.0 ≤ max_label_len) × (len e.1 ≤ max_label_len))

pub validate_worker_selector_iff :
    (s : Labels) (typ : String) → (validate_worker_selector s typ ≡ pass) ↔ ShortLabels s
unfolding validate_worker_selector
validate_worker_selector_iff [] typ = (λ _. tt, λ _. refl)
validate_worker_selector_iff ((k, v) ∷ rest) typ =
    let ih = validate_worker_selector_iff rest typ in
    (λ h. ground (arith, ih.0), λ h. ground (arith, ih.1 h.1))

module _ {Q : Type 0} (quantities : Quantities Q) where
  -- The first claim, if there is one, has the storage and the class that the new cluster asks for.
  abbrev pub FirstClaimFits : List (Pvc Q) → Q → String → Type 0
  FirstClaimFits [] storage class = Unit
  FirstClaimFits (p ∷ _) storage class =
      (quantities.cmp (pvc_storage quantities p.storage_limit) storage ≡ pos 0)
      × (p.storage_class_name ≡ some class)

  pub validate_resource_quantity_iff :
      (q : Q) (typ field : String)
      → (validate_resource_quantity quantities q typ field ≡ pass) ↔ (quantities.sign q ≢ negsuc 0)
  unfolding validate_resource_quantity
  validate_resource_quantity_iff q typ field = (λ h e. ground arith, λ h. ground arith)

  pub validate_storage_helper_iff :
      (pvcs : List (Pvc Q)) (storage : Q) (class parent : String)
      → (validate_storage_helper quantities pvcs storage class parent ≡ pass)
        ↔ FirstClaimFits pvcs storage class
  unfolding validate_storage_helper
  validate_storage_helper_iff [] storage class parent = (λ _. tt, λ _. refl)
  validate_storage_helper_iff (p ∷ rest) storage class parent =
      elim (Option-cases p.storage_class_name) [
        | inl e ↦ (λ h. ground arith, λ h. ground arith)
        | inr (c, e) ↦ (λ h. ground (arith, eq_iff c class), λ h. ground (arith, eq_iff c class))
      ]
