-- ===== src/Admission/Handler.antt =====
-- greenplum-operator/pkg/admission/handler.go
pub mod Allowed
use greenplum_for_kubernetes.Prelude.{ℕ, Bool, true, false, ◌&&◌, Option, none, some, if◌then◌else◌}
use greenplum_for_kubernetes.Prelude.Text.{String, ◌&◌, str_eq}
use greenplum_for_kubernetes.Prelude.Effects.{Result, ok, err}
use greenplum_for_kubernetes.Api.Quantity.{Quantities}
use greenplum_for_kubernetes.Api.Cluster.{GreenplumCluster}
use greenplum_for_kubernetes.Api.Pxf.{GreenplumPxfService}
use greenplum_for_kubernetes.Admission.Verdict.{Verdict, pass, deny, panic}
use greenplum_for_kubernetes.Admission.Access.{Access}
use greenplum_for_kubernetes.Admission.Create.{validate_create_greenplum_cluster}
use greenplum_for_kubernetes.Admission.Update.{validate_update_greenplum_cluster}
use greenplum_for_kubernetes.Admission.PxfService.{validate_greenplum_pxf_service}

pub record GroupVersionKind : Type 0 where
  pub group : String
  pub version : String
  pub kind : String

-- The AdmissionRequest of a review; `object` and `old_object` are raw JSON.
pub record AdmissionRequest : Type 0 where
  pub uid : String
  pub kind : GroupVersionKind
  pub operation : String
  pub object : String
  pub old_object : String

-- What encoding/json and the scheme make of the bytes, for the types of other repositories.
-- A review without a request decodes to `none`.
pub record Decoder (Q : Type 0) : Type 0 where
  pub review : String → Result (Option AdmissionRequest)
  pub convert_kind : GroupVersionKind → Result GroupVersionKind
  pub cluster : String → Result (GreenplumCluster Q)
  pub pxf : String → Result (GreenplumPxfService Q)
  pub print_kind : GroupVersionKind → String

-- What the HTTP client gets: an HTTP error, a review response, or nothing after a panic.
pub data Reply : Type 0 where
  http_error : ℕ → String → Reply
  response : (uid : String) (allowed : Bool) (message : Option String) → Reply
  panicked : Reply

pub record HttpRequest : Type 0 where
  pub content_type : String
  pub body : Result String  -- what reading the body gives

abbrev pub is_kind : GroupVersionKind → String → String → Bool
is_kind k version kind =
    str_eq k.group "greenplum.pivotal.io" && str_eq k.version version && str_eq k.kind kind

-- `response.Allowed, response.Result = validate(…)`
abbrev pub reply : String → Verdict → Reply
reply uid pass = response uid true none
reply uid (deny m) = response uid false (some m)
reply uid panic = panicked

abbrev pub refuse : String → String → Reply
refuse uid message = response uid false (some message)

-- `if err != nil { response.Result = …; return }`
abbrev pub decoded : {A : Type 0} → String → String → Result A → (A → Reply) → Reply
decoded uid prefix (ok a) k = k a
decoded uid prefix (err e) k = refuse uid (prefix & e.message)

module _ {Q : Type 0} (access : Access Q) (quantities : Quantities Q) (decoder : Decoder Q) where
  unfoldable pub handle_cluster : AdmissionRequest → Reply
  handle_cluster r =
      decoded r.uid "failed to unmarshal Request.Object into GreenplumCluster: "
        (decoder.cluster r.object)
        λ new.
          if str_eq r.operation "CREATE"
          then reply r.uid (validate_create_greenplum_cluster access quantities new)
          else if str_eq r.operation "UPDATE"
          then decoded r.uid "failed to unmarshal Request.OldObject into GreenplumCluster: "
              (decoder.cluster r.old_object)
              (λ old. reply r.uid (validate_update_greenplum_cluster access quantities old new))
          else refuse r.uid ("unexpected operation for validation: " & r.operation)

  unfoldable pub handle_pxf : AdmissionRequest → Reply
  handle_pxf r =
      decoded r.uid "failed to unmarshal Request.Object into GreenplumPXFService: "
        (decoder.pxf r.object)
        λ new.
          if str_eq r.operation "CREATE"
          then reply r.uid (validate_greenplum_pxf_service access quantities none new)
          else if str_eq r.operation "UPDATE"
          then decoded r.uid "failed to unmarshal Request.OldObject into GreenplumPXFService: "
              (decoder.pxf r.old_object)
              (λ old. reply r.uid (validate_greenplum_pxf_service access quantities (some old) new))
          else refuse r.uid ("unexpected operation for validation: " & r.operation)

  unfoldable pub handle_request : AdmissionRequest → Reply
  handle_request r =
      decoded r.uid "failed to convert metav1.GVK to schema.GVK: " (decoder.convert_kind r.kind)
        λ k.
          if is_kind k "v1" "GreenplumCluster"
          then handle_cluster r
          else if is_kind k "v1beta1" "GreenplumPXFService"
          then handle_pxf r
          else refuse r.uid
              ("unexpected validation request for object: " & decoder.print_kind r.kind)

  -- A review without a request is dereferenced all the same.
  abbrev handle_review : Result (Option AdmissionRequest) → Reply
  handle_review (err e) = refuse "" ("parsing request: " & e.message)
  handle_review (ok none) = panicked
  handle_review (ok (some r)) = handle_request r

  abbrev handle_body : Result String → Reply
  handle_body (err e) = http_error 400 ("couldn't read request body: " & e.message)
  handle_body (ok bytes) = handle_review (decoder.review bytes)

  unfoldable pub handle_validate : HttpRequest → Reply
  handle_validate r =
      if str_eq r.content_type "application/json"
      then handle_body r.body
      else http_error 415 "invalid Content-Type, expect `application/json`"
