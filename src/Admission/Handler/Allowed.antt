-- ===== src/Admission/Handler/Allowed.antt =====
-- What an allowing response rests on.
use greenplum_for_kubernetes.Prelude.{
  true, none, some, ◌≡◌, inl, inr, arith, Bool-cases, Option-cases,
}
use greenplum_for_kubernetes.Prelude.Text.{String, str_eq, eq_iff}
use greenplum_for_kubernetes.Prelude.Effects.{ok, Result-cases}
use greenplum_for_kubernetes.Api.Quantity.{Quantities}
use greenplum_for_kubernetes.Api.Cluster.{GreenplumCluster}
use greenplum_for_kubernetes.Api.Pxf.{GreenplumPxfService}
use greenplum_for_kubernetes.Admission.Verdict.{Verdict, pass}
use greenplum_for_kubernetes.Admission.Access.{Access}
use greenplum_for_kubernetes.Admission.Create.{validate_create_greenplum_cluster}
use greenplum_for_kubernetes.Admission.Update.{validate_update_greenplum_cluster}
use greenplum_for_kubernetes.Admission.PxfService.{validate_greenplum_pxf_service}
use greenplum_for_kubernetes.Admission.Handler.{
  AdmissionRequest, GroupVersionKind, Decoder, Reply, response, HttpRequest, is_kind, reply,
  handle_cluster, handle_pxf, handle_request, handle_validate,
}

module _ {Q : Type 0} (access : Access Q) (quantities : Quantities Q) (decoder : Decoder Q) where
  -- The validation of a GreenplumCluster that the request asked for, and that passed.
  pub data ClusterValidated (r : AdmissionRequest) : Type 0 where
    create :
        (new : GreenplumCluster Q)
        → r.operation ≡ "CREATE"
        → decoder.cluster r.object ≡ ok new
        → validate_create_greenplum_cluster access quantities new ≡ pass
        → ClusterValidated r
    update :
        (old new : GreenplumCluster Q)
        → r.operation ≡ "UPDATE"
        → decoder.cluster r.object ≡ ok new
        → decoder.cluster r.old_object ≡ ok old
        → validate_update_greenplum_cluster access quantities old new ≡ pass
        → ClusterValidated r

  pub data PxfValidated (r : AdmissionRequest) : Type 0 where
    create :
        (new : GreenplumPxfService Q)
        → r.operation ≡ "CREATE"
        → decoder.pxf r.object ≡ ok new
        → validate_greenplum_pxf_service access quantities none new ≡ pass
        → PxfValidated r
    update :
        (old new : GreenplumPxfService Q)
        → r.operation ≡ "UPDATE"
        → decoder.pxf r.object ≡ ok new
        → decoder.pxf r.old_object ≡ ok old
        → validate_greenplum_pxf_service access quantities (some old) new ≡ pass
        → PxfValidated r

  -- The request's kind chooses the validation.
  pub data Validated (r : AdmissionRequest) : Type 0 where
    cluster :
        (k : GroupVersionKind)
        → decoder.convert_kind r.kind ≡ ok k
        → is_kind k "v1" "GreenplumCluster" ≡ true
        → ClusterValidated r
        → Validated r
    pxf :
        (k : GroupVersionKind)
        → decoder.convert_kind r.kind ≡ ok k
        → is_kind k "v1beta1" "GreenplumPXFService" ≡ true
        → PxfValidated r
        → Validated r

  abbrev pub Allows : Reply → String → Type 0
  Allows r uid = r ≡ response uid true none

  reply-Allows : (v : Verdict) {u uid : String} → Allows (reply u v) uid → (v ≡ pass) × (u ≡ uid)
  reply-Allows v h = ground arith

  handle_cluster-Allows :
      (r : AdmissionRequest) (uid : String)
      → Allows (handle_cluster access quantities decoder r) uid
      → (r.uid ≡ uid) × ClusterValidated r
  unfolding handle_cluster
  handle_cluster-Allows r uid h = elim (Result-cases (decoder.cluster r.object)) [
    | inr (x, d) ↦ absurd (ground arith)
    | inl (new, d) ↦ elim (Bool-cases (str_eq r.operation "CREATE")) [
      | inl e ↦ (ground arith, ClusterValidated.create new ((eq_iff _ _).0 e) d (ground arith))
      | inr e ↦ elim (Bool-cases (str_eq r.operation "UPDATE")) [
        | inr f ↦ absurd (ground arith)
        | inl f ↦ elim (Result-cases (decoder.cluster r.old_object)) [
          | inr (x, g) ↦ absurd (ground arith)
          | inl (old, g) ↦
              (ground arith, ClusterValidated.update old new ((eq_iff _ _).0 f) d g (ground arith))
        ]
      ]
    ]
  ]

  handle_pxf-Allows :
      (r : AdmissionRequest) (uid : String)
      → Allows (handle_pxf access quantities decoder r) uid
      → (r.uid ≡ uid) × PxfValidated r
  unfolding handle_pxf
  handle_pxf-Allows r uid h = elim (Result-cases (decoder.pxf r.object)) [
    | inr (x, d) ↦ absurd (ground arith)
    | inl (new, d) ↦ elim (Bool-cases (str_eq r.operation "CREATE")) [
      | inl e ↦ (ground arith, PxfValidated.create new ((eq_iff _ _).0 e) d (ground arith))
      | inr e ↦ elim (Bool-cases (str_eq r.operation "UPDATE")) [
        | inr f ↦ absurd (ground arith)
        | inl f ↦ elim (Result-cases (decoder.pxf r.old_object)) [
          | inr (x, g) ↦ absurd (ground arith)
          | inl (old, g) ↦
              (ground arith, PxfValidated.update old new ((eq_iff _ _).0 f) d g (ground arith))
        ]
      ]
    ]
  ]

  handle_request-Allows :
      (r : AdmissionRequest) (uid : String)
      → Allows (handle_request access quantities decoder r) uid
      → (r.uid ≡ uid) × Validated r
  unfolding handle_request
  handle_request-Allows r uid h = elim (Result-cases (decoder.convert_kind r.kind)) [
    | inr (x, d) ↦ absurd (ground arith)
    | inl (k, d) ↦ elim (Bool-cases (is_kind k "v1" "GreenplumCluster")) [
      | inl e ↦ let (a, b) = handle_cluster-Allows r uid (ground arith) in (a, cluster k d e b)
      | inr e ↦ elim (Bool-cases (is_kind k "v1beta1" "GreenplumPXFService")) [
        | inl f ↦ let (a, b) = handle_pxf-Allows r uid (ground arith) in (a, pxf k d f b)
        | inr f ↦ absurd (ground arith)
      ]
    ]
  ]

  -- A response that allows something answers a JSON request whose body decodes to a review with
  -- that UID, of one of the two kinds of resources and one of the two operations, and the
  -- validation of that kind and operation passed on the decoded objects.
  pub handle_validate-Allows :
      (http : HttpRequest) (uid : String)
      → Allows (handle_validate access quantities decoder http) uid
      → (body : String) × (r : AdmissionRequest) × (http.content_type ≡ "application/json")
        × (http.body ≡ ok body)
        × (decoder.review body ≡ ok (some r))
        × (r.uid ≡ uid)
        × Validated r
  unfolding handle_validate
  handle_validate-Allows http uid h =
      elim (Bool-cases (str_eq http.content_type "application/json")) [
        | inr e ↦ absurd (ground arith)
        | inl e ↦ elim (Result-cases http.body) [
          | inr (x, d) ↦ absurd (ground arith)
          | inl (body, d) ↦ elim (Result-cases (decoder.review body)) [
            | inr (x, f) ↦ absurd (ground arith)
            | inl (o, f) ↦ elim (Option-cases o) [
              | inl g ↦ absurd (ground arith)
              | inr (r, g) ↦
                  let (a, b) = handle_request-Allows r uid (ground arith) in
                  (body, r, (eq_iff _ _).0 e, d, ground arith, a, b)
            ]
          ]
        ]
      ]
