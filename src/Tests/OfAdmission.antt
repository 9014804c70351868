-- ===== src/Tests/OfAdmission.antt =====
-- The webhook on concrete requests.
use greenplum_for_kubernetes.Prelude.{◌==◌, arith, ℕ, true, some, [], ◌≡◌, ◌↔◌, refl}
use greenplum_for_kubernetes.Prelude.Text.{String}
use greenplum_for_kubernetes.Prelude.Effects.{ok, err}
use greenplum_for_kubernetes.Operator.Defaults.{set_default_greenplum_cluster_values}
use greenplum_for_kubernetes.Admission.Verdict.{pass}
use greenplum_for_kubernetes.Admission.Access.{Access}
use greenplum_for_kubernetes.Admission.Shared.{validate_worker_selector, validate_resource_quantity}
use greenplum_for_kubernetes.Admission.PxfService.{validate_greenplum_pxf_service}
use greenplum_for_kubernetes.Admission.Create.{validate_create_greenplum_cluster}
use greenplum_for_kubernetes.Admission.Create.Admissible.{Admissible, validate_create-pass_iff}
use greenplum_for_kubernetes.Admission.Update.{validate_update_greenplum_cluster}
use greenplum_for_kubernetes.Admission.Update.Unchanged.{Updatable, validate_update-pass_iff}
use greenplum_for_kubernetes.Admission.Handler.{
  AdmissionRequest, Decoder, HttpRequest, handle_validate, handle_request, handle_pxf,
}
use greenplum_for_kubernetes.Admission.Handler.Allowed.{Validated, handle_validate-Allows}
use greenplum_for_kubernetes.Tests.Fixtures.{numbers, missing, cluster, pxf_service}

abbrev access : Access ℕ
access = record {
  list_clusters = λ ns. ok [];
  list_pvcs = λ ns labels. ok [];
  get_job = λ ns name. err missing;
  get_deployment = λ ns name. err missing;
  execute = λ command ns name. ok "0";
  cluster_spec_equal = λ a b. true;
  pxf_spec_equal = λ a b. true;
  selector_equal = λ a b. true;
  instance_image = "greenplum:1";
}

abbrev review : AdmissionRequest
review = record {
  uid = "u1";
  kind = record {
    group = "greenplum.pivotal.io";
    version = "v1beta1";
    kind = "GreenplumPXFService";
  };
  operation = "CREATE";
  object = "{}";
  old_object = "";
}

abbrev decoder : Decoder ℕ
decoder = record {
  review = λ body. ok (some review);
  convert_kind = λ k. ok k;
  cluster = λ object. ok cluster;
  pxf = λ object. ok pxf_service;
  print_kind = λ k. k.kind;
}

abbrev http : HttpRequest
http = record { content_type = "application/json"; body = ok "{}" }

==-refl : (q : ℕ) → (q == q) ≡ true
==-refl q = ground arith

handle_validate-Allows_example :
    (body : String) × (r : AdmissionRequest) × (http.content_type ≡ "application/json")
    × (http.body ≡ ok body)
    × (decoder.review body ≡ ok (some r))
    × (r.uid ≡ "u1")
    × Validated access numbers decoder r
unfolding handle_validate handle_request handle_pxf validate_greenplum_pxf_service
    validate_worker_selector validate_resource_quantity
handle_validate-Allows_example = handle_validate-Allows access numbers decoder http "u1" refl

validate_create-pass_iff_example :
    (validate_create_greenplum_cluster access numbers cluster ≡ pass)
    ↔ Admissible access numbers (set_default_greenplum_cluster_values cluster)
validate_create-pass_iff_example = validate_create-pass_iff access numbers cluster

validate_update-pass_iff_example :
    (validate_update_greenplum_cluster access numbers cluster cluster ≡ pass)
    ↔ Updatable access numbers cluster cluster
validate_update-pass_iff_example = validate_update-pass_iff access numbers cluster cluster
