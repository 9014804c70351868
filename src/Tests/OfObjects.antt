-- ===== src/Tests/OfObjects.antt =====
-- The objects that the operator fills in, on concrete ones.
use greenplum_for_kubernetes.Prelude.{ℕ, none, [], ◌∷◌, ◌≡◌}
use greenplum_for_kubernetes.Prelude.Int.{pos}
use greenplum_for_kubernetes.Prelude.Effects.{ok}
use greenplum_for_kubernetes.Api.Objects.{Deployment}
use greenplum_for_kubernetes.Operator.StatefulSet.{
  GreenplumStatefulSetParams, type_segment_a, generate_stateful_set_params,
}
use greenplum_for_kubernetes.Operator.StatefulSet.Modify.{
  StatefulSet, modify_greenplum_stateful_set,
}
use greenplum_for_kubernetes.Operator.StatefulSet.Modify.Idempotent.{
  modify_greenplum_stateful_set-idempotent,
}
use greenplum_for_kubernetes.Operator.Pxf.{PxfWorld}
use greenplum_for_kubernetes.Operator.Pxf.Objects.{PxfDeployment}
use greenplum_for_kubernetes.Tests.Fixtures.{numbers, cluster, pxf_service}

abbrev params : GreenplumStatefulSetParams ℕ
params = generate_stateful_set_params type_segment_a cluster "greenplum:1"

abbrev empty_set : StatefulSet ℕ
empty_set = record {
  name = "segment-a";
  namespace = "gp";
  labels = [];
  replicas = none;
  selector = [];
  service_name = "";
  pod_management_policy = "";
  claims = [];
  template_labels = ("type", "old") ∷ [];
  dns_searches = [];
  node_selector = [];
  image_pull_secrets = [];
  containers = [];
  volumes = [];
  affinity = none;
  service_account_name = "";
}

modify_greenplum_stateful_set-idempotent_example :
    modify_greenplum_stateful_set numbers params
      (modify_greenplum_stateful_set numbers params empty_set)
    ≡ modify_greenplum_stateful_set numbers params empty_set
modify_greenplum_stateful_set-idempotent_example =
    modify_greenplum_stateful_set-idempotent numbers params empty_set

abbrev deployment : Deployment
deployment = record {
  images = "greenplum:1" ∷ [];
  ready_replicas = pos 2;
  unavailable_replicas = pos 0;
  updated_replicas = pos 2;
}

abbrev pxf_world : PxfWorld ℕ
pxf_world = record {
  get_deployment = λ h ns name. ok deployment;
  get_pxf = λ h ns name. ok pxf_service;
  write_service = λ h p. ok tt;
  write_deployment = λ h p image. ok deployment;
  patch_pxf = λ h p. ok tt;
}

abbrev pxf_deployment : PxfDeployment ℕ
pxf_deployment = record {
  labels = [];
  replicas = none;
  selector = [];
  template_labels = [];
  node_selector = [];
  image_pull_secrets = [];
  containers = [];
}
