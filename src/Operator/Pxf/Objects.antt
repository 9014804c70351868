-- ===== src/Operator/Pxf/Objects.antt =====
-- greenplum-operator/pkg/pxf/pxf.go: what the Service and the Deployment of a PXF service are
-- filled with.
pub mod Again
use greenplum_for_kubernetes.Prelude.{
  ℕ, Bool, true, false, not, ◌||◌, Option, none, some, List, [], ◌∷◌, ◌++◌, if◌then◌else◌,
}
use greenplum_for_kubernetes.Prelude.Int.{ℤ, pos, ◌==ℤ◌}
use greenplum_for_kubernetes.Prelude.Map.{Labels, lookup}
use greenplum_for_kubernetes.Prelude.Text.{String, str_eq}
use greenplum_for_kubernetes.Api.Quantity.{Quantities}
use greenplum_for_kubernetes.Api.Pxf.{GreenplumPxfService, S3Source}

-- An environment variable: a value, or a key of a secret.
pub data EnvVar : Type 0 where
  plain_value : (name value : String) → EnvVar
  from_secret : (name secret key : String) → EnvVar

pub record ExecProbe : Type 0 where
  pub command : List String
  pub initial_delay_seconds : ℕ
  pub timeout_seconds : ℕ
  pub period_seconds : ℕ  -- not written by the operator

pub record PxfContainer (Q : Type 0) : Type 0 where
  pub env : List EnvVar
  pub name : String
  pub args : List String
  pub image : String
  pub image_pull_policy : String
  pub ports : List (ℕ × String)
  pub readiness_probe : Option ExecProbe
  pub limits : List (String × Q)
  pub requests : List (String × Q)
  pub working_dir : String  -- not written by the operator

pub record PxfDeployment (Q : Type 0) : Type 0 where
  pub labels : Labels
  pub replicas : Option ℤ
  pub selector : Labels
  pub template_labels : Labels
  pub node_selector : Labels
  pub image_pull_secrets : List String
  pub containers : List (PxfContainer Q)

pub record PxfKubeService : Type 0 where
  pub labels : Labels
  pub selector : Labels
  pub ports : List (ℕ × String × ℕ)
  pub cluster_ip : String  -- not written by the operator

abbrev pub generate_labels : String → Labels
generate_labels name = ("app", "greenplum-pxf") ∷ ("greenplum-pxf", name) ∷ []

unfoldable pub generate_s3_env : S3Source → List EnvVar
generate_s3_env s =
    from_secret "S3_SECRET_ACCESS_KEY" s.secret "secret_access_key"
    ∷ from_secret "S3_ACCESS_KEY_ID" s.secret "access_key_id"
    ∷ plain_value "S3_BUCKET" s.bucket
    ∷ plain_value "S3_ENDPOINT" s.end_point
    ∷ plain_value "S3_ENDPOINT_IS_SECURE" (if str_eq s.protocol "http" then "false" else "true")
    ∷ plain_value "S3_FOLDER" s.folder
    ∷ []

abbrev pub s3_env_of : Option S3Source → List EnvVar
s3_env_of none = []
s3_env_of (some s) = if not (str_eq s.secret "") then generate_s3_env s else []

abbrev fill_probe : Option ExecProbe → ExecProbe
fill_probe none = record {
  command = "/usr/local/pxf-gp6/bin/pxf" ∷ "status" ∷ [];
  initial_delay_seconds = 30;
  timeout_seconds = 5;
  period_seconds = 0;
}
fill_probe (some p) = record p {
  command = "/usr/local/pxf-gp6/bin/pxf" ∷ "status" ∷ [];
  initial_delay_seconds = 30;
  timeout_seconds = 5;
}

unfoldable pub modify_service : String → PxfKubeService → PxfKubeService
modify_service name s = record s {
  labels = generate_labels name;
  selector = generate_labels name;
  ports = (5888, "TCP", 5888) ∷ [];
}

module _ {Q : Type 0} (quantity : Quantities Q) (p : GreenplumPxfService Q) (image : String) where
  abbrev found_or_zero : Option Q → Q
  found_or_zero none = quantity.zero
  found_or_zero (some q) = q

  -- Where the CPU or the memory compares different, the container's resources are set anew.
  abbrev pub resources_differ : List (String × Q) → Bool
  resources_differ limits =
      not (quantity.cmp (found_or_zero (lookup "cpu" limits)) p.spec.cpu ==ℤ pos 0)
      || not (quantity.cmp (found_or_zero (lookup "memory" limits)) p.spec.memory ==ℤ pos 0)

  abbrev pub wanted_limits : List (String × Q)
  wanted_limits = ("cpu", p.spec.cpu) ∷ ("memory", p.spec.memory) ∷ []

  unfoldable pub fill_pxf_container : PxfContainer Q → PxfContainer Q
  fill_pxf_container c = record {
    env = plain_value "PXF_JVM_OPTS" "-XX:MaxRAMPercentage=75.0" ∷ s3_env_of p.spec.pxf_conf;
    name = "pxf";
    args = "/home/gpadmin/tools/startPXF" ∷ [];
    image = image;
    image_pull_policy = "IfNotPresent";
    ports = (5888, "TCP") ∷ [];
    readiness_probe = some (fill_probe c.readiness_probe);
    limits = if resources_differ c.limits then wanted_limits else c.limits;
    requests = if resources_differ c.limits then [] else c.requests;
    working_dir = c.working_dir;
  }

  abbrev pub blank_pxf_container : PxfContainer Q
  blank_pxf_container = record {
    env = [];
    name = "";
    args = [];
    image = "";
    image_pull_policy = "";
    ports = [];
    readiness_probe = none;
    limits = [];
    requests = [];
    working_dir = "";
  }

  abbrev pub fill_first : List (PxfContainer Q) → List (PxfContainer Q)
  fill_first [] = fill_pxf_container blank_pxf_container ∷ []
  fill_first (c ∷ rest) = fill_pxf_container c ∷ rest

  unfoldable pub modify_deployment : PxfDeployment Q → PxfDeployment Q
  unfolding fill_pxf_container
  modify_deployment d = record {
    labels = generate_labels p.name;
    replicas = some p.spec.replicas;
    selector = generate_labels p.name;
    template_labels = generate_labels p.name;
    node_selector = p.spec.worker_selector;
    image_pull_secrets = "regsecret" ∷ [];
    containers = fill_first d.containers;
  }
