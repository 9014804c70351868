-- ===== src/Admission/Registration.antt =====
-- greenplum-operator/pkg/admission/webhook.go and certificate.go: the objects that the webhook makes
-- for its certificate and its registration.
use greenplum_for_kubernetes.Prelude.{ℕ, List, [], ◌∷◌, ◌++◌}
use greenplum_for_kubernetes.Prelude.Text.{String, ◌&◌}
use greenplum_for_kubernetes.Prelude.Map.{Labels, insert}

pub record CsrCondition : Type 0 where
  pub kind : String
  pub reason : String
  pub message : String

-- certificates.CertificateSigningRequest
pub record Csr : Type 0 where
  pub name : String
  pub labels : Labels
  pub groups : List String
  pub usages : List String
  pub request : String
  pub conditions : List CsrCondition

unfoldable pub generate_certificate_signing_request : (cert : String) → Csr
generate_certificate_signing_request cert = record {
  name = "greenplum-validating-webhook-csr";
  labels = ("app", "greenplum-operator") ∷ [];
  groups = "system:authenticated" ∷ [];
  usages = "digital signature" ∷ "key encipherment" ∷ "server auth" ∷ [];
  request = cert;
  conditions = [];
}

unfoldable pub approved : Csr → Csr
approved csr = record csr {
  conditions =
      csr.conditions
      ++ (record {
        kind = "Approved";
        reason = "AutoApproved";
        message = "certificate approved by Greenplum Operator";
      }
          ∷ []);
}

-- A rule of the registration: creation and update of one resource.
pub record WebhookRule : Type 0 where
  pub operations : List String
  pub api_groups : List String
  pub api_versions : List String
  pub resources : List String

pub record RegisteredWebhook : Type 0 where
  pub name : String
  pub service_namespace : String
  pub service_name : String
  pub path : String
  pub ca_bundle : String
  pub rules : List WebhookRule
  pub failure_policy : String
  pub side_effects : String
  pub admission_review_versions : List String

pub record WebhookConfig : Type 0 where
  pub labels : Labels
  pub webhooks : List RegisteredWebhook

pub record WebhookService : Type 0 where
  pub name : String
  pub namespace : String
  pub labels : Labels
  pub port_name : String
  pub port : ℕ
  pub target_port : ℕ
  pub selector : Labels
  pub kind : String

-- The fields of Webhook that are data.
pub record Webhook : Type 0 where
  pub namespace : String
  pub name_suffix : String

abbrev pub service_name : Webhook → String
service_name w = "greenplum-validating-webhook-service" & w.name_suffix

abbrev rule_for : (version resource : String) → WebhookRule
rule_for version resource = record {
  operations = "CREATE" ∷ "UPDATE" ∷ [];
  api_groups = "greenplum.pivotal.io" ∷ [];
  api_versions = version ∷ [];
  resources = resource ∷ [];
}

unfoldable pub modify_webhook_configuration :
    Webhook → (signed_cert : String) → WebhookConfig → WebhookConfig
modify_webhook_configuration w signed_cert config = record {
  labels = insert "app" "greenplum-operator" config.labels;
  webhooks =
      record {
        name = "greenplum.pivotal.io";
        service_namespace = w.namespace;
        service_name = service_name w;
        path = "/validate";
        ca_bundle = signed_cert;
        rules = rule_for "v1" "greenplumclusters" ∷ rule_for "v1beta1" "greenplumpxfservices" ∷ [];
        failure_policy = "Fail";
        side_effects = "None";
        admission_review_versions = "v1beta1" ∷ [];
      }
      ∷ [];
}

unfoldable pub create_svc_for_validating_webhook_configuration : Webhook → WebhookService
create_svc_for_validating_webhook_configuration w = record {
  name = service_name w;
  namespace = w.namespace;
  labels = ("app", "greenplum-operator") ∷ [];
  port_name = "webhook";
  port = 443;
  target_port = 443;
  selector = ("app", "greenplum-operator") ∷ [];
  kind = "ClusterIP";
}
