-- ===== src/Admission/Webhook.antt =====
-- greenplum-operator/pkg/admission/webhook.go and certificate.go: the certificate is signed, then the
-- webhook is registered, then it is served.
pub mod Signed
pub mod Started
use greenplum_for_kubernetes.Admission.Registration.{
  create_svc_for_validating_webhook_configuration, WebhookService, modify_webhook_configuration,
  service_name, WebhookConfig, Webhook, approved, generate_certificate_signing_request, Csr,
}
use greenplum_for_kubernetes.Prelude.{Bool, true, false, ℕ, List, [], ◌∷◌, ◌++◌, if◌then◌else◌}
use greenplum_for_kubernetes.Prelude.Text.{String, ◌&◌}
use greenplum_for_kubernetes.Prelude.Map.{Labels, insert}
use greenplum_for_kubernetes.Prelude.Effects.{
  returned, Eff, Error, Result, ok, err, call, pure, fail, attempt, wrapping, ◌>>=◌, ◌>>◌,
}

-- The calls, for private keys `R` and loaded certificates `T`. `read_config` and
-- `write_config` are what CreateOrUpdate does with the configuration: it takes an empty one where there
-- is none, and need not send one that did not change.
pub data WebhookCall (R T : Type 0) : Type 0 where
  generate_request : (common_name : String) → WebhookCall R T
  delete_csr : Csr → WebhookCall R T
  create_csr : Csr → WebhookCall R T
  approve_csr : Csr → WebhookCall R T
  wait_signed : Csr → (seconds : ℕ) → WebhookCall R T
  read_config : WebhookCall R T
  write_config : WebhookConfig → WebhookCall R T
  create_service : WebhookService → WebhookCall R T
  start_server : T → WebhookCall R T

-- The answers; the `own_` fields are SetControllerReference on an object, `key_pair` is
-- tls.X509KeyPair, `is_server_closed` tells http.ErrServerClosed.
pub record WebhookWorld (R T : Type 0) : Type 0 where
  pub generate_request : List (WebhookCall R T) → String → Result (R × String)
  pub own_csr : Csr → Result Csr
  pub delete_csr : List (WebhookCall R T) → Csr → Result (Unit {0})
  pub create_csr : List (WebhookCall R T) → Csr → Result Csr
  pub approve_csr : List (WebhookCall R T) → Csr → Result Csr
  pub wait_signed : List (WebhookCall R T) → Csr → ℕ → Result String
  pub key_pair : String → R → Result T
  pub read_config : List (WebhookCall R T) → Result WebhookConfig
  pub own_config : WebhookConfig → Result WebhookConfig
  pub write_config : List (WebhookCall R T) → WebhookConfig → Result (Unit {0})
  pub own_service : WebhookService → Result WebhookService
  pub create_service : List (WebhookCall R T) → WebhookService → Result (Unit {0})
  pub start_server : List (WebhookCall R T) → T → Result (Unit {0})
  pub is_server_closed : Error → Bool

module _ {R T : Type 0} (o : WebhookWorld R T) where
  -- A missing request is no error.
  abbrev pub unless_missing : Result (Unit {0}) → Eff (WebhookCall R T) (Unit {0})
  unless_missing (ok u) = pure u
  unless_missing (err e) = if e.is_not_found then pure tt else fail e

  unfoldable pub create_certificate_signing_request : (csr_pem : String) → Eff (WebhookCall R T) Csr
  unfolding generate_certificate_signing_request
  create_certificate_signing_request csr_pem = do
    csr ← returned (o.own_csr (generate_certificate_signing_request csr_pem))
    gone ← attempt (call (delete_csr csr) (λ h. o.delete_csr h csr))
    unless_missing gone
    call (create_csr csr) (λ h. o.create_csr h csr)

  unfoldable pub approve_certificate_signing_request : Csr → Eff (WebhookCall R T) Csr
  unfolding approved
  approve_certificate_signing_request csr =
      call (approve_csr (approved csr)) (λ h. o.approve_csr h (approved csr))

  module _ (w : Webhook) where
    abbrev pub common_name : String
    common_name = service_name w & "." & w.namespace & ".svc"

    -- The signed certificate as a text, and loaded with its key.
    unfoldable pub generate_and_sign_tls_certificate : Eff (WebhookCall R T) (String × T)
    unfolding create_certificate_signing_request approve_certificate_signing_request
    generate_and_sign_tls_certificate = do
      request ←
          wrapping "failed to generate certificate signing request"
            (call (generate_request common_name) (λ h. o.generate_request h common_name))
      csr ←
          wrapping "failed to create certificate signing request"
            (create_certificate_signing_request request.1)
      approved_csr ←
          wrapping "failed to approve certificate signing request"
            (approve_certificate_signing_request csr)
      pem ←
          wrapping "failure while waiting for approval"
            (call (wait_signed approved_csr 30) (λ h. o.wait_signed h approved_csr 30))
      loaded ← wrapping "error loading keypair" (returned (o.key_pair pem request.0))
      pure (pem, loaded)

    -- The configuration that CreateOrUpdate writes.
    abbrev pub apply_config : (signed_cert : String) → Eff (WebhookCall R T) (Unit {0})
    apply_config signed_cert = do
      old ← call read_config (λ h. o.read_config h)
      new ←
          wrapping "couldn't set OwnerReferences on ValidatingWebhookConfig"
            (returned (o.own_config (modify_webhook_configuration w signed_cert old)))
      call (write_config new) (λ h. o.write_config h new)

    unfoldable pub reconcile_validating_webhook_configuration :
        (signed_cert : String) → Eff (WebhookCall R T) (Unit {0})
    unfolding modify_webhook_configuration create_svc_for_validating_webhook_configuration
    reconcile_validating_webhook_configuration signed_cert = do
      wrapping "failed to create ValidatingWebhookConfiguration" (apply_config signed_cert)
      service ←
          wrapping "couldn't set OwnerReferences on webhook Service"
            (returned (o.own_service (create_svc_for_validating_webhook_configuration w)))
      wrapping "error creating Service for Webhook"
          (call (create_service service) (λ h. o.create_service h service))

    abbrev unless_closed : Result (Unit {0}) → Eff (WebhookCall R T) (Unit {0})
    unless_closed (ok u) = pure u
    unless_closed (err e) =
        if o.is_server_closed e
        then pure tt
        else wrapping "validating admission webhook server start failed" (fail e)

    -- Webhook.Run
    unfoldable pub run_webhook : Eff (WebhookCall R T) (Unit {0})
    unfolding generate_and_sign_tls_certificate reconcile_validating_webhook_configuration
    run_webhook = do
      signed ← wrapping "getting certificate for webhook" generate_and_sign_tls_certificate
      wrapping "creating ValidatingWebhookConfiguration"
          (reconcile_validating_webhook_configuration signed.0)
      ended ← attempt (call (start_server signed.1) (λ h. o.start_server h signed.1))
      unless_closed ended
