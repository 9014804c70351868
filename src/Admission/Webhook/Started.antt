-- ===== src/Admission/Webhook/Started.antt =====
-- What has happened where the webhook was served.
use greenplum_for_kubernetes.Prelude.{[], ◌≡◌, refl, inl, inr, List, ◌∷◌, arith, Bool-cases}
use greenplum_for_kubernetes.Prelude.Text.{String, ◌&◌}
use greenplum_for_kubernetes.Prelude.Effects.{ok, Result-cases}
use greenplum_for_kubernetes.Admission.Registration.{
  Webhook, WebhookConfig, WebhookService, RegisteredWebhook, modify_webhook_configuration,
  create_svc_for_validating_webhook_configuration,
}
use greenplum_for_kubernetes.Admission.Webhook.Signed.{
  Signed, generate_and_sign_tls_certificate-Signed,
}
use greenplum_for_kubernetes.Admission.Webhook.{
  WebhookWorld, WebhookCall, read_config, write_config, create_service, start_server,
  generate_and_sign_tls_certificate, reconcile_validating_webhook_configuration, run_webhook,
}

module _ {R T : Type 0} (o : WebhookWorld R T) (w : Webhook) where
  -- The one webhook of the configuration is that of this server, and fails where the server is not
  -- reached.
  pub record IsOurs (pem : String) (hook : RegisteredWebhook) : Type 0 where
    pub bundle : hook.ca_bundle ≡ pem
    pub name : hook.service_name ≡ "greenplum-validating-webhook-service" & w.name_suffix
    pub namespace : hook.service_namespace ≡ w.namespace
    pub path : hook.path ≡ "/validate"
    pub policy : hook.failure_policy ≡ "Fail"

  -- The webhook is registered with the certificate `pem`, and the service that it names is made.
  pub record Registered (pem : String) (h after : List (WebhookCall R T)) : Type 0 where
    pub old : WebhookConfig
    pub wanted : WebhookConfig
    pub config : WebhookConfig
    pub hook : RegisteredWebhook
    pub template : WebhookService
    pub service : WebhookService
    pub read : o.read_config h ≡ ok old
    pub only : wanted.webhooks ≡ hook ∷ []
    pub ours : IsOurs pem hook
    pub owned : o.own_config wanted ≡ ok config
    pub written : o.write_config (read_config ∷ h) config ≡ ok tt
    pub reached : (template.name ≡ hook.service_name) × (template.namespace ≡ w.namespace)
    pub own_service : o.own_service template ≡ ok service
    pub made : o.create_service (write_config config ∷ read_config ∷ h) service ≡ ok tt
    pub calls : after ≡ create_service service ∷ write_config config ∷ read_config ∷ h

  registered_webhook :
      (pem : String) (old : WebhookConfig)
      → (hook : RegisteredWebhook) × ((modify_webhook_configuration w pem old).webhooks ≡ hook ∷ [])
        × IsOurs pem hook
        × ((create_svc_for_validating_webhook_configuration w).name ≡ hook.service_name)
        × ((create_svc_for_validating_webhook_configuration w).namespace ≡ w.namespace)
  unfolding modify_webhook_configuration create_svc_for_validating_webhook_configuration
  registered_webhook pem old = (
    _,
    refl,
    record { bundle = refl; name = refl; namespace = refl; path = refl; policy = refl },
    refl,
    refl,
  )

  reconcile-Registered :
      (pem : String) (h : List (WebhookCall R T))
      → (reconcile_validating_webhook_configuration o w pem h).0 ≡ ok tt
      → Registered pem h (reconcile_validating_webhook_configuration o w pem h).1
  unfolding reconcile_validating_webhook_configuration
  reconcile-Registered pem h e =
      let h1 : List (WebhookCall R T) = read_config ∷ h in
      elim (Result-cases (o.read_config h)) [
        | inr (x, f) ↦ absurd (ground arith)
        | inl (old, f) ↦
            elim (Result-cases (o.own_config (modify_webhook_configuration w pem old))) [
              | inr (x, g) ↦ absurd (ground arith)
              | inl (config, g) ↦ elim (Result-cases (o.write_config h1 config)) [
                | inr (x, i) ↦ absurd (ground arith)
                | inl (u, i) ↦
                    elim (Result-cases
                      (o.own_service (create_svc_for_validating_webhook_configuration w))) [
                        | inr (x, j) ↦ absurd (ground arith)
                        | inl (service, j) ↦
                            let (hook, only, ours, name, ns) = registered_webhook pem old in
                            let h2 : List (WebhookCall R T) = write_config config ∷ h1 in
                            elim (Result-cases (o.create_service h2 service)) [
                              | inr (x, k) ↦
                                  absurd (let z = rw (f, g, i, j, k) at e in ground arith)
                              | inl (v, k) ↦ record {
                                old = old;
                                wanted = modify_webhook_configuration w pem old;
                                config = config;
                                hook = hook;
                                template = create_svc_for_validating_webhook_configuration w;
                                service = service;
                                read = f;
                                only = only;
                                ours = ours;
                                owned = g;
                                written = i;
                                reached = (name, ns);
                                own_service = j;
                                made = k;
                                calls = rw (f, g, i, j) refl;
                              }
                            ]
                      ]
              ]
            ]
      ]

  -- Where Webhook.Run ends without an error, the server was its last call, started with a
  -- certificate that is loaded with the key of a request under the name of the webhook's service.
  -- This request was created anew, approved as the server answered it, and the certificate is the one
  -- that was signed for it. After that, and before the start, the same certificate was written as
  -- the bundle to trust of the only webhook that is registered, which names this service, and the
  -- service was made.
  pub run_webhook-started :
      (h : List (WebhookCall R T))
      → (run_webhook o w h).0 ≡ ok tt
      → (pem : String) × (loaded : T) × (h1 : List (WebhookCall R T)) × (h2 : List
          (WebhookCall R T))
        × Signed o w pem loaded h h1
        × Registered pem h1 h2
        × ((run_webhook o w h).1 ≡ start_server loaded ∷ h2)
  unfolding run_webhook
  run_webhook-started h e =
      let sign = generate_and_sign_tls_certificate o w in
      elim (Result-cases (sign h).0) [
        | inr (x, f) ↦ absurd (ground arith)
        | inl (signed, f) ↦
            let h1 = (sign h).1 in
            let register = reconcile_validating_webhook_configuration o w signed.0 in
            elim (Result-cases (register h1).0) [
              | inr (x, g) ↦ absurd (ground arith)
              | inl (u, g) ↦
                  let h2 = (register h1).1 in
                  let s = generate_and_sign_tls_certificate-Signed o w signed.0 signed.1 h f in
                  let r = reconcile-Registered signed.0 h1 g in
                  elim (Result-cases (o.start_server h2 signed.1)) [
                    | inl (v, i) ↦ (signed.0, signed.1, h1, h2, s, r, rw (f, g, i) refl)
                    | inr (x, i) ↦ elim (Bool-cases (o.is_server_closed x)) [
                      | inl j ↦ (signed.0, signed.1, h1, h2, s, r, rw (f, g, i, j) refl)
                      | inr j ↦ absurd (ground arith)
                    ]
                  ]
            ]
      ]
