-- ===== src/Admission/Webhook/Signed.antt =====
-- Where the certificate of the webhook comes from.
use greenplum_for_kubernetes.Prelude.{
  [], ◌++◌, ◌≡◌, ◌∙◌, ap, subst, refl, inl, inr, List, ◌∷◌, arith, Bool-cases,
}
use greenplum_for_kubernetes.Prelude.Text.{String, ◌&◌}
use greenplum_for_kubernetes.Prelude.Effects.{Result, ok, Result-cases}
use greenplum_for_kubernetes.Admission.Registration.{
  Csr, Webhook, generate_certificate_signing_request, approved,
}
use greenplum_for_kubernetes.Admission.Webhook.{
  WebhookWorld, WebhookCall, generate_request, delete_csr, create_csr, approve_csr, wait_signed,
  common_name, create_certificate_signing_request, approve_certificate_signing_request,
  generate_and_sign_tls_certificate,
}

module _ {R T : Type 0} (o : WebhookWorld R T) where
  create_certificate_signing_request-ok :
      (pem : String) (made : Csr) (h : List (WebhookCall R T))
      → (create_certificate_signing_request o pem h).0 ≡ ok made
      → (csr : Csr) × (o.own_csr (generate_certificate_signing_request pem) ≡ ok csr)
        × (o.create_csr (delete_csr csr ∷ h) csr ≡ ok made)
        × (create_certificate_signing_request o pem h
            ≡ (ok made, create_csr csr ∷ delete_csr csr ∷ h))
  unfolding create_certificate_signing_request
  create_certificate_signing_request-ok pem made h e =
      elim (Result-cases (o.own_csr (generate_certificate_signing_request pem))) [
        | inr (x, f) ↦ absurd (ground arith)
        | inl (csr, f) ↦
            let after : List (WebhookCall R T) = delete_csr csr ∷ h in
            elim (Result-cases (o.delete_csr h csr)) [
              | inl (u, i) ↦
                  let g : o.create_csr after csr ≡ ok made = rw (f, i) at e in
                  (csr, f, g, rw (f, i, g) refl)
              | inr (x, i) ↦ elim (Bool-cases x.is_not_found) [
                | inl j ↦
                    let g : o.create_csr after csr ≡ ok made = rw (f, i, j) at e in
                    (csr, f, g, rw (f, i, j, g) refl)
                | inr j ↦ absurd (ground arith)
              ]
            ]
      ]

  module _ (w : Webhook) where
    -- The name under which the API server finds the webhook.
    abbrev pub server_name : String
    server_name =
        ("greenplum-validating-webhook-service" & w.name_suffix) & "." & w.namespace & ".svc"

    -- A request made anew is approved as the server answered it, and the certificate is the one
    -- that is signed for the approved request.
    pub record Signed (pem : String) (loaded : T) (h after : List (WebhookCall R T)) : Type 0 where
      pub key : R
      pub csr_pem : String
      pub template : Csr
      pub csr : Csr
      pub made : Csr
      pub approval : Csr
      pub waiting : Csr
      pub requested : o.generate_request h server_name ≡ ok (key, csr_pem)
      pub asks : template.request ≡ csr_pem
      pub owned : o.own_csr template ≡ ok csr
      pub created : o.create_csr (delete_csr csr ∷ generate_request server_name ∷ h) csr ≡ ok made
      pub approves : approval ≡ record made {
        conditions =
            made.conditions
            ++ (record {
              kind = "Approved";
              reason = "AutoApproved";
              message = "certificate approved by Greenplum Operator";
            }
                ∷ []);
      }
      pub accepted :
          o.approve_csr
            (create_csr csr ∷ delete_csr csr ∷ generate_request server_name ∷ h)
            approval
          ≡ ok waiting
      pub signed :
          o.wait_signed
            (approve_csr approval
              ∷ create_csr csr
              ∷ delete_csr csr
              ∷ generate_request server_name
              ∷ h)
            waiting
            30
          ≡ ok pem
      pub paired : o.key_pair pem key ≡ ok loaded
      pub calls :
          after
          ≡ wait_signed waiting 30
            ∷ approve_csr approval
            ∷ create_csr csr
            ∷ delete_csr csr
            ∷ generate_request server_name
            ∷ h

    pub generate_and_sign_tls_certificate-Signed :
        (pem : String) (loaded : T) (h : List (WebhookCall R T))
        → (generate_and_sign_tls_certificate o w h).0 ≡ ok (pem, loaded)
        → Signed pem loaded h (generate_and_sign_tls_certificate o w h).1
    unfolding generate_and_sign_tls_certificate approve_certificate_signing_request approved
        generate_certificate_signing_request
    generate_and_sign_tls_certificate-Signed pem loaded h e =
        let name = common_name o w in
        let h1 : List (WebhookCall R T) = generate_request name ∷ h in
        elim (Result-cases (o.generate_request h name)) [
          | inr (x, f) ↦ absurd (ground arith)
          | inl (request, f) ↦
              let make = create_certificate_signing_request o request.1 in
              elim (Result-cases (make h1).0) [
                | inr (x, g) ↦ absurd (ground arith)
                | inl (made, g) ↦
                    let (csr, own, create, both) =
                      create_certificate_signing_request-ok request.1 made h1 g in
                    let h2 : List (WebhookCall R T) = create_csr csr ∷ delete_csr csr ∷ h1 in
                    let h3 : List (WebhookCall R T) = approve_csr (approved made) ∷ h2 in
                    elim (Result-cases (o.approve_csr h2 (approved made))) [
                      | inr (x, i) ↦ absurd (let z = rw (f, both, i) at e in ground arith)
                      | inl (waiting, i) ↦ elim (Result-cases (o.wait_signed h3 waiting 30)) [
                        | inr (x, j) ↦ absurd (let z = rw (f, both, i, j) at e in ground arith)
                        | inl (text, j) ↦ elim (Result-cases (o.key_pair text request.0)) [
                          | inr (x, k) ↦ absurd (let z = rw (f, both, i, j, k) at e in ground arith)
                          | inl (t, k) ↦
                              let z : ◌≡◌ {A = Result (String × T)} (ok (text, t))
                                  (ok (pem, loaded)) =
                                rw (f, both, i, j, k) at e in
                              let a : text ≡ pem = ground arith in
                              let b : t ≡ loaded = ground arith in
                              record {
                                key = request.0;
                                csr_pem = request.1;
                                template = generate_certificate_signing_request request.1;
                                csr = csr;
                                made = made;
                                approval = approved made;
                                waiting = waiting;
                                requested = f;
                                asks = refl;
                                owned = own;
                                created = create;
                                approves = refl;
                                accepted = i;
                                signed = j ∙ ap (λ x. ok x) a;
                                paired =
                                    subst (λ x. o.key_pair x request.0 ≡ ok loaded) a
                                      (k ∙ ap (λ x. ok x) b);
                                calls = rw (f, both, i, j, k) refl;
                              }
                        ]
                      ]
                    ]
              ]
        ]
