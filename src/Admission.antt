-- ===== src/Admission.antt =====
-- greenplum-operator/pkg/admission: the validating webhook. Proofs are in the modules below.
pub mod Verdict
pub mod Access
pub mod Shared
pub mod Create
pub mod Update
pub mod PxfService
pub mod Handler
pub mod Registration
pub mod Webhook
