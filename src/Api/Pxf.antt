-- ===== src/Api/Pxf.antt =====
-- greenplum-operator/api/v1beta1/greenplumpxfservice_types.go
use greenplum_for_kubernetes.Prelude.{Option}
use greenplum_for_kubernetes.Prelude.Int.{ℤ}
use greenplum_for_kubernetes.Prelude.Map.{Labels}
use greenplum_for_kubernetes.Prelude.Text.{String}

pub record S3Source : Type 0 where
  pub secret : String
  pub bucket : String
  pub end_point : String
  pub protocol : String
  pub folder : String

pub record GreenplumPxfServiceSpec (Q : Type 0) : Type 0 where
  pub replicas : ℤ  -- int32
  pub cpu : Q
  pub memory : Q
  pub worker_selector : Labels
  pub pxf_conf : Option S3Source

-- `unset` is the empty string.
pub data GreenplumPxfServicePhase : Type 0 where
  unset pending degraded running : GreenplumPxfServicePhase

pub record GreenplumPxfService (Q : Type 0) : Type 0 where
  pub name : String
  pub namespace : String
  pub spec : GreenplumPxfServiceSpec Q
  pub phase : GreenplumPxfServicePhase
