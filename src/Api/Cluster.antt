-- ===== src/Api/Cluster.antt =====
-- greenplum-operator/api/v1/greenplumcluster_types.go
use greenplum_for_kubernetes.Prelude.{Bool, List}
use greenplum_for_kubernetes.Prelude.Int.{ℤ}
use greenplum_for_kubernetes.Prelude.Map.{Labels}
use greenplum_for_kubernetes.Prelude.Text.{String}

pub record GreenplumPodSpec (Q : Type 0) : Type 0 where
  pub memory : Q
  pub cpu : Q
  pub storage_class_name : String
  pub storage : Q
  pub worker_selector : Labels
  pub anti_affinity : String

pub record GreenplumMasterAndStandbySpec (Q : Type 0) : Type 0 where
  pub pod : GreenplumPodSpec Q
  pub host_based_authentication : String
  pub standby : String

pub record GreenplumSegmentsSpec (Q : Type 0) : Type 0 where
  pub pod : GreenplumPodSpec Q
  pub primary_segment_count : ℤ  -- int32
  pub mirrors : String

pub record GreenplumPxfSpec : Type 0 where
  pub service_name : String

pub record GreenplumClusterSpec (Q : Type 0) : Type 0 where
  pub master_and_standby : GreenplumMasterAndStandbySpec Q
  pub segments : GreenplumSegmentsSpec Q
  pub pxf : GreenplumPxfSpec

-- `unset` is the empty string, a cluster that was not reconciled yet.
pub data GreenplumClusterPhase : Type 0 where
  unset pending running failed deleting : GreenplumClusterPhase

pub record GreenplumClusterStatus : Type 0 where
  pub instance_image : String
  pub operator_version : String
  pub phase : GreenplumClusterPhase

-- Of the object's metadata the program reads the name, the namespace, the finalizers and whether
-- a deletion timestamp is set.
pub record GreenplumCluster (Q : Type 0) : Type 0 where
  pub name : String
  pub namespace : String
  pub finalizers : List String
  pub is_deleted : Bool
  pub spec : GreenplumClusterSpec Q
  pub status : GreenplumClusterStatus
