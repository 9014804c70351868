-- ===== src/Api/Objects.antt =====
-- The fields that the program reads of Kubernetes' own objects.
use greenplum_for_kubernetes.Prelude.{Option, List}
use greenplum_for_kubernetes.Prelude.Int.{ℤ}
use greenplum_for_kubernetes.Prelude.Map.{Labels}
use greenplum_for_kubernetes.Prelude.Text.{String}

-- A PersistentVolumeClaim: its labels, Spec.Resources.Limits[storage], Spec.StorageClassName.
pub record Pvc (Q : Type 0) : Type 0 where
  pub labels : Labels
  pub storage_limit : Option Q
  pub storage_class_name : Option String

-- A batch Job: the counters of its status.
pub record JobStatus : Type 0 where
  pub succeeded : ℤ
  pub failed : ℤ

-- A Deployment: the images of its pod template's containers, and the counters of its status.
pub record Deployment : Type 0 where
  pub images : List String
  pub ready_replicas : ℤ
  pub unavailable_replicas : ℤ
  pub updated_replicas : ℤ
