-- ===== src/Admission/Access.antt =====
-- What the webhook reads while it answers one request: the API server through KubeClient, and the
-- pods through PodCmdExecutor. Within one request a question has one answer.
use greenplum_for_kubernetes.Prelude.{Bool, List}
use greenplum_for_kubernetes.Prelude.Map.{Labels}
use greenplum_for_kubernetes.Prelude.Text.{String}
use greenplum_for_kubernetes.Prelude.Effects.{Result}
use greenplum_for_kubernetes.Api.Cluster.{GreenplumCluster, GreenplumClusterSpec}
use greenplum_for_kubernetes.Api.Pxf.{GreenplumPxfServiceSpec}
use greenplum_for_kubernetes.Api.Objects.{Pvc, JobStatus, Deployment}

pub record Access (Q : Type 0) : Type 0 where
  -- KubeClient.List of the clusters in a namespace, and of the claims that match labels
  pub list_clusters : String → Result (List (GreenplumCluster Q))
  pub list_pvcs : String → Labels → Result (List (Pvc Q))
  -- KubeClient.Get by namespace and name
  pub get_job : String → String → Result JobStatus
  pub get_deployment : String → String → Result Deployment
  -- PodCmdExecutor.Execute: command, namespace, pod; the answer is what stdout received
  pub execute : List String → String → String → Result String
  -- equality.Semantic.DeepEqual of k8s.io/apimachinery
  pub cluster_spec_equal : GreenplumClusterSpec Q → GreenplumClusterSpec Q → Bool
  pub pxf_spec_equal : GreenplumPxfServiceSpec Q → GreenplumPxfServiceSpec Q → Bool
  pub selector_equal : Labels → Labels → Bool
  -- Handler.InstanceImage
  pub instance_image : String
