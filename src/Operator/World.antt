-- ===== src/Operator/World.antt =====
-- What the GreenplumCluster reconciler asks of the API server and of the pods. Every answer is a
-- function of the calls made before, newest first.
use greenplum_for_kubernetes.Prelude.{ℕ, Bool, List}
use greenplum_for_kubernetes.Prelude.Int.{ℤ}
use greenplum_for_kubernetes.Prelude.Map.{Labels}
use greenplum_for_kubernetes.Prelude.Text.{String}
use greenplum_for_kubernetes.Prelude.Effects.{Eff, Result, call}
use greenplum_for_kubernetes.Api.Cluster.{GreenplumCluster}
use greenplum_for_kubernetes.Api.Objects.{JobStatus}
use greenplum_for_kubernetes.Operator.StatefulSet.{GreenplumStatefulSetParams}

pub record Node : Type 0 where
  pub name : String
  pub labels : Labels

-- The objects that createOrUpdateClusterResources writes, with what their content is made from.
pub data Object (Q : Type 0) : Type 0 where
  config_map : GreenplumCluster Q → Object Q
  ssh_secret : (cluster_name : String) → Object Q
  agent_service : (cluster_name : String) → Object Q
  greenplum_service : (cluster_name : String) → Object Q
  service_account : Object Q
  role : Object Q
  role_binding : Object Q
  stateful_set : (name : String) → GreenplumStatefulSetParams Q → Object Q

-- The arguments of gpexpandjob.GenerateJob, with the job's namespace and name.
pub record ExpandJob : Type 0 where
  pub namespace : String
  pub name : String
  pub image : String
  pub hostname : String
  pub new_seg_count : ℤ

pub data Call (Q : Type 0) : Type 0 where
  get_cluster : (namespace name : String) → Call Q
  patch_cluster : GreenplumCluster Q → Call Q
  execute : (command : List String) (namespace pod : String) → Call Q
  list_stateful_sets : (namespace : String) → Labels → Call Q
  list_nodes : Labels → Call Q
  patch_node : Node → Call Q
  create_or_update : (namespace : String) → Object Q → Call Q
  get_job : (namespace name : String) → Call Q
  delete_job : (namespace name : String) → Call Q
  create_job : ExpandJob → Call Q

pub record World (Q : Type 0) : Type 0 where
  pub get_cluster : List (Call Q) → String → String → Result (GreenplumCluster Q)
  -- the object as the server holds it after the patch
  pub patch_cluster : List (Call Q) → GreenplumCluster Q → Result (GreenplumCluster Q)
  pub execute : List (Call Q) → List String → String → String → Result String
  -- how many stateful sets match
  pub list_stateful_sets : List (Call Q) → String → Labels → Result ℕ
  pub list_nodes : List (Call Q) → Labels → Result (List Node)
  pub patch_node : List (Call Q) → Node → Result (Unit {0})
  pub create_or_update : List (Call Q) → String → Object Q → Result (Unit {0})
  pub get_job : List (Call Q) → String → String → Result JobStatus
  pub delete_job : List (Call Q) → String → String → Result (Unit {0})
  pub create_job : List (Call Q) → ExpandJob → Result (Unit {0})
  -- equality.Semantic.DeepEqual on clusters
  pub cluster_equal : GreenplumCluster Q → GreenplumCluster Q → Bool

-- The fields of the reconciler.
pub record Reconciler : Type 0 where
  pub instance_image : String
  pub operator_image : String

module _ {Q : Type 0} (w : World Q) where
  abbrev pub do_get_cluster : String → String → Eff (Call Q) (GreenplumCluster Q)
  do_get_cluster ns name = call (get_cluster ns name) (λ h. w.get_cluster h ns name)

  abbrev pub do_patch_cluster : GreenplumCluster Q → Eff (Call Q) (GreenplumCluster Q)
  do_patch_cluster c = call (patch_cluster c) (λ h. w.patch_cluster h c)

  abbrev pub do_execute : List String → String → String → Eff (Call Q) String
  do_execute command ns pod = call (execute command ns pod) (λ h. w.execute h command ns pod)

  abbrev pub do_list_stateful_sets : String → Labels → Eff (Call Q) ℕ
  do_list_stateful_sets ns labels =
      call (list_stateful_sets ns labels) (λ h. w.list_stateful_sets h ns labels)

  abbrev pub do_list_nodes : Labels → Eff (Call Q) (List Node)
  do_list_nodes labels = call (list_nodes labels) (λ h. w.list_nodes h labels)

  abbrev pub do_patch_node : Node → Eff (Call Q) (Unit {0})
  do_patch_node n = call (patch_node n) (λ h. w.patch_node h n)

  abbrev pub do_create_or_update : String → Object Q → Eff (Call Q) (Unit {0})
  do_create_or_update ns o = call (create_or_update ns o) (λ h. w.create_or_update h ns o)

  abbrev pub do_get_job : String → String → Eff (Call Q) JobStatus
  do_get_job ns name = call (get_job ns name) (λ h. w.get_job h ns name)

  abbrev pub do_delete_job : String → String → Eff (Call Q) (Unit {0})
  do_delete_job ns name = call (delete_job ns name) (λ h. w.delete_job h ns name)

  abbrev pub do_create_job : ExpandJob → Eff (Call Q) (Unit {0})
  do_create_job j = call (create_job j) (λ h. w.create_job h j)
