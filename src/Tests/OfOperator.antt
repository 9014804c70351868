-- ===== src/Tests/OfOperator.antt =====
-- The reconcilers on a concrete cluster.
use greenplum_for_kubernetes.Prelude.{
  inl, inr, ℕ, ◌≤◌, true, false, List, [], ◌∷◌, ◌≡◌, ◌⊎◌, ◌↔◌, refl, map, In, length, pushed,
}
use greenplum_for_kubernetes.Prelude.Int.{ℤ, pos}
use greenplum_for_kubernetes.Prelude.Text.{String}
use greenplum_for_kubernetes.Prelude.Effects.{Result, ok, err}
use greenplum_for_kubernetes.Api.Cluster.{GreenplumCluster}
use greenplum_for_kubernetes.Operator.World.{
  Call, Object, stateful_set, role, config_map, Node, World, Reconciler, create_or_update,
}
use greenplum_for_kubernetes.Operator.Resources.{
  mirror_object, write_all, create_or_update_cluster_resources,
}
use greenplum_for_kubernetes.Operator.Resources.Prerequisites.{
  prerequisites, IsWritten, create_or_update_cluster_resources-prerequisites,
}
use greenplum_for_kubernetes.Operator.StatefulSet.{type_master, generate_stateful_set_params}
use greenplum_for_kubernetes.Operator.Defaults.{set_default_greenplum_cluster_values}
use greenplum_for_kubernetes.Operator.Executor.{get_current_active_master}
use greenplum_for_kubernetes.Operator.Reconcile.{
  reconcile, reconcile_found, reconcile_resources, cluster_exists,
}
use greenplum_for_kubernetes.Operator.Reconcile.Safety.{reconcile-own_image}
use greenplum_for_kubernetes.Operator.Reconcile.Answered.{IsSeen}
use greenplum_for_kubernetes.Operator.Resources.Trace.{segment_b-written_iff}
use greenplum_for_kubernetes.Operator.Finalizer.{slice_contains_string, handle_finalizer}
use greenplum_for_kubernetes.Operator.Finalizer.Order.{IsHandled, handle_finalizer-IsHandled}
use greenplum_for_kubernetes.Operator.Expansion.{
  handle_expand, expand_job, get_current_segment_count,
}
use greenplum_for_kubernetes.Operator.Expansion.Trace.{
  Grows, Cleared, looked, handle_expand-creates,
}
use greenplum_for_kubernetes.Operator.AntiAffinity.{
  is_anti_affinity_valid, label_from, label_alternate_nodes, handle_anti_affinity,
}
use greenplum_for_kubernetes.Operator.AntiAffinity.Labels.{label_calls}
use greenplum_for_kubernetes.Operator.AntiAffinity.Spread.{
  master_label, segment_label, listed, handle_anti_affinity-spreads,
}
use greenplum_for_kubernetes.Tests.Fixtures.{missing, cluster}

abbrev pub nodes : List Node
nodes =
    record { name = "n1"; labels = [] }
    ∷ record { name = "n2"; labels = [] }
    ∷ record { name = "n3"; labels = [] }
    ∷ []

abbrev pub world : World ℕ
world = record {
  get_cluster = λ h ns name. ok cluster;
  patch_cluster = λ h c. ok c;
  execute = λ h command ns p. ok "1\n";
  list_stateful_sets = λ h ns labels. ok 0;
  list_nodes = λ h labels. ok nodes;
  patch_node = λ h n. ok tt;
  create_or_update = λ h ns o. ok tt;
  get_job = λ h ns name. err missing;
  delete_job = λ h ns name. ok tt;
  create_job = λ h j. ok tt;
  cluster_equal = λ a b. false;
}

abbrev parse_int32 : String → Result ℤ
parse_int32 s = ok (pos 1)

-- This operator brings a newer image than the cluster's.
abbrev reconciler : Reconciler
reconciler = record { instance_image = "greenplum:2"; operator_image = "operator:2" }

abbrev deleted_cluster : GreenplumCluster ℕ
deleted_cluster = record cluster { is_deleted = true }

-- The server takes everything but stateful sets.
abbrev without_sets : Object ℕ → Result (Unit {0})
without_sets (stateful_set name params) = err missing
without_sets _ = ok tt

abbrev no_sets : World ℕ
no_sets = record world { create_or_update = λ h ns o. without_sets o }

create_or_update_cluster_resources-prerequisites_example :
    IsWritten no_sets "gp"
      (pushed (map (create_or_update "gp") (prerequisites reconciler cluster)) [])
      role
unfolding create_or_update_cluster_resources write_all
create_or_update_cluster_resources-prerequisites_example =
    create_or_update_cluster_resources-prerequisites reconciler cluster no_sets "master"
      (generate_stateful_set_params type_master cluster "greenplum:2") []
      (pushed (map (create_or_update "gp") (prerequisites reconciler cluster)) []) refl role
      (inr (inr (inr (inr (inr (inl refl))))))

segment_b-written_iff_example :
    In
      (create_or_update "gp" (mirror_object reconciler cluster))
      (create_or_update_cluster_resources world reconciler cluster []).1
    ↔ (cluster.spec.segments.mirrors ≡ "yes")
unfolding create_or_update_cluster_resources write_all
segment_b-written_iff_example = segment_b-written_iff reconciler cluster world refl

handle_finalizer-IsHandled_example :
    IsHandled world deleted_cluster "master-0" []
      (handle_finalizer world deleted_cluster "master-0" [])
handle_finalizer-IsHandled_example = handle_finalizer-IsHandled world deleted_cluster "master-0" []

handle_expand-creates_example :
    Grows world parse_int32 reconciler cluster "master-0" []
    × (expand_job world parse_int32 reconciler cluster "master-0"
        ≡ expand_job world parse_int32 reconciler cluster "master-0")
    × Cleared world parse_int32 reconciler cluster "master-0" []
        (looked world parse_int32 reconciler cluster "master-0" [])
unfolding handle_expand get_current_segment_count
handle_expand-creates_example =
    handle_expand-creates world parse_int32 reconciler cluster "master-0" []
      (expand_job world parse_int32 reconciler cluster "master-0")
      (looked world parse_int32 reconciler cluster "master-0" []) refl

handle_anti_affinity-spreads_example :
    (masters segments : List Node) × (ok nodes ≡ ok masters)
    × (ok nodes ≡ ok segments)
    × (cluster.spec.master_and_standby.pod.anti_affinity ≡ cluster.spec.segments.pod.anti_affinity)
    × (2 ≤ length masters)
    × (2 ≤ length segments)
    × ((handle_anti_affinity world cluster []).1
        ≡ pushed (label_calls 0 segments (segment_label world cluster []) "a" "b") (
            pushed
              (label_calls 0 masters (master_label world cluster []) "true" "true")
              (listed world cluster [])))
unfolding handle_anti_affinity is_anti_affinity_valid label_alternate_nodes label_from
handle_anti_affinity-spreads_example = handle_anti_affinity-spreads world cluster [] refl refl

-- The cluster has its stateful sets, and the server takes no object.
abbrev closed_world : World ℕ
closed_world = record world {
  list_stateful_sets = λ h ns labels. ok 1;
  create_or_update = λ h ns o. err missing;
}

-- The operator of the cluster's own image.
abbrev own_reconciler : Reconciler
own_reconciler = record { instance_image = "greenplum:1"; operator_image = "operator:2" }

abbrev first_write : Call ℕ
first_write = create_or_update "gp" (config_map (set_default_greenplum_cluster_values cluster))

reconcile-own_image_example :
    (c d : GreenplumCluster ℕ) × (closed_world.get_cluster [] "gp" "my-greenplum" ≡ ok c)
    × IsSeen closed_world c d
    × ((d.status.instance_image ≡ "") ⊎ (d.status.instance_image ≡ "greenplum:1"))
unfolding reconcile reconcile_found reconcile_resources handle_finalizer slice_contains_string
    get_current_active_master cluster_exists create_or_update_cluster_resources write_all
    set_default_greenplum_cluster_values
reconcile-own_image_example =
    reconcile-own_image closed_world parse_int32 own_reconciler "gp" "my-greenplum" first_write tt
      (inl refl)
