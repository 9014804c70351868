-- ===== src/Operator/Resources.antt =====
-- createOrUpdateClusterResources of
-- greenplum-operator/controllers/greenplumcluster/greenplumcluster_controller.go
pub mod Trace
pub mod Prerequisites
use greenplum_for_kubernetes.Prelude.{List, [], ◌∷◌, if◌then◌else◌}
use greenplum_for_kubernetes.Prelude.Text.{String, str_eq}
use greenplum_for_kubernetes.Prelude.Effects.{Eff, pure, ◌>>◌}
use greenplum_for_kubernetes.Api.Cluster.{GreenplumCluster}
use greenplum_for_kubernetes.Operator.StatefulSet.{
  type_master, type_segment_a, type_segment_b, generate_stateful_set_params,
}
use greenplum_for_kubernetes.Operator.World.{
  Object, config_map, ssh_secret, agent_service, greenplum_service, service_account, role,
  role_binding, stateful_set, Call, World, Reconciler, do_create_or_update,
}

module _ {Q : Type 0} (r : Reconciler) where
  abbrev pub mirror_object : GreenplumCluster Q → Object Q
  mirror_object c =
      stateful_set "segment-b" (generate_stateful_set_params type_segment_b c r.instance_image)

  -- The objects in the order in which they are written.
  abbrev pub cluster_objects : GreenplumCluster Q → List (Object Q)
  cluster_objects c =
      config_map c
      ∷ ssh_secret c.name
      ∷ agent_service c.name
      ∷ greenplum_service c.name
      ∷ service_account
      ∷ role
      ∷ role_binding
      ∷ stateful_set "master" (generate_stateful_set_params type_master c r.instance_image)
      ∷ stateful_set "segment-a" (generate_stateful_set_params type_segment_a c r.instance_image)
      ∷ (if str_eq c.spec.segments.mirrors "yes" then mirror_object c ∷ [] else [])

module _ {Q : Type 0} (w : World Q) where
  -- The first CreateOrUpdate that fails ends the row.
  unfoldable pub write_all : String → List (Object Q) → Eff (Call Q) (Unit {0})
  write_all ns [] = pure tt
  write_all ns (o ∷ rest) = do_create_or_update w ns o >> write_all ns rest

  unfoldable pub create_or_update_cluster_resources :
      Reconciler → GreenplumCluster Q → Eff (Call Q) (Unit {0})
  unfolding write_all
  create_or_update_cluster_resources r c = write_all c.namespace (cluster_objects r c)
