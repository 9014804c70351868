-- ===== src/Operator/Reconcile.antt =====
-- Reconcile of greenplum-operator/controllers/greenplumcluster/greenplumcluster_controller.go
pub mod Writes
pub mod Answered
pub mod Safety
use greenplum_for_kubernetes.Prelude.{ℕ, Bool, true, false, ◌&&◌, not, [], ◌∷◌, ltb, if◌then◌else◌}
use greenplum_for_kubernetes.Prelude.Int.{ℤ}
use greenplum_for_kubernetes.Prelude.Text.{String, str_eq}
use greenplum_for_kubernetes.Prelude.Effects.{
  Eff, Result, ok, err, wrap, wrapping, pure, fail, attempt, ◌>>=◌, ◌>>◌,
}
use greenplum_for_kubernetes.Api.Cluster.{GreenplumCluster, pending, running}
use greenplum_for_kubernetes.Operator.Defaults.{set_default_greenplum_cluster_values}
use greenplum_for_kubernetes.Operator.Executor.{get_current_active_master}
use greenplum_for_kubernetes.Operator.World.{
  Call, World, Reconciler, do_get_cluster, do_execute, do_list_stateful_sets,
}
use greenplum_for_kubernetes.Operator.AntiAffinity.{handle_anti_affinity}
use greenplum_for_kubernetes.Operator.Finalizer.{handle_finalizer}
use greenplum_for_kubernetes.Operator.Status.{same_phase, set_status, reconcile_status}
use greenplum_for_kubernetes.Operator.Expansion.{handle_expand}
use greenplum_for_kubernetes.Operator.Resources.{create_or_update_cluster_resources}

-- ctrl.Result: nothing more to do, or RequeueAfter so many seconds.
pub data Requeue : Type 0 where
  never : Requeue
  after_seconds : ℕ → Requeue

module _ {Q : Type 0} (w : World Q) (parse_int32 : String → Result ℤ) (r : Reconciler) where
  unfoldable pub cluster_exists : GreenplumCluster Q → Eff (Call Q) Bool
  cluster_exists c = do
    n ← do_list_stateful_sets w c.namespace (("greenplum-cluster", c.name) ∷ [])
    pure (ltb 0 n)

  abbrev is_other_image : GreenplumCluster Q → Bool
  is_other_image c =
      not (str_eq c.status.instance_image "")
      && not (str_eq c.status.instance_image r.instance_image)

  abbrev spread_unless : Bool → GreenplumCluster Q → Eff (Call Q) (Unit {0})
  spread_unless true c = pure tt
  spread_unless false c = handle_anti_affinity w c

  abbrev expand_or_wait : GreenplumCluster Q → String → Eff (Call Q) Requeue
  expand_or_wait c active_master =
      let expand = (do
        wrapping "unable to run gpexpand" (handle_expand w parse_int32 r c active_master)
        pure never) in
      if str_eq active_master "" then pure (after_seconds 5) else expand

  abbrev mark_running : GreenplumCluster Q → String → Eff (Call Q) (GreenplumCluster Q)
  mark_running c active_master =
      let mark = set_status w c running in
      if same_phase c.status.phase pending && not (str_eq active_master "") then mark else pure c

  -- Everything after the finalizer and the image check.
  unfoldable pub reconcile_resources : GreenplumCluster Q → String → Eff (Call Q) Requeue
  unfolding cluster_exists
  reconcile_resources c active_master = do
    exists ← wrapping "unable to check if GreenplumCluster resources exist" (cluster_exists c)
    spread_unless exists c
    create_or_update_cluster_resources w r c
    c1 ← reconcile_status w r c
    c2 ← mark_running c1 active_master
    expand_or_wait c2 active_master

  unfoldable pub reconcile_found : GreenplumCluster Q → Eff (Call Q) Requeue
  reconcile_found c = do
    master ← get_current_active_master (do_execute w) c.namespace
    state ← handle_finalizer w c master
    let rest = reconcile_resources state.0 state.1
    if is_other_image state.0 then pure never else rest

  abbrev on_fetch : Result (GreenplumCluster Q) → Eff (Call Q) Requeue
  on_fetch (err e) =
      if e.is_not_found then pure never else fail (wrap "unable to fetch GreenplumCluster" e)
  on_fetch (ok c) = reconcile_found (set_default_greenplum_cluster_values c)

  unfoldable pub reconcile : String → String → Eff (Call Q) Requeue
  reconcile namespace name = do
    fetched ← attempt (do_get_cluster w namespace name)
    on_fetch fetched
