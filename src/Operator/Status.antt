-- ===== src/Operator/Status.antt =====
-- greenplum-operator/controllers/greenplumcluster/reconcile_status.go
use greenplum_for_kubernetes.Prelude.{Bool, true, false, if◌then◌else◌}
use greenplum_for_kubernetes.Prelude.Effects.{
  Eff, Result, ok, err, wrap, pure, fail, attempt, ◌>>=◌,
}
use greenplum_for_kubernetes.Api.Cluster.{
  GreenplumCluster, GreenplumClusterPhase, unset, pending, running, failed, deleting,
}
use greenplum_for_kubernetes.Operator.World.{Call, World, Reconciler, do_patch_cluster}

-- p == q on phases
abbrev pub same_phase : GreenplumClusterPhase → GreenplumClusterPhase → Bool
same_phase unset unset = true
same_phase pending pending = true
same_phase running running = true
same_phase failed failed = true
same_phase deleting deleting = true
same_phase _ _ = false

abbrev pub or_pending : GreenplumClusterPhase → GreenplumClusterPhase
or_pending unset = pending
or_pending pending = pending
or_pending running = running
or_pending failed = failed
or_pending deleting = deleting

module _ {Q : Type 0} (w : World Q) where
  abbrev pub with_phase : GreenplumCluster Q → GreenplumClusterPhase → GreenplumCluster Q
  with_phase c p = record c { status = record (c.status) { phase = p } }

  abbrev or_keep :
      GreenplumCluster Q → Result (GreenplumCluster Q) → Eff (Call Q) (GreenplumCluster Q)
  or_keep c (ok c') = pure c'
  or_keep c (err e) = pure c

  -- A patch that fails is logged, and the phase stays set in memory.
  unfoldable pub set_status :
      GreenplumCluster Q → GreenplumClusterPhase → Eff (Call Q) (GreenplumCluster Q)
  set_status c p =
      let changed = with_phase c p in
      let patched = (do answer ← attempt (do_patch_cluster w changed); or_keep changed answer) in
      if same_phase c.status.phase p then pure c else patched

  module _ (r : Reconciler) where
    abbrev pub status_of : GreenplumCluster Q → GreenplumCluster Q
    status_of c = record c {
      status = record {
        instance_image = r.instance_image;
        operator_version = r.operator_image;
        phase = or_pending c.status.phase;
      };
    }

    abbrev or_fail : Result (GreenplumCluster Q) → Eff (Call Q) (GreenplumCluster Q)
    or_fail (ok c) = pure c
    or_fail (err e) = fail (wrap "updating status" e)

    unfoldable pub reconcile_status : GreenplumCluster Q → Eff (Call Q) (GreenplumCluster Q)
    reconcile_status c =
        let changed = status_of c in
        let patched = (do answer ← attempt (do_patch_cluster w changed); or_fail answer) in
        if w.cluster_equal changed c then pure changed else patched
