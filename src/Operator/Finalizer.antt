-- ===== src/Operator/Finalizer.antt =====
-- greenplum-operator/controllers/greenplumcluster/reconcile_finalizer.go
pub mod Order
pub mod Slices
use greenplum_for_kubernetes.Prelude.{Bool, true, false, List, [], ◌∷◌, ◌++◌, if◌then◌else◌}
use greenplum_for_kubernetes.Prelude.Text.{String, str_eq}
use greenplum_for_kubernetes.Prelude.Effects.{
  Eff, Result, ok, err, wrap, pure, fail, attempt, ◌>>=◌, ◌>>◌,
}
use greenplum_for_kubernetes.Api.Cluster.{GreenplumCluster, deleting}
use greenplum_for_kubernetes.Operator.World.{Call, World, do_patch_cluster, do_execute}
use greenplum_for_kubernetes.Operator.Status.{set_status}

abbrev pub stop_cluster_finalizer : String
stop_cluster_finalizer = "stopcluster.greenplumcluster.pivotal.io"

unfoldable pub slice_contains_string : List String → String → Bool
slice_contains_string [] s = false
slice_contains_string (item ∷ rest) s =
    let later = slice_contains_string rest s in if str_eq item s then true else later

unfoldable pub remove_string_from_slice : List String → String → List String
remove_string_from_slice [] s = []
remove_string_from_slice (item ∷ rest) s =
    let later = remove_string_from_slice rest s in if str_eq item s then later else item ∷ later

abbrev pub gp_stop_command : List String
gp_stop_command =
    "/bin/bash" ∷ "-c" ∷ "--"
    ∷ "source /usr/local/greenplum-db/greenplum_path.sh && gpstop -aM immediate" ∷ []

module _ {Q : Type 0} (w : World Q) where
  -- A gpstop that fails is logged only.
  unfoldable pub ensure_greenplum_cluster_stopped :
      GreenplumCluster Q → String → Eff (Call Q) (Unit {0})
  ensure_greenplum_cluster_stopped c active_master =
      let stop = (do
        answer ← attempt (do_execute w gp_stop_command c.namespace active_master)
        pure tt) in
      if str_eq active_master "" then pure tt else stop

  -- The cluster and the active master as the caller sees them afterwards.
  abbrev after_add :
      GreenplumCluster Q
      → String
      → Result (GreenplumCluster Q)
      → Eff (Call Q) (GreenplumCluster Q × String)
  after_add c active_master (ok c') = pure (c', active_master)
  after_add c active_master (err e) = fail (wrap "adding finalizer" e)

  abbrev after_remove :
      GreenplumCluster Q → Result (GreenplumCluster Q) → Eff (Call Q) (GreenplumCluster Q × String)
  after_remove c (ok c') = pure (c', "")
  after_remove c (err e) =
      if e.is_not_found then pure (c, "") else fail (wrap "removing finalizer" e)

  abbrev pub add_finalizer :
      GreenplumCluster Q → String → Eff (Call Q) (GreenplumCluster Q × String)
  add_finalizer c active_master = do
    let changed = record c { finalizers = c.finalizers ++ stop_cluster_finalizer ∷ [] }
    answer ← attempt (do_patch_cluster w changed)
    after_add changed active_master answer

  abbrev pub without_finalizer : GreenplumCluster Q → GreenplumCluster Q
  without_finalizer c = record c {
    finalizers = remove_string_from_slice c.finalizers stop_cluster_finalizer;
  }

  abbrev pub remove_finalizer :
      GreenplumCluster Q → String → Eff (Call Q) (GreenplumCluster Q × String)
  remove_finalizer c active_master = do
    marked ← set_status w c deleting
    ensure_greenplum_cluster_stopped marked active_master
    answer ← attempt (do_patch_cluster w (without_finalizer marked))
    after_remove (without_finalizer marked) answer

  abbrev finalizer_by :
      (deleted present : Bool)
      → GreenplumCluster Q
      → String
      → Eff (Call Q) (GreenplumCluster Q × String)
  finalizer_by false false c active_master = add_finalizer c active_master
  finalizer_by false true c active_master = pure (c, active_master)
  finalizer_by true true c active_master = remove_finalizer c active_master
  finalizer_by true false c active_master = pure (c, active_master)

  unfoldable pub handle_finalizer :
      GreenplumCluster Q → String → Eff (Call Q) (GreenplumCluster Q × String)
  handle_finalizer c active_master =
      finalizer_by c.is_deleted (slice_contains_string c.finalizers stop_cluster_finalizer) c
        active_master
