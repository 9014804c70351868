-- ===== src/Operator/Expansion.antt =====
-- greenplum-operator/controllers/greenplumcluster/reconcile_expansion.go
pub mod Trace
use greenplum_for_kubernetes.Prelude.{List, [], ◌∷◌, if◌then◌else◌}
use greenplum_for_kubernetes.Prelude.Int.{ℤ, pos, ltb_ℤ, leb_ℤ}
use greenplum_for_kubernetes.Prelude.Text.{String, ◌&◌, trim_space}
use greenplum_for_kubernetes.Prelude.Effects.{
  Eff, Result, ok, err, pure, fail, attempt, ◌>>=◌, ◌>>◌,
}
use greenplum_for_kubernetes.Api.Cluster.{GreenplumCluster}
use greenplum_for_kubernetes.Api.Objects.{JobStatus}
use greenplum_for_kubernetes.Operator.World.{
  Call, World, Reconciler, ExpandJob, do_execute, do_get_job, do_delete_job, do_create_job,
}

abbrev pub get_segment_count_command : List String
get_segment_count_command =
    "/bin/bash" ∷ "-c" ∷ "--"
    ∷ "source /usr/local/greenplum-db/greenplum_path.sh && psql -t -U gpadmin -c \"SELECT COUNT(*) FROM gp_segment_configuration WHERE hostname LIKE 'segment-a%'\""
    ∷ []

abbrev pub job_name : String → String
job_name cluster = cluster & "-gpexpand-job"

-- `parse_int32` is strconv.ParseInt(_, 10, 32).
module _ {Q : Type 0} (w : World Q) (parse_int32 : String → Result ℤ) (r : Reconciler) where
  abbrev lift : {A : Type 0} → Result A → Eff (Call Q) A
  lift r h = (r, h)

  unfoldable pub get_current_segment_count : String → String → Eff (Call Q) ℤ
  get_current_segment_count namespace master_pod = do
    out ← do_execute w get_segment_count_command namespace master_pod
    lift (parse_int32 (trim_space out))

  abbrev pub expand_job : GreenplumCluster Q → String → ExpandJob
  expand_job c active_master = record {
    namespace = c.namespace;
    name = job_name c.name;
    image = r.instance_image;
    hostname = active_master & ".agent." & c.namespace & ".svc.cluster.local";
    new_seg_count = c.spec.segments.primary_segment_count;
  }

  abbrev with_previous : GreenplumCluster Q → String → Result JobStatus → Eff (Call Q) (Unit {0})
  with_previous c active_master (ok job) =
      let replace = (do
        do_delete_job w c.namespace (job_name c.name)
        do_create_job w (expand_job c active_master)) in
      if ltb_ℤ job.succeeded (pos 1) then pure tt else replace
  with_previous c active_master (err e) =
      let create = do_create_job w (expand_job c active_master) in
      if e.is_not_found then create else fail e

  abbrev pub run_expansion : GreenplumCluster Q → String → Eff (Call Q) (Unit {0})
  run_expansion c active_master = do
    previous ← attempt (do_get_job w c.namespace (job_name c.name))
    with_previous c active_master previous

  abbrev with_count : GreenplumCluster Q → String → ℤ → Eff (Call Q) (Unit {0})
  with_count c active_master segment_count =
      let run = run_expansion c active_master in
      if leb_ℤ c.spec.segments.primary_segment_count segment_count then pure tt else run

  unfoldable pub handle_expand : GreenplumCluster Q → String → Eff (Call Q) (Unit {0})
  unfolding get_current_segment_count
  handle_expand c active_master = do
    segment_count ← get_current_segment_count c.namespace active_master
    with_count c active_master segment_count
