-- ===== src/Operator/Expansion/Trace.antt =====
-- When an expansion job is made.
use greenplum_for_kubernetes.Prelude.{List, ◌∷◌, ◌≡◌, inl, inr, true, false, arith, Bool-cases}
use greenplum_for_kubernetes.Prelude.Int.{ℤ, pos, ltb_ℤ}
use greenplum_for_kubernetes.Prelude.Text.{String, trim_space}
use greenplum_for_kubernetes.Prelude.Effects.{Error, Result, ok, err, Result-cases}
use greenplum_for_kubernetes.Api.Cluster.{GreenplumCluster}
use greenplum_for_kubernetes.Api.Objects.{JobStatus}
use greenplum_for_kubernetes.Operator.World.{
  Call, World, Reconciler, ExpandJob, execute, get_job, delete_job, create_job,
}
use greenplum_for_kubernetes.Operator.Expansion.{
  get_segment_count_command, job_name, expand_job, handle_expand,
}

module _ {Q : Type 0} (w : World Q) (parse_int32 : String → Result ℤ) (r : Reconciler)
    (c : GreenplumCluster Q) (master : String) (h : List (Call Q)) where
  abbrev pub counted : List (Call Q)
  counted = execute get_segment_count_command c.namespace master ∷ h

  abbrev pub looked : List (Call Q)
  looked = get_job c.namespace (job_name c.name) ∷ counted

  -- The database has fewer primaries than the cluster asks for.
  pub record Grows : Type 0 where
    pub out : String
    pub count : ℤ
    pub answered : w.execute h get_segment_count_command c.namespace master ≡ ok out
    pub parsed : parse_int32 (trim_space out) ≡ ok count
    pub fewer : ltb_ℤ count c.spec.segments.primary_segment_count ≡ true

  -- There was no job, or it had succeeded and was deleted just before.
  pub data Cleared (rest : List (Call Q)) : Type 0 where
    absent :
        (e : Error)
        → w.get_job counted c.namespace (job_name c.name) ≡ err e
        → e.is_not_found ≡ true
        → rest ≡ looked
        → Cleared rest
    deleted :
        (job : JobStatus)
        → w.get_job counted c.namespace (job_name c.name) ≡ ok job
        → ltb_ℤ job.succeeded (pos 1) ≡ false
        → w.delete_job looked c.namespace (job_name c.name) ≡ ok tt
        → rest ≡ delete_job c.namespace (job_name c.name) ∷ looked
        → Cleared rest

  -- A job is created only where the database has fewer primaries than the cluster asks for, only
  -- after an earlier job was found absent or was deleted once it had succeeded, and it is the job
  -- for the number of primaries that the cluster asks for.
  pub handle_expand-creates :
      (j : ExpandJob) (rest : List (Call Q))
      → (handle_expand w parse_int32 r c master h).1 ≡ create_job j ∷ rest
      → Grows × (j ≡ expand_job w parse_int32 r c master) × Cleared rest
  unfolding handle_expand
  handle_expand-creates j rest e =
      elim (Result-cases (w.execute h get_segment_count_command c.namespace master)) [
        | inr (x, a) ↦ absurd (ground arith)
        | inl (out, a) ↦ elim (Result-cases (parse_int32 (trim_space out))) [
          | inr (x, b) ↦ absurd (ground arith)
          | inl (n, b) ↦ elim (Bool-cases (ltb_ℤ n c.spec.segments.primary_segment_count)) [
            | inr f ↦ absurd (ground arith)
            | inl f ↦
                let g : Grows = record {
                  out = out;
                  count = n;
                  answered = a;
                  parsed = b;
                  fewer = f;
                } in
                elim (Result-cases (w.get_job counted c.namespace (job_name c.name))) [
                  | inr (x, d) ↦ elim (Bool-cases x.is_not_found) [
                    | inl k ↦ (g, ground arith, absent x d k (ground arith))
                    | inr k ↦ absurd (ground arith)
                  ]
                  | inl (job, d) ↦ elim (Bool-cases (ltb_ℤ job.succeeded (pos 1))) [
                    | inl k ↦ absurd (ground arith)
                    | inr k ↦
                        elim (Result-cases (w.delete_job looked c.namespace (job_name c.name))) [
                          | inr (x, l) ↦ absurd (ground arith)
                          | inl (u, l) ↦ (g, ground arith, deleted job d k l (ground arith))
                        ]
                  ]
                ]
          ]
        ]
      ]
