-- ===== src/Operator/Reconcile/Writes.antt =====
-- The calls that write, and those of the steps before the image check, none of which does.
use greenplum_for_kubernetes.Prelude.{In, Empty, subst, ap, List, ◌∷◌, ◌≡◌, ◌⊎◌, inl, inr, refl}
use greenplum_for_kubernetes.Prelude.Text.{String}
use greenplum_for_kubernetes.Prelude.Effects.{ok, Result-cases}
use greenplum_for_kubernetes.Api.Cluster.{GreenplumCluster}
use greenplum_for_kubernetes.Operator.Executor.{
  test_if_primary_master_command, get_current_active_master,
}
use greenplum_for_kubernetes.Operator.World.{
  Call, World, create_or_update, patch_node, delete_job, create_job, execute, do_execute,
}
use greenplum_for_kubernetes.Operator.Finalizer.{handle_finalizer}
use greenplum_for_kubernetes.Operator.Finalizer.Order.{
  IsMarked, IsStopped, handle_finalizer-IsHandled,
}

module _ {Q : Type 0} where
  -- A call that changes an object of the API server other than the cluster.
  abbrev pub Writes : Call Q → Type 0
  Writes (create_or_update _ _) = Unit
  Writes (patch_node _) = Unit
  Writes (delete_job _ _) = Unit
  Writes (create_job _) = Unit
  Writes _ = Empty

  -- A call that writes nothing is not the one in question.
  pub skip :
      (call d : Call Q) (h : List (Call Q))
      → (Writes d → Empty {0})
      → Writes call
      → In call (d ∷ h)
      → In call h
  skip call d h n v (inl e) = elim (n (subst Writes e v)) [ ]
  skip call d h n v (inr k) = k

  pub active_writes :
      (call : Call Q) (ns : String) (h1 h2 : List (Call Q))
      → Writes call
      → ((h2 ≡ execute test_if_primary_master_command ns "master-0" ∷ h1)
          ⊎ (h2
              ≡ execute test_if_primary_master_command ns "master-1"
                ∷ execute test_if_primary_master_command ns "master-0"
                ∷ h1))
      → In call h2
      → In call h1
  active_writes call ns h1 h2 v (inl e) k =
      skip call _ h1 (λ x. x) v (subst (λ (l : List (Call Q)). In call l) e k)
  active_writes call ns h1 h2 v (inr e) k =
      let test = test_if_primary_master_command in
      skip call (execute test ns "master-0") h1 (λ x. x) v
        (skip call (execute test ns "master-1") (execute test ns "master-0" ∷ h1) (λ x. x) v
          (subst (λ (l : List (Call Q)). In call l) e k))

module _ {Q : Type 0} (w : World Q) where
  -- The search for the active master asks master-0 and, only if that fails, master-1.
  pub active_master_trace :
      (ns : String) (h : List (Call Q))
      → (master : String) × (h' : List (Call Q)) × (get_current_active_master (do_execute w) ns h
          ≡ (ok master, h'))
        × ((h' ≡ execute test_if_primary_master_command ns "master-0" ∷ h)
            ⊎ (h'
                ≡ execute test_if_primary_master_command ns "master-1"
                  ∷ execute test_if_primary_master_command ns "master-0"
                  ∷ h))
  unfolding get_current_active_master
  active_master_trace ns h =
      let test = test_if_primary_master_command in
      let h1 = execute test ns "master-0" ∷ h in
      let h2 = execute test ns "master-1" ∷ h1 in
      elim (Result-cases (w.execute h test ns "master-0")) [
        | inl (a, e) ↦ ("master-0", h1, rw e refl, inl refl)
        | inr (x, e) ↦ elim (Result-cases (w.execute h1 test ns "master-1")) [
          | inl (b, f) ↦ ("master-1", h2, rw (e, f) refl, inr refl)
          | inr (y, f) ↦ ("", h2, rw (e, f) refl, inr refl)
        ]
      ]

  stopped_writes :
      (call : Call Q) (ns master : String) (h1 h2 : List (Call Q))
      → Writes call
      → IsStopped w ns master h1 h2
      → In call h2
      → In call h1
  stopped_writes call ns master h1 h2 v (inl (_, e)) k =
      subst (λ (l : List (Call Q)). In call l) e k
  stopped_writes call ns master h1 h2 v (inr (_, e)) k =
      skip call _ h1 (λ x. x) v (subst (λ (l : List (Call Q)). In call l) e k)

  marked_writes :
      (call : Call Q) (c marked : GreenplumCluster Q) (h h1 : List (Call Q))
      → Writes call
      → IsMarked w c h marked h1
      → In call h1
      → In call h
  marked_writes call c marked h h1 v (inl (_, _, e)) k =
      subst (λ (l : List (Call Q)). In call l) e k
  marked_writes call c marked h h1 v (inr (_, e, _)) k =
      skip call _ h (λ x. x) v (subst (λ (l : List (Call Q)). In call l) e k)

  pub finalizer_writes :
      (c : GreenplumCluster Q) (master : String) (h : List (Call Q)) (call : Call Q)
      → Writes call
      → In call (handle_finalizer w c master h).1
      → In call h
  finalizer_writes c master h call v i = elim (handle_finalizer-IsHandled w c master h) [
    | inl (_, _, e) ↦ subst (λ (l : List (Call Q)). In call l) (ap (λ r. r.1) e) i
    | inr (inl (_, _, e)) ↦ skip call _ h (λ x. x) v (subst (λ (l : List (Call Q)). In call l) e i)
    | inr (inr (inr (_, _, e))) ↦ subst (λ (l : List (Call Q)). In call l) (ap (λ r. r.1) e) i
    | inr (inr (inl (_, _, gone))) ↦
        let (marked, c', h1, h2, m, s, _, _, e, _) = gone in
        marked_writes call c marked h h1 v m (
          stopped_writes call marked.namespace master h1 h2 v s
            (skip call _ h2 (λ x. x) v (subst (λ (l : List (Call Q)). In call l) e i)))
  ]
