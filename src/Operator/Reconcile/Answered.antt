-- ===== src/Operator/Reconcile/Answered.antt =====
-- Where the cluster comes from whose image a reconcile compares.
use greenplum_for_kubernetes.Prelude.{
  ◌∙◌, ◌++◌, subst, sym, ap, Bool-cases, List, [], ◌∷◌, ◌≡◌, inl, inr, refl, arith,
}
use greenplum_for_kubernetes.Prelude.Text.{String}
use greenplum_for_kubernetes.Prelude.Effects.{Result, ok, Result-cases}
use greenplum_for_kubernetes.Api.Cluster.{GreenplumCluster, GreenplumClusterPhase, deleting}
use greenplum_for_kubernetes.Operator.World.{Call, World}
use greenplum_for_kubernetes.Operator.Finalizer.{
  stop_cluster_finalizer, slice_contains_string, without_finalizer, add_finalizer, remove_finalizer,
  handle_finalizer,
}
use greenplum_for_kubernetes.Operator.Finalizer.Order.{
  IsMarked, set_status-IsMarked, ensure_greenplum_cluster_stopped-IsStopped,
}

module _ {Q : Type 0} (w : World Q) where
  -- The cluster as the operator has it after reading `c`: with its defaults, with other finalizers
  -- or another phase, and as the server answered a patch of what the operator had.
  pub data IsSeen (c : GreenplumCluster Q) : GreenplumCluster Q → Type 0 where
    from_read : (d : GreenplumCluster Q) → d.name ≡ c.name → d.status ≡ c.status → IsSeen c d
    changed :
        (d : GreenplumCluster Q) (finalizers : List String) (phase : GreenplumClusterPhase)
        → IsSeen c d
        → IsSeen c
            (record d { finalizers = finalizers; status = record (d.status) { phase = phase } })
    patched :
        (d d' : GreenplumCluster Q) (g : List (Call Q))
        → IsSeen c d
        → w.patch_cluster g d ≡ ok d'
        → IsSeen c d'

  marked-IsSeen :
      (read c marked : GreenplumCluster Q) (h h1 : List (Call Q))
      → IsSeen read c
      → IsMarked w c h marked h1
      → IsSeen read marked
  marked-IsSeen read c marked h h1 i (inl (_, e, _)) =
      subst (λ (d : GreenplumCluster Q). IsSeen read d) (sym e) i
  marked-IsSeen read c marked h h1 i (inr (_, _, inl a)) =
      patched _ marked h (changed c c.finalizers deleting i) a
  marked-IsSeen read c marked h h1 i (inr (_, _, inr (x, _, e))) =
      subst (λ (d : GreenplumCluster Q). IsSeen read d) (sym e) (changed c c.finalizers deleting i)

  image_of :
      (c c' : GreenplumCluster Q) (master : String) (state : GreenplumCluster Q × String)
      → ◌≡◌ {A = Result (GreenplumCluster Q × String)} (ok (c', master)) (ok state)
      → IsSeen c c'
      → IsSeen c state.0
  image_of c c' master state e a =
      let same : c' ≡ state.0 = ground arith in
      subst (λ (d : GreenplumCluster Q). IsSeen c d) same a

  remove_finalizer-IsSeen :
      (read c : GreenplumCluster Q) (master : String) (h : List (Call Q))
      (state : GreenplumCluster Q × String)
      → IsSeen read c
      → (remove_finalizer w c master h).0 ≡ ok state
      → IsSeen read state.0
  remove_finalizer-IsSeen read c master h state i e =
      let (marked, h1, f, m) = set_status-IsMarked w c h in
      let (h2, g, s) = ensure_greenplum_cluster_stopped-IsStopped w marked master h1 in
      let gone = without_finalizer w marked in
      let removed : IsSeen read gone =
        changed marked gone.finalizers marked.status.phase (marked-IsSeen read c marked h h1 i m) in
      elim (Result-cases (w.patch_cluster h2 gone)) [
        | inl (c', k) ↦ image_of read c' "" state (rw (f, g, k) at e) (patched gone c' h2 removed k)
        | inr (x, k) ↦ elim (Bool-cases x.is_not_found) [
          | inl n ↦ image_of read gone "" state (rw (f, g, k, n) at e) removed
          | inr n ↦ absurd (let z = rw (f, g, k, n) at e in ground arith)
        ]
      ]

  add_finalizer-IsSeen :
      (read c : GreenplumCluster Q) (master : String) (h : List (Call Q))
      (state : GreenplumCluster Q × String)
      → IsSeen read c
      → (add_finalizer w c master h).0 ≡ ok state
      → IsSeen read state.0
  add_finalizer-IsSeen read c master h state i e =
      let added : GreenplumCluster Q = record c {
        finalizers = c.finalizers ++ (stop_cluster_finalizer ∷ []);
      } in
      elim (Result-cases (w.patch_cluster h added)) [
        | inl (c', k) ↦
            image_of read c' master state (rw k at e)
              (patched added c' h (changed c added.finalizers c.status.phase i) k)
        | inr (x, k) ↦ absurd (let z = rw k at e in ground arith)
      ]

  pub handle_finalizer-IsSeen :
      (read c : GreenplumCluster Q) (master : String) (h : List (Call Q))
      (state : GreenplumCluster Q × String)
      → IsSeen read c
      → (handle_finalizer w c master h).0 ≡ ok state
      → IsSeen read state.0
  unfolding handle_finalizer
  handle_finalizer-IsSeen read c master h state i e =
      let kept : handle_finalizer w c master h ≡ (ok (c, master), h) → IsSeen read state.0 =
        λ same. image_of read c master state (ap (λ r. r.0) (sym same) ∙ e) i in
      elim (Bool-cases (slice_contains_string c.finalizers stop_cluster_finalizer)) [
        | inl p ↦ elim (Bool-cases c.is_deleted) [
          | inr d ↦ kept (rw (d, p) refl)
          | inl d ↦
              let same : handle_finalizer w c master h ≡ remove_finalizer w c master h =
                rw (d, p) refl in
              remove_finalizer-IsSeen read c master h state i (ap (λ r. r.0) (sym same) ∙ e)
        ]
        | inr p ↦ elim (Bool-cases c.is_deleted) [
          | inl d ↦ kept (rw (d, p) refl)
          | inr d ↦
              let same : handle_finalizer w c master h ≡ add_finalizer w c master h =
                rw (d, p) refl in
              add_finalizer-IsSeen read c master h state i (ap (λ r. r.0) (sym same) ∙ e)
        ]
      ]
