-- ===== src/Operator/Reconcile/Safety.antt =====
-- What a reconcile leaves alone.
use greenplum_for_kubernetes.Prelude.{
  refl, In, Empty, Bool-cases, List, [], ◌∷◌, ◌≡◌, ◌⊎◌, inl, inr,
}
use greenplum_for_kubernetes.Prelude.Int.{ℤ}
use greenplum_for_kubernetes.Prelude.Text.{String, str_eq, eq_iff}
use greenplum_for_kubernetes.Prelude.Effects.{Result, ok, Result-cases}
use greenplum_for_kubernetes.Api.Cluster.{GreenplumCluster}
use greenplum_for_kubernetes.Operator.Defaults.{set_default_greenplum_cluster_values}
use greenplum_for_kubernetes.Operator.World.{Call, World, Reconciler, get_cluster}
use greenplum_for_kubernetes.Operator.Finalizer.{handle_finalizer}
use greenplum_for_kubernetes.Operator.Reconcile.Writes.{
  Writes, skip, active_master_trace, active_writes, finalizer_writes,
}
use greenplum_for_kubernetes.Operator.Reconcile.Answered.{
  IsSeen, from_read, handle_finalizer-IsSeen,
}
use greenplum_for_kubernetes.Operator.Reconcile.{reconcile_found, reconcile}

module _ {Q : Type 0} (w : World Q) (parse_int32 : String → Result ℤ) (r : Reconciler) where
  -- A reconcile writes objects of a cluster, labels nodes or touches the expansion job only where
  -- the cluster, as it was read or as the server answered the patches of its finalizers and phase,
  -- was set up with the image of this operator or has no image yet, whatever the API server and the
  -- pods answer.
  pub reconcile-own_image :
      (ns name : String) (call : Call Q)
      → Writes call
      → In call (reconcile w parse_int32 r ns name []).1
      → (c d : GreenplumCluster Q) × (w.get_cluster [] ns name ≡ ok c)
        × IsSeen w c d
        × ((d.status.instance_image ≡ "") ⊎ (d.status.instance_image ≡ r.instance_image))
  unfolding reconcile reconcile_found set_default_greenplum_cluster_values
  reconcile-own_image ns name call v i =
      let h1 : List (Call Q) = get_cluster ns name ∷ [] in
      elim (Result-cases (w.get_cluster [] ns name)) [
        | inr (x, e) ↦ elim (Bool-cases x.is_not_found) [
          | inl f ↦ let z : In call h1 = rw (e, f) at i in elim (skip call _ [] (λ x. x) v z) [ ]
          | inr f ↦ let z : In call h1 = rw (e, f) at i in elim (skip call _ [] (λ x. x) v z) [ ]
        ]
        | inl (c, e) ↦
            let c1 = set_default_greenplum_cluster_values c in
            let (master, h2, a, t) = active_master_trace w c.namespace h1 in
            let s = handle_finalizer w c1 master h2 in
            let quiet : In call s.1 → Empty {0} = λ k.
              skip call _ [] (λ x. x) v
                (active_writes call c.namespace h1 h2 v t
                  (finalizer_writes w c1 master h2 call v k)) in
            elim (Result-cases s.0) [
              | inr (x, f) ↦ let z : In call s.1 = rw (e, a, f) at i in elim (quiet z) [ ]
              | inl (state, f) ↦
                  let image = state.0.status.instance_image in
                  let known =
                    handle_finalizer-IsSeen w c c1 master h2 state (from_read c1 refl refl) f in
                  elim (Bool-cases (str_eq image "")) [
                    | inl g ↦ (c, state.0, e, known, inl ((eq_iff image "").0 g))
                    | inr g ↦ elim (Bool-cases (str_eq image r.instance_image)) [
                      | inl k ↦ (c, state.0, e, known, inr ((eq_iff image r.instance_image).0 k))
                      | inr k ↦ let z : In call s.1 = rw (e, a, f, g, k) at i in elim (quiet z) [ ]
                    ]
                  ]
            ]
      ]
