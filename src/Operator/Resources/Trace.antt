-- ===== src/Operator/Resources/Trace.antt =====
-- Which objects are written, and in which order.
use greenplum_for_kubernetes.Prelude.{
  List, [], ◌∷◌, ◌++◌, ◌≡◌, ◌⊎◌, ◌↔◌, inl, inr, refl, ap, arith, In, In-pushed_iff, In-map_iff, map,
  pushed, Bool-cases,
}
use greenplum_for_kubernetes.Prelude.Text.{String, str_eq, eq_iff}
use greenplum_for_kubernetes.Prelude.Effects.{Error, ok, err, Result-cases}
use greenplum_for_kubernetes.Api.Cluster.{GreenplumCluster}
use greenplum_for_kubernetes.Operator.World.{Object, Call, create_or_update, World, Reconciler}
use greenplum_for_kubernetes.Operator.Resources.{
  mirror_object, cluster_objects, write_all, create_or_update_cluster_resources,
}

module _ {Q : Type 0} (w : World Q) where
  -- `done` objects were written in their order and the last of them alone failed, with `e`; the
  -- objects `left` were not touched.
  pub record Stopped (ns : String) (objects : List (Object Q)) (h h' : List (Call Q)) (e : Error)
      : Type 0 where
    pub done : List (Object Q)
    pub last : Object Q
    pub left : List (Object Q)
    pub split : objects ≡ done ++ last ∷ left
    pub history : h' ≡ create_or_update ns last ∷ pushed (map (create_or_update ns) done) h
    pub failure : w.create_or_update (pushed (map (create_or_update ns) done) h) ns last ≡ err e

  -- Either every object was written, in its order, or the row stopped at the first failure.
  pub write_all_trace :
      (ns : String) (os : List (Object Q)) (h : List (Call Q))
      → (write_all w ns os h ≡ (ok tt, pushed (map (create_or_update ns) os) h))
        ⊎ ((e : Error) × ((write_all w ns os h).0 ≡ err e)
            × Stopped ns os h (write_all w ns os h).1 e)
  unfolding write_all
  write_all_trace ns [] h = inl refl
  write_all_trace ns (o ∷ rest) h = elim (Result-cases (w.create_or_update h ns o)) [
    | inr (e, f) ↦ rw f (
        inr (
          e,
          refl,
          record { done = []; last = o; left = rest; split = refl; history = refl; failure = f },
        ))
    | inl (x, f) ↦ rw f (elim (write_all_trace ns rest (create_or_update ns o ∷ h)) [
      | inl g ↦ inl g
      | inr (e, g, s) ↦ inr (
        e,
        g,
        record {
          done = o ∷ s.done;
          last = s.last;
          left = s.left;
          split = ap (λ l. o ∷ l) s.split;
          history = s.history;
          failure = s.failure;
        },
      )
    ])
  ]

module _ {Q : Type 0} (r : Reconciler) (c : GreenplumCluster Q) where
  mirror_object_iff :
      In (mirror_object r c) (cluster_objects r c) ↔ (c.spec.segments.mirrors ≡ "yes")
  mirror_object_iff =
      let m = c.spec.segments.mirrors in
      elim (Bool-cases (str_eq m "yes")) [
        | inl e ↦ rw e (
          λ _. (eq_iff m "yes").0 e,
          λ _. inr (inr (inr (inr (inr (inr (inr (inr (inr (inl refl))))))))),
        )
        | inr e ↦ rw e (
          λ h. ground (arith, eq_iff "segment-b" "master", eq_iff "segment-b" "segment-a"),
          λ h. ground (arith, eq_iff m "yes"),
        )
      ]

  -- Writing a cluster's objects either writes all of them, in the order of the code, or stops at
  -- the first failure, whose error it returns, and leaves the later objects untouched.
  pub create_or_update_cluster_resources_trace :
      (w : World Q) (h : List (Call Q))
      → (create_or_update_cluster_resources w r c h
          ≡ (ok tt, pushed (map (create_or_update c.namespace) (cluster_objects r c)) h))
        ⊎ ((e : Error) × ((create_or_update_cluster_resources w r c h).0 ≡ err e)
            × Stopped w c.namespace
                (cluster_objects r c)
                h
                (create_or_update_cluster_resources w r c h).1
                e)
  unfolding create_or_update_cluster_resources
  create_or_update_cluster_resources_trace w h =
      write_all_trace w c.namespace (cluster_objects r c) h

  -- When all objects were written, the stateful set of the mirrors was among them exactly if the
  -- cluster in hand has mirrors "yes", in lower case.
  pub segment_b-written_iff :
      (w : World Q)
      → (create_or_update_cluster_resources w r c []).0 ≡ ok tt
      → In
          (create_or_update c.namespace (mirror_object r c))
          (create_or_update_cluster_resources w r c []).1
        ↔ (c.spec.segments.mirrors ≡ "yes")
  segment_b-written_iff w h = elim (create_or_update_cluster_resources_trace w []) [
    | inr (e, f, s) ↦ absurd (ground arith)
    | inl f ↦
        let os = cluster_objects r c in
        let call = create_or_update c.namespace (mirror_object r c) in
        let p = In-pushed_iff call (map (create_or_update c.namespace) os) [] in
        let m = In-map_iff (create_or_update c.namespace) (λ a b k. cc) (mirror_object r c) os in
        let i = mirror_object_iff in
        rw f (
          λ k. elim (p.0 k) [ inl q ↦ i.0 (m.0 q) | inr q ↦ elim q [ ] ],
          λ k. p.1 (inl (m.1 (i.1 k))),
        )
  ]
