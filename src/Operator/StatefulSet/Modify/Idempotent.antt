-- ===== src/Operator/StatefulSet/Modify/Idempotent.antt =====
-- Bringing a StatefulSet into shape twice is the same as once.
use greenplum_for_kubernetes.Prelude.{
  List, [], ◌∷◌, ◌≡◌, refl, ap, inl, inr, false, arith, Bool-cases, Option-cases,
}
use greenplum_for_kubernetes.Prelude.Map.{
  Labels, lookup, insert, insert_all, lookup-insert, insert-same,
}
use greenplum_for_kubernetes.Prelude.Text.{String, str_eq, eq_iff}
use greenplum_for_kubernetes.Api.Quantity.{Quantities}
use greenplum_for_kubernetes.Operator.StatefulSet.{GreenplumStatefulSetParams}
use greenplum_for_kubernetes.Operator.StatefulSet.Modify.{
  StatefulSet, VolumeClaim, Container, fill_container, blank_container, node_selector_of, set_limit,
  generate_gp_cluster_labels, modify_greenplum_pvc, modify_greenplum_container,
  modify_greenplum_stateful_set,
}

-- Three labels with different keys, written over and over.
insert_labels-idempotent :
    (typ cluster : String) (m : Labels)
    → insert_all
        (generate_gp_cluster_labels typ cluster)
        (insert_all (generate_gp_cluster_labels typ cluster) m)
      ≡ insert_all (generate_gp_cluster_labels typ cluster) m
unfolding insert_all
insert_labels-idempotent typ cluster m =
    let m1 = insert "app" "greenplum" m in
    let m2 = insert "type" typ m1 in
    let m3 = insert "greenplum-cluster" cluster m2 in
    let a = insert-same "app" "greenplum" m3 (
      rw
        (
          lookup-insert "greenplum-cluster" "app" cluster m2,
          lookup-insert "type" "app" typ m1,
          lookup-insert "app" "app" "greenplum" m,
        )
        refl) in
    let b = insert-same "type" typ m3 (
      rw (lookup-insert "greenplum-cluster" "type" cluster m2, lookup-insert "type" "type" typ m1)
        refl) in
    let c =
      insert-same "greenplum-cluster" cluster m3
        (rw (lookup-insert "greenplum-cluster" "greenplum-cluster" cluster m2) refl) in
    rw (a, b, c) refl

module _ {Q : Type 0} (quantity : Quantities Q) where
  -- The limit under another key stays.
  lookup-set_limit :
      (k j : String) (q : Q) (m : List (String × Q))
      → str_eq k j ≡ false
      → lookup j (set_limit quantity k q m) ≡ lookup j m
  unfolding set_limit
  lookup-set_limit k j q m n = ground (arith, lookup-insert k j q m)

  -- Where a limit is in place, setting it again changes nothing, whatever else was written.
  set_limit-again :
      (k : String) (q : Q) (m l : List (String × Q))
      → lookup k l ≡ lookup k (set_limit quantity k q m)
      → set_limit quantity k q l ≡ l
  unfolding set_limit
  set_limit-again k q m l e =
      let s = insert-same k q l in ground (arith, eq_iff k k, lookup-insert k k q m)

  set_limits-idempotent :
      (memory cpu : Q) (m : List (String × Q))
      → set_limit quantity "cpu" cpu (
          set_limit quantity "memory" memory
            (set_limit quantity "cpu" cpu (set_limit quantity "memory" memory m)))
        ≡ set_limit quantity "cpu" cpu (set_limit quantity "memory" memory m)
  set_limits-idempotent memory cpu m =
      let m1 = set_limit quantity "memory" memory m in
      let m2 = set_limit quantity "cpu" cpu m1 in
      let a = set_limit-again "memory" memory m m2 (lookup-set_limit "cpu" "memory" cpu m1 refl) in
      let b = set_limit-again "cpu" cpu m1 m2 refl in rw (a, b) refl

  module _ (p : GreenplumStatefulSetParams Q) where
    modify_pvc-idempotent :
        (l : List (VolumeClaim Q))
        → modify_greenplum_pvc quantity p (modify_greenplum_pvc quantity p l)
          ≡ modify_greenplum_pvc quantity p l
    unfolding modify_greenplum_pvc
    modify_pvc-idempotent [] = refl
    modify_pvc-idempotent (c ∷ rest) = refl

    fill_container-idempotent :
        (c : Container Q)
        → fill_container quantity p (fill_container quantity p c) ≡ fill_container quantity p c
    fill_container-idempotent c =
        let limits = set_limits-idempotent p.gp_pod_spec.memory p.gp_pod_spec.cpu c.limits in
        elim (Option-cases c.readiness_probe) [
          | inl e ↦ simp (e, limits) refl
          | inr (probe, e) ↦ simp (e, limits) refl
        ]

    modify_container-idempotent :
        (l : List (Container Q))
        → modify_greenplum_container quantity p (modify_greenplum_container quantity p l)
          ≡ modify_greenplum_container quantity p l
    unfolding modify_greenplum_container
    modify_container-idempotent [] =
        ap (λ c. c ∷ []) (fill_container-idempotent (blank_container quantity p))
    modify_container-idempotent (c ∷ rest) = ap (λ c. c ∷ rest) (fill_container-idempotent c)

    node_selector-idempotent :
        (new old : Labels)
        → node_selector_of quantity p new (node_selector_of quantity p new old)
          ≡ node_selector_of quantity p new old
    node_selector-idempotent [] old = refl
    node_selector-idempotent (l ∷ rest) old = refl

    -- A StatefulSet that was brought to what the parameters ask is left as it is, whole, when
    -- they are applied again.
    pub modify_greenplum_stateful_set-idempotent :
        (s : StatefulSet Q)
        → modify_greenplum_stateful_set quantity p (modify_greenplum_stateful_set quantity p s)
          ≡ modify_greenplum_stateful_set quantity p s
    unfolding modify_greenplum_stateful_set
    modify_greenplum_stateful_set-idempotent s =
        let a = insert_labels-idempotent s.name p.cluster_name s.labels in
        let b = insert_labels-idempotent s.name p.cluster_name s.template_labels in
        let c = modify_pvc-idempotent s.claims in
        let d = modify_container-idempotent s.containers in
        let n = node_selector-idempotent p.gp_pod_spec.worker_selector s.node_selector in
        elim (Bool-cases (str_eq p.gp_pod_spec.anti_affinity "yes")) [
          | inl e ↦ simp (e, a, b, c, d, n) refl
          | inr e ↦ simp (e, a, b, c, d, n) refl
        ]
