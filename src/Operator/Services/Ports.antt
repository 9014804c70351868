-- ===== src/Operator/Services/Ports.antt =====
-- The ports of the database's service.
use greenplum_for_kubernetes.Prelude.{List, [], ◌∷◌, ◌≡◌, inl, inr, refl, true, Bool-cases}
use greenplum_for_kubernetes.Prelude.Map.{Labels, insert, insert_all, lookup-insert, insert-same}
use greenplum_for_kubernetes.Prelude.Text.{String}
use greenplum_for_kubernetes.Operator.Services.{
  cluster_labels, Service, modify_greenplum_service, ServicePort, is_psql, has_psql, set_psql_port,
}

has_psql-set : (ps : List ServicePort) → has_psql (set_psql_port ps) ≡ true
unfolding has_psql set_psql_port
has_psql-set [] = refl
has_psql-set (p ∷ rest) =
    let ih = has_psql-set rest in
    elim (Bool-cases (is_psql p)) [
      | inl e ↦ elim (Bool-cases (has_psql rest)) [
        | inl f ↦ rw (e, f) (rw e refl)
        | inr f ↦ rw (e, f) refl
      ]
      | inr e ↦ rw e (rw (e, ih) refl)
    ]

set_psql_port-idempotent :
    (ps : List ServicePort) → set_psql_port (set_psql_port ps) ≡ set_psql_port ps
unfolding has_psql set_psql_port
set_psql_port-idempotent [] = refl
set_psql_port-idempotent (p ∷ rest) =
    let ih = set_psql_port-idempotent rest in
    let k = has_psql-set rest in
    elim (Bool-cases (is_psql p)) [
      | inl e ↦ elim (Bool-cases (has_psql rest)) [
        | inl f ↦ rw (e, f) (rw (e, k, ih) refl)
        | inr f ↦ rw (e, f) (rw f refl)
      ]
      | inr e ↦ rw e (rw (e, ih) refl)
    ]

insert_labels-idempotent :
    (cluster : String) (m : Labels)
    → insert_all (cluster_labels cluster) (insert_all (cluster_labels cluster) m)
      ≡ insert_all (cluster_labels cluster) m
unfolding insert_all
insert_labels-idempotent cluster m =
    let m1 = insert "app" "greenplum" m in
    let m2 = insert "greenplum-cluster" cluster m1 in
    let a = insert-same "app" "greenplum" m2 (
      rw
        (
          lookup-insert "greenplum-cluster" "app" cluster m1,
          lookup-insert "app" "app" "greenplum" m,
        )
        refl) in
    let b =
      insert-same "greenplum-cluster" cluster m2
        (rw (lookup-insert "greenplum-cluster" "greenplum-cluster" cluster m1) refl) in
    rw (a, b) refl

-- Filling in the database's service twice is the same as once, whatever ports it has.
pub modify_greenplum_service-idempotent :
    (cluster : String) (s : Service)
    → modify_greenplum_service cluster (modify_greenplum_service cluster s)
      ≡ modify_greenplum_service cluster s
unfolding modify_greenplum_service
modify_greenplum_service-idempotent cluster s =
    let a = insert_labels-idempotent cluster s.labels in
    let b = set_psql_port-idempotent s.ports in simp (a, b) refl
