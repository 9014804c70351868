-- ===== src/Admission/Create/Admissible.antt =====
-- A creation is allowed exactly for the clusters that are admissible.
use greenplum_for_kubernetes.Prelude.{[], ◌≡◌, ◌≢◌, ◌↔◌, All}
use greenplum_for_kubernetes.Prelude.Int.{negsuc}
use greenplum_for_kubernetes.Prelude.Effects.{ok}
use greenplum_for_kubernetes.Api.Quantity.{Quantities}
use greenplum_for_kubernetes.Api.Cluster.{GreenplumCluster, GreenplumPodSpec}
use greenplum_for_kubernetes.Operator.Defaults.{set_default_greenplum_cluster_values}
use greenplum_for_kubernetes.Admission.Verdict.{pass, in_turn-eq-pass_iff}
use greenplum_for_kubernetes.Admission.Access.{Access}
use greenplum_for_kubernetes.Admission.Shared.Facts.{
  ShortLabels, validate_worker_selector_iff, validate_resource_quantity_iff,
}
use greenplum_for_kubernetes.Admission.Create.{
  validate_defaulted, validate_create_greenplum_cluster,
}
use greenplum_for_kubernetes.Admission.Create.Checks.{
  IsCompatible, AntiAffinityRule, Claims, CountKept, StandbyKept, MirrorsRule, StorageKept,
  validate_anti_affinity_iff, validate_unique_cluster_iff, validate_pvc_greenplum_version_iff,
  validate_primary_segment_count_iff, validate_standby_iff, validate_mirrors_iff,
  validate_storage_iff,
}

module _ {Q : Type 0} (access : Access Q) (quantities : Quantities Q) where
  -- A pod's selector is short, and it asks for no negative quantity.
  pub record PodAdmissible (pod : GreenplumPodSpec Q) : Type 0 where
    pub selector : ShortLabels pod.worker_selector
    pub cpu : quantities.sign pod.cpu ≢ negsuc 0
    pub memory : quantities.sign pod.memory ≢ negsuc 0
    pub storage : quantities.sign pod.storage ≢ negsuc 0

  pub record Admissible (c : GreenplumCluster Q) : Type 0 where
    pub anti_affinity : AntiAffinityRule c
    pub unique : access.list_clusters c.namespace ≡ ok []
    pub storage : StorageKept quantities access c
    pub master_version : Claims access c "master" (All IsCompatible)
    pub primary_version : Claims access c "segment-a" (All IsCompatible)
    pub mirror_version : Claims access c "segment-b" (All IsCompatible)
    pub standby : Claims access c "master" (StandbyKept c)
    pub primary_count : Claims access c "segment-a" (CountKept c)
    pub mirrors : Claims access c "segment-a" (MirrorsRule access c)
    pub master_pod : PodAdmissible c.spec.master_and_standby.pod
    pub segment_pod : PodAdmissible c.spec.segments.pod

  -- The checks of `validate_defaulted` pass together exactly when the cluster is admissible.
  pub validate_defaulted_iff :
      (c : GreenplumCluster Q) → (validate_defaulted access quantities c ≡ pass) ↔ Admissible c
  unfolding validate_defaulted
  validate_defaulted_iff c =
      let quantity = validate_resource_quantity_iff quantities in
      (
        λ h.
            let (a, r1) = (in_turn-eq-pass_iff _).0 h in
            let (u, r2) = r1 in
            let (st, r3) = r2 in
            let (v1, r4) = r3 in
            let (v2, r5) = r4 in
            let (v3, r6) = r5 in
            let (sb, r7) = r6 in
            let (n, r8) = r7 in
            let (mi, r9) = r8 in
            let (s1, r10) = r9 in
            let (s2, r11) = r10 in
            let (q1, r12) = r11 in
            let (q2, r13) = r12 in
            let (q3, r14) = r13 in
            let (q4, r15) = r14 in
            let (q5, r16) = r15 in
            record {
              anti_affinity = (validate_anti_affinity_iff access c).0 a;
              unique = (validate_unique_cluster_iff access c).0 u;
              storage = (validate_storage_iff quantities access c).0 st;
              master_version = (validate_pvc_greenplum_version_iff access c "master").0 v1;
              primary_version = (validate_pvc_greenplum_version_iff access c "segment-a").0 v2;
              mirror_version = (validate_pvc_greenplum_version_iff access c "segment-b").0 v3;
              standby = (validate_standby_iff access c).0 sb;
              primary_count = (validate_primary_segment_count_iff access c).0 n;
              mirrors = (validate_mirrors_iff access c).0 mi;
              master_pod = record {
                selector = (validate_worker_selector_iff _ _).0 s1;
                cpu = (quantity _ _ _).0 q1;
                memory = (quantity _ _ _).0 q3;
                storage = (quantity _ _ _).0 q5;
              };
              segment_pod = record {
                selector = (validate_worker_selector_iff _ _).0 s2;
                cpu = (quantity _ _ _).0 q2;
                memory = (quantity _ _ _).0 q4;
                storage = (quantity _ _ _).0 (r16.0);
              };
            },
        λ h.
            let m = h.master_pod in
            let g = h.segment_pod in
            (in_turn-eq-pass_iff _).1 (
              (validate_anti_affinity_iff access c).1 h.anti_affinity,
              (
                (validate_unique_cluster_iff access c).1 h.unique,
                (
                  (validate_storage_iff quantities access c).1 h.storage,
                  (
                    (validate_pvc_greenplum_version_iff access c "master").1 h.master_version,
                    (
                      (validate_pvc_greenplum_version_iff access c "segment-a").1 h.primary_version,
                      (
                        (validate_pvc_greenplum_version_iff access c "segment-b").1
                            h.mirror_version,
                        (
                          (validate_standby_iff access c).1 h.standby,
                          (
                            (validate_primary_segment_count_iff access c).1 h.primary_count,
                            (
                              (validate_mirrors_iff access c).1 h.mirrors,
                              (
                                (validate_worker_selector_iff _ _).1 m.selector,
                                (
                                  (validate_worker_selector_iff _ _).1 g.selector,
                                  (
                                    (quantity _ _ _).1 m.cpu,
                                    (
                                      (quantity _ _ _).1 g.cpu,
                                      (
                                        (quantity _ _ _).1 m.memory,
                                        (
                                          (quantity _ _ _).1 g.memory,
                                          (
                                            (quantity _ _ _).1 m.storage,
                                            ((quantity _ _ _).1 g.storage, tt),
                                          ),
                                        ),
                                      ),
                                    ),
                                  ),
                                ),
                              ),
                            ),
                          ),
                        ),
                      ),
                    ),
                  ),
                ),
              ),
            ),
      )

  -- A creation is allowed exactly if the cluster, with its yes/no fields in lower case, is
  -- admissible: no other cluster lives in its namespace, it keeps to the anti-affinity rule, the
  -- claims that an earlier cluster of its name left could be listed and agree with it (storage and
  -- class of the first claim, version label of every claim, number of primaries, standby, mirrors),
  -- its selectors are short, and its quantities are not negative.
  pub validate_create-pass_iff :
      (c : GreenplumCluster Q)
      → (validate_create_greenplum_cluster access quantities c ≡ pass)
        ↔ Admissible (set_default_greenplum_cluster_values c)
  unfolding validate_create_greenplum_cluster
  validate_create-pass_iff c = validate_defaulted_iff (set_default_greenplum_cluster_values c)
