-- ===== src/Admission/Create/Checks.antt =====
-- When each check of a creation passes.
use greenplum_for_kubernetes.Prelude.{
  ℕ, suc, ◌<◌, List, [], ◌∷◌, Option, none, some, ◌≡◌, ◌↔◌, ◌⊎◌, All, length, arith, refl, not,
  ◌&&◌, ◌==◌, false, if◌then◌else◌,
}
use greenplum_for_kubernetes.Prelude.Int.{pos, ℤ, int32, ltb_ℤ, ◌==ℤ◌}
use greenplum_for_kubernetes.Prelude.Map.{lookup}
use greenplum_for_kubernetes.Prelude.Text.{String, str_eq, eq_iff}
use greenplum_for_kubernetes.Prelude.Effects.{ok}
use greenplum_for_kubernetes.Api.Quantity.{Quantities}
use greenplum_for_kubernetes.Api.Cluster.{GreenplumCluster}
use greenplum_for_kubernetes.Api.Objects.{Pvc}
use greenplum_for_kubernetes.Admission.Verdict.{
  Verdict, pass, >>-eq-pass_iff, deny_if-eq-pass_iff, after, after-eq-pass_iff,
}
use greenplum_for_kubernetes.Admission.Access.{Access}
use greenplum_for_kubernetes.Admission.Shared.Facts.{FirstClaimFits, validate_storage_helper_iff}
use greenplum_for_kubernetes.Admission.Create.{
  get_greenplum_pvcs, label_check, validate_unique_cluster, check_versions,
  validate_pvc_greenplum_version, validate_primary_segment_count, validate_anti_affinity,
  validate_standby, validate_mirrors, previous_standby, mirrors_check,
  validate_greenplum_storage_from_pvcs,
}

suc-ne-zero : (n : ℕ) → (suc n == 0) ≡ false
suc-ne-zero n = ground arith

module _ {Q : Type 0} where
  -- A claim that was labelled with the supported version.
  abbrev pub IsCompatible : Pvc Q → Type 0
  IsCompatible p = lookup "greenplum-major-version" p.labels ≡ some "6"

  abbrev pub AntiAffinityRule : GreenplumCluster Q → Type 0
  AntiAffinityRule c =
      (c.spec.master_and_standby.standby ≡ "no") ⊎ (c.spec.segments.mirrors ≡ "no")
      → (c.spec.master_and_standby.pod.anti_affinity ≡ "no")
        × (c.spec.segments.pod.anti_affinity ≡ "no")

  pub validate_anti_affinity_iff :
      (access : Access Q) (c : GreenplumCluster Q)
      → (validate_anti_affinity access c ≡ pass) ↔ AntiAffinityRule c
  unfolding validate_anti_affinity
  validate_anti_affinity_iff access c =
      let sb = c.spec.master_and_standby.standby in
      let mi = c.spec.segments.mirrors in
      let ma = c.spec.master_and_standby.pod.anti_affinity in
      let ga = c.spec.segments.pod.anti_affinity in
      (
        λ h k. ground (arith, eq_iff sb "no", eq_iff mi "no", eq_iff ma "no", eq_iff ga "no"),
        λ h. ground (arith, eq_iff sb "no", eq_iff mi "no", eq_iff ma "no", eq_iff ga "no"),
      )

  label_check_iff :
      (access : Access Q) (o : Option String) (v : Verdict)
      → (label_check access o v ≡ pass) ↔ ((v ≡ pass) × (o ≡ some "6"))
  label_check_iff access none v = (λ h. ground arith, λ h. ground arith)
  label_check_iff access (some x) v =
      (λ h. ground (arith, eq_iff x "6"), λ h. ground (arith, eq_iff x "6"))

  pub check_versions_iff :
      (access : Access Q) (pvcs : List (Pvc Q)) (v : Verdict)
      → (check_versions access pvcs v ≡ pass) ↔ ((v ≡ pass) × All IsCompatible pvcs)
  unfolding check_versions
  check_versions_iff access [] v = (λ h. (h, tt), λ h. h.0)
  check_versions_iff access (p ∷ rest) v =
      let o = lookup "greenplum-major-version" p.labels in
      let ih = check_versions_iff access rest (label_check access o v) in
      let here = label_check_iff access o v in
      (
        λ h. let (a, b) = ih.0 h in let (c, d) = here.0 a in (c, (d, b)),
        λ h. ih.1 (here.1 (h.0, h.1.0), h.1.1),
      )

  pub validate_unique_cluster_iff :
      (access : Access Q) (c : GreenplumCluster Q)
      → (validate_unique_cluster access c ≡ pass) ↔ (access.list_clusters c.namespace ≡ ok [])
  unfolding validate_unique_cluster
  validate_unique_cluster_iff access c = (λ h. ground arith, λ h. ground arith)

  -- The claims of a type could be listed, and `P` holds of them.
  abbrev pub Claims : Access Q → GreenplumCluster Q → String → (List (Pvc Q) → Type 0) → Type 0
  Claims access c typ P =
      (pvcs : List (Pvc Q)) × (get_greenplum_pvcs access c typ ≡ ok pvcs) × P pvcs

  Claims_iff :
      (access : Access Q) (c : GreenplumCluster Q) (typ : String) (P : List (Pvc Q) → Type 0)
      (k : List (Pvc Q) → Verdict)
      → ((pvcs : List (Pvc Q)) → (k pvcs ≡ pass) ↔ P pvcs)
      → (after (get_greenplum_pvcs access c typ) k ≡ pass) ↔ Claims access c typ P
  Claims_iff access c typ P k each =
      let a = after-eq-pass_iff (get_greenplum_pvcs access c typ) k in
      (
        λ h. let (pvcs, e, q) = a.0 h in (pvcs, e, (each pvcs).0 q),
        λ h. a.1 (h.0, h.1, (each h.0).1 h.2),
      )

  pub validate_pvc_greenplum_version_iff :
      (access : Access Q) (c : GreenplumCluster Q) (typ : String)
      → (validate_pvc_greenplum_version access c typ ≡ pass)
        ↔ Claims access c typ (All IsCompatible)
  unfolding validate_pvc_greenplum_version
  validate_pvc_greenplum_version_iff access c typ =
      Claims_iff access c typ (All IsCompatible) (λ pvcs. check_versions access pvcs pass)
        λ pvcs. let i = check_versions_iff access pvcs pass in (λ h. (i.0 h).1, λ h. i.1 (refl, h))

  -- No fewer primaries than there are claims of primaries.
  abbrev pub CountKept : GreenplumCluster Q → List (Pvc Q) → Type 0
  CountKept c pvcs = ltb_ℤ c.spec.segments.primary_segment_count (int32 (length pvcs)) ≡ false

  pub validate_primary_segment_count_iff :
      (access : Access Q) (c : GreenplumCluster Q)
      → (validate_primary_segment_count access c ≡ pass) ↔ Claims access c "segment-a" (CountKept c)
  unfolding validate_primary_segment_count
  validate_primary_segment_count_iff access c =
      Claims_iff access c "segment-a" (CountKept c) _ λ pvcs. deny_if-eq-pass_iff _ _

  -- A standby is asked for exactly where two claims of masters are left, if any is left.
  abbrev pub StandbyKept : GreenplumCluster Q → List (Pvc Q) → Type 0
  StandbyKept c pvcs =
      (int32 (length pvcs) ≡ pos 0)
      ⊎ (c.spec.master_and_standby.standby
          ≡ (if int32 (length pvcs) ==ℤ pos 2 then "yes" else "no"))

  standby_test :
      (access : Access Q) (z : ℤ) (s : String)
      → ((not (z ==ℤ pos 0) && not (str_eq (previous_standby access (z ==ℤ pos 2)) s)) ≡ false)
        ↔ ((z ≡ pos 0) ⊎ (s ≡ (if z ==ℤ pos 2 then "yes" else "no")))
  standby_test access z s = (
    λ h. ground (arith, eq_iff "yes" s, eq_iff "no" s),
    λ h. ground (arith, eq_iff "yes" s, eq_iff "no" s),
  )

  pub validate_standby_iff :
      (access : Access Q) (c : GreenplumCluster Q)
      → (validate_standby access c ≡ pass) ↔ Claims access c "master" (StandbyKept c)
  unfolding validate_standby
  validate_standby_iff access c = Claims_iff access c "master" (StandbyKept c) _ λ pvcs.
      let d = deny_if-eq-pass_iff _ _ in
      let t = standby_test access (int32 (length pvcs)) c.spec.master_and_standby.standby in
      (λ h. t.0 (d.0 h), λ h. d.1 (t.1 h))

  -- With claims of primaries left, mirrors are asked for if there are claims of mirrors, and not
  -- asked for if there are none.
  abbrev pub MirrorsKept : GreenplumCluster Q → List (Pvc Q) → Type 0
  MirrorsKept c pvcs =
      (c.spec.segments.mirrors ≡ "yes" → 0 < length pvcs)
      × (c.spec.segments.mirrors ≡ "no" → length pvcs ≡ 0)

  mirrors_check_iff :
      (access : Access Q) (c : GreenplumCluster Q) (pvcs : List (Pvc Q))
      → (mirrors_check access c (length pvcs) ≡ pass) ↔ MirrorsKept c pvcs
  mirrors_check_iff access c pvcs =
      let m = c.spec.segments.mirrors in
      let n = length pvcs in
      (
        λ h. (λ e. ground (arith, eq_iff m "yes"), λ e. ground (arith, eq_iff m "no")),
        λ h. ground (arith, eq_iff m "yes", eq_iff m "no"),
      )

  abbrev pub MirrorsRule : Access Q → GreenplumCluster Q → List (Pvc Q) → Type 0
  MirrorsRule access c [] = Unit
  MirrorsRule access c (_ ∷ _) = Claims access c "segment-b" (MirrorsKept c)

  pub validate_mirrors_iff :
      (access : Access Q) (c : GreenplumCluster Q)
      → (validate_mirrors access c ≡ pass) ↔ Claims access c "segment-a" (MirrorsRule access c)
  unfolding validate_mirrors
  validate_mirrors_iff access c =
      Claims_iff access c "segment-a" (MirrorsRule access c) _ λ pvcs. by_primaries pvcs
    where
      by_primaries :
          (primaries : List (Pvc Q))
          → ((if length primaries == 0
                then pass
                else after
                    (get_greenplum_pvcs access c "segment-b")
                    (λ pvcs. mirrors_check access c (length pvcs)))
              ≡ pass)
            ↔ MirrorsRule access c primaries
      by_primaries [] = (λ h. tt, λ h. refl)
      by_primaries (p ∷ rest) =
          rw (suc-ne-zero (length rest))
            (Claims_iff access c "segment-b" (MirrorsKept c) _ (mirrors_check_iff access c))

  module _ (quantities : Quantities Q) where
    abbrev pub StorageKept : Access Q → GreenplumCluster Q → Type 0
    StorageKept access c =
        let m = c.spec.master_and_standby.pod in
        let g = c.spec.segments.pod in
        Claims access c "master"
          (λ pvcs. FirstClaimFits quantities pvcs m.storage m.storage_class_name)
        × Claims access c "segment-a"
            (λ pvcs. FirstClaimFits quantities pvcs g.storage g.storage_class_name)

    pub validate_storage_iff :
        (access : Access Q) (c : GreenplumCluster Q)
        → (validate_greenplum_storage_from_pvcs access quantities c ≡ pass) ↔ StorageKept access c
    unfolding validate_greenplum_storage_from_pvcs
    validate_storage_iff access c =
        let m = c.spec.master_and_standby.pod in
        let g = c.spec.segments.pod in
        let s = >>-eq-pass_iff _ _ in
        let i =
          Claims_iff access c "master" _ _ (λ pvcs.
            validate_storage_helper_iff quantities pvcs m.storage m.storage_class_name _) in
        let j =
          Claims_iff access c "segment-a" _ _ (λ pvcs.
            validate_storage_helper_iff quantities pvcs g.storage g.storage_class_name _) in
        (λ h. let (a, b) = s.0 h in (i.0 a, j.0 b), λ h. s.1 (i.1 h.0, j.1 h.1))
