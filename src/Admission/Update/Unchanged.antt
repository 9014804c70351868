-- ===== src/Admission/Update/Unchanged.antt =====
-- The whole validation of an update.
use greenplum_for_kubernetes.Prelude.{true, false, ◌≡◌, ◌↔◌, ◌⊎◌, inl, arith, sym, ap, subst}
use greenplum_for_kubernetes.Prelude.Int.{ℤ, pos, negsuc, ltb_ℤ}
use greenplum_for_kubernetes.Prelude.Map.{Labels}
use greenplum_for_kubernetes.Prelude.Text.{eq_iff, to_lower}
use greenplum_for_kubernetes.Api.Quantity.{Quantities}
use greenplum_for_kubernetes.Api.Cluster.{GreenplumCluster, GreenplumClusterSpec, GreenplumPodSpec}
use greenplum_for_kubernetes.Admission.Verdict.{pass, in_turn-eq-pass_iff}
use greenplum_for_kubernetes.Admission.Access.{Access}
use greenplum_for_kubernetes.Admission.Update.{validate_image, validate_update_greenplum_cluster}
use greenplum_for_kubernetes.Admission.Update.Rules.{
  CanExpand, SamePod, KeepsFixed, validate_expand_iff, validate_fixed_fields_iff,
}

module _ {Q : Type 0} (access : Access Q) (quantities : Quantities Q) where
  -- The specification is the same, or this operator's image made the cluster.
  abbrev pub ImageRule : GreenplumCluster Q → GreenplumCluster Q → Type 0
  ImageRule old new =
      (access.cluster_spec_equal old.spec new.spec ≡ true)
      ⊎ (old.status.instance_image ≡ access.instance_image)

  validate_image_iff :
      (old new : GreenplumCluster Q)
      → (validate_image access quantities old new ≡ pass) ↔ ImageRule old new
  unfolding validate_image
  validate_image_iff old new =
      let e = eq_iff old.status.instance_image access.instance_image in
      (λ h. ground (arith, e), λ h. ground (arith, e))

  pub record Updatable (old new : GreenplumCluster Q) : Type 0 where
    pub image : ImageRule old new
    pub fixed : KeepsFixed access quantities old new
    pub expansion :
        (ltb_ℤ old.spec.segments.primary_segment_count new.spec.segments.primary_segment_count
          ≡ false)
        ⊎ CanExpand access old new
    pub pxf : new.spec.pxf.service_name ≡ old.spec.pxf.service_name

  -- An update is allowed exactly if the specification is semantically the same or the cluster was
  -- made by this operator's image; standby, host-based authentication, mirrors and anti-affinity
  -- (these two up to case), CPU, memory, storage, class, selectors and the PXF service are kept and
  -- the primaries are not fewer; and, if there are more of them, the cluster can expand.
  pub validate_update-pass_iff :
      (old new : GreenplumCluster Q)
      → (validate_update_greenplum_cluster access quantities old new ≡ pass) ↔ Updatable old new
  unfolding validate_update_greenplum_cluster
  validate_update-pass_iff old new =
      let name = eq_iff new.spec.pxf.service_name old.spec.pxf.service_name in
      (
        λ h.
            let (im, r1) = (in_turn-eq-pass_iff _).0 h in
            let (fi, r2) = r1 in
            let (ex, r3) = r2 in
            record {
              image = (validate_image_iff old new).0 im;
              fixed = (validate_fixed_fields_iff access quantities old new).0 fi;
              expansion = (validate_expand_iff access old new).0 ex;
              pxf = ground (arith, name);
            },
        λ h. (in_turn-eq-pass_iff _).1 (
          (validate_image_iff old new).1 h.image,
          (
            (validate_fixed_fields_iff access quantities old new).1 h.fixed,
            ((validate_expand_iff access old new).1 h.expansion, (ground (arith, name, h.pxf), tt)),
          ),
        ),
      )

  ltb_ℤ-irrefl : (n : ℤ) → ltb_ℤ n n ≡ false
  ltb_ℤ-irrefl (pos n) = ground arith
  ltb_ℤ-irrefl (negsuc n) = ground arith

  -- If the comparisons of other packages answer true for a thing and itself, an update that leaves
  -- the specification as it is is allowed, whatever image made the cluster.
  pub validate_update-same_spec :
      ((s : GreenplumClusterSpec Q) → access.cluster_spec_equal s s ≡ true)
      → ((l : Labels) → access.selector_equal l l ≡ true)
      → ((q : Q) → quantities.same q q ≡ true)
      → (old new : GreenplumCluster Q) → new.spec ≡ old.spec
      → validate_update_greenplum_cluster access quantities old new ≡ pass
  validate_update-same_spec spec_refl labels_refl same_refl old new e =
      let o = old.spec in
      let back = λ (P : GreenplumClusterSpec Q → Type 0) (p : P o). subst P (sym e) p in
      (validate_update-pass_iff old new).1 (record {
        image = inl (back (λ s. access.cluster_spec_equal o s ≡ true) (spec_refl o));
        fixed = record {
          standby = ap (λ s. s.master_and_standby.standby) e;
          hba = ap (λ s. s.master_and_standby.host_based_authentication) e;
          mirrors = ap (λ s. to_lower s.segments.mirrors) e;
          count =
              back
                (λ s.
                  ltb_ℤ s.segments.primary_segment_count o.segments.primary_segment_count ≡ false)
                (ltb_ℤ-irrefl o.segments.primary_segment_count);
          master_pod = SamePod-eq (ap (λ s. s.master_and_standby.pod) e);
          segment_pod = SamePod-eq (ap (λ s. s.segments.pod) e);
        };
        expansion = inl (
            back
              (λ s. ltb_ℤ o.segments.primary_segment_count s.segments.primary_segment_count ≡ false)
              (ltb_ℤ-irrefl o.segments.primary_segment_count));
        pxf = ap (λ s. s.pxf.service_name) e;
      })
    where
      SamePod-eq : {p q : GreenplumPodSpec Q} → q ≡ p → SamePod access quantities p q
      SamePod-eq {p} {q} e = record {
        cpu = ap (λ s. quantities.to_string s.cpu) e;
        memory = ap (λ s. quantities.to_string s.memory) e;
        selector =
            subst (λ s. access.selector_equal s.worker_selector p.worker_selector ≡ true) (sym e)
              (labels_refl p.worker_selector);
        anti_affinity = ap (λ s. to_lower s.anti_affinity) e;
        storage =
            subst (λ s. quantities.same s.storage p.storage ≡ true) (sym e) (same_refl p.storage);
        storage_class = ap (λ s. s.storage_class_name) e;
      }
