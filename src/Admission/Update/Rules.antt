-- ===== src/Admission/Update/Rules.antt =====
-- An update is allowed exactly if it keeps the fixed fields and, where it adds primaries, the
-- cluster is ready to expand.
use greenplum_for_kubernetes.Prelude.{
  Bool, true, false, ◌||◌, not, ◌≡◌, ◌≢◌, ◌↔◌, ◌⊎◌, inl, inr, arith, refl, Bool-cases,
}
use greenplum_for_kubernetes.Prelude.Int.{pos, ltb_ℤ}
use greenplum_for_kubernetes.Prelude.Text.{String, str_eq, eq_iff, to_lower, trim_space}
use greenplum_for_kubernetes.Prelude.Effects.{Result, ok, err}
use greenplum_for_kubernetes.Api.Quantity.{Quantities}
use greenplum_for_kubernetes.Api.Cluster.{GreenplumCluster, GreenplumPodSpec, running}
use greenplum_for_kubernetes.Api.Objects.{JobStatus}
use greenplum_for_kubernetes.Admission.Verdict.{
  pass, deny_if, deny_if-eq-pass_iff, in_turn-eq-pass_iff,
}
use greenplum_for_kubernetes.Admission.Access.{Access}
use greenplum_for_kubernetes.Admission.Update.{
  active_master, check_expand_schema_cmd, job_name, job_check, schema_check, printed_ne,
  validate_fixed_fields, validate_expand,
}

module _ {Q : Type 0} (access : Access Q) where
  -- No earlier expansion job, or one that succeeded.
  abbrev pub JobOver : Result JobStatus → Type 0
  JobOver (err e) = e.is_not_found ≡ true
  JobOver (ok job) = ltb_ℤ (pos 0) job.succeeded ≡ true

  job_check_iff : (r : Result JobStatus) → (job_check access r ≡ pass) ↔ JobOver r
  job_check_iff (err e) = (λ h. ground arith, λ h. ground arith)
  job_check_iff (ok job) = (λ h. ground arith, λ h. ground arith)

  -- The count of expansion schemas was read, and it is 0.
  abbrev pub NoSchema : Result String → Type 0
  NoSchema (err e) = ⊥
  NoSchema (ok out) = trim_space out ≡ "0"

  schema_check_iff : (r : Result String) → (schema_check access r ≡ pass) ↔ NoSchema r
  schema_check_iff (err e) = (λ h. ground arith, λ h. absurd h)
  schema_check_iff (ok out) =
      let t = trim_space out in
      (λ h. ground (arith, eq_iff t "0"), λ h. ground (arith, eq_iff t "0"))

  -- The old cluster runs, a master answers, and no other expansion is under way or left over.
  pub record CanExpand (old new : GreenplumCluster Q) : Type 0 where
    pub phase : old.status.phase ≡ running
    pub master : active_master access new.namespace ≢ ""
    pub schema :
        NoSchema (
          access.execute check_expand_schema_cmd new.namespace (active_master access new.namespace))
    pub job : JobOver (access.get_job new.namespace (job_name new.name))

  -- Expansion is checked only where the number of primaries grows, and then it passes exactly if
  -- the cluster can expand.
  pub validate_expand_iff :
      (old new : GreenplumCluster Q)
      → (validate_expand access old new ≡ pass) ↔ (
          (ltb_ℤ old.spec.segments.primary_segment_count new.spec.segments.primary_segment_count
            ≡ false)
          ⊎ CanExpand old new)
  unfolding validate_expand
  validate_expand_iff old new =
      elim (Bool-cases
        (ltb_ℤ old.spec.segments.primary_segment_count new.spec.segments.primary_segment_count)) [
          | inr e ↦ rw e ((λ h. inl refl, λ h. refl))
          | inl e ↦
              let master = active_master access new.namespace in
              rw e (
                (
                  λ h.
                      let (a, r1) = (in_turn-eq-pass_iff _).0 h in
                      let (b, r2) = r1 in
                      let (c, r3) = r2 in
                      inr (record {
                        phase = ground arith;
                        master = λ k. ground (arith, eq_iff master "");
                        schema = (schema_check_iff _).0 c;
                        job = (job_check_iff _).0 (r3.0);
                      }),
                  λ h. elim h [
                    | inl f ↦ ground arith
                    | inr ready ↦ (in_turn-eq-pass_iff _).1 (
                      ground (arith, ready.phase),
                      (
                        ground (arith, ready.master, eq_iff master ""),
                        ((schema_check_iff _).1 ready.schema, ((job_check_iff _).1 ready.job, tt)),
                      ),
                    )
                  ],
                ))
        ]

  -- x and y have the same lower case
  abbrev pub SameLower : String → String → Type 0
  SameLower x y = to_lower x ≡ to_lower y

  lower_ne_iff :
      (quantities : Quantities Q) (x y : String)
      → (not (str_eq (to_lower x) (to_lower y)) ≡ false) ↔ SameLower x y
  lower_ne_iff quantities x y =
      let e = eq_iff (to_lower x) (to_lower y) in (λ h. ground (arith, e), λ h. ground (arith, e))

  module _ (quantities : Quantities Q) where
    -- What an update may not change in the specification of a pod.
    pub record SamePod (old new : GreenplumPodSpec Q) : Type 0 where
      pub cpu : quantities.to_string new.cpu ≡ quantities.to_string old.cpu
      pub memory : quantities.to_string new.memory ≡ quantities.to_string old.memory
      pub selector : access.selector_equal new.worker_selector old.worker_selector ≡ true
      pub anti_affinity : SameLower new.anti_affinity old.anti_affinity
      pub storage : quantities.same new.storage old.storage ≡ true
      pub storage_class : new.storage_class_name ≡ old.storage_class_name

    pub record KeepsFixed (old new : GreenplumCluster Q) : Type 0 where
      pub standby : new.spec.master_and_standby.standby ≡ old.spec.master_and_standby.standby
      pub hba :
          new.spec.master_and_standby.host_based_authentication
          ≡ old.spec.master_and_standby.host_based_authentication
      pub mirrors : SameLower new.spec.segments.mirrors old.spec.segments.mirrors
      pub count :
          ltb_ℤ new.spec.segments.primary_segment_count old.spec.segments.primary_segment_count
          ≡ false
      pub master_pod : SamePod old.spec.master_and_standby.pod new.spec.master_and_standby.pod
      pub segment_pod : SamePod old.spec.segments.pod new.spec.segments.pod

    same_iff :
        (x y : String) (message : String) → (deny_if (not (str_eq x y)) message ≡ pass) ↔ (x ≡ y)
    same_iff x y message = (λ h. ground (arith, eq_iff x y), λ h. ground (arith, eq_iff x y))

    holds_iff : (a : Bool) → (not a ≡ false) ↔ (a ≡ true)
    holds_iff a = (λ h. ground arith, λ h. ground arith)

    printed_iff :
        (x y : Q)
        → (printed_ne access quantities x y ≡ false)
          ↔ (quantities.to_string x ≡ quantities.to_string y)
    printed_iff x y =
        let e = eq_iff (quantities.to_string x) (quantities.to_string y) in
        (λ h. ground (arith, e), λ h. ground (arith, e))

    class_iff : (x y : String) → (not (str_eq x y) ≡ false) ↔ (x ≡ y)
    class_iff x y = (λ h. ground (arith, eq_iff x y), λ h. ground (arith, eq_iff x y))

    -- A check of one property of the masters and the same property of the segments.
    both_iff :
        {A B : Type 0} (a b : Bool) (message : String)
        → (a ≡ false) ↔ A
        → (b ≡ false) ↔ B
        → (deny_if (a || b) message ≡ pass) ↔ (A × B)
    both_iff a b message i j =
        (λ h. (i.0 (ground arith), j.0 (ground arith)), λ h. ground (arith, i.1 h.0, j.1 h.1))

    pub validate_fixed_fields_iff :
        (old new : GreenplumCluster Q)
        → (validate_fixed_fields access quantities old new ≡ pass) ↔ KeepsFixed old new
    unfolding validate_fixed_fields
    validate_fixed_fields_iff old new =
        let lower = lower_ne_iff quantities in
        let cpu = both_iff _ _ _ (printed_iff _ _) (printed_iff _ _) in
        let memory = both_iff _ _ _ (printed_iff _ _) (printed_iff _ _) in
        let selector = both_iff _ _ _ (holds_iff _) (holds_iff _) in
        let anti = both_iff _ _ _ (lower _ _) (lower _ _) in
        let storage = both_iff _ _ _ (holds_iff _) (holds_iff _) in
        let class = both_iff _ _ _ (class_iff _ _) (class_iff _ _) in
        (
          λ h.
              let (sb, r1) = (in_turn-eq-pass_iff _).0 h in
              let (hb, r2) = r1 in
              let (cp, r3) = r2 in
              let (me, r4) = r3 in
              let (se, r5) = r4 in
              let (aa, r6) = r5 in
              let (mi, r7) = r6 in
              let (st, r8) = r7 in
              let (cl, r9) = r8 in
              record {
                standby = (same_iff _ _ _).0 sb;
                hba = (same_iff _ _ _).0 hb;
                mirrors = (same_iff _ _ _).0 mi;
                count = (deny_if-eq-pass_iff _ _).0 (r9.0);
                master_pod = record {
                  cpu = (cpu.0 cp).0;
                  memory = (memory.0 me).0;
                  selector = (selector.0 se).0;
                  anti_affinity = (anti.0 aa).0;
                  storage = (storage.0 st).0;
                  storage_class = (class.0 cl).0;
                };
                segment_pod = record {
                  cpu = (cpu.0 cp).1;
                  memory = (memory.0 me).1;
                  selector = (selector.0 se).1;
                  anti_affinity = (anti.0 aa).1;
                  storage = (storage.0 st).1;
                  storage_class = (class.0 cl).1;
                };
              },
          λ h.
              let m = h.master_pod in
              let g = h.segment_pod in
              (in_turn-eq-pass_iff _).1 (
                (same_iff _ _ _).1 h.standby,
                (
                  (same_iff _ _ _).1 h.hba,
                  (
                    cpu.1 (m.cpu, g.cpu),
                    (
                      memory.1 (m.memory, g.memory),
                      (
                        selector.1 (m.selector, g.selector),
                        (
                          anti.1 (m.anti_affinity, g.anti_affinity),
                          (
                            (same_iff _ _ _).1 h.mirrors,
                            (
                              storage.1 (m.storage, g.storage),
                              (
                                class.1 (m.storage_class, g.storage_class),
                                ((deny_if-eq-pass_iff _ _).1 h.count, tt),
                              ),
                            ),
                          ),
                        ),
                      ),
                    ),
                  ),
                ),
              ),
        )
