-- ===== src/Operator/Finalizer/Order.antt =====
-- The order in which a deleted cluster is stopped and let go.
use greenplum_for_kubernetes.Prelude.{
  In, [], ◌++◌, ◌∙◌, ◌⊎◌, ◌↔◌, Empty, subst, ap, sym, refl, false, List, ◌∷◌, ◌≡◌, ◌≢◌, inl, inr,
  true, arith, Bool-cases,
}
use greenplum_for_kubernetes.Prelude.Text.{String, str_eq, eq_iff}
use greenplum_for_kubernetes.Prelude.Effects.{Error, wrap, Result, ok, err, Result-cases}
use greenplum_for_kubernetes.Api.Cluster.{GreenplumCluster, GreenplumClusterPhase, deleting}
use greenplum_for_kubernetes.Operator.World.{Call, World, patch_cluster, execute}
use greenplum_for_kubernetes.Operator.Status.{same_phase, set_status, with_phase}
use greenplum_for_kubernetes.Operator.Finalizer.{
  stop_cluster_finalizer, slice_contains_string, gp_stop_command, ensure_greenplum_cluster_stopped,
  without_finalizer, add_finalizer, remove_finalizer, handle_finalizer,
}
use greenplum_for_kubernetes.Operator.Finalizer.Slices.{contains-In_iff, In-remove_iff}

module _ {Q : Type 0} (w : World Q) where
  -- The phase in memory is set to deleting, with a patch that may fail, unless it is that already.
  abbrev pub IsMarked :
      (c : GreenplumCluster Q) (h : List (Call Q)) (marked : GreenplumCluster Q)
      (h1 : List (Call Q))
      → Type 0
  IsMarked c h marked h1 =
      let wanted : GreenplumCluster Q = record c {
        status = record (c.status) { phase = deleting };
      } in
      ((c.status.phase ≡ deleting) × (marked ≡ c) × (h1 ≡ h))
      ⊎ ((c.status.phase ≢ deleting)
          × (h1 ≡ patch_cluster wanted ∷ h)
          × ((w.patch_cluster h wanted ≡ ok marked)
              ⊎ ((e : Error) × (w.patch_cluster h wanted ≡ err e) × (marked ≡ wanted))))

  -- gpstop runs on the active master, if there is one.
  abbrev pub IsStopped : (ns master : String) (h1 h2 : List (Call Q)) → Type 0
  IsStopped ns master h1 h2 =
      ((master ≡ "") × (h2 ≡ h1))
      ⊎ ((master ≢ "")
          × (h2
              ≡ execute
                  ("/bin/bash" ∷ "-c" ∷ "--"
                    ∷ "source /usr/local/greenplum-db/greenplum_path.sh && gpstop -aM immediate"
                    ∷ [])
                  ns master
                ∷ h1))

  abbrev pub HasFinalizer : GreenplumCluster Q → Type 0
  HasFinalizer c = In "stopcluster.greenplumcluster.pivotal.io" c.finalizers

  -- A cluster is let go: it is marked, stopped, and only then patched, with every finalizer that it
  -- had when marked but ours; and the caller has no active master left.
  abbrev pub IsLetGo :
      (c : GreenplumCluster Q) (master : String) (h : List (Call Q))
      → Result (GreenplumCluster Q × String) × List (Call Q)
      → Type 0
  IsLetGo c master h r =
      (marked gone : GreenplumCluster Q) × (h1 h2 : List (Call Q)) × IsMarked c h marked h1
      × IsStopped marked.namespace master h1 h2
      × (gone ≡ record marked { finalizers = gone.finalizers })
      × ((x : String)
          → In x gone.finalizers
            ↔ (In x marked.finalizers × (x ≢ "stopcluster.greenplumcluster.pivotal.io")))
      × (r.1 ≡ patch_cluster gone ∷ h2)
      × (((last : GreenplumCluster Q) × (r.0 ≡ ok (last, ""))) ⊎ ((e : Error) × (r.0 ≡ err e)))

  -- The four cases: not deleted, with the finalizer or without; deleted, with it or without.
  abbrev pub IsHandled :
      (c : GreenplumCluster Q) (master : String) (h : List (Call Q))
      → Result (GreenplumCluster Q × String) × List (Call Q)
      → Type 0
  IsHandled c master h r =
      ((c.is_deleted ≡ false) × HasFinalizer c × (r ≡ (ok (c, master), h)))
      ⊎ (((c.is_deleted ≡ false)
            × (HasFinalizer c → Empty {0})
            × (r.1
                ≡ patch_cluster (record c {
                  finalizers = c.finalizers ++ ("stopcluster.greenplumcluster.pivotal.io" ∷ []);
                })
                  ∷ h))
          ⊎ (((c.is_deleted ≡ true) × HasFinalizer c × IsLetGo c master h r)
              ⊎ ((c.is_deleted ≡ true) × (HasFinalizer c → Empty {0}) × (r ≡ (ok (c, master), h)))))

  pub ensure_greenplum_cluster_stopped-IsStopped :
      (c : GreenplumCluster Q) (master : String) (h : List (Call Q))
      → (h2 : List (Call Q)) × (ensure_greenplum_cluster_stopped w c master h ≡ (ok tt, h2))
        × IsStopped c.namespace master h h2
  unfolding ensure_greenplum_cluster_stopped
  ensure_greenplum_cluster_stopped-IsStopped c master h = elim (Bool-cases (str_eq master "")) [
    | inl e ↦ (h, rw e refl, inl ((eq_iff master "").0 e, refl))
    | inr e ↦
        let n : master ≢ "" = ground (arith, eq_iff master "") in
        (execute gp_stop_command c.namespace master ∷ h, rw e refl, inr (n, refl))
  ]

  same_phase_iff : (p q : GreenplumClusterPhase) → (same_phase p q ≡ true) ↔ (p ≡ q)
  same_phase_iff p q = (λ h. ground arith, λ h. ground arith)

  pub set_status-IsMarked :
      (c : GreenplumCluster Q) (h : List (Call Q))
      → (marked : GreenplumCluster Q) × (h1 : List (Call Q)) × (set_status w c deleting h
          ≡ (ok marked, h1))
        × IsMarked c h marked h1
  unfolding set_status
  set_status-IsMarked c h =
      let wanted = with_phase w c deleting in
      let same = same_phase_iff c.status.phase deleting in
      elim (Bool-cases (same_phase c.status.phase deleting)) [
        | inl e ↦ (c, h, rw e refl, inl (same.0 e, refl, refl))
        | inr e ↦
            let n : c.status.phase ≢ deleting = λ g. absurd (let z = same.1 g in ground arith) in
            let h1 : List (Call Q) = patch_cluster wanted ∷ h in
            elim (Result-cases (w.patch_cluster h wanted)) [
              | inl (c', f) ↦ (c', h1, rw (e, f) refl, inr (n, refl, inl f))
              | inr (x, f) ↦ (wanted, h1, rw (e, f) refl, inr (n, refl, inr (x, f, refl)))
            ]
      ]

  remove_finalizer-IsLetGo :
      (c : GreenplumCluster Q) (master : String) (h : List (Call Q))
      → IsLetGo c master h (remove_finalizer w c master h)
  remove_finalizer-IsLetGo c master h =
      let (marked, h1, e, m) = set_status-IsMarked c h in
      let (h2, f, s) = ensure_greenplum_cluster_stopped-IsStopped marked master h1 in
      let gone = without_finalizer w marked in
      let others = λ (x : String). In-remove_iff marked.finalizers stop_cluster_finalizer x in
      let r = remove_finalizer w c master h in
      let ends : (r.1 ≡ patch_cluster gone ∷ h2)
          × (((last : GreenplumCluster Q) × (r.0 ≡ ok (last, "")))
              ⊎ ((e : Error) × (r.0 ≡ err e))) =
        elim (Result-cases (w.patch_cluster h2 gone)) [
          | inl (c', g) ↦ (rw (e, f, g) refl, inl (c', rw (e, f, g) refl))
          | inr (x, g) ↦ elim (Bool-cases x.is_not_found) [
            | inl k ↦ (rw (e, f, g, k) refl, inl (gone, rw (e, f, g, k) refl))
            | inr k ↦
                (rw (e, f, g, k) refl, inr (wrap "removing finalizer" x, rw (e, f, g, k) refl))
          ]
        ] in
      (marked, gone, h1, h2, m, s, refl, others, ends.0, ends.1)

  add_finalizer_trace :
      (c : GreenplumCluster Q) (master : String) (h : List (Call Q))
      → (add_finalizer w c master h).1
        ≡ patch_cluster (record c { finalizers = c.finalizers ++ (stop_cluster_finalizer ∷ []) })
          ∷ h
  add_finalizer_trace c master h =
      let changed : GreenplumCluster Q = record c {
        finalizers = c.finalizers ++ (stop_cluster_finalizer ∷ []);
      } in
      elim (Result-cases (w.patch_cluster h changed)) [
        | inl (c', f) ↦ rw f refl
        | inr (x, f) ↦ rw f refl
      ]

  -- What the finalizer does with every cluster. A deleted one that holds it is marked as deleting,
  -- then gpstop runs on the active master, if there is one, and only then the patch is sent that
  -- takes this finalizer away and leaves the others; the caller is left with no active master or
  -- with an error. One that is not deleted gets the finalizer, if it has not got it. In the two
  -- other cases nothing is called and nothing changes.
  pub handle_finalizer-IsHandled :
      (c : GreenplumCluster Q) (master : String) (h : List (Call Q))
      → IsHandled c master h (handle_finalizer w c master h)
  unfolding handle_finalizer
  handle_finalizer-IsHandled c master h =
      let found = contains-In_iff c.finalizers stop_cluster_finalizer in
      elim (Bool-cases (slice_contains_string c.finalizers stop_cluster_finalizer)) [
        | inl p ↦ elim (Bool-cases c.is_deleted) [
          | inl d ↦
              let same : handle_finalizer w c master h ≡ remove_finalizer w c master h =
                rw (d, p) refl in
              inr (
                inr (
                  inl (
                    d,
                    found.0 p,
                    subst (IsLetGo c master h) (sym same) (remove_finalizer-IsLetGo c master h),
                  )))
          | inr d ↦ inl (d, found.0 p, rw (d, p) refl)
        ]
        | inr p ↦
            let lacks : HasFinalizer c → Empty {0} =
              λ i. absurd (let z = found.1 i in ground arith) in
            elim (Bool-cases c.is_deleted) [
              | inl d ↦ inr (inr (inr (d, lacks, rw (d, p) refl)))
              | inr d ↦
                  let same : handle_finalizer w c master h ≡ add_finalizer w c master h =
                    rw (d, p) refl in
                  inr (inl (d, lacks, ap (λ r. r.1) same ∙ add_finalizer_trace c master h))
            ]
      ]
