-- ===== src/Operator/AntiAffinity/Spread.antt =====
-- What it takes to spread the pods, and which nodes are labelled how.
use greenplum_for_kubernetes.Prelude.{◌≤◌, List, ◌∷◌, ◌≡◌, inl, inr, true, arith, length, pushed}
use greenplum_for_kubernetes.Prelude.Text.{String, ◌&◌, eq_iff}
use greenplum_for_kubernetes.Prelude.Effects.{ok, Result-cases}
use greenplum_for_kubernetes.Api.Cluster.{GreenplumCluster}
use greenplum_for_kubernetes.Operator.World.{Node, Call, World, list_nodes}
use greenplum_for_kubernetes.Operator.AntiAffinity.{
  is_anti_affinity_valid, label_alternate_nodes, label_from, wants_anti_affinity,
  handle_anti_affinity,
}
use greenplum_for_kubernetes.Operator.AntiAffinity.Labels.{label_calls, label_from-ok}

module _ {Q : Type 0} where
  valid-ok :
      (c : GreenplumCluster Q) (masters segments : List Node)
      → is_anti_affinity_valid c masters segments ≡ ok tt
      → (c.spec.master_and_standby.pod.anti_affinity ≡ c.spec.segments.pod.anti_affinity)
        × (2 ≤ length masters)
        × (2 ≤ length segments)
  unfolding is_anti_affinity_valid
  valid-ok c masters segments e =
      let i =
        eq_iff c.spec.master_and_standby.pod.anti_affinity c.spec.segments.pod.anti_affinity in
      (ground arith, ground arith, ground arith)

module _ {Q : Type 0} (w : World Q) (c : GreenplumCluster Q) (h : List (Call Q)) where
  abbrev pub master_label : String
  master_label = "greenplum-affinity-" & c.namespace & "-master"

  abbrev pub segment_label : String
  segment_label = "greenplum-affinity-" & c.namespace & "-segment"

  abbrev pub listed_masters : List (Call Q)
  listed_masters = list_nodes c.spec.master_and_standby.pod.worker_selector ∷ h

  abbrev pub listed : List (Call Q)
  listed = list_nodes c.spec.segments.pod.worker_selector ∷ listed_masters

  -- Where anti-affinity is asked for and all went well, masters and segments ask for the same and
  -- have at least two nodes each; every node of the masters was patched with its label "true", and
  -- then every node of the segments, in their order, with "a" and "b" in turn, and nothing else.
  pub handle_anti_affinity-spreads :
      wants_anti_affinity w c ≡ true
      → (handle_anti_affinity w c h).0 ≡ ok tt
      → (masters segments : List Node) × (w.list_nodes h
            c.spec.master_and_standby.pod.worker_selector
          ≡ ok masters)
        × (w.list_nodes listed_masters c.spec.segments.pod.worker_selector ≡ ok segments)
        × (c.spec.master_and_standby.pod.anti_affinity ≡ c.spec.segments.pod.anti_affinity)
        × (2 ≤ length masters)
        × (2 ≤ length segments)
        × ((handle_anti_affinity w c h).1
            ≡ pushed
                (label_calls 0 segments segment_label "a" "b")
                (pushed (label_calls 0 masters master_label "true" "true") listed))
  unfolding handle_anti_affinity label_alternate_nodes
  handle_anti_affinity-spreads wanted e =
      elim (Result-cases (w.list_nodes h c.spec.master_and_standby.pod.worker_selector)) [
        | inr (x, f) ↦ absurd (ground arith)
        | inl (masters, f) ↦
            elim (Result-cases (w.list_nodes listed_masters c.spec.segments.pod.worker_selector)) [
              | inr (x, g) ↦ absurd (ground arith)
              | inl (segments, g) ↦
                  elim (Result-cases (is_anti_affinity_valid c masters segments)) [
                    | inr (x, k) ↦ absurd (ground arith)
                    | inl (tt, k) ↦
                        let (same, two, three) = valid-ok c masters segments k in
                        let first = label_from w 0 masters master_label "true" "true" listed in
                        let mid =
                          pushed (label_calls 0 masters master_label "true" "true") listed in
                        let second = label_from w 0 segments segment_label "a" "b" mid in
                        let trace1 = label_from-ok w 0 masters master_label "true" "true" listed in
                        let trace2 = label_from-ok w 0 segments segment_label "a" "b" mid in
                        elim (Result-cases first.0) [
                          | inr (x, p) ↦ absurd (ground arith)
                          | inl (tt, p) ↦
                              let q = trace1 p in
                              elim (Result-cases second.0) [
                                | inr (x, p2) ↦ absurd (ground arith)
                                | inl (tt, p2) ↦
                                    let q2 = trace2 p2 in
                                    (masters, segments, f, g, same, two, three, ground arith)
                              ]
                        ]
                  ]
            ]
      ]
