-- ===== src/Operator/AntiAffinity.antt =====
-- greenplum-operator/controllers/greenplumcluster/reconcile_antiaffinity.go
pub mod Labels
pub mod Spread
pub mod Balance
use greenplum_for_kubernetes.Prelude.{
  ℕ, suc, ◌%◌, Bool, false, ◌||◌, List, [], ◌∷◌, length, ltb, ◌==◌, if◌then◌else◌,
}
use greenplum_for_kubernetes.Prelude.Map.{insert}
use greenplum_for_kubernetes.Prelude.Text.{String, ◌&◌, show, str_eq}
use greenplum_for_kubernetes.Prelude.Effects.{
  Error, Eff, Result, ok, err, wrapping, pure, ◌>>=◌, ◌>>◌,
}
use greenplum_for_kubernetes.Api.Cluster.{GreenplumCluster}
use greenplum_for_kubernetes.Operator.World.{Node, Call, World, do_list_nodes, do_patch_node}

abbrev plain : String → Error
plain message = record { message = message; is_not_found = false }

-- What a node gets: the even value at even places of the list.
abbrev pub alternate : ℕ → String → String → String
alternate i even_val odd_val = if (i % 2) == 0 then even_val else odd_val

abbrev pub relabelled : Node → String → String → Node
relabelled n key v = record n { labels = insert key v n.labels }

module _ {Q : Type 0} where
  unfoldable pub is_anti_affinity_valid :
      GreenplumCluster Q → List Node → List Node → Result (Unit {0})
  is_anti_affinity_valid c masters segments =
      let ma = c.spec.master_and_standby.pod.anti_affinity in
      let sa = c.spec.segments.pod.anti_affinity in
      if str_eq ma sa
      then if ltb (length masters) 2 || ltb (length segments) 2
        then err (
            plain (
              "there must be at least two nodes available to both master and segments for anti-affinity: the number of nodes available for master is "
              & show (length masters)
              & " and for segment is "
              & show (length segments)))
        else ok tt
      else err (
          plain (
            "master and segment antiAffinity must be the same value: segment antiAffinity is " & sa
            & ", and master antiAffinity is " & ma))

module _ {Q : Type 0} (w : World Q) where
  -- The loop of labelAlternateNodes from place `i` on; the first patch that fails ends it.
  unfoldable pub label_from : ℕ → List Node → String → String → String → Eff (Call Q) (Unit {0})
  label_from i [] key even_val odd_val = pure tt
  label_from i (node ∷ rest) key even_val odd_val =
      wrapping
        ("failed to add label '"
          & key
          & "="
          & alternate i even_val odd_val
          & "' to node '"
          & node.name
          & "'")
        (do_patch_node w (relabelled node key (alternate i even_val odd_val)))
      >> label_from (suc i) rest key even_val odd_val

  unfoldable pub label_alternate_nodes :
      List Node → String → String → String → Eff (Call Q) (Unit {0})
  unfolding label_from
  label_alternate_nodes nodes key even_val odd_val = label_from 0 nodes key even_val odd_val

  abbrev pub wants_anti_affinity : GreenplumCluster Q → Bool
  wants_anti_affinity c =
      str_eq c.spec.master_and_standby.pod.anti_affinity "yes"
      || str_eq c.spec.segments.pod.anti_affinity "yes"

  abbrev lift : {A : Type 0} → Result A → Eff (Call Q) A
  lift r h = (r, h)

  abbrev pub spread : GreenplumCluster Q → Eff (Call Q) (Unit {0})
  spread c = do
    masters ←
        wrapping "master node worker selector list"
          (do_list_nodes w c.spec.master_and_standby.pod.worker_selector)
    segments ←
        wrapping "segment node worker selector list"
          (do_list_nodes w c.spec.segments.pod.worker_selector)
    wrapping ("instance " & c.name & " does not meet requirements")
        (lift (is_anti_affinity_valid c masters segments))
    label_alternate_nodes masters ("greenplum-affinity-" & c.namespace & "-master") "true" "true"
    label_alternate_nodes segments ("greenplum-affinity-" & c.namespace & "-segment") "a" "b"

  unfoldable pub handle_anti_affinity : GreenplumCluster Q → Eff (Call Q) (Unit {0})
  handle_anti_affinity c =
      let work = wrapping "antiAffinity" (spread c) in
      if wants_anti_affinity c then work else pure tt
