-- ===== src/Operator/AntiAffinity/Labels.antt =====
-- Which labels the nodes get.
use greenplum_for_kubernetes.Prelude.{ℕ, suc, List, [], ◌∷◌, ◌≡◌, inl, inr, refl, arith, pushed}
use greenplum_for_kubernetes.Prelude.Text.{String}
use greenplum_for_kubernetes.Prelude.Effects.{ok, Result-cases}
use greenplum_for_kubernetes.Operator.World.{Node, Call, World, patch_node}
use greenplum_for_kubernetes.Operator.AntiAffinity.{alternate, relabelled, label_from}

module _ {Q : Type 0} where
  -- The patch of the node at place `i`, and so on down the list.
  abbrev pub label_calls : ℕ → List Node → String → String → String → List (Call Q)
  label_calls i [] key even_val odd_val = []
  label_calls i (n ∷ rest) key even_val odd_val =
      patch_node (relabelled n key (alternate i even_val odd_val))
      ∷ label_calls (suc i) rest key even_val odd_val

module _ {Q : Type 0} (w : World Q) where
  pub label_from-ok :
      (i : ℕ) (nodes : List Node) (key even_val odd_val : String) (h : List (Call Q))
      → (label_from w i nodes key even_val odd_val h).0 ≡ ok tt
      → (label_from w i nodes key even_val odd_val h).1
        ≡ pushed (label_calls i nodes key even_val odd_val) h
  unfolding label_from
  label_from-ok i [] key even_val odd_val h e = refl
  label_from-ok i (n ∷ rest) key even_val odd_val h e =
      let m = relabelled n key (alternate i even_val odd_val) in
      elim (Result-cases (w.patch_node h m)) [
        | inr (x, f) ↦ absurd (ground arith)
        | inl (u, f) ↦
            rw f (label_from-ok (suc i) rest key even_val odd_val (patch_node m ∷ h) (ground arith))
      ]
