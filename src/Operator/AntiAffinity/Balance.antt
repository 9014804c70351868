-- ===== src/Operator/AntiAffinity/Balance.antt =====
-- How evenly the nodes are labelled.
use greenplum_for_kubernetes.Prelude.{
  ℕ, suc, ◌+◌, ◌%◌, ◌≤◌, ◌==◌, Bool, true, false, Option, none, some, List, [], ◌∷◌, ◌≡◌, inl, inr,
  refl, ap, arith, pushed, length, Bool-cases, if◌then◌else◌,
}
use greenplum_for_kubernetes.Prelude.Text.{String, str_eq, eq_refl}
use greenplum_for_kubernetes.Prelude.Map.{lookup, lookup-insert}
use greenplum_for_kubernetes.Prelude.Effects.{ok}
use greenplum_for_kubernetes.Operator.World.{Node, Call, World, patch_node}
use greenplum_for_kubernetes.Operator.AntiAffinity.{relabelled, label_alternate_nodes}
use greenplum_for_kubernetes.Operator.AntiAffinity.Labels.{label_calls, label_from-ok}

abbrev is_value : Option String → String → Bool
is_value none value = false
is_value (some found) value = str_eq found value

-- From an even place on, the even value leads by one at most; from an odd place on, the odd value.
abbrev IsBalanced : Bool → (evens odds : ℕ) → Type 0
IsBalanced true evens odds = (odds ≤ evens) × (evens ≤ odds + 1)
IsBalanced false evens odds = (evens ≤ odds) × (odds ≤ evens + 1)

lookup-relabelled : (n : Node) (key v : String) → lookup key (relabelled n key v).labels ≡ some v
lookup-relabelled n key v = rw (lookup-insert key key v n.labels, eq_refl key) refl

module _ {Q : Type 0} where
  -- How many of the calls give a node the label with that value.
  abbrev pub labelled_with : (key value : String) → List (Call Q) → ℕ
  labelled_with key value [] = 0
  labelled_with key value (patch_node n ∷ rest) =
      (if is_value (lookup key n.labels) value then 1 else 0) + labelled_with key value rest
  labelled_with key value (_ ∷ rest) = labelled_with key value rest

module _ (Q : Type 0) where
  label_calls-IsBalanced :
      (i : ℕ) (nodes : List Node) (key : String)
      → IsBalanced
          ((i % 2) == 0)
          (labelled_with {Q = Q} key "a" (label_calls {Q = Q} i nodes key "a" "b"))
          (labelled_with {Q = Q} key "b" (label_calls {Q = Q} i nodes key "a" "b"))
  label_calls-IsBalanced i [] key = elim (Bool-cases ((i % 2) == 0)) [
    | inl e ↦ rw e (omega arith, omega arith)
    | inr e ↦ rw e (omega arith, omega arith)
  ]
  label_calls-IsBalanced i (n ∷ rest) key =
      let ih = label_calls-IsBalanced (suc i) rest key in
      elim (Bool-cases ((i % 2) == 0)) [
        | inl e ↦
            let f : ((suc i % 2) == 0) ≡ false = ground arith in
            let (x, y) = rw f at ih in
            rw (e, lookup-relabelled n key "a") (omega arith, omega arith)
        | inr e ↦
            let f : ((suc i % 2) == 0) ≡ true = ground arith in
            let (x, y) = rw f at ih in
            rw (e, lookup-relabelled n key "b") (omega arith, omega arith)
      ]

  length-label_calls :
      (i : ℕ) (nodes : List Node) (key : String)
      → length (label_calls {Q = Q} i nodes key "a" "b") ≡ length nodes
  length-label_calls i [] key = refl
  length-label_calls i (n ∷ rest) key = ap suc (length-label_calls (suc i) rest key)

  total :
      (i : ℕ) (nodes : List Node) (key : String)
      → labelled_with {Q = Q} key "a" (label_calls {Q = Q} i nodes key "a" "b")
          + labelled_with {Q = Q} key "b" (label_calls {Q = Q} i nodes key "a" "b")
        ≡ length nodes
  total i [] key = refl
  total i (n ∷ rest) key =
      let ih = total (suc i) rest key in
      elim (Bool-cases ((i % 2) == 0)) [
        | inl e ↦ rw (e, lookup-relabelled n key "a") (omega (arith, ih))
        | inr e ↦ rw (e, lookup-relabelled n key "b") (omega (arith, ih))
      ]

module _ {Q : Type 0} (w : World Q) where
  -- Where labelAlternateNodes succeeds with the values "a" and "b", every node was patched to have
  -- one of the two, and as many nodes got "a" as got "b", or one more.
  pub label_alternate_nodes-balanced :
      (nodes : List Node) (key : String) (h : List (Call Q))
      → (label_alternate_nodes w nodes key "a" "b" h).0 ≡ ok tt
      → (calls : List (Call Q)) × ((label_alternate_nodes w nodes key "a" "b" h).1 ≡ pushed calls h)
        × (labelled_with key "b" calls ≤ labelled_with key "a" calls)
        × (labelled_with key "a" calls ≤ labelled_with key "b" calls + 1)
        × (labelled_with key "a" calls + labelled_with key "b" calls ≡ length nodes)
        × (length calls ≡ length nodes)
  unfolding label_alternate_nodes
  label_alternate_nodes-balanced nodes key h e =
      let calls = label_calls {Q = Q} 0 nodes key "a" "b" in
      let (x, y) = label_calls-IsBalanced Q 0 nodes key in
      (
        calls,
        label_from-ok w 0 nodes key "a" "b" h e,
        x,
        y,
        total Q 0 nodes key,
        length-label_calls Q 0 nodes key,
      )
