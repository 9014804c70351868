-- ===== src/Instance/KnownHosts/Ready.antt =====
-- Which hosts are new.
use greenplum_for_kubernetes.Prelude.{
  Bool, true, false, none, some, List, [], ◌∷◌, ◌≡◌, ◌↔◌, ◌⊎◌, inl, inr, refl, arith, In,
  Bool-cases, Empty, ◌∙◌,
}
use greenplum_for_kubernetes.Prelude.Map.{lookup, insert, lookup-insert}
use greenplum_for_kubernetes.Prelude.Text.{String, str_eq, eq_iff}
use greenplum_for_kubernetes.Instance.KnownHosts.{mark, new_of, joined, get_new_ready_hosts}

-- Every key stands once.
abbrev Distinct : List (String × Bool) → Type 0
Distinct [] = Unit
Distinct ((k, v) ∷ rest) = (lookup k rest ≡ none) × Distinct rest

insert-Distinct :
    (k : String) (v : Bool) (m : List (String × Bool)) → Distinct m → Distinct (insert k v m)
unfolding insert lookup
insert-Distinct k v [] d = (refl, tt)
insert-Distinct k v ((j, w) ∷ m) (a, d) = elim (Bool-cases (str_eq j k)) [
  | inl e ↦ rw e (ground (arith, eq_iff j k), d)
  | inr e ↦
      rw e (ground (arith, lookup-insert k j v m, eq_iff j k, eq_iff k j), insert-Distinct k v m d)
]

mark-Distinct :
    (b : Bool) (hosts : List String) (m : List (String × Bool))
    → Distinct m
    → Distinct (mark b hosts m)
unfolding mark
mark-Distinct b [] m d = d
mark-Distinct b (host ∷ rest) m d =
    mark-Distinct b rest (insert host b m) (insert-Distinct host b m d)

In-new_of_iff :
    (host : String) (m : List (String × Bool))
    → Distinct m
    → In host (new_of m) ↔ (lookup host m ≡ some true)
unfolding new_of lookup
In-new_of_iff host [] d = (λ h. elim h [ ], λ h. absurd (ground arith))
In-new_of_iff host ((k, true) ∷ m) (a, d) =
    let ih = In-new_of_iff host m d in
    (
      λ h. elim h [
        | inl e ↦ ground (arith, eq_iff k host)
        | inr i ↦ let l = ih.0 i in ground (arith, eq_iff k host)
      ],
      λ h. elim (Bool-cases (str_eq k host)) [
        | inl e ↦ inl (ground (arith, eq_iff k host))
        | inr e ↦ inr (ih.1 (ground arith))
      ],
    )
In-new_of_iff host ((k, false) ∷ m) (a, d) =
    let ih = In-new_of_iff host m d in
    (
      λ i. let l = ih.0 i in ground (arith, eq_iff k host),
      λ h. ih.1 (ground (arith, eq_iff k host)),
    )

lookup-mark-In :
    (b : Bool) (host : String) (hosts : List String) (m : List (String × Bool))
    → In host hosts ⊎ (lookup host m ≡ some b)
    → lookup host (mark b hosts m) ≡ some b
unfolding mark
lookup-mark-In b host [] m (inl i) = elim i [ ]
lookup-mark-In b host [] m (inr e) = e
lookup-mark-In b host (k ∷ rest) m (inl (inl e)) =
    lookup-mark-In b host rest (insert k b m)
      (inr (ground (arith, lookup-insert k host b m, eq_iff k host)))
lookup-mark-In b host (k ∷ rest) m (inl (inr i)) = lookup-mark-In b host rest (insert k b m) (inl i)
lookup-mark-In b host (k ∷ rest) m (inr e) =
    lookup-mark-In b host rest (insert k b m)
      (inr (ground (arith, lookup-insert k host b m, eq_iff k host)))

-- A host that is marked otherwise was not among the hosts, and keeps its mark.
lookup-mark-Out :
    (b : Bool) (host : String) (hosts : List String) (m : List (String × Bool))
    → (In host hosts → Empty {0})
    → lookup host (mark b hosts m) ≡ lookup host m
unfolding mark
lookup-mark-Out b host [] m n = refl
lookup-mark-Out b host (k ∷ rest) m n =
    let ih = lookup-mark-Out b host rest (insert k b m) (λ i. n (inr i)) in
    elim (Bool-cases (str_eq k host)) [
      | inl e ↦ elim (n (inl (ground (arith, eq_iff k host)))) [ ]
      | inr e ↦ rw (ih, lookup-insert k host b m, e) refl
    ]

In-decided : (host : String) (hosts : List String) → In host hosts ⊎ (In host hosts → Empty {0})
In-decided host [] = inr (λ i. elim i [ ])
In-decided host (k ∷ rest) = elim (In-decided host rest) [
  | inl i ↦ inl (inr i)
  | inr n ↦ elim (Bool-cases (str_eq k host)) [
    | inl e ↦ inl (inl (ground (arith, eq_iff k host)))
    | inr e ↦ inr (λ i. elim i [ inl f ↦ absurd (ground (arith, eq_iff k host)) | inr j ↦ n j ])
  ]
]

-- The hosts to scan are exactly the ready ones that are not known yet.
pub get_new_ready_hosts-In_iff :
    (host : String) (known : List String) (subsets : List (List String))
    → In host (get_new_ready_hosts known subsets)
      ↔ (In host (joined subsets) × (In host known → Empty {0}))
unfolding get_new_ready_hosts lookup
get_new_ready_hosts-In_iff host known subsets =
    let ready = mark true (joined subsets) [] in
    let all = mark false known ready in
    let d = mark-Distinct false known ready (mark-Distinct true (joined subsets) [] tt) in
    let i = In-new_of_iff host all d in
    elim (In-decided host known) [
      | inl k ↦
          let l = lookup-mark-In false host known ready (inl k) in
          (λ h. let t = i.0 h in absurd (ground arith), λ (r, n). elim (n k) [ ])
      | inr n ↦
          let l = lookup-mark-Out false host known ready n in
          elim (In-decided host (joined subsets)) [
            | inl r ↦
                let t = lookup-mark-In true host (joined subsets) [] (inl r) in
                (λ h. (r, n), λ h. i.1 (l ∙ t))
            | inr o ↦
                let t = lookup-mark-Out true host (joined subsets) [] o in
                (λ h. let u = i.0 h in absurd (ground arith), λ (r, _). elim (o r) [ ])
          ]
    ]
