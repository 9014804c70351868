-- ===== src/Instance/Start/LabelPvc/Claim.antt =====
-- The claim that the loop over the volumes finds.
use greenplum_for_kubernetes.Prelude.{
  Option-cases, All, [], ◌∷◌, ◌++◌, ◌≡◌, refl, ap, ◌⊎◌, inl, inr, none, some, List, arith,
  Bool-cases,
}
use greenplum_for_kubernetes.Prelude.Text.{String, str_eq, eq_iff}
use greenplum_for_kubernetes.Prelude.Effects.{ok}
use greenplum_for_kubernetes.Instance.Start.LabelPvc.{Volume, claim_of}

-- The names of the claims among the volumes.
abbrev pub claims : List Volume → List String
claims [] = []
claims (v ∷ rest) = elim v.claim_name [ none ↦ claims rest | some name ↦ name ∷ claims rest ]

-- The last of the claims, all others having the empty name; "" where there is no claim.
abbrev pub IsOnlyClaim : List Volume → String → Type 0
IsOnlyClaim volumes name =
    ((claims volumes ≡ []) × (name ≡ ""))
    ⊎ ((blank : List String) × (claims volumes ≡ blank ++ (name ∷ [])) × All (λ b. b ≡ "") blank)

claim_of-claims :
    (found : String) (volumes : List Volume) (name : String)
    → claim_of found volumes ≡ ok name
    → ((claims volumes ≡ []) × (name ≡ found))
      ⊎ ((found ≡ "")
          × (blank : List String) × (claims volumes ≡ blank ++ (name ∷ []))
          × All (λ b. b ≡ "") blank)
unfolding claim_of
claim_of-claims found [] name e = inl (refl, ground arith)
claim_of-claims found (v ∷ rest) name e = elim (Option-cases v.claim_name) [
  | inl n ↦
      let e1 : claim_of found rest ≡ ok name = rw n at e in
      rw n (claim_of-claims found rest name e1)
  | inr (claim, s) ↦ elim (Bool-cases (str_eq found "")) [
    | inr f ↦ absurd (let z = rw (s, f) at e in ground arith)
    | inl f ↦
        let empty = (eq_iff found "").0 f in
        let e1 : claim_of claim rest ≡ ok name = rw (s, f) at e in
        elim (claim_of-claims claim rest name e1) [
          | inl (none_left, same) ↦ inr (empty, [], rw (s, none_left, same) refl, tt)
          | inr (b, blank, split, all) ↦
              inr (empty, claim ∷ blank, rw s (ap (λ l. claim ∷ l) split), (b, all))
        ]
  ]
]

pub claim_of-IsOnlyClaim :
    (volumes : List Volume) (name : String)
    → claim_of "" volumes ≡ ok name
    → IsOnlyClaim volumes name
claim_of-IsOnlyClaim volumes name e = elim (claim_of-claims "" volumes name e) [
  | inl c ↦ inl c
  | inr (_, blank, split, all) ↦ inr (blank, split, all)
]
