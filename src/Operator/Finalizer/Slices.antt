-- ===== src/Operator/Finalizer/Slices.antt =====
-- What the two slice helpers of the finalizer compute.
use greenplum_for_kubernetes.Prelude.{
  ◌∙◌, ◌↔◌, ◌≢◌, inl, inr, sym, refl, true, In, Bool-cases, List, [], ◌∷◌, ◌≡◌, false, arith,
  if◌then◌else◌,
}
use greenplum_for_kubernetes.Prelude.Text.{String, str_eq, eq_iff}
use greenplum_for_kubernetes.Operator.Finalizer.{slice_contains_string, remove_string_from_slice}

-- Removing a string takes out every copy of it and no other string.
pub contains-remove :
    (l : List String) (s t : String)
    → slice_contains_string (remove_string_from_slice l s) t
      ≡ (if str_eq s t then false else slice_contains_string l t)
unfolding slice_contains_string remove_string_from_slice
contains-remove [] s t = ground arith
contains-remove (x ∷ rest) s t =
    ground (arith, contains-remove rest s t, eq_iff x s, eq_iff x t, eq_iff s t)

-- A string is found exactly if it stands in the slice.
pub contains-In_iff : (l : List String) (s : String) → (slice_contains_string l s ≡ true) ↔ In s l
unfolding slice_contains_string
contains-In_iff [] s = (λ e. absurd (ground arith), λ i. elim i [ ])
contains-In_iff (x ∷ rest) s =
    let ih = contains-In_iff rest s in
    let e = eq_iff x s in
    elim (Bool-cases (str_eq x s)) [
      | inl f ↦ rw f (λ _. inl (sym (e.0 f)), λ _. refl)
      | inr f ↦ rw f (
        λ h. inr (ih.0 h),
        λ i. elim i [ inl g ↦ absurd (let z = e.1 (sym g) in ground arith) | inr k ↦ ih.1 k ],
      )
    ]

-- What is left is every other string of the slice.
pub In-remove_iff :
    (l : List String) (s t : String) → In t (remove_string_from_slice l s) ↔ (In t l × (t ≢ s))
In-remove_iff l s t =
    let a = contains-In_iff (remove_string_from_slice l s) t in
    let b = contains-In_iff l t in
    let c = contains-remove l s t in
    let e = eq_iff s t in
    elim (Bool-cases (str_eq s t)) [
      | inl f ↦
          let none_left : slice_contains_string (remove_string_from_slice l s) t ≡ false =
            let z = rw f at c in z in
          (λ i. absurd (let z = a.1 i in ground arith), λ (_, n). absurd (n (sym (e.0 f))))
      | inr f ↦
          let same : slice_contains_string (remove_string_from_slice l s) t
              ≡ slice_contains_string l t =
            let z = rw f at c in z in
          (
            λ i. (b.0 (sym same ∙ a.1 i), λ g. absurd (let z = e.1 (sym g) in ground arith)),
            λ (i, _). a.0 (same ∙ b.1 i),
          )
    ]
