-- ===== src/Prelude/Lists.antt =====
-- Lists measured by native numbers, under the library's names, and predicates by recursion.
use Prim.Native.Nat.{ℕ, suc, ◌+◌}
use mathlib.Core.Path.{◌≡◌, refl, ap}
use mathlib.Core.Logic.{◌⊎◌, ◌↔◌, inl, inr}
use mathlib.Core.List.{List, [], ◌∷◌, ◌++◌, map}
use native.Mathlib.Omega.{arith}

module _ {ℓ} {A : Type ℓ} where
  abbrev pub length : List A → ℕ
  length [] = 0
  length (x ∷ xs) = suc (length xs)

  pub length-append : (xs ys : List A) → length (xs ++ ys) ≡ length xs + length ys
  length-append [] ys = omega arith
  length-append (x ∷ xs) ys = omega (arith, length-append xs ys)

pub length-map {ℓ κ} :
    {A : Type ℓ} {B : Type κ} (f : A → B) (xs : List A) → length (map f xs) ≡ length xs
length-map f [] = refl
length-map f (x ∷ xs) = ap suc (length-map f xs)

-- The empty type at every level.
pub data Empty {ℓ} : Type ℓ where

-- Every item satisfies `P`; `x` is an item.
abbrev pub All {ℓ κ} : {A : Type ℓ} → (A → Type κ) → List A → Type κ
All P [] = Unit
All P (x ∷ xs) = P x × All P xs

abbrev pub In {ℓ} : {A : Type ℓ} → A → List A → Type ℓ
In x [] = Empty
In x (y ∷ ys) = (x ≡ y) ⊎ In x ys

-- Calls pushed one after the other onto a history, newest first.
abbrev pub pushed {ℓ} : {A : Type ℓ} → List A → List A → List A
pushed [] h = h
pushed (c ∷ cs) h = pushed cs (c ∷ h)

In-pushed {ℓ} : {A : Type ℓ} (x : A) (cs h : List A) → In x (pushed cs h) → In x cs ⊎ In x h
In-pushed x [] h m = inr m
In-pushed x (c ∷ cs) h m = elim (In-pushed x cs (c ∷ h) m) [
  | inl a ↦ inl (inr a)
  | inr b ↦ elim b [ inl e ↦ inl (inl e) | inr k ↦ inr k ]
]

pushed-In {ℓ} : {A : Type ℓ} (x : A) (cs h : List A) → In x cs ⊎ In x h → In x (pushed cs h)
pushed-In x [] h (inl m) = elim m [ ]
pushed-In x [] h (inr m) = m
pushed-In x (c ∷ cs) h (inl (inl e)) = pushed-In x cs (c ∷ h) (inr (inl e))
pushed-In x (c ∷ cs) h (inl (inr m)) = pushed-In x cs (c ∷ h) (inl m)
pushed-In x (c ∷ cs) h (inr m) = pushed-In x cs (c ∷ h) (inr (inr m))

pub In-pushed_iff {ℓ} :
    {A : Type ℓ} (x : A) (cs h : List A) → In x (pushed cs h) ↔ (In x cs ⊎ In x h)
In-pushed_iff x cs h = (In-pushed x cs h, pushed-In x cs h)

pub In-map_iff {ℓ κ} :
    {A : Type ℓ} {B : Type κ} (f : A → B) (inj : (a b : A) → f a ≡ f b → a ≡ b) (x : A)
    (xs : List A)
    → In (f x) (map f xs) ↔ In x xs
In-map_iff f inj x [] = (λ m. elim m [ ], λ m. elim m [ ])
In-map_iff f inj x (y ∷ ys) =
    let ih = In-map_iff f inj x ys in
    (
      λ m. elim m [ inl e ↦ inl (inj x y e) | inr k ↦ inr (ih.0 k) ],
      λ m. elim m [ inl e ↦ inl (ap f e) | inr k ↦ inr (ih.1 k) ],
    )

pub List-cases {ℓ} :
    {A : Type ℓ} (xs : List A) → (xs ≡ []) ⊎ ((x : A) × (rest : List A) × (xs ≡ x ∷ rest))
List-cases [] = inl refl
List-cases (x ∷ rest) = inr (x, rest, refl)
