-- ===== src/Prelude/Effects/Within.antt =====
-- Code whose calls all satisfy a predicate.
use mathlib.Core.Path.{subst, sym}
use mathlib.Core.Logic.{◌⊎◌, inl, inr}
use mathlib.Core.List.{List}
use greenplum_for_kubernetes.Prelude.Lists.{In}
use greenplum_for_kubernetes.Prelude.Text.{String}
use greenplum_for_kubernetes.Prelude.Effects.{
  Eff, Result, ok, err, pure, call, continue, attempt, wrapping, ◌>>=◌,
}

module _ {C : Type 0} (P : C → Type 0) where
  -- Each call in the history afterwards was there before or satisfies `P`.
  abbrev pub IsWithin : {A : Type 0} → Eff C A → Type 0
  IsWithin e = (h : List C) (c : C) → In c (e h).1 → In c h ⊎ P c

  pub pure-IsWithin : {A : Type 0} (a : A) → IsWithin (pure a)
  pure-IsWithin a h c i = inl i

  pub call-IsWithin :
      {A : Type 0} (c : C) (answer : List C → Result A) → P c → IsWithin (call c answer)
  call-IsWithin c answer p h d i = elim i [ inl e ↦ inr (subst P (sym e) p) | inr k ↦ inl k ]

  pub continue-IsWithin :
      {A B : Type 0} (r : Result A) (f : A → Eff C B)
      → ((a : A) → IsWithin (f a))
      → IsWithin (continue r f)
  continue-IsWithin (ok a) f w h c i = w a h c i
  continue-IsWithin (err e) f w h c i = inl i

  pub bind-IsWithin :
      {A B : Type 0} (e : Eff C A) (f : A → Eff C B)
      → IsWithin e
      → ((a : A) → IsWithin (f a))
      → IsWithin (e >>= f)
  bind-IsWithin e f w v h c i = elim (continue-IsWithin (e h).0 f v (e h).1 c i) [
    | inl k ↦ w h c k
    | inr p ↦ inr p
  ]

  pub wrapping-IsWithin :
      {A : Type 0} (prefix : String) (e : Eff C A) → IsWithin e → IsWithin (wrapping prefix e)
  wrapping-IsWithin prefix e w h c i = w h c i

  pub attempt-IsWithin : {A : Type 0} (e : Eff C A) → IsWithin e → IsWithin (attempt e)
  attempt-IsWithin e w h c i = w h c i

module _ {C : Type 0} where
  -- A history keeps its calls.
  abbrev pub IsGrowing : {A : Type 0} → Eff C A → Type 0
  IsGrowing e = (h : List C) (c : C) → In c h → In c (e h).1

  pub call-IsGrowing : {A : Type 0} (c : C) (answer : List C → Result A) → IsGrowing (call c answer)
  call-IsGrowing c answer h d i = inr i

  pub continue-IsGrowing :
      {A B : Type 0} (r : Result A) (f : A → Eff C B)
      → ((a : A) → IsGrowing (f a))
      → IsGrowing (continue r f)
  continue-IsGrowing (ok a) f w h c i = w a h c i
  continue-IsGrowing (err e) f w h c i = i

  pub bind-IsGrowing :
      {A B : Type 0} (e : Eff C A) (f : A → Eff C B)
      → IsGrowing e
      → ((a : A) → IsGrowing (f a))
      → IsGrowing (e >>= f)
  bind-IsGrowing e f w v h c i = continue-IsGrowing (e h).0 f v (e h).1 c (w h c i)
