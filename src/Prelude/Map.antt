-- ===== src/Prelude/Map.antt =====
-- `map[string]string` as an association list.
use mathlib.Core.Path.{◌≡◌, refl, ap}
use mathlib.Core.Logic.{inl, inr}
use mathlib.Core.Option.{Option, none, some}
use mathlib.Core.List.{List, [], ◌∷◌}
use native.Mathlib.Omega.{arith}
use greenplum_for_kubernetes.Prelude.Tests.{if◌then◌else◌, Bool-cases}
use greenplum_for_kubernetes.Prelude.Text.{String, str_eq, eq_iff}

abbrev pub Labels : Type 0
Labels = List (String × String)

module _ {ℓ} {V : Type ℓ} where
  unfoldable pub lookup : (key : String) (entries : List (String × V)) → Option V
  lookup key [] = none
  lookup key ((other, value) ∷ rest) = if str_eq other key then some value else lookup key rest

  -- A key that is there keeps its place.
  unfoldable pub insert :
      (key : String) (value : V) (entries : List (String × V)) → List (String × V)
  insert key value [] = (key, value) ∷ []
  insert key value ((other, old) ∷ rest) =
      if str_eq other key then (key, value) ∷ rest else (other, old) ∷ insert key value rest

  -- The last write of a key is what it gives, and the other keys are as before.
  pub lookup-insert :
      (written asked : String) (value : V) (entries : List (String × V))
      → lookup asked (insert written value entries)
        ≡ (if str_eq written asked then some value else lookup asked entries)
  unfolding insert lookup
  lookup-insert written asked value [] = refl
  lookup-insert written asked value ((other, old) ∷ rest) =
      let ih = lookup-insert written asked value rest in
      ground (arith, ih, eq_iff other written, eq_iff other asked, eq_iff written asked)

  -- Writing what is there already changes nothing.
  pub insert-same :
      (k : String) (v : V) (m : List (String × V)) → lookup k m ≡ some v → insert k v m ≡ m
  unfolding lookup insert
  insert-same k v [] e = absurd (ground arith)
  insert-same k v ((j, w) ∷ m) e = elim (Bool-cases (str_eq j k)) [
    | inl f ↦ ground (arith, eq_iff j k)
    | inr f ↦ let ih = insert-same k v m (ground arith) in rw f (ap (λ l. (j, w) ∷ l) ih)
  ]

  -- for key, value := range new { m[key] = value }
  unfoldable pub insert_all : List (String × V) → List (String × V) → List (String × V)
  insert_all [] m = m
  insert_all ((k, v) ∷ rest) m = insert_all rest (insert k v m)
