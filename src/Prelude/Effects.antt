-- ===== src/Prelude/Effects.antt =====
-- Errors as values, and code that calls the outside world.
--
-- An outside call is written to a history, newest first, and its answer is a function of the
-- history at that moment, so an environment may answer the same question differently each time.
pub mod Within
pub mod Success
use mathlib.Core.Path.{◌≡◌, refl}
use mathlib.Core.Logic.{◌⊎◌, inl, inr}
use mathlib.Core.Bool.{Bool}
use mathlib.Core.List.{List, ◌∷◌}
use greenplum_for_kubernetes.Prelude.Text.{String, ◌&◌}

-- A Go `error`: its text, and whether apierrs.IsNotFound (os.IsNotExist for a file) holds of it.
pub record Error : Type 0 where
  pub message : String
  pub is_not_found : Bool

pub data Result {ℓ} (A : Type ℓ) : Type ℓ where
  ok : A → Result A
  err : Error → Result A

pub Result-cases {ℓ} :
    {A : Type ℓ} (r : Result A) → ((a : A) × (r ≡ ok a)) ⊎ ((e : Error) × (r ≡ err e))
Result-cases (ok a) = inl (a, refl)
Result-cases (err e) = inr (e, refl)

-- fmt.Errorf("prefix: %w", err)
abbrev pub wrap : String → Error → Error
wrap prefix e = record { message = prefix & ": " & e.message; is_not_found = e.is_not_found }

abbrev pub map_err : {A : Type 0} → (Error → Error) → Result A → Result A
map_err f (ok a) = ok a
map_err f (err e) = err (f e)

module _ (C : Type 0) where
  abbrev pub Eff : Type 0 → Type 0
  Eff A = List C → Result A × List C

module _ {C : Type 0} where
  abbrev pub pure : {A : Type 0} → A → Eff C A
  pure a h = (ok a, h)

  abbrev pub fail : {A : Type 0} → Error → Eff C A
  fail e h = (err e, h)

  -- A result that is there already, in a chain of calls.
  abbrev pub returned : {A : Type 0} → Result A → Eff C A
  returned r h = (r, h)

  -- Makes a call: the history grows, and the answer is taken at the history before it.
  abbrev pub call : {A : Type 0} → C → (List C → Result A) → Eff C A
  call c answer h = (answer h, c ∷ h)

  abbrev pub continue : {A B : Type 0} → Result A → (A → Eff C B) → Eff C B
  continue (ok a) f h = f a h
  continue (err e) f h = (err e, h)

  -- The error as a value, for code that looks at `err` and goes on.
  abbrev pub attempt : {A : Type 0} → Eff C A → Eff C (Result A)
  attempt m h = let (r, h') = m h in (ok r, h')

  infixl 5 ◌>>=◌ ◌>>◌
  abbrev pub ◌>>=◌ : {A B : Type 0} → Eff C A → (A → Eff C B) → Eff C B
  ◌>>=◌ m f h = let (r, h') = m h in continue r f h'

  abbrev pub ◌>>◌ : {A B : Type 0} → Eff C A → Eff C B → Eff C B
  m >> k = m >>= λ _. k

  -- `if err != nil { return fmt.Errorf("prefix: %w", err) }`
  abbrev pub wrapping : {A : Type 0} → String → Eff C A → Eff C A
  wrapping prefix m h = let (r, h') = m h in (map_err (wrap prefix) r, h')
