-- ===== src/Prelude/Effects/Success.antt =====
-- A chain of calls that succeeds has steps that succeed.
use mathlib.Core.Path.{◌≡◌, refl}
use mathlib.Core.List.{List}
use native.Mathlib.Omega.{arith}
use greenplum_for_kubernetes.Prelude.Effects.{Error, Eff, Result, ok, err, continue, map_err, ◌>>=◌}

module _ {C : Type 0} where
  continue-ok :
      {A B : Type 0} (r : Result A) (f : A → Eff C B) (h : List C) (b : B)
      → (continue r f h).0 ≡ ok b
      → (a : A) × (r ≡ ok a) × ((f a h).0 ≡ ok b)
  continue-ok (ok a) f h b e = (a, refl, e)
  continue-ok (err x) f h b e = absurd (ground arith)

  pub bind-ok :
      {A B : Type 0} (e : Eff C A) (f : A → Eff C B) (h : List C) (b : B)
      → ((e >>= f) h).0 ≡ ok b
      → (a : A) × ((e h).0 ≡ ok a) × ((f a (e h).1).0 ≡ ok b)
  bind-ok e f h b s = continue-ok (e h).0 f (e h).1 b s

pub map_err-ok :
    {A : Type 0} (f : Error → Error) (r : Result A) (a : A) → map_err f r ≡ ok a → r ≡ ok a
map_err-ok f (ok a) b e = e
map_err-ok f (err x) b e = absurd (ground arith)
