-- ===== src/Admission/Verdict.antt =====
-- What a validation answers: a nil *metav1.Status, a status with a message, or a Go panic.
use greenplum_for_kubernetes.Prelude.{Bool, true, false, ◌≡◌, refl, ◌↔◌, arith, List, [], ◌∷◌, All}
use greenplum_for_kubernetes.Prelude.Text.{String}
use greenplum_for_kubernetes.Prelude.Effects.{Result, ok, err}

pub data Verdict : Type 0 where
  pass : Verdict
  deny : String → Verdict
  panic : Verdict

-- `if result != nil { return }`, then the next check.
infixl 5 ◌>>◌
abbrev pub ◌>>◌ : Verdict → Verdict → Verdict
pass >> v = v
deny m >> v = deny m
panic >> v = panic

abbrev pub deny_if : Bool → String → Verdict
deny_if true m = deny m
deny_if false m = pass

-- `if err != nil { return &metav1.Status{Message: err.Error()} }`
abbrev pub after : {A : Type 0} → Result A → (A → Verdict) → Verdict
after (ok a) k = k a
after (err e) k = deny e.message

pub >>-eq-pass_iff : (v w : Verdict) → ((v >> w) ≡ pass) ↔ ((v ≡ pass) × (w ≡ pass))
>>-eq-pass_iff pass w = (λ h. (refl, h), λ h. h.1)
>>-eq-pass_iff (deny m) w = (λ h. cc, λ h. cc (h.0))
>>-eq-pass_iff panic w = (λ h. cc, λ h. cc (h.0))

pub deny_if-eq-pass_iff : (b : Bool) (m : String) → (deny_if b m ≡ pass) ↔ (b ≡ false)
deny_if-eq-pass_iff b m = ground arith

pub after-eq-pass_iff :
    {A : Type 0} (r : Result A) (k : A → Verdict)
    → (after r k ≡ pass) ↔ ((a : A) × (r ≡ ok a) × (k a ≡ pass))
after-eq-pass_iff (ok a) k = (λ h. (a, refl, h), λ h. ground arith)
after-eq-pass_iff (err e) k = (λ h. cc, λ h. cc (h.1))

-- A row of checks, each made only if those before it passed.
unfoldable pub in_turn : List Verdict → Verdict
in_turn [] = pass
in_turn (v ∷ rest) = v >> in_turn rest

abbrev pub Passed : Verdict → Type 0
Passed v = v ≡ pass

pub in_turn-eq-pass_iff : (vs : List Verdict) → (in_turn vs ≡ pass) ↔ All Passed vs
unfolding in_turn
in_turn-eq-pass_iff [] = (λ _. tt, λ _. refl)
in_turn-eq-pass_iff (v ∷ rest) =
    let s = >>-eq-pass_iff v (in_turn rest) in
    let ih = in_turn-eq-pass_iff rest in
    (λ h. let (a, b) = s.0 h in (a, ih.0 b), λ h. s.1 (h.0, ih.1 h.1))
