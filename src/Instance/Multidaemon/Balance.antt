-- ===== src/Instance/Multidaemon/Balance.antt =====
-- The rounds that the caller of the daemons has left.
use greenplum_for_kubernetes.Prelude.{
  ◌≡◌, ap, ◌∙◌, ℕ, suc, ◌+◌, Option, List, [], ◌∷◌, ◌++◌, arith, refl, length, true,
}
use greenplum_for_kubernetes.Prelude.Effects.{Error}
use greenplum_for_kubernetes.Instance.Multidaemon.{
  Daemon, running, returned, sending, finished, System, initial, start, Step, signal, watch,
  returns, tests, receives, ends, Reach, here, next,
}

-- How many goroutines have not sent yet, which is how often the caller still receives.
abbrev pub open_sends : List Daemon → ℕ
open_sends [] = 0
open_sends (finished _ ∷ rest) = open_sends rest
open_sends (_ ∷ rest) = suc (open_sends rest)

-- The caller has a round for everyone who has not sent, and returns after the last of them.
pub record IsBalanced (s : System) : Type 0 where
  pub balanced : s.rounds ≡ open_sends s.daemons
  pub closed : s.has_returned ≡ true → s.rounds ≡ 0

open_sends-append : (xs ys : List Daemon) → open_sends (xs ++ ys) ≡ open_sends xs + open_sends ys
open_sends-append [] ys = omega arith
open_sends-append (finished r ∷ xs) ys = omega (arith, open_sends-append xs ys)
open_sends-append (running ∷ xs) ys = omega (arith, open_sends-append xs ys)
open_sends-append (returned r ∷ xs) ys = omega (arith, open_sends-append xs ys)
open_sends-append (sending r ∷ xs) ys = omega (arith, open_sends-append xs ys)

open_sends-replaced :
    (xs ys : List Daemon) (a b : Daemon)
    → open_sends (a ∷ ys) ≡ open_sends (b ∷ ys)
    → open_sends (xs ++ (a ∷ ys)) ≡ open_sends (xs ++ (b ∷ ys))
open_sends-replaced xs ys a b e =
    omega (arith, e, open_sends-append xs (a ∷ ys), open_sends-append xs (b ∷ ys))

pub open_sends-receives :
    (xs ys : List Daemon) (r : Option Error)
    → open_sends (xs ++ (sending r ∷ ys)) ≡ suc (open_sends (xs ++ (finished r ∷ ys)))
open_sends-receives xs ys r =
    omega (arith, open_sends-append xs (sending r ∷ ys), open_sends-append xs (finished r ∷ ys))

pub Step-IsBalanced : {s t : System} → Step s t → IsBalanced s → IsBalanced t
Step-IsBalanced (signal f e) h = rw e (record { balanced = h.balanced; closed = h.closed })
Step-IsBalanced (watch f g e) h = rw e (record { balanced = h.balanced; closed = h.closed })
Step-IsBalanced (returns xs ys r d e) h = rw e (record {
  balanced = h.balanced ∙ ap open_sends d ∙ open_sends-replaced xs ys running (returned r) refl;
  closed = h.closed;
})
Step-IsBalanced (tests xs ys r d e) h = rw e (record {
  balanced = h.balanced ∙ ap open_sends d ∙ open_sends-replaced xs ys (returned r) (sending r) refl;
  closed = h.closed;
})
Step-IsBalanced {s} (receives xs ys r n d l e) h = rw e (record {
  balanced =
      let b = h.balanced in omega (arith, b, ap open_sends d, l, open_sends-receives xs ys r);
  closed = λ c. absurd (let z = h.closed c in omega (arith, z, l));
})
Step-IsBalanced (ends f g e) h = rw e (record { balanced = h.balanced; closed = λ _. f })

start-IsBalanced : {A : Type 0} (daemons : List A) → IsBalanced (initial (start daemons))
start-IsBalanced daemons = record {
  balanced = length-open daemons;
  closed = λ c. absurd (ground arith);
}
  where
    length-open :
        {A : Type 0} (daemons : List A) → length (start daemons) ≡ open_sends (start daemons)
    length-open [] = refl
    length-open (_ ∷ rest) = omega (arith, length-open rest)

pub Reach-IsBalanced :
    {A : Type 0} (daemons : List A) {n : ℕ} {s : System}
    → Reach (initial (start daemons)) n s
    → IsBalanced s
Reach-IsBalanced daemons here = start-IsBalanced daemons
Reach-IsBalanced daemons (next r st) = Step-IsBalanced st (Reach-IsBalanced daemons r)
