-- ===== src/Prelude/Split/Laws.antt =====
-- What a split gives joins to the text, and a join of pieces without the separator splits to them.
use Prim.Native.Char.{Char, code}
use Prim.Native.String.{String, [], ◌∷◌}
use mathlib.Core.Path.{◌≡◌, ◌∙◌, refl, ap}
use mathlib.Core.Logic.{◌⊎◌, inl, inr}
use mathlib.Core.Bool.{true, false, ◌||◌}
use mathlib.Core.List.{List, [], ◌∷◌}
use native.Mathlib.Omega.{arith}
use text.Mathlib.TextLemmas.{length-append, length-cons, nil-append, cons-append}
use greenplum_for_kubernetes.Prelude.Tests.{◌==◌, Bool-cases}
use greenplum_for_kubernetes.Prelude.Lists.{All}
use greenplum_for_kubernetes.Prelude.Text.{◌&◌, count, str_eq, eq_iff, eq_refl}
use greenplum_for_kubernetes.Prelude.Split.{push, split, join, contains_char, trim_suffix}

-- The character does not occur.
abbrev pub IsFree : Char → String → Type 0
IsFree c s = contains_char c s ≡ false

pub contains_char-append :
    (c : Char) (s t : String) → contains_char c (s & t) ≡ (contains_char c s || contains_char c t)
unfolding contains_char
contains_char-append c [] t = rw (nil-append t) refl
contains_char-append c (d ∷ s) t = rw (cons-append d s t, contains_char-append c s t) (ground arith)

push-All :
    (c d : Char) (ws : List String)
    → (code d == code c) ≡ false
    → All (IsFree c) ws
    → All (IsFree c) (push d ws)
unfolding contains_char
push-All c d [] e a = ground arith
push-All c d (w ∷ ws) e a = ground arith

-- The pieces of a text without a character are without it.
pub split-All : (c sep : Char) (s : String) → IsFree c s → All (IsFree c) (split sep s)
unfolding split contains_char
split-All c sep [] e = (refl, tt)
split-All c sep (d ∷ s) e = elim (Bool-cases (code d == code sep)) [
  | inl f ↦ rw f (refl, split-All c sep s (ground arith))
  | inr f ↦ rw f (push-All c d (split sep s) (ground arith) (split-All c sep s (ground arith)))
]

-- The pieces are without the separator.
pub split-IsFree : (sep : Char) (s : String) → All (IsFree sep) (split sep s)
unfolding split contains_char
split-IsFree sep [] = (refl, tt)
split-IsFree sep (d ∷ s) = elim (Bool-cases (code d == code sep)) [
  | inl f ↦ rw f (refl, split-IsFree sep s)
  | inr f ↦ rw f (push-All sep d (split sep s) f (split-IsFree sep s))
]

pub join-IsFree :
    (c sep : Char) (ws : List String)
    → (code sep == code c) ≡ false
    → All (IsFree c) ws
    → IsFree c (join sep ws)
unfolding join contains_char
join-IsFree c sep [] e a = refl
join-IsFree c sep (w ∷ []) e a = a.0
join-IsFree c sep (w ∷ v ∷ ws) e a =
    let ih = join-IsFree c sep (v ∷ ws) e a.1 in
    ground (arith, contains_char-append c w (sep ∷ join sep (v ∷ ws)))

-- Splitting a piece without the separator, and a text that goes on after a separator.
pub split-piece : (sep : Char) (w : String) → IsFree sep w → split sep w ≡ w ∷ []
unfolding split contains_char
split-piece sep [] e = refl
split-piece sep (c ∷ w) e =
    let f : (code c == code sep) ≡ false = ground arith in
    rw (f, split-piece sep w (ground arith)) refl

pub split-more :
    (sep : Char) (w t : String) → IsFree sep w → split sep (w & (sep ∷ t)) ≡ w ∷ split sep t
unfolding split contains_char
split-more sep [] t e =
    let f : (code sep == code sep) ≡ true = ground arith in rw (nil-append (sep ∷ t), f) refl
split-more sep (c ∷ w) t e =
    let f : (code c == code sep) ≡ false = ground arith in
    rw (cons-append c w (sep ∷ t), f, split-more sep w t (ground arith)) refl

pub split-join :
    (sep : Char) (w : String) (ws : List String)
    → All (IsFree sep) (w ∷ ws)
    → split sep (join sep (w ∷ ws)) ≡ w ∷ ws
unfolding join
split-join sep w [] a = split-piece sep w a.0
split-join sep w (v ∷ ws) a =
    split-more sep w (join sep (v ∷ ws)) a.0 ∙ ap (λ l. w ∷ l) (split-join sep v ws a.1)

-- A text loses a suffix that it has; otherwise it stays.
pub trim_suffix-cases :
    (s suffix : String) → (trim_suffix s suffix ≡ s) ⊎ (s ≡ trim_suffix s suffix & suffix)
unfolding trim_suffix
trim_suffix-cases [] suffix = inl refl
trim_suffix-cases (c ∷ s) suffix = elim (Bool-cases (str_eq (c ∷ s) suffix)) [
  | inl f ↦ inr (rw (f, nil-append suffix) ((eq_iff (c ∷ s) suffix).0 f))
  | inr f ↦ rw f (elim (trim_suffix-cases s suffix) [
    | inl e ↦ inl (ap (λ t. c ∷ t) e)
    | inr e ↦ inr (rw (cons-append c (trim_suffix s suffix) suffix) (ap (λ t. c ∷ t) e))
  ])
]

longer : (c : Char) (s suffix : String) → str_eq (c ∷ (s & suffix)) suffix ≡ false
longer c s suffix = elim (Bool-cases (str_eq (c ∷ (s & suffix)) suffix)) [
  | inl e ↦ absurd (
      omega (
        arith,
        ap count ((eq_iff (c ∷ (s & suffix)) suffix).0 e),
        length-cons c (s & suffix),
        length-append s suffix,
      ))
  | inr e ↦ e
]

pub trim_suffix-append :
    (s : String) (c : Char) (suffix : String) → trim_suffix (s & (c ∷ suffix)) (c ∷ suffix) ≡ s
unfolding trim_suffix
trim_suffix-append [] c suffix = rw (nil-append (c ∷ suffix), eq_refl (c ∷ suffix)) refl
trim_suffix-append (d ∷ s) c suffix =
    rw (cons-append d s (c ∷ suffix), longer d s (c ∷ suffix), trim_suffix-append s c suffix) refl

push-cons :
    (c : Char) (ws : List String) → (w : String) × (rest : List String) × (push c ws ≡ w ∷ rest)
push-cons c [] = (c ∷ [], [], refl)
push-cons c (w ∷ ws) = (c ∷ w, ws, refl)

-- A split gives one piece at least.
pub split-cons :
    (sep : Char) (s : String) → (w : String) × (rest : List String) × (split sep s ≡ w ∷ rest)
unfolding split
split-cons sep [] = ([], [], refl)
split-cons sep (c ∷ s) = elim (Bool-cases (code c == code sep)) [
  | inl f ↦ rw f ([], split sep s, refl)
  | inr f ↦ rw f (push-cons c (split sep s))
]
