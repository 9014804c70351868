-- ===== src/Prelude/Text.antt =====
-- Go strings as native texts: decimal printing (`%d`), lower case of ASCII letters, trimming.
use Prim.Native.Nat.{ℕ, zero, suc, ◌+◌, ◌/◌, ◌%◌}
use Prim.Native.Char.{Char, code}
pub use Prim.Native.String.{String}
pub use Prim.Native.String.{count}
use Prim.Native.String.{[], ◌∷◌, ◌++◌ as ◌++ˢ◌}
use mathlib.Core.Path.{◌≡◌, refl}
use mathlib.Core.Bool.{Bool, ◌||◌}
pub use text.Mathlib.Text.{◌==◌ as str_eq}
pub use text.Mathlib.TextEquality.{eq_iff}
pub use text.Mathlib.TextPositions.{eq_refl}
pub use text.Mathlib.TextLemmas.{append_assoc, append-nil, nil-append, length-eq-zero_iff}
use greenplum_for_kubernetes.Prelude.Tests.{ltb, ◌==◌, if◌then◌else◌}
use greenplum_for_kubernetes.Prelude.Int.{ℤ, pos, negsuc}

infixr 66 ◌&◌
-- Concatenation, Go's `+` on strings.
abbrev pub ◌&◌ : String → String → String
s & t = s ++ˢ t

-- The character at a place of a text, and "0" past its end.
char_at : ℕ → String → Char
char_at n [] = "0"
char_at zero (c ∷ s) = c
char_at (suc n) (c ∷ s) = char_at n s

digit : ℕ → Char
digit n = char_at n "0123456789"

-- Fuel `n + 1` is enough, since each round divides by ten.
digits : ℕ → ℕ → String → String
digits zero n out = out
digits (suc fuel) n out =
    let more = digits fuel (n / 10) (digit (n % 10) ∷ out) in
    if ltb n 10 then digit n ∷ out else more

-- `%d`
unfoldable pub show : ℕ → String
unfolding digits digit char_at
show n = digits (suc n) n []

unfoldable pub show_ℤ : ℤ → String
unfolding show
show_ℤ (pos n) = show n
show_ℤ (negsuc n) = "-" & show (n + 1)

-- strings.ToLower on ASCII letters; other characters stay.
lower_in : String → String → Char → Char
lower_in (u ∷ us) (l ∷ ls) c = if code u == code c then l else lower_in us ls c
lower_in _ _ c = c

unfoldable pub to_lower : String → String
unfolding lower_in
to_lower [] = []
to_lower (c ∷ s) = lower_in "ABCDEFGHIJKLMNOPQRSTUVWXYZ" "abcdefghijklmnopqrstuvwxyz" c ∷ to_lower s

is_space : Char → Bool
is_space c = code c == 32 || code c == 9 || code c == 10 || code c == 13

-- strings.TrimSpace, for ASCII white space.
drop_spaces : String → String
drop_spaces [] = []
drop_spaces (c ∷ s) = let rest = drop_spaces s in if is_space c then rest else c ∷ s

push_back : Char → String → String
push_back c [] = if is_space c then [] else c ∷ []
push_back c (d ∷ s) = c ∷ d ∷ s

drop_spaces_end : String → String
drop_spaces_end [] = []
drop_spaces_end (c ∷ s) = push_back c (drop_spaces_end s)

unfoldable pub trim_space : String → String
unfolding drop_spaces drop_spaces_end push_back is_space
trim_space s = drop_spaces_end (drop_spaces s)

-- strings.TrimSuffix(s, "\n")
push_line : Char → String → String → String
push_line c [] rest = if code c == 10 then [] else c ∷ []
push_line c (d ∷ s) rest = c ∷ rest

unfoldable pub trim_newline : String → String
unfolding push_line
trim_newline [] = []
trim_newline (c ∷ s) = push_line c s (trim_newline s)

show_test : show 1024 ≡ "1024"
unfolding show
show_test = refl

lower_test : to_lower "Yes" ≡ "yes"
unfolding to_lower
lower_test = refl

trim_test : trim_space "  12 3\n" ≡ "12 3"
unfolding trim_space
trim_test = refl
