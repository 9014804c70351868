-- ===== src/Prelude/Split.antt =====
-- Splitting and joining: strings.Split at a character, strings.Join, TrimSuffix and Contains.
pub mod Laws
use Prim.Native.Char.{Char, code}
use Prim.Native.String.{String, [], ◌∷◌}
use mathlib.Core.Path.{◌≡◌, refl}
use mathlib.Core.Bool.{Bool, false, ◌||◌}
use mathlib.Core.List.{List, [], ◌∷◌}
use greenplum_for_kubernetes.Prelude.Tests.{◌==◌, if◌then◌else◌}
use greenplum_for_kubernetes.Prelude.Text.{◌&◌, str_eq}

-- A character put before the first piece.
abbrev pub push : Char → List String → List String
push c [] = (c ∷ []) ∷ []
push c (w ∷ ws) = (c ∷ w) ∷ ws

unfoldable pub split : (sep : Char) → String → List String
split sep [] = [] ∷ []
split sep (c ∷ s) = let rest = split sep s in if code c == code sep then [] ∷ rest else push c rest

unfoldable pub join : (sep : Char) → List String → String
join sep [] = []
join sep (w ∷ []) = w
join sep (w ∷ v ∷ ws) = w & (sep ∷ join sep (v ∷ ws))

unfoldable pub contains_char : Char → String → Bool
contains_char c [] = false
contains_char c (d ∷ s) = code d == code c || contains_char c s

-- strings.TrimSuffix for a suffix that is not empty.
unfoldable pub trim_suffix : String → String → String
trim_suffix [] suffix = []
trim_suffix (c ∷ s) suffix =
    let rest = trim_suffix s suffix in if str_eq (c ∷ s) suffix then [] else c ∷ rest

split_test : split "," "cpu,,cpuacct" ≡ "cpu" ∷ "" ∷ "cpuacct" ∷ []
unfolding split
split_test = refl

trim_suffix_test : trim_suffix "ns.svc.svc" ".svc" ≡ "ns.svc"
unfolding trim_suffix
trim_suffix_test = refl
