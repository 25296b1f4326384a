-- ===== src/Base/Text.antt =====
-- Texts as lists of code points, with what Go's `strings` does to them.
use Prim.Native.Nat.{ℕ, ◌+◌}
use mathlib.Core.Bool.{Bool, true, false, ◌&&◌, ◌||◌}
use mathlib.Core.List.{List, [], ◌∷◌, ◌++◌, map}
use mathlib.Core.Option.{Option, none, some}
use vair.Base.Select.{same}
use vair.Base.Tests.{◌==◌, if◌then◌else◌, leb, ltb}

abbrev pub has_prefix : List ℕ → List ℕ → Bool
has_prefix s [] = true
has_prefix [] (c ∷ p) = false
has_prefix (a ∷ s) (c ∷ p) = a == c && has_prefix s p

unfoldable pub contains : List ℕ → List ℕ → Bool
contains [] p = has_prefix [] p
contains (a ∷ s) p = has_prefix (a ∷ s) p || contains s p

module _ {ℓ} {A : Type ℓ} where
  abbrev pub reverse_onto : List A → List A → List A
  reverse_onto [] done = done
  reverse_onto (c ∷ s) done = reverse_onto s (c ∷ done)

abbrev pub has_suffix : List ℕ → List ℕ → Bool
has_suffix s p = has_prefix (reverse_onto s []) (reverse_onto p [])

-- The directory itself, or what lies in it.
abbrev pub is_within : ℕ → List ℕ → List ℕ → Bool
is_within sep s prefix = same s prefix || has_prefix s (prefix ++ sep ∷ [])

abbrev pub replace : ℕ → ℕ → List ℕ → List ℕ
replace old new s = map (λ c. if c == old then new else c) s

abbrev pub skip_any : (ℕ → Bool) → List ℕ → List ℕ
skip_any p [] = []
skip_any p (c ∷ s) = let rest = skip_any p s in if p c then rest else c ∷ s

unfoldable pub trim_right : (ℕ → Bool) → List ℕ → List ℕ
trim_right p s = reverse_onto (skip_any p (reverse_onto s [])) []

unfoldable pub trim_space : (ℕ → Bool) → List ℕ → List ℕ
unfolding trim_right
trim_space p s = trim_right p (skip_any p s)

abbrev pub add_first : ℕ → List (List ℕ) → List (List ℕ)
add_first c [] = (c ∷ []) ∷ []
add_first c (w ∷ ws) = (c ∷ w) ∷ ws

-- `strings.Split` at one character: never the empty list.
unfoldable pub split : ℕ → List ℕ → List (List ℕ)
split sep [] = [] ∷ []
split sep (c ∷ s) = if c == sep then [] ∷ split sep s else add_first c (split sep s)

-- `strings.Cut` at the first place of one character.
unfoldable pub cut : ℕ → List ℕ → Option (List ℕ × List ℕ)
cut sep [] = none
cut sep (c ∷ s) = elim (c == sep) [
  | true ↦ some ([], s)
  | false ↦ elim (cut sep s) [ none ↦ none | some (a, b) ↦ some (c ∷ a, b) ]
]

-- `strings.ToLower`: exact on ASCII, elsewhere by a table of cases.
abbrev pub lower_rune : (ℕ → ℕ) → ℕ → ℕ
lower_rune table c = if ltb c 128 then (if leb 65 c && leb c 90 then c + 32 else c) else table c

abbrev pub to_lower : (ℕ → ℕ) → List ℕ → List ℕ
to_lower table s = map (lower_rune table) s
