-- ===== src/Helper/Paths.antt =====
-- helper/validate/validate.go: `checkPath` for a Linux configuration, and `path.Clean`.
pub mod Within
use vair.Base.{
  ℕ, ◌≡◌, Bool, true, false, not, ◌&&◌, ◌||◌, List, [], ◌∷◌, ◌++◌, Option, none, some,
  if◌then◌else◌, ◌==◌, same, is_empty, codes,
}
use vair.Base.Text.{has_prefix, is_within, reverse_onto, split}
use vair.Helper.{Options, Refusal, empty_path, not_absolute, outside}

-- `/`.
abbrev pub slash : ℕ
slash = 47

abbrev pub dot_dot : List ℕ
dot_dot = 46 ∷ 46 ∷ []

abbrev pub stays : List ℕ → Bool
stays name = is_empty name || same name (46 ∷ [])

abbrev pub up : Bool → List (List ℕ) → List (List ℕ)
up true [] = []
up false [] = dot_dot ∷ []
up rooted (name ∷ names) = if same name dot_dot then dot_dot ∷ name ∷ names else names

-- One element of a path, from the names so far, the last first.
unfoldable pub walk_one : Bool → List (List ℕ) → List ℕ → List (List ℕ)
walk_one rooted names name =
    if stays name then names else if same name dot_dot then up rooted names else name ∷ names

unfoldable pub walk : Bool → List (List ℕ) → List (List ℕ) → List (List ℕ)
unfolding walk_one
walk rooted names [] = names
walk rooted names (name ∷ rest) = walk rooted (walk_one rooted names name) rest

-- Each name behind a slash.
unfoldable pub slashed : List (List ℕ) → List ℕ
slashed [] = []
slashed (name ∷ names) = slash ∷ name ++ slashed names

abbrev pub is_rooted : List ℕ → Bool
is_rooted p = has_prefix p (slash ∷ [])

-- The names that a path goes by.
unfoldable pub names_of : List ℕ → List (List ℕ)
unfolding walk split
names_of p = reverse_onto (walk (is_rooted p) [] (split slash p)) []

abbrev pub root_if_empty : List ℕ → List ℕ
root_if_empty [] = slash ∷ []
root_if_empty (c ∷ s) = c ∷ s

abbrev pub dot_if_empty : List ℕ → List ℕ
dot_if_empty [] = 46 ∷ []
dot_if_empty (c ∷ s) = s

-- `path.Clean`.
unfoldable pub clean : List ℕ → List ℕ
unfolding names_of slashed
clean p =
    if is_rooted p
    then root_if_empty (slashed (names_of p))
    else dot_if_empty (slashed (names_of p))

unfoldable pub any_within : List ℕ → List (List ℕ) → Bool
unfolding clean
any_within s [] = false
any_within s (prefix ∷ prefixes) = is_within slash s (clean prefix) || any_within s prefixes

unfoldable pub check_linux_path : List ℕ → Options → Option Refusal
unfolding clean any_within
check_linux_path p opt =
    if is_empty p
    then some empty_path
    else if not (is_rooted p)
    then some not_absolute
    else if any_within (clean p) opt.allowed_path_prefixes
    then none
    else some outside
