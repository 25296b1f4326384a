-- ===== src/Helper/Paths/Within.antt =====
-- What the test of a cleaned path against a directory says of their names.
use vair.Base.{
  ℕ, ◌≡◌, refl, ◌∙◌, ap, ◌↔◌, inl, inr, Bool, true, false, not, ◌&&◌, ◌||◌, List, [], ◌∷◌, ◌++◌,
  none, ◌==◌, same, is_empty, All, arith, Bool-cases,
}
use vair.Base.Text.{is_within, reverse_onto, split, add_first}
use vair.Helper.{Options}
use vair.Helper.Paths.{
  slash, dot_dot, up, walk_one, walk, slashed, is_rooted, names_of, root_if_empty, clean,
  any_within, check_linux_path,
}

abbrev pub no_slash : List ℕ → Bool
no_slash [] = true
no_slash (c ∷ s) = not (c == slash) && no_slash s

-- The first names are those of a directory.
abbrev pub is_below : List (List ℕ) → List (List ℕ) → Bool
is_below [] names = true
is_below (d ∷ dir) [] = false
is_below (d ∷ dir) (n ∷ names) = same n d && is_below dir names

abbrev IsName : List ℕ → Type 0
IsName n = (no_slash n ≡ true) × (is_empty n ≡ false)

split-no_slash : (p : List ℕ) → All (λ w. no_slash w ≡ true) (split slash p)
unfolding split
split-no_slash [] = (refl, tt)
split-no_slash (c ∷ p) = elim (Bool-cases (c == slash)) [
  | inl e ↦ rw e (refl, split-no_slash p)
  | inr e ↦ rw e (add_first-All c (split slash p) e (split-no_slash p))
]
  where
    add_first-All :
        (c : ℕ) (ws : List (List ℕ))
        → (c == slash) ≡ false
        → All (λ w. no_slash w ≡ true) ws
        → All (λ w. no_slash w ≡ true) (add_first c ws)
    add_first-All c [] e h = (rw e refl, tt)
    add_first-All c (w ∷ ws) e h = (rw e h.0, h.1)

walk_one-IsName :
    (names : List (List ℕ)) (n : List ℕ)
    → All IsName names
    → no_slash n ≡ true
    → All IsName (walk_one true names n)
unfolding walk_one
walk_one-IsName names n h f = elim (Bool-cases (is_empty n)) [
  | inl e ↦ rw e h
  | inr e ↦ elim (Bool-cases (same n (46 ∷ []))) [
    | inl d ↦ rw (e, d) h
    | inr d ↦ elim (Bool-cases (same n dot_dot)) [
      | inl u ↦ rw (e, d, u) (up-IsName names h)
      | inr u ↦ rw (e, d, u) ((f, e), h)
    ]
  ]
]
  where
    up-IsName : (names : List (List ℕ)) → All IsName names → All IsName (up true names)
    up-IsName [] h = tt
    up-IsName (n ∷ names) h = elim (Bool-cases (same n dot_dot)) [
      | inl u ↦ rw u ((refl, refl), h)
      | inr u ↦ rw u h.1
    ]

walk-IsName :
    (names ws : List (List ℕ))
    → All IsName names
    → All (λ w. no_slash w ≡ true) ws
    → All IsName (walk true names ws)
unfolding walk
walk-IsName names [] h f = h
walk-IsName names (w ∷ ws) h f =
    walk-IsName (walk_one true names w) ws (walk_one-IsName names w h f.0) f.1

reverse-IsName : (a b : List (List ℕ)) → All IsName a → All IsName b → All IsName (reverse_onto a b)
reverse-IsName [] b h k = k
reverse-IsName (n ∷ a) b h k = reverse-IsName a (n ∷ b) h.1 (h.0, k)

names_of-IsName : (p : List ℕ) → is_rooted p ≡ true → All IsName (names_of p)
unfolding names_of
names_of-IsName p r =
    rw r
      (reverse-IsName (walk true [] (split slash p)) [] (walk-IsName [] _ tt (split-no_slash p)) tt)

pub is_within-cons :
    (sep d c : ℕ) (s r : List ℕ) → is_within sep (d ∷ s) (c ∷ r) ≡ ((d == c) && is_within sep s r)
is_within-cons sep d c s r = elim (Bool-cases (d == c)) [ inl e ↦ rw e refl | inr e ↦ rw e refl ]

-- A slash, or the end, ends a name.
is_within-name :
    (q p : List ℕ) (qs ps : List (List ℕ))
    → no_slash q ≡ true
    → no_slash p ≡ true
    → is_within slash (q ++ slashed qs) (p ++ slashed ps)
      ≡ (same q p && is_within slash (slashed qs) (slashed ps))
unfolding slashed
is_within-name [] [] qs ps h k = refl
is_within-name [] (c ∷ p) [] ps h k = refl
is_within-name [] (c ∷ p) (q ∷ qs) ps h k = ground (arith, k)
is_within-name (d ∷ q) [] qs [] h k = ground (arith, h)
is_within-name (d ∷ q) [] qs (p ∷ ps) h k = ground (arith, h)
is_within-name (d ∷ q) (c ∷ p) qs ps h k =
    let qh : no_slash q ≡ true = ground (arith, h) in
    let pk : no_slash p ≡ true = ground (arith, k) in
    rw
      (is_within-cons slash d c (q ++ slashed qs) (p ++ slashed ps), is_within-name q p qs ps qh pk)
      (ground arith)

is_within-empty : (qs : List (List ℕ)) → is_within slash (slashed qs) [] ≡ true
unfolding slashed
is_within-empty [] = refl
is_within-empty (q ∷ qs) = refl

is_within-names :
    (qs ps : List (List ℕ))
    → All IsName qs
    → All IsName ps
    → is_within slash (slashed qs) (slashed ps) ≡ is_below ps qs
unfolding slashed
is_within-names qs [] h k = is_within-empty qs
is_within-names [] (p ∷ ps) h k = refl
is_within-names (q ∷ qs) (p ∷ ps) h k =
    is_within-cons slash slash slash (q ++ slashed qs) (p ++ slashed ps)
    ∙ is_within-name q p qs ps h.0.0 k.0.0
    ∙ ap (λ (b : Bool). same q p && b) (is_within-names qs ps h.1 k.1)

-- A directory other than the root.
abbrev pub IsDirectory : List ℕ → Type 0
IsDirectory d = (is_rooted d ≡ true) × (is_empty (names_of d) ≡ false)

abbrev pub below_any : List (List ℕ) → List (List ℕ) → Bool
below_any names [] = false
below_any names (d ∷ dirs) = is_below (names_of d) names || below_any names dirs

root_if_empty-names :
    (ns : List (List ℕ)) → is_empty ns ≡ false → root_if_empty (slashed ns) ≡ slashed ns
unfolding slashed
root_if_empty-names [] h = absurd (ground arith)
root_if_empty-names (n ∷ ns) h = refl

is_within-root :
    (ns ps : List (List ℕ))
    → is_empty ps ≡ false
    → All IsName ps
    → is_within slash (root_if_empty (slashed ns)) (slashed ps)
      ≡ is_within slash (slashed ns) (slashed ps)
unfolding slashed
is_within-root (n ∷ ns) ps h k = refl
is_within-root [] [] h k = absurd (ground arith)
is_within-root [] ((c ∷ p) ∷ ps) h k = refl
is_within-root [] ([] ∷ ps) h k = absurd (ground (arith, k.0.1))

clean-rooted : (p : List ℕ) → is_rooted p ≡ true → clean p ≡ root_if_empty (slashed (names_of p))
unfolding clean
clean-rooted p r = rw r refl

any_within-names :
    (p : List ℕ) (dirs : List (List ℕ))
    → is_rooted p ≡ true
    → All IsDirectory dirs
    → any_within (clean p) dirs ≡ below_any (names_of p) dirs
unfolding any_within
any_within-names p [] r h = refl
any_within-names p (d ∷ dirs) r h =
    let one : is_within slash (clean p) (clean d) ≡ is_below (names_of d) (names_of p) =
      rw (clean-rooted p r, clean-rooted d h.0.0, root_if_empty-names (names_of d) h.0.1)
        (is_within-root (names_of p) (names_of d) h.0.1 (names_of-IsName d h.0.0)
          ∙ is_within-names (names_of p) (names_of d) (names_of-IsName p r)
              (names_of-IsName d h.0.0)) in
    rw (one, any_within-names p dirs r h.1) refl

-- A path is admitted on Linux exactly when it is absolute and its names, once every "." and ".."
-- is followed, begin with the names of an allowed directory; the allowed directories are absolute
-- and none is the root.
pub check_linux_path-exact :
    (p : List ℕ) (opt : Options)
    → All IsDirectory opt.allowed_path_prefixes
    → (check_linux_path p opt ≡ none)
      ↔ (is_rooted p && below_any (names_of p) opt.allowed_path_prefixes ≡ true)
unfolding check_linux_path
check_linux_path-exact [] opt h = (λ k. absurd (ground (arith, k)), λ k. absurd (ground (arith, k)))
check_linux_path-exact (c ∷ s) opt h = elim (Bool-cases (is_rooted (c ∷ s))) [
  | inl e ↦
      rw (any_within-names (c ∷ s) opt.allowed_path_prefixes e h)
        (ground (arith, e), ground (arith, e))
  | inr e ↦ (λ k. absurd (ground (arith, k, e)), λ k. absurd (ground (arith, k, e)))
]
