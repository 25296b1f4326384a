-- ===== src/Helper/Windows/Plain.antt =====
-- What a path that the Windows check admits is like.
use vair.Base.{
  ℕ, ◌≡◌, ◌↔◌, refl, subst, inl, inr, Bool, true, false, not, ◌&&◌, ◌||◌, List, [], ◌∷◌, none, ◌==◌,
  same, is_empty, arith, Bool-cases, Option-cases, codes, drop, member,
}
use vair.Base.Text.{has_prefix, has_suffix, is_within, split, to_lower}
use vair.Helper.{Options, is_admitted, is_admitted-none, is_admitted-or_else_check}
use vair.Helper.Paths.Within.{is_below, is_within-cons}
use vair.Helper.Windows.{
  backslash, on_drive, is_bad_rune, any_rune, is_device_name, check_segment, check_segments,
  directory_text, in_directories, normal, check_windows_path,
}

-- No empty or relative name, none that Windows reads as another and no device.
abbrev pub is_plain : (ℕ → ℕ) → List ℕ → Bool
is_plain table seg =
    not (is_empty seg)
    && (not (same seg (codes ".") || same seg (codes ".."))
        && (not (has_suffix seg (codes ".") || has_suffix seg (codes " "))
            && not (is_device_name table seg)))

abbrev pub all_plain : (ℕ → ℕ) → List (List ℕ) → Bool
all_plain table [] = true
all_plain table (s ∷ segs) = is_plain table s && all_plain table segs

-- One of the directories has its names at the front.
abbrev pub below_some : (ℕ → ℕ) → List (List ℕ) → List (List ℕ) → Bool
below_some table names [] = false
below_some table names (d ∷ dirs) =
    (not (is_empty (directory_text table d))
      && is_below (split backslash (directory_text table d)) names)
    || below_some table names dirs

split-cons : (sep : ℕ) (s : List ℕ) → (w : List ℕ) × (ws : List (List ℕ)) × (split sep s ≡ w ∷ ws)
unfolding split
split-cons sep [] = ([], [], refl)
split-cons sep (c ∷ s) = elim (Bool-cases (c == sep)) [
  | inl e ↦ ([], split sep s, rw e refl)
  | inr e ↦ let (w, ws, q) = split-cons sep s in (c ∷ w, ws, rw (e, q) refl)
]

is_below-split_ends :
    (dir : List (List ℕ)) (sep : ℕ) (p : List ℕ) → is_below ([] ∷ split sep p) ([] ∷ []) ≡ false
is_below-split_ends dir sep p = let (w, ws, e) = split-cons sep p in rw e refl

-- A text lies in a directory when its names begin with the directory's.
is_below-split : (sep : ℕ) (s p : List ℕ) → is_within sep s p ≡ is_below (split sep p) (split sep s)
unfolding split
is_below-split sep [] [] = refl
is_below-split sep [] (c ∷ p) = elim (Bool-cases (c == sep)) [
  | inl e ↦ let (w, ws, q) = split-cons sep p in rw (e, q) refl
  | inr e ↦ let (w, ws, q) = split-cons sep p in rw (e, q) refl
]
is_below-split sep (d ∷ s) [] = elim (Bool-cases (d == sep)) [
  | inl e ↦ rw e refl
  | inr e ↦ let (w, ws, q) = split-cons sep s in rw (e, q) refl
]
is_below-split sep (d ∷ s) (c ∷ p) =
    let (v, vs, q) = split-cons sep p in
    let (w, ws, r) = split-cons sep s in
    rw (is_within-cons sep d c s p, is_below-split sep s p)
      (elim (Bool-cases (c == sep)) [
        | inl e ↦ elim (Bool-cases (d == sep)) [
          | inl f ↦ rw (e, f) (ground (arith, e, f))
          | inr f ↦ rw (e, f, q, r) (ground (arith, e, f))
        ]
        | inr e ↦ elim (Bool-cases (d == sep)) [
          | inl f ↦ rw (e, f, q, r) (ground (arith, e, f))
          | inr f ↦ rw (e, f, q, r) (ground (arith, e, f))
        ]
      ])

check_segment-plain :
    (table : ℕ → ℕ) (seg : List ℕ) → is_admitted (check_segment table seg) ≡ is_plain table seg
unfolding check_segment
check_segment-plain table seg = ground arith

check_segments-plain :
    (table : ℕ → ℕ) (segs : List (List ℕ))
    → is_admitted (check_segments table segs) ≡ all_plain table segs
unfolding check_segments
check_segments-plain table [] = refl
check_segments-plain table (s ∷ segs) =
    rw
      (
        is_admitted-or_else_check (check_segment table s) (check_segments table segs),
        check_segment-plain table s,
        check_segments-plain table segs,
      )
      refl

in_directories-below :
    (table : ℕ → ℕ) (low : List ℕ) (dirs : List (List ℕ))
    → in_directories table low dirs ≡ below_some table (split backslash low) dirs
unfolding in_directories
in_directories-below table low [] = refl
in_directories-below table low (d ∷ dirs) =
    rw (is_below-split backslash low (directory_text table d), in_directories-below table low dirs)
      refl

-- The letter of a drive, and behind it plain names that no other spelling hides.
abbrev pub is_plain_path : (ℕ → ℕ) → List ℕ → Bool
is_plain_path table q =
    on_drive q
    && (not (member 58 (drop 2 q))
        && (not (any_rune is_bad_rune q)
            && (not (member 126 q) && all_plain table (split backslash (drop 3 q)))))

check_windows_path-tests :
    (table : ℕ → ℕ) (p : List ℕ) (opt : Options)
    → is_admitted (check_windows_path table p opt) ≡ (
        not (has_prefix (normal p) (backslash ∷ backslash ∷ []))
        && (is_plain_path table (normal p)
            && in_directories table (to_lower table (normal p)) opt.allowed_path_prefixes))
unfolding check_windows_path
check_windows_path-tests table p opt =
    let segs = check_segments table (split backslash (drop 3 (normal p))) in
    rw (← check_segments-plain table (split backslash (drop 3 (normal p))))
      (elim (Option-cases segs) [ inl e ↦ rw e (ground arith) | inr (r, e) ↦ rw e (ground arith) ])

on_drive-not_share :
    (q : List ℕ) → on_drive q ≡ true → has_prefix q (backslash ∷ backslash ∷ []) ≡ false
on_drive-not_share [] h = absurd (ground (arith, h))
on_drive-not_share (d ∷ []) h = absurd (ground (arith, h))
on_drive-not_share (d ∷ c ∷ []) h = absurd (ground (arith, h))
on_drive-not_share (d ∷ c ∷ b ∷ q) h = ground (arith, h)

check_windows_path-plain :
    (table : ℕ → ℕ) (p : List ℕ) (opt : Options)
    → is_admitted (check_windows_path table p opt) ≡ (
        is_plain_path table (normal p)
        && below_some table (split backslash (to_lower table (normal p))) opt.allowed_path_prefixes)
check_windows_path-plain table p opt =
    let dirs = opt.allowed_path_prefixes in
    let low = to_lower table (normal p) in
    rw (← in_directories-below table low dirs, check_windows_path-tests table p opt)
      (elim (Bool-cases (on_drive (normal p))) [
        | inl e ↦ rw (on_drive-not_share (normal p) e) refl
        | inr e ↦ rw e (ground arith)
      ])

-- A path is admitted on Windows exactly when, with its slashes turned, it is a drive's letter, a
-- colon and plain names (none empty, relative, a device or one that Windows would change) without
-- a second colon, a tilde or a forbidden character, and its names in lower case begin with those of
-- an allowed directory.
pub check_windows_path-exact :
    (table : ℕ → ℕ) (p : List ℕ) (opt : Options)
    → (check_windows_path table p opt ≡ none) ↔ (
        is_plain_path table (normal p)
          && below_some table
              (split backslash (to_lower table (normal p)))
              opt.allowed_path_prefixes
        ≡ true)
check_windows_path-exact table p opt =
    let o = check_windows_path table p opt in
    subst (λ (b : Bool). (o ≡ none) ↔ (b ≡ true)) (check_windows_path-plain table p opt)
      (is_admitted-none o)
