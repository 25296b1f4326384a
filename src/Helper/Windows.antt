-- ===== src/Helper/Windows.antt =====
-- helper/validate/windows.go: `checkWindowsPath`.
-- `table` is the case mapping of the characters that are not ASCII, of `strings.ToLower`.
pub mod Plain
use vair.Base.{
  ℕ, ◌≡◌, Bool, true, false, not, ◌&&◌, ◌||◌, List, [], ◌∷◌, ◌++◌, Option, none, some,
  if◌then◌else◌, ◌==◌, ltb, leb, same, is_empty, codes, drop, member, length,
}
use vair.Base.Text.{
  has_prefix, has_suffix, is_within, skip_any, trim_right, replace, split, cut, to_lower,
}
use vair.Helper.{
  Options, Refusal, not_plain, not_a_drive_path, data_stream, bad_character, short_name,
  empty_segment, relative_segment, trailing_dot, device, outside, or_else_check,
}

-- `\`.
abbrev pub backslash : ℕ
backslash = 92

abbrev pub is_drive_letter : ℕ → Bool
is_drive_letter c = (leb 97 c && leb c 122) || (leb 65 c && leb c 90)

abbrev pub is_digit : ℕ → Bool
is_digit c = leb 48 c && leb c 57

-- A drive's letter, a colon and a backslash.
abbrev pub on_drive : List ℕ → Bool
on_drive (d ∷ c ∷ b ∷ rest) = is_drive_letter d && (c == 58 && b == backslash)
on_drive _ = false

abbrev pub is_bad_rune : ℕ → Bool
is_bad_rune r = ltb r 32 || member r (codes "<>\"|?*")

abbrev pub any_rune : (ℕ → Bool) → List ℕ → Bool
any_rune p [] = false
any_rune p (c ∷ s) = p c || any_rune p s

abbrev pub before_dot : List ℕ → List ℕ
before_dot s = elim (cut 46 s) [ none ↦ s | some (base, rest) ↦ base ]

abbrev pub is_port_name : List ℕ → Bool
is_port_name (a ∷ b ∷ c ∷ n ∷ []) =
    (same (a ∷ b ∷ c ∷ []) (codes "com") || same (a ∷ b ∷ c ∷ []) (codes "lpt")) && is_digit n
is_port_name _ = false

unfoldable pub is_device_base : List ℕ → Bool
is_device_base base =
    same base (codes "con")
    || same base (codes "prn")
    || same base (codes "aux")
    || same base (codes "nul")
    || same base (codes "conin$")
    || same base (codes "conout$")
    || is_port_name base

unfoldable pub is_device_name : (ℕ → ℕ) → List ℕ → Bool
unfolding is_device_base cut trim_right
is_device_name table seg =
    is_device_base (trim_right (λ c. c == 32) (before_dot (to_lower table seg)))

unfoldable pub check_segment : (ℕ → ℕ) → List ℕ → Option Refusal
unfolding is_device_name
check_segment table seg =
    if is_empty seg
    then some empty_segment
    else if same seg (codes ".") || same seg (codes "..")
    then some relative_segment
    else if has_suffix seg (codes ".") || has_suffix seg (codes " ")
    then some trailing_dot
    else if is_device_name table seg
    then some device
    else none

unfoldable pub check_segments : (ℕ → ℕ) → List (List ℕ) → Option Refusal
unfolding check_segment
check_segments table [] = none
check_segments table (seg ∷ segs) =
    or_else_check (check_segment table seg) (check_segments table segs)

unfoldable pub directory_text : (ℕ → ℕ) → List ℕ → List ℕ
unfolding trim_right
directory_text table prefix =
    to_lower table (trim_right (λ c. c == backslash) (replace 47 backslash prefix))

unfoldable pub in_directories : (ℕ → ℕ) → List ℕ → List (List ℕ) → Bool
unfolding directory_text
in_directories table low [] = false
in_directories table low (prefix ∷ prefixes) =
    let pre = directory_text table prefix in
    (not (is_empty pre) && is_within backslash low pre) || in_directories table low prefixes

abbrev pub normal : List ℕ → List ℕ
normal p = replace 47 backslash p

unfoldable pub check_windows_path : (ℕ → ℕ) → List ℕ → Options → Option Refusal
unfolding check_segments in_directories split
check_windows_path table p opt =
    if has_prefix (normal p) (backslash ∷ backslash ∷ [])
    then some not_plain
    else if not (on_drive (normal p))
    then some not_a_drive_path
    else if member 58 (drop 2 (normal p))
    then some data_stream
    else if any_rune is_bad_rune (normal p)
    then some bad_character
    else if member 126 (normal p)
    then some short_name
    else or_else_check (check_segments table (split backslash (drop 3 (normal p)))) (
        if in_directories table (to_lower table (normal p)) opt.allowed_path_prefixes
        then none
        else some outside)
