-- ===== src/Helper/Config/Directories.antt =====
-- The files that an admitted configuration of the Linux helper names.
use vair.Base.{
  ℕ, ◌≡◌, refl, sym, subst, arith, ◌∙◌, true, false, ◌&&◌, List, [], ◌∷◌, Option, none, some, All,
}
use vair.Helper.{Json, Fields, Options, is_admitted, is_admitted-none}
use vair.Helper.Paths.{is_rooted, names_of, check_linux_path}
use vair.Helper.Paths.Within.{IsDirectory, below_any, check_linux_path-exact}
use vair.Helper.Config.{as_object, check_path, with_default, config}
use vair.Helper.Config.Files.{files, all_of, admitted_file}
use vair.Helper.Config.Safe.{is_safe, is_safe_object, config-exact}

check_path-linux :
    (table : ℕ → ℕ) (p : List ℕ) (opt : Options)
    → opt.windows ≡ false
    → check_path table p opt ≡ check_linux_path p opt
unfolding check_path
check_path-linux table [] opt w = refl
check_path-linux table (c ∷ p) opt w = rw w refl

admitted_file-All :
    (table : ℕ → ℕ) (opt : Options) (ps : List (List ℕ))
    → opt.windows ≡ false
    → All IsDirectory opt.allowed_path_prefixes
    → all_of (admitted_file table opt) ps ≡ true
    → All (λ p. is_rooted p && below_any (names_of p) opt.allowed_path_prefixes ≡ true) ps
admitted_file-All table opt [] w d h = tt
admitted_file-All table opt (p ∷ ps) w d h =
    let yes_p : is_admitted (check_path table p opt) ≡ true = ground (arith, h) in
    let one : check_linux_path p opt ≡ none =
      sym (check_path-linux table p opt w) ∙ (is_admitted-none (check_path table p opt)).1 yes_p in
    let rest : all_of (admitted_file table opt) ps ≡ true = ground (arith, h) in
    ((check_linux_path-exact p opt d).0 one, admitted_file-All table opt ps w d rest)

is_safe_object-files :
    (table : ℕ → ℕ) (opt : Options) (whole : Json) (o : Option Fields)
    → is_safe_object table opt whole o ≡ true
    → all_of (admitted_file table opt) (files whole [] false) ≡ true
is_safe_object-files table opt whole none h = absurd (ground (arith, h))
is_safe_object-files table opt whole (some doc) h = ground (arith, h)

-- Every file that an admitted configuration of the Linux helper names, anywhere in it, is an
-- absolute path that lies in an allowed directory once every "." and ".." is followed; the allowed
-- directories are absolute and none is the root.
pub config-files :
    (unmarshal : List ℕ → Option Json) (table : ℕ → ℕ) (raw : List ℕ) (opt : Options) (whole : Json)
    → opt.windows ≡ false
    → All IsDirectory opt.allowed_path_prefixes
    → unmarshal raw ≡ some whole
    → config unmarshal table raw opt ≡ none
    → All
        (λ p. is_rooted p && below_any (names_of p) opt.allowed_path_prefixes ≡ true)
        (files whole [] false)
config-files unmarshal table raw opt whole w d e h =
    let safe : is_safe table (with_default opt) (unmarshal raw) ≡ true =
      (config-exact unmarshal table raw opt).0 h in
    let of_whole : is_safe table (with_default opt) (some whole) ≡ true =
      subst (λ (o : Option Json). is_safe table (with_default opt) o ≡ true) e safe in
    admitted_file-All table (with_default opt) (files whole [] false) w d
      (is_safe_object-files table (with_default opt) whole (as_object whole) of_whole)
