-- ===== src/Helper/Config/Files.antt =====
-- The files that a configuration names, and that `checkPaths` looks at each of them.
use vair.Base.{
  ℕ, ◌≡◌, refl, inl, inr, arith, Bool, true, ◌&&◌, ◌||◌, List, [], ◌∷◌, ◌++◌, if◌then◌else◌, same,
  codes, Bool-cases,
}
use vair.Helper.{
  Json, null, boolean, number, text, array, object, Items, no_items, item, Fields, no_fields, field,
  Options, is_admitted, is_admitted-or_else_check,
}
use vair.Helper.Config.{check_path, names_file, check_paths, check_items, check_fields}

-- The texts under keys that name files, anywhere below a value that stands under a key, within
-- `route.rule_set` or not.
unfoldable mutual
  pub files : Json → List ℕ → Bool → List (List ℕ)
  files (object m) key inside = field_files m inside
  files (array vs) key inside = item_files vs key inside
  files (text s) key inside = if names_file key inside then s ∷ [] else []
  files (number n) key inside = []
  files (boolean b) key inside = []
  files null key inside = []

  pub item_files : Items → List ℕ → Bool → List (List ℕ)
  item_files no_items key inside = []
  item_files (item v rest) key inside = files v key inside ++ item_files rest key inside

  pub field_files : Fields → Bool → List (List ℕ)
  field_files no_fields inside = []
  field_files (field k v rest) inside =
      files v k (inside || same k (codes "rule_set")) ++ field_files rest inside

abbrev pub all_of {ℓ} : {A : Type ℓ} → (A → Bool) → List A → Bool
all_of p [] = true
all_of p (x ∷ xs) = p x && all_of p xs

pub all_of-append {ℓ} :
    {A : Type ℓ} (p : A → Bool) (xs ys : List A)
    → all_of p (xs ++ ys) ≡ (all_of p xs && all_of p ys)
all_of-append p [] ys = refl
all_of-append p (x ∷ xs) ys = elim (Bool-cases (p x)) [
  | inl e ↦ rw e (all_of-append p xs ys)
  | inr e ↦ rw e refl
]

abbrev pub admitted_file : (ℕ → ℕ) → Options → List ℕ → Bool
admitted_file table opt p = is_admitted (check_path table p opt)

mutual
  unfolding check_paths check_items check_fields files item_files field_files

  pub check_paths-files :
      (table : ℕ → ℕ) (opt : Options) (v : Json) (key : List ℕ) (inside : Bool)
      → is_admitted (check_paths table opt v key inside)
        ≡ all_of (admitted_file table opt) (files v key inside)
  check_paths-files table opt (object m) key inside = check_fields-files table opt m inside
  check_paths-files table opt (array vs) key inside = check_items-files table opt vs key inside
  check_paths-files table opt (text s) key inside = elim (Bool-cases (names_file key inside)) [
    | inl e ↦ rw e (ground arith)
    | inr e ↦ rw e refl
  ]
  check_paths-files table opt (number n) key inside = refl
  check_paths-files table opt (boolean b) key inside = refl
  check_paths-files table opt null key inside = refl

  pub check_items-files :
      (table : ℕ → ℕ) (opt : Options) (vs : Items) (key : List ℕ) (inside : Bool)
      → is_admitted (check_items table opt vs key inside)
        ≡ all_of (admitted_file table opt) (item_files vs key inside)
  check_items-files table opt no_items key inside = refl
  check_items-files table opt (item v rest) key inside =
      rw
        (
          is_admitted-or_else_check (check_paths table opt v key inside)
              (check_items table opt rest key inside),
          all_of-append (admitted_file table opt) (files v key inside) (item_files rest key inside),
          check_paths-files table opt v key inside,
          check_items-files table opt rest key inside,
        )
        refl

  pub check_fields-files :
      (table : ℕ → ℕ) (opt : Options) (m : Fields) (inside : Bool)
      → is_admitted (check_fields table opt m inside)
        ≡ all_of (admitted_file table opt) (field_files m inside)
  check_fields-files table opt no_fields inside = refl
  check_fields-files table opt (field k v rest) inside =
      let within = inside || same k (codes "rule_set") in
      rw
        (
          is_admitted-or_else_check (check_paths table opt v k within)
              (check_fields table opt rest inside),
          all_of-append (admitted_file table opt) (files v k within) (field_files rest inside),
          check_paths-files table opt v k within,
          check_fields-files table opt rest inside,
        )
        refl
