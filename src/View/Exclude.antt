-- ===== src/View/Exclude.antt =====
-- core/excludefilter.go: the rules of a tab that hide rows.
use vair.Base.{
  ℕ, Bool, false, not, ◌&&◌, ◌||◌, List, [], ◌∷◌, none, some, if◌then◌else◌, same, codes, is_empty,
}
use vair.Base.Text.{has_prefix, contains, cut, to_lower, trim_space}
use vair.View.{Outside, is_in, shown_network}

abbrev pub exclude_columns : List (List ℕ)
exclude_columns =
    codes "name" ∷ codes "type" ∷ codes "host" ∷ codes "transport" ∷ codes "security" ∷ []

-- A column and a value; the column is the name where no other is named.
unfoldable pub parse_exclude_rule : (ℕ → ℕ) → List ℕ → List ℕ × List ℕ
unfolding cut
parse_exclude_rule table s = elim (cut 58 s) [
  | none ↦ (codes "name", s)
  | some (col, val) ↦
      if not (is_empty col) && is_in (to_lower table col) exclude_columns
      then (to_lower table col, val)
      else (codes "name", s)
]

unfoldable pub display_protocol : List ℕ → List ℕ → List ℕ
display_protocol kind security =
    if same kind (codes "ss") && has_prefix security (codes "2022-blake3-")
    then codes "ss2022"
    else kind

-- The texts of a row in lower case.
pub record Shown : Type 0 where
  pub name : List ℕ
  pub kind : List ℕ
  pub host : List ℕ
  pub network : List ℕ
  pub security : List ℕ

abbrev pub column_hides : Shown → List ℕ → List ℕ → Bool
column_hides row col val =
    if same col (codes "type")
    then same row.kind val
    else if same col (codes "transport")
    then same row.network val
    else if same col (codes "security")
    then same row.security val
    else if same col (codes "host")
    then contains row.host val
    else contains row.name val

-- One turn of the loop.
unfoldable pub rule_hides : Outside → Shown → List ℕ → Bool
unfolding parse_exclude_rule contains trim_space
rule_hides outside row rule =
    let (col, value) = parse_exclude_rule outside.table rule in
    let val = to_lower outside.table (trim_space outside.is_space value) in
    not (is_empty val) && column_hides row col val

unfoldable pub any_rule_hides : Outside → Shown → List (List ℕ) → Bool
unfolding rule_hides
any_rule_hides outside row [] = false
any_rule_hides outside row (r ∷ rules) =
    rule_hides outside row r || any_rule_hides outside row rules

unfoldable pub should_skip :
    Outside → List ℕ → List ℕ → List ℕ → List ℕ → List ℕ → List (List ℕ) → Bool
unfolding any_rule_hides display_protocol shown_network
should_skip outside name kind host network security rules =
    any_rule_hides outside
      (record {
        name = to_lower outside.table name;
        kind = to_lower outside.table (display_protocol kind security);
        host = to_lower outside.table host;
        network = shown_network outside.table network;
        security = to_lower outside.table security;
      })
      rules
