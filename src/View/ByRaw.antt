-- ===== src/View/ByRaw.antt =====
-- core/memstore.go: `memEntryByRaw`, a configuration found again by its text or by its body.
-- The tabs are in the order in which the loop over the map meets them.
use vair.Base.{
  ℕ, ◌≡◌, refl, inl, inr, Bool, true, false, ◌||◌, List, [], ◌∷◌, Option, none, some, String,
  if◌then◌else◌, same, is_empty, Bool-cases,
}
use vair.Table.{◌===◌}
use vair.View.{Entry, Outside}

unfoldable pub first_with : (Entry → Bool) → List Entry → Option Entry
first_with p [] = none
first_with p (e ∷ es) = let rest = first_with p es in if p e then some e else rest

abbrev pub found_in : String → Option Entry → Option (Entry × String)
found_in tab none = none
found_in tab (some e) = some (e, tab)

abbrev pub or_else_found :
    Option (Entry × String) → Option (Entry × String) → Option (Entry × String)
or_else_found (some r) next = some r
or_else_found none next = next

abbrev pub entries_of : List (String × List Entry) → String → List Entry
entries_of [] tab = []
entries_of ((t, es) ∷ tabs) tab = if t === tab then es else entries_of tabs tab

unfoldable pub first_in_tabs : (Entry → Bool) → List (String × List Entry) → Option (Entry × String)
unfolding first_with
first_in_tabs p [] = none
first_in_tabs p ((t, es) ∷ tabs) =
    or_else_found (found_in t (first_with p es)) (first_in_tabs p tabs)

-- The tab that is preferred, where there is one, and then all.
unfoldable pub search_tabs :
    (Entry → Bool) → List (String × List Entry) → String → Option (Entry × String)
unfolding first_in_tabs
search_tabs p tabs prefer =
    or_else_found
      (if prefer === "" then none else found_in prefer (first_with p (entries_of tabs prefer)))
      (first_in_tabs p tabs)

unfoldable pub mem_entry_by_raw :
    Outside → List (String × List Entry) → String → List ℕ → Option (Entry × String)
unfolding search_tabs
mem_entry_by_raw outside tabs prefer raw =
    or_else_found (search_tabs (λ e. same e.raw raw) tabs prefer) (
      if is_empty (outside.node_body raw)
      then none
      else search_tabs (λ e. same (outside.node_body e.raw) (outside.node_body raw)) tabs prefer)

abbrev pub holds : (Entry → Bool) → List Entry → Bool
holds p [] = false
holds p (e ∷ es) = p e || holds p es

abbrev pub is_found {ℓ} : {A : Type ℓ} → Option A → Bool
is_found none = false
is_found (some a) = true

abbrev pub holds_in_tabs : (Entry → Bool) → List (String × List Entry) → Bool
holds_in_tabs p [] = false
holds_in_tabs p ((t, es) ∷ tabs) = holds p es || holds_in_tabs p tabs

-- What is found passes the test.
abbrev pub passes : (Entry → Bool) → Option (Entry × String) → Bool
passes p none = true
passes p (some (e, t)) = p e

first_with-found : (p : Entry → Bool) (es : List Entry) → is_found (first_with p es) ≡ holds p es
unfolding first_with
first_with-found p [] = refl
first_with-found p (e ∷ es) = elim (Bool-cases (p e)) [
  | inl h ↦ rw h refl
  | inr h ↦ rw h (first_with-found p es)
]

or_else_found-found :
    (a b : Option (Entry × String)) → is_found (or_else_found a b) ≡ (is_found a || is_found b)
or_else_found-found none b = refl
or_else_found-found (some r) b = refl

found_in-found : (t : String) (o : Option Entry) → is_found (found_in t o) ≡ is_found o
found_in-found t none = refl
found_in-found t (some e) = refl

first_in_tabs-found :
    (p : Entry → Bool) (tabs : List (String × List Entry))
    → is_found (first_in_tabs p tabs) ≡ holds_in_tabs p tabs
unfolding first_in_tabs
first_in_tabs-found p [] = refl
first_in_tabs-found p ((t, es) ∷ tabs) =
    rw
      (
        or_else_found-found (found_in t (first_with p es)) (first_in_tabs p tabs),
        found_in-found t (first_with p es),
        first_with-found p es,
        first_in_tabs-found p tabs,
      )
      refl
