-- ===== src/Base/Json.antt =====
-- Decoded JSON, and what Go does with a map that stands for an object.
use Prim.Native.Nat.{ℕ}
use Prim.Native.String.{String}
use mathlib.Core.Path.{◌≡◌, refl, ap}
use mathlib.Core.Bool.{Bool, true, false}
use mathlib.Core.List.{List, [], ◌∷◌}
use mathlib.Core.Option.{Option, none, some}
use mathlib.Core.Logic.{inl, inr}
use native.Mathlib.Omega.{arith}
use vair.Base.Select.{ℤ, same, same_eq, same_refl}
use vair.Base.Tests.{if◌then◌else◌, Bool-cases, codes}

-- A number is there with the integer that `int(f)` makes of it, since nothing else of it is read.
-- An object has each of its keys once; the list is in the order in which a loop meets them.
mutual
  pub data Json : Type 0 where
    null : Json
    boolean : Bool → Json
    number : ℤ → Json
    text : List ℕ → Json
    array : Items → Json
    object : Fields → Json

  pub data Items : Type 0 where
    no_items : Items
    item : Json → Items → Items

  pub data Fields : Type 0 where
    no_fields : Fields
    field : List ℕ → Json → Fields → Fields

-- `m[key]`.
unfoldable pub get : List ℕ → Fields → Option Json
get key no_fields = none
get key (field k v rest) = if same k key then some v else get key rest

-- `m[key] = v`.
unfoldable pub put : List ℕ → Json → Fields → Fields
put key v no_fields = field key v no_fields
put key v (field k w rest) = if same k key then field key v rest else field k w (put key v rest)

-- A literal, and a map written out.
abbrev pub word : String → Json
word s = text (codes s)

abbrev pub entries : List (String × Json) → Fields
entries [] = no_fields
entries ((k, v) ∷ rest) = field (codes k) v (entries rest)

-- `m[key] = v` under a test.
abbrev pub put_if : Bool → String → Json → Fields → Fields
put_if true key v m = put (codes key) v m
put_if false key v m = m

abbrev pub items : List Json → Items
items [] = no_items
items (v ∷ vs) = item v (items vs)

-- A slice of strings.
abbrev pub texts : List (List ℕ) → Items
texts [] = no_items
texts (s ∷ ss) = item (text s) (texts ss)

-- `append(a, b...)`.
unfoldable pub append_items : Items → Items → Items
append_items no_items vs = vs
append_items (item u us) vs = item u (append_items us vs)

-- `m, _ := v.(map[string]interface{})`.
abbrev pub object_of : Option Json → Option Fields
object_of (some (object m)) = some m
object_of _ = none

abbrev pub text_of : Option Json → Option (List ℕ)
text_of (some (text s)) = some s
text_of _ = none

apart : (j k key : List ℕ) → same j k ≡ false → same j key ≡ true → same k key ≡ false
apart j k key e h = elim (Bool-cases (same k key)) [
  | inr f ↦ f
  | inl f ↦
      let equal : same j k ≡ true = rw (same_eq j key h, same_eq k key f) (same_refl key) in
      absurd (ground (arith, e, equal))
]

if_again :
    {A : Type 0} (b : Bool) (x y z : A)
    → (if b then x else z) ≡ (if b then x else if b then y else z)
if_again true x y z = refl
if_again false x y z = refl

pub get-put :
    (key k : List ℕ) (v : Json) (m : Fields)
    → get key (put k v m) ≡ (if same k key then some v else get key m)
unfolding get put
get-put key k v no_fields = refl
get-put key k v (field j w rest) = elim (Bool-cases (same j k)) [
  | inl e ↦ rw (e, same_eq j k e) (if_again (same k key) (some v) (some w) (get key rest))
  | inr e ↦ rw (e, get-put key k v rest) (ground (arith, apart j k key e))
]

pub get-put_self : (k : List ℕ) (v : Json) (m : Fields) → get k (put k v m) ≡ some v
get-put_self k v m = rw (get-put k k v m, same_refl k) refl

pub get-put_other :
    (key k : List ℕ) (v : Json) (m : Fields) → same k key ≡ false → get key (put k v m) ≡ get key m
get-put_other key k v m h = rw (get-put key k v m, h) refl

-- The object under a key; it is empty where there is none.
abbrev pub inner_of : Option Json → Fields
inner_of (some (object m)) = m
inner_of _ = no_fields

abbrev pub inner : List ℕ → Fields → Fields
inner k m = inner_of (get k m)

pub inner-put : (k : List ℕ) (v m : Fields) → inner k (put k (object v) m) ≡ v
inner-put k v m = ap inner_of (get-put_self k (object v) m)

-- `delete(m, key)`.
unfoldable pub remove : List ℕ → Fields → Fields
remove key no_fields = no_fields
remove key (field k v rest) = if same k key then rest else field k v (remove key rest)
