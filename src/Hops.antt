-- ===== src/Hops.antt =====
-- What the chains of both engines share (core/protocols.go): the tags of the hops, and how an
-- engine goes from a hop to the one that it is dialled through.
use mathlib.Core.Option
use vair.Base.{
  cons_some, ℕ, zero, suc, ◌+◌, ◌≡◌, ◌≢◌, refl, sym, ap, ◌∙◌, Bool, true, false, List, [], ◌∷◌,
  ◌++◌, map, Option, none, some, codes, same, same_eq, same_refl, if◌then◌else◌, ◌==◌, arith,
  Bool-cases, inl, inr, length, get_elem?, zero-add, suc-add, append-nil,
}
use native.Mathlib.Nat.{add-zero}
use vair.Base.Text.{reverse_onto}
use vair.Base.Json.{Json, text, Fields, get, put, get-put}

-- `tagFor`.
unfoldable pub tag_for : (ℕ → List ℕ) → ℕ → ℕ → List ℕ
tag_for show last i = if i == last then codes "proxy" else codes "hop" ++ show i

abbrev pub text_is : List ℕ → Option Json → Bool
text_is t (some (text s)) = same s t
text_is t _ = false

-- An outbound has the tag.
unfoldable pub has_tag : List ℕ → Fields → Bool
unfolding get
has_tag t m = text_is t (get (codes "tag") m)

unfoldable pub find_tag : List ℕ → List Fields → Option Fields
unfolding has_tag
find_tag t [] = none
find_tag t (m ∷ ms) = if has_tag t m then some m else find_tag t ms

-- The outbounds that a connection to a tag goes through, the last one first, down to one that is
-- dialled directly: `next` is the tag that an outbound is dialled through. There is none where a
-- tag is no outbound's, or where the walk is not over after the rounds that it has.
unfoldable pub dial_path :
    (Fields → Option (List ℕ)) → List Fields → ℕ → List ℕ → Option (List Fields)
unfolding find_tag
dial_path next outs zero t = none
dial_path next outs (suc k) t = elim (find_tag t outs) [
  | none ↦ none
  | some m ↦ elim (next m) [
    | none ↦ some (m ∷ [])
    | some d ↦ cons_some (some m) (dial_path next outs k d)
  ]
]

-- What the outbounds on the way are, by name.
abbrev pub named_path :
    {Name : Type 0}
    → (Fields → Name)
    → (Fields → Option (List ℕ))
    → List Fields
    → ℕ
    → List ℕ
    → Option (List Name)
named_path name next outs k t = Option.map (map name) (dial_path next outs k t)

pub has_tag-put : (t s : List ℕ) (m : Fields) → has_tag t (put (codes "tag") (text s) m) ≡ same s t
unfolding has_tag
has_tag-put t s m = ap (text_is t) (get-put (codes "tag") (codes "tag") (text s) m)

pub has_tag-put_other :
    (t k : List ℕ) (v : Json) (m : Fields)
    → same k (codes "tag") ≡ false
    → has_tag t (put k v m) ≡ has_tag t m
unfolding has_tag
has_tag-put_other t k v m h =
    ap (text_is t) (get-put (codes "tag") k v m)
    ∙ ap (λ (b : Bool). text_is t (if b then some v else get (codes "tag") m)) h

abbrev pub IsInjective : (ℕ → List ℕ) → Type 0
IsInjective show = (i j : ℕ) → show i ≡ show j → i ≡ j

pub tag_for_apart :
    (show : ℕ → List ℕ)
    → IsInjective show
    → (last i j : ℕ) → i ≢ j
    → same (tag_for show last i) (tag_for show last j) ≡ false
unfolding tag_for
tag_for_apart show inj last i j h = elim (Bool-cases (same (show i) (show j))) [
  | inl e ↦ absurd (h (inj i j (same_eq (show i) (show j) e)))
  | inr e ↦ ground arith
]

-- The first outbound with a tag is the one that has it, where those before it do not.
pub find_tag-hit :
    (t : List ℕ) (m : Fields) (ms : List Fields) → has_tag t m ≡ true → find_tag t (m ∷ ms) ≡ some m
unfolding find_tag
find_tag-hit t m ms h = rw h refl

pub find_tag-miss :
    (t : List ℕ) (m : Fields) (ms : List Fields)
    → has_tag t m ≡ false
    → find_tag t (m ∷ ms) ≡ find_tag t ms
unfolding find_tag
find_tag-miss t m ms h = rw h refl

pub tag_for_last : (show : ℕ → List ℕ) (last : ℕ) → tag_for show last last ≡ codes "proxy"
unfolding tag_for
tag_for_last show last = ground arith

pub find_tag-skip :
    (t : List ℕ) (xs ys : List Fields)
    → find_tag t xs ≡ none
    → find_tag t (xs ++ ys) ≡ find_tag t ys
unfolding find_tag
find_tag-skip t [] ys h = refl
find_tag-skip t (x ∷ xs) ys h = elim (Bool-cases (has_tag t x)) [
  | inl e ↦ absurd (some_none (rw e at h))
  | inr e ↦ rw e (find_tag-skip t xs ys (rw e at h))
]
  where
    some_none : {m : Fields} → some m ≢ none
    some_none e = cc

-- An outbound without the tag changes nothing.
pub find_tag-without :
    (t : List ℕ) (xs ys : List Fields) (m : Fields)
    → has_tag t m ≡ false
    → find_tag t (xs ++ m ∷ ys) ≡ find_tag t (xs ++ ys)
unfolding find_tag
find_tag-without t [] ys m h = find_tag-miss t m ys h
find_tag-without t (x ∷ xs) ys m h =
    ap (λ r. if has_tag t x then some x else r) (find_tag-without t xs ys m h)

pub find_tag-found :
    (t : List ℕ) (xs ys : List Fields) (m : Fields)
    → find_tag t xs ≡ some m
    → find_tag t (xs ++ ys) ≡ some m
unfolding find_tag
find_tag-found t [] ys m h = absurd (none_some h)
  where
    none_some : {m : Fields} → none ≢ some m
    none_some e = cc
find_tag-found t (x ∷ xs) ys m h = elim (Bool-cases (has_tag t x)) [
  | inl e ↦ rw e (rw e at h)
  | inr e ↦ rw e (find_tag-found t xs ys m (rw e at h))
]

pub dial_path-stop :
    (next : Fields → Option (List ℕ)) (outs : List Fields) (k : ℕ) (t : List ℕ) (m : Fields)
    → find_tag t outs ≡ some m
    → next m ≡ none
    → dial_path next outs (suc k) t ≡ some (m ∷ [])
unfolding dial_path
dial_path-stop next outs k t m f n = rw (f, dial_path) (rw (n, dial_path) refl)

pub dial_path-step :
    (next : Fields → Option (List ℕ)) (outs : List Fields) (k : ℕ) (t d : List ℕ) (m : Fields)
    → find_tag t outs ≡ some m
    → next m ≡ some d
    → dial_path next outs (suc k) t ≡ cons_some (some m) (dial_path next outs k d)
unfolding dial_path
dial_path-step next outs k t d m f n = rw (f, dial_path) (rw (n, dial_path) refl)

pub map-cons_some :
    {Name : Type 0} (name : Fields → Name) (m : Fields) (o : Option (List Fields))
    → Option.map (map name) (cons_some (some m) o)
      ≡ cons_some (some (name m)) (Option.map (map name) o)
map-cons_some name m none = refl
map-cons_some name m (some ms) = refl

get_elem?-reverse_onto :
    {A : Type 0} (done ys : List A) (k : ℕ)
    → get_elem? (reverse_onto done ys) (length done + k) ≡ get_elem? ys k
get_elem?-reverse_onto [] ys k = ap (get_elem? ys) (zero-add k)
get_elem?-reverse_onto (d ∷ done) ys k =
    let index : suc (length done) + k ≡ length done + suc k = omega arith in
    rw index (get_elem?-reverse_onto done (d ∷ ys) (suc k))

second_of :
    {A : Type 0} (done ys : List A) (d y : A)
    → get_elem? ys 0 ≡ some y
    → get_elem? (reverse_onto done (d ∷ ys)) (suc (length done)) ≡ some y
second_of done ys d y h =
    let index : suc (length done) ≡ length done + 1 = omega arith in
    rw index (get_elem?-reverse_onto done (d ∷ ys) 1 ∙ h)

reverse_twice :
    {A : Type 0} (xs ys zs : List A)
    → reverse_onto (reverse_onto xs ys) zs ≡ reverse_onto ys (xs ++ zs)
reverse_twice [] ys zs = refl
reverse_twice (x ∷ xs) ys zs = reverse_twice xs (x ∷ ys) zs

length-reverse_onto :
    {A : Type 0} (xs ys : List A) → length (reverse_onto xs ys) ≡ length xs + length ys
length-reverse_onto [] ys = omega arith
length-reverse_onto (x ∷ xs) ys = omega (arith, length-reverse_onto xs (x ∷ ys))

-- A chain in which each hop is dialled through the one before it: `hop i ob` is the outbound `ob`
-- as hop `i`, and `start` is what lies before the first hop.
module _ {Name : Type 0} (next : Fields → Option (List ℕ)) (outs : List Fields) (tag : ℕ → List ℕ)
    (name : Fields → Name) (hop : ℕ → Fields → Fields) (raws : List Fields) where
  abbrev pub Linked : Type 0
  Linked =
      (i : ℕ) (ob : Fields)
      → get_elem? raws (suc i) ≡ some ob
      → (find_tag (tag (suc i)) outs ≡ some (hop (suc i) ob))
        × (next (hop (suc i) ob) ≡ some (tag i))
        × (name (hop (suc i) ob) ≡ name ob)

  abbrev pub Starts : ℕ → List Name → Type 0
  Starts extra start =
      (ob : Fields)
      → get_elem? raws 0 ≡ some ob
      → named_path name next outs (suc extra) (tag 0) ≡ some (name ob ∷ start)

  -- The path from the hop behind `done`, which holds the hops before it, the last one first.
  pub dial_path-hops :
      (extra : ℕ) (start : List Name)
      → Linked
      → Starts extra start
      → (done : List Fields) (ob : Fields) (rest : List Fields)
      → raws ≡ reverse_onto done (ob ∷ rest)
      → named_path name next outs (suc (length done + extra)) (tag (length done))
        ≡ some (name ob ∷ map name done ++ start)
  dial_path-hops extra start linked starts [] ob rest h =
      let first : get_elem? raws 0 ≡ some ob = rw h refl in rw (zero-add extra) (starts ob first)
  dial_path-hops extra start linked starts (d ∷ done) ob rest h =
      let place : get_elem? raws (suc (length done)) ≡ some ob =
        rw h (second_of done (ob ∷ rest) d ob refl) in
      let (found, through, named) = linked (length done) ob place in
      let before = dial_path-hops extra start linked starts done d (ob ∷ rest) h in
      let step =
        dial_path-step next outs (suc (length done + extra)) (tag (suc (length done)))
          (tag (length done)) (hop (suc (length done)) ob) found through in
      rw
        (
          suc-add (length done) extra,
          step,
          map-cons_some name (hop (suc (length done)) ob)
              (dial_path next outs (suc (length done + extra)) (tag (length done))),
          before,
          named,
        )
        refl

  dial_path-reversed :
      (extra : ℕ) (start : List Name)
      → Linked
      → Starts extra start
      → (rev : List Fields) (n : ℕ) → reverse_onto raws [] ≡ rev
      → length rev ≡ suc n
      → named_path name next outs (suc n + extra) (tag n) ≡ some (map name rev ++ start)
  dial_path-reversed extra start linked starts [] n e l = absurd (omega (arith, l))
  dial_path-reversed extra start linked starts (z ∷ done) n e l =
      let back : raws ≡ reverse_onto (reverse_onto raws []) [] =
        sym (reverse_twice raws [] [] ∙ append-nil raws) in
      let whole : raws ≡ reverse_onto done (z ∷ []) =
        back ∙ ap (λ (r : List Fields). reverse_onto r []) e in
      let count : n ≡ length done = omega (arith, l) in
      rw (count, suc-add (length done) extra)
        (dial_path-hops extra start linked starts done z [] whole)

  -- The whole path, from the last hop.
  pub dial_path-all :
      (extra : ℕ) (start : List Name)
      → Linked
      → Starts extra start
      → (ob : Fields) (obs : List Fields) → raws ≡ ob ∷ obs
      → named_path name next outs (length raws + extra) (tag (length obs))
        ≡ some (map name (reverse_onto raws []) ++ start)
  dial_path-all extra start linked starts ob obs h =
      let size : length raws ≡ suc (length obs) = ap (length {A = Fields}) h in
      let same_size : length (reverse_onto raws []) ≡ suc (length obs) =
        omega (arith, length-reverse_onto raws [], size) in
      rw size (
        dial_path-reversed extra start linked starts (reverse_onto raws []) (length obs) refl
          same_size)

-- The hops of a chain, from hop `i` on.
abbrev pub hops_from : (ℕ → Fields → Fields) → ℕ → List Fields → List Fields
hops_from hop i [] = []
hops_from hop i (ob ∷ obs) = hop i ob ∷ hops_from hop (suc i) obs

module _ (show : ℕ → List ℕ) (injective : IsInjective show) (last : ℕ) (hop : ℕ → Fields → Fields)
    (tagged : (t : List ℕ) (i : ℕ) (ob : Fields)
      → has_tag t (hop i ob) ≡ same (tag_for show last i) t) where
  pub find_tag-hops_from :
      (i k : ℕ) (obs : List Fields) (ob : Fields)
      → get_elem? obs k ≡ some ob
      → find_tag (tag_for show last (i + k)) (hops_from hop i obs) ≡ some (hop (i + k) ob)
  find_tag-hops_from i k [] ob h = absurd (none_some h)
    where
      none_some : {m : Fields} → none ≢ some m
      none_some e = cc
  find_tag-hops_from i zero (o ∷ obs) ob h =
      let equal : o ≡ ob = cc in
      let hit : has_tag (tag_for show last i) (hop i ob) ≡ true =
        tagged (tag_for show last i) i ob ∙ same_refl (tag_for show last i) in
      rw (equal, ← sym (add-zero i)) (find_tag-hit (tag_for show last i) (hop i ob) _ hit)
  find_tag-hops_from i (suc k) (o ∷ obs) ob h =
      let other : i ≢ i + suc k = λ e. omega arith in
      let miss =
        tagged (tag_for show last (i + suc k)) i o
        ∙ tag_for_apart show injective last i (i + suc k) other in
      let index : i + suc k ≡ suc i + k = omega arith in
      find_tag-miss (tag_for show last (i + suc k)) (hop i o) (hops_from hop (suc i) obs) miss
      ∙ rw index (find_tag-hops_from (suc i) k obs ob h)

  pub find_tag-hops_other :
      (t : List ℕ) (i : ℕ) (obs : List Fields)
      → ((j : ℕ) → same (tag_for show last j) t ≡ false)
      → find_tag t (hops_from hop i obs) ≡ none
  unfolding find_tag
  find_tag-hops_other t i [] h = refl
  find_tag-hops_other t i (o ∷ obs) h =
      find_tag-miss t (hop i o) (hops_from hop (suc i) obs) (tagged t i o ∙ h i)
      ∙ find_tag-hops_other t (suc i) obs h
