-- ===== src/View/Filter/Columns.antt =====
-- What the loop over the filter's terms decides.
use vair.Base.{
  ℕ, ◌≡◌, refl, sym, ◌∙◌, ap, inl, inr, arith, Bool, true, false, ◌&&◌, ◌||◌, List, [], ◌∷◌,
  if◌then◌else◌, same, same_eq, same_refl, Bool-cases,
}
use vair.View.{Outside, Key}
use vair.View.Filter.{
  Term, term_hit_key, is_satisfied, put, satisfy, satisfy_all, all_satisfied, filter_terms_match,
}

abbrev pub any_term : (Term → Bool) → List Term → Bool
any_term p [] = false
any_term p (t ∷ ts) = p t || any_term p ts

abbrev pub each_term : (Term → Bool) → List Term → Bool
each_term p [] = true
each_term p (t ∷ ts) = p t && each_term p ts

-- A term of that column that matches.
abbrev pub column_hit : (Term → Bool) → List ℕ → List Term → Bool
column_hit hits key ts = any_term (λ u. same u.key key && hits u) ts

abbrev Map : Type 0
Map = List (List ℕ × Bool)

abbrev has_key : List ℕ → Map → Bool
has_key key [] = false
has_key key ((k, ok) ∷ rest) = same k key || has_key key rest

abbrev IsMap : Map → Type 0
IsMap [] = Unit {0}
IsMap ((k, ok) ∷ rest) = (has_key k rest ≡ false) × IsMap rest

is_satisfied-put :
    (key k : List ℕ) (b : Bool) (m : Map)
    → is_satisfied key (put k b m) ≡ (if same k key then b else is_satisfied key m)
is_satisfied-put key k b [] = refl
is_satisfied-put key k b ((j, ok) ∷ rest) = elim (Bool-cases (same j k)) [
  | inl e ↦ rw (e, same_eq j k e) (ground arith)
  | inr e ↦ elim (Bool-cases (same j key)) [
    | inl f ↦ let other : same k key ≡ false = apart e f in rw (e, f, other) refl
    | inr f ↦ rw (e, f) (is_satisfied-put key k b rest)
  ]
]
  where
    apart : same j k ≡ false → same j key ≡ true → same k key ≡ false
    apart e f = elim (Bool-cases (same k key)) [
      | inl g ↦ absurd (ground (arith, e, same_refl k, same_eq j key f, same_eq k key g))
      | inr g ↦ g
    ]

has_key-put :
    (key k : List ℕ) (b : Bool) (m : Map) → has_key key (put k b m) ≡ (same k key || has_key key m)
has_key-put key k b [] = refl
has_key-put key k b ((j, ok) ∷ rest) = elim (Bool-cases (same j k)) [
  | inl e ↦ rw (e, same_eq j k e) (ground arith)
  | inr e ↦ rw (e, has_key-put key k b rest) (ground arith)
]

apart_sym : (j k : List ℕ) → same j k ≡ false → same k j ≡ false
apart_sym j k e = elim (Bool-cases (same k j)) [
  | inl g ↦ absurd (ground (arith, e, same_refl k, same_eq k j g))
  | inr g ↦ g
]

put-IsMap : (k : List ℕ) (b : Bool) (m : Map) → IsMap m → IsMap (put k b m)
put-IsMap k b [] h = (refl, tt)
put-IsMap k b ((j, ok) ∷ rest) h = elim (Bool-cases (same j k)) [
  | inl e ↦ rw e h
  | inr e ↦ rw e (
    has_key-put j k b rest ∙ ap (λ x. x || has_key j rest) (apart_sym j k e) ∙ h.0,
    put-IsMap k b rest h.1,
  )
]

satisfied-has_key : (key : List ℕ) (m : Map) → is_satisfied key m ≡ true → has_key key m ≡ true
satisfied-has_key key [] h = h
satisfied-has_key key ((k, ok) ∷ rest) h = elim (Bool-cases (same k key)) [
  | inl e ↦ rw e refl
  | inr e ↦
      let h2 : is_satisfied key rest ≡ true = ground (arith, h, e) in
      ground (arith, satisfied-has_key key rest h2)
]

module _ (hits : Term → Bool) where
  satisfy-IsMap : (m : Map) (t : Term) → IsMap m → IsMap (satisfy hits m t)
  satisfy-IsMap m t h = elim (Bool-cases (is_satisfied t.key m)) [
    | inl e ↦ rw e h
    | inr e ↦ rw e (put-IsMap t.key (hits t) m h)
  ]

  is_satisfied-satisfy :
      (key : List ℕ) (m : Map) (t : Term)
      → is_satisfied key (satisfy hits m t) ≡ (is_satisfied key m || (same t.key key && hits t))
  is_satisfied-satisfy key m t = elim (Bool-cases (is_satisfied t.key m)) [
    | inl e ↦ elim (Bool-cases (same t.key key)) [
      | inl f ↦ rw e (ground (arith, e, f, same_eq t.key key f))
      | inr f ↦ rw (e, f) (ground arith)
    ]
    | inr e ↦
        rw (e, is_satisfied-put key t.key (hits t) m)
          (elim (Bool-cases (same t.key key)) [
            | inl f ↦ ground (arith, e, f, same_eq t.key key f)
            | inr f ↦ rw f (ground arith)
          ])
  ]

  has_key-satisfy :
      (key : List ℕ) (m : Map) (t : Term)
      → has_key key (satisfy hits m t) ≡ (has_key key m || same t.key key)
  has_key-satisfy key m t = elim (Bool-cases (is_satisfied t.key m)) [
    | inl e ↦ rw e (elim (Bool-cases (same t.key key)) [
      | inl f ↦ ground (arith, f, same_eq t.key key f, satisfied-has_key t.key m e)
      | inr f ↦ rw f (ground arith)
    ])
    | inr e ↦ rw (e, has_key-put key t.key (hits t) m) (ground arith)
  ]

  satisfy_all-satisfied :
      (key : List ℕ) (m : Map) (ts : List Term)
      → is_satisfied key (satisfy_all hits m ts) ≡ (is_satisfied key m || column_hit hits key ts)
  unfolding satisfy_all
  satisfy_all-satisfied key m [] = ground arith
  satisfy_all-satisfied key m (t ∷ ts) =
      rw (satisfy_all-satisfied key (satisfy hits m t) ts, is_satisfied-satisfy key m t)
        (ground arith)

  satisfy_all-has_key :
      (key : List ℕ) (m : Map) (ts : List Term)
      → has_key key (satisfy_all hits m ts) ≡ (has_key key m || any_term (λ t. same t.key key) ts)
  unfolding satisfy_all
  satisfy_all-has_key key m [] = ground arith
  satisfy_all-has_key key m (t ∷ ts) =
      rw (satisfy_all-has_key key (satisfy hits m t) ts, has_key-satisfy key m t) (ground arith)

  satisfy_all-IsMap : (m : Map) (ts : List Term) → IsMap m → IsMap (satisfy_all hits m ts)
  unfolding satisfy_all
  satisfy_all-IsMap m [] h = h
  satisfy_all-IsMap m (t ∷ ts) h = satisfy_all-IsMap (satisfy hits m t) ts (satisfy-IsMap m t h)

all_satisfied-at :
    (m : Map) (key : List ℕ)
    → all_satisfied m ≡ true
    → has_key key m ≡ true
    → is_satisfied key m ≡ true
all_satisfied-at [] key a h = h
all_satisfied-at ((k, ok) ∷ rest) key a h = elim (Bool-cases (same k key)) [
  | inl e ↦ rw e (ground (arith, a))
  | inr e ↦
      let a2 : all_satisfied rest ≡ true = ground (arith, a) in
      let h2 : has_key key rest ≡ true = ground (arith, h, e) in
      rw e (all_satisfied-at rest key a2 h2)
]

all_satisfied-each :
    (m : Map)
    → IsMap m
    → ((key : List ℕ) → has_key key m ≡ true → is_satisfied key m ≡ true)
    → all_satisfied m ≡ true
all_satisfied-each [] u f = refl
all_satisfied-each ((k, ok) ∷ rest) u f =
    let here_ok : is_satisfied k ((k, ok) ∷ rest) ≡ true =
      f k (ap (λ b. b || has_key k rest) (same_refl k)) in
    let head : ok ≡ true = ground (arith, here_ok, same_refl k) in
    rw (head) (
      all_satisfied-each rest u.1 (λ key h. elim (Bool-cases (same k key)) [
        | inl e ↦ absurd (ground (arith, h, u.0, same_eq k key e))
        | inr e ↦
            let both : is_satisfied key ((k, ok) ∷ rest) ≡ true = f key (ground (arith, h)) in
            ground (arith, both, e)
      ]))

module _ (q : List ℕ → Bool) where
  each_term-keys :
      (ts : List Term)
      → ((key : List ℕ) → any_term (λ t. same t.key key) ts ≡ true → q key ≡ true)
      → each_term (λ t. q t.key) ts ≡ true
  each_term-keys [] f = refl
  each_term-keys (t ∷ ts) f =
      let head : q t.key ≡ true =
        f t.key (ap (λ b. b || any_term (λ u. same u.key t.key) ts) (same_refl t.key)) in
      rw head (each_term-keys ts (λ key h. f key (ground (arith, h))))

  keys-each_term :
      (ts : List Term) (key : List ℕ)
      → each_term (λ t. q t.key) ts ≡ true
      → any_term (λ t. same t.key key) ts ≡ true
      → q key ≡ true
  keys-each_term [] key e h = absurd (ground (arith, h))
  keys-each_term (t ∷ ts) key e h = elim (Bool-cases (same t.key key)) [
    | inl f ↦ ap q (sym (same_eq t.key key f)) ∙ ground (arith, e)
    | inr f ↦
        let e2 : each_term (λ u. q u.key) ts ≡ true = ground (arith, e) in
        let h2 : any_term (λ u. same u.key key) ts ≡ true = ground (arith, h, f) in
        keys-each_term ts key e2 h2
  ]

same_truth : (a b : Bool) → (a ≡ true → b ≡ true) → (b ≡ true → a ≡ true) → a ≡ b
same_truth true b f g = sym (f refl)
same_truth false true f g = g refl
same_truth false false f g = refl

-- A row passes the filter exactly when for each term some term of the same column matches: one match
-- is enough within a column, and every column that the filter names needs one.
pub filter_terms_match-columns :
    (outside : Outside) (terms : List Term) (k : Key)
    → filter_terms_match outside terms k
      ≡ each_term (λ t. column_hit (λ u. term_hit_key outside k u.key u.val) t.key terms) terms
unfolding filter_terms_match
filter_terms_match-columns outside terms k =
    let hits = λ (u : Term). term_hit_key outside k u.key u.val in
    let run = satisfy_all hits [] terms in
    let q = λ (key : List ℕ). column_hit hits key terms in
    same_truth (all_satisfied run) (each_term (λ t. q t.key) terms)
      (λ a. each_term-keys q terms (λ key h.
        sym (satisfy_all-satisfied hits key [] terms)
        ∙ all_satisfied-at run key a (satisfy_all-has_key hits key [] terms ∙ h)))
      (λ e. all_satisfied-each run (satisfy_all-IsMap hits [] terms tt) (λ key h.
        satisfy_all-satisfied hits key [] terms
        ∙ keys-each_term q terms key e (sym (satisfy_all-has_key hits key [] terms) ∙ h)))
