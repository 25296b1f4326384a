-- ===== src/Tabs/Parts.antt =====
-- Lists of tabs and of ids, parted where the deletion of a tab parts them.
use vair.Base.{
  ℕ, suc, ◌+◌, ◌≤◌, ◌≡◌, inl, inr, refl, sym, ap, ◌∙◌, true, false, not, List, [], ◌∷◌, ◌++◌, none,
  some, Option-cases, String, ltb, arith, Bool-cases, length, length-append, take, drop, take_all,
  drop_all, select, subst,
}
use vair.Table.{◌===◌, ===_iff}
use vair.Tabs.{Tab, find_tab, index_of_id, insert_at}

-- Where the first tab of an id stands.
pub find_tab_lem :
    (ts : List Tab) (id : String) (i pos : ℕ) (t : Tab)
    → find_tab ts id i ≡ some (t, pos)
    → (front : List Tab) × (back : List Tab) × (ts ≡ front ++ t ∷ back)
      × (pos ≡ i + length front)
      × (t.id ≡ id)
unfolding find_tab
find_tab_lem [] id i pos t h = cc
find_tab_lem (x ∷ ts) id i pos t h = elim (Bool-cases (x.id === id)) [
  | inl hit ↦
      let same : x ≡ t = ground (arith, hit, h) in
      let place : i ≡ pos = ground (arith, hit, h) in
      (
        [],
        ts,
        ap (λ y. y ∷ ts) same,
        omega arith,
        sym (ap (λ y. y.id) same) ∙ (===_iff x.id id).0 hit,
      )
  | inr miss ↦
      let later : find_tab ts id (suc i) ≡ some (t, pos) = ground (arith, miss, h) in
      let (front, back, parts, place, named) = find_tab_lem ts id (suc i) pos t later in
      (x ∷ front, back, ap (λ r. x ∷ r) parts, omega arith, named)
]

pub insert-parts {ℓ} :
    {A : Type ℓ} (front : List A) (x : A) (back : List A)
    → insert_at (front ++ back) (length front) x ≡ front ++ x ∷ back
insert-parts front x back =
    let inside : ltb (length (front ++ back)) (length front) ≡ false =
      ground (arith, length-append front back) in
    rw (inside, take_all front back, drop_all front back) refl

pub remove_parts {ℓ} :
    {A : Type ℓ} (front : List A) (x : A) (back : List A)
    → take (length front) (front ++ x ∷ back) ++ drop (suc (length front)) (front ++ x ∷ back)
      ≡ front ++ back
remove_parts [] x back = refl
remove_parts (y ∷ front) x back = ap (λ r. y ∷ r) (remove_parts front x back)

-- The other ids of a list, and how often it has an id.
abbrev pub others : List String → String → List String
others ts id = select (λ t. not (t === id)) ts

abbrev pub copies : List String → String → ℕ
copies ts id = length (select (λ t. t === id) ts)

pub others_all : (ts : List String) (id : String) → copies ts id ≡ 0 → others ts id ≡ ts
others_all [] id h = refl
others_all (t ∷ ts) id h = elim (Bool-cases (t === id)) [
  | inl hit ↦ absurd (ground (arith, hit, h))
  | inr miss ↦ rw miss (ap (λ r. t ∷ r) (others_all ts id (ground (arith, miss, h))))
]

pub others_parts :
    (front : List String) (id : String) (back : List String)
    → copies front id ≡ 0
    → copies (front ++ id ∷ back) id ≤ 1
    → others (front ++ id ∷ back) id ≡ front ++ back
others_parts [] id back none_before once =
    let self : id === id ≡ true = (===_iff id id).1 refl in
    rw self (others_all back id (ground (arith, self, once)))
others_parts (t ∷ front) id back none_before once = elim (Bool-cases (t === id)) [
  | inl hit ↦ absurd (ground (arith, hit, none_before))
  | inr miss ↦ rw miss (
      ap (λ r. t ∷ r)
        (others_parts front id back (ground (arith, miss, none_before))
          (ground (arith, miss, once))))
]

pub index_of_id-none :
    (ts : List String) (id : String) → index_of_id ts id ≡ none → copies ts id ≡ 0
unfolding index_of_id
index_of_id-none [] id h = refl
index_of_id-none (t ∷ ts) id h = elim (Bool-cases (t === id)) [
  | inl hit ↦ absurd (ground (arith, hit, h))
  | inr miss ↦ elim (Option-cases (index_of_id ts id)) [
    | inl out ↦ rw miss (index_of_id-none ts id out)
    | inr (k, found) ↦ absurd (ground (arith, miss, found, h))
  ]
]

pub index_of_id-some :
    (ts : List String) (id : String) (k : ℕ)
    → index_of_id ts id ≡ some k
    → (front : List String) × (back : List String) × (ts ≡ front ++ id ∷ back)
      × (k ≡ length front)
      × (copies front id ≡ 0)
unfolding index_of_id
index_of_id-some [] id k h = cc
index_of_id-some (t ∷ ts) id k h = elim (Bool-cases (t === id)) [
  | inl hit ↦ ([], ts, ap (λ y. y ∷ ts) ((===_iff t id).0 hit), ground (arith, hit, h), refl)
  | inr miss ↦ elim (Option-cases (index_of_id ts id)) [
    | inl out ↦ absurd (ground (arith, miss, out, h))
    | inr (j, found) ↦
        let (front, back, parts, place, before) = index_of_id-some ts id j found in
        (
          t ∷ front,
          back,
          ap (λ r. t ∷ r) parts,
          ground (arith, miss, found, h, place),
          ground (arith, miss, before),
        )
  ]
]

pub others-length : (ts : List String) (id : String) → length (others ts id) ≤ length ts
others-length [] id = omega arith
others-length (t ∷ ts) id = ground (arith, others-length ts id)

pub others_long :
    (ts : List String) (id : String)
    → ltb (length (others ts id)) (length ts) ≡ false
    → others ts id ≡ ts
others_long [] id h = refl
others_long (t ∷ ts) id h = elim (Bool-cases (t === id)) [
  | inl hit ↦ absurd (ground (arith, hit, h, others-length ts id))
  | inr miss ↦ rw miss (ap (λ r. t ∷ r) (others_long ts id (ground (arith, miss, h))))
]

pub pool_parts :
    (front back ts : List String) (id : String) (k : ℕ)
    → ts ≡ front ++ id ∷ back
    → k ≡ length front
    → copies front id ≡ 0
    → copies ts id ≤ 1
    → insert_at (others ts id) k id ≡ ts
pool_parts front back ts id k parts place before once =
    let rest = others_parts front id back before (subst (λ l. copies l id ≤ 1) parts once) in
    let whole : insert_at (others (front ++ id ∷ back) id) (length front) id ≡ front ++ id ∷ back =
      rw rest (insert-parts front id back) in
    subst (λ l. insert_at (others l id) k id ≡ l) (sym parts)
      (subst (λ n. insert_at (others (front ++ id ∷ back) id) n id ≡ front ++ id ∷ back) (sym place)
        whole)

pub tabs_parts :
    (front back ts : List Tab) (t : Tab) (pos : ℕ)
    → ts ≡ front ++ t ∷ back
    → pos ≡ length front
    → insert_at (take pos ts ++ drop (suc pos) ts) pos t ≡ ts
tabs_parts front back ts t pos parts place =
    let whole : insert_at
          (take (length front) (front ++ t ∷ back) ++ drop (suc (length front)) (front ++ t ∷ back))
          (length front) t
        ≡ front ++ t ∷ back =
      ap (λ l. insert_at l (length front) t) (remove_parts front t back)
      ∙ insert-parts front t back in
    subst (λ l. insert_at (take pos l ++ drop (suc pos) l) pos t ≡ l) (sym parts)
      (subst
        (λ n.
          insert_at (take n (front ++ t ∷ back) ++ drop (suc n) (front ++ t ∷ back)) n t
          ≡ front ++ t ∷ back)
        (sym place) whole)
