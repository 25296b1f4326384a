-- ===== src/View/Cache/Current.antt =====
-- An order found in the slot is that of the rows as they are.
use vair.Base.{
  Bool, true, if◌then◌else◌, ℕ, suc, ◌≤◌, ◌≡◌, refl, sym, ◌∙◌, ap, subst, inl, inr, arith, false,
  ◌&&◌, ◌||◌, List, [], ◌∷◌, ◌++◌, none, some, String, ◌==◌, same, same_eq, All, Bool-cases,
}
use vair.Table.{◌===◌, ===_iff, update_tab}
use vair.View.Cache.{
  Reader, looked, ordered, Slot, mem_invalidate, mem_cache_store, look_up, Step, changing,
  invalidating, announced, missing, ordering, storing, Reach, here, next, empty_slot,
}

map-All {ℓ κ μ} :
    {A : Type ℓ} (P : A → Type κ) (Q : A → Type μ)
    → ((a : A) → P a → Q a)
    → (xs : List A) → All P xs
    → All Q xs
map-All P Q f [] h = tt
map-All P Q f (x ∷ xs) h = (f x h.0, map-All P Q f xs h.1)

module _ {ℓ κ} {A : Type ℓ} (P : A → Type κ) where
  All-swap :
      (xs : List A) (x y : A) (ys : List A)
      → (P x → P y)
      → All P (xs ++ x ∷ ys)
      → All P (xs ++ y ∷ ys)
  All-swap [] x y ys f h = (f h.0, h.1)
  All-swap (z ∷ xs) x y ys f h = (h.0, All-swap xs x y ys f h.1)

  All-drop : (xs : List A) (x : A) (ys : List A) → All P (xs ++ x ∷ ys) → P x × All P (xs ++ ys)
  All-drop [] x ys h = h
  All-drop (z ∷ xs) x ys h = let (p, q) = All-drop xs x ys h.1 in (p, (h.0, q))

module _ (Rows : Type 0) (Order : Type 0) (compute : List ℕ → Rows → Order) where
  -- An order is that of the rows, unless the tab has changed with no call since.
  abbrev pub Fresh : Slot Rows Order → String → List ℕ → Order → Type 0
  Fresh s tab sig ord = s.changed tab ≡ false → ord ≡ compute sig (s.rows tab)

  abbrev pub Reads : Slot Rows Order → Reader Rows Order → Type 0
  Reads s (looked g tab sig) = g ≤ s.gen
  Reads s (ordered g tab sig ord) = (g ≤ s.gen) × (g ≡ s.gen → Fresh s tab sig ord)

  pub record IsCurrent (s : Slot Rows Order) : Type 0 where
    pub cached : (ord : Order) → s.cache_ord ≡ some ord → Fresh s s.cache_tab s.cache_sig ord
    pub reading : All (Reads s) s.readers

  Fresh-changing :
      (s : Slot Rows Order) (tab : String) (new : Rows) (t : String) (sig : List ℕ) (ord : Order)
      → Fresh s t sig ord
      → update_tab s.changed tab true t ≡ false
      → ord ≡ compute sig (update_tab s.rows tab new t)
  Fresh-changing s tab new t sig ord f w = elim (Bool-cases (t === tab)) [
    | inl e ↦ absurd (ground (arith, w, e))
    | inr e ↦ let still : s.changed t ≡ false = ground (arith, w, e) in rw e (f still)
  ]

  changing-IsCurrent :
      (s : Slot Rows Order) (tab : String) (new : Rows)
      → IsCurrent s
      → IsCurrent
          (record s { rows = update_tab s.rows tab new; changed = update_tab s.changed tab true })
  changing-IsCurrent s tab new c = record {
    cached = λ ord e. Fresh-changing s tab new s.cache_tab s.cache_sig ord (c.cached ord e);
    reading = map-All (Reads s) _ still s.readers c.reading;
  }
    where
      still :
          (r : Reader Rows Order)
          → Reads s r
          → Reads
              (record s {
                rows = update_tab s.rows tab new;
                changed = update_tab s.changed tab true;
              })
              r
      still (looked g t sig) h = h
      still (ordered g t sig ord) h = (h.0, λ e. Fresh-changing s tab new t sig ord (h.1 e))

  -- A bump of the count makes every order in the making one of the past.
  bumped-Reads :
      (s : Slot Rows Order) (u : Slot Rows Order)
      → u.gen ≡ suc s.gen
      → (r : Reader Rows Order) → Reads s r
      → Reads u r
  bumped-Reads s u e (looked g t sig) h = omega (arith, h, e)
  bumped-Reads s u e (ordered g t sig ord) h =
      (omega (arith, h.0, e), λ k. absurd (omega (arith, h.0, e, k)))

  -- What the slot keeps and who reads it do not matter to a reader.
  Reads-again :
      (s u : Slot Rows Order)
      → u.gen ≡ s.gen
      → u.changed ≡ s.changed
      → u.rows ≡ s.rows
      → (r : Reader Rows Order) → Reads s r
      → Reads u r
  Reads-again s u e w n (looked g t sig) h = rw e h
  Reads-again s u e w n (ordered g t sig ord) h = rw (e, w, n) h

  mem_invalidate-IsCurrent :
      (s : Slot Rows Order) (tab : String)
      → IsCurrent s
      → IsCurrent (
          mem_invalidate Rows Order tab (record s { changed = announced Rows Order tab s.changed }))
  unfolding mem_invalidate
  mem_invalidate-IsCurrent s tab c =
      let bumped : Slot Rows Order = record s {
        changed = announced Rows Order tab s.changed;
        gen = suc s.gen;
      } in
      let cleared : Slot Rows Order = record bumped { cache_sig = []; cache_ord = none } in
      elim (Bool-cases (tab === "" || s.cache_tab === tab)) [
        | inl e ↦ rw e (record {
          cached = λ ord k. absurd (ground (arith, k));
          reading =
              map-All (Reads s) (Reads cleared) (bumped-Reads s cleared refl) s.readers c.reading;
        })
        | inr e ↦
            let kept : announced Rows Order tab s.changed s.cache_tab ≡ s.changed s.cache_tab =
              ap (λ (b : Bool). if b then false else s.changed s.cache_tab) e in
            rw e (record {
              cached = λ ord k z. c.cached ord k (sym kept ∙ z);
              reading =
                  map-All (Reads s) (Reads bumped) (bumped-Reads s bumped refl) s.readers c.reading;
            })
      ]

  mem_cache_store-IsCurrent :
      (s : Slot Rows Order) (g : ℕ) (tab : String) (sig : List ℕ) (ord : Order)
      → Reads s (ordered g tab sig ord)
      → IsCurrent s
      → IsCurrent (mem_cache_store Rows Order g tab sig ord s)
  unfolding mem_cache_store
  mem_cache_store-IsCurrent s g tab sig ord h c = elim (Bool-cases (s.gen == g)) [
    | inl e ↦
        let now : g ≡ s.gen = ground (arith, e) in
        let u : Slot Rows Order = record s {
          cache_tab = tab;
          cache_sig = sig;
          cache_ord = some ord;
        } in
        rw e (record {
          cached = λ o k z. some_same o ord k ∙ h.1 now z;
          reading =
              map-All (Reads s) (Reads u) (Reads-again s u refl refl refl) s.readers c.reading;
        })
    | inr e ↦ rw e c
  ]
    where
      some_same : (o ord : Order) → some ord ≡ some o → o ≡ ord
      some_same o ord k = cc

  Step-IsCurrent : (s t : Slot Rows Order) → Step Rows Order compute s t → IsCurrent s → IsCurrent t
  Step-IsCurrent s _ (changing _ tab new) c = changing-IsCurrent s tab new c
  Step-IsCurrent s _ (invalidating _ tab) c = mem_invalidate-IsCurrent s tab c
  Step-IsCurrent s _ (missing _ tab sig e) c =
      let u : Slot Rows Order = record s { readers = looked s.gen tab sig ∷ s.readers } in
      record {
        cached = c.cached;
        reading = (
          omega arith,
          map-All (Reads s) (Reads u) (Reads-again s u refl refl refl) s.readers c.reading,
        );
      }
  Step-IsCurrent s _ (ordering _ first g tab sig rest e) c =
      let made = ordered g tab sig (compute sig (s.rows tab)) in
      let u : Slot Rows Order = record s { readers = first ++ made ∷ rest } in
      let before : All (Reads s) (first ++ looked g tab sig ∷ rest) =
        subst (All (Reads s)) e c.reading in
      let after : All (Reads s) (first ++ made ∷ rest) =
        All-swap (Reads s) first (looked g tab sig) made rest (λ h. (h, λ k w. refl)) before in
      record {
        cached = c.cached;
        reading =
            map-All (Reads s) (Reads u) (Reads-again s u refl refl refl) (first ++ made ∷ rest)
              after;
      }
  Step-IsCurrent s _ (storing _ first g tab sig ord rest e) c =
      let u : Slot Rows Order = record s { readers = first ++ rest } in
      let before : All (Reads s) (first ++ ordered g tab sig ord ∷ rest) =
        subst (All (Reads s)) e c.reading in
      let parts = All-drop (Reads s) first (ordered g tab sig ord) rest before in
      let kept : IsCurrent u = record {
        cached = c.cached;
        reading =
            map-All (Reads s) (Reads u) (Reads-again s u refl refl refl) (first ++ rest) parts.1;
      } in
      mem_cache_store-IsCurrent u g tab sig ord parts.0 kept

  Reach-IsCurrent :
      (s t : Slot Rows Order) → Reach Rows Order compute s t → IsCurrent s → IsCurrent t
  Reach-IsCurrent s _ here c = c
  Reach-IsCurrent s u (next {t} r st) c = Step-IsCurrent t u st (Reach-IsCurrent s t r c)

  -- However readers, changes and calls of `memInvalidate` interleave: an order found in the slot is
  -- the one that the tab's rows give now, if there was a call for the tab, or for all, since the tab
  -- changed last.
  pub look_up-current :
      (rows : String → Rows) (s : Slot Rows Order) (tab : String) (sig : List ℕ) (ord : Order)
      → Reach Rows Order compute (empty_slot Rows Order rows) s
      → look_up Rows Order tab sig s ≡ some ord
      → s.changed tab ≡ false
      → ord ≡ compute sig (s.rows tab)
  unfolding look_up
  look_up-current rows s tab sig ord r h w =
      let start : IsCurrent (empty_slot Rows Order rows) = record {
        cached = λ o k. absurd (ground (arith, k));
        reading = tt;
      } in
      let c = Reach-IsCurrent (empty_slot Rows Order rows) s r start in
      elim (Bool-cases (s.cache_tab === tab && same s.cache_sig sig)) [
        | inl e ↦
            let tabs : s.cache_tab ≡ tab = (===_iff s.cache_tab tab).0 (ground (arith, e)) in
            let sigs : s.cache_sig ≡ sig = same_eq s.cache_sig sig (ground (arith, e)) in
            let slot : look_up Rows Order tab sig s ≡ s.cache_ord = rw e refl in
            c.cached ord (sym slot ∙ h) (ap s.changed tabs ∙ w)
            ∙ ap (λ t. compute s.cache_sig (s.rows t)) tabs
            ∙ ap (λ g. compute g (s.rows tab)) sigs
        | inr e ↦ absurd (ground (arith, h, e))
      ]
