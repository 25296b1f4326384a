-- ===== src/Auto/Eligible.antt =====
-- Who is among AUTO's candidates.
use vair.Base.{
  ℕ, ◌≡◌, ◌≢◌, ◌⊎◌, refl, sym, ap, ◌∙◌, inl, inr, arith, not, is_empty, same_eq, Bool, true, false,
  ◌&&◌, ◌||◌, List, [], ◌∷◌, same, same_refl, All, Bool-cases, map,
}
use vair.Table.{◌===◌, ===_iff}
use vair.View.{Outside, is_in}
use vair.View.Exclude.{should_skip}
use vair.View.Firsts.{Distinct, firsts, is_covered, firsts-Distinct, firsts-All}
use vair.Auto.{
  Snap, PoolTab, RankMode, Figures, Cand, tab_rules, candidate, is_eligible, auto_entry_excluded,
  of_pool, is_taken, gather,
}

first_true : (a b : Bool) → (a && b) ≡ true → a ≡ true
first_true a b h = ground (arith, h)

all_three : (a b c : Bool) → a ≡ true → b ≡ true → c ≡ true → (a && (b && c)) ≡ true
all_three a b c h k l = rw (h, k, l) refl

-- AUTO may connect to the entry of the tab.
pub record IsUsable (outside : Outside) (f : Figures) (exclude_raw : List ℕ)
    (paused : List ℕ → Bool) (pair : PoolTab × Snap) : Type 0 where
  pub has_link : is_empty pair.1.raw ≡ false
  pub not_left_out : pair.1.raw ≢ exclude_raw
  pub not_hidden :
      (pair.0.exclude_disabled ≡ true)
      ⊎ (should_skip outside pair.1.name pair.1.protocol pair.1.host pair.1.network pair.1.security
            pair.0.exclude_filter
          ≡ false)
  pub not_paused : paused pair.1.raw ≡ false
  pub connects : f.connectable pair.1.raw ≡ true

-- A usable entry of the tab with that configuration.
abbrev pub ComesFrom :
    Outside → Figures → List ℕ → (List ℕ → Bool) → Cand → List (PoolTab × Snap) → Type 0
ComesFrom outside f exclude_raw paused c [] = ⊥
ComesFrom outside f exclude_raw paused c (pair ∷ rest) =
    ((c.tab ≡ pair.0.id) × (c.raw ≡ pair.1.raw) × IsUsable outside f exclude_raw paused pair)
    ⊎ ComesFrom outside f exclude_raw paused c rest

module _ (outside : Outside) (f : Figures) (mode : RankMode) (exclude_raw : List ℕ)
    (paused : List ℕ → Bool) where
  abbrev pub eligible : PoolTab × Snap → Bool
  eligible (t, e) = is_eligible outside f exclude_raw paused (tab_rules t) e

  -- An eligible entry of the tab with that configuration.
  abbrev pub stands_for : Cand → List (PoolTab × Snap) → Bool
  stands_for c [] = false
  stands_for c ((t, e) ∷ rest) =
      (c.tab === t.id && (same c.raw e.raw && eligible (t, e))) || stands_for c rest

  abbrev pub raws : List (PoolTab × Snap) → List (List ℕ) → List (List ℕ)
  raws entries seen = map (λ c. c.raw) (gather outside f mode exclude_raw paused entries seen)

  All-weaken :
      (pair : PoolTab × Snap) (rest : List (PoolTab × Snap)) (cs : List Cand)
      → All (λ c. stands_for c rest ≡ true) cs
      → All (λ c. stands_for c (pair ∷ rest) ≡ true) cs
  All-weaken pair rest [] h = tt
  All-weaken (t, e) rest (c ∷ cs) h = (ground (arith, h.0), All-weaken (t, e) rest cs h.1)

  gather-from :
      (entries : List (PoolTab × Snap)) (seen : List (List ℕ))
      → All
          (λ c. stands_for c entries ≡ true)
          (gather outside f mode exclude_raw paused entries seen)
  unfolding gather candidate
  gather-from [] seen = tt
  gather-from ((t, e) ∷ rest) seen =
      elim (Bool-cases (is_taken outside f mode exclude_raw paused t e seen)) [
        | inl h ↦
            let itself : (t.id === t.id && (same e.raw e.raw && eligible (t, e))) ≡ true =
              all_three _ _ _ ((===_iff t.id t.id).1 refl) (same_refl e.raw)
                (first_true (eligible (t, e)) _ h) in
            rw h (
              ap (λ b. b || stands_for (candidate f mode t.id e) rest) itself,
              All-weaken (t, e) rest _ (gather-from rest (e.raw ∷ seen)),
            )
        | inr h ↦ rw h (All-weaken (t, e) rest _ (gather-from rest seen))
      ]

  abbrev pub raw_of : PoolTab × Snap → List ℕ
  raw_of (t, e) = e.raw

  raws-firsts :
      (entries : List (PoolTab × Snap)) (seen : List (List ℕ))
      → raws entries seen ≡ firsts eligible raw_of entries seen
  unfolding gather candidate firsts
  raws-firsts [] seen = refl
  raws-firsts ((t, e) ∷ rest) seen =
      elim (Bool-cases (is_taken outside f mode exclude_raw paused t e seen)) [
        | inl h ↦ rw (h, raws-firsts rest (e.raw ∷ seen)) refl
        | inr h ↦ rw (h, raws-firsts rest seen) refl
      ]

  hidden_lem :
      (t : PoolTab) (e : Snap)
      → auto_entry_excluded outside e (tab_rules t) ≡ false
      → (t.exclude_disabled ≡ true)
        ⊎ (should_skip outside e.name e.protocol e.host e.network e.security t.exclude_filter
            ≡ false)
  unfolding auto_entry_excluded
  hidden_lem t e h = elim (Bool-cases t.exclude_disabled) [
    | inl off ↦ inl off
    | inr on ↦ inr (some_rules t.exclude_filter (rw on at h))
  ]
    where
      some_rules :
          (rules : List (List ℕ))
          → (not (is_empty rules)
              && should_skip outside e.name e.protocol e.host e.network e.security rules)
            ≡ false
          → should_skip outside e.name e.protocol e.host e.network e.security rules ≡ false
      some_rules [] k = refl
      some_rules (r ∷ rs) k = k

  shown_lem :
      (t : PoolTab) (e : Snap)
      → (t.exclude_disabled ≡ true)
        ⊎ (should_skip outside e.name e.protocol e.host e.network e.security t.exclude_filter
            ≡ false)
      → auto_entry_excluded outside e (tab_rules t) ≡ false
  unfolding auto_entry_excluded
  shown_lem t e (inl off) = rw off refl
  shown_lem t e (inr k) = elim (Bool-cases t.exclude_disabled) [
    | inl off ↦ rw off refl
    | inr on ↦ rw (on, k) (ground arith)
  ]

  eligible_parts :
      (a b c d g : Bool)
      → (not a && (not b && (not c && (not d && g)))) ≡ true
      → (a ≡ false) × (b ≡ false) × (c ≡ false) × (d ≡ false) × (g ≡ true)
  eligible_parts a b c d g h = ground (arith, h)

  eligible-IsUsable :
      (t : PoolTab) (e : Snap)
      → eligible (t, e) ≡ true
      → IsUsable outside f exclude_raw paused (t, e)
  unfolding is_eligible
  eligible-IsUsable t e h =
      let (named, other, shown, rested, connects) =
        eligible_parts (is_empty e.raw) (same e.raw exclude_raw)
          (auto_entry_excluded outside e (tab_rules t)) (paused e.raw) (f.connectable e.raw) h in
      record {
        has_link = named;
        not_left_out = λ q. apart (ap (same e.raw) (sym q) ∙ same_refl e.raw) other;
        not_hidden = hidden_lem t e shown;
        not_paused = rested;
        connects = connects;
      }
    where
      apart : {b : Bool} → b ≡ true → b ≡ false → ⊥
      apart {b} k l = cc

  IsUsable-eligible :
      (t : PoolTab) (e : Snap)
      → IsUsable outside f exclude_raw paused (t, e)
      → eligible (t, e) ≡ true
  unfolding is_eligible
  IsUsable-eligible t e u =
      let other : same e.raw exclude_raw ≡ false = elim (Bool-cases (same e.raw exclude_raw)) [
        | inl q ↦ absurd (u.not_left_out (same_eq e.raw exclude_raw q))
        | inr q ↦ q
      ] in
      rw (u.has_link, other, shown_lem t e u.not_hidden, u.not_paused, u.connects) refl

  comes_from :
      (c : Cand) (pairs : List (PoolTab × Snap))
      → stands_for c pairs ≡ true
      → ComesFrom outside f exclude_raw paused c pairs
  comes_from c [] h = absurd (ground (arith, h))
  comes_from c ((t, e) ∷ rest) h =
      elim (Bool-cases (c.tab === t.id && (same c.raw e.raw && eligible (t, e)))) [
        | inl k ↦
            let (tab, raw, usable) =
              parts_of (c.tab === t.id) (same c.raw e.raw) (eligible (t, e)) k in
            inl ((===_iff c.tab t.id).0 tab, same_eq c.raw e.raw raw, eligible-IsUsable t e usable)
        | inr k ↦ inr (comes_from c rest (rw k at h))
      ]
    where
      parts_of : (a b d : Bool) → (a && (b && d)) ≡ true → (a ≡ true) × (b ≡ true) × (d ≡ true)
      parts_of a b d k = ground (arith, k)

  gather_stands :
      (pairs : List (PoolTab × Snap)) (cs : List Cand)
      → All (λ c. stands_for c pairs ≡ true) cs
      → All (λ c. ComesFrom outside f exclude_raw paused c pairs) cs
  gather_stands pairs [] h = tt
  gather_stands pairs (c ∷ cs) (first, rest) =
      (comes_from c pairs first, gather_stands pairs cs rest)

  IsUsable-covered :
      (left : List (List ℕ)) (pairs : List (PoolTab × Snap))
      → All (λ pair. is_covered eligible raw_of [] left pair ≡ true) pairs
      → All
          (λ pair. IsUsable outside f exclude_raw paused pair → is_in (raw_of pair) left ≡ true)
          pairs
  IsUsable-covered left [] h = tt
  IsUsable-covered left ((t, e) ∷ pairs) (first, rest) = (
    λ u.
        covered (is_eligible outside f exclude_raw paused (tab_rules t) e) (IsUsable-eligible t e u)
          first,
    IsUsable-covered left pairs rest,
  )
    where
      covered : {l : Bool} (b : Bool) → b ≡ true → (not b || (false || l)) ≡ true → l ≡ true
      covered {l} b h k = ground (arith, h, k)

  -- Every candidate is an entry of a tab of the pool that may be used: its link is not empty and can
  -- be connected to, is not the one to leave out and not paused after a failure, and no rule of the
  -- tab hides it, or the tab's rules are off. No configuration is a candidate twice, and the
  -- configuration of every entry that may be used is one.
  pub gather-IsUsable :
      (pool : List PoolTab)
      → All
          (λ c. ComesFrom outside f exclude_raw paused c (of_pool pool))
          (gather outside f mode exclude_raw paused (of_pool pool) [])
        × Distinct (raws (of_pool pool) [])
        × All
            (λ pair.
              IsUsable outside f exclude_raw paused pair
              → is_in (raw_of pair) (raws (of_pool pool) []) ≡ true)
            (of_pool pool)
  gather-IsUsable pool = (
    gather_stands (of_pool pool) _ (gather-from (of_pool pool) []),
    rw (raws-firsts (of_pool pool) []) (firsts-Distinct eligible raw_of (of_pool pool) []),
    IsUsable-covered (raws (of_pool pool) []) (of_pool pool)
        (rw (raws-firsts (of_pool pool) []) (firsts-All eligible raw_of (of_pool pool) [])),
  )
