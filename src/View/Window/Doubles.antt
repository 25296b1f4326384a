-- ===== src/View/Window/Doubles.antt =====
-- The rows left when doubles are hidden.
use vair.Base.{
  ℕ, ◌≡◌, refl, ap, inl, inr, arith, Bool, true, false, not, ◌&&◌, List, [], ◌∷◌, if◌then◌else◌,
  Bool-cases, All, map,
}
use vair.View.{Entry, Key, Query, Outside, is_in}
use vair.View.Firsts.{Distinct, firsts, is_covered, firsts-Distinct, firsts-All}
use vair.View.Window.{key_of, is_shown, is_first, collect}

module _ (outside : Outside) (q : Query) (favs : List (List ℕ)) where
  abbrev pub double_key : Key → List ℕ
  double_key k = outside.dedup_key k.raw

  abbrev pub left_keys : List Entry → List (List ℕ) → List (List ℕ)
  left_keys es seen = map double_key (collect outside q favs es seen)

  abbrev pub shown_entry : Entry → Bool
  shown_entry e = is_shown outside q (key_of outside favs e)

  -- One turn of the loop when doubles are hidden.
  left_keys-cons :
      (e : Entry) (es : List Entry) (seen : List (List ℕ))
      → q.dedup_hide ≡ true
      → left_keys (e ∷ es) seen ≡ (
          if shown_entry e && not (is_in (outside.dedup_key e.raw) seen)
          then outside.dedup_key e.raw ∷ left_keys es (outside.dedup_key e.raw ∷ seen)
          else left_keys es seen)
  unfolding collect key_of
  left_keys-cons e es seen h =
      let k = key_of outside favs e in
      elim (Bool-cases (is_shown outside q k && not (is_in (outside.dedup_key e.raw) seen))) [
        | inl p ↦
            let kept : (is_shown outside q k && is_first outside q seen k) ≡ true =
              ground (arith, p) in
            let dk = outside.dedup_key e.raw in
            rw (kept, p) (ap (λ (b : Bool). dk ∷ left_keys es (if b then dk ∷ seen else seen)) h)
        | inr p ↦
            let kept : (is_shown outside q k && is_first outside q seen k) ≡ false =
              ground (arith, p, h) in
            rw (kept, p) refl
      ]

  abbrev pub dedup_of : Entry → List ℕ
  dedup_of e = outside.dedup_key e.raw

  left_keys-firsts :
      (es : List Entry) (seen : List (List ℕ))
      → q.dedup_hide ≡ true
      → left_keys es seen ≡ firsts shown_entry dedup_of es seen
  unfolding collect firsts
  left_keys-firsts [] seen h = refl
  left_keys-firsts (e ∷ es) seen h =
      rw
        (
          left_keys-cons e es seen h,
          left_keys-firsts es seen h,
          left_keys-firsts es (dedup_of e ∷ seen) h,
        )
        refl

  -- With doubles hidden, no two rows left are the same server, and every row that the filter and the
  -- rules show is the same server as one that is left.
  pub collect-doubles :
      (es : List Entry)
      → q.dedup_hide ≡ true
      → Distinct (left_keys es [])
        × All (λ e. is_covered shown_entry dedup_of [] (left_keys es []) e ≡ true) es
  collect-doubles es h =
      rw (left_keys-firsts es [] h)
        (firsts-Distinct shown_entry dedup_of es [], firsts-All shown_entry dedup_of es [])
