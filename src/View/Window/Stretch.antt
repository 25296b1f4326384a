-- ===== src/View/Window/Stretch.antt =====
-- The rows of an order that a window serves.
use vair.Base.{
  ℕ, zero, suc, ◌+◌, ◌-◌, ◌^◌, ◌≤◌, ◌<◌, ◌≡◌, refl, sym, ◌∙◌, ap, inl, inr, arith, Bool, false,
  List, [], ◌∷◌, if◌then◌else◌, ◌==◌, Bool-cases, length, take, drop, length-drop, ltb, leb, ℤ, pos,
  negsuc, ok, ◌>>=◌,
}
use vair.View.{Entry, Query}
use vair.View.Window.{at_least_zero, window_start, window_end, Window, window_of, mem_window}

-- What is left behind the first rows, where a number below 0 skips none.
abbrev pub from : ℤ → List Entry → List Entry
from (pos n) xs = drop n xs
from (negsuc n) xs = xs

-- The first rows, or all for no number above 0.
abbrev pub up_to : ℤ → List Entry → List Entry
up_to (pos zero) xs = xs
up_to (pos (suc n)) xs = take (suc n) xs
up_to (negsuc n) xs = xs

up_to_lem :
    (l : ℤ) (xs : List Entry)
    → up_to l xs ≡ (if at_least_zero l == 0 then xs else take (at_least_zero l) xs)
up_to_lem (pos zero) xs = refl
up_to_lem (pos (suc n)) xs = ground arith
up_to_lem (negsuc n) xs = refl

take_past : (n : ℕ) (xs : List Entry) → length xs ≤ n → take n xs ≡ xs
take_past zero [] h = refl
take_past (suc n) [] h = refl
take_past zero (x ∷ xs) h = absurd (omega arith)
take_past (suc n) (x ∷ xs) h = ap (λ (r : List Entry). x ∷ r) (take_past n xs (omega arith))

drop_past : (n : ℕ) (xs : List Entry) → length xs ≤ n → drop n xs ≡ []
drop_past zero [] h = refl
drop_past (suc n) [] h = refl
drop_past zero (x ∷ xs) h = absurd (omega arith)
drop_past (suc n) (x ∷ xs) h = drop_past n xs (omega arith)

drop-window_start :
    (o : ℤ) (xs : List Entry)
    → drop (if ltb (length xs) (at_least_zero o) then length xs else at_least_zero o) xs ≡ from o xs
drop-window_start (negsuc n) xs = ap (λ (k : ℕ). drop k xs) (none_skipped (length xs))
  where
    none_skipped : (t : ℕ) → (if ltb t 0 then t else 0) ≡ 0
    none_skipped t = ground arith
drop-window_start (pos n) xs = elim (Bool-cases (ltb (length xs) n)) [
  | inl e ↦ rw e (drop_past (length xs) xs (omega arith) ∙ sym (drop_past n xs (ground (arith, e))))
  | inr e ↦ rw e refl
]

-- The window's rows, with `off` in range and `lim` above 0.
slice_lem :
    (off lim total : ℕ) (xs : List Entry)
    → total ≡ length xs + off
    → take ((if ltb total (off + lim) then total else off + lim) - off) xs ≡ take lim xs
slice_lem off lim total xs h = elim (Bool-cases (ltb total (off + lim))) [
  | inl e ↦
      let long : length xs ≤ lim = ground (arith, h, e) in
      let size : total - off ≡ length xs = omega (arith, h) in
      rw (e, size) (take_past (length xs) xs (omega arith) ∙ sym (take_past lim xs long))
  | inr e ↦ let size : (off + lim) - off ≡ lim = omega arith in rw (e, size) refl
]

-- The end of the window, and the rows up to it.
end_lem :
    (q : Query) (ord : List Entry)
    → length ord + at_least_zero q.limit < 2 ^ 63
    → (end : ℕ) × (window_end q (length ord) ≡ ok end)
      × (take (end - window_start q (length ord)) (drop (window_start q (length ord)) ord)
          ≡ up_to q.limit (drop (window_start q (length ord)) ord))
unfolding window_end window_start
end_lem q ord small =
    let off = window_start q (length ord) in
    let lim = at_least_zero q.limit in
    let after = drop off ord in
    let in_range : off ≤ length ord = ground arith in
    let whole : length ord ≡ length after + off = omega (arith, length-drop off ord, in_range) in
    elim (Bool-cases (lim == 0)) [
      | inl e ↦
          let all : length ord - off ≡ length after = omega (arith, whole) in
          (
            length ord,
            rw e refl,
            ap (λ (k : ℕ). take k after) all
                ∙ take_past (length after) after (omega arith)
                ∙ sym (
                    up_to_lem q.limit after
                    ∙ ap (λ (b : Bool). if b then after else take lim after) e),
          )
      | inr e ↦
          let fits : leb (2 ^ 63) (off + lim) ≡ false = ground (arith, in_range, small) in
          (
            if ltb (length ord) (off + lim) then length ord else off + lim,
            rw (e, fits) refl,
            slice_lem off lim (length ord) after whole
                ∙ sym (
                    up_to_lem q.limit after
                    ∙ ap (λ (b : Bool). if b then after else take lim after) e),
          )
    ]

-- The window has the rows behind those that are to be skipped (none for a number below 0), as many
-- of them as are asked for, or all if that is 0 or less, and counts the whole order. It panics only
-- if the number of rows and the limit together are more than a 64-bit integer holds.
pub mem_window-rows :
    (q : Query) (ord : List Entry) (with_stats : Bool)
    → length ord + at_least_zero q.limit < 2 ^ 63
    → (w : Window) × (mem_window q ord with_stats ≡ ok w)
      × (w.rows ≡ up_to q.limit (from q.offset ord))
      × (w.total ≡ length ord)
unfolding mem_window window_of window_start
mem_window-rows q ord with_stats small =
    let (end, ends, rows) = end_lem q ord small in
    (
      window_of q ord with_stats end,
      ap (λ o. o >>= λ e. ok (window_of q ord with_stats e)) ends,
      rows ∙ ap (up_to q.limit) (drop-window_start q.offset ord),
      refl,
    )
