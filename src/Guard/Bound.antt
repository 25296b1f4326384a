-- ===== src/Guard/Bound.antt =====
-- How often the guard restores the setting.
use vair.Base.{
  ℕ, suc, ◌+◌, ◌-◌, ◌≤◌, ◌≡◌, ◌≢◌, inl, inr, refl, ◌∙◌, Bool, true, false, not, ◌||◌, List, [], ◌∷◌,
  some, if◌then◌else◌, leb, ◌==◌, arith, Bool-cases, ◌⊎◌,
}
use vair.Guard.{
  Guard, Tick, Act, idle, tried, restored, due, window_over, guard_window, guard_burst, is_hijacked,
  correct, new_burst, guard_system_proxy,
}

abbrev one_if_restored : Act → ℕ
one_if_restored restored = 1
one_if_restored idle = 0
one_if_restored tried = 0

-- How many ticks of a run restored the setting.
unfoldable pub restores : Guard → List Tick → ℕ
restores g [] = 0
restores g (w ∷ ws) =
    one_if_restored (guard_system_proxy g w).1 + restores (guard_system_proxy g w).0 ws

-- Ticks of one connection, in the window that began at `start`.
abbrev pub InWindow : ℕ → List Tick → Type 0
InWindow start [] = Unit {0}
InWindow start (w ∷ ws) = (w.now ≤ start + guard_window) × (w.port ≢ 0) × InWindow start ws

-- What is left to the guard in its window.
abbrev allowance : Guard → ℕ
allowance g = if g.stood_down then 0 else suc (2 - g.corrections)

correct-allowance :
    (g : Guard) (w : Tick)
    → (one_if_restored (correct g w).1 + allowance (correct g w).0 ≤ allowance g)
      × ((correct g w).0.burst_start ≡ g.burst_start)
unfolding correct
correct-allowance g w = elim (Bool-cases g.stood_down) [
  | inl down ↦ rw down (omega arith, refl)
  | inr up ↦ elim (Bool-cases (not w.works)) [
    | inl fails ↦ rw (up, fails) (omega arith, refl)
    | inr works ↦ elim (Bool-cases (leb guard_burst (suc g.corrections))) [
      | inl third ↦ rw (up, works, third) (omega arith, refl)
      | inr early ↦ rw (up, works, early) (ground arith, refl)
    ]
  ]
]

if_both {ℓ κ} :
    {A : Type ℓ} (P : A → Type κ) (t : Bool) {x y : A}
    → P x
    → (t ≡ false → P y)
    → P (if t then x else y)
if_both P true p q = p
if_both P false p q = q refl

-- A result that stays within what was left, in the same window.
abbrev Within : Guard → ℕ → Guard × Act → Type 0
Within g start r =
    (one_if_restored r.1 + allowance r.0 ≤ allowance g) × (r.0.burst_start ≡ some start)

same_burst :
    (g : Guard) (now start : ℕ)
    → g.burst_start ≡ some start
    → now ≤ start + guard_window
    → new_burst g now ≡ g
unfolding new_burst
same_burst g now start began inside =
    let open_ : window_over g.burst_start now ≡ false = rw began (ground (arith, inside)) in
    rw open_ refl

tick-Within :
    (g : Guard) (w : Tick) (start : ℕ)
    → g.burst_start ≡ some start
    → w.now ≤ start + guard_window
    → w.port ≢ 0
    → Within g start (guard_system_proxy g w)
unfolding guard_system_proxy
tick-Within g w start began inside port =
    let checked = record g { last_check = some w.now } in
    let applied : w.port == 0 ≡ false = ground (arith, port) in
    if_both (Within g start) (not (due g.last_check w.now)) (omega arith, began)
      λ _.
        if_both (Within g start) (w.disabled || w.busy) (omega arith, began)
          λ _. rw applied (
            if_both (Within g start) (not (is_hijacked w.ours)) (omega arith, began)
              λ _.
                rw (same_burst checked w.now start began inside)
                  (let (bound, kept) = correct-allowance checked w in (bound, kept ∙ began)))

restores-allowance :
    (g : Guard) (start : ℕ) (ws : List Tick)
    → g.burst_start ≡ some start
    → InWindow start ws
    → restores g ws ≤ allowance g
unfolding restores
restores-allowance g start [] began inside = omega arith
restores-allowance g start (w ∷ ws) began (now, port, inside) =
    let (bound, kept) = tick-Within g w start began now port in
    let rest = restores-allowance (guard_system_proxy g w).0 start ws kept inside in
    omega (arith, bound, rest)

-- Two programs do not fight over the setting: in one window of five minutes, while one connection
-- is up, the guard restores the setting three times at most, whatever it finds and however often it
-- looks.
pub restores_bound :
    (g : Guard) (start : ℕ) (ws : List Tick)
    → g.burst_start ≡ some start
    → InWindow start ws
    → restores g ws ≤ guard_burst
restores_bound g start ws began inside =
    let left = restores-allowance g start ws began inside in
    elim (Bool-cases g.stood_down) [
      | inl e ↦ ground (arith, left, e)
      | inr e ↦ ground (arith, left, e)
    ]

-- A setting that something else has taken is written again at the next look that is due, unless the
-- guard is off, another action holds the lock, nothing is applied, or the guard has stood down in a
-- window that is not over.
pub guard_corrects :
    (g : Guard) (w : Tick)
    → due g.last_check w.now ≡ true
    → w.disabled || w.busy ≡ false
    → w.port ≢ 0
    → w.ours ≡ some false
    → (g.stood_down ≡ false) ⊎ (window_over g.burst_start w.now ≡ true)
    → (guard_system_proxy g w).1 ≡ (if w.works then restored else tried)
unfolding guard_system_proxy
guard_corrects g w look_now free port taken active =
    let checked = record g { last_check = some w.now } in
    let applied : w.port == 0 ≡ false = ground (arith, port) in
    rw (look_now, free, applied, taken) (writes (new_burst checked w.now) w (up checked active))
  where
    up :
        (h : Guard)
        → (h.stood_down ≡ false) ⊎ (window_over h.burst_start w.now ≡ true)
        → (new_burst h w.now).stood_down ≡ false
    up h (inl e) = unfold new_burst in ground (arith, e)
    up h (inr e) = unfold new_burst in rw e refl

    writes :
        (h : Guard) (w : Tick)
        → h.stood_down ≡ false
        → (correct h w).1 ≡ (if w.works then restored else tried)
    writes h w e =
        unfold correct in
        elim (Bool-cases w.works) [
          | inl ok ↦ elim (Bool-cases (leb guard_burst (suc h.corrections))) [
            | inl third ↦ rw (e, ok, third) refl
            | inr early ↦ rw (e, ok, early) refl
          ]
          | inr fails ↦ rw (e, fails) refl
        ]
