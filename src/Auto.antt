-- ===== src/Auto.antt =====
-- core/autoconnect.go: which configurations AUTO would connect to, and in which order.
-- Scores are floating-point numbers that are only compared and negated: they are integers of a unit
-- small enough. What the measurement history makes of them (nodestats.go), and whether a link can be
-- connected to, are `Figures`.
pub mod Order
pub mod Eligible
use vair.Base.{
  ℕ, zero, suc, ◌*◌, ◌≡◌, Bool, true, false, not, ◌&&◌, ◌||◌, List, [], ◌∷◌, ◌++◌, Option, none,
  some, String, if◌then◌else◌, ◌==◌, ltb, same, is_empty, ℤ, pos, negsuc,
}
use vair.Base.Ints.{int_less, negate}
use vair.Table.{Status, succeeded, failed, ◌===◌}
use vair.View.{Outside, is_in}
use vair.View.Exclude.{should_skip}
use vair.View.Order.{is_ok, is_failed, differ}
use vair.View.Sort.{sort_stable}

-- An entry as it is snapped.
pub record Snap : Type 0 where
  pub raw : List ℕ
  pub name : List ℕ
  pub host : List ℕ
  pub network : List ℕ
  pub security : List ℕ
  pub protocol : List ℕ
  pub ping : Status
  pub speed_status : Status
  pub delay : ℤ
  pub speed : ℕ

pub record PoolTab : Type 0 where
  pub id : String
  pub exclude_disabled : Bool
  pub exclude_filter : List (List ℕ)
  pub entries : List Snap

pub data RankMode : Type 0 where
  by_ping by_speed by_ping_history by_speed_history : RankMode

pub record Figures : Type 0 where
  -- `parseNode` succeeds and `nodeUnsupportedReason` is empty.
  pub connectable : List ℕ → Bool
  pub speed_fresh : List ℕ → Bool
  pub trusted : List ℕ → Bool
  pub speed_trusted : List ℕ → Bool
  pub delay_score : ℤ → ℤ
  pub stable_score : List ℕ → ℤ → ℤ
  pub speed_score : List ℕ → ℕ
  pub thin_speed : List ℕ → ℕ → ℕ
  pub unmeasured : ℤ

pub record Cand : Type 0 where
  pub tab : String
  pub raw : List ℕ
  pub delay : ℤ
  pub speed : ℕ
  pub rank : ℕ
  pub score : ℤ
  pub stable : Bool

abbrev pub tab_rules : PoolTab → List (List ℕ)
tab_rules t = if t.exclude_disabled then [] else t.exclude_filter

unfoldable pub auto_entry_excluded : Outside → Snap → List (List ℕ) → Bool
unfolding should_skip
auto_entry_excluded outside e rules =
    not (is_empty rules) && should_skip outside e.name e.protocol e.host e.network e.security rules

abbrev pub rank_of : Status → ℕ
rank_of status = if is_ok status then 0 else if is_failed status then 2 else 1

abbrev pub speed_of : Figures → Snap → ℕ
speed_of f e = if is_ok e.speed_status && f.speed_fresh e.raw then e.speed else 0

abbrev pub delay_or_unmeasured : Figures → ℤ → ℤ
delay_or_unmeasured f score = if int_less (pos 0) score then score else f.unmeasured

abbrev pub speed_history_score : Figures → Snap → ℕ → ℤ
speed_history_score f e spd =
    if f.speed_trusted e.raw
    then negate (f.speed_score e.raw)
    else if ltb 0 spd
    then negate (f.thin_speed e.raw spd)
    else delay_or_unmeasured f (f.stable_score e.raw e.delay)

unfoldable pub score_of : Figures → RankMode → Snap → ℕ → ℤ
score_of f by_ping e spd = f.delay_score e.delay
score_of f by_speed e spd = f.delay_score e.delay
score_of f by_ping_history e spd = f.stable_score e.raw e.delay
score_of f by_speed_history e spd = speed_history_score f e spd

abbrev pub stable_of : Figures → RankMode → Snap → Bool
stable_of f by_ping e = false
stable_of f by_speed e = false
stable_of f by_ping_history e = f.trusted e.raw
stable_of f by_speed_history e = f.speed_trusted e.raw

unfoldable pub candidate : Figures → RankMode → String → Snap → Cand
unfolding score_of
candidate f mode tab e = record {
  tab = tab;
  raw = e.raw;
  delay = e.delay;
  speed = speed_of f e;
  rank = rank_of e.ping;
  score = score_of f mode e (speed_of f e);
  stable = stable_of f mode e;
}

-- What is asked of an entry but that it is the first; `paused` are the pauses that are not over.
unfoldable pub is_eligible :
    Outside → Figures → List ℕ → (List ℕ → Bool) → List (List ℕ) → Snap → Bool
unfolding auto_entry_excluded
is_eligible outside f exclude_raw paused rules e =
    not (is_empty e.raw)
    && (not (same e.raw exclude_raw)
        && (not (auto_entry_excluded outside e rules)
            && (not (paused e.raw) && f.connectable e.raw)))

-- The entries of the pool's tabs in turn, each with its tab.
abbrev pub of_tab : PoolTab → List Snap → List (PoolTab × Snap)
of_tab t [] = []
of_tab t (e ∷ es) = (t, e) ∷ of_tab t es

abbrev pub of_pool : List PoolTab → List (PoolTab × Snap)
of_pool [] = []
of_pool (t ∷ tabs) = of_tab t t.entries ++ of_pool tabs

abbrev pub add_if : Bool → Cand → List Cand → List Cand
add_if true c cs = c ∷ cs
add_if false c cs = cs

module _ (outside : Outside) (f : Figures) (mode : RankMode) (exclude_raw : List ℕ)
    (paused : List ℕ → Bool) where
  abbrev pub is_taken : PoolTab → Snap → List (List ℕ) → Bool
  is_taken t e seen =
      is_eligible outside f exclude_raw paused (tab_rules t) e && not (is_in e.raw seen)

  unfoldable pub gather : List (PoolTab × Snap) → List (List ℕ) → List Cand
  unfolding candidate is_eligible
  gather [] seen = []
  gather ((t, e) ∷ rest) seen =
      let taken = is_taken t e seen in
      add_if taken (candidate f mode t.id e) (gather rest (if taken then e.raw ∷ seen else seen))

abbrev pub ranks_by_history : RankMode → Bool
ranks_by_history by_ping_history = true
ranks_by_history by_speed_history = true
ranks_by_history _ = false

abbrev pub ranks_by_speed : RankMode → Bool
ranks_by_speed by_speed = true
ranks_by_speed _ = false

-- Among those whose last ping succeeded.
unfoldable pub less_measured : RankMode → Cand → Cand → Bool
less_measured mode a b =
    if ranks_by_speed mode && differ (ltb 0 a.speed) (ltb 0 b.speed)
    then ltb 0 a.speed
    else if ranks_by_speed mode && (ltb 0 a.speed && (ltb 0 b.speed && not (a.speed == b.speed)))
    then ltb b.speed a.speed
    else int_less a.score b.score

-- Among the others.
unfoldable pub less_unmeasured : RankMode → Cand → Cand → Bool
less_unmeasured mode a b =
    if ranks_by_history mode && (a.stable && b.stable)
    then int_less a.score b.score
    else if ranks_by_history mode && differ a.stable b.stable
    then a.stable
    else false

unfoldable pub less_candidate : RankMode → Cand → Cand → Bool
unfolding less_measured less_unmeasured
less_candidate mode a b =
    if not (a.rank == b.rank)
    then ltb a.rank b.rank
    else if a.rank == 0
    then less_measured mode a b
    else less_unmeasured mode a b

unfoldable pub auto_candidates :
    Outside → Figures → RankMode → List ℕ → (List ℕ → Bool) → List PoolTab → List Cand
unfolding gather sort_stable less_candidate
auto_candidates outside f mode exclude_raw paused pool =
    sort_stable (less_candidate mode) (gather outside f mode exclude_raw paused (of_pool pool) [])
