-- ===== src/Auto/Order.antt =====
-- The order of AUTO's candidates, and who is among them.
use vair.Base.{
  ℕ, Bool, true, not, ◌&&◌, ◌||◌, List, if◌then◌else◌, ◌==◌, ℤ, pos, Comparison, compare_nat,
  compare_true, by, then_by, turned,
}
use vair.Base.Ints.{compare_int}
use vair.Auto.{RankMode, Cand, ranks_by_history, ranks_by_speed}

abbrev pub speed_key : RankMode → Cand → ℕ
speed_key mode c = if c.rank == 0 && ranks_by_speed mode then c.speed else 0

abbrev pub stable_key : RankMode → Cand → Bool
stable_key mode c = not (c.rank == 0) && (ranks_by_history mode && c.stable)

abbrev pub score_key : RankMode → Cand → ℤ
score_key mode c = if c.rank == 0 || (ranks_by_history mode && c.stable) then c.score else pos 0

-- The last ping's outcome first; then, among those that answered, the fastest where the mode ranks by
-- the last speed and the best score; among the others, those with a history by their score and then
-- those without, in the pool's order.
unfoldable pub candidate_order : RankMode → Cand → Cand → Comparison
candidate_order mode = then_by (by (λ c. c.rank) compare_nat) (
    then_by (turned true (by (speed_key mode) compare_nat))
      (then_by (by (stable_key mode) compare_true) (by (score_key mode) compare_int)))
