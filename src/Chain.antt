-- ===== src/Chain.antt =====
-- core/chainsplit.go: a chain of hops, split into the runs that one engine carries.
-- `engine_for` is `engineForChainHop`, `none` where no engine can dial a hop, and `is_nil` tells of
-- a configuration that could not be parsed: any functions can stand in their place.
pub mod Runs
use vair.Base.{
  ℕ, ◌≡◌, Bool, true, false, List, [], ◌∷◌, ◌++◌, Option, none, some, if◌then◌else◌, ltb, length,
}

pub data Engine : Type 0 where
  xray singbox : Engine

abbrev pub same_engine : Engine → Engine → Bool
same_engine xray xray = true
same_engine xray singbox = false
same_engine singbox xray = false
same_engine singbox singbox = true

pub record Segment (Node : Type 0) : Type 0 where
  pub engine : Engine
  pub nodes : List Node

pub data SplitRefusal (Node : Type 0) : Type 0 where
  too_short unparseable changes_twice : SplitRefusal Node
  cannot_dial : Node → SplitRefusal Node

pub data Split (Node : Type 0) : Type 0 where
  segments : List (Segment Node) → Split Node
  refused : SplitRefusal Node → Split Node

-- The hop joins the last run, or starts one.
unfoldable pub add_hop : {Node : Type 0} → List (Segment Node) → Engine → Node → List (Segment Node)
add_hop [] e n = record { engine = e; nodes = n ∷ [] } ∷ []
add_hop (s ∷ []) e n =
    if same_engine s.engine e
    then record { engine = s.engine; nodes = s.nodes ++ n ∷ [] } ∷ []
    else s ∷ record { engine = e; nodes = n ∷ [] } ∷ []
add_hop (s ∷ t ∷ ss) e n = s ∷ add_hop (t ∷ ss) e n

unfoldable pub at_most_two : {Node : Type 0} → List (Segment Node) → Split Node
at_most_two segs = if ltb 2 (length segs) then refused changes_twice else segments segs

module _ {Node : Type 0} (engine_for : Node → Option Engine) (is_nil : Node → Bool) where
  -- The loop over the hops.
  unfoldable pub split_hops : List (Segment Node) → List Node → Split Node
  unfolding add_hop at_most_two
  split_hops segs [] = at_most_two segs
  split_hops segs (n ∷ ns) = elim (engine_for n) [
    | none ↦ refused (if is_nil n then unparseable else cannot_dial n)
    | some e ↦ split_hops (add_hop segs e n) ns
  ]

  unfoldable pub split_chain : List Node → Split Node
  unfolding split_hops
  split_chain ns = if ltb (length ns) 2 then refused too_short else split_hops [] ns
