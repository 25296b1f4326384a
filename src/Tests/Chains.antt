-- ===== src/Tests/Chains.antt =====
-- core/chainsplit.go: a chain of a WireGuard hop and two VLESS hops.
use vair.Base.{ℕ, zero, suc, ◌≡◌, refl, Bool, false, List, [], ◌∷◌, Option, none, some, arith, ◌≢◌}
use vair.Chain.{Engine, xray, singbox, Segment, segments, split_chain}
use vair.Chain.Runs.{split_chain-hops}

-- The hop 1 is a WireGuard peer, the others are VLESS servers.
abbrev dialer : ℕ → Option Engine
dialer zero = none
dialer (suc zero) = some singbox
dialer (suc (suc n)) = some xray

abbrev never_nil : ℕ → Bool
never_nil n = false

abbrev entry : Segment ℕ
entry = record { engine = singbox; nodes = 1 ∷ [] }

abbrev exit : Segment ℕ
exit = record { engine = xray; nodes = 2 ∷ 3 ∷ [] }

one_some : (n : ℕ) (ns : List ℕ) → n ∷ ns ≢ []
one_some n ns e = cc

split_chain-hops_example :
    split_chain dialer never_nil (1 ∷ 2 ∷ 3 ∷ []) ≡ segments (entry ∷ exit ∷ [])
split_chain-hops_example =
    split_chain-hops dialer never_nil entry (exit ∷ [])
      (one_some 1 [], (refl, tt), tt, (one_some 2 (3 ∷ []), (refl, (refl, tt)), refl, tt))
      (omega arith) (omega arith)

three_hops : split_chain dialer never_nil (1 ∷ 2 ∷ 3 ∷ []) ≡ segments (entry ∷ exit ∷ [])
unfolding split_chain vair.Chain.add_hop vair.Chain.at_most_two
three_hops = refl
