-- ===== src/Dial/Carried.antt =====
-- The engine that is chosen can carry what it is chosen for.
use mathlib.Core.Option
use vair.Base.{
  ◌≡◌, refl, sym, ap, ◌∙◌, Bool, true, false, ◌&&◌, ◌||◌, List, [], ◌∷◌, map, Option, none, some,
  if◌then◌else◌, arith,
}
use vair.Base.Json.{Json, Fields}
use vair.Chain.{Engine, xray, singbox}
use vair.Node.{
  Env, Node, vless, trojan, vmess, shadowsocks, hysteria2, tuic, wireguard, proxy, json, is,
}
use vair.Singbox.{singbox_outbound_for_node, singbox_endpoint_for_node}
use vair.Singbox.Chain.{
  Egress, outbound, endpoint, or_endpoint, egress_of, each_egress, singbox_chain_egress, wired,
}
use vair.Xray.{xray_outbound_for_node, json_outbound_for}
use vair.Xray.Chain.{Access, build_xray_chain_config}
use vair.Singbox.Chain.Whole.{each_egress-cons}
use vair.Xray.Chain.Whole.{built, raw_outbounds-cons}
use vair.Xray.Chain.Wiring.{raw_outbounds}
use vair.Dial.{
  is_some, engine_for_node, carried_by_xray, carried_by_singbox, chosen, decide, choose_engine,
  chain_engine,
}

-- A JSON configuration is for one of the two engines.
abbrev pub IsForKnownEngine : Node → Type 0
IsForKnownEngine (json p) = (is "xray" p.engine || is "singbox" p.engine) ≡ true
IsForKnownEngine n = Unit {0}

-- The engine that a node runs on can carry it.
abbrev pub engine_carries : Env → Node → Bool
engine_carries env n =
    if is "xray" (engine_for_node env n)
    then is_some (xray_outbound_for_node env n)
    else is "singbox" (engine_for_node env n) && carried_by_singbox env n

-- Every node is sent to an engine that can carry it: to xray, where there is an outbound for it, or
-- to sing-box, where there is an outbound or an endpoint. A configuration given as JSON is for one
-- of the two engines.
pub engine_for_node-carries :
    (env : Env) (n : Node) → IsForKnownEngine n → engine_carries env n ≡ true
unfolding engine_for_node xray_outbound_for_node singbox_outbound_for_node singbox_endpoint_for_node
    json_outbound_for
engine_for_node-carries env (vless p) k = ground arith
engine_for_node-carries env (trojan p) k = ground arith
engine_for_node-carries env (vmess p) k = ground arith
engine_for_node-carries env (shadowsocks p) k = ground arith
engine_for_node-carries env (hysteria2 p) k = ground arith
engine_for_node-carries env (tuic p) k = ground arith
engine_for_node-carries env (wireguard p) k = ground arith
engine_for_node-carries env (proxy p) k = ground arith
engine_for_node-carries env (json p) k = ground arith

pub choose_engine_eq :
    (env : Env) (x s : Bool) (nodes : List (Option Node)) (e : Engine)
    → choose_engine env x s nodes ≡ chosen e
    → (ns : List Node) × (nodes ≡ map some ns)
unfolding choose_engine
choose_engine_eq env x s [] e h = ([], refl)
choose_engine_eq env x s (none ∷ nodes) e h = absurd (cc)
choose_engine_eq env x s (some n ∷ nodes) e h =
    let (ns, equal) =
      choose_engine_eq env (x && carried_by_xray env n) (s && carried_by_singbox env n) nodes e h in
    (n ∷ ns, ap (λ r. some n ∷ r) equal)

abbrev pub every : (Node → Bool) → List Node → Bool
every p [] = true
every p (n ∷ ns) = p n && every p ns

and_assoc : (a b c : Bool) → ((a && b) && c) ≡ (a && (b && c))
and_assoc a b c = ground arith

choose_engine-map :
    (env : Env) (x s : Bool) (ns : List Node)
    → choose_engine env x s (map some ns)
      ≡ decide (x && every (carried_by_xray env) ns) (s && every (carried_by_singbox env) ns)
unfolding choose_engine
choose_engine-map env x s [] = ground arith
choose_engine-map env x s (n ∷ ns) =
    choose_engine-map env (x && carried_by_xray env n) (s && carried_by_singbox env n) ns
    ∙ ap
        (λ (b : Bool).
          decide b ((s && carried_by_singbox env n) && every (carried_by_singbox env) ns))
        (and_assoc x (carried_by_xray env n) (every (carried_by_xray env) ns))
    ∙ ap (λ (b : Bool). decide (x && every (carried_by_xray env) (n ∷ ns)) b)
        (and_assoc s (carried_by_singbox env n) (every (carried_by_singbox env) ns))

decide-xray : (a b : Bool) → decide a b ≡ chosen xray → a ≡ true
decide-xray a b h = ground (arith, h)

decide-singbox : (a b : Bool) → decide a b ≡ chosen singbox → b ≡ true
decide-singbox a b h = ground (arith, h)

there : (o : Option Fields) → is_some o ≡ true → (m : Fields) × (o ≡ some m)
there none h = absurd (ground (arith, h))
there (some m) h = (m, refl)

egress_there :
    (o p : Option Fields)
    → (is_some o || is_some p) ≡ true
    → (e : Egress) × (or_endpoint o p ≡ some e)
egress_there (some m) p h = (outbound m, refl)
egress_there none (some m) h = (endpoint m, refl)
egress_there none none h = absurd (ground (arith, h))

and_parts : (a b : Bool) → (a && b) ≡ true → (a ≡ true) × (b ≡ true)
and_parts true b h = (refl, h)
and_parts false b h = absurd (ground (arith, h))

every-raw_outbounds :
    (env : Env) (ns : List Node)
    → every (carried_by_xray env) ns ≡ true
    → (obs : List Fields) × (raw_outbounds env ns ≡ some obs)
unfolding raw_outbounds
every-raw_outbounds env [] h = ([], refl)
every-raw_outbounds env (n ∷ ns) h =
    let (one, more) = and_parts (carried_by_xray env n) (every (carried_by_xray env) ns) h in
    let (ob, has) =
      there (xray_outbound_for_node env n)
        (and_parts (is "xray" (engine_for_node env n)) _ one).1 in
    let (obs, rest) = every-raw_outbounds env ns more in
    (ob ∷ obs, raw_outbounds-cons env n ns ob obs has rest)

every-each_egress :
    (env : Env) (ns : List Node)
    → every (carried_by_singbox env) ns ≡ true
    → (es : List Egress) × (each_egress env ns ≡ some es)
unfolding each_egress egress_of
every-each_egress env [] h = ([], refl)
every-each_egress env (n ∷ ns) h =
    let (one, more) = and_parts (carried_by_singbox env n) (every (carried_by_singbox env) ns) h in
    let (e, has) =
      egress_there (singbox_outbound_for_node env n) (singbox_endpoint_for_node n) one in
    let (es, rest) = every-each_egress env ns more in
    (e ∷ es, each_egress-cons env n ns e es has rest)

-- The engine has a configuration for the chain.
abbrev pub IsBuilt : Env → Json → Access → Engine → List Node → Type 0
IsBuilt env routing a xray ns =
    (cfg : Fields) × (build_xray_chain_config env routing a ns ≡ some cfg)
IsBuilt env routing a singbox ns =
    (r : List Fields × List Fields) × (singbox_chain_egress env ns ≡ some r)

result {ℓ} : {A : Type ℓ} {o : Option A} {x : A} → o ≡ some x → (y : A) × (o ≡ some y)
result {x = x} h = (x, h)

module _ (env : Env) (routing : Json) (a : Access) where
  every-IsBuilt :
      (e : Engine) (n m : Node) (ns : List Node)
      → decide
          (true && every (carried_by_xray env) (n ∷ m ∷ ns))
          (true && every (carried_by_singbox env) (n ∷ m ∷ ns))
        ≡ chosen e
      → IsBuilt env routing a e (n ∷ m ∷ ns)
  unfolding singbox_chain_egress
  every-IsBuilt xray n m ns h =
      let all = decide-xray _ (every (carried_by_singbox env) (n ∷ m ∷ ns)) h in
      let (one, more) =
        and_parts (carried_by_xray env n) (every (carried_by_xray env) (m ∷ ns)) all in
      let (ob, has) =
        there (xray_outbound_for_node env n)
          (and_parts (is "xray" (engine_for_node env n)) _ one).1 in
      let (obs, rest) = every-raw_outbounds env (m ∷ ns) more in
      result (built env routing a n m ns ob obs has rest)
  every-IsBuilt singbox n m ns h =
      let all = decide-singbox (every (carried_by_xray env) (n ∷ m ∷ ns)) _ h in
      let (es, has) = every-each_egress env (n ∷ m ∷ ns) all in
      result (ap (Option.map (wired env)) has)

  chosen-IsBuilt :
      (n m : Option Node) (nodes : List (Option Node)) (e : Engine)
      → choose_engine env true true (n ∷ m ∷ nodes) ≡ chosen e
      → (ns : List Node) → (n ∷ m ∷ nodes) ≡ map some ns
      → IsBuilt env routing a e ns
  chosen-IsBuilt n m nodes e h [] equal = absurd (ground (arith, equal))
  chosen-IsBuilt n m nodes e h (x ∷ []) equal = absurd (ground (arith, equal))
  chosen-IsBuilt n m nodes e h (x ∷ y ∷ ns) equal = every-IsBuilt e x y ns (
      sym (choose_engine-map env true true (x ∷ y ∷ ns))
      ∙ ap (choose_engine env true true) (sym equal)
      ∙ h)

  -- The engine that is chosen for a chain builds it: every configuration in it could be parsed,
  -- and xray's chain configuration, or sing-box's outbounds and endpoints, are there.
  pub chain_engine-IsBuilt :
      (nodes : List (Option Node)) (e : Engine)
      → chain_engine env nodes ≡ chosen e
      → (ns : List Node) × (nodes ≡ map some ns) × IsBuilt env routing a e ns
  unfolding chain_engine
  chain_engine-IsBuilt [] e h = absurd (ground (arith, h))
  chain_engine-IsBuilt (n ∷ []) e h = absurd (ground (arith, h))
  chain_engine-IsBuilt (n ∷ m ∷ nodes) e h =
      let (ns, equal) = choose_engine_eq env true true (n ∷ m ∷ nodes) e h in
      (ns, equal, chosen-IsBuilt n m nodes e h ns equal)
