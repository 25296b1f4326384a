-- ===== src/Dial.antt =====
-- core/protocols.go, core/chainsplit.go: the engine that carries a node, a hop and a chain.
pub mod Carried
use vair.Base.{
  ℕ, Bool, true, false, ◌&&◌, ◌||◌, not, List, [], ◌∷◌, Option, none, some, codes, is_empty, same,
  if◌then◌else◌,
}
use vair.Base.Json.{Fields}
use vair.Chain.{Engine, xray, singbox}
use vair.Node.{
  Env, Node, vless, trojan, vmess, shadowsocks, hysteria2, tuic, wireguard, proxy, json, is,
  plugin_supported_by_singbox, skips_cert_check, kind_is_singbox,
}
use vair.Singbox.{singbox_outbound_for_node, singbox_endpoint_for_node}
use vair.Xray.{xray_outbound_for_node}

abbrev pub is_some : Option Fields → Bool
is_some none = false
is_some (some m) = true

-- The node is Shadowsocks with a plugin that only sing-box runs.
abbrev pub has_singbox_plugin : Env → Node → Bool
has_singbox_plugin env (shadowsocks p) =
    not (is_empty p.plugin_name) && plugin_supported_by_singbox env p.plugin_name
has_singbox_plugin env _ = false

-- `engineFor`.
abbrev pub engine_for : Node → List ℕ
engine_for n = if kind_is_singbox n then codes "singbox" else codes "xray"

-- A JSON configuration goes to the engine that it was written for.
abbrev pub own_engine : Node → List ℕ
own_engine (json p) = p.engine
own_engine n = engine_for n

unfoldable pub engine_for_node : Env → Node → List ℕ
unfolding skips_cert_check plugin_supported_by_singbox kind_is_singbox
engine_for_node env n =
    if skips_cert_check n && is_some (singbox_outbound_for_node env n)
    then codes "singbox"
    else if has_singbox_plugin env n
    then codes "singbox"
    else own_engine n

abbrev pub carried_by_xray : Env → Node → Bool
carried_by_xray env n = is "xray" (engine_for_node env n) && is_some (xray_outbound_for_node env n)

abbrev pub carried_by_singbox : Env → Node → Bool
carried_by_singbox env n =
    is_some (singbox_outbound_for_node env n) || is_some (singbox_endpoint_for_node n)

-- `nil` is a configuration that could not be parsed.
unfoldable pub engine_for_chain_hop : Env → Option Node → Option Engine
unfolding engine_for_node
engine_for_chain_hop env none = none
engine_for_chain_hop env (some n) =
    if carried_by_xray env n
    then some xray
    else if carried_by_singbox env n
    then some singbox
    else none

-- The engine, or why there is none.
pub data Choice : Type 0 where
  chosen : Engine → Choice
  too_few unparseable mixed : Choice

abbrev pub decide : Bool → Bool → Choice
decide all_xray all_singbox =
    if all_xray then chosen xray else if all_singbox then chosen singbox else mixed

-- The loop over the nodes.
unfoldable pub choose_engine : Env → Bool → Bool → List (Option Node) → Choice
choose_engine env all_xray all_singbox [] = decide all_xray all_singbox
choose_engine env all_xray all_singbox (none ∷ ns) = unparseable
choose_engine env all_xray all_singbox (some n ∷ ns) =
    choose_engine env (all_xray && carried_by_xray env n) (all_singbox && carried_by_singbox env n)
      ns

unfoldable pub chain_engine : Env → List (Option Node) → Choice
unfolding choose_engine engine_for_node
chain_engine env [] = too_few
chain_engine env (n ∷ []) = too_few
chain_engine env (n ∷ m ∷ ns) = choose_engine env true true (n ∷ m ∷ ns)
