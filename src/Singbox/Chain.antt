-- ===== src/Singbox/Chain.antt =====
-- core/protocols.go, settings.go: what a connection leaves through in sing-box, of one node and of
-- a chain, and the cut of the first handshake.

pub mod Path
pub mod Whole
use mathlib.Core.Option
use vair.Base.{
  ℕ, zero, suc, Bool, true, false, ◌&&◌, ◌||◌, not, List, [], ◌∷◌, ◌++◌, Option, none, some, codes,
  cons_some, if◌then◌else◌, length, ◌-◌,
}
use vair.Base.Json.{Json, boolean, text, object, Fields, get, put, word, entries}
use vair.Hops.{tag_for}
use vair.Node.{Env, Node, is}
use vair.Singbox.{singbox_outbound_for_node, singbox_endpoint_for_node}

-- The protocols with a handshake over TCP.
abbrev pub is_cut : Option Json → Bool
is_cut (some (text t)) = is "vless" t || is "trojan" t || is "vmess" t || is "http" t
is_cut _ = false

abbrev pub is_there : Option Json → Bool
is_there none = false
is_there (some v) = true

abbrev pub is_enabled : Option Json → Bool
is_enabled (some (boolean b)) = b
is_enabled _ = false

abbrev pub cut_tls : Env → Fields → Fields
cut_tls env tls =
    put (codes "fragment_fallback_delay") (text env.fragment_delay)
      (put (codes "record_fragment") (boolean true) (put (codes "fragment") (boolean true) tls))

abbrev pub with_cut : Env → Option Json → Fields → Fields
with_cut env (some (object tls)) out =
    if is_enabled (get (codes "enabled") tls)
    then put (codes "tls") (object (cut_tls env tls)) out
    else out
with_cut env _ out = out

unfoldable pub apply_singbox_fragment : Env → Fields → Fields
unfolding get put
apply_singbox_fragment env out =
    if env.fragment && is_cut (get (codes "type") out) && not (is_there (get (codes "detour") out))
    then with_cut env (get (codes "tls") out) out
    else out

-- An outbound, or an endpoint of a protocol that owns an interface.
pub data Egress : Type 0 where
  outbound endpoint : Fields → Egress

abbrev pub fields_of : Egress → Fields
fields_of (outbound m) = m
fields_of (endpoint m) = m

abbrev pub or_endpoint : Option Fields → Option Fields → Option Egress
or_endpoint (some out) ep = some (outbound out)
or_endpoint none (some ep) = some (endpoint ep)
or_endpoint none none = none

unfoldable pub egress_of : Env → Node → Option Egress
egress_of env n = or_endpoint (singbox_outbound_for_node env n) (singbox_endpoint_for_node n)

unfoldable pub each_egress : Env → List Node → Option (List Egress)
unfolding egress_of
each_egress env [] = some []
each_egress env (n ∷ ns) = cons_some (egress_of env n) (each_egress env ns)

-- A hop with its tag; all but the first one go out through the one before.
unfoldable pub singbox_hop : Env → ℕ → ℕ → Fields → Fields
unfolding apply_singbox_fragment tag_for put
singbox_hop env last zero m =
    apply_singbox_fragment env (put (codes "tag") (text (tag_for env.show last 0)) m)
singbox_hop env last (suc i) m =
    put (codes "detour") (text (tag_for env.show last i))
      (put (codes "tag") (text (tag_for env.show last (suc i))) m)

abbrev pub direct : Fields
direct = entries (("type", word "direct") ∷ ("tag", word "direct") ∷ [])

module _ (env : Env) (last : ℕ) where
  -- The outbounds of the hops from `i` on, and their endpoints.
  unfoldable pub outbound_hops : ℕ → List Egress → List Fields
  unfolding singbox_hop
  outbound_hops i [] = []
  outbound_hops i (outbound m ∷ es) = singbox_hop env last i m ∷ outbound_hops (suc i) es
  outbound_hops i (endpoint m ∷ es) = outbound_hops (suc i) es

  unfoldable pub endpoint_hops : ℕ → List Egress → List Fields
  unfolding singbox_hop
  endpoint_hops i [] = []
  endpoint_hops i (outbound m ∷ es) = endpoint_hops (suc i) es
  endpoint_hops i (endpoint m ∷ es) = singbox_hop env last i m ∷ endpoint_hops (suc i) es

-- The outbounds and the endpoints of a chain.
abbrev pub wired : Env → List Egress → List Fields × List Fields
wired env es =
    let last = length es - 1 in
    (outbound_hops env last 0 es ++ direct ∷ [], endpoint_hops env last 0 es)

unfoldable pub singbox_chain_egress : Env → List Node → Option (List Fields × List Fields)
unfolding each_egress outbound_hops endpoint_hops
singbox_chain_egress env [] = none
singbox_chain_egress env (n ∷ []) = none
singbox_chain_egress env (n ∷ m ∷ ns) = Option.map (wired env) (each_egress env (n ∷ m ∷ ns))
