-- ===== src/Singbox/Tun/Admitted.antt =====
-- core/protocols.go, helper/validate/validate.go: the helper admits the configuration of a tunnel that the app writes.
use mathlib.Core.Option
use vair.Base.{
  ℕ, ◌≡◌, refl, sym, ap, ◌∙◌, Bool, true, false, not, List, [], ◌∷◌, map, Option, none, some, codes,
  same, if◌then◌else◌, arith, String, ℤ,
}
use vair.Base.Json.{Json, object, Fields, get, put, remove, items}
use vair.Helper.{Options}
use vair.Helper.Config.{
  check_paths, check_items, check_fields, check_inbounds, check_keys, check_log, check_document,
  config, with_default, check_decoded,
}
use vair.Node.{Env, Node}
use vair.Singbox.{singbox_outbound_for_node, singbox_endpoint_for_node}
use vair.Singbox.Chain.{apply_singbox_fragment}
use vair.Singbox.Tun.{
  singbox_egress, singbox_endpoints, tun_addresses, TunSettings, with_users, lan_inbound,
  tun_inbound, adapt_inbound, lan_proxy_inbounds, tun_document, build_with,
  build_singbox_tun_config,
}
use vair.Singbox.Tun.Clean.{IsCleanAt, IsClean, or_else-none, texts-clean}
use vair.Singbox.Tun.Outbounds.{
  is_json, Allowed, singbox_outbound_for_node-Allowed, singbox_endpoint_for_node-Allowed,
  apply_singbox_fragment-IsClean,
}
use vair.Singbox.Tun.Inbounds.{
  ports_allowed, names_allowed, http_lan, socks_lan, inbounds_admitted, as_objects-items,
  endpoints_admitted,
}

module _ (table : ℕ → ℕ) (opt : Options) where
  AllClean : List Fields → Type 0
  AllClean [] = Unit
  AllClean (m ∷ ms) = IsClean table opt m × AllClean ms

  check_items-objects :
      (ms : List Fields) (k : List ℕ)
      → AllClean ms
      → check_items table opt (items (map object ms)) k false ≡ none
  unfolding check_paths AllClean
  check_items-objects [] k all = refl
  check_items-objects (m ∷ ms) k (first, rest) =
      or_else-none (check_fields table opt m false) _ first (check_items-objects ms k rest)

  lan_inbound-IsClean :
      (s : TunSettings) (user pass : List ℕ) (kind tag : String) (port : ℤ)
      → same (codes kind) (codes "tun") ≡ false
      → IsClean table opt
          (adapt_inbound s (with_users user pass (lan_inbound kind tag s.bind port)))
  unfolding adapt_inbound put get remove check_paths
  lan_inbound-IsClean s user pass kind tag port h = ground (arith, h)

  tun_inbound-IsClean :
      (s : TunSettings) (name : List ℕ) → IsClean table opt (adapt_inbound s (tun_inbound s name))
  unfolding adapt_inbound put get remove check_paths
  tun_inbound-IsClean s name =
      ground (arith, texts-clean table opt (tun_addresses s) (codes "address") false refl)

  inbounds-AllClean :
      (s : TunSettings) (name : List ℕ)
      → AllClean (map (adapt_inbound s) (tun_inbound s name ∷ lan_proxy_inbounds s))
  unfolding AllClean lan_proxy_inbounds
  inbounds-AllClean s name = (tun_inbound-IsClean s name, lan s.share_proxy)
    where
      lan :
          (b : Bool)
          → AllClean
              (map (adapt_inbound s) (if b then http_lan opt s ∷ socks_lan opt s ∷ [] else []))
      lan true = (
        lan_inbound-IsClean s s.http_user s.http_pass "http" "http-lan" s.http_port refl,
        (lan_inbound-IsClean s s.socks_user s.socks_pass "socks" "socks-lan" s.socks_port refl, tt),
      )
      lan false = tt

  singbox_egress-AllClean :
      (out : Option Fields) → Allowed table opt out → AllClean (singbox_egress out)
  unfolding AllClean check_paths
  singbox_egress-AllClean none h = (refl, tt)
  singbox_egress-AllClean (some out) h = (h, (refl, tt))

  singbox_endpoints-IsClean :
      (ep : Option Fields)
      → Allowed table opt ep
      → check_paths table opt (singbox_endpoints ep) (codes "endpoints") false ≡ none
  unfolding check_paths
  singbox_endpoints-IsClean none h = refl
  singbox_endpoints-IsClean (some ep) h = or_else-none (check_fields table opt ep false) none h refl

  tun_document-IsClean :
      (s : TunSettings) (name : List ℕ) (out ep : Option Fields)
      → Allowed table opt out
      → Allowed table opt ep
      → IsCleanAt table opt (codes "dns") s.dns
      → IsCleanAt table opt (codes "route") s.route
      → IsClean table opt (tun_document s name out ep)
  unfolding check_paths
  tun_document-IsClean s name out ep at_out at_ep dns route =
      rw
        (
          dns,
          check_items-objects (map (adapt_inbound s) (tun_inbound s name ∷ lan_proxy_inbounds s))
              (codes "inbounds") (inbounds-AllClean s name),
          check_items-objects (singbox_egress out) (codes "outbounds")
              (singbox_egress-AllClean out at_out),
          singbox_endpoints-IsClean ep at_ep,
          route,
        )
        refl

  tun_document_admitted :
      (s : TunSettings) (n : Node) (name : List ℕ) (out : Option Fields)
      → opt.windows ≡ not s.linux
      → names_allowed s name ≡ true
      → ports_allowed s opt.min_listen_port ≡ true
      → IsClean table opt (tun_document s name out (singbox_endpoint_for_node n))
      → check_document table opt
          (object (tun_document s name out (singbox_endpoint_for_node n)))
          (tun_document s name out (singbox_endpoint_for_node n))
        ≡ none
  unfolding check_document check_keys check_log get check_inbounds check_paths
  tun_document_admitted s n name out platform ours ports clean =
      rw
        (
          as_objects-items (map (adapt_inbound s) (tun_inbound s name ∷ lan_proxy_inbounds s)),
          inbounds_admitted opt s name platform ours ports,
          endpoints_admitted n,
        )
        clean

  fragment-Allowed :
      (env : Env) (out : Option Fields)
      → Allowed table opt out
      → Allowed table opt (Option.map (apply_singbox_fragment env) out)
  fragment-Allowed env none h = h
  fragment-Allowed env (some out) h = apply_singbox_fragment-IsClean table opt env out h

fields_eq : (a b : Fields) → some a ≡ some b → a ≡ b
fields_eq a b e = cc

built_document :
    (env : Env) (s : TunSettings) (name : List ℕ) (out ep : Option Fields) (cfg : Fields)
    → build_with env s name out ep ≡ some cfg
    → tun_document s name (Option.map (apply_singbox_fragment env) out) ep ≡ cfg
built_document env s name none none cfg h = absurd (ground (arith, h))
built_document env s name none (some ep) cfg h = fields_eq _ cfg h
built_document env s name (some out) ep cfg h = fields_eq _ cfg h

-- The configuration that the app writes for a tunnel on sing-box is admitted by the helper that is
-- to run it with privileges. The node is not a configuration of the user's own, the tunnel's name
-- is one of ours (on Linux it always is), the ports that are shared with the network are not under
-- the helper's limit, and the blocks `dns` and `route` name no file outside the helper's folders; the helper reads the text that
-- it gets as that configuration.
pub build_singbox_tun_config-IsAdmitted :
    (unmarshal : List ℕ → Option Json) (table : ℕ → ℕ) (raw : List ℕ) (opt : Options) (env : Env)
    (s : TunSettings) (n : Node) (name : List ℕ) (cfg : Fields)
    → is_json n ≡ false
    → opt.windows ≡ not s.linux
    → names_allowed s name ≡ true
    → ports_allowed s (with_default opt).min_listen_port ≡ true
    → IsCleanAt table (with_default opt) (codes "dns") s.dns
    → IsCleanAt table (with_default opt) (codes "route") s.route
    → build_singbox_tun_config env s n name ≡ some cfg
    → unmarshal raw ≡ some (object cfg)
    → config unmarshal table raw opt ≡ none
unfolding build_singbox_tun_config config
build_singbox_tun_config-IsAdmitted unmarshal table raw opt env s n name cfg parsed platform ours
      ports dns route built read =
    let limits = with_default opt in
    let out = Option.map (apply_singbox_fragment env) (singbox_outbound_for_node env n) in
    let doc =
      built_document env s name (singbox_outbound_for_node env n) (singbox_endpoint_for_node n) cfg
        built in
    let allowed =
      fragment-Allowed table limits env (singbox_outbound_for_node env n)
        (singbox_outbound_for_node-Allowed table limits env n parsed) in
    ap (check_decoded table limits) read
    ∙ ap (λ m. check_document table limits (object m) m) (sym doc)
    ∙ tun_document_admitted table limits s n name out platform ours ports (
        tun_document-IsClean table limits s name out (singbox_endpoint_for_node n) allowed
          (singbox_endpoint_for_node-Allowed table limits n) dns route)
