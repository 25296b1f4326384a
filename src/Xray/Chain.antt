-- ===== src/Xray/Chain.antt =====
-- core/protocols.go: xray's whole configuration, of one node and of a chain, and the fragment
-- outbound that the first hop is dialled through.

pub mod Wiring
pub mod Path
pub mod Whole
use mathlib.Core.Option
use vair.Base.{
  ℕ, zero, suc, ◌-◌, Bool, true, false, ◌&&◌, ◌||◌, not, List, [], ◌∷◌, ◌++◌, map, Option, none,
  some, String, codes, is_empty, cons_some, if◌then◌else◌, ℤ, length, ◌==◌, cons_some,
}
use vair.Base.Json.{
  Json, null, boolean, number, text, array, object, Items, no_items, item, Fields, no_fields, get,
  put, word, entries, put_if, items, texts, object_of, text_of, append_items, inner,
}
use vair.Hops.{tag_for}
use vair.Node.{Env, Node}
use vair.Singbox.{is_positive}
use vair.Xray.{xray_outbound_for_node, one}

-- The parameters of the shell: the ports and the accounts of the local listeners.
pub record Access : Type 0 where
  pub http_port : ℤ
  pub socks_port : ℤ
  pub socks_user : List ℕ
  pub socks_pass : List ℕ
  pub http_user : List ℕ
  pub http_pass : List ℕ

abbrev pub direct_outbound : Env → Fields
direct_outbound env = entries (
    ("tag", word "direct")
    ∷ ("protocol", word "freedom")
    ∷ ("settings", object (entries (("domainStrategy", text env.direct_strategy) ∷ [])))
    ∷ [])

abbrev pub block_outbound : Fields
block_outbound =
    entries
      (("tag", word "block") ∷ ("protocol", word "blackhole") ∷ ("settings", object no_fields) ∷ [])

abbrev account : List ℕ → List ℕ → Json
account user pass = one (entries (("user", text user) ∷ ("pass", text pass) ∷ []))

abbrev sniffing : Bool → Json
sniffing persistent = object (
    entries (
      ("enabled", boolean persistent)
      ∷ ("destOverride", array (texts (codes "http" ∷ codes "tls" ∷ codes "quic" ∷ [])))
      ∷ []))

abbrev http_settings : Access → Fields
http_settings a =
    if is_empty a.http_user
    then no_fields
    else entries (("accounts", account a.http_user a.http_pass) ∷ [])

abbrev socks_settings : Access → Fields
socks_settings a =
    if is_empty a.socks_user
    then entries (("udp", boolean true) ∷ ("auth", word "noauth") ∷ [])
    else entries (
        ("udp", boolean true)
        ∷ ("auth", word "password")
        ∷ ("accounts", account a.socks_user a.socks_pass)
        ∷ [])

abbrev listener : String → ℤ → Fields → Bool → Json
listener protocol port settings persistent = object (
    entries (
      ("tag", word protocol)
      ∷ ("listen", word "127.0.0.1")
      ∷ ("port", number port)
      ∷ ("protocol", word protocol)
      ∷ ("settings", object settings)
      ∷ ("sniffing", sniffing persistent)
      ∷ []))

unfoldable pub xray_shell : Env → Access → Fields
xray_shell env a =
    let persistent = is_positive a.socks_port in
    let http = listener "http" a.http_port (http_settings a) persistent in
    let socks = listener "socks" a.socks_port (socks_settings a) true in
    entries (
      ("log", env.xray_log)
      ∷ ("inbounds", array (if persistent then items (http ∷ socks ∷ []) else items (http ∷ [])))
      ∷ (
        "outbounds",
        array (items (null ∷ object (direct_outbound env) ∷ object block_outbound ∷ [])),
      )
      ∷ [])

abbrev pub sockopt : Fields → Fields
sockopt ob = inner (codes "sockopt") (inner (codes "streamSettings") ob)

-- `streamSettings.sockopt.dialerProxy`.
unfoldable pub dialer : Fields → Option Json
dialer ob = get (codes "dialerProxy") (sockopt ob)

-- Sets it, and makes the maps on the way where they are missing.
unfoldable pub dial_through : List ℕ → Fields → Fields
dial_through t ob =
    let ss = inner (codes "streamSettings") ob in
    put (codes "streamSettings")
      (object (put (codes "sockopt") (object (put (codes "dialerProxy") (text t) (sockopt ob))) ss))
      ob

abbrev pub fragment_outbound : Env → Fields
fragment_outbound env = entries (
    ("tag", word "fragment")
    ∷ ("protocol", word "freedom")
    ∷ (
      "settings",
      object (
          entries (
            ("domainStrategy", word "AsIs")
            ∷ (
              "fragment",
              object (
                  entries (
                    ("packets", word "tlshello")
                    ∷ ("length", text env.fragment_length)
                    ∷ ("interval", text env.fragment_interval)
                    ∷ [])),
            )
            ∷ [])),
    )
    ∷ (
      "streamSettings",
      object (entries (("sockopt", object (entries (("tcpNoDelay", boolean true) ∷ []))) ∷ [])),
    )
    ∷ [])

abbrev fragmented : Env → Fields → Items → Option Json → Option Items
fragmented env entry rest (some v) = none
fragmented env entry rest none = some (
    item (object (dial_through (codes "fragment") entry))
      (append_items rest (item (object (fragment_outbound env)) no_items)))

-- The outbounds behind it, if it changes them.
unfoldable pub fragment_outbounds : Env → Option Json → Option Items
unfolding dialer dial_through append_items
fragment_outbounds env (some (array (item (object entry) rest))) =
    fragmented env entry rest (dialer entry)
fragment_outbounds env _ = none

abbrev set_outbounds : Option Items → Fields → Fields
set_outbounds none cfg = cfg
set_outbounds (some outs) cfg = put (codes "outbounds") (array outs) cfg

unfoldable pub apply_xray_fragment : Env → Fields → Fields
unfolding fragment_outbounds get put
apply_xray_fragment env cfg =
    if env.fragment
    then set_outbounds (fragment_outbounds env (get (codes "outbounds") cfg)) cfg
    else cfg

module _ (env : Env) where
  -- A hop's outbound with its tag, dialled through the hop before it.
  unfoldable pub xray_hop : ℕ → ℕ → Fields → Fields
  unfolding tag_for dial_through put
  xray_hop last zero ob = put (codes "tag") (text (tag_for env.show last 0)) ob
  xray_hop last (suc i) ob =
      dial_through (tag_for env.show last i)
        (put (codes "tag") (text (tag_for env.show last (suc i))) ob)

  unfoldable pub xray_hops : ℕ → ℕ → List Node → Option (List Fields)
  unfolding xray_hop
  xray_hops last i [] = some []
  xray_hops last i (n ∷ ns) =
      cons_some (Option.map (xray_hop last i) (xray_outbound_for_node env n))
        (xray_hops last (suc i) ns)

-- `routing` is what `xrayRoutingForProxy` returns.
module _ (env : Env) (routing : Json) (a : Access) where
  unfoldable pub finish_xray : List Fields → Fields
  unfolding apply_xray_fragment xray_shell put
  finish_xray hops =
      let outs = map object hops ++ object (direct_outbound env) ∷ object block_outbound ∷ [] in
      apply_xray_fragment env (
        put_if (is_positive a.socks_port) "routing" routing
          (put (codes "outbounds") (array (items outs)) (xray_shell env a)))

  unfoldable pub build_xray_config_for_node : Node → Option Fields
  unfolding finish_xray
  build_xray_config_for_node n =
      Option.map (λ ob. finish_xray (ob ∷ [])) (xray_outbound_for_node env n)

  unfoldable pub build_xray_chain_config : List Node → Option Fields
  unfolding build_xray_config_for_node xray_hops finish_xray
  build_xray_chain_config [] = none
  build_xray_chain_config (n ∷ []) = build_xray_config_for_node n
  build_xray_chain_config (n ∷ m ∷ ns) =
      Option.map finish_xray (xray_hops env (suc (length ns)) 0 (n ∷ m ∷ ns))
