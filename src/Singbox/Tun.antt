-- ===== src/Singbox/Tun.antt =====
-- core/protocols.go, engine.go, tunconfig_linux.go: the configuration of a tunnel on sing-box alone.

pub mod Clean
pub mod Admitted
pub mod Inbounds
pub mod Outbounds
use vair.Base.{
  ℕ, Bool, true, false, not, List, [], ◌∷◌, ◌++◌, map, Option, none, some, String, codes, is_empty,
  if◌then◌else◌, ℤ,
}
use vair.Base.Json.{
  Json, null, boolean, number, text, array, object, Fields, get, put, remove, word, entries, put_if,
  items, texts,
}
use vair.Helper.Config.{text_field}
use vair.Node.{Env, Node, is}
use vair.Singbox.{singbox_outbound_for_node, singbox_endpoint_for_node}
use vair.Singbox.Chain.{direct, apply_singbox_fragment}

-- What the settings and the platform give. `dns` and `route` are what `buildDNSBlock` and the
-- routing functions return, as it stands when the configuration goes to the helper.
pub record TunSettings : Type 0 where
  pub share_proxy : Bool
  pub http_port : ℤ
  pub socks_port : ℤ
  pub bind : List ℕ
  pub http_user : List ℕ
  pub http_pass : List ℕ
  pub socks_user : List ℕ
  pub socks_pass : List ℕ
  pub ipv6 : Bool
  pub mtu : ℤ
  pub leak_protect : Bool
  pub stack : List ℕ
  pub log_level : List ℕ
  pub linux : Bool
  pub dns : Json
  pub route : Json

abbrev pub with_users : List ℕ → List ℕ → Fields → Fields
with_users user pass m =
    put_if (not (is_empty user)) "users"
      (array
        (items (object (entries (("username", text user) ∷ ("password", text pass) ∷ [])) ∷ [])))
      m

abbrev pub lan_inbound : String → String → List ℕ → ℤ → Fields
lan_inbound kind tag bind port = entries (
    ("type", word kind)
    ∷ ("tag", word tag)
    ∷ ("listen", text bind)
    ∷ ("listen_port", number port)
    ∷ [])

unfoldable pub lan_proxy_inbounds : TunSettings → List Fields
unfolding put
lan_proxy_inbounds s =
    if s.share_proxy
    then with_users s.http_user s.http_pass (lan_inbound "http" "http-lan" s.bind s.http_port)
      ∷ with_users s.socks_user s.socks_pass (lan_inbound "socks" "socks-lan" s.bind s.socks_port)
      ∷ []
    else []

abbrev pub tun_addresses : TunSettings → List (List ℕ)
tun_addresses s =
    codes "172.19.0.1/30" ∷ (if s.ipv6 then codes "fdfe:dcba:9876::1/126" ∷ [] else [])

abbrev pub tun_inbound : TunSettings → List ℕ → Fields
tun_inbound s name = entries (
    ("type", word "tun")
    ∷ ("tag", word "tun-in")
    ∷ ("interface_name", text name)
    ∷ ("address", array (texts (tun_addresses s)))
    ∷ ("mtu", number s.mtu)
    ∷ ("auto_route", boolean true)
    ∷ ("strict_route", boolean s.leak_protect)
    ∷ ("stack", text s.stack)
    ∷ [])

-- `adaptTUNConfig` on one inbound: there is nothing to adapt on Windows.
unfoldable pub adapt_inbound : TunSettings → Fields → Fields
unfolding get put remove
adapt_inbound s m =
    if s.linux
    then (if is "tun" (text_field (codes "type") m)
        then put (codes "auto_redirect") (boolean true)
            (remove (codes "strict_route") (put (codes "interface_name") (word "vair0") m))
        else m)
    else m

abbrev pub singbox_egress : Option Fields → List Fields
singbox_egress none = direct ∷ []
singbox_egress (some out) = out ∷ direct ∷ []

abbrev pub singbox_endpoints : Option Fields → Json
singbox_endpoints none = null
singbox_endpoints (some ep) = array (items (object ep ∷ []))

abbrev pub tun_document : TunSettings → List ℕ → Option Fields → Option Fields → Fields
tun_document s name out ep = entries (
    ("log", object (entries (("level", text s.log_level) ∷ ("timestamp", boolean true) ∷ [])))
    ∷ ("dns", s.dns)
    ∷ (
      "inbounds",
      array
          (items (map object (map (adapt_inbound s) (tun_inbound s name ∷ lan_proxy_inbounds s)))),
    )
    ∷ ("outbounds", array (items (map object (singbox_egress out))))
    ∷ ("endpoints", singbox_endpoints ep)
    ∷ ("route", s.route)
    ∷ [])

abbrev pub build_with : Env → TunSettings → List ℕ → Option Fields → Option Fields → Option Fields
build_with env s name none none = none
build_with env s name none (some ep) = some (tun_document s name none (some ep))
build_with env s name (some out) ep =
    some (tun_document s name (some (apply_singbox_fragment env out)) ep)

unfoldable pub build_singbox_tun_config : Env → TunSettings → Node → List ℕ → Option Fields
unfolding lan_proxy_inbounds adapt_inbound apply_singbox_fragment
build_singbox_tun_config env s n name =
    build_with env s name (singbox_outbound_for_node env n) (singbox_endpoint_for_node n)
