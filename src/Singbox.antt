-- ===== src/Singbox.antt =====
-- core/protocols.go, proxyproto.go, wireguard.go: the outbound or the endpoint of one node in
-- sing-box's configuration, and the engine that carries a node.

pub mod Asked
pub mod Blocks
pub mod Chain
pub mod Protected
pub mod Tun
use vair.Base.{
  ℕ, Bool, true, false, ◌&&◌, ◌||◌, not, List, [], ◌∷◌, Option, none, some, String, codes, is_empty,
  if◌then◌else◌, ℤ, pos, negsuc, zero, suc, ◌==◌, length,
}
use vair.Base.Json.{
  Json, boolean, number, text, array, object, Items, no_items, item, Fields, get, put, word,
  entries, put_if, texts, object_of, text_of,
}
use vair.Node.{
  Env, is, VlessParams, TrojanParams, VmessParams, SsParams, Hysteria2Params, TuicParams,
  WireGuardParams, ProxyParams, JsonParams, Node, vless, trojan, vmess, shadowsocks, hysteria2,
  tuic, wireguard, proxy, json, first_non_empty, split_alpn, singbox_plugin_name,
  plugin_supported_by_singbox, skips_cert_check, kind_is_singbox,
}
use vair.Xray.{json_outbound_for}
use vair.Singbox.Blocks.{
  TlsOptions, utls, singbox_can_carry_tls, singbox_tls, singbox_transport, Transport, unsupported,
  plain, over, add_some, with_blocks,
}

abbrev pub or_h3 : List (List ℕ) → List (List ℕ)
or_h3 [] = codes "h3" ∷ []
or_h3 (a ∷ as') = a ∷ as'

-- What Hysteria2 and TUIC do alike.
abbrev pub quic_tls : Env → List ℕ → List ℕ → List ℕ → Bool → Fields
quic_tls env sni host alpn insecure =
    put_if (not (is_empty (first_non_empty sni host))) "server_name"
      (text (first_non_empty sni host))
      (entries (
        ("enabled", boolean true)
        ∷ ("insecure", boolean insecure)
        ∷ ("alpn", array (texts (or_h3 (split_alpn env alpn))))
        ∷ []))

unfoldable pub singbox_outbound_hysteria2 : Env → Hysteria2Params → Fields
unfolding put
singbox_outbound_hysteria2 env p =
    put_if (not (is_empty p.obfs_type)) "obfs"
      (object (entries (("type", text p.obfs_type) ∷ ("password", text p.obfs_password) ∷ [])))
      (entries (
        ("type", word "hysteria2")
        ∷ ("tag", word "proxy")
        ∷ ("server", text p.host)
        ∷ ("server_port", number p.port)
        ∷ ("password", text p.password)
        ∷ ("tls", object (quic_tls env p.sni p.host p.alpn p.insecure))
        ∷ []))

unfoldable pub singbox_outbound_tuic : Env → TuicParams → Fields
unfolding put
singbox_outbound_tuic env p =
    put_if (not (is_empty p.udp_relay_mode)) "udp_relay_mode" (text p.udp_relay_mode) (
      put_if (not (is_empty p.congestion_control)) "congestion_control" (text p.congestion_control)
        (entries (
          ("type", word "tuic")
          ∷ ("tag", word "proxy")
          ∷ ("server", text p.host)
          ∷ ("server_port", number p.port)
          ∷ ("uuid", text p.uuid)
          ∷ ("password", text p.password)
          ∷ ("tls", object (quic_tls env p.sni p.host p.alpn p.insecure))
          ∷ [])))

unfoldable pub singbox_outbound_shadowsocks : Env → SsParams → Fields
unfolding put
singbox_outbound_shadowsocks env p =
    let plugin = not (is_empty p.plugin_name) in
    put_if (plugin && not (is_empty p.plugin_opts)) "plugin_opts" (text p.plugin_opts) (
      put_if plugin "plugin" (text (singbox_plugin_name env p.plugin_name)) (
        entries (
          ("type", word "shadowsocks")
          ∷ ("tag", word "proxy")
          ∷ ("server", text p.host)
          ∷ ("server_port", number p.port)
          ∷ ("method", text p.cipher)
          ∷ ("password", text p.password)
          ∷ [])))

abbrev pub numbers : List ℤ → Items
numbers [] = no_items
numbers (n ∷ ns) = item (number n) (numbers ns)

abbrev pub is_positive : ℤ → Bool
is_positive (pos zero) = false
is_positive (pos (suc n)) = true
is_positive (negsuc n) = false

abbrev wireguard_peer : WireGuardParams → Fields
wireguard_peer p = put_if (length p.reserved == 3) "reserved" (array (numbers p.reserved)) (
    put_if (not (is_empty p.pre_shared)) "pre_shared_key" (text p.pre_shared) (
      entries (
        ("address", text p.host)
        ∷ ("port", number p.port)
        ∷ ("public_key", text p.public_key)
        ∷ ("allowed_ips", array (texts (codes "0.0.0.0/0" ∷ codes "::/0" ∷ [])))
        ∷ [])))

unfoldable pub singbox_endpoint_wireguard : WireGuardParams → Fields
unfolding put
singbox_endpoint_wireguard p = put_if (is_positive p.mtu) "mtu" (number p.mtu) (
    entries (
      ("type", word "wireguard")
      ∷ ("tag", word "proxy")
      ∷ ("address", array (texts p.addresses))
      ∷ ("private_key", text p.private_key)
      ∷ ("peers", array (item (object (wireguard_peer p)) no_items))
      ∷ ("inet4_bind_address", word "0.0.0.0")
      ∷ ("inet6_bind_address", word "::")
      ∷ []))

unfoldable pub singbox_endpoint_for_node : Node → Option Fields
singbox_endpoint_for_node (wireguard p) = some (singbox_endpoint_wireguard p)
singbox_endpoint_for_node _ = none

-- Trojan without a word on its security is TLS.
abbrev pub trojan_security : TrojanParams → List ℕ
trojan_security p = if is_empty p.security || is "none" p.security then codes "tls" else p.security

abbrev pub vless_tls : VlessParams → TlsOptions
vless_tls p = record {
  security = p.security;
  sni = p.sni;
  host = p.host;
  alpn = p.alpn;
  fingerprint = p.fingerprint;
  public_key = p.public_key;
  short_id = p.short_id;
  insecure = p.allow_insecure;
}

abbrev pub trojan_tls : TrojanParams → TlsOptions
trojan_tls p = record {
  security = trojan_security p;
  sni = p.sni;
  host = p.host;
  alpn = p.alpn;
  fingerprint = p.fingerprint;
  public_key = p.public_key;
  short_id = p.short_id;
  insecure = p.allow_insecure;
}

abbrev pub vmess_tls : VmessParams → TlsOptions
vmess_tls p = record {
  security = p.security;
  sni = p.sni;
  host = p.host;
  alpn = p.alpn;
  fingerprint = p.fingerprint;
  public_key = [];
  short_id = [];
  insecure = false;
}

module _ (env : Env) where
  unfoldable pub singbox_outbound_vless : VlessParams → Option Fields
  unfolding put singbox_can_carry_tls singbox_transport singbox_tls add_some
  singbox_outbound_vless p =
      let tls = singbox_tls env (vless_tls p) in
      if singbox_can_carry_tls p.security p.public_key
      then with_blocks tls (singbox_transport p.network p.path p.host2 p.service_name) (
          put_if (not (is_empty p.flow)) "flow" (text p.flow) (
            entries (
              ("type", word "vless")
              ∷ ("tag", word "proxy")
              ∷ ("server", text p.host)
              ∷ ("server_port", number p.port)
              ∷ ("uuid", text p.uuid)
              ∷ [])))
      else none

  unfoldable pub singbox_outbound_trojan : TrojanParams → Option Fields
  unfolding put singbox_can_carry_tls singbox_transport singbox_tls add_some
  singbox_outbound_trojan p =
      let tls = singbox_tls env (trojan_tls p) in
      if singbox_can_carry_tls p.security p.public_key
      then with_blocks tls (singbox_transport p.network p.path p.host2 p.service_name) (
          entries (
            ("type", word "trojan")
            ∷ ("tag", word "proxy")
            ∷ ("server", text p.host)
            ∷ ("server_port", number p.port)
            ∷ ("password", text p.password)
            ∷ []))
      else none

  unfoldable pub singbox_outbound_vmess : VmessParams → Option Fields
  unfolding put singbox_transport singbox_tls add_some
  singbox_outbound_vmess p =
      let tls = singbox_tls env (vmess_tls p) in
      with_blocks tls (singbox_transport p.network p.path p.host2 p.service_name) (
        put_if (not (is_empty p.scy)) "security" (text p.scy) (
          entries (
            ("type", word "vmess")
            ∷ ("tag", word "proxy")
            ∷ ("server", text p.host)
            ∷ ("server_port", number p.port)
            ∷ ("uuid", text p.uuid)
            ∷ ("alter_id", number p.alter_id)
            ∷ [])))

abbrev proxy_tls : Env → ProxyParams → Fields
proxy_tls env p = entries (
    ("enabled", boolean true)
    ∷ ("insecure", boolean p.allow_insecure)
    ∷ ("utls", object (utls env.fingerprint))
    ∷ ("server_name", text (first_non_empty p.sni p.host))
    ∷ [])

unfoldable pub singbox_outbound_proxy : Env → ProxyParams → List ℕ → Fields
unfolding put
singbox_outbound_proxy env p tag = put_if p.tls "tls" (object (proxy_tls env p)) (
    put_if (not (is_empty p.password)) "password" (text p.password) (
      put_if (not (is_empty p.user)) "username" (text p.user) (
        entries (
          ("type", if p.http then word "http" else word "socks")
          ∷ ("tag", text tag)
          ∷ ("server", text p.host)
          ∷ ("server_port", number p.port)
          ∷ []))))

unfoldable pub singbox_outbound_for_node : Env → Node → Option Fields
singbox_outbound_for_node env (hysteria2 p) = some (singbox_outbound_hysteria2 env p)
singbox_outbound_for_node env (tuic p) = some (singbox_outbound_tuic env p)
singbox_outbound_for_node env (shadowsocks p) = some (singbox_outbound_shadowsocks env p)
singbox_outbound_for_node env (vless p) = singbox_outbound_vless env p
singbox_outbound_for_node env (trojan p) = singbox_outbound_trojan env p
singbox_outbound_for_node env (vmess p) = singbox_outbound_vmess env p
singbox_outbound_for_node env (proxy p) = some (singbox_outbound_proxy env p (codes "proxy"))
singbox_outbound_for_node env (json p) = json_outbound_for p (codes "singbox")
singbox_outbound_for_node env (wireguard p) = none
