-- ===== src/Xray.antt =====
-- core/protocols.go, proxyproto.go, jsonconfig.go: the outbound of one node in xray's
-- configuration.

pub mod Stream
pub mod Chain
use vair.Xray.Stream.{StreamOptions, headers_of, xray_stream_settings}
use vair.Base.{
  ℕ, ◌≡◌, Bool, true, false, ◌&&◌, ◌||◌, not, List, [], ◌∷◌, ◌++◌, Option, none, some, String,
  codes, same, is_empty, if◌then◌else◌, ℤ, pos,
}
use vair.Base.Text.{split}
use vair.Base.Json.{
  Json, null, boolean, number, text, array, object, Items, no_items, item, Fields, no_fields, field,
  get, put, word, entries, put_if, items, texts, object_of, text_of,
}
use vair.Node.{
  Env, is, VlessParams, TrojanParams, VmessParams, SsParams, ProxyParams, JsonParams, Node, vless,
  trojan, vmess, shadowsocks, proxy, json, first_non_empty,
}

abbrev pub vless_stream : VlessParams → StreamOptions
vless_stream p = record {
  network = p.network;
  security = p.security;
  path = p.path;
  host2 = p.host2;
  service_name = p.service_name;
  sni = p.sni;
  alpn = p.alpn;
  fingerprint = p.fingerprint;
  public_key = p.public_key;
  short_id = p.short_id;
  spider_x = p.spider_x;
  mode = p.mode;
  header_type = p.header_type;
  seed = p.seed;
  pinned_cert = p.pinned_cert;
  verify_cert_name = p.verify_cert_name;
}

abbrev pub trojan_stream : TrojanParams → StreamOptions
trojan_stream p = record {
  network = p.network;
  security = p.security;
  path = p.path;
  host2 = p.host2;
  service_name = p.service_name;
  sni = p.sni;
  alpn = p.alpn;
  fingerprint = p.fingerprint;
  public_key = p.public_key;
  short_id = p.short_id;
  spider_x = p.spider_x;
  mode = p.mode;
  header_type = p.header_type;
  seed = p.seed;
  pinned_cert = p.pinned_cert;
  verify_cert_name = p.verify_cert_name;
}

abbrev pub vmess_stream : VmessParams → StreamOptions
vmess_stream p = record {
  network = p.network;
  security = p.security;
  path = p.path;
  host2 = p.host2;
  service_name = p.service_name;
  sni = p.sni;
  alpn = p.alpn;
  fingerprint = p.fingerprint;
  public_key = [];
  short_id = [];
  spider_x = [];
  mode = p.mode;
  header_type = p.header_type;
  seed = p.seed;
  pinned_cert = [];
  verify_cert_name = [];
}

-- `[]interface{}{map}`.
abbrev pub one : Fields → Json
one m = array (item (object m) no_items)

abbrev pub xray_outbound : String → Fields → Fields → Fields
xray_outbound protocol settings stream = entries (
    ("tag", word "proxy")
    ∷ ("protocol", word protocol)
    ∷ ("settings", object settings)
    ∷ ("streamSettings", object stream)
    ∷ [])

abbrev pub next_hop : List ℕ → ℤ → Fields → Fields
next_hop host port user = entries (
    (
      "vnext",
      one (entries (("address", text host) ∷ ("port", number port) ∷ ("users", one user) ∷ [])),
    )
    ∷ [])

module _ (env : Env) where
  unfoldable pub xray_outbound_vless : VlessParams → Fields
  unfolding put xray_stream_settings
  xray_outbound_vless p =
      xray_outbound "vless"
        (next_hop p.host p.port (
          put_if (not (is_empty p.flow)) "flow" (text p.flow)
            (entries (("id", text p.uuid) ∷ ("encryption", word "none") ∷ []))))
        (xray_stream_settings env (vless_stream p))

  unfoldable pub xray_outbound_trojan : TrojanParams → Fields
  unfolding xray_stream_settings
  xray_outbound_trojan p =
      xray_outbound "trojan"
        (entries (
          (
            "servers",
            one (
                entries (
                  ("address", text p.host)
                  ∷ ("port", number p.port)
                  ∷ ("password", text p.password)
                  ∷ [])),
          )
          ∷ []))
        (xray_stream_settings env (trojan_stream p))

  -- The disguise of the old plain transport.
  abbrev http_header : VmessParams → Json
  http_header p = object (
      entries (
        (
          "header",
          object (
              entries (
                ("type", word "http")
                ∷ (
                  "request",
                  object (
                      entries
                        (("path", array (texts (first_non_empty p.path (codes "/") ∷ []))) ∷ [])),
                )
                ∷ [])),
        )
        ∷ []))

  unfoldable pub xray_outbound_vmess : VmessParams → Fields
  unfolding put xray_stream_settings
  xray_outbound_vmess p =
      xray_outbound "vmess"
        (next_hop p.host p.port (
          entries
            (("id", text p.uuid) ∷ ("alterId", number p.alter_id) ∷ ("security", text p.scy) ∷ [])))
        (put_if (is "tcp" p.network && is "http" p.header_type) "tcpSettings" (http_header p)
          (xray_stream_settings env (vmess_stream p)))

unfoldable pub xray_outbound_shadowsocks : SsParams → Fields
xray_outbound_shadowsocks p =
    xray_outbound "shadowsocks"
      (entries (
        (
          "servers",
          one (
              entries (
                ("address", text p.host)
                ∷ ("port", number p.port)
                ∷ ("method", text p.cipher)
                ∷ ("password", text p.password)
                ∷ ("uot", boolean true)
                ∷ [])),
        )
        ∷ []))
      (entries (("network", word "tcp") ∷ ("security", word "none") ∷ []))

abbrev pub proxy_server : ProxyParams → Fields
proxy_server p =
    put_if (not (is_empty p.user) || not (is_empty p.password)) "users"
      (one (entries (("user", text p.user) ∷ ("pass", text p.password) ∷ [])))
      (entries (("address", text p.host) ∷ ("port", number p.port) ∷ []))

unfoldable pub xray_outbound_proxy : Env → ProxyParams → Fields
unfolding put
xray_outbound_proxy env p =
    put_if p.tls "streamSettings"
      (object (
        entries (
          ("network", word "tcp")
          ∷ ("security", word "tls")
          ∷ (
            "tlsSettings",
            object (
                entries (
                  ("fingerprint", text env.fingerprint)
                  ∷ ("serverName", text (first_non_empty p.sni p.host))
                  ∷ [])),
          )
          ∷ [])))
      (entries (
        ("protocol", if p.http then word "http" else word "socks")
        ∷ ("settings", object (entries (("servers", one (proxy_server p)) ∷ [])))
        ∷ ("tag", word "proxy")
        ∷ []))

-- The outbound of a JSON configuration, if it was written for the engine.
unfoldable pub json_outbound_for : JsonParams → List ℕ → Option Fields
unfolding put
json_outbound_for p engine =
    if same p.engine engine then some (put (codes "tag") (word "proxy") p.outbound) else none

unfoldable pub xray_outbound_for_node : Env → Node → Option Fields
xray_outbound_for_node env (vless p) = some (xray_outbound_vless env p)
xray_outbound_for_node env (trojan p) = some (xray_outbound_trojan env p)
xray_outbound_for_node env (vmess p) = some (xray_outbound_vmess env p)
xray_outbound_for_node env (shadowsocks p) = some (xray_outbound_shadowsocks p)
xray_outbound_for_node env (proxy p) = some (xray_outbound_proxy env p)
xray_outbound_for_node env (json p) = json_outbound_for p (codes "xray")
xray_outbound_for_node env _ = none
