-- ===== src/Node.antt =====
-- core/protocols.go, proxyproto.go, wireguard.go, jsonconfig.go: a parsed configuration, as the
-- builders of the engines' configurations read it. A text is a list of code points.
use vair.Base.{
  ℕ, Bool, true, false, ◌&&◌, ◌||◌, List, [], ◌∷◌, String, codes, same, is_empty, if◌then◌else◌, ℤ,
}
use vair.Base.Text.{split, trim_space, to_lower}
use vair.Base.Json.{Json, Fields}

-- What the builders read besides the node: the settings, and Go's library on runes and numbers.
pub record Env : Type 0 where
  pub fingerprint : List ℕ
  pub fragment : Bool
  pub fragment_length : List ℕ
  pub fragment_interval : List ℕ
  pub fragment_delay : List ℕ
  pub xray_log : Json
  pub direct_strategy : List ℕ
  pub show : ℕ → List ℕ
  pub is_space : ℕ → Bool
  pub cases : ℕ → ℕ

-- A parameter is compared with a literal.
abbrev pub is : String → List ℕ → Bool
is s t = same t (codes s)

pub record VlessParams : Type 0 where
  pub uuid : List ℕ
  pub host : List ℕ
  pub port : ℤ
  pub network : List ℕ
  pub security : List ℕ
  pub path : List ℕ
  pub host2 : List ℕ
  pub service_name : List ℕ
  pub sni : List ℕ
  pub alpn : List ℕ
  pub fingerprint : List ℕ
  pub allow_insecure : Bool
  pub pinned_cert : List ℕ
  pub verify_cert_name : List ℕ
  pub flow : List ℕ
  pub public_key : List ℕ
  pub short_id : List ℕ
  pub spider_x : List ℕ
  pub mode : List ℕ
  pub header_type : List ℕ
  pub seed : List ℕ

pub record TrojanParams : Type 0 where
  pub password : List ℕ
  pub host : List ℕ
  pub port : ℤ
  pub network : List ℕ
  pub security : List ℕ
  pub path : List ℕ
  pub host2 : List ℕ
  pub service_name : List ℕ
  pub sni : List ℕ
  pub alpn : List ℕ
  pub fingerprint : List ℕ
  pub allow_insecure : Bool
  pub pinned_cert : List ℕ
  pub verify_cert_name : List ℕ
  pub public_key : List ℕ
  pub short_id : List ℕ
  pub spider_x : List ℕ
  pub mode : List ℕ
  pub header_type : List ℕ
  pub seed : List ℕ

pub record VmessParams : Type 0 where
  pub uuid : List ℕ
  pub host : List ℕ
  pub port : ℤ
  pub network : List ℕ
  pub security : List ℕ
  pub path : List ℕ
  pub host2 : List ℕ
  pub service_name : List ℕ
  pub sni : List ℕ
  pub alpn : List ℕ
  pub fingerprint : List ℕ
  pub alter_id : ℤ
  pub scy : List ℕ
  pub header_type : List ℕ
  pub mode : List ℕ
  pub seed : List ℕ

pub record SsParams : Type 0 where
  pub cipher : List ℕ
  pub password : List ℕ
  pub host : List ℕ
  pub port : ℤ
  pub plugin_name : List ℕ
  pub plugin_opts : List ℕ
  pub unsupported_plugin : Bool

pub record Hysteria2Params : Type 0 where
  pub password : List ℕ
  pub host : List ℕ
  pub port : ℤ
  pub sni : List ℕ
  pub alpn : List ℕ
  pub insecure : Bool
  pub obfs_type : List ℕ
  pub obfs_password : List ℕ

pub record TuicParams : Type 0 where
  pub uuid : List ℕ
  pub password : List ℕ
  pub host : List ℕ
  pub port : ℤ
  pub sni : List ℕ
  pub alpn : List ℕ
  pub insecure : Bool
  pub congestion_control : List ℕ
  pub udp_relay_mode : List ℕ

pub record WireGuardParams : Type 0 where
  pub host : List ℕ
  pub port : ℤ
  pub private_key : List ℕ
  pub public_key : List ℕ
  pub pre_shared : List ℕ
  pub addresses : List (List ℕ)
  pub reserved : List ℤ
  pub mtu : ℤ

-- `http` is there for KindHTTP, the other kind is KindSOCKS.
pub record ProxyParams : Type 0 where
  pub http : Bool
  pub host : List ℕ
  pub port : ℤ
  pub user : List ℕ
  pub password : List ℕ
  pub tls : Bool
  pub sni : List ℕ
  pub allow_insecure : Bool

pub record JsonParams : Type 0 where
  pub engine : List ℕ
  pub outbound : Fields

-- One constructor for each kind, with the parameters of that kind.
pub data Node : Type 0 where
  vless : VlessParams → Node
  trojan : TrojanParams → Node
  vmess : VmessParams → Node
  shadowsocks : SsParams → Node
  hysteria2 : Hysteria2Params → Node
  tuic : TuicParams → Node
  wireguard : WireGuardParams → Node
  proxy : ProxyParams → Node
  json : JsonParams → Node

abbrev pub first_non_empty : List ℕ → List ℕ → List ℕ
first_non_empty a b = if is_empty a then b else a

abbrev pub trimmed_parts : Env → List (List ℕ) → List (List ℕ)
trimmed_parts env [] = []
trimmed_parts env (part ∷ parts) =
    if is_empty (trim_space env.is_space part)
    then trimmed_parts env parts
    else trim_space env.is_space part ∷ trimmed_parts env parts

-- Without the parts that are blank.
unfoldable pub split_alpn : Env → List ℕ → List (List ℕ)
split_alpn env s =
    if is_empty (trim_space env.is_space s)
    then []
    else trimmed_parts env (split 44 (trim_space env.is_space s))

unfoldable pub plugin_supported_by_singbox : Env → List ℕ → Bool
plugin_supported_by_singbox env name =
    let n = to_lower env.cases (trim_space env.is_space name) in
    is "v2ray-plugin" n || is "obfs-local" n || is "simple-obfs" n

unfoldable pub singbox_plugin_name : Env → List ℕ → List ℕ
singbox_plugin_name env name =
    let n = to_lower env.cases (trim_space env.is_space name) in
    if is "simple-obfs" n then codes "obfs-local" else n

-- The node turns the certificate check off.
unfoldable pub skips_cert_check : Node → Bool
skips_cert_check (vless p) =
    is "tls" p.security && p.allow_insecure && is_empty p.pinned_cert && is_empty p.verify_cert_name
skips_cert_check (trojan p) =
    is "tls" p.security && p.allow_insecure && is_empty p.pinned_cert && is_empty p.verify_cert_name
skips_cert_check (proxy p) = p.tls && p.allow_insecure
skips_cert_check _ = false

-- `engineFor` on the node's kind: whether it is "singbox".
unfoldable pub kind_is_singbox : Node → Bool
kind_is_singbox (hysteria2 p) = true
kind_is_singbox (tuic p) = true
kind_is_singbox (wireguard p) = true
kind_is_singbox _ = false
