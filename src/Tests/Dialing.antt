-- ===== src/Tests/Dialing.antt =====
-- core/protocols.go: a chain of VLESS, Trojan and a proxy on xray, and one that begins with
-- WireGuard on sing-box.
use vair.Base.{
  ℕ, zero, suc, ◌≡◌, refl, ap, Bool, true, false, List, [], ◌∷◌, ◌++◌, map, Option, none, some,
  codes, length, pos, if◌then◌else◌,
}
use vair.Base.Text.{reverse_onto}
use vair.Base.Json.{Json, null, Fields, get}
use vair.Chain.{singbox}
use vair.Dial.{chain_engine, chosen, engine_for_node}
use vair.Dial.Carried.{IsBuilt, engine_carries, engine_for_node-carries, chain_engine-IsBuilt}
use vair.Hops.{IsInjective, named_path}
use vair.Node.{
  Env, Node, vless, trojan, proxy, wireguard, json, VlessParams, TrojanParams, ProxyParams,
  WireGuardParams, JsonParams,
}
use vair.Singbox.{singbox_endpoint_wireguard, singbox_outbound_trojan}
use vair.Singbox.Chain.{Egress, endpoint, outbound, singbox_chain_egress, fields_of}
use vair.Singbox.Chain.Path
use vair.Singbox.Asked.{Asked, Gives, singbox_outbound-Gives}
use vair.Singbox.Chain.Whole.{all_of, singbox_chain_egress-path}
use vair.Xray.{xray_outbound_vless, xray_outbound_trojan, xray_outbound_proxy}
use vair.Xray.Chain.{Access, build_xray_chain_config, dialer}
use vair.Xray.Chain.Wiring.{dest, through, outbounds_of}
use vair.Xray.Chain.Whole.{before_entry, build_xray_chain_config-path}

abbrev pub env : Env
env = record {
  fingerprint = codes "chrome";
  fragment = true;
  fragment_length = codes "50-100";
  fragment_interval = codes "10-20";
  fragment_delay = codes "20ms";
  xray_log = null;
  direct_strategy = codes "AsIs";
  show = λ n. n ∷ [];
  is_space = λ c. false;
  cases = λ c. c;
}

show_apart : IsInjective env.show
show_apart i j e = cc

abbrev listeners : Access
listeners = record {
  http_port = pos 10809;
  socks_port = pos 10808;
  socks_user = [];
  socks_pass = [];
  http_user = [];
  http_pass = [];
}

abbrev pub czech : VlessParams
czech = record {
  uuid = codes "u";
  host = codes "cz.example";
  port = pos 443;
  network = codes "ws";
  security = codes "reality";
  path = codes "/v";
  host2 = [];
  service_name = [];
  sni = codes "a.example";
  alpn = [];
  fingerprint = [];
  allow_insecure = false;
  pinned_cert = [];
  verify_cert_name = [];
  flow = [];
  public_key = codes "k";
  short_id = [];
  spider_x = [];
  mode = [];
  header_type = [];
  seed = [];
}

abbrev dutch : TrojanParams
dutch = record {
  password = codes "p";
  host = codes "nl.example";
  port = pos 443;
  network = [];
  security = codes "tls";
  path = [];
  host2 = [];
  service_name = [];
  sni = [];
  alpn = [];
  fingerprint = [];
  allow_insecure = false;
  pinned_cert = [];
  verify_cert_name = [];
  public_key = [];
  short_id = [];
  spider_x = [];
  mode = [];
  header_type = [];
  seed = [];
}

abbrev office : ProxyParams
office = record {
  http = false;
  host = codes "10.0.0.1";
  port = pos 1080;
  user = [];
  password = [];
  tls = false;
  sni = [];
  allow_insecure = false;
}

abbrev warp : WireGuardParams
warp = record {
  host = codes "1.2.3.4";
  port = pos 2408;
  private_key = codes "s";
  public_key = codes "q";
  pre_shared = [];
  addresses = codes "172.16.0.2/32" ∷ [];
  reserved = [];
  mtu = pos 1280;
}

abbrev foreign : JsonParams
foreign = record { engine = codes "singbox"; outbound = vair.Base.Json.no_fields }

build_xray_chain_config-path_example :
    (cfg : Fields) × (build_xray_chain_config env null listeners
        (vless czech ∷ trojan dutch ∷ proxy office ∷ [])
      ≡ some cfg)
    × (named_path dest through (outbounds_of cfg) 4 (codes "proxy")
        ≡ some (
            map dest (
              reverse_onto
                (xray_outbound_vless env czech
                  ∷ xray_outbound_trojan env dutch
                  ∷ xray_outbound_proxy env office
                  ∷ [])
                [])
            ++ before_entry env))
unfolding vair.Xray.xray_outbound_for_node vair.Xray.Chain.Wiring.raw_outbounds dialer
    vair.Xray.xray_outbound_vless vair.Base.Json.get
build_xray_chain_config-path_example =
    build_xray_chain_config-path env null listeners show_apart (vless czech) (trojan dutch)
      (proxy office ∷ []) (xray_outbound_vless env czech)
      (xray_outbound_trojan env dutch ∷ xray_outbound_proxy env office ∷ []) refl refl refl

singbox_chain_egress-path_example :
    (r : List Fields × List Fields) × (singbox_chain_egress env (wireguard warp ∷ proxy office ∷ [])
      ≡ some r)
    × (named_path Path.dest Path.through (all_of r) 2 (codes "proxy")
        ≡ some (
            map Path.dest (
              reverse_onto
                (singbox_endpoint_wireguard warp
                  ∷ vair.Singbox.singbox_outbound_proxy env office (codes "proxy")
                  ∷ [])
                [])))
unfolding vair.Singbox.Chain.egress_of vair.Singbox.Chain.each_egress
    vair.Singbox.singbox_outbound_for_node vair.Singbox.singbox_endpoint_for_node
    vair.Singbox.singbox_endpoint_wireguard get
singbox_chain_egress-path_example =
    singbox_chain_egress-path env show_apart (wireguard warp) (proxy office) []
      (endpoint (singbox_endpoint_wireguard warp))
      (outbound (vair.Singbox.singbox_outbound_proxy env office (codes "proxy")) ∷ []) refl refl
      refl

engine_for_node-carries_example : engine_carries env (json foreign) ≡ true
engine_for_node-carries_example = engine_for_node-carries env (json foreign) refl

chain_engine-IsBuilt_example :
    (ns : List Node) × ((some (wireguard warp) ∷ some (proxy office) ∷ []) ≡ map some ns)
    × IsBuilt env null listeners singbox ns
unfolding chain_engine vair.Dial.choose_engine engine_for_node vair.Node.kind_is_singbox
    vair.Singbox.singbox_outbound_for_node vair.Singbox.singbox_endpoint_for_node
    vair.Xray.xray_outbound_for_node vair.Node.skips_cert_check
chain_engine-IsBuilt_example =
    chain_engine-IsBuilt env null listeners (some (wireguard warp) ∷ some (proxy office) ∷ [])
      singbox refl

abbrev or_nothing : Option Fields → Fields
or_nothing none = vair.Base.Json.no_fields
or_nothing (some m) = m

abbrev czech_asks : Asked
czech_asks = record {
  encrypted = true;
  by_reality = true;
  unchecked = czech.allow_insecure;
  key = czech.public_key;
  id = czech.short_id;
}

singbox_outbound-Gives_example :
    Gives czech_asks (or_nothing (vair.Singbox.singbox_outbound_vless env czech))
unfolding vair.Singbox.singbox_outbound_for_node vair.Singbox.singbox_outbound_vless
singbox_outbound-Gives_example =
    singbox_outbound-Gives env (vless czech) czech_asks
      (or_nothing (vair.Singbox.singbox_outbound_vless env czech)) refl refl refl
