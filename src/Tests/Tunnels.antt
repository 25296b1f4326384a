-- ===== src/Tests/Tunnels.antt =====
-- core/protocols.go: a tunnel of VLESS on Linux, shared with the network, with a rule set of the
-- package.
use vair.Base.{◌≡◌, refl, true, false, [], ◌∷◌, Option, none, some, codes, pos}
use vair.Base.Json.{array, object, Fields, no_fields, entries, items, word}
use vair.Helper.{Options}
use vair.Helper.Config.{config}
use vair.Node.{vless}
use vair.Singbox.Tun.{TunSettings, build_singbox_tun_config}
use vair.Singbox.Tun.Admitted.{build_singbox_tun_config-IsAdmitted}
use vair.Tests.Dialing.{env, czech}

abbrev packaged : Options
packaged = record {
  allowed_path_prefixes = codes "/usr/lib/vair/rulesets" ∷ [];
  min_listen_port = pos 0;
  windows = false;
}

abbrev shared : TunSettings
shared = record {
  share_proxy = true;
  http_port = pos 10809;
  socks_port = pos 10808;
  bind = codes "0.0.0.0";
  http_user = codes "phone";
  http_pass = codes "secret";
  socks_user = [];
  socks_pass = [];
  ipv6 = true;
  mtu = pos 1500;
  leak_protect = true;
  stack = codes "mixed";
  log_level = codes "warn";
  linux = true;
  dns = object no_fields;
  route = object (
      entries (
        (
          "rule_set",
          array (
              items (
                object (
                  entries
                    (("tag", word "ru") ∷ ("path", word "/usr/lib/vair/rulesets/ru.srs") ∷ []))
                ∷ [])),
        )
        ∷ []));
}

abbrev or_nothing : Option Fields → Fields
or_nothing none = no_fields
or_nothing (some m) = m

abbrev tunnel : Fields
tunnel = or_nothing (build_singbox_tun_config env shared (vless czech) (codes "ignored"))

build_singbox_tun_config-IsAdmitted_example :
    config (λ raw. some (object tunnel)) (λ c. c) [] packaged ≡ none
unfolding build_singbox_tun_config config vair.Singbox.singbox_outbound_for_node
    vair.Singbox.singbox_outbound_vless
build_singbox_tun_config-IsAdmitted_example =
    build_singbox_tun_config-IsAdmitted (λ raw. some (object tunnel)) (λ c. c) [] packaged env
      shared (vless czech) (codes "ignored") tunnel refl refl refl refl refl refl refl refl
