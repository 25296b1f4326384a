-- ===== src/Tests/Routing.antt =====
-- core/protocols.go: routing with a block list and a through-VPN list, in the mode for selected
-- sites.
use vair.Base.{
  ℕ, ◌≡◌, refl, Bool, true, false, List, [], ◌∷◌, ◌++◌, Option, none, some, codes, same,
  if◌then◌else◌, ◌==◌,
}
use vair.Rules.{Library, parse_rule, matcher, domain_suffix, clean_rule_host}
use vair.Rules.Punycode.{punycode}
use vair.Rules.Xray.{
  RouteSettings, XrayRule, domain, ip, network, xray_routing_for_proxy, direct_tag,
}
use vair.Rules.Policy.{Router, any, TakesFirst, policy, xray_routing-policy}

abbrev library : Library
library = record {
  is_space = λ c. c == 32;
  cases = λ c. c;
  is_ip_or_cidr = λ s. same s (codes "10.0.0.0/8");
  split_host_port = λ s. none;
  compiles = λ s. true;
}

-- A connection to a.example.
abbrev met : List ℕ → Bool
met e = same e (codes "domain:a.example")

abbrev first_rule : List XrayRule → Option (List ℕ)
first_rule [] = none
first_rule (domain ds t ∷ rules) = if any met ds then some t else first_rule rules
first_rule (ip is' t ∷ rules) = if any (λ e. false) is' then some t else first_rule rules
first_rule (network t ∷ rules) = some t

abbrev router : Router
router = record { domain_met = met; ip_met = λ e. false; route = first_rule }

takes_first : TakesFirst router
takes_first (domain ds t) rules = refl
takes_first (ip is' t) rules = refl
takes_first (network t) rules = refl

abbrev chosen_sites : RouteSettings
chosen_sites = record {
  mode = codes "only_selected";
  block_rules = codes "https://ads.example/x" ∷ [];
  direct_rules = codes "10.0.0.0/8" ∷ [];
  proxy_rules = codes "*.A.example" ∷ [];
  custom_domains = [];
  gfw_domains = [];
  check_ip_host = codes "ip.example";
  countries = [];
}

xray_routing-policy_example :
    router.route (xray_routing_for_proxy library chosen_sites)
    ≡ some (policy library chosen_sites router)
xray_routing-policy_example = xray_routing-policy library router takes_first chosen_sites

-- The written line is the site and all below it.
proxied_site : router.route (xray_routing_for_proxy library chosen_sites) ≡ some (codes "proxy")
unfolding xray_routing_for_proxy parse_rule vair.Rules.classify_rules vair.Rules.Xray.xray_rules
    vair.Rules.Xray.xray_mode_rules vair.Base.Text.trim_space vair.Base.Text.split
proxied_site = refl

-- "сайт", as it is on the wire.
russian : punycode (1089 ∷ 1072 ∷ 1081 ∷ 1090 ∷ []) ≡ some (codes "80aswg")
unfolding punycode
russian = refl
