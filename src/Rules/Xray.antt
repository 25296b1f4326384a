-- ===== src/Rules/Xray.antt =====
-- core/routing_rules.go, core/protocols.go: the rules that xray routes by. What the settings hold
-- and the lists that were downloaded are in `RouteSettings`; that the lists are refreshed and the
-- counters armed is left out.
use vair.Base.{ℕ, List, [], ◌∷◌, ◌++◌, map, Option, none, some, codes, if◌then◌else◌}
use vair.Node.{is}
use vair.Rules.{Library, RuleBuckets, classify_rules}

pub record RouteSettings : Type 0 where
  pub mode : List ℕ
  pub block_rules : List (List ℕ)
  pub direct_rules : List (List ℕ)
  pub proxy_rules : List (List ℕ)
  pub custom_domains : List (List ℕ)
  pub gfw_domains : List (List ℕ)
  pub check_ip_host : List ℕ
  pub countries : List (List ℕ)

-- A rule of type "field" with its one condition and its outbound tag: `network` is "tcp,udp".
pub data XrayRule : Type 0 where
  domain ip : List (List ℕ) → List ℕ → XrayRule
  network : List ℕ → XrayRule

abbrev pub unless_empty : List (List ℕ) → XrayRule → List XrayRule
unless_empty [] r = []
unless_empty (x ∷ xs) r = r ∷ []

unfoldable pub xray_rules : RuleBuckets → List ℕ → List XrayRule
xray_rules b tag =
    unless_empty b.x_domains (domain b.x_domains tag) ++ unless_empty b.x_ips (ip b.x_ips tag)

abbrev pub direct_tag : List ℕ
direct_tag = codes "direct"

abbrev pub proxy_tag : List ℕ
proxy_tag = codes "proxy"

-- `countryGeositeXray`.
abbrev pub country_geosite : List ℕ → Option (List ℕ)
country_geosite cc =
    if is "ru" cc
    then some (codes "geosite:category-ru")
    else if is "cn" cc
    then some (codes "geosite:cn")
    else if is "ir" cc
    then some (codes "geosite:category-ir")
    else none

abbrev pub add_geosite : Option (List ℕ) → List (List ℕ) → List (List ℕ)
add_geosite none ds = ds
add_geosite (some g) ds = g ∷ ds

abbrev pub country_domains : List (List ℕ) → List (List ℕ)
country_domains [] = []
country_domains (cc ∷ ccs) =
    (codes "domain:" ++ cc) ∷ add_geosite (country_geosite cc) (country_domains ccs)

abbrev pub country_ips : List (List ℕ) → List (List ℕ)
country_ips ccs = map (λ cc. codes "geoip:" ++ cc) ccs

module _ (lib : Library) (st : RouteSettings) where
  abbrev proxied : List (List ℕ) → List XrayRule
  proxied lines = xray_rules (classify_rules lib lines) proxy_tag

  -- The rules of the mode, behind the user's own.
  unfoldable pub xray_mode_rules : List XrayRule
  unfolding xray_rules classify_rules
  xray_mode_rules =
      if is "only_blocked" st.mode
      then proxied (st.custom_domains ++ st.check_ip_host ∷ [])
        ++ domain (codes "ext:geosite-ru-blocked.dat:ru-blocked" ∷ []) proxy_tag
          ∷ ip (codes "ext:geoip-ru-blocked.dat:ru-blocked" ∷ []) proxy_tag
          ∷ network direct_tag
          ∷ []
      else if is "only_blocked_cn" st.mode
      then proxied ((st.gfw_domains ++ st.custom_domains) ++ st.check_ip_host ∷ [])
        ++ network direct_tag ∷ []
      else if is "only_selected" st.mode
      then proxied (st.custom_domains ++ st.check_ip_host ∷ []) ++ network direct_tag ∷ []
      else if is "bypass_countries" st.mode
      then proxied st.custom_domains
        ++ (unless_empty (country_domains st.countries)
              (domain (country_domains st.countries) direct_tag)
            ++ (unless_empty (country_ips st.countries) (ip (country_ips st.countries) direct_tag)
                ++ network proxy_tag ∷ []))
      else network proxy_tag ∷ []

  unfoldable pub xray_routing_for_proxy : List XrayRule
  unfolding xray_rules classify_rules xray_mode_rules
  xray_routing_for_proxy =
      xray_rules (classify_rules lib st.block_rules) (codes "block")
      ++ (ip (codes "geoip:private" ∷ []) direct_tag
          ∷ (xray_rules (classify_rules lib st.direct_rules) direct_tag
              ++ (xray_rules (classify_rules lib st.proxy_rules) proxy_tag ++ xray_mode_rules)))
