-- ===== src/Rules/Policy.antt =====
-- What xray's rules do with a connection.
use vair.Base.{
  ℕ, ◌≡◌, refl, ap, ◌∙◌, Bool, true, false, ◌||◌, List, [], ◌∷◌, ◌++◌, append_assoc, Option, some,
  codes, if◌then◌else◌, Bool-cases, inl, inr, arith,
}
use vair.Node.{is}
use vair.Rules
use vair.Rules.{
  Library, Key, category, domain_suffix, domain_regex, ip_cidr, RuleMatcher, Parsed, matcher,
  invalid, parse_rule, RuleBuckets, classify_rules, add_parsed, for_xray, for_singbox,
}
use vair.Rules.Xray.{
  RouteSettings, XrayRule, domain, ip, network, unless_empty, xray_rules, direct_tag, proxy_tag,
  country_domains, country_ips, xray_mode_rules, xray_routing_for_proxy,
}

-- What xray promises for one connection over TCP or UDP: whether an entry of a domain list, and one
-- of an address list, is met, and that the first rule decides of which one entry is met.
pub record Router : Type 0 where
  pub domain_met : List ℕ → Bool
  pub ip_met : List ℕ → Bool
  pub route : List XrayRule → Option (List ℕ)

abbrev pub any : (List ℕ → Bool) → List (List ℕ) → Bool
any p [] = false
any p (e ∷ es) = p e || any p es

abbrev pub applies : Router → XrayRule → Bool
applies r (domain ds t) = any r.domain_met ds
applies r (ip is' t) = any r.ip_met is'
applies r (network t) = true

abbrev pub tag_of : XrayRule → List ℕ
tag_of (domain ds t) = t
tag_of (ip is' t) = t
tag_of (network t) = t

abbrev pub TakesFirst : Router → Type 0
TakesFirst r =
    (rule : XrayRule) (rules : List XrayRule)
    → r.route (rule ∷ rules) ≡ (if applies r rule then some (tag_of rule) else r.route rules)

-- A written line is met: it can be a rule, and xray finds its entry met.
abbrev pub parsed_met : Router → Parsed → Bool
parsed_met r (invalid e) = false
parsed_met r (matcher m) = if m.xray_ip then r.ip_met m.xray else r.domain_met m.xray

abbrev pub line_met : Library → Router → List ℕ → Bool
line_met lib r e = parsed_met r (parse_rule lib e)

-- The policy of the mode, for what the user's own lines do not decide.
abbrev pub mode_policy : Library → RouteSettings → Router → List ℕ
mode_policy lib st r =
    let met = any (line_met lib r) in
    if is "only_blocked" st.mode
    then (if met (st.custom_domains ++ st.check_ip_host ∷ [])
          || r.domain_met (codes "ext:geosite-ru-blocked.dat:ru-blocked")
          || r.ip_met (codes "ext:geoip-ru-blocked.dat:ru-blocked")
        then proxy_tag
        else direct_tag)
    else if is "only_blocked_cn" st.mode
    then (if met ((st.gfw_domains ++ st.custom_domains) ++ st.check_ip_host ∷ [])
        then proxy_tag
        else direct_tag)
    else if is "only_selected" st.mode
    then (if met (st.custom_domains ++ st.check_ip_host ∷ []) then proxy_tag else direct_tag)
    else if is "bypass_countries" st.mode
    then (if met st.custom_domains
        then proxy_tag
        else if any r.domain_met (country_domains st.countries)
            || any r.ip_met (country_ips st.countries)
        then direct_tag
        else proxy_tag)
    else proxy_tag

-- The whole policy: block before everything, then the local network, then direct, then proxy.
abbrev pub policy : Library → RouteSettings → Router → List ℕ
policy lib st r =
    if any (line_met lib r) st.block_rules
    then codes "block"
    else if r.ip_met (codes "geoip:private")
    then direct_tag
    else if any (line_met lib r) st.direct_rules
    then direct_tag
    else if any (line_met lib r) st.proxy_rules
    then proxy_tag
    else mode_policy lib st r

module _ (lib : Library) (r : Router) (first : TakesFirst r) where
  route_unless_empty_domain :
      (es : List (List ℕ)) (tag : List ℕ) (rest : List XrayRule)
      → r.route (unless_empty es (domain es tag) ++ rest)
        ≡ (if any r.domain_met es then some tag else r.route rest)
  route_unless_empty_domain [] tag rest = refl
  route_unless_empty_domain (e ∷ es) tag rest = first (domain (e ∷ es) tag) rest

  route_unless_empty_ip :
      (es : List (List ℕ)) (tag : List ℕ) (rest : List XrayRule)
      → r.route (unless_empty es (ip es tag) ++ rest)
        ≡ (if any r.ip_met es then some tag else r.route rest)
  route_unless_empty_ip [] tag rest = refl
  route_unless_empty_ip (e ∷ es) tag rest = first (ip (e ∷ es) tag) rest

  abbrev bucket_met : RuleBuckets → Bool
  bucket_met b = any r.domain_met b.x_domains || any r.ip_met b.x_ips

  put_first : (p x y : Bool) → (x || (p || y)) ≡ (p || (x || y))
  put_first p x y = ground arith

  or_assoc : (p x y : Bool) → ((p || x) || y) ≡ (p || (x || y))
  or_assoc p x y = ground arith

  xray_added :
      (m : RuleMatcher) (b : RuleBuckets) (is_ip : Bool)
      → bucket_met (
          if is_ip
          then record b { x_ips = m.xray ∷ b.x_ips }
          else record b { x_domains = m.xray ∷ b.x_domains })
        ≡ ((if is_ip then r.ip_met m.xray else r.domain_met m.xray) || bucket_met b)
  xray_added m b true = put_first (r.ip_met m.xray) (any r.domain_met b.x_domains) _
  xray_added m b false = or_assoc (r.domain_met m.xray) (any r.domain_met b.x_domains) _

  singbox_added :
      (k : Key) (v : List ℕ) (b : RuleBuckets) → bucket_met (for_singbox k v b) ≡ bucket_met b
  singbox_added category v b = refl
  singbox_added Rules.domain v b = refl
  singbox_added domain_suffix v b = refl
  singbox_added domain_regex v b = refl
  singbox_added ip_cidr v b = refl

  parsed_added :
      (p : Parsed) (b : RuleBuckets)
      → bucket_met (add_parsed p b) ≡ (parsed_met r p || bucket_met b)
  parsed_added (invalid e) b = refl
  parsed_added (matcher m) b = singbox_added m.key m.value (for_xray m b) ∙ xray_added m b m.xray_ip

  -- The buckets for xray have the entries of the lines.
  classified :
      (lines : List (List ℕ)) → bucket_met (classify_rules lib lines) ≡ any (line_met lib r) lines
  unfolding classify_rules
  classified [] = refl
  classified (e ∷ es) =
      parsed_added (parse_rule lib e) (classify_rules lib es)
      ∙ ap (λ b. line_met lib r e || b) (classified es)

  if_either :
      {A : Type 0} (p q : Bool) (x y : A)
      → (if p then x else if q then x else y) ≡ (if p || q then x else y)
  if_either true q x y = refl
  if_either false q x y = refl

  -- The rules of an action decide of a connection that one of its lines is met by.
  route-xray_rules :
      (lines : List (List ℕ)) (tag : List ℕ) (rest : List XrayRule)
      → r.route (xray_rules (classify_rules lib lines) tag ++ rest)
        ≡ (if any (line_met lib r) lines then some tag else r.route rest)
  unfolding xray_rules
  route-xray_rules lines tag rest =
      let b = classify_rules lib lines in
      ap r.route (
        append_assoc (unless_empty b.x_domains (domain b.x_domains tag))
          (unless_empty b.x_ips (ip b.x_ips tag)) rest)
      ∙ route_unless_empty_domain b.x_domains tag (unless_empty b.x_ips (ip b.x_ips tag) ++ rest)
      ∙ ap (λ o. if any r.domain_met b.x_domains then some tag else o)
          (route_unless_empty_ip b.x_ips tag rest)
      ∙ if_either (any r.domain_met b.x_domains) (any r.ip_met b.x_ips) (some tag) (r.route rest)
      ∙ ap (λ (b : Bool). if b then some tag else r.route rest) (classified lines)

  route-network : (tag : List ℕ) → r.route (network tag ∷ []) ≡ some tag
  route-network tag = first (network tag) []

  -- What a mode that is direct by default does.
  route-proxied :
      (lines : List (List ℕ))
      → r.route (xray_rules (classify_rules lib lines) proxy_tag ++ network direct_tag ∷ [])
        ≡ some (if any (line_met lib r) lines then proxy_tag else direct_tag)
  route-proxied lines =
      route-xray_rules lines proxy_tag (network direct_tag ∷ [])
      ∙ ap (λ o. if any (line_met lib r) lines then some proxy_tag else o)
          (route-network direct_tag)
      ∙ either (any (line_met lib r) lines)
    where
      either :
          (b : Bool)
          → (if b then some proxy_tag else some direct_tag)
            ≡ some (if b then proxy_tag else direct_tag)
      either true = refl
      either false = refl

  chosen_proxy :
      (a b c : Bool)
      → (if a
          then some proxy_tag
          else if b || false
          then some proxy_tag
          else if c || false
          then some proxy_tag
          else some direct_tag)
        ≡ some (if (a || b) || c then proxy_tag else direct_tag)
  chosen_proxy a b c = ground arith

  route-only_blocked :
      (lines : List (List ℕ)) (d i : List ℕ)
      → r.route (
          xray_rules (classify_rules lib lines) proxy_tag
          ++ domain (d ∷ []) proxy_tag ∷ ip (i ∷ []) proxy_tag ∷ network direct_tag ∷ [])
        ≡ some (
            if any (line_met lib r) lines || r.domain_met d || r.ip_met i
            then proxy_tag
            else direct_tag)
  route-only_blocked lines d i =
      let tail = ip (i ∷ []) proxy_tag ∷ network direct_tag ∷ [] in
      route-xray_rules lines proxy_tag (domain (d ∷ []) proxy_tag ∷ tail)
      ∙ ap (λ o. if any (line_met lib r) lines then some proxy_tag else o)
          (first (domain (d ∷ []) proxy_tag) tail
            ∙ ap (λ o. if r.domain_met d || false then some proxy_tag else o)
                (first (ip (i ∷ []) proxy_tag) (network direct_tag ∷ [])
                  ∙ ap (λ o. if r.ip_met i || false then some proxy_tag else o)
                      (route-network direct_tag)))
      ∙ chosen_proxy (any (line_met lib r) lines) (r.domain_met d) (r.ip_met i)

  chosen_direct :
      (a b c : Bool)
      → (if a
          then some proxy_tag
          else if b
          then some direct_tag
          else if c
          then some direct_tag
          else some proxy_tag)
        ≡ some (if a then proxy_tag else if b || c then direct_tag else proxy_tag)
  chosen_direct a b c = ground arith

  route-bypass_countries :
      (lines ds is' : List (List ℕ))
      → r.route (
          xray_rules (classify_rules lib lines) proxy_tag
          ++ (unless_empty ds (domain ds direct_tag)
              ++ (unless_empty is' (ip is' direct_tag) ++ network proxy_tag ∷ [])))
        ≡ some (
            if any (line_met lib r) lines
            then proxy_tag
            else if any r.domain_met ds || any r.ip_met is'
            then direct_tag
            else proxy_tag)
  route-bypass_countries lines ds is' =
      let ips = unless_empty is' (ip is' direct_tag) ++ network proxy_tag ∷ [] in
      route-xray_rules lines proxy_tag (unless_empty ds (domain ds direct_tag) ++ ips)
      ∙ ap (λ o. if any (line_met lib r) lines then some proxy_tag else o)
          (route_unless_empty_domain ds direct_tag ips
            ∙ ap (λ o. if any r.domain_met ds then some direct_tag else o)
                (route_unless_empty_ip is' direct_tag (network proxy_tag ∷ [])
                  ∙ ap (λ o. if any r.ip_met is' then some direct_tag else o)
                      (route-network proxy_tag)))
      ∙ chosen_direct (any (line_met lib r) lines) (any r.domain_met ds) (any r.ip_met is')

  route-mode : (st : RouteSettings) → r.route (xray_mode_rules lib st) ≡ some (mode_policy lib st r)
  unfolding xray_mode_rules
  route-mode st = elim (Bool-cases (is "only_blocked" st.mode)) [
    | inl a ↦ rw a (route-only_blocked (st.custom_domains ++ st.check_ip_host ∷ []) _ _)
    | inr a ↦ elim (Bool-cases (is "only_blocked_cn" st.mode)) [
      | inl b ↦ rw (a, b) (route-proxied _)
      | inr b ↦ elim (Bool-cases (is "only_selected" st.mode)) [
        | inl c ↦ rw (a, b, c) (route-proxied _)
        | inr c ↦ elim (Bool-cases (is "bypass_countries" st.mode)) [
          | inl d ↦ rw (a, b, c, d) (route-bypass_countries st.custom_domains _ _)
          | inr d ↦ rw (a, b, c, d) (route-network proxy_tag)
        ]
      ]
    ]
  ]

  chosen_user :
      (a b c d : Bool) (x : List ℕ)
      → (if a
          then some (codes "block")
          else if b || false
          then some direct_tag
          else if c
          then some direct_tag
          else if d
          then some proxy_tag
          else some x)
        ≡ some (
            if a
            then codes "block"
            else if b
            then direct_tag
            else if c
            then direct_tag
            else if d
            then proxy_tag
            else x)
  chosen_user true b c d x = refl
  chosen_user false true c d x = refl
  chosen_user false false true d x = refl
  chosen_user false false false true x = refl
  chosen_user false false false false x = refl

  -- The rules that xray gets send every connection where the policy sends it, in every mode, if
  -- xray takes the first rule that applies: to be blocked if a line of the block list is met, the
  -- local network's not excepted; else directly if the address is private or a line of the direct
  -- list is met; else through the proxy if a line of that list is met; else where the mode sends
  -- it. A written line counts as its entry, and one that cannot be a rule is never met.
  pub xray_routing-policy :
      (st : RouteSettings) → r.route (xray_routing_for_proxy lib st) ≡ some (policy lib st r)
  unfolding xray_routing_for_proxy
  xray_routing-policy st =
      let proxies =
        xray_rules (classify_rules lib st.proxy_rules) proxy_tag ++ xray_mode_rules lib st in
      let directs = xray_rules (classify_rules lib st.direct_rules) direct_tag ++ proxies in
      let privates = ip (codes "geoip:private" ∷ []) direct_tag ∷ directs in
      route-xray_rules st.block_rules (codes "block") privates
      ∙ ap (λ o. if any (line_met lib r) st.block_rules then some (codes "block") else o)
          (first (ip (codes "geoip:private" ∷ []) direct_tag) directs
            ∙ ap (λ o. if r.ip_met (codes "geoip:private") || false then some direct_tag else o)
                (route-xray_rules st.direct_rules direct_tag proxies
                  ∙ ap (λ o. if any (line_met lib r) st.direct_rules then some direct_tag else o)
                      (route-xray_rules st.proxy_rules proxy_tag (xray_mode_rules lib st)
                        ∙ ap
                            (λ o. if any (line_met lib r) st.proxy_rules then some proxy_tag else o)
                            (route-mode st))))
      ∙ chosen_user (any (line_met lib r) st.block_rules) (r.ip_met (codes "geoip:private"))
          (any (line_met lib r) st.direct_rules) (any (line_met lib r) st.proxy_rules)
          (mode_policy lib st r)
