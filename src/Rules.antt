-- ===== src/Rules.antt =====
-- core/routing_rules.go: the user's routing rules, one written line each, as the engines get them.
-- A text is a list of code points. What Go's library decides (`net.ParseIP`, `net.ParseCIDR`,
-- `net.SplitHostPort`, `regexp.Compile`, the case of letters) is in `Library`.
pub mod Punycode
pub mod Xray
pub mod Policy
use vair.Base.{
  ℕ, zero, suc, ◌+◌, ◌-◌, Bool, true, false, ◌&&◌, ◌||◌, not, List, [], ◌∷◌, ◌++◌, Option, none,
  some, String, codes, same, is_empty, if◌then◌else◌, ◌==◌, leb, ltb, drop,
}
use vair.Base.Text.{
  has_prefix, skip_any, trim_right, trim_space, split, add_first, to_lower, reverse_onto,
}
use vair.Rules.Punycode.{punycode}

pub record Library : Type 0 where
  pub is_space : ℕ → Bool
  pub cases : ℕ → ℕ
  pub is_ip_or_cidr : List ℕ → Bool
  pub split_host_port : List ℕ → Option (List ℕ)
  pub compiles : List ℕ → Bool

-- The sing-box matcher of a line; a category has none.
pub data Key : Type 0 where
  category domain domain_suffix domain_regex ip_cidr : Key

pub record RuleMatcher : Type 0 where
  pub key : Key
  pub value : List ℕ
  pub xray : List ℕ
  pub xray_ip : Bool

pub data RuleError : Type 0 where
  host regexp : RuleError

pub data Parsed : Type 0 where
  matcher : RuleMatcher → Parsed
  invalid : RuleError → Parsed

-- `v[i+3:]` behind the first "://".
unfoldable pub after_scheme : List ℕ → List ℕ → List ℕ
after_scheme whole [] = whole
after_scheme whole (c ∷ s) =
    let rest = after_scheme whole s in
    if has_prefix (c ∷ s) (codes "://") then drop 3 (c ∷ s) else rest

-- `v[:i]` before the first of "/?#".
unfoldable pub before_path : List ℕ → List ℕ
before_path [] = []
before_path (c ∷ s) =
    let rest = before_path s in if c == 47 || c == 63 || c == 35 then [] else c ∷ rest

-- `v[i+1:]` behind the last "@".
unfoldable pub after_user : List ℕ → List ℕ → List ℕ
after_user whole [] = whole
after_user whole (c ∷ s) = after_user (if c == 64 then s else whole) s

abbrev pub host_of_port : Option (List ℕ) → List ℕ → List ℕ
host_of_port none v = v
host_of_port (some h) v = h

abbrev pub trim : (ℕ → Bool) → List ℕ → List ℕ
trim p s = trim_right p (skip_any p s)

abbrev pub without_star : List ℕ → List ℕ
without_star v = if has_prefix v (codes "*.") then drop 2 v else v

abbrev pub is_ascii : List ℕ → Bool
is_ascii [] = true
is_ascii (c ∷ s) = ltb c 128 && is_ascii s

abbrev pub is_label_char : ℕ → Bool
is_label_char c = leb 97 c && leb c 122 || leb 48 c && leb c 57 || c == 45 || c == 95

abbrev pub all_label_chars : List ℕ → Bool
all_label_chars [] = true
all_label_chars (c ∷ s) = is_label_char c && all_label_chars s

abbrev pub prefixed : String → Option (List ℕ) → Option (List ℕ)
prefixed p none = none
prefixed p (some s) = some (codes p ++ s)

abbrev pub checked_label : Option (List ℕ) → Option (List ℕ)
checked_label none = none
checked_label (some l) = if all_label_chars l then some l else none

-- A label as it is on the wire.
unfoldable pub clean_label : List ℕ → Option (List ℕ)
unfolding punycode
clean_label l =
    if is_empty l
    then none
    else checked_label (if is_ascii l then some l else prefixed "xn--" (punycode l))

abbrev pub join_label : Option (List ℕ) → Option (List ℕ) → Option (List ℕ)
join_label (some l) (some rest) = some (l ++ 46 ∷ rest)
join_label _ _ = none

unfoldable pub clean_labels : List (List ℕ) → Option (List ℕ)
unfolding clean_label
clean_labels [] = some []
clean_labels (l ∷ []) = clean_label l
clean_labels (l ∷ m ∷ ls) = join_label (clean_label l) (clean_labels (m ∷ ls))

module _ (lib : Library) where
  -- What is left of an address: no scheme, path, user, port nor brackets.
  abbrev pub bare_host : List ℕ → List ℕ
  bare_host v =
      let scheme = after_scheme (trim_space lib.is_space v) (trim_space lib.is_space v) in
      let user = after_user (before_path scheme) (before_path scheme) in
      trim (λ c. c == 91 || c == 93) (host_of_port (lib.split_host_port user) user)

  abbrev pub name_of : List ℕ → List ℕ
  name_of v = to_lower lib.cases (trim (λ c. c == 46) (without_star v))

  unfoldable pub clean_rule_host : List ℕ → Option (List ℕ)
  unfolding after_scheme before_path after_user clean_labels
  clean_rule_host v =
      let bare = bare_host v in
      if lib.is_ip_or_cidr bare
      then some bare
      else if is_empty (name_of bare)
      then none
      else clean_labels (split 46 (name_of bare))

  -- The bytes of a code point in UTF-8.
  abbrev pub width : ℕ → ℕ
  width c = if ltb c 128 then 1 else if ltb c 2048 then 2 else if ltb c 65536 then 3 else 4

  -- `e[n:]` on the bytes.
  unfoldable pub drop_bytes : ℕ → List ℕ → List ℕ
  drop_bytes n [] = []
  drop_bytes n (c ∷ s) = let rest = drop_bytes (n - width c) s in if n == 0 then c ∷ s else rest

  abbrev pub host_matcher : Key → String → Option (List ℕ) → Parsed
  host_matcher key p none = invalid host
  host_matcher key p (some v) =
      matcher (record { key = key; value = v; xray = codes p ++ v; xray_ip = false })

  abbrev pub ip_matcher : List ℕ → RuleMatcher
  ip_matcher v = record { key = ip_cidr; value = v; xray = v; xray_ip = true }

  abbrev pub plain_matcher : Option (List ℕ) → Parsed
  plain_matcher none = invalid host
  plain_matcher (some v) =
      if lib.is_ip_or_cidr v
      then matcher (ip_matcher v)
      else host_matcher domain_suffix "domain:" (some v)

  unfoldable pub parse_rule : List ℕ → Parsed
  unfolding clean_rule_host drop_bytes
  parse_rule entry =
      let e = trim_space lib.is_space entry in
      let lower = to_lower lib.cases e in
      let cut = λ (n : ℕ). trim_space lib.is_space (drop_bytes n e) in
      if is_empty e
      then invalid host
      else if has_prefix lower (codes "geoip:")
      then matcher (record { key = category; value = []; xray = lower; xray_ip = true })
      else if has_prefix lower (codes "geosite:")
      then matcher (record { key = category; value = []; xray = lower; xray_ip = false })
      else if has_prefix lower (codes "regexp:")
      then (if is_empty (cut 7) || not (lib.compiles (cut 7))
          then invalid regexp
          else host_matcher domain_regex "regexp:" (some (cut 7)))
      else if has_prefix lower (codes "full:")
      then host_matcher domain "full:" (clean_rule_host (cut 5))
      else if has_prefix lower (codes "domain:")
      then host_matcher domain_suffix "domain:" (clean_rule_host (cut 7))
      else if lib.is_ip_or_cidr e
      then matcher (ip_matcher e)
      else plain_matcher (clean_rule_host e)

-- One action's matchers, for each engine.
pub record RuleBuckets : Type 0 where
  pub x_domains : List (List ℕ)
  pub x_ips : List (List ℕ)
  pub s_suffix : List (List ℕ)
  pub s_exact : List (List ℕ)
  pub s_regex : List (List ℕ)
  pub s_ips : List (List ℕ)

abbrev pub for_xray : RuleMatcher → RuleBuckets → RuleBuckets
for_xray m b =
    if m.xray_ip
    then record b { x_ips = m.xray ∷ b.x_ips }
    else record b { x_domains = m.xray ∷ b.x_domains }

abbrev pub for_singbox : Key → List ℕ → RuleBuckets → RuleBuckets
for_singbox category v b = b
for_singbox domain_suffix v b = record b { s_suffix = v ∷ b.s_suffix }
for_singbox domain v b = record b { s_exact = v ∷ b.s_exact }
for_singbox domain_regex v b = record b { s_regex = v ∷ b.s_regex }
for_singbox ip_cidr v b = record b { s_ips = v ∷ b.s_ips }

abbrev pub add_parsed : Parsed → RuleBuckets → RuleBuckets
add_parsed (invalid e) b = b
add_parsed (matcher m) b = for_singbox m.key m.value (for_xray m b)

abbrev pub no_rules : RuleBuckets
no_rules = record {
  x_domains = [];
  x_ips = [];
  s_suffix = [];
  s_exact = [];
  s_regex = [];
  s_ips = [];
}

unfoldable pub classify_rules : Library → List (List ℕ) → RuleBuckets
unfolding parse_rule
classify_rules lib [] = no_rules
classify_rules lib (e ∷ es) = add_parsed (parse_rule lib e) (classify_rules lib es)
