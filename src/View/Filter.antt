-- ===== src/View/Filter.antt =====
-- core/memstore.go: the filter's terms and what they match, and the names of flags; core/dedup.go:
-- the spellings of a transport and of a security layer.
pub mod Columns
use vair.Base.{
  ℕ, ◌+◌, ◌-◌, ◌≡◌, Bool, true, false, not, ◌&&◌, ◌||◌, List, [], ◌∷◌, ◌++◌, Option, none, some,
  if◌then◌else◌, ◌==◌, leb, same, codes, is_empty,
}
use vair.Base.Text.{contains, cut, split, to_lower, trim_space}
use vair.View.{Outside, Key, is_in}

abbrev pub ri_first : ℕ
ri_first = 127462

abbrev pub ri_last : ℕ
ri_last = 127487

abbrev pub is_indicator : ℕ → Bool
is_indicator r = leb ri_first r && leb r ri_last

abbrev pub letter_of : ℕ → ℕ
letter_of r = 97 + (r - ri_first)

-- Each code behind a space but the first. A flag's second half is not read again.
unfoldable pub flag_codes_onto : Bool → List ℕ → List ℕ
flag_codes_onto started [] = []
flag_codes_onto started (a ∷ []) = []
flag_codes_onto started (a ∷ c ∷ rs) =
    let found = letter_of a ∷ letter_of c ∷ flag_codes_onto true rs in
    let on = flag_codes_onto started (c ∷ rs) in
    if is_indicator a && is_indicator c then (if started then 32 ∷ found else found) else on

unfoldable pub flag_codes : List ℕ → List ℕ
unfolding flag_codes_onto
flag_codes s = flag_codes_onto false s

unfoldable pub searchable_name : List ℕ → List ℕ
unfolding flag_codes
searchable_name s = if is_empty (flag_codes s) then s else s ++ 0 ∷ flag_codes s

pub record Term : Type 0 where
  pub key : List ℕ
  pub val : List ℕ

unfoldable pub canon_field : List ℕ → List ℕ
canon_field f =
    if same f (codes "name")
    then codes "name"
    else if same f (codes "host")
    then codes "host"
    else if is_in f (codes "type" ∷ codes "proto" ∷ codes "protocol" ∷ [])
    then codes "type"
    else if is_in f (codes "transport" ∷ codes "net" ∷ codes "network" ∷ [])
    then codes "transport"
    else if is_in f (codes "security" ∷ codes "tls" ∷ codes "sec" ∷ [])
    then codes "security"
    else if is_in f (codes "unlock" ∷ codes "opens" ∷ [])
    then codes "unlock"
    else []

abbrev pub transports : List (List ℕ)
transports =
    codes "tcp"
    ∷ codes "ws"
    ∷ codes "grpc"
    ∷ codes "xhttp"
    ∷ codes "h2"
    ∷ codes "http"
    ∷ codes "httpupgrade"
    ∷ codes "splithttp"
    ∷ codes "kcp"
    ∷ codes "quic"
    ∷ []

abbrev pub securities : List (List ℕ)
securities = codes "tls" ∷ codes "reality" ∷ codes "xtls" ∷ codes "none" ∷ []

abbrev pub protocols : List (List ℕ)
protocols =
    codes "vless"
    ∷ codes "vmess"
    ∷ codes "trojan"
    ∷ codes "ss"
    ∷ codes "ss2022"
    ∷ codes "hysteria2"
    ∷ codes "hy2"
    ∷ codes "tuic"
    ∷ codes "socks"
    ∷ codes "wireguard"
    ∷ codes "wg"
    ∷ []

unfoldable pub classify_bare : List ℕ → List ℕ
classify_bare v =
    if is_in v transports
    then codes "transport"
    else if is_in v securities
    then codes "security"
    else if is_in v protocols
    then codes "type"
    else []

-- A term that writes its field: none where its part has no field that is known.
unfoldable pub field_term : (ℕ → Bool) → List ℕ → Option Term
unfolding cut canon_field trim_space
field_term space part = elim (cut 58 part) [
  | none ↦ none
  | some (f, v) ↦
      if is_empty f || is_empty (canon_field (trim_space space f))
      then none
      else some (record { key = canon_field (trim_space space f); val = trim_space space v })
]

abbrev pub add_term : Option Term → List ℕ → List Term → List Term
add_term none part rest = record { key = classify_bare part; val = part } ∷ rest
add_term (some t) part rest = if is_empty t.val then rest else t ∷ rest

unfoldable pub parse_parts : (ℕ → Bool) → List (List ℕ) → List Term
unfolding field_term trim_space
parse_parts space [] = []
parse_parts space (p ∷ parts) =
    let part = trim_space space p in
    let rest = parse_parts space parts in
    if is_empty part then rest else add_term (field_term space part) part rest

unfoldable pub parse_filter_terms : Outside → List ℕ → List Term
unfolding parse_parts split trim_space
parse_filter_terms outside filter =
    let s = to_lower outside.table (trim_space outside.is_space filter) in
    if is_empty s then [] else parse_parts outside.is_space (split 43 s)

-- A map of spellings; what it does not hold stays as it is.
unfoldable pub alias_of : List (List ℕ × List ℕ) → List ℕ → List ℕ
alias_of [] s = s
alias_of ((k, v) ∷ rest) s = if same k s then v else alias_of rest s

abbrev pub proto_aliases : List (List ℕ × List ℕ)
proto_aliases = (codes "hy2", codes "hysteria2") ∷ (codes "wg", codes "wireguard") ∷ []

abbrev pub network_aliases : List (List ℕ × List ℕ)
network_aliases =
    ([], codes "tcp")
    ∷ (codes "raw", codes "tcp")
    ∷ (codes "tcp", codes "tcp")
    ∷ (codes "none", codes "tcp")
    ∷ (codes "h2", codes "http")
    ∷ (codes "http", codes "http")
    ∷ (codes "ws", codes "ws")
    ∷ (codes "websocket", codes "ws")
    ∷ (codes "grpc", codes "grpc")
    ∷ (codes "gun", codes "grpc")
    ∷ (codes "kcp", codes "kcp")
    ∷ (codes "mkcp", codes "kcp")
    ∷ (codes "quic", codes "quic")
    ∷ (codes "xhttp", codes "xhttp")
    ∷ (codes "splithttp", codes "xhttp")
    ∷ (codes "httpupgrade", codes "httpupgrade")
    ∷ []

abbrev pub security_aliases : List (List ℕ × List ℕ)
security_aliases =
    ([], codes "none")
    ∷ (codes "none", codes "none")
    ∷ (codes "tls", codes "tls")
    ∷ (codes "xtls", codes "xtls")
    ∷ []

unfoldable pub norm_network : Outside → List ℕ → List ℕ
unfolding alias_of trim_space
norm_network outside s =
    alias_of network_aliases (to_lower outside.table (trim_space outside.is_space s))

unfoldable pub norm_security : Outside → List ℕ → List ℕ
unfolding alias_of trim_space
norm_security outside s =
    alias_of security_aliases (to_lower outside.table (trim_space outside.is_space s))

abbrev pub hits_type : Key → List ℕ → Bool → Bool
hits_type k val true =
    same k.protocol (alias_of proto_aliases val) || same k.chip (alias_of proto_aliases val)
hits_type k val false = contains k.protocol val || contains k.chip val

abbrev pub hits_any : Key → List ℕ → Bool
hits_any k val =
    contains k.name_search val
    || contains k.host val
    || contains k.network val
    || contains k.security val
    || contains k.protocol val

unfoldable pub term_hit_key : Outside → Key → List ℕ → List ℕ → Bool
unfolding classify_bare contains alias_of norm_network norm_security
term_hit_key outside k key val =
    let known = same (classify_bare val) key in
    if same key (codes "name")
    then contains k.name_search val
    else if same key (codes "host")
    then contains k.host val
    else if same key (codes "type")
    then hits_type k val known
    else if same key (codes "transport")
    then (if known
        then same (norm_network outside k.network) (norm_network outside val)
        else contains k.network val)
    else if same key (codes "security")
    then (if known
        then same (norm_security outside k.security) (norm_security outside val)
        else contains k.security val)
    else if same key (codes "unlock")
    then outside.opens k.raw val
    else hits_any k val

-- `satisfied`, a map by key.
abbrev pub is_satisfied : List ℕ → List (List ℕ × Bool) → Bool
is_satisfied key [] = false
is_satisfied key ((k, ok) ∷ rest) = if same k key then ok else is_satisfied key rest

abbrev pub put : List ℕ → Bool → List (List ℕ × Bool) → List (List ℕ × Bool)
put key b [] = (key, b) ∷ []
put key b ((k, ok) ∷ rest) = if same k key then (k, b) ∷ rest else (k, ok) ∷ put key b rest

abbrev pub satisfy : (Term → Bool) → List (List ℕ × Bool) → Term → List (List ℕ × Bool)
satisfy hits satisfied t =
    if is_satisfied t.key satisfied then satisfied else put t.key (hits t) satisfied

unfoldable pub satisfy_all : (Term → Bool) → List (List ℕ × Bool) → List Term → List (List ℕ × Bool)
satisfy_all hits satisfied [] = satisfied
satisfy_all hits satisfied (t ∷ ts) = satisfy_all hits (satisfy hits satisfied t) ts

abbrev pub all_satisfied : List (List ℕ × Bool) → Bool
all_satisfied [] = true
all_satisfied ((k, ok) ∷ rest) = ok && all_satisfied rest

unfoldable pub filter_terms_match : Outside → List Term → Key → Bool
unfolding satisfy_all term_hit_key
filter_terms_match outside terms k =
    all_satisfied (satisfy_all (λ t. term_hit_key outside k t.key t.val) [] terms)
