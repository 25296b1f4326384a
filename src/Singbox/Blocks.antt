-- ===== src/Singbox/Blocks.antt =====
-- core/protocols.go: the `tls` and the `transport` block of an outbound of sing-box.
use vair.Base.{
  ℕ, Bool, true, ◌&&◌, ◌||◌, not, List, [], ◌∷◌, Option, none, some, codes, is_empty, if◌then◌else◌,
}
use vair.Base.Json.{
  Json, boolean, text, array, object, Fields, get, put, word, entries, put_if, texts,
}
use vair.Node.{Env, is, first_non_empty, split_alpn}

unfoldable pub singbox_can_carry_tls : List ℕ → List ℕ → Bool
singbox_can_carry_tls security public_key = not (is "reality" security) || not (is_empty public_key)

-- The parameters of `singboxTLS`.
pub record TlsOptions : Type 0 where
  pub security : List ℕ
  pub sni : List ℕ
  pub host : List ℕ
  pub alpn : List ℕ
  pub fingerprint : List ℕ
  pub public_key : List ℕ
  pub short_id : List ℕ
  pub insecure : Bool

abbrev pub utls : List ℕ → Fields
utls fingerprint = entries (("enabled", boolean true) ∷ ("fingerprint", text fingerprint) ∷ [])

abbrev pub reality_block : TlsOptions → Fields
reality_block o =
    put_if (not (is_empty o.short_id)) "short_id" (text o.short_id)
      (entries (("enabled", boolean true) ∷ ("public_key", text o.public_key) ∷ []))

unfoldable pub add_utls : List ℕ → Fields → Fields
unfolding put
add_utls fingerprint tls =
    put_if (not (is_empty fingerprint)) "utls" (object (utls fingerprint)) tls

abbrev pub or_chrome : Option Json → Fields → Fields
or_chrome (some v) tls = tls
or_chrome none tls = put (codes "utls") (object (utls (codes "chrome"))) tls

-- REALITY with uTLS, whether or not there is a fingerprint.
unfoldable pub add_reality : TlsOptions → Fields → Fields
unfolding put get
add_reality o tls =
    if is "reality" o.security && not (is_empty o.public_key)
    then put (codes "reality") (object (reality_block o)) (or_chrome (get (codes "utls") tls) tls)
    else tls

unfoldable pub wants_tls : List ℕ → Bool
wants_tls security = is "tls" security || is "reality" security || is "xtls" security

-- The block before uTLS and REALITY.
unfoldable pub plain_tls : Env → TlsOptions → Fields
unfolding put
plain_tls env o =
    let name = first_non_empty o.sni o.host in
    let alpn = split_alpn env o.alpn in
    put_if (not (is_empty alpn)) "alpn" (array (texts alpn)) (
      put_if o.insecure "insecure" (boolean true) (
        put_if (not (is_empty name)) "server_name" (text name)
          (entries (("enabled", boolean true) ∷ []))))

unfoldable pub singbox_tls : Env → TlsOptions → Option Fields
unfolding plain_tls add_utls add_reality wants_tls
singbox_tls env o =
    if wants_tls o.security
    then some
        (add_reality o (add_utls (first_non_empty o.fingerprint env.fingerprint) (plain_tls env o)))
    else none

-- What a transport is in sing-box: none for plain TCP, or one that it does not have.
pub data Transport : Type 0 where
  unsupported plain : Transport
  over : Fields → Transport

unfoldable pub singbox_transport : List ℕ → List ℕ → List ℕ → List ℕ → Transport
unfolding put
singbox_transport network path host2 service_name =
    let has_path = not (is_empty path) in
    let has_host = not (is_empty host2) in
    if is_empty network || is "tcp" network || is "raw" network
    then plain
    else if is "ws" network
    then over (
        put_if has_host "headers" (object (entries (("Host", text host2) ∷ [])))
          (put_if has_path "path" (text path) (entries (("type", word "ws") ∷ []))))
    else if is "grpc" network
    then over (
        put_if (not (is_empty service_name)) "service_name" (text service_name)
          (entries (("type", word "grpc") ∷ [])))
    else if is "http" network || is "h2" network
    then over (
        put_if has_host "host" (array (texts (host2 ∷ [])))
          (put_if has_path "path" (text path) (entries (("type", word "http") ∷ []))))
    else if is "httpupgrade" network
    then over (
        put_if has_host "host" (text host2)
          (put_if has_path "path" (text path) (entries (("type", word "httpupgrade") ∷ []))))
    else unsupported

-- `tls` and `transport`, where there are any.
unfoldable pub add_some : List ℕ → Option Fields → Fields → Fields
unfolding put
add_some key none out = out
add_some key (some m) out = put key (object m) out

abbrev pub with_blocks : Option Fields → Transport → Fields → Option Fields
with_blocks tls unsupported out = none
with_blocks tls plain out = some (add_some (codes "tls") tls out)
with_blocks tls (over t) out =
    some (add_some (codes "transport") (some t) (add_some (codes "tls") tls out))
