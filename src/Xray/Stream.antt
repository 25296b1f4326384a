-- ===== src/Xray/Stream.antt =====
-- core/protocols.go: `xrayStreamSettings`, the transport and the security of an outbound.
use vair.Base.{ℕ, ◌||◌, not, List, [], ◌∷◌, codes, is_empty, if◌then◌else◌}
use vair.Base.Text.{split}
use vair.Base.Json.{Json, boolean, text, array, object, Fields, put, word, entries, put_if, texts}
use vair.Node.{Env, is, first_non_empty}

-- The parameters of `xrayStreamSettings`, those of `transportOpts` included.
pub record StreamOptions : Type 0 where
  pub network : List ℕ
  pub security : List ℕ
  pub path : List ℕ
  pub host2 : List ℕ
  pub service_name : List ℕ
  pub sni : List ℕ
  pub alpn : List ℕ
  pub fingerprint : List ℕ
  pub public_key : List ℕ
  pub short_id : List ℕ
  pub spider_x : List ℕ
  pub mode : List ℕ
  pub header_type : List ℕ
  pub seed : List ℕ
  pub pinned_cert : List ℕ
  pub verify_cert_name : List ℕ

abbrev pub headers_of : List ℕ → Json
headers_of host = object (entries (("Host", text host) ∷ []))

-- The switch over the transport: what it adds to the stanza.
unfoldable pub add_transport : StreamOptions → List ℕ → Fields → Fields
unfolding put
add_transport o network stream =
    let path = entries (("path", text o.path) ∷ []) in
    let named = not (is_empty o.host2) in
    if is "ws" network
    then put (codes "wsSettings") (object (put_if named "headers" (headers_of o.host2) path)) stream
    else if is "grpc" network
    then put (codes "grpcSettings")
        (object (
          entries (
            ("serviceName", text o.service_name)
            ∷ ("multiMode", boolean (is "multi" o.mode))
            ∷ [])))
        stream
    else if is "h2" network || is "http" network
    then put (codes "httpSettings")
        (object (put_if named "host" (array (texts (o.host2 ∷ []))) path)) stream
    else if is "httpupgrade" network
    then put (codes "httpupgradeSettings") (object (put_if named "host" (text o.host2) path)) stream
    else if is "splithttp" network || is "xhttp" network
    then put (codes "xhttpSettings")
        (object (
          put_if (not (is_empty o.mode)) "mode" (text o.mode)
            (put_if named "host" (text o.host2) path)))
        stream
    else if is "kcp" network || is "mkcp" network
    then put (codes "kcpSettings")
        (object (
          put_if (not (is_empty o.seed)) "seed" (text o.seed) (
            entries (
              (
                "header",
                object
                    (entries (("type", text (first_non_empty o.header_type (codes "none"))) ∷ [])),
              )
              ∷ []))))
        (put (codes "network") (word "kcp") stream)
    else stream

unfoldable pub xray_tls : StreamOptions → List ℕ → Fields
unfolding put
xray_tls o fingerprint =
    put_if (not (is_empty o.verify_cert_name)) "verifyPeerCertByName" (text o.verify_cert_name) (
      put_if (not (is_empty o.pinned_cert)) "pinnedPeerCertSha256" (text o.pinned_cert) (
        put_if (not (is_empty o.alpn)) "alpn" (array (texts (split 44 o.alpn)))
          (entries (("serverName", text o.sni) ∷ ("fingerprint", text fingerprint) ∷ []))))

-- The switch over the security.
unfoldable pub add_security : StreamOptions → List ℕ → List ℕ → Fields → Fields
unfolding put xray_tls
add_security o security fingerprint stream =
    if is "tls" security
    then put (codes "tlsSettings") (object (xray_tls o fingerprint)) stream
    else if is "reality" security
    then put (codes "realitySettings")
        (object (
          entries (
            ("serverName", text o.sni)
            ∷ ("fingerprint", text fingerprint)
            ∷ ("publicKey", text o.public_key)
            ∷ ("shortId", text o.short_id)
            ∷ ("spiderX", text o.spider_x)
            ∷ [])))
        stream
    else stream

unfoldable pub xray_stream_settings : Env → StreamOptions → Fields
unfolding add_transport add_security
xray_stream_settings env o =
    let network = first_non_empty o.network (codes "tcp") in
    let security = first_non_empty o.security (codes "none") in
    add_security o security (first_non_empty o.fingerprint env.fingerprint) (
      add_transport o network
        (entries (("network", text network) ∷ ("security", text security) ∷ [])))
