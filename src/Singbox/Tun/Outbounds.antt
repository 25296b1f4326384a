-- ===== src/Singbox/Tun/Outbounds.antt =====
-- core/protocols.go: no outbound or endpoint that is built for a parsed link names a file.
use vair.Base.{
  ℕ, ◌≡◌, refl, Bool, true, false, ◌&&◌, not, List, Option, none, some, codes, is_empty,
  if◌then◌else◌, Bool-cases, inl, inr, arith,
}
use vair.Base.Json.{Json, boolean, text, object, Fields, get, put}
use vair.Helper.{Options}
use vair.Helper.Config.{check_paths}
use vair.Node.{
  Env, Node, VlessParams, TrojanParams, VmessParams, vless, trojan, vmess, shadowsocks, hysteria2,
  tuic, wireguard, proxy, json, is, SsParams, ProxyParams, Hysteria2Params, split_alpn,
  first_non_empty,
}
use vair.Singbox.{
  singbox_outbound_hysteria2, singbox_outbound_shadowsocks, singbox_outbound_vless,
  singbox_outbound_trojan, singbox_outbound_vmess, singbox_outbound_proxy,
  singbox_outbound_for_node, singbox_endpoint_for_node, or_h3, vless_tls, trojan_tls, vmess_tls,
}
use vair.Singbox.Blocks.{
  TlsOptions, utls, reality_block, add_utls, or_chrome, add_reality, plain_tls, singbox_tls,
  wants_tls, singbox_transport, Transport, unsupported, plain, over, add_some, with_blocks,
  singbox_can_carry_tls,
}
use vair.Singbox.Chain.{apply_singbox_fragment, with_cut, cut_tls, is_enabled, is_cut, is_there}
use vair.Singbox.Tun.Clean.{
  IsClean, put-IsClean, put_if-IsClean, get-IsCleanAt, texts-clean, reality_block-IsClean,
  plain_tls-IsClean, singbox_outbound_tuic-IsClean, singbox_endpoint_wireguard-IsClean,
}

-- A configuration that the user wrote as JSON.
abbrev pub is_json : Node → Bool
is_json (json p) = true
is_json _ = false

-- An outbound, a TLS block or a transport, where there is one.
module _ (table : ℕ → ℕ) (opt : Options) where
  abbrev pub Allowed : Option Fields → Type 0
  Allowed none = Unit
  Allowed (some m) = IsClean table opt m

  abbrev pub AllowedTransport : Transport → Type 0
  AllowedTransport unsupported = Unit
  AllowedTransport plain = Unit
  AllowedTransport (over m) = IsClean table opt m

  singbox_outbound_hysteria2-IsClean :
      (env : Env) (p : Hysteria2Params) → IsClean table opt (singbox_outbound_hysteria2 env p)
  unfolding put singbox_outbound_hysteria2 check_paths
  singbox_outbound_hysteria2-IsClean env p =
      ground
        (arith, texts-clean table opt (or_h3 (split_alpn env p.alpn)) (codes "alpn") false refl)

  singbox_outbound_shadowsocks-IsClean :
      (env : Env) (p : SsParams) → IsClean table opt (singbox_outbound_shadowsocks env p)
  unfolding put singbox_outbound_shadowsocks check_paths
  singbox_outbound_shadowsocks-IsClean env p = ground arith

  singbox_outbound_proxy-IsClean :
      (env : Env) (p : ProxyParams) (tag : List ℕ)
      → IsClean table opt (singbox_outbound_proxy env p tag)
  unfolding put singbox_outbound_proxy check_paths
  singbox_outbound_proxy-IsClean env p tag = ground arith

  or_chrome-IsClean :
      (v : Option Json) (m : Fields) → IsClean table opt m → IsClean table opt (or_chrome v m)
  unfolding check_paths
  or_chrome-IsClean none m h =
      put-IsClean table opt (codes "utls") (object (utls (codes "chrome"))) m refl h
  or_chrome-IsClean (some v) m h = h

  add_reality-IsClean :
      (o : TlsOptions) (m : Fields) → IsClean table opt m → IsClean table opt (add_reality o m)
  unfolding add_reality check_paths
  add_reality-IsClean o m h =
      let chrome = or_chrome-IsClean (get (codes "utls") m) m h in
      let block = reality_block-IsClean table opt o in
      elim (Bool-cases (is "reality" o.security && not (is_empty o.public_key))) [
        | inl e ↦ rw e (
            put-IsClean table opt (codes "reality") (object (reality_block o))
              (or_chrome (get (codes "utls") m) m) block chrome)
        | inr e ↦ rw e h
      ]

  singbox_tls-Allowed : (env : Env) (o : TlsOptions) → Allowed (singbox_tls env o)
  unfolding singbox_tls add_utls check_paths
  singbox_tls-Allowed env o =
      let fingerprint = first_non_empty o.fingerprint env.fingerprint in
      let cut =
        put_if-IsClean table opt (not (is_empty fingerprint)) "utls" (object (utls fingerprint))
          (plain_tls env o) refl (plain_tls-IsClean table opt env o) in
      elim (Bool-cases (wants_tls o.security)) [
        | inl e ↦ rw e (add_reality-IsClean o (add_utls fingerprint (plain_tls env o)) cut)
        | inr e ↦ rw e tt
      ]

  singbox_transport-AllowedTransport :
      (network path host2 service : List ℕ)
      → AllowedTransport (singbox_transport network path host2 service)
  unfolding singbox_transport put check_paths
  singbox_transport-AllowedTransport network path host2 service = ground arith

  add_tls-IsClean :
      (t : Option Fields) (m : Fields)
      → Allowed t
      → IsClean table opt m
      → IsClean table opt (add_some (codes "tls") t m)
  unfolding add_some check_paths
  add_tls-IsClean none m at h = h
  add_tls-IsClean (some t) m at h = put-IsClean table opt (codes "tls") (object t) m at h

  with_blocks-Allowed :
      (tls : Option Fields) (t : Transport) (m : Fields)
      → Allowed tls
      → AllowedTransport t
      → IsClean table opt m
      → Allowed (with_blocks tls t m)
  unfolding add_some check_paths
  with_blocks-Allowed tls unsupported m at clean h = tt
  with_blocks-Allowed tls plain m at clean h = add_tls-IsClean tls m at h
  with_blocks-Allowed tls (over t) m at clean h =
      put-IsClean table opt (codes "transport") (object t) (add_some (codes "tls") tls m) clean
        (add_tls-IsClean tls m at h)

  if_some-Allowed : (b : Bool) (m : Option Fields) → Allowed m → Allowed (if b then m else none)
  if_some-Allowed true m h = h
  if_some-Allowed false m h = tt

  singbox_outbound_vless-Allowed :
      (env : Env) (p : VlessParams) → Allowed (singbox_outbound_vless env p)
  unfolding singbox_outbound_vless put check_paths
  singbox_outbound_vless-Allowed env p =
      if_some-Allowed (singbox_can_carry_tls p.security p.public_key) _ (
        with_blocks-Allowed (singbox_tls env (vless_tls p))
          (singbox_transport p.network p.path p.host2 p.service_name) _
          (singbox_tls-Allowed env (vless_tls p))
          (singbox_transport-AllowedTransport p.network p.path p.host2 p.service_name)
          (put_if-IsClean table opt (not (is_empty p.flow)) "flow" (text p.flow) _ refl refl))

  singbox_outbound_trojan-Allowed :
      (env : Env) (p : TrojanParams) → Allowed (singbox_outbound_trojan env p)
  unfolding singbox_outbound_trojan put check_paths
  singbox_outbound_trojan-Allowed env p =
      if_some-Allowed (singbox_can_carry_tls p.security p.public_key) _ (
        with_blocks-Allowed (singbox_tls env (trojan_tls p))
          (singbox_transport p.network p.path p.host2 p.service_name) _
          (singbox_tls-Allowed env (trojan_tls p))
          (singbox_transport-AllowedTransport p.network p.path p.host2 p.service_name) refl)

  singbox_outbound_vmess-Allowed :
      (env : Env) (p : VmessParams) → Allowed (singbox_outbound_vmess env p)
  unfolding singbox_outbound_vmess put check_paths
  singbox_outbound_vmess-Allowed env p =
      with_blocks-Allowed (singbox_tls env (vmess_tls p))
        (singbox_transport p.network p.path p.host2 p.service_name) _
        (singbox_tls-Allowed env (vmess_tls p))
        (singbox_transport-AllowedTransport p.network p.path p.host2 p.service_name)
        (put_if-IsClean table opt (not (is_empty p.scy)) "security" (text p.scy) _ refl refl)

  pub singbox_outbound_for_node-Allowed :
      (env : Env) (n : Node) → is_json n ≡ false → Allowed (singbox_outbound_for_node env n)
  unfolding singbox_outbound_for_node
  singbox_outbound_for_node-Allowed env (hysteria2 p) h = singbox_outbound_hysteria2-IsClean env p
  singbox_outbound_for_node-Allowed env (tuic p) h = singbox_outbound_tuic-IsClean table opt env p
  singbox_outbound_for_node-Allowed env (shadowsocks p) h =
      singbox_outbound_shadowsocks-IsClean env p
  singbox_outbound_for_node-Allowed env (vless p) h = singbox_outbound_vless-Allowed env p
  singbox_outbound_for_node-Allowed env (trojan p) h = singbox_outbound_trojan-Allowed env p
  singbox_outbound_for_node-Allowed env (vmess p) h = singbox_outbound_vmess-Allowed env p
  singbox_outbound_for_node-Allowed env (proxy p) h =
      singbox_outbound_proxy-IsClean env p (codes "proxy")
  singbox_outbound_for_node-Allowed env (json p) h = absurd (ground (arith, h))
  singbox_outbound_for_node-Allowed env (wireguard p) h = tt

  pub singbox_endpoint_for_node-Allowed : (n : Node) → Allowed (singbox_endpoint_for_node n)
  unfolding singbox_endpoint_for_node
  singbox_endpoint_for_node-Allowed (wireguard p) = singbox_endpoint_wireguard-IsClean table opt p
  singbox_endpoint_for_node-Allowed _ = tt

  cut_tls-IsClean :
      (env : Env) (m : Fields) → IsClean table opt m → IsClean table opt (cut_tls env m)
  unfolding check_paths
  cut_tls-IsClean env m h =
      put-IsClean table opt (codes "fragment_fallback_delay") (text env.fragment_delay) _ refl (
        put-IsClean table opt (codes "record_fragment") (boolean true) _ refl
          (put-IsClean table opt (codes "fragment") (boolean true) m refl h))

  with_cut-IsClean :
      (env : Env) (v : Option Json) (m : Fields)
      → get (codes "tls") m ≡ v
      → IsClean table opt m
      → IsClean table opt (with_cut env v m)
  unfolding check_paths
  with_cut-IsClean env (some (object t)) m at h =
      elim (Bool-cases (is_enabled (get (codes "enabled") t))) [
        | inl e ↦ rw e (
            put-IsClean table opt (codes "tls") (object (cut_tls env t)) m
              (cut_tls-IsClean env t (get-IsCleanAt table opt (codes "tls") m (object t) h at)) h)
        | inr e ↦ rw e h
      ]
  with_cut-IsClean env v m at h = h

  pub apply_singbox_fragment-IsClean :
      (env : Env) (m : Fields)
      → IsClean table opt m
      → IsClean table opt (apply_singbox_fragment env m)
  unfolding apply_singbox_fragment
  apply_singbox_fragment-IsClean env m h =
      elim (Bool-cases (
        env.fragment && is_cut (get (codes "type") m) && not (is_there (get (codes "detour") m)))) [
          | inl e ↦ rw e (with_cut-IsClean env (get (codes "tls") m) m refl h)
          | inr e ↦ rw e h
        ]
