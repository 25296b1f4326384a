-- ===== src/Singbox/Tun/Inbounds.antt =====
-- core/protocols.go, engine.go, tunconfig_linux.go: what listens in a tunnel, and its endpoint, as the
-- helper reads them.
use vair.Base.{
  ℕ, ◌≡◌, refl, Bool, true, false, ◌||◌, ◌&&◌, not, List, [], ◌∷◌, map, none, some, codes, same,
  if◌then◌else◌, arith, String, ℤ,
}
use vair.Base.Ints.{int_less}
use vair.Base.Json.{array, object, Fields, get, put, remove, items}
use vair.Helper.{Options}
use vair.Helper.Config.{
  is_tun, check_inbound, check_each_inbound, check_endpoints, check_each_endpoint, number_field,
  check_port, iface_name, iface_name_windows, objects, as_objects,
}
use vair.Node.{Node, wireguard}
use vair.Singbox.{singbox_endpoint_wireguard, singbox_endpoint_for_node}
use vair.Singbox.Tun.{
  singbox_endpoints, TunSettings, with_users, lan_inbound, tun_inbound, adapt_inbound,
  lan_proxy_inbounds,
}
use vair.Singbox.Tun.Clean.{or_else-none}

-- The ports that are shared with the network are not too low.
abbrev pub ports_allowed : TunSettings → ℤ → Bool
ports_allowed s least =
    not s.share_proxy || (not (int_less s.http_port least) && not (int_less s.socks_port least))

-- The tunnel has a name of ours: on Linux always.
abbrev pub names_allowed : TunSettings → List ℕ → Bool
names_allowed s name = s.linux || iface_name_windows name

module _ (opt : Options) (s : TunSettings) where
  http_lan_admitted :
      (user pass : List ℕ) (port : ℤ)
      → int_less port opt.min_listen_port ≡ false
      → check_inbound opt
          (adapt_inbound s (with_users user pass (lan_inbound "http" "http-lan" s.bind port)))
        ≡ none
  unfolding check_inbound adapt_inbound put get remove number_field check_port
  http_lan_admitted user pass port h = ground (arith, h)

  socks_lan_admitted :
      (user pass : List ℕ) (port : ℤ)
      → int_less port opt.min_listen_port ≡ false
      → check_inbound opt
          (adapt_inbound s (with_users user pass (lan_inbound "socks" "socks-lan" s.bind port)))
        ≡ none
  unfolding check_inbound adapt_inbound put get remove number_field check_port
  socks_lan_admitted user pass port h = ground (arith, h)

  tun_inbound_admitted :
      (name : List ℕ)
      → opt.windows ≡ not s.linux
      → names_allowed s name ≡ true
      → check_inbound opt (adapt_inbound s (tun_inbound s name)) ≡ none
  unfolding check_inbound adapt_inbound put get remove iface_name
  tun_inbound_admitted name platform h = ground (arith, platform, h)

  is_tun-adapt_inbound :
      (user pass : List ℕ) (kind tag : String) (port : ℤ)
      → same (codes kind) (codes "tun") ≡ false
      → is_tun (adapt_inbound s (with_users user pass (lan_inbound kind tag s.bind port))) ≡ false
  unfolding adapt_inbound put get remove
  is_tun-adapt_inbound user pass kind tag port h = ground (arith, h)

  is_tun-tun_inbound : (name : List ℕ) → is_tun (adapt_inbound s (tun_inbound s name)) ≡ true
  unfolding adapt_inbound put get remove
  is_tun-tun_inbound name = ground arith

  counted :
      (m : Fields) (ms : List Fields) (count : ℕ)
      → check_inbound opt m ≡ none
      → is_tun m ≡ false
      → check_each_inbound opt ms count ≡ none
      → check_each_inbound opt (m ∷ ms) count ≡ none
  unfolding check_each_inbound
  counted m ms count h g rest = or_else-none (check_inbound opt m) _ h (rw g rest)

  abbrev pub http_lan : Fields
  http_lan = with_users s.http_user s.http_pass (lan_inbound "http" "http-lan" s.bind s.http_port)

  abbrev pub socks_lan : Fields
  socks_lan =
      with_users s.socks_user s.socks_pass (lan_inbound "socks" "socks-lan" s.bind s.socks_port)

  lan_admitted :
      (shared : Bool)
      → (not shared
          || (not (int_less s.http_port opt.min_listen_port)
              && not (int_less s.socks_port opt.min_listen_port)))
        ≡ true
      → check_each_inbound opt
          (map (adapt_inbound s) (if shared then http_lan ∷ socks_lan ∷ [] else []))
          1
        ≡ none
  unfolding check_each_inbound
  lan_admitted true h =
      let (http, socks) =
        both_ports (int_less s.http_port opt.min_listen_port)
          (int_less s.socks_port opt.min_listen_port) h in
      counted (adapt_inbound s http_lan) (adapt_inbound s socks_lan ∷ []) 1
        (http_lan_admitted s.http_user s.http_pass s.http_port http)
        (is_tun-adapt_inbound s.http_user s.http_pass "http" "http-lan" s.http_port refl)
        (counted (adapt_inbound s socks_lan) [] 1
          (socks_lan_admitted s.socks_user s.socks_pass s.socks_port socks)
          (is_tun-adapt_inbound s.socks_user s.socks_pass "socks" "socks-lan" s.socks_port refl)
          refl)
    where
      both_ports : (a b : Bool) → (not a && not b) ≡ true → (a ≡ false) × (b ≡ false)
      both_ports a b h = ground (arith, h)
  lan_admitted false h = refl

  pub inbounds_admitted :
      (name : List ℕ)
      → opt.windows ≡ not s.linux
      → names_allowed s name ≡ true
      → ports_allowed s opt.min_listen_port ≡ true
      → check_each_inbound opt (map (adapt_inbound s) (tun_inbound s name ∷ lan_proxy_inbounds s)) 0
        ≡ none
  unfolding check_each_inbound lan_proxy_inbounds
  inbounds_admitted name platform h ports =
      or_else-none (check_inbound opt (adapt_inbound s (tun_inbound s name))) _
        (tun_inbound_admitted name platform h)
        (rw (is_tun-tun_inbound name) (lan_admitted s.share_proxy ports))

pub as_objects-items : (ms : List Fields) → as_objects (array (items (map object ms))) ≡ some ms
unfolding as_objects objects
as_objects-items [] = refl
as_objects-items (m ∷ ms) = rw (as_objects-items ms) refl

pub endpoints_admitted :
    (n : Node) → check_endpoints (some (singbox_endpoints (singbox_endpoint_for_node n))) ≡ none
unfolding check_endpoints check_each_endpoint as_objects objects singbox_endpoint_for_node
    singbox_endpoint_wireguard put get
endpoints_admitted (wireguard p) = ground arith
endpoints_admitted _ = refl
