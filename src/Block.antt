-- ===== src/Block.antt =====
-- core/killswitch.go: when the block of the firewall goes up and comes down.
-- `Platform` has the calls of the operating system's part (killswitch_windows.go, tunnelblock_*.go):
-- what each makes of the wall. Log lines, the texts of reasons, `recheckLeak` and the goroutines that
-- read the firewall at the start are left out. Settings are read
-- where the code reads them; a save has stored `now` before it calls.
pub mod Handover
use vair.Base.{
  ℕ, suc, ◌≡◌, Bool, true, false, not, ◌&&◌, ◌||◌, List, [], ◌∷◌, Option, none, some, if◌then◌else◌,
}

pub record Settings : Type 0 where
  pub kill_switch : Bool
  pub dns_leak_protection : Bool
  pub kill_switch_persistent : Bool
  pub proxy_kill_switch : Bool

pub data Mode : Type 0 where
  no_mode proxy tun : Mode

pub data ConnStatus : Type 0 where
  idle connecting connected disconnecting failed : ConnStatus

-- `killSwitchHeld`, `blockStandingNoMarker`, `tunnelBlockHeld`, `ourFiltersPresent` and
-- `heldBlockMode`.
pub record Wall : Type 0 where
  pub marker : Bool
  pub no_marker : Bool
  pub session : Bool
  pub filters : Bool
  pub held_mode : Mode

-- The session's block of a proxy: not of this platform, refused, or up.
pub data SessionBlock : Type 0 where
  not_handled refused : SessionBlock
  engaged : Wall → SessionBlock

pub record Platform : Type 0 where
  -- For a mode, where the code has the tunnel's interface, or no name for a proxy.
  pub engage : Mode → Wall → Option Wall
  pub engage_session : Wall → SessionBlock
  pub engage_tunnel : Wall → Wall
  pub release_tunnel : Wall → Wall
  pub release : Wall → Wall
  pub release_stale : Wall → Wall
  pub force_release : Wall → Wall
  pub in_force : Wall → Bool
  -- `proxyBlockIsSessions`.
  pub sessions_own : Bool

-- `blockGap`.
pub data Gap : Type 0 where
  no_gap not_engaged not_in_force : Gap

-- `moments` has, the last first, whether traffic was held after each call of the platform.
pub record Block : Type 0 where
  pub settings : Settings
  pub status : ConnStatus
  pub mode : Mode
  pub wall : Wall
  pub gap : Gap
  pub moments : List Bool
  pub announced : ℕ
  pub session_active : Bool

abbrev pub tun_kill_switch_of : Settings → Bool
tun_kill_switch_of x = x.kill_switch && x.dns_leak_protection

abbrev pub persistent_of : Settings → Bool
persistent_of x = x.kill_switch_persistent && tun_kill_switch_of x

abbrev pub persistent_enabled : Block → Bool
persistent_enabled s = persistent_of s.settings

abbrev pub proxy_enabled : Block → Bool
proxy_enabled s = s.settings.proxy_kill_switch

abbrev pub is_proxy : Mode → Bool
is_proxy proxy = true
is_proxy _ = false

abbrev pub is_tun : Mode → Bool
is_tun tun = true
is_tun _ = false

abbrev pub is_connected : ConnStatus → Bool
is_connected connected = true
is_connected _ = false

abbrev pub is_live : ConnStatus → Bool
is_live connected = true
is_live connecting = true
is_live _ = false

abbrev pub block_standing : Block → Bool
block_standing s = s.wall.marker || s.wall.no_marker

abbrev pub holds : Wall → Bool
holds w = (w.marker || w.no_marker) || w.session

abbrev pub traffic_held_now : Block → Bool
traffic_held_now s = holds s.wall

unfoldable pub block_will_lapse : Block → Bool
block_will_lapse s = not (persistent_enabled s) && (not (block_standing s) && s.wall.session)

abbrev pub announce_if : Bool → Block → Block
announce_if true s = record s { announced = suc s.announced }
announce_if false s = s

-- A call of the platform.
abbrev pub after_call : Wall → Block → Block
after_call w s = record s { wall = w; moments = holds w ∷ s.moments }

abbrev pub announce : Block → Block
announce s = record s { announced = suc s.announced }

abbrev pub turned_off : Settings → Settings → Bool
turned_off old now =
    (persistent_of old && not (persistent_of now))
    || (old.proxy_kill_switch && not now.proxy_kill_switch)

-- The session that the block serves.
abbrev pub served_mode : Block → Mode
served_mode s = if is_live s.status then s.mode else s.wall.held_mode

unfoldable pub kill_switches_turned : Settings → Settings → Bool
kill_switches_turned old now =
    (if tun_kill_switch_of old then not (tun_kill_switch_of now) else tun_kill_switch_of now)
    || ((persistent_of now && not (persistent_of old))
        || (now.proxy_kill_switch && not old.proxy_kill_switch))

module _ (platform : Platform) where
  unfoldable pub note_block_gap : Block → Block
  note_block_gap s = record s { gap = if platform.in_force s.wall then no_gap else not_in_force }

  abbrev pub engaged_or_gap : Option Wall → Block → Block
  engaged_or_gap none s = record s { gap = not_engaged }
  engaged_or_gap (some w) s = announce (note_block_gap (after_call w s))

  unfoldable pub engage_persistent_kill_switch : Mode → Block → Block
  unfolding note_block_gap
  engage_persistent_kill_switch mode s =
      if persistent_enabled s then engaged_or_gap (platform.engage mode s.wall) s else s

  abbrev pub session_or_set : SessionBlock → Block → Block
  session_or_set not_handled s = engaged_or_gap (platform.engage proxy s.wall) s
  session_or_set refused s = record s { gap = not_engaged }
  session_or_set (engaged w) s = announce (record (after_call w s) { gap = no_gap })

  unfoldable pub engage_proxy_kill_switch : Block → Block
  unfolding note_block_gap
  engage_proxy_kill_switch s =
      if not (proxy_enabled s)
      then s
      else if not (persistent_enabled s)
      then session_or_set (platform.engage_session s.wall) s
      else engaged_or_gap (platform.engage proxy s.wall) s

  abbrev pub force_if_left : Bool → Block → Block
  force_if_left interested s =
      if interested && (s.wall.marker || (s.wall.no_marker || s.wall.filters))
      then after_call (platform.force_release s.wall) s
      else s

  unfoldable pub release_persistent_kill_switch : Block → Block
  release_persistent_kill_switch s =
      let interested = block_standing s || (persistent_enabled s || proxy_enabled s) in
      let released = force_if_left interested (after_call (platform.release s.wall) s) in
      announce_if (block_standing s) released

  unfoldable pub block_wanted_for : Mode → Block → Bool
  block_wanted_for mode s =
      persistent_enabled s || (is_proxy mode && (proxy_enabled s && not platform.sessions_own))

  unfoldable pub drop_block_nobody_wants : Mode → Block → Block
  unfolding block_wanted_for
  drop_block_nobody_wants mode s =
      if not s.wall.marker || block_wanted_for mode s
      then s
      else announce (after_call (platform.release s.wall) s)

  -- The proxy session's own block, with its switch turned off.
  unfoldable pub release_session_block : Settings → Settings → Block → Block
  release_session_block old now s =
      if (old.proxy_kill_switch && not now.proxy_kill_switch) && (s.wall.session && is_proxy s.mode)
      then announce (after_call (platform.release_tunnel s.wall) s)
      else s

  unfoldable pub release_set_nobody_wants : Settings → Block → Block
  unfolding block_wanted_for engage_proxy_kill_switch release_persistent_kill_switch
  release_set_nobody_wants now s =
      if not (block_standing s) || block_wanted_for (served_mode s) s
      then s
      else release_persistent_kill_switch (
          if is_connected s.status
            && (is_proxy (served_mode s) && (now.proxy_kill_switch && platform.sessions_own))
          then engage_proxy_kill_switch s
          else s)

  unfoldable pub release_block_no_longer_wanted : Settings → Settings → Block → Block
  unfolding release_session_block release_set_nobody_wants
  release_block_no_longer_wanted old now s =
      if turned_off old now
      then release_set_nobody_wants now (release_session_block old now s)
      else s

  unfoldable pub apply_kill_switches_to_live_session : Settings → Settings → Block → Block
  unfolding engage_persistent_kill_switch engage_proxy_kill_switch
  apply_kill_switches_to_live_session old now s =
      if not (is_connected s.status)
      then s
      else if is_tun s.mode
      then (let turned : Block =
            if tun_kill_switch_of now && not (tun_kill_switch_of old)
            then after_call (platform.engage_tunnel s.wall) s
            else if not (tun_kill_switch_of now) && tun_kill_switch_of old
            then after_call (platform.release_tunnel s.wall) s
            else s in
          if persistent_of now && not (persistent_of old)
          then engage_persistent_kill_switch tun turned
          else turned)
      else if is_proxy s.mode
      then (if now.proxy_kill_switch && not old.proxy_kill_switch
          then engage_proxy_kill_switch s
          else s)
      else s

  -- The goroutine that it starts runs at once.
  unfoldable pub after_block_settings_change : Settings → Settings → Block → Block
  unfolding release_block_no_longer_wanted kill_switches_turned apply_kill_switches_to_live_session
  after_block_settings_change old now s =
      if kill_switches_turned old now
      then apply_kill_switches_to_live_session old now (release_block_no_longer_wanted old now s)
      else release_block_no_longer_wanted old now s

  unfoldable pub force_release_block : Block → Block
  force_release_block s =
      announce (record (after_call (platform.force_release s.wall) s) { session_active = false })

  unfoldable pub keep_block_at_start : Block → Block
  keep_block_at_start s =
      if not s.wall.marker
      then s
      else if persistent_enabled s
      then announce s
      else announce (after_call (platform.release_stale s.wall) s)

  unfoldable pub release_block_on_exit : Block → Block
  unfolding release_persistent_kill_switch
  release_block_on_exit s = if persistent_enabled s then s else release_persistent_kill_switch s
