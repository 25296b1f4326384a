-- ===== src/Tests/Blocks.antt =====
-- core/killswitch.go: a Windows-like platform, on which the persistent kill-switch is turned off in
-- a proxy session.
use vair.Base.{◌≡◌, refl, true, false, [], some}
use vair.Block.{
  Settings, proxy, Wall, engaged, Platform, no_gap, traffic_held_now,
  release_block_no_longer_wanted,
}
use vair.Block.Handover.{all_held, proxy_session, handover-held}

abbrev windows : Platform
windows = record {
  engage = λ mode w. some (record w { marker = true; filters = true; held_mode = mode });
  engage_session = λ w. engaged (record w { session = true });
  engage_tunnel = λ w. record w { session = true };
  release_tunnel = λ w. record w { session = false };
  release = λ w. record w { marker = false; filters = false };
  release_stale = λ w. record w { marker = false; filters = false };
  force_release = λ w. record w { marker = false; no_marker = false; filters = false };
  in_force = λ w. w.filters;
  sessions_own = true;
}

abbrev both : Settings
both = record {
  kill_switch = true;
  dns_leak_protection = true;
  kill_switch_persistent = true;
  proxy_kill_switch = true;
}

abbrev proxy_only : Settings
proxy_only = record both { kill_switch_persistent = false }

abbrev standing : Wall
standing = record {
  marker = true;
  no_marker = false;
  session = false;
  filters = true;
  held_mode = proxy;
}

handover-held_example :
    (traffic_held_now (
        release_block_no_longer_wanted windows both proxy_only
          (proxy_session proxy_only standing no_gap [] 0 true))
      ≡ true)
    × (all_held
          (release_block_no_longer_wanted windows both proxy_only
            (proxy_session proxy_only standing no_gap [] 0 true)).moments
        ≡ true)
handover-held_example =
    handover-held windows both proxy_only standing (record standing { session = true }) no_gap [] 0
      true refl refl refl refl refl refl (λ x h. h) (λ x h. h) refl refl
