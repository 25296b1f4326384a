-- ===== src/Block/Handover.antt =====
-- What a change of the settings and the end of the program do to the block.
use vair.Base.{
  ℕ, ◌≡◌, refl, ◌∙◌, ap, inl, inr, arith, Bool, true, false, not, ◌&&◌, ◌||◌, List, [], ◌∷◌,
  if◌then◌else◌, Bool-cases,
}
use vair.Block.{
  Settings, proxy, connected, Wall, engaged, Platform, Gap, no_gap, Block, persistent_of,
  persistent_enabled, proxy_enabled, block_standing, traffic_held_now, after_call, announce,
  announce_if, session_or_set, engage_proxy_kill_switch, force_if_left,
  release_persistent_kill_switch, block_wanted_for, turned_off, release_session_block,
  release_set_nobody_wants, release_block_no_longer_wanted,
}

abbrev pub all_held : List Bool → Bool
all_held [] = true
all_held (h ∷ moments) = h && all_held moments

-- The persistent set stands, in either way of telling.
abbrev pub set_stands : Wall → Bool
set_stands w = w.marker || w.no_marker

announce_if-held :
    (b : Bool) (s : Block)
    → s.wall.session ≡ true
    → all_held s.moments ≡ true
    → ((announce_if b s).wall.session ≡ true) × (all_held (announce_if b s).moments ≡ true)
announce_if-held true s h m = (h, m)
announce_if-held false s h m = (h, m)

pub if_true {ℓ} : {A : Type ℓ} (b : Bool) (x y : A) → b ≡ true → (if b then x else y) ≡ x
if_true b x y e = rw e refl

pub if_false {ℓ} : {A : Type ℓ} (b : Bool) (x y : A) → b ≡ false → (if b then x else y) ≡ y
if_false b x y e = rw e refl

-- A proxy session that is connected.
abbrev pub proxy_session : Settings → Wall → Gap → List Bool → ℕ → Bool → Block
proxy_session now w gap moments n active = record {
  settings = now;
  status = connected;
  mode = proxy;
  wall = w;
  gap = gap;
  moments = moments;
  announced = n;
  session_active = active;
}

module _ (platform : Platform) where
  force_if_left-held :
      (interested : Bool) (s : Block)
      → ((x : Wall) → x.session ≡ true → (platform.force_release x).session ≡ true)
      → s.wall.session ≡ true
      → all_held s.moments ≡ true
      → ((force_if_left platform interested s).wall.session ≡ true)
        × (all_held (force_if_left platform interested s).moments ≡ true)
  force_if_left-held interested s keeps h m =
      let t = interested && (s.wall.marker || (s.wall.no_marker || s.wall.filters)) in
      elim (Bool-cases t) [
        | inl e ↦ rw e (keeps s.wall h, ground (arith, keeps s.wall h, m))
        | inr e ↦ rw e (h, m)
      ]

  release-held :
      (s : Block)
      → ((x : Wall) → x.session ≡ true → (platform.release x).session ≡ true)
      → ((x : Wall) → x.session ≡ true → (platform.force_release x).session ≡ true)
      → s.wall.session ≡ true
      → all_held s.moments ≡ true
      → ((release_persistent_kill_switch platform s).wall.session ≡ true)
        × (all_held (release_persistent_kill_switch platform s).moments ≡ true)
  unfolding release_persistent_kill_switch
  release-held s keeps forced h m =
      let interested = block_standing s || (persistent_enabled s || proxy_enabled s) in
      let next : Block = after_call (platform.release s.wall) s in
      let still : next.wall.session ≡ true = keeps s.wall h in
      let held : all_held next.moments ≡ true = ground (arith, still, m) in
      let both = force_if_left-held interested next forced still held in
      announce_if-held (block_standing s) (force_if_left platform interested next) both.0 both.1

  engage_proxy-session :
      (s : Block) (own : Wall)
      → proxy_enabled s ≡ true
      → persistent_enabled s ≡ false
      → platform.engage_session s.wall ≡ engaged own
      → engage_proxy_kill_switch platform s ≡ announce (record (after_call own s) { gap = no_gap })
  unfolding engage_proxy_kill_switch
  engage_proxy-session s own p n e =
      if_false (not (proxy_enabled s)) _ _ (ap not p)
      ∙ if_true (not (persistent_enabled s)) _ _ (ap not n)
      ∙ ap (λ b. session_or_set platform b s) e

  handover-steps :
      (old now : Settings) (w : Wall) (gap : Gap) (moments : List Bool) (n : ℕ) (active : Bool)
      → persistent_of old ≡ true
      → persistent_of now ≡ false
      → now.proxy_kill_switch ≡ true
      → platform.sessions_own ≡ true
      → set_stands w ≡ true
      → release_block_no_longer_wanted platform old now (proxy_session now w gap moments n active)
        ≡ release_persistent_kill_switch platform
            (engage_proxy_kill_switch platform (proxy_session now w gap moments n active))
  unfolding release_block_no_longer_wanted release_session_block release_set_nobody_wants
      block_wanted_for
  handover-steps old now w gap moments n active po pn px so st =
      let s = proxy_session now w gap moments n active in
      let off : turned_off old now ≡ true =
        truth1 (persistent_of old) (persistent_of now) _ po pn in
      let first : release_session_block platform old now s ≡ s =
        if_false _ _ _ (truth2 old.proxy_kill_switch now.proxy_kill_switch _ px) in
      let unwanted : (not (set_stands w) || block_wanted_for platform proxy s) ≡ false =
        truth3 (set_stands w) (persistent_of now) now.proxy_kill_switch platform.sessions_own st pn
          so in
      let own : (now.proxy_kill_switch && platform.sessions_own) ≡ true =
        truth4 now.proxy_kill_switch platform.sessions_own px so in
      if_true (turned_off old now) _ _ off
      ∙ ap (release_set_nobody_wants platform now) first
      ∙ if_false _ _ _ unwanted
      ∙ ap (release_persistent_kill_switch platform) (if_true _ _ _ own)
    where
      truth1 : (a b c : Bool) → a ≡ true → b ≡ false → ((a && not b) || c) ≡ true
      truth1 a b c h k = rw (h, k) refl

      truth2 : (a b c : Bool) → b ≡ true → ((a && not b) && c) ≡ false
      truth2 a b c h = ground (arith, h)

      truth3 :
          (a b c d : Bool)
          → a ≡ true
          → b ≡ false
          → d ≡ true
          → (not a || (b || (c && not d))) ≡ false
      truth3 a b c d h k l = ground (arith, h, k, l)

      truth4 : (a b : Bool) → a ≡ true → b ≡ true → (a && b) ≡ true
      truth4 a b h k = rw (h, k) refl

  -- A connected proxy session whose kill-switch is on, with the persistent block just turned off:
  -- where the platform has session blocks and one goes up, and taking down the persistent set leaves
  -- it, traffic is held after every call that is made of the platform, and in the end.
  pub handover-held :
      (old now : Settings) (w own : Wall) (gap : Gap) (moments : List Bool) (n : ℕ) (active : Bool)
      → persistent_of old ≡ true
      → persistent_of now ≡ false
      → now.proxy_kill_switch ≡ true
      → platform.sessions_own ≡ true
      → platform.engage_session w ≡ engaged own
      → own.session ≡ true
      → ((x : Wall) → x.session ≡ true → (platform.release x).session ≡ true)
      → ((x : Wall) → x.session ≡ true → (platform.force_release x).session ≡ true)
      → all_held moments ≡ true
      → set_stands w ≡ true
      → (traffic_held_now (
            release_block_no_longer_wanted platform old now
              (proxy_session now w gap moments n active))
          ≡ true)
        × (all_held
              (release_block_no_longer_wanted platform old now
                (proxy_session now w gap moments n active)).moments
            ≡ true)
  handover-held old now w own gap moments n active po pn px so e os keeps forced m st =
      let s = proxy_session now w gap moments n active in
      let up : Block = announce (record (after_call own s) { gap = no_gap }) in
      let steps =
        handover-steps old now w gap moments n active po pn px so st
        ∙ ap (release_persistent_kill_switch platform) (engage_proxy-session s own px pn e) in
      let upheld : all_held up.moments ≡ true = ground (arith, os, m) in
      let both = release-held up keeps forced os upheld in
      let last : traffic_held_now (release_persistent_kill_switch platform up) ≡ true =
        ground (arith, both.0) in
      (ap traffic_held_now steps ∙ last, ap (λ b. all_held b.moments) steps ∙ both.1)
