-- ===== src/Tests/Autos.antt =====
-- core/autoconnect.go: a pool of two tabs that share a configuration, one with a rule.
use vair.Base.{
  ℕ, ◌≡◌, refl, Bool, true, false, List, [], ◌∷◌, String, All, map, pos, codes, ◌==◌, none,
}
use vair.Table.{Status, succeeded, failed}
use vair.View.{Outside, is_in}
use vair.View.Firsts.{Distinct}
use vair.Auto.{Snap, PoolTab, by_ping, by_speed, Figures, of_pool, gather, auto_candidates}
use vair.Auto.Eligible.{ComesFrom, IsUsable, raw_of, raws, gather-IsUsable}

abbrev letters : Outside
letters = record {
  node_body = λ s. s;
  dedup_key = λ s. s;
  stability = λ s. none;
  opens = λ s t. false;
  table = λ c. c;
  is_space = λ c. c == 32;
}

abbrev plain_figures : Figures
plain_figures = record {
  connectable = λ raw. true;
  speed_fresh = λ raw. true;
  trusted = λ raw. false;
  speed_trusted = λ raw. false;
  delay_score = λ d. d;
  stable_score = λ raw d. d;
  speed_score = λ raw. 0;
  thin_speed = λ raw s. s;
  unmeasured = pos 1000000;
}

abbrev server : String → Status → ℕ → ℕ → Snap
server name status delay speed = record {
  raw = codes name;
  name = codes name;
  host = codes "example.org";
  network = codes "tcp";
  security = codes "tls";
  protocol = codes "vless";
  ping = status;
  speed_status = succeeded;
  delay = pos delay;
  speed = speed;
}

abbrev pool : List PoolTab
pool =
    record {
      id = "main";
      exclude_disabled = false;
      exclude_filter = codes "oslo" ∷ [];
      entries =
          server "Oslo" succeeded 10 0
          ∷ server "Bern" failed 20 0
          ∷ server "Rome" succeeded 90 0
          ∷ [];
    }
    ∷ record {
      id = "more";
      exclude_disabled = false;
      exclude_filter = [];
      entries = server "Rome" succeeded 90 0 ∷ server "Riga" succeeded 95 7 ∷ [];
    }
    ∷ []

abbrev none_paused : List ℕ → Bool
none_paused raw = false

by_delay :
    map (λ c. c.raw) (auto_candidates letters plain_figures by_ping [] none_paused pool)
    ≡ codes "Rome" ∷ codes "Riga" ∷ codes "Bern" ∷ []
unfolding auto_candidates
by_delay = refl

by_last_speed :
    map
      (λ c. c.raw)
      (auto_candidates letters plain_figures by_speed (codes "Bern") none_paused pool)
    ≡ codes "Riga" ∷ codes "Rome" ∷ []
unfolding auto_candidates
by_last_speed = refl

gather-IsUsable_example :
    All
      (λ c. ComesFrom letters plain_figures [] none_paused c (of_pool pool))
      (gather letters plain_figures by_ping [] none_paused (of_pool pool) [])
    × Distinct (raws letters plain_figures by_ping [] none_paused (of_pool pool) [])
    × All
        (λ pair.
          IsUsable letters plain_figures [] none_paused pair
          → is_in
              (raw_of letters plain_figures by_ping [] none_paused pair)
              (raws letters plain_figures by_ping [] none_paused (of_pool pool) [])
            ≡ true)
        (of_pool pool)
gather-IsUsable_example = gather-IsUsable letters plain_figures by_ping [] none_paused pool
