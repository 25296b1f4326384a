-- ===== src/Tests/Looks.antt =====
-- core/watchdog.go: a client that sends every three seconds to a server that is gone.
use vair.Base.{ℕ, ◌+◌, ◌*◌, ◌≡◌, ◌≤◌, refl, true, List, [], ◌∷◌, none, arith}
use vair.Liveness.{Watch, Counters, look, look_all, suspect, suspect_after}
use vair.Liveness.Silence.{silence_suspect, suspect_patience}

abbrev second : ℕ
second = 1000000000

abbrev watch : Watch
watch = record { raw = "vless://a"; up = 100; down = 200; seen = true; sent_at = none }

-- A quiet look, and one with more bytes out.
abbrev looks : List Counters
looks =
    record { sent = 150; got = 200; time = 13 * second }
    ∷ record { sent = 180; got = 200; time = 14 * second }
    ∷ []

silence_suspect_example :
    (look
      (look_all (look watch "vless://a" 150 200 (10 * second)).0 "vless://a" looks)
      "vless://a"
      180
      200
      (15 * second)).1
    ≡ suspect
silence_suspect_example =
    silence_suspect watch "vless://a" 150 (10 * second) looks 180 (15 * second) refl refl refl
      (omega arith) (refl, (refl, tt)) (omega arith)

suspect_patience_example : 13 * second + suspect_after ≤ 19 * second
unfolding look look_all
suspect_patience_example =
    suspect_patience watch "vless://a" (13 * second) looks 190 200 (19 * second) refl
      (omega arith, (omega arith, tt)) (omega arith) refl
