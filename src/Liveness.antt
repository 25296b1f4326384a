-- ===== src/Liveness.antt =====
-- core/watchdog.go: what the byte counters say of a connection, and whether the machine slept.
-- A time is a number of nanoseconds, of a clock that does not run backwards; the zero time, which
-- stands for none, is `none`. The counters of one connection only grow.
pub mod Silence
use vair.Base.{
  ℕ, zero, suc, ◌+◌, ◌*◌, ◌≡◌, Bool, true, false, not, ◌&&◌, ◌||◌, List, [], ◌∷◌, Option, none,
  some, String, if◌then◌else◌, ltb, leb, ℤ, pos, negsuc,
}
use vair.Table.{◌===◌}

pub data Hint : Type 0 where
  unknown alive suspect : Hint

abbrev pub suspect_after : ℕ
suspect_after = 5 * 1000000000

pub record Watch : Type 0 where
  pub raw : String
  pub up : ℕ
  pub down : ℕ
  pub seen : Bool
  pub sent_at : Option ℕ

abbrev pub zero_watch : Watch
zero_watch = record { raw = ""; up = 0; down = 0; seen = false; sent_at = none }

-- `!w.sentAt.IsZero() && now.Sub(w.sentAt) >= livenessSuspectAfter`.
abbrev pub overdue : Option ℕ → ℕ → Bool
overdue none now = false
overdue (some t) now = leb (t + suspect_after) now

-- `if w.sentAt.IsZero() { w.sentAt = now }`.
abbrev pub first_sent : Option ℕ → ℕ → Option ℕ
first_sent none now = some now
first_sent (some t) now = some t

unfoldable pub look : Watch → String → ℕ → ℕ → ℕ → Watch × Hint
look w raw up down now =
    if not w.seen || not (w.raw === raw)
    then (record { raw = raw; up = up; down = down; seen = true; sent_at = none }, unknown)
    else if ltb w.down down
    then (record w { up = up; down = down; sent_at = none }, alive)
    else if ltb w.up up
    then (
      record w { up = up; down = down; sent_at = first_sent w.sent_at now },
      if overdue (first_sent w.sent_at now) now then suspect else unknown,
    )
    else (record w { up = up; down = down }, if overdue w.sent_at now then suspect else unknown)

-- A probe has come back.
unfoldable pub answered : Watch → Watch
answered w = record w { sent_at = none }

unfoldable pub reset : Watch → Watch
reset w = zero_watch

abbrev pub slack : ℕ
slack = 4 * 1000000000

-- The clock on the wall may have been set back.
unfoldable pub clock_jumped : ℤ → ℕ → ℕ → Bool
clock_jumped (pos wall) mono tick = ltb (mono + slack) wall || ltb (tick + slack) mono
clock_jumped (negsuc n) mono tick = ltb (tick + slack) mono

-- What the supervisor does between two looks changes nothing here: a look is its counters and its
-- time.
pub record Counters : Type 0 where
  pub sent : ℕ
  pub got : ℕ
  pub time : ℕ

unfoldable pub look_all : Watch → String → List Counters → Watch
look_all w raw [] = w
look_all w raw (c ∷ cs) = look_all (look w raw c.sent c.got c.time).0 raw cs
