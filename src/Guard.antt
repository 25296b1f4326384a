-- ===== src/Guard.antt =====
-- core/sysproxy_guard.go: the guard that points the system's proxy back at the program.
-- A time is a number of nanoseconds; `none` is the zero time, from which any time has passed.
pub mod Bound
use vair.Base.{
  ℕ, zero, suc, ◌+◌, ◌*◌, ◌≡◌, Bool, true, false, not, ◌&&◌, ◌||◌, List, [], ◌∷◌, Option, none,
  some, if◌then◌else◌, ltb, leb, ◌==◌,
}

abbrev pub second : ℕ
second = 1000000000

abbrev pub guard_every : ℕ
guard_every = 20 * second

abbrev pub guard_burst : ℕ
guard_burst = 3

abbrev pub guard_window : ℕ
guard_window = 5 * 60 * second

pub record Guard : Type 0 where
  pub last_check : Option ℕ
  pub burst_start : Option ℕ
  pub corrections : ℕ
  pub stood_down : Bool

abbrev pub zero_guard : Guard
zero_guard = record { last_check = none; burst_start = none; corrections = 0; stood_down = false }

-- What a tick finds: its time, the setting, whether another action holds the lock, the port that
-- was applied (0 for none), whether the system points at it (`none` where that cannot be read), and
-- whether pointing it back works.
pub record Tick : Type 0 where
  pub now : ℕ
  pub disabled : Bool
  pub busy : Bool
  pub port : ℕ
  pub ours : Option Bool
  pub works : Bool

-- `tried` and `restored`: the setting is written again, without success or with it.
pub data Act : Type 0 where
  idle tried restored : Act

abbrev pub due : Option ℕ → ℕ → Bool
due none now = true
due (some t) now = leb (t + guard_every) now

abbrev pub window_over : Option ℕ → ℕ → Bool
window_over none now = true
window_over (some t) now = ltb (t + guard_window) now

unfoldable pub correct : Guard → Tick → Guard × Act
correct g w =
    if g.stood_down
    then (g, idle)
    else if not w.works
    then (record g { corrections = suc g.corrections }, tried)
    else if leb guard_burst (suc g.corrections)
    then (record g { corrections = suc g.corrections; stood_down = true }, restored)
    else (record g { corrections = suc g.corrections }, restored)

unfoldable pub new_burst : Guard → ℕ → Guard
new_burst g now =
    if window_over g.burst_start now
    then record g { burst_start = some now; corrections = 0; stood_down = false }
    else g

abbrev pub is_hijacked : Option Bool → Bool
is_hijacked none = false
is_hijacked (some ours) = not ours

unfoldable pub guard_system_proxy : Guard → Tick → Guard × Act
unfolding correct new_burst
guard_system_proxy g w =
    if not (due g.last_check w.now)
    then (g, idle)
    else let checked = record g { last_check = some w.now } in
      if w.disabled || w.busy
      then (checked, idle)
      else if w.port == 0
      then (record zero_guard { last_check = some w.now }, idle)
      else if not (is_hijacked w.ours)
      then (checked, idle)
      else correct (new_burst checked w.now) w
