-- ===== src/Tests/Guarding.antt =====
-- core/sysproxy_guard.go: another program takes the setting again and again.
use vair.Base.{ℕ, ◌*◌, ◌≤◌, ◌≢◌, refl, true, false, [], ◌∷◌, some, arith}
use vair.Guard.{Guard, Tick, second, guard_burst}
use vair.Guard.Bound.{restores, restores_bound}

abbrev taken : ℕ → Tick
taken now = record {
  now = now * second;
  disabled = false;
  busy = false;
  port = 1080;
  ours = some false;
  works = true;
}

abbrev once_corrected : Guard
once_corrected = record {
  last_check = some (100 * second);
  burst_start = some (100 * second);
  corrections = 1;
  stood_down = false;
}

a_port : (taken 0).port ≢ 0
a_port e = absurd (omega arith)

restores_bound_example :
    restores once_corrected (taken 120 ∷ taken 140 ∷ taken 160 ∷ taken 180 ∷ []) ≤ guard_burst
restores_bound_example =
    restores_bound once_corrected (100 * second)
      (taken 120 ∷ taken 140 ∷ taken 160 ∷ taken 180 ∷ []) refl
      (omega arith, a_port, (omega arith, a_port, (omega arith, a_port, (omega arith, a_port, tt))))
