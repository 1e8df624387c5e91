-- ===== src/Update/Window.antt =====
-- The maintenance window: isInMaintenanceWindow and findLastCronTrigger. The schedule is that of
-- github.com/robfig/cron/v3, a parameter: `Next` returns the next time at which the expression fires,
-- and the zero time if it finds none.
pub mod Fires
use minecraft_operator.Prelude.{
  ℕ, zero, suc, Bool, true, false, not, ◌&&◌, ◌||◌, Option, none, some, if◌then◌else◌, is_empty,
}
use minecraft_operator.Prelude.Bytes.{Bytes}
use minecraft_operator.Prelude.Int.{◌+ℤ◌, ◌-ℤ◌}
use minecraft_operator.Clock.{Time, Duration, before, hours, is_zero, zero_time}
use minecraft_operator.Api.{MaintenanceWindow}

-- `schedule.Next`.
abbrev pub Schedule : Type 0
Schedule = Time → Time

abbrev pub maintenance_window_duration : Duration
maintenance_window_duration = hours 1

abbrev pub lookback : Duration
lookback = hours 168

-- The loop of `findLastCronTrigger`, on fuel: `none` if it has not ended by then.
walk : ℕ → Schedule → Time → Time → Time → Option Time
walk zero next now candidate last = none
walk (suc fuel) next now candidate last = elim (before now (next candidate)) [
  | true ↦ some last
  | false ↦ walk fuel next now (next candidate) (next candidate)
]

unfoldable pub find_last_cron_trigger : ℕ → Schedule → Time → Option Time
unfolding walk
find_last_cron_trigger fuel next now = walk fuel next now (now -ℤ lookback) zero_time

-- The test behind the loop.
unfoldable pub is_within : Time → Time → Bool
is_within now last =
    if is_zero last
    then false
    else not (before now last) && before now (last +ℤ maintenance_window_duration)

abbrev within_or_stuck : Time → Option Time → Option Bool
within_or_stuck now none = none
within_or_stuck now (some last) = some (is_within now last)

-- `isInMaintenanceWindow`: `none` if the loop has not ended within the fuel.
unfoldable pub is_in_maintenance_window :
    ℕ → (Bytes → Option Schedule) → Time → MaintenanceWindow → Option Bool
is_in_maintenance_window fuel parse now mw =
    if not mw.enabled || is_empty mw.cron then some true else elim (parse mw.cron) [
      | none ↦ some false
      | some next ↦ within_or_stuck now (find_last_cron_trigger fuel next now)
    ]
