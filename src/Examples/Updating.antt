-- ===== src/Examples/Updating.antt =====
-- Windows, delays and the record of an update.
use minecraft_operator.Prelude.{
  ◌+◌, eqb, ◌⊎◌, ◌∷◌, ◌↔◌, Bool, ℕ, none, some, [], arith, ◌≡◌, refl, true, false,
}
use minecraft_operator.Api.{AvailableUpdate, MaintenanceWindow, PaperMcServer}
use minecraft_operator.Update.Window.{is_in_maintenance_window, Schedule, find_last_cron_trigger}
use minecraft_operator.Update.Delay.{
  annotation_apply_now, unix_time, lookup, scan_int, should_apply_now, should_apply_update,
}
use minecraft_operator.Update.Outcome.{
  conflict, written, ApiServer, UpdateReply, has_pending_plugin_updates, update_server_status,
  update_status_with_retry,
}
use minecraft_operator.Update.Outcome.Conflict.{stale_write_loses_outcome, Ends}
use minecraft_operator.Prelude.Int.{◌*ℤ◌, ◌≤ℤ◌, ◌-ℤ◌, pos, ◌+ℤ◌}
use minecraft_operator.Prelude.Bytes.{bytes, ◌==◌}
use minecraft_operator.Examples.{status, server}
use minecraft_operator.Clock.{minutes, hours, zero_time}
use minecraft_operator.Update.Window.Fires.{
  is_in_maintenance_window_iff, JustFired, never_firing_loops, IsSchedule,
}
use minecraft_operator.Update.Delay.Ready.{
  last_second, named_time, should_apply_now_iff, should_apply_update_iff, IsOver,
}
use minecraft_operator.Update.Outcome.Recorded.{update_server_status_settles}

never_firing_loops_example : find_last_cron_trigger 1000 (λ _. zero_time) (hours 200) ≡ none
never_firing_loops_example =
    never_firing_loops (λ _. zero_time) (hours 200) (λ _. refl) (ground arith) 1000

-- A schedule that fires at each nanosecond.
abbrev every : Schedule
every c = c +ℤ pos 1

every-IsSchedule : IsSchedule every
unfolding ◌+ℤ◌
every-IsSchedule = record { next_later = λ c. ground arith; next_first = λ c t _ h. ground arith }

abbrev window : MaintenanceWindow
window = record { enabled = true; cron = bytes "@every" }

is_in_maintenance_window_iff_example :
    (open_now : Bool) × (is_in_maintenance_window 604800000000001
        (λ _. some every)
        (hours 200)
        window
      ≡ some open_now)
    × ((open_now ≡ true) ↔ JustFired every (hours 200))
is_in_maintenance_window_iff_example =
    is_in_maintenance_window_iff every (hours 200) every-IsSchedule 604800000000001
      (λ _. some every) window refl refl refl (omega arith) (omega arith)

abbrev released_at : ℕ → AvailableUpdate
released_at n = record {
  version = bytes "2";
  build = 7;
  released_at = pos n;
  plugins = [];
  found_at = pos n;
}

abbrev waiting : PaperMcServer
waiting = record (server (bytes "auto")) {
  status = record status { available_update = some (released_at 100) };
}

should_apply_update_iff_example :
    (((should_apply_update (pos 105) waiting).0 ≡ true) ↔ IsOver (pos 105) (pos 100) (pos 10))
    × (((should_apply_update (pos 105) waiting).0 ≡ true)
        ⊎ (pos 1 ≤ℤ (should_apply_update (pos 105) waiting).1))
should_apply_update_iff_example =
    should_apply_update_iff (pos 105) waiting (released_at 100) (pos 10) refl refl (omega arith)
      refl (omega arith)

abbrev hurried : PaperMcServer
hurried = record (server (bytes "auto")) { annotations = (annotation_apply_now, bytes "12") ∷ [] }

annotated : lookup annotation_apply_now hurried.annotations ≡ some (bytes "12")
unfolding lookup ◌==◌
annotated = refl

twelve : scan_int (bytes "12") ≡ some (pos 12)
unfolding scan_int
twelve = refl

from_the_start : pos 0 ≤ℤ unix_time (pos 100)
unfolding unix_time ◌*ℤ◌ ◌+ℤ◌
from_the_start = omega arith

should_apply_now_iff_example :
    (should_apply_now (unix_time (pos 100)) hurried ≡ true)
    ↔ ((unix_time (pos 100) -ℤ named_time (pos 12) ≤ℤ minutes 5) × (pos 12 ≤ℤ last_second))
should_apply_now_iff_example =
    should_apply_now_iff (unix_time (pos 100)) hurried (bytes "12") (pos 12) from_the_start
      annotated twelve

update_server_status_settles_example :
    ((update_server_status (pos 9) true status).available_update ≡ none)
    × (has_pending_plugin_updates (update_server_status (pos 9) true status) ≡ false)
    × ((update_server_status (pos 9) true status).current_version ≡ bytes "2")
    × ((update_server_status (pos 9) true status).current_build ≡ 7)
    × (update_server_status (pos 9) false status ≡ record status {
      last_update =
          some (record { applied_at = pos 9; previous_version = bytes "1"; successful = false });
    })
update_server_status_settles_example = update_server_status_settles (pos 9) status tt

-- The stored object. A write must name its resource version, and replaces the status alone.
pub record Store : Type 0 where
  pub stored : PaperMcServer

abbrev write_if : Bool → Store → PaperMcServer → UpdateReply × Store
write_if true store server = (
  written,
  record {
    stored = record (store.stored) {
      status = server.status;
      resource_version = store.stored.resource_version + 1;
    };
  },
)
write_if false store server = (conflict, store)

-- No other client writes between two calls.
abbrev pub quiet_api : ApiServer Store
quiet_api = record {
  status_update = λ store server.
      write_if (eqb server.resource_version store.stored.resource_version) store server;
  get = λ store. (some store.stored, store);
}

abbrev stored_anew : Store
stored_anew = record { stored = record (server (bytes "auto")) { resource_version = 4 } }

stale_write_loses_outcome_example :
    Ends quiet_api status (update_status_with_retry quiet_api stored_anew (server (bytes "auto")))
stale_write_loses_outcome_example =
    stale_write_loses_outcome quiet_api stored_anew stored_anew (server (bytes "auto")) refl
