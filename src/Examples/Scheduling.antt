-- ===== src/Examples/Scheduling.antt =====
-- A scheduler that numbers its jobs, and the reconciliation of a server with a window.
use minecraft_operator.Examples.{server, status}
use minecraft_operator.Api.{Condition, PaperMcServer, condition_false}
use minecraft_operator.Clock.{sub_time, zero_time, minutes}
use minecraft_operator.Update.Schedule.{
  Scheduler, IsScheduler, Registry, manage_cron_schedule, cron_condition,
}
use minecraft_operator.Update.Schedule.InStep.{IsInStep, AsAsked, manage_cron_schedule-IsInStep}
use minecraft_operator.Update.Reconcile.{decide, reconcile, start, stop_at_invalid_cron}
use minecraft_operator.Update.Reconcile.Gates.{
  cron_invalid, disabled_window_stays_stopped, start_passes_gates,
}
use minecraft_operator.Update.Window.{Schedule, is_in_maintenance_window}
use minecraft_operator.Update.Delay.{should_apply_update, should_apply_now, lookup}
use minecraft_operator.Update.Outcome.{has_pending_plugin_updates}
use minecraft_operator.Effects.{is_some}
use minecraft_operator.Prelude.{
  ℕ, suc, ◌+◌, ◌≤◌, eqb, Bool, true, false, not, ◌||◌, List, [], ◌∷◌, Option, none, some,
  if◌then◌else◌, keep, All, ◌≡◌, refl, sym, ap, ◌∙◌, arith,
}
use minecraft_operator.Prelude.Bytes.{Bytes, bytes, ◌==◌}
use minecraft_operator.Prelude.Int.{◌+ℤ◌, ◌-ℤ◌}

abbrev Jobs : Type 0
Jobs = List (ℕ × Bytes)

abbrev unused : Jobs → ℕ
unused [] = 0
unused ((id, spec) ∷ jobs) = suc (id + unused jobs)

-- A scheduler that accepts every expression but "?".
abbrev numbered : Bytes → Jobs → Bool → Option (ℕ × Jobs)
numbered spec jobs true = none
numbered spec jobs false = some (unused jobs, (unused jobs, spec) ∷ jobs)

abbrev numbering : Scheduler Jobs
numbering = record {
  add_func = λ spec jobs. numbered spec jobs (spec == bytes "?");
  remove = λ id jobs. keep (λ j. not (eqb j.0 id)) jobs;
  jobs = λ jobs. jobs;
}

unused_above : (jobs : Jobs) (n : ℕ) → unused jobs ≤ n → All (λ j. eqb j.0 n ≡ false) jobs
unused_above [] n h = tt
unused_above ((id, spec) ∷ jobs) n h = (ground arith, unused_above jobs n (ground arith))

numbering-IsScheduler : IsScheduler numbering
numbering-IsScheduler = record { jobs-add_func = added; jobs-remove = λ id jobs. refl }
  where
    accepted :
        (b : Bool) (spec : Bytes) (s : Jobs) (id : ℕ) (after : Jobs)
        → numbered spec s b ≡ some (id, after)
        → (after ≡ (id, spec) ∷ s) × All (λ j. eqb j.0 id ≡ false) s
    accepted true spec s id after e = cc
    accepted false spec s id after e =
        let same : unused s ≡ id = cc in
        let grown : (unused s, spec) ∷ s ≡ after = cc in
        (sym grown ∙ ap (λ i. (i, spec) ∷ s) same, unused_above s id (omega (arith, same)))

    added :
        (spec : Bytes) (s : Jobs) (id : ℕ) (after : Jobs)
        → numbered spec s (spec == bytes "?") ≡ some (id, after)
        → (after ≡ (id, spec) ∷ s) × All (λ j. eqb j.0 id ≡ false) s
    added spec s id after e = accepted (spec == bytes "?") spec s id after e

-- Nothing is scheduled at first.
abbrev empty : Registry Jobs
empty = record { entries = []; cron = [] }

abbrev set_first : Condition → List Condition → List Condition
set_first c conditions = c ∷ conditions

abbrev message : Bytes → Bytes
message spec = bytes "no expression"

manage_cron_schedule-IsInStep_example :
    let after =
      (manage_cron_schedule numbering set_first message (server (bytes "auto")) empty).0 in
    IsInStep numbering numbering-IsScheduler set_first message after
    × AsAsked numbering numbering-IsScheduler set_first message true
        (bytes "games/lobby")
        (bytes "@hourly")
        after
manage_cron_schedule-IsInStep_example =
    manage_cron_schedule-IsInStep numbering numbering-IsScheduler set_first message
      (server (bytes "auto")) empty (refl, tt)

abbrev find_first : Bytes → List Condition → Option Condition
find_first kind [] = none
find_first kind (c ∷ conditions) = if c.kind == kind then some c else find_first kind conditions

-- The schedule that fires every minute on the minute, for any expression.
abbrev parse : Bytes → Option Schedule
parse spec = some (λ t. t +ℤ minutes 1)

-- A server whose window is disabled behind an expression that was not valid.
abbrev disabled : PaperMcServer
disabled = record (server (bytes "auto")) {
  spec = record ((server (bytes "auto")).spec) {
    maintenance_window = record { enabled = false; cron = bytes "?" };
  };
  status = record status {
    conditions =
        cron_condition condition_false (bytes "InvalidCronExpression") (message (bytes "?")) ∷ [];
  };
}

disabled_window_stays_stopped_example :
    let (registry, conditions, decision) =
      reconcile find_first parse numbering set_first message 9 (minutes 7) disabled empty in
    (conditions ≡ disabled.status.conditions) × (decision ≡ some stop_at_invalid_cron)
unfolding ◌==◌
disabled_window_stays_stopped_example =
    disabled_window_stays_stopped find_first parse numbering set_first message 9 (minutes 7)
      disabled empty refl refl

-- A server with a disabled window and an update that was released long ago.
abbrev ready : PaperMcServer
ready = record disabled {
  status = record status {
    available_update = some (record {
      version = bytes "2";
      build = 7;
      released_at = zero_time;
      plugins = [];
      found_at = zero_time;
    });
  };
}

it_starts : decide find_first parse 9 (minutes 7) ready [] ≡ some start
unfolding decide should_apply_now lookup should_apply_update sub_time ◌-ℤ◌ is_in_maintenance_window
it_starts = refl

start_passes_gates_example :
    (cron_invalid find_first parse [] ≡ false)
    × ((is_some ready.status.available_update || has_pending_plugin_updates ready.status) ≡ true)
    × ((should_apply_update (minutes 7) ready).0 ≡ true)
    × (is_in_maintenance_window 9 parse (minutes 7) ready.spec.maintenance_window ≡ some true)
start_passes_gates_example = start_passes_gates find_first parse 9 (minutes 7) ready [] it_starts
