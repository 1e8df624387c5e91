-- ===== src/Update/Reconcile.antt =====
-- UpdateReconciler.Reconcile, up to the update: whether one is started. `meta.FindStatusCondition` is a
-- parameter.
pub mod Gates
use minecraft_operator.Prelude.{
  ℕ, Bool, true, false, not, ◌&&◌, ◌||◌, eqb, List, Option, none, some, if◌then◌else◌,
}
use minecraft_operator.Prelude.Bytes.{Bytes, bytes, ◌==◌}
use minecraft_operator.Prelude.Int.{pos, ltb_ℤ}
use minecraft_operator.Clock.{Time, Duration, minutes}
use minecraft_operator.Api.{
  Condition, ConditionStatus, condition_true, condition_false, condition_unknown, PaperMcServer,
  PaperMcServerStatus,
}
use minecraft_operator.Effects.{is_some}
use minecraft_operator.Update.Delay.{should_apply_update, should_apply_now}
use minecraft_operator.Update.Outcome.{has_pending_plugin_updates}
use minecraft_operator.Update.Window.{Schedule, is_in_maintenance_window}
use minecraft_operator.Update.Schedule.{Scheduler, Registry, manage_cron_schedule}

pub data Decision : Type 0 where
  -- The conditions are written, and nothing else is done.
  stop_at_invalid_cron : Decision
  nothing_available not_released : Decision
  requeue_after : Duration → Decision
  -- The update starts; the annotation is removed before it if it is what asks for the update.
  start_now start : Decision

abbrev is_condition_false : Option Condition → Bool
is_condition_false none = false
is_condition_false (some c) = elim c.status [
  | condition_true ↦ false
  | condition_false ↦ true
  | condition_unknown ↦ false
]

abbrev paper_changed : PaperMcServerStatus → Bool
paper_changed status =
    not (status.desired_version == status.current_version)
    || not (eqb status.desired_build status.current_build)

abbrev by_window : Option Bool → Option Decision
by_window none = none
by_window (some true) = some start
by_window (some false) = some (requeue_after (minutes 5))

module _ (find_condition : Bytes → List Condition → Option Condition)
    (parse : Bytes → Option Schedule) where
  abbrev by_delay : Bool × Duration → Option Decision → Option Decision
  by_delay (true, remaining) behind = behind
  by_delay (false, remaining) behind =
      some (if ltb_ℤ (pos 0) remaining then requeue_after remaining else not_released)

  -- What is decided, with the conditions that `manageCronSchedule` leaves; `none` if the loop of
  -- `findLastCronTrigger` has not ended within the fuel.
  unfoldable pub decide : ℕ → Time → PaperMcServer → List Condition → Option Decision
  decide fuel now server conditions =
      if is_condition_false (find_condition (bytes "CronScheduleValid") conditions)
      then some stop_at_invalid_cron
      else if not (is_some server.status.available_update)
          && not (has_pending_plugin_updates server.status)
      then some nothing_available
      else if should_apply_now now server
      then some start_now
      else by_delay (should_apply_update now server)
          (by_window (is_in_maintenance_window fuel parse now server.spec.maintenance_window))

  -- `Reconcile` of a server that exists, up to the update.
  unfoldable pub reconcile :
      {S : Type 0}
      → Scheduler S
      → (Condition → List Condition → List Condition)
      → (Bytes → Bytes)
      → ℕ
      → Time
      → PaperMcServer
      → Registry S
      → Registry S × List Condition × Option Decision
  unfolding decide
  reconcile scheduler set_condition message fuel now server r =
      let (registry, conditions) = manage_cron_schedule scheduler set_condition message server r in
      (registry, conditions, decide fuel now server conditions)
