-- ===== src/Update/Reconcile/Gates.antt =====
-- What starts an update, and what holds it up.
use minecraft_operator.Update.Reconcile.{
  stop_at_invalid_cron, start, is_condition_false, decide, reconcile,
}
use minecraft_operator.Update.Schedule.{Scheduler, Registry, manage_cron_schedule}
use minecraft_operator.Update.Delay.{should_apply_update}
use minecraft_operator.Update.Outcome.{has_pending_plugin_updates}
use minecraft_operator.Update.Window.{Schedule, is_in_maintenance_window}
use minecraft_operator.Clock.{Time}
use minecraft_operator.Api.{Condition, PaperMcServer}
use minecraft_operator.Effects.{is_some}
use minecraft_operator.Prelude.{
  ℕ, Bool, true, false, not, ◌||◌, List, Option, some, if◌then◌else◌, ◌≡◌, refl, ap, ◌∙◌, arith,
}
use minecraft_operator.Prelude.Bytes.{Bytes, bytes}

module _ (find_condition : Bytes → List Condition → Option Condition)
    (parse : Bytes → Option Schedule) where
  -- Whether the conditions say that the window's expression is not valid.
  abbrev pub cron_invalid : List Condition → Bool
  cron_invalid conditions =
      is_condition_false (find_condition (bytes "CronScheduleValid") conditions)

  decide_stops :
      (fuel : ℕ) (now : Time) (server : PaperMcServer) (conditions : List Condition)
      → cron_invalid conditions ≡ true
      → decide find_condition parse fuel now server conditions ≡ some stop_at_invalid_cron
  unfolding decide
  decide_stops fuel now server conditions h = rw h refl

  kept :
      {A : Type 0} (b : Bool) (x y : A × List Condition)
      → b ≡ false
      → (if not b then x else y).1 ≡ x.1
  kept false x y e = refl
  kept true x y e = cc

  -- A server whose conditions say that the expression of its window is not valid gets no update once the
  -- window is disabled: the reconciliation leaves the conditions as they are and stops at them, whatever
  -- update there is, and whatever the annotations and the clock say.
  pub disabled_window_stays_stopped :
      {S : Type 0} (scheduler : Scheduler S)
      (set_condition : Condition → List Condition → List Condition) (message : Bytes → Bytes)
      (fuel : ℕ) (now : Time) (server : PaperMcServer) (r : Registry S)
      → server.spec.maintenance_window.enabled ≡ false
      → cron_invalid server.status.conditions ≡ true
      → let (registry, conditions, decision) =
          reconcile find_condition parse scheduler set_condition message fuel now server r in
        (conditions ≡ server.status.conditions) × (decision ≡ some stop_at_invalid_cron)
  unfolding reconcile manage_cron_schedule
  disabled_window_stays_stopped scheduler set_condition message fuel now server r e h =
      let same = kept server.spec.maintenance_window.enabled _ _ e in
      (same, decide_stops fuel now server _ (ap cron_invalid same ∙ h))

  -- An update that no annotation asks for starts only while the conditions do not say that the expression
  -- of the window is not valid, something can be applied, the delay has passed and the window is open.
  pub start_passes_gates :
      (fuel : ℕ) (now : Time) (server : PaperMcServer) (conditions : List Condition)
      → decide find_condition parse fuel now server conditions ≡ some start
      → (cron_invalid conditions ≡ false)
        × ((is_some server.status.available_update || has_pending_plugin_updates server.status)
            ≡ true)
        × ((should_apply_update now server).0 ≡ true)
        × (is_in_maintenance_window fuel parse now server.spec.maintenance_window ≡ some true)
  unfolding decide
  start_passes_gates fuel now server conditions h = ground arith
