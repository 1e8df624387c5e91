-- ===== src/Update/Schedule.antt =====
-- manageCronSchedule and removeCronJob: the jobs of the maintenance windows. The scheduler is that of
-- github.com/robfig/cron/v3, a parameter.
pub mod InStep
use minecraft_operator.Prelude.{
  ℕ, eqb, Bool, true, false, not, List, [], ◌∷◌, ◌++◌, Option, none, some, if◌then◌else◌, keep, map,
  All, ◌≡◌,
}
use minecraft_operator.Prelude.Bytes.{Bytes, bytes, ◌==◌}
use minecraft_operator.Api.{
  Condition, ConditionStatus, condition_true, condition_false, PaperMcServer,
}
use minecraft_operator.Update.Delay.{lookup}

-- `AddFunc`, which fails for an expression that is not valid, `Remove`, and the jobs with their expressions.
pub record Scheduler (S : Type 0) : Type 0 where
  pub add_func : Bytes → S → Option (ℕ × S)
  pub remove : ℕ → S → S
  pub jobs : S → List (ℕ × Bytes)

-- What is relied on: a new job has a number of its own, and a number's job can be removed.
pub record IsScheduler {S : Type 0} (scheduler : Scheduler S) : Type 0 where
  pub jobs-add_func :
      (spec : Bytes) (s : S) (id : ℕ) (after : S)
      → scheduler.add_func spec s ≡ some (id, after)
      → (scheduler.jobs after ≡ (id, spec) ∷ scheduler.jobs s)
        × All (λ j. eqb j.0 id ≡ false) (scheduler.jobs s)
  pub jobs-remove :
      (id : ℕ) (s : S)
      → scheduler.jobs (scheduler.remove id s) ≡ keep (λ j. not (eqb j.0 id)) (scheduler.jobs s)

pub record CronEntryInfo : Type 0 where
  pub id : ℕ
  pub spec : Bytes

-- The reconciler's `cronEntries`, a map, and `cron`.
pub record Registry (S : Type 0) : Type 0 where
  pub entries : List (Bytes × CronEntryInfo)
  pub cron : S

-- `types.NamespacedName{…}.String()`.
abbrev pub server_key : PaperMcServer → Bytes
server_key server = server.namespace ++ bytes "/" ++ server.name

abbrev pub without : {A : Type 0} → Bytes → List (Bytes × A) → List (Bytes × A)
without key entries = keep (λ x. not (x.0 == key)) entries

abbrev pub cron_condition : ConditionStatus → Bytes → Bytes → Condition
cron_condition status reason message = record {
  kind = bytes "CronScheduleValid";
  status = status;
  reason = reason;
  message = message;
}

module _ {S : Type 0} (scheduler : Scheduler S)
    (set_condition : Condition → List Condition → List Condition) (message : Bytes → Bytes) where
  unfoldable pub removed : Bytes → Registry S → Option CronEntryInfo → Registry S
  removed key r none = r
  removed key r (some e) = record {
    entries = without key r.entries;
    cron = scheduler.remove e.id r.cron;
  }

  unfoldable pub remove_cron_job : Bytes → Registry S → Registry S
  unfolding removed
  remove_cron_job key r = removed key r (lookup key r.entries)

  -- What follows `AddFunc`; `message` is the text of its error.
  unfoldable pub added :
      Bytes → Bytes → Registry S → Option (ℕ × S) → List Condition → Registry S × List Condition
  added key spec r none conditions = (
    r,
    set_condition (cron_condition condition_false (bytes "InvalidCronExpression") (message spec))
        conditions,
  )
  added key spec r (some (id, after)) conditions = (
    record { entries = (key, record { id = id; spec = spec }) ∷ r.entries; cron = after },
    set_condition
        (cron_condition condition_true (bytes "CronScheduleConfigured")
          (bytes "Cron schedule configured: " ++ spec))
        conditions,
  )

  unfoldable pub add_job : Bytes → Bytes → Registry S → List Condition → Registry S × List Condition
  unfolding added
  add_job key spec r conditions = added key spec r (scheduler.add_func spec r.cron) conditions

  unfoldable pub with_existing :
      Bytes
      → Bytes
      → Registry S
      → Option CronEntryInfo
      → List Condition
      → Registry S × List Condition
  unfolding add_job remove_cron_job
  with_existing key spec r none conditions = add_job key spec r conditions
  with_existing key spec r (some e) conditions =
      let anew = add_job key spec (remove_cron_job key r) conditions in
      if e.spec == spec then (r, conditions) else anew

  -- `manageCronSchedule`: the registry, and the conditions of the server.
  unfoldable pub manage_cron_schedule : PaperMcServer → Registry S → Registry S × List Condition
  unfolding with_existing remove_cron_job
  manage_cron_schedule server r =
      let key = server_key server in
      let window = server.spec.maintenance_window in
      let scheduled =
        with_existing key window.cron r (lookup key r.entries) server.status.conditions in
      if not window.enabled then (remove_cron_job key r, server.status.conditions) else scheduled
