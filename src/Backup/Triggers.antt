-- ===== src/Backup/Triggers.antt =====
-- When a backup is started: the backup-now annotation, and the schedule.
use minecraft_operator.Prelude.{◌||◌, some, refl, ◌≡◌, true, not, ◌↔◌, arith}
use minecraft_operator.Backup.{annotation_backup_now, backup_now_max_age, should_backup_now}
use minecraft_operator.Prelude.Int.{◌≤ℤ◌, pos, ℤ, ltb_ℤ, ◌-ℤ◌}
use minecraft_operator.Clock.{sub_time-lt, sub_time-gt, minutes, sub_time, Time}
use minecraft_operator.Api.{PaperMcServer}
use minecraft_operator.Prelude.Bytes.{Bytes}
use minecraft_operator.Update.Delay.{unix_time, scan_int, lookup}

recent_iff :
    (now t : Time)
    → (not (
          ltb_ℤ backup_now_max_age (sub_time now t)
          || ltb_ℤ (sub_time now t) (pos 0 -ℤ backup_now_max_age))
        ≡ true)
      ↔ ((now -ℤ t ≤ℤ minutes 5) × (t -ℤ now ≤ℤ minutes 5))
unfolding ◌-ℤ◌
recent_iff now t =
    rw
      (
        sub_time-gt now t backup_now_max_age (omega arith) refl,
        sub_time-lt now t (pos 0 -ℤ backup_now_max_age) (omega arith) refl,
      )
      (ground arith)

-- A backup-now annotation that holds a number of seconds is obeyed exactly if the time that it names is at
-- most five minutes past and at most five minutes to come.
pub should_backup_now_iff :
    (now : Time) (server : PaperMcServer) (value : Bytes) (ts : ℤ)
    → lookup annotation_backup_now server.annotations ≡ some value
    → scan_int value ≡ some ts
    → (should_backup_now now server ≡ true)
      ↔ ((now -ℤ unix_time ts ≤ℤ minutes 5) × (unix_time ts -ℤ now ≤ℤ minutes 5))
unfolding should_backup_now
should_backup_now_iff now server value ts found read =
    rw (found, read) (recent_iff now (unix_time ts))
