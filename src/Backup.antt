-- ===== src/Backup.antt =====
-- pkg/backup and the backups of internal/controller/backup_controller.go: the hooks around a snapshot,
-- the retention, performBackup and the tests that start it. The mutex that lets one backup of a server
-- run at a time is left out: a run is one script.
pub mod AutoSave
pub mod Saving
pub mod Triggers
use minecraft_operator.Effects.{
  reading, close_failed, close, pre_hook_failed, deferring, wait, write_backup_status, call_failed,
  cancelled, no_client, pvc_not_found, check_context, create_client, create_snapshot,
  delete_snapshot, get_pvc, get_server, list_snapshots, snapshot_failed, attempt, attempted,
  on_error, return, wrapped, Script, Snapshot, SnapshotRequest, Outside, ◌>>=◌,
}
use minecraft_operator.Prelude.{
  ◌-◌, ◌||◌, length, not, ◌&&◌, ◌++◌, Option, ℕ, none, some, ok, zero, suc, Bool, true, false, List,
  [], ◌∷◌, if◌then◌else◌, leb, ltb,
}
use minecraft_operator.Clock.{stored_time, before, sub_time, minutes, Duration, Time}
use minecraft_operator.Prelude.Bytes.{bytes, Bytes}
use minecraft_operator.Api.{
  BackupSpec, BackupStatus, PaperMcServer, PaperMcServerStatus, BackupRecord,
}
use minecraft_operator.Prelude.Int.{◌-ℤ◌, pos, ltb_ℤ, ℤ}
use minecraft_operator.Rcon.{close_at_end, send_now, connect_client, send_command, RconClient}
use minecraft_operator.Update.Delay.{unix_time, lookup, scan_int}

unfoldable pub pre_snapshot_hook : Outside → RconClient → Script (Unit {0})
pre_snapshot_hook o rcon = do
  _ ← attempt o check_context cancelled
  _ ← send_command o rcon (bytes "save-all")
  _ ← attempt o wait cancelled
  send_command o rcon (bytes "save-off")

-- On a context of its own with ten seconds to go, which is not cancelled when `SendCommand` asks.
unfoldable pub post_snapshot_hook : Outside → RconClient → Script (Unit {0})
post_snapshot_hook o rcon = send_now o rcon (bytes "save-on")

unfoldable pub list_all : Outside → Script (List Snapshot)
list_all o = do _ ← attempt o list_snapshots call_failed; reading (λ log. ok (o.snapshots log))

-- The first `n` snapshots are deleted, up to the first failure. The number deleted before a failure is not
-- kept: the caller logs the failure alone.
unfoldable pub delete_first : Outside → ℕ → List Snapshot → Script (Unit {0})
delete_first o zero snapshots = return tt
delete_first o (suc n) [] = return tt
delete_first o (suc n) (snap ∷ snapshots) =
    attempt o (delete_snapshot snap.name) call_failed >>= λ _. delete_first o n snapshots

unfoldable pub delete_old_snapshots : Outside → ℕ → Script ℕ
unfolding delete_first
delete_old_snapshots o max_count = do
  snapshots ← list_all o
  let to_delete = length snapshots - max_count in
      if leb (length snapshots) max_count
      then return 0
      else (delete_first o to_delete (o.sort_snapshots snapshots) >>= λ _. return to_delete)

-- The parts of the spec that the backup reads.
abbrev snapshot_class : Option BackupSpec → Bytes
snapshot_class none = []
snapshot_class (some spec) = spec.volume_snapshot_class_name

abbrev default_max_backup_count : ℕ
default_max_backup_count = 10

abbrev max_backup_count : Option BackupSpec → ℕ
max_backup_count none = default_max_backup_count
max_backup_count (some spec) =
    if ltb 0 spec.max_count then spec.max_count else default_max_backup_count

-- `CreateSnapshot`, with the name that the API server generates. The object's labels and its name's prefix
-- are made of the request and are not written out.
unfoldable pub create_new_snapshot : Outside → SnapshotRequest → Script Bytes
create_new_snapshot o request = do
  _ ← attempt o (create_snapshot request) call_failed
  reading (λ log. ok (o.new_name log))

-- The status is written onto the object read anew, and a failure to do so goes no further.
unfoldable pub persist_backup_status : Outside → BackupRecord → Option ℕ → Script (Unit {0})
persist_backup_status o written count = do
  _ ← attempted (
      attempt o get_server call_failed >>= λ _.
      attempt o (write_backup_status written count) call_failed)
  return tt

-- What it writes: the record always, the count only where it is known.
abbrev kept_count : Option ℕ → Option BackupStatus → ℕ
kept_count none none = 0
kept_count none (some before) = before.backup_count
kept_count (some n) before = n

abbrev stored_record : BackupRecord → BackupRecord
stored_record written = record written {
  started_at = stored_time written.started_at;
  completed_at = elim written.completed_at [ none ↦ none | some t ↦ some (stored_time t) ];
}

-- The status as the API server gives it back.
unfoldable pub record_backup : BackupRecord → Option ℕ → PaperMcServerStatus → PaperMcServerStatus
record_backup written count status = record status {
  backup = some (record {
    last_backup = some (stored_record written);
    backup_count = kept_count count status.backup;
  });
}

abbrev pub failed_backup : Time → Bytes → BackupRecord
failed_backup now trigger = record {
  snapshot_name = [];
  started_at = now;
  completed_at = none;
  successful = false;
  trigger = trigger;
}

abbrev completed_backup : Time → Time → Bytes → Bytes → BackupRecord
completed_backup now done name trigger = record {
  snapshot_name = name;
  started_at = now;
  completed_at = some done;
  successful = true;
  trigger = trigger;
}

-- A step that is recorded as a failed backup if it fails.
unfoldable pub or_record : {X : Type 0} → Outside → Time → Bytes → Script X → Script X
or_record o now trigger m = on_error m (persist_backup_status o (failed_backup now trigger) none)

abbrev snapshot_request : Time → PaperMcServer → Bytes → SnapshotRequest
snapshot_request now server trigger = record {
  namespace = server.namespace;
  pvc_name = bytes "data-" ++ server.name ++ bytes "-0";
  server_name = server.name;
  volume_snapshot_class_name = snapshot_class server.spec.backup;
  trigger = trigger;
  timestamp = now;
}

abbrev count_of : Option (List Snapshot) → Option ℕ
count_of none = none
count_of (some snapshots) = some (length snapshots)

-- The part of `performBackup` behind the hooks.
unfoldable pub take_snapshot : Outside → Time → Time → PaperMcServer → Bytes → Script (Unit {0})
take_snapshot o now done server trigger = do
  name ←
      or_record o now trigger
        (wrapped snapshot_failed (create_new_snapshot o (snapshot_request now server trigger)))
  _ ← attempted (delete_old_snapshots o (max_backup_count server.spec.backup))
  remaining ← attempted (list_all o)
  persist_backup_status o (completed_backup now done name trigger) (count_of remaining)

-- The hooks around it, over a client that `createBackupRCONClient` returns. The calls deferred run in
-- reverse: auto-save is switched on again, then the connection is closed. `Close` on a client that has
-- not connected does nothing.
unfoldable pub with_rcon :
    Outside → RconClient → Time → Bytes → Script (Unit {0}) → Script (Unit {0})
with_rcon o rcon now trigger body = do
  _ ← or_record o now trigger (attempt o create_client no_client)
  connected ← or_record o now trigger (connect_client o rcon)
  deferring
      (do
        _ ← on_error (wrapped pre_hook_failed (pre_snapshot_hook o connected)) (
            attempted (post_snapshot_hook o connected) >>= λ _.
            persist_backup_status o (failed_backup now trigger) none)
        deferring body (post_snapshot_hook o connected))
      (close_at_end o connected)

-- `performBackup`, with the clock read at `now` and, behind the snapshot, at `done`.
unfoldable pub perform_backup :
    Outside → RconClient → Time → Time → PaperMcServer → Bytes → Script (Unit {0})
perform_backup o rcon now done server trigger = do
  _ ← or_record o now trigger (attempt o get_pvc pvc_not_found)
  if server.spec.rcon_enabled
      then with_rcon o rcon now trigger (take_snapshot o now done server trigger)
      else take_snapshot o now done server trigger

abbrev pub backup_now_max_age : Duration
backup_now_max_age = minutes 5

is_recent : Time → Option ℤ → Bool
is_recent now none = false
is_recent now (some ts) =
    let age = sub_time now (unix_time ts) in
    not (ltb_ℤ backup_now_max_age age || ltb_ℤ age (pos 0 -ℤ backup_now_max_age))

abbrev pub annotation_backup_now : Bytes
annotation_backup_now = bytes "mc.k8s.lex.la/backup-now"

annotated_time : Option Bytes → Option ℤ
annotated_time none = none
annotated_time (some s) = scan_int s

unfoldable pub should_backup_now : Time → PaperMcServer → Bool
unfolding is_recent annotated_time
should_backup_now now server =
    is_recent now (annotated_time (lookup annotation_backup_now server.annotations))

satisfies : Time → Option BackupStatus → Bool
satisfies trigger_time none = false
satisfies trigger_time (some status) = elim status.last_backup [
  | none ↦ false
  | some last_backup ↦ last_backup.successful && not (before last_backup.started_at trigger_time)
]

-- With the time at which the schedule last fired, if it has.
unfoldable pub should_run_scheduled_backup : Option Time → PaperMcServer → Bool
unfolding satisfies
should_run_scheduled_backup none server = false
should_run_scheduled_backup (some trigger_time) server =
    not (satisfies trigger_time server.status.backup)
