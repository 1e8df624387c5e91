-- ===== src/Examples/Outside.antt =====
-- Backups and updates against an outside where every call succeeds.
use minecraft_operator.Prelude.{err, ◌⊎◌, ok, ◌↔◌, ◌≡◌, true, false, none, some, [], ◌∷◌, refl}
use minecraft_operator.Update.Flow.{
  perform_combined_update, perform_plugin_only_update, wants_backup,
}
use minecraft_operator.Update.Delay.{unix_time, lookup, scan_int}
use minecraft_operator.Backup.{annotation_backup_now, perform_backup, should_backup_now}
use minecraft_operator.Effects.{Failure, Outside}
use minecraft_operator.Update.Flow.Guarded.{has_snapshot, Guarded}
use minecraft_operator.Backup.Saving.{perform_backup_keeps_saving}
use minecraft_operator.Backup.AutoSave.{on, Quiet, auto_save, lost_save_on}
use minecraft_operator.Api.{PaperMcServer}
use minecraft_operator.Update.Flow.Downloads.Checksum.{verify_plugin_checksum_iff, is_ok}
use minecraft_operator.Rcon.{graceful_shutdown, RconClient}
use minecraft_operator.Update.Flow.Downloads.{to_lower, hash_of, verify_plugin_checksum}
use minecraft_operator.Prelude.Bytes.{bytes, ◌==◌}
use minecraft_operator.Examples.{server}
use minecraft_operator.Prelude.Int.{◌≤ℤ◌, ◌-ℤ◌, pos}
use minecraft_operator.Update.Flow.Guarded.Updates.{
  perform_combined_update-Guarded, perform_plugin_only_update-Guarded,
}
use minecraft_operator.Clock.{minutes}
use minecraft_operator.Backup.Triggers.{should_backup_now_iff}
use minecraft_operator.Rcon.Shutdown.{graceful_shutdown_cases, LastFailed, warned, commands}
use minecraft_operator.Update.Flow.Guarded.Backups.{perform_backup_records_snapshots}

abbrev calm : Outside
calm = record {
  answers = λ log a. true;
  new_name = λ log. bytes "lobby-backup-1";
  snapshots = λ log. [];
  sort_snapshots = λ snapshots. snapshots;
  pod_ip = λ log. bytes "10.0.0.7";
  pod_ready = λ log. true;
  password = λ log. some (bytes "secret");
  plugins = λ log. [];
  deletion_progress = λ log. [];
  output = λ log. bytes "ABC  map.jar";
  is_no_match = λ log. false;
  has_container = λ log. true;
}

abbrev console : RconClient
console = record {
  host = bytes "10.0.0.7";
  port = pos 25575;
  password = bytes "secret";
  connected = false;
}

abbrev careful : PaperMcServer
careful = record (server (bytes "auto")) {
  spec = record ((server (bytes "auto")).spec) {
    backup = some (record {
      enabled = true;
      schedule = [];
      before_update = none;
      volume_snapshot_class_name = [];
      max_count = 3;
    });
  };
}

careful_wants_backup : wants_backup careful.spec.backup ≡ true
unfolding wants_backup
careful_wants_backup = refl

perform_backup_keeps_saving_example :
    let after = (perform_backup calm console (pos 5) (pos 9) careful (bytes "manual") []).1 in
    ((auto_save calm after ≡ on) ⊎ (lost_save_on calm after ≡ true)) × Quiet calm after
unfolding auto_save Quiet
perform_backup_keeps_saving_example =
    perform_backup_keeps_saving calm console (pos 5) (pos 9) careful (bytes "manual") [] refl refl
      tt

perform_combined_update-Guarded_example :
    Guarded calm (perform_combined_update calm console (pos 5) (pos 9) (λ url. true) careful []).1
unfolding Guarded
perform_combined_update-Guarded_example =
    perform_combined_update-Guarded calm console (pos 5) (pos 9) (λ url. true) careful []
      careful_wants_backup tt

perform_plugin_only_update-Guarded_example :
    Guarded calm
      (perform_plugin_only_update calm console (pos 5) (pos 9) (λ url. true) careful []).1
unfolding Guarded
perform_plugin_only_update-Guarded_example =
    perform_plugin_only_update-Guarded calm console (pos 5) (pos 9) (λ url. true) careful []
      careful_wants_backup tt

verify_plugin_checksum_iff_example :
    (is_ok (verify_plugin_checksum calm (bytes "map.jar") (bytes "abc") []).0 ≡ true)
    ↔ ((true ≡ true) × (hash_of (bytes "ABC  map.jar") ≡ to_lower (bytes "abc")))
verify_plugin_checksum_iff_example =
    verify_plugin_checksum_iff calm (bytes "map.jar") (bytes "abc") []

abbrev asked : PaperMcServer
asked = record (server (bytes "auto")) { annotations = (annotation_backup_now, bytes "12") ∷ [] }

asked_at_twelve : lookup annotation_backup_now asked.annotations ≡ some (bytes "12")
unfolding lookup ◌==◌
asked_at_twelve = refl

twelve_read : scan_int (bytes "12") ≡ some (pos 12)
unfolding scan_int
twelve_read = refl

should_backup_now_iff_example : (should_backup_now (unix_time (pos 100)) asked ≡ true) ↔ (
    (unix_time (pos 100) -ℤ unix_time (pos 12) ≤ℤ minutes 5)
    × (unix_time (pos 12) -ℤ unix_time (pos 100) ≤ℤ minutes 5))
should_backup_now_iff_example =
    should_backup_now_iff (unix_time (pos 100)) asked (bytes "12") (pos 12) asked_at_twelve
      twelve_read

abbrev open_console : RconClient
open_console = record console { connected = true }

graceful_shutdown_cases_example :
    let (result, after) =
      graceful_shutdown calm open_console (bytes "soon" ∷ bytes "now" ∷ []) [] in
    ((result ≡ ok tt)
      × (commands after
          ≡ bytes "stop" ∷ bytes "save-all" ∷ warned (bytes "soon" ∷ bytes "now" ∷ []) []))
    ⊎ LastFailed calm after
unfolding commands
graceful_shutdown_cases_example =
    graceful_shutdown_cases calm open_console (bytes "soon" ∷ bytes "now" ∷ []) [] refl

perform_backup_records_snapshots_example :
    let (result, after) = perform_backup calm console (pos 5) (pos 9) careful (bytes "manual") [] in
    (((result ≡ ok tt) × (has_snapshot calm after ≡ true)) ⊎ ((e : Failure) × (result ≡ err e)))
    × Guarded calm after
perform_backup_records_snapshots_example =
    perform_backup_records_snapshots calm console (pos 5) (pos 9) careful (bytes "manual")
