-- ===== src/Update/Flow.antt =====
-- The update itself, of update_controller.go: the backup before it, the plugins deleted and downloaded in
-- the pod, the shutdown, the new image and the pod's restart, in the source's order.
pub mod Downloads
pub mod Guarded
use minecraft_operator.Effects.{
  wait, reading, no_password, or_failure, get_secret, no_pod_ip, update_image, delete_pod,
  no_container, return, step_failed, backup_failed, call_failed, is_some, shutdown_failed,
  deferring, get_pod, get_stateful_set, invalid_client, no_snapshot_api, timed_out, wrapped,
  Failure, attempt, attempted, fail, ClientError, Script, Outside, ◌>>=◌,
}
use minecraft_operator.Prelude.{
  eqb, is_empty, ◌&&◌, ◌++◌, Option, Result, ℕ, none, some, ok, err, zero, suc, Bool, true, false,
  List, [], ◌∷◌, if◌then◌else◌, leb, ltb,
}
use Downloads.{apply_plugin_updates, delete_marked_plugins, pod_name}
use minecraft_operator.Prelude.Bytes.{decimal, bytes, Bytes}
use minecraft_operator.Api.{BackupSpec, PaperMcServer}
use minecraft_operator.Rcon.{
  new_rcon_client, close_at_end, graceful_shutdown, connect_client, RconClient,
}
use minecraft_operator.Clock.{Time}
use minecraft_operator.Backup.{perform_backup, list_all}
use minecraft_operator.Prelude.Int.{pos}

abbrev client_or_failure : Result ClientError RconClient → Result Failure RconClient
client_or_failure (ok c) = ok c
client_or_failure (err e) = err (invalid_client e)

-- `createRCONClient`.
unfoldable pub create_rcon_client : Outside → PaperMcServer → Script RconClient
create_rcon_client o server = do
  _ ← attempt o get_pod call_failed
  _ ← reading (λ log. if is_empty (o.pod_ip log) then err no_pod_ip else ok tt)
  host ← reading (λ log. ok (o.pod_ip log))
  _ ← attempt o get_secret call_failed
  password ← reading (λ log. or_failure no_password (o.password log))
  let port = if eqb server.spec.rcon_port 0 then 25575 else server.spec.rcon_port in
      reading (λ log. client_or_failure (new_rcon_client host (pos port) password))

abbrev pub warnings : List Bytes
warnings =
    bytes "Server will restart for update in 5 minutes"
    ∷ bytes "Server will restart for update in 2 minutes"
    ∷ bytes "Server will restart for update in 1 minute"
    ∷ bytes "Server will restart for update in 30 seconds"
    ∷ bytes "Server restarting now for update"
    ∷ []

unfoldable pub execute_graceful_shutdown : Outside → RconClient → Script (Unit {0})
execute_graceful_shutdown o c = do
  connected ← connect_client o c
  deferring (wrapped shutdown_failed (graceful_shutdown o connected warnings))
      (close_at_end o connected)

abbrev not_declined : Option Bool → Bool
not_declined none = true
not_declined (some b) = b

-- Whether the spec asks for a backup before an update.
unfoldable pub wants_backup : Option BackupSpec → Bool
wants_backup none = false
wants_backup (some spec) = spec.enabled && not_declined spec.before_update

-- `isSnapshotCRDMissing`.
unfoldable pub is_snapshot_crd_missing : Outside → Script Bool
is_snapshot_crd_missing o = do
  listed ← attempted (list_all o)
  reading (λ log. ok (if is_some listed then false else o.is_no_match log))

-- `backupBeforeUpdate`, with a backup reconciler at hand.
unfoldable pub backup_before_update :
    Outside → RconClient → Time → Time → PaperMcServer → Script (Unit {0})
backup_before_update o rcon now done server =
    if wants_backup server.spec.backup
    then (do
      missing ← is_snapshot_crd_missing o
      (if missing
          then fail no_snapshot_api
          else perform_backup o rcon now done server (bytes "before-update")))
    else return tt

unfoldable pub update_stateful_set_image : Outside → Bytes → Script (Unit {0})
update_stateful_set_image o image = do
  _ ← attempt o get_stateful_set call_failed
  _ ← reading (λ log. if o.has_container log then ok tt else err no_container)
  attempt o (update_image image) call_failed

unfoldable pub delete_server_pod : Outside → PaperMcServer → Script (Unit {0})
delete_server_pod o server = do
  _ ← attempt o get_pod call_failed
  attempt o (delete_pod (pod_name server)) call_failed

-- `waitForPodReady` asks every five seconds for ten minutes: 120 times. Each wait is cut
-- short by a context that ends, the operator's own included. A pod that cannot be read is asked
-- for again.
unfoldable pub poll : ℕ → Outside → Script (Unit {0})
poll zero o = fail timed_out
poll (suc rounds) o =
    let later = poll rounds o in
    (do
      _ ← attempt o wait timed_out
      found ← attempted (attempt o get_pod call_failed)
      ready ← reading (λ log. ok (is_some found && o.pod_ready log))
      (if ready then return tt else later))

unfoldable pub wait_for_pod_ready : Outside → Script (Unit {0})
unfolding poll
wait_for_pod_ready o = poll 120 o

-- With RCON an error of the shutdown goes no further here: the plugins are in place for the next start.
unfoldable pub perform_plugin_only_update :
    Outside → RconClient → Time → Time → (Bytes → Bool) → PaperMcServer → Script (Unit {0})
perform_plugin_only_update o rcon now done valid server = do
  _ ← wrapped backup_failed (backup_before_update o rcon now done server)
  _ ← wrapped step_failed (delete_marked_plugins o now server)
  _ ← wrapped step_failed (apply_plugin_updates o valid server)
  _ ←
      (if server.spec.rcon_enabled
        then attempted (create_rcon_client o server >>= λ c. execute_graceful_shutdown o c)
        else return none)
  _ ← wrapped step_failed (delete_server_pod o server)
  wrapped step_failed (wait_for_pod_ready o)

abbrev pub new_image : PaperMcServer → Bytes
new_image server =
    bytes "docker.io/lexfrei/papermc:"
    ++ server.status.desired_version
    ++ bytes "-"
    ++ decimal server.status.desired_build

unfoldable pub perform_combined_update :
    Outside → RconClient → Time → Time → (Bytes → Bool) → PaperMcServer → Script (Unit {0})
perform_combined_update o rcon now done valid server = do
  _ ← wrapped backup_failed (backup_before_update o rcon now done server)
  _ ← wrapped step_failed (delete_marked_plugins o now server)
  _ ← wrapped step_failed (apply_plugin_updates o valid server)
  _ ←
      (if server.spec.rcon_enabled
        then wrapped step_failed
            (create_rcon_client o server >>= λ c. execute_graceful_shutdown o c)
        else return tt)
  _ ← wrapped step_failed (update_stateful_set_image o (new_image server))
  _ ← wrapped step_failed (delete_server_pod o server)
  wrapped step_failed (wait_for_pod_ready o)
