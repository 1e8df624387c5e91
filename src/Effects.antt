-- ===== src/Effects.antt =====
-- The calls that leave the operator, and scripts of them: a script takes the log of the calls made so
-- far, newest first, and returns its result with the log grown. What the outside answers is a parameter,
-- which may depend on all calls before.
pub mod Triples
use minecraft_operator.Prelude.{
  true, false, ℕ, Bool, List, [], ◌∷◌, Option, none, some, if◌then◌else◌, Result, ok, err,
}
use minecraft_operator.Prelude.Bytes.{Bytes}
use minecraft_operator.Clock.{Time}
use minecraft_operator.Api.{PluginRef, DeletionProgressEntry, Plugin, BackupRecord}
use minecraft_operator.Prelude.Int.{ℤ}

-- backup.SnapshotRequest, less the owner references.
pub record SnapshotRequest : Type 0 where
  pub namespace : Bytes
  pub pvc_name : Bytes
  pub server_name : Bytes
  pub volume_snapshot_class_name : Bytes
  pub trigger : Bytes
  pub timestamp : Time

-- A VolumeSnapshot of the API server.
pub record Snapshot : Type 0 where
  pub name : Bytes
  pub created : Time

pub data Action : Type 0 where
  -- A context that is asked whether it is cancelled, and a wait that a cancelled context ends.
  check_context wait : Action
  -- The RCON connection.
  create_client connect close : Action
  execute : Bytes → Action
  -- The API server.
  get_pvc get_server list_snapshots get_snapshot_crd : Action
  create_snapshot : SnapshotRequest → Action
  delete_snapshot : Bytes → Action
  write_backup_status : BackupRecord → Option ℕ → Action
  get_pod get_secret get_stateful_set list_plugins : Action
  get_plugin : PluginRef → Action
  update_plugin_status : List DeletionProgressEntry → Action
  update_image : Bytes → Action
  delete_pod : Bytes → Action
  -- A command in the server's pod.
  exec_in_pod : List Bytes → Action

pub data ClientError : Type 0 where
  empty_host empty_password : ClientError
  invalid_port : ℤ → ClientError

pub data Failure : Type 0 where
  cancelled not_connected no_client dial_failed close_failed : Failure
  pvc_not_found no_snapshot_api call_failed no_pod_ip no_password no_container timed_out : Failure
  invalid_client : ClientError → Failure
  checksum_mismatch : Bytes → Bytes → Failure
  deletions_failed downloads_failed : ℕ → Failure
  command_failed : Bytes → Failure
  pre_hook_failed snapshot_failed backup_failed shutdown_failed step_failed : Failure → Failure

abbrev pub Log : Type 0
Log = List Action

-- What the outside does: whether a call succeeds, the name of a new snapshot, the snapshots listed, and
-- the sort of the standard library by creation time.
pub record Outside : Type 0 where
  pub answers : Log → Action → Bool
  pub new_name : Log → Bytes
  pub snapshots : Log → List Snapshot
  pub sort_snapshots : List Snapshot → List Snapshot
  -- What the calls before have read: the pod's address and whether it is ready, the password if the
  -- secret has the key, the plugins, the deletion progress of one, the output of a command, whether a
  -- failed call failed because the API knows no such kind, and whether a container of that name exists.
  pub pod_ip : Log → Bytes
  pub pod_ready : Log → Bool
  pub password : Log → Option Bytes
  pub plugins : Log → List Plugin
  pub deletion_progress : Log → List DeletionProgressEntry
  pub output : Log → Bytes
  pub is_no_match : Log → Bool
  pub has_container : Log → Bool

abbrev pub Script : Type 0 → Type 0
Script X = Log → Result Failure X × Log

abbrev pub return : {X : Type 0} → X → Script X
return x log = (ok x, log)

abbrev pub fail : {X : Type 0} → Failure → Script X
fail e log = (err e, log)

-- What the calls before have read, or the failure that it means; no call is made.
unfoldable pub reading : {X : Type 0} → (Log → Result Failure X) → Script X
reading f log = (f log, log)

unfoldable pub and_then :
    {X Y : Type 0} → (X → Script Y) → Result Failure X × Log → Result Failure Y × Log
and_then k (ok x, log) = k x log
and_then k (err e, log) = (err e, log)

abbrev pub is_some : {X : Type 0} → Option X → Bool
is_some none = false
is_some (some x) = true

abbrev pub or_failure : {X : Type 0} → Failure → Option X → Result Failure X
or_failure e none = err e
or_failure e (some x) = ok x

infixl 10 ◌>>=◌
unfoldable pub ◌>>=◌ : {X Y : Type 0} → Script X → (X → Script Y) → Script Y
unfolding and_then
(m >>= k) log = and_then k (m log)

-- One call, with the failure that it means if it does not succeed.
unfoldable pub attempt : Outside → Action → Failure → Script (Unit {0})
attempt o a e log = (if o.answers log a then ok tt else err e, a ∷ log)

wrap_error : {X : Type 0} → (Failure → Failure) → Result Failure X × Log → Result Failure X × Log
wrap_error f (ok x, log) = (ok x, log)
wrap_error f (err e, log) = (err (f e), log)

-- `errors.Wrap`.
unfoldable pub wrapped : {X : Type 0} → (Failure → Failure) → Script X → Script X
unfolding wrap_error
wrapped f m log = wrap_error f (m log)

unfoldable pub try_result : {X : Type 0} → Result Failure X × Log → Result Failure (Option X) × Log
try_result (ok x, log) = (ok (some x), log)
try_result (err e, log) = (ok none, log)

-- An error that is logged and goes no further.
unfoldable pub attempted : {X : Type 0} → Script X → Script (Option X)
unfolding try_result
attempted m log = try_result (m log)

handle : {X Y : Type 0} → Script Y → Result Failure X × Log → Result Failure X × Log
handle h (ok x, log) = (ok x, log)
handle h (err e, log) = (err e, (h log).1)

-- What is done on the way out when `m` fails; its own error goes no further.
unfoldable pub on_error : {X Y : Type 0} → Script X → Script Y → Script X
unfolding handle
on_error m h log = handle h (m log)

closing : {X Y : Type 0} → Script Y → Result Failure X × Log → Result Failure X × Log
closing c (r, log) = (r, (c log).1)

-- A deferred call.
unfoldable pub deferring : {X Y : Type 0} → Script X → Script Y → Script X
unfolding closing
deferring m c log = closing c (m log)
