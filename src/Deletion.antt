-- ===== src/Deletion.antt =====
-- internal/controller/plugin_controller.go: the deletion of a plugin, which waits until its JARs are gone.
-- The API server is a part of the state; whether a call of it succeeds is a parameter.
pub mod Stores
pub mod Settled
pub mod Guarding
pub mod Ending
use minecraft_operator.Prelude.{
  ℕ, suc, Bool, true, false, not, ◌&&◌, ◌||◌, List, [], ◌∷◌, Option, none, some, if◌then◌else◌,
  is_empty, all, keep, map, length, eqb, Result, ok, err,
}
use minecraft_operator.Prelude.Bytes.{Bytes, ◌==◌}
use minecraft_operator.Clock.{Time, Duration, minutes, seconds, sub_time, before}
use minecraft_operator.Api.{
  DeletionProgressEntry, PaperMcServer, PaperMcServerStatus, Plugin, PluginRef, ServerPluginStatus,
}
use minecraft_operator.Selection.{Selecting, find_matching_servers}

-- A call that reaches the API server succeeds, or the object is not there, or it fails.
pub data Answer : Type 0 where
  succeeded not_found failed : Answer

pub data DeletionError : Type 0 where
  match_failed init_failed cleanup_failed get_failed mark_failed progress_failed persist_failed
        finalizer_failed :
      DeletionError

pub data Outcome : Type 0 where
  finished : Outcome
  requeue_after : Duration → Outcome

-- The plugin's progress in memory and as it is stored, whether the stored plugin has the finalizer, the
-- servers, and the number of calls so far.
pub record World : Type 0 where
  pub progress : List DeletionProgressEntry
  pub saved : List DeletionProgressEntry
  pub finalizer : Bool
  pub servers : List PaperMcServer
  pub calls : ℕ

abbrev pub Deleting : Type 0 → Type 0
Deleting X = World → Result DeletionError X × World

unfoldable pub step_on :
    {X Y : Type 0}
    → (X → Deleting Y)
    → Result DeletionError X × World
    → Result DeletionError Y × World
step_on k (ok x, w) = k x w
step_on k (err e, w) = (err e, w)

infixl 10 ◌>>=◌
unfoldable pub ◌>>=◌ : {X Y : Type 0} → Deleting X → (X → Deleting Y) → Deleting Y
unfolding step_on
(m >>= k) w = step_on k (m w)

abbrev pub done : Deleting (Unit {0})
done w = (ok tt, w)

-- Whether a key of a server is that of an entry.
abbrev pub is_server : Bytes → Bytes → PaperMcServer → Bool
is_server name namespace server = server.name == name && server.namespace == namespace

unfoldable pub lookup : Bytes → Bytes → List PaperMcServer → Option PaperMcServer
lookup name namespace [] = none
lookup name namespace (server ∷ servers) =
    let rest = lookup name namespace servers in
    if is_server name namespace server then some server else rest

abbrev pub names : Plugin → ServerPluginStatus → Bool
names plugin s = s.plugin_ref.name == plugin.name && s.plugin_ref.namespace == plugin.namespace

-- The first entry for the plugin, marked.
unfoldable pub mark_pending : Plugin → List ServerPluginStatus → List ServerPluginStatus
mark_pending plugin [] = []
mark_pending plugin (s ∷ ss) =
    let rest = mark_pending plugin ss in
    if names plugin s then record s { pending_deletion = true } ∷ ss else s ∷ rest

unfoldable pub entry_for : Plugin → List ServerPluginStatus → Option ServerPluginStatus
entry_for plugin [] = none
entry_for plugin (s ∷ ss) =
    let rest = entry_for plugin ss in if names plugin s then some s else rest

-- No entry for the plugin, or one that was never installed.
abbrev pub has_no_jar : Option ServerPluginStatus → Bool
has_no_jar none = true
has_no_jar (some s) = is_empty s.installed_jar_name

abbrev pub is_updated : Option ServerPluginStatus → Bool
is_updated none = false
is_updated (some s) = not s.pending_deletion

abbrev pub marked : Plugin → PaperMcServer → PaperMcServer
marked plugin server = record server {
  status = record (server.status) { plugins = mark_pending plugin server.status.plugins };
}

-- The first entry of that server.
unfoldable pub set_deleted :
    Time → Bytes → Bytes → List DeletionProgressEntry → List DeletionProgressEntry
set_deleted now name namespace [] = []
set_deleted now name namespace (e ∷ es) =
    let rest = set_deleted now name namespace es in
    if e.server_name == name && e.namespace == namespace
    then record e { jar_deleted = true; deleted_at = some now } ∷ es
    else e ∷ rest

abbrev pub deletion_timeout : Duration
deletion_timeout = minutes 10

-- An entry that `forceCompleteStaleDeletions` completes, unless it is complete.
abbrev pub is_stale : Time → Option Time → Bool
is_stale now none = false
is_stale now (some requested) = before deletion_timeout (sub_time now requested)

-- Replaces what the API server has for that server.
abbrev pub store_server : PaperMcServer → List PaperMcServer → List PaperMcServer
store_server server servers =
    map (λ s. if is_server server.name server.namespace s then server else s) servers

module _ (selecting : Selecting) (answer : ℕ → Answer) (now : Time) (plugin : Plugin) where
  -- One call: its answer, and the world with the call counted.
  abbrev pub counted : World → World
  counted w = record w { calls = suc w.calls }

  unfoldable pub saved_status : Answer → Deleting Answer
  saved_status succeeded w = (ok succeeded, record w { saved = w.progress })
  saved_status not_found w = (ok not_found, w)
  saved_status failed w = (ok failed, w)

  -- `r.Status().Update(ctx, plugin)`.
  unfoldable pub update_status : Deleting Answer
  unfolding saved_status
  update_status w = saved_status (answer w.calls) (counted w)

  unfoldable pub or_fail : DeletionError → Answer → Deleting (Unit {0})
  or_fail e succeeded w = (ok tt, w)
  or_fail e not_found w = (err e, w)
  or_fail e failed w = (err e, w)

  abbrev pub new_entry : PaperMcServer → DeletionProgressEntry
  new_entry server = record {
    server_name = server.name;
    namespace = server.namespace;
    jar_deleted = false;
    deleted_at = none;
    deletion_requested_at = some now;
  }

  -- The servers of the plugin's namespace.
  unfoldable pub listed : Answer → List PaperMcServer → Option (List PaperMcServer)
  listed succeeded servers = some (keep (λ server. server.namespace == plugin.namespace) servers)
  listed not_found servers = none
  listed failed servers = none

  unfoldable pub init_with : {E : Type 0} → Result E (List PaperMcServer) → Deleting (Unit {0})
  init_with (err e) w = (err match_failed, w)
  init_with (ok servers) w =
      (update_status >>= or_fail init_failed) (record w { progress = map new_entry servers })

  unfoldable pub init_deletion_progress_if_needed : Deleting (Unit {0})
  unfolding init_with listed
  init_deletion_progress_if_needed w =
      if is_empty w.progress
      then init_with
          (find_matching_servers selecting plugin.spec.instance_selector
            (listed (answer w.calls) w.servers))
          (counted w)
      else done w

  -- What a Get of a server finds: an error if the call fails, `none` for a server that is not among them.
  unfoldable pub got : Answer → Option PaperMcServer → Result DeletionError (Option PaperMcServer)
  got failed found = err get_failed
  got succeeded found = ok found
  got not_found found = ok found

  abbrev pub is_absent : Result DeletionError (Option PaperMcServer) → Bool
  is_absent (ok none) = true
  is_absent (ok (some server)) = false
  is_absent (err e) = false

  -- `cleanupDeletedServers` asks for the server of an entry that is not deleted, and drops the entry if the
  -- server is not there; an entry whose question fails is kept.
  unfoldable pub asked_for : DeletionProgressEntry → World → World
  asked_for e w = if e.jar_deleted then w else counted w

  unfoldable pub is_dropped : DeletionProgressEntry → World → Bool
  unfolding got lookup
  is_dropped e w =
      not e.jar_deleted
      && is_absent (got (answer w.calls) (lookup e.server_name e.namespace w.servers))

  -- What it keeps of the entries, and the world behind the questions.
  unfoldable pub still_there :
      List DeletionProgressEntry → World → List DeletionProgressEntry × World
  unfolding asked_for is_dropped
  still_there [] w = ([], w)
  still_there (e ∷ es) w =
      let (rest, after) = still_there es (asked_for e w) in
      (if is_dropped e w then rest else e ∷ rest, after)

  unfoldable pub cleanup_deleted_servers : Deleting (Unit {0})
  unfolding still_there
  cleanup_deleted_servers w =
      let (remaining, after) = still_there w.progress w in
      if eqb (length remaining) (length w.progress)
      then (ok tt, after)
      else (update_status >>= or_fail cleanup_failed) (record after { progress = remaining })

  unfoldable pub mark_jar_as_deleted : Bytes → Bytes → Deleting (Unit {0})
  unfolding set_deleted
  mark_jar_as_deleted name namespace w =
      (update_status >>= or_fail progress_failed)
        (record w { progress = set_deleted now name namespace w.progress })

  unfoldable pub stored_server : PaperMcServer → Answer → Deleting (Unit {0})
  stored_server server succeeded w = (ok tt, record w { servers = store_server server w.servers })
  stored_server server not_found w = (err mark_failed, w)
  stored_server server failed w = (err mark_failed, w)

  unfoldable pub mark_server :
      DeletionProgressEntry → PaperMcServer → Option ServerPluginStatus → Deleting (Unit {0})
  unfolding stored_server mark_pending
  mark_server e server entry w =
      let stored = stored_server (marked plugin server) (answer w.calls) (counted w) in
      if has_no_jar entry
      then mark_jar_as_deleted e.server_name e.namespace w
      else if is_updated entry
      then stored
      else (ok tt, w)

  unfoldable pub mark_found : DeletionProgressEntry → Option PaperMcServer → Deleting (Unit {0})
  unfolding mark_server entry_for
  mark_found e none = mark_jar_as_deleted e.server_name e.namespace
  mark_found e (some server) = mark_server e server (entry_for plugin server.status.plugins)

  unfoldable pub get_server : DeletionProgressEntry → Deleting (Option PaperMcServer)
  get_server e w = (got (answer w.calls) (lookup e.server_name e.namespace w.servers), counted w)

  -- One pass of the loop of `markPluginForDeletionOnServers`.
  unfoldable pub mark_entry : DeletionProgressEntry → Deleting (Unit {0})
  unfolding mark_found get_server
  mark_entry e w = if e.jar_deleted then (ok tt, w) else (get_server e >>= mark_found e) w

  -- The loop: a pass changes no later entry, since `set_deleted` changes the first one of a server.
  unfoldable pub mark_all : List DeletionProgressEntry → Deleting (Unit {0})
  unfolding mark_entry
  mark_all [] = done
  mark_all (e ∷ es) = mark_entry e >>= λ _. mark_all es

  unfoldable pub mark_plugin_for_deletion_on_servers : Deleting (Unit {0})
  unfolding mark_all
  mark_plugin_for_deletion_on_servers w = mark_all w.progress w

  unfoldable pub force_complete : DeletionProgressEntry → DeletionProgressEntry
  force_complete e =
      if not e.jar_deleted && is_stale now e.deletion_requested_at
      then record e { jar_deleted = true; deleted_at = some now }
      else e

  unfoldable pub force_complete_stale_deletions : Deleting (Unit {0})
  unfolding force_complete
  force_complete_stale_deletions w = (ok tt, record w { progress = map force_complete w.progress })

  unfoldable pub all_jars_deleted : World → Bool
  all_jars_deleted w = all (λ e. e.jar_deleted) w.progress

  unfoldable pub updated_plugin : Answer → Deleting Outcome
  updated_plugin succeeded w = (ok finished, record w { finalizer = false })
  updated_plugin not_found w = (err finalizer_failed, w)
  updated_plugin failed w = (err finalizer_failed, w)

  unfoldable pub remove_finalizer : Deleting Outcome
  unfolding updated_plugin
  remove_finalizer w = updated_plugin (answer w.calls) (counted w)

  -- What follows the forced completion, by the answer to its being stored.
  unfoldable pub conclude : Answer → Deleting Outcome
  conclude failed w = (err persist_failed, w)
  conclude not_found w = (ok finished, w)
  conclude succeeded w =
      let removed = remove_finalizer w in
      if all_jars_deleted w then removed else (ok (requeue_after (seconds 30)), w)

  unfoldable pub deletion_steps : Deleting Outcome
  unfolding conclude
  deletion_steps = do
    _ ← init_deletion_progress_if_needed
    _ ← cleanup_deleted_servers
    _ ← mark_plugin_for_deletion_on_servers
    _ ← force_complete_stale_deletions
    answered ← update_status
    conclude answered

  unfoldable pub reconcile_delete : Deleting Outcome
  reconcile_delete w = let run = deletion_steps w in if w.finalizer then run else (ok finished, w)
