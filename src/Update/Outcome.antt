-- ===== src/Update/Outcome.antt =====
-- How the outcome of an update is recorded: updateServerStatus, hasPendingPluginUpdates,
-- getPluginsToDelete, updateStatusWithRetry.
pub mod Recorded
pub mod Conflict
use minecraft_operator.Prelude.{
  ℕ, zero, suc, Bool, true, false, not, ◌&&◌, List, [], ◌∷◌, Option, none, some, if◌then◌else◌,
  is_empty, any, keep, map, Result, ok, err,
}
use minecraft_operator.Prelude.Bytes.{Bytes, ◌==◌}
use minecraft_operator.Clock.{Time}
use minecraft_operator.Api.{
  PaperMcServer, PaperMcServerStatus, ServerPluginStatus, PluginRef, UpdateHistory,
}

-- The loop over the plugins behind a successful update.
abbrev installed : ServerPluginStatus → ServerPluginStatus
installed p =
    if not (is_empty p.resolved_version)
    then record p { current_version = p.resolved_version }
    else p

unfoldable pub update_server_status : Time → Bool → PaperMcServerStatus → PaperMcServerStatus
update_server_status now successful status =
    let recorded = record status {
      last_update = some (record {
        applied_at = now;
        previous_version = status.current_version;
        successful = successful;
      });
    } in
    if successful
    then record recorded {
      available_update = none;
      current_version = status.desired_version;
      current_build = status.desired_build;
      plugins = map installed status.plugins;
    }
    else recorded

unfoldable pub has_pending_plugin_updates : PaperMcServerStatus → Bool
has_pending_plugin_updates status =
    any (λ p. not (is_empty p.desired_version) && not (p.desired_version == p.current_version))
      status.plugins

unfoldable pub get_plugins_to_delete : PaperMcServerStatus → List ServerPluginStatus
get_plugins_to_delete status = keep (λ p. p.pending_deletion) status.plugins

abbrev same_ref : PluginRef → PluginRef → Bool
same_ref a b = a.name == b.name && a.namespace == b.namespace

-- The inner loop of the merge: the first desired entry for the same plugin gives the three fields.
merge_plugin : List ServerPluginStatus → ServerPluginStatus → ServerPluginStatus
merge_plugin [] p = p
merge_plugin (d ∷ ds) p =
    let rest = merge_plugin ds p in
    if same_ref p.plugin_ref d.plugin_ref
    then record p {
      current_version = d.current_version;
      installed_jar_name = d.installed_jar_name;
      pending_deletion = d.pending_deletion;
    }
    else rest

-- What is applied again onto the object that was read anew.
unfoldable pub reapply : PaperMcServerStatus → PaperMcServerStatus → PaperMcServerStatus
unfolding merge_plugin
reapply desired fresh = record fresh {
  last_update = desired.last_update;
  conditions = desired.conditions;
  plugins = map (merge_plugin desired.plugins) fresh.plugins;
}

pub data StatusError : Type 0 where
  other_error read_failed retries_exhausted : StatusError

pub data UpdateReply : Type 0 where
  written conflict failed : UpdateReply

-- The API server with its state `S`: `Status().Update`, and `Get` of the same object, which may fail.
pub record ApiServer (S : Type 0) : Type 0 where
  pub status_update : S → PaperMcServer → UpdateReply × S
  pub get : S → Option PaperMcServer × S

module _ {S : Type 0} (api : ApiServer S) where
  -- The rest of a round, with the rounds behind it as `again`.
  after_read :
      (S → PaperMcServer → Result StatusError (Unit {0}) × S)
      → PaperMcServerStatus
      → Option PaperMcServer × S
      → Result StatusError (Unit {0}) × S
  after_read again desired (none, s) = (err read_failed, s)
  after_read again desired (some latest, s) =
      again s (record latest { status = reapply desired latest.status })

  after_write :
      (S → PaperMcServer → Result StatusError (Unit {0}) × S)
      → PaperMcServerStatus
      → UpdateReply × S
      → Result StatusError (Unit {0}) × S
  unfolding after_read
  after_write again desired (written, s) = (ok tt, s)
  after_write again desired (failed, s) = (err other_error, s)
  after_write again desired (conflict, s) = after_read again desired (api.get s)

  -- The loop of `updateStatusWithRetry` with its rounds left: the result, and the server's state.
  retry : ℕ → PaperMcServerStatus → S → PaperMcServer → Result StatusError (Unit {0}) × S
  unfolding after_write
  retry zero desired s server = (err retries_exhausted, s)
  retry (suc rounds) desired s server =
      after_write (λ s1 server1. retry rounds desired s1 server1) desired
        (api.status_update s server)

  unfoldable pub update_status_with_retry : S → PaperMcServer → Result StatusError (Unit {0}) × S
  unfolding retry
  update_status_with_retry s server = retry 3 server.status s server
