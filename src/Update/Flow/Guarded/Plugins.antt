-- ===== src/Update/Flow/Guarded/Plugins.antt =====
-- Behind the snapshot: the plugins deleted and downloaded.
use minecraft_operator.Effects.{
  get_plugin, update_plugin_status, list_plugins, call_failed, reading, attempt, attempted, wrapped,
  Action, Failure, Log, Script, Outside, ◌>>=◌,
}
use minecraft_operator.Prelude.{
  Option, eqb, is_empty, ◌∷◌, ◌≡◌, List, Result, if◌then◌else◌, Bool, none, some, true, ok, err, [],
}
use minecraft_operator.Update.Flow.Downloads.{
  to_lower, update_marked, apply_plugin_updates, delete_each, delete_marked_plugins,
  delete_plugin_jar, download_plugin_to_server, mark_jar_as_deleted, update_each, update_one,
  verify_plugin_checksum,
}
use minecraft_operator.Update.Flow.Guarded.{
  allow-Saved, Saved, attempted-Keeps, call, either-Keeps, Keeps, chain, harmless,
}
use minecraft_operator.Clock.{Time}
use minecraft_operator.Prelude.Bytes.{◌==◌, Bytes}
use minecraft_operator.Effects.Triples.{Post, wrapped-Triple}
use minecraft_operator.Api.{
  PluginRef, DeletionProgressEntry, PaperMcServer, Plugin, ServerPluginStatus,
}

module _ (o : Outside) where
  -- Behind the snapshot nothing takes it away.
  abbrev pub Free : {X : Type 0} → Script X → Type 0
  Free m = Keeps o (Saved o) m

  pub any_call : (a : Action) (e : Failure) → Free (attempt o a e)
  any_call a e = call o (Saved o) a e (allow-Saved o a)

  pub save : (a : Action) → harmless o a ≡ true → (log : Log) → Saved o log → Saved o (a ∷ log)
  save a h = allow-Saved o a

  pub reading-Free : {X : Type 0} (f : Log → Result Failure X) → Free (reading f)
  unfolding reading
  reading-Free {X = X} f log p = go (f log)
    where
      go : (r : Result Failure X) → Post (λ _. Saved o) (Saved o) (r, log)
      go (ok x) = p
      go (err e) = p

  pub seq-Free :
      {X Y : Type 0} (m : Script X) (k : X → Script Y)
      → Free m
      → ((x : X) → Free (k x))
      → Free (m >>= k)
  seq-Free m k h next = chain o (Saved o) m k h next

  pub attempted-Free : {X : Type 0} (m : Script X) → Free m → Free (attempted m)
  attempted-Free m h = attempted-Keeps o (Saved o) save m h

  pub wrapped-Free :
      {X : Type 0} (f : Failure → Failure) (m : Script X) → Free m → Free (wrapped f m)
  wrapped-Free f m h = wrapped-Triple (Saved o) f m (λ _. Saved o) (Saved o) h

  pub either-Free :
      {X : Type 0} (b : Bool) (m n : Script X) → Free m → Free n → Free (if b then m else n)
  either-Free b m n h k = either-Keeps o (Saved o) save b m n h k

  mark_jar_as_deleted-Free :
      (now : Time) (ref : PluginRef) (server : PaperMcServer)
      → Free (mark_jar_as_deleted o now ref server)
  unfolding mark_jar_as_deleted update_marked
  mark_jar_as_deleted-Free now ref server =
      seq-Free _ _ (any_call (get_plugin ref) call_failed)
        (λ _. seq-Free _ _ (reading-Free _) (λ entries. update_marked-Free entries))
    where
      update_marked-Free :
          (entries : Option (List DeletionProgressEntry)) → Free (update_marked o entries)
      update_marked-Free none = (λ log p. p)
      update_marked-Free (some entries) = any_call (update_plugin_status entries) call_failed

  delete_plugin_jar-Free :
      (now : Time) (server : PaperMcServer) (plugin : ServerPluginStatus)
      → Free (delete_plugin_jar o now server plugin)
  unfolding delete_plugin_jar
  delete_plugin_jar-Free now server plugin =
      either-Free (is_empty plugin.installed_jar_name) _ _
        (mark_jar_as_deleted-Free now plugin.plugin_ref server)
        (seq-Free _ _ (any_call _ call_failed)
          (λ _. mark_jar_as_deleted-Free now plugin.plugin_ref server))

  delete_each-Free :
      (now : Time) (server : PaperMcServer) (plugins : List ServerPluginStatus)
      → Free (delete_each o now server plugins)
  unfolding delete_each
  delete_each-Free now server [] = (λ log p. p)
  delete_each-Free now server (plugin ∷ plugins) =
      seq-Free _ _ (attempted-Free _ (delete_plugin_jar-Free now server plugin))
        (λ deleted. seq-Free _ _ (delete_each-Free now server plugins) (λ failures. λ log p. p))

  pub delete_marked_plugins-Free :
      (now : Time) (server : PaperMcServer) → Free (delete_marked_plugins o now server)
  unfolding delete_marked_plugins
  delete_marked_plugins-Free now server =
      seq-Free _ _ (delete_each-Free now server _)
        (λ failures. either-Free (eqb failures 0) _ _ (λ log p. p) (λ log p. p))

  verify_plugin_checksum-Free :
      (path expected : Bytes) → Free (verify_plugin_checksum o path expected)
  unfolding verify_plugin_checksum
  verify_plugin_checksum-Free path expected = seq-Free _ _ (any_call _ call_failed) (λ _.
      seq-Free _ _ (reading-Free _) (λ actual.
        either-Free (actual == to_lower expected) _ _ (λ log p. p)
          (seq-Free _ _ (attempted-Free _ (any_call _ call_failed)) (λ _. λ log p. p))))

  download_plugin_to_server-Free :
      (plugin_name url expected : Bytes)
      → Free (download_plugin_to_server o plugin_name url expected)
  unfolding download_plugin_to_server
  download_plugin_to_server-Free plugin_name url expected =
      seq-Free _ _ (any_call _ call_failed) (λ _. seq-Free _ _ (any_call _ call_failed) (λ _.
        either-Free (is_empty expected) _ _ (λ log p. p) (verify_plugin_checksum-Free _ expected)))

  update_one-Free :
      (valid : Bytes → Bool) (status : ServerPluginStatus) (d : Option (Bytes × Bytes))
      → Free (update_one o valid status d)
  unfolding update_one
  update_one-Free valid status none = (λ log p. p)
  update_one-Free valid status (some (url, hash)) =
      either-Free (valid url) _ _
        (seq-Free _ _ (attempted-Free _ (download_plugin_to_server-Free _ url hash))
          (λ done. λ log p. p))
        (λ log p. p)

  update_each-Free :
      (valid : Bytes → Bool) (plugins : List Plugin) (statuses : List ServerPluginStatus)
      → Free (update_each o valid plugins statuses)
  unfolding update_each
  update_each-Free valid plugins [] = (λ log p. p)
  update_each-Free valid plugins (status ∷ statuses) =
      seq-Free _ _ (update_one-Free valid status _)
        (λ one. seq-Free _ _ (update_each-Free valid plugins statuses) (λ rest. λ log p. p))

  pub apply_plugin_updates-Free :
      (valid : Bytes → Bool) (server : PaperMcServer) → Free (apply_plugin_updates o valid server)
  unfolding apply_plugin_updates
  apply_plugin_updates-Free valid server = seq-Free _ _ (any_call list_plugins call_failed) (λ _.
      seq-Free _ _ (reading-Free _) (λ found.
        seq-Free _ _ (update_each-Free valid found _)
          (λ updated. either-Free (eqb updated.1 0) _ _ (λ log p. p) (λ log p. p))))
