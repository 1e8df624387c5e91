-- ===== src/Update/Flow/Downloads.antt =====
-- The plugins in the pod: deleteMarkedPlugins, deletePluginJAR, markJARAsDeleted, applyPluginUpdates,
-- downloadPluginToServer and verifyPluginChecksum. `ValidateDownloadURL` is an argument here.
pub mod Checksum
use minecraft_operator.Effects.{
  reading, is_some, checksum_mismatch, downloads_failed, call_failed, deletions_failed, attempted,
  exec_in_pod, fail, get_plugin, list_plugins, update_plugin_status, attempt, return, Script,
  Outside, ◌>>=◌,
}
use minecraft_operator.Prelude.{
  ◌+◌, is_empty, ◌&&◌, ◌||◌, Option, eqb, map, ◌++◌, ℕ, none, some, ok, Bool, true, false, List, [],
  ◌∷◌, if◌then◌else◌, leb, ltb,
}
use minecraft_operator.Api.{
  PluginRef, DeletionProgressEntry, PluginVersionInfo, ServerPluginStatus, PaperMcServer, Plugin,
}
use minecraft_operator.Clock.{Time}
use minecraft_operator.Prelude.Bytes.{decimal, bytes, ◌==◌, Bytes}
use minecraft_operator.Update.Outcome.{get_plugins_to_delete}

abbrev pub pod_name : PaperMcServer → Bytes
pod_name server = server.name ++ bytes "-0"

-- The first entry for the server is marked; `none` if there is none.
with_entry :
    DeletionProgressEntry
    → Option (List DeletionProgressEntry)
    → Option (List DeletionProgressEntry)
with_entry entry none = none
with_entry entry (some entries) = some (entry ∷ entries)

unfoldable pub mark_entry :
    Time → Bytes → Bytes → List DeletionProgressEntry → Option (List DeletionProgressEntry)
unfolding with_entry
mark_entry now server namespace [] = none
mark_entry now server namespace (entry ∷ entries) =
    let rest = mark_entry now server namespace entries in
    if entry.server_name == server && entry.namespace == namespace
    then some (record entry { jar_deleted = true; deleted_at = some now } ∷ entries)
    else with_entry entry rest

unfoldable pub update_marked : Outside → Option (List DeletionProgressEntry) → Script (Unit {0})
update_marked o none = return tt
update_marked o (some entries) = attempt o (update_plugin_status entries) call_failed

unfoldable pub mark_jar_as_deleted : Outside → Time → PluginRef → PaperMcServer → Script (Unit {0})
unfolding update_marked
mark_jar_as_deleted o now ref server = do
  _ ← attempt o (get_plugin ref) call_failed
  entries ←
      reading (λ log. ok (mark_entry now server.name server.namespace (o.deletion_progress log)))
  update_marked o entries

unfoldable pub delete_plugin_jar :
    Outside → Time → PaperMcServer → ServerPluginStatus → Script (Unit {0})
delete_plugin_jar o now server plugin =
    let jar = plugin.installed_jar_name in
    if is_empty jar
    then mark_jar_as_deleted o now plugin.plugin_ref server
    else (attempt o
          (exec_in_pod (
            bytes "rm"
            ∷ bytes "--force"
            ∷ (bytes "/data/plugins/" ++ jar)
            ∷ (bytes "/data/plugins/update/" ++ jar)
            ∷ []))
          call_failed
        >>= λ _. mark_jar_as_deleted o now plugin.plugin_ref server)

-- Each plugin is tried; the number of failures is the result.
unfoldable pub delete_each : Outside → Time → PaperMcServer → List ServerPluginStatus → Script ℕ
delete_each o now server [] = return 0
delete_each o now server (plugin ∷ plugins) = do
  deleted ← attempted (delete_plugin_jar o now server plugin)
  failures ← delete_each o now server plugins
  return (if is_some deleted then failures else failures + 1)

unfoldable pub delete_marked_plugins : Outside → Time → PaperMcServer → Script (Unit {0})
unfolding delete_each
delete_marked_plugins o now server = do
  failures ← delete_each o now server (get_plugins_to_delete server.status)
  (if eqb failures 0 then return tt else fail (deletions_failed failures))

-- strings.ToLower and strings.TrimSpace, on the ASCII that sha256sum prints.
abbrev pub to_lower : Bytes → Bytes
to_lower s = map (λ c. if leb b'A' c && leb c b'Z' then c + 32 else c) s

is_space : ℕ → Bool
is_space c = eqb c 32 || leb 9 c && leb c 13

unfoldable pub trim_left : Bytes → Bytes
unfolding is_space
trim_left [] = []
trim_left (c ∷ s) = let rest = trim_left s in if is_space c then rest else c ∷ s

unfoldable pub trim_right : Bytes → Bytes
unfolding is_space
trim_right [] = []
trim_right (c ∷ s) = let rest = trim_right s in if is_space c && is_empty rest then [] else c ∷ rest

-- The part in front of the first space; a trimmed text does not begin with one.
unfoldable pub before_space : Bytes → Bytes
before_space [] = []
before_space (c ∷ s) = let rest = before_space s in if eqb c 32 then [] else c ∷ rest

-- The hash that `verifyPluginChecksum` takes from the output.
abbrev pub hash_of : Bytes → Bytes
hash_of output = before_space (to_lower (trim_right (trim_left output)))

unfoldable pub verify_plugin_checksum : Outside → Bytes → Bytes → Script (Unit {0})
verify_plugin_checksum o path expected = do
  _ ← attempt o (exec_in_pod (bytes "sha256sum" ∷ path ∷ [])) call_failed
  actual ← reading (λ log. ok (hash_of (o.output log)))
  (if actual == to_lower expected
      then return tt
      else (attempted
            (attempt o (exec_in_pod (bytes "rm" ∷ bytes "--force" ∷ path ∷ [])) call_failed)
          >>= λ _. fail (checksum_mismatch expected actual)))

abbrev max_redirects : ℕ
max_redirects = 10

abbrev max_jar_size : ℕ
max_jar_size = 104857600

-- The arguments of curl in front of the file.
abbrev curl_limits : List Bytes
curl_limits =
    bytes "--fail"
    ∷ bytes "--silent"
    ∷ bytes "--show-error"
    ∷ bytes "--location"
    ∷ bytes "--proto"
    ∷ bytes "=https"
    ∷ bytes "--max-redirs"
    ∷ decimal max_redirects
    ∷ bytes "--max-filesize"
    ∷ decimal max_jar_size
    ∷ bytes "--connect-timeout"
    ∷ bytes "30"
    ∷ bytes "--max-time"
    ∷ bytes "300"
    ∷ bytes "--user-agent"
    ∷ bytes "minecraft-operator"
    ∷ []

unfoldable pub download_plugin_to_server : Outside → Bytes → Bytes → Bytes → Script (Unit {0})
download_plugin_to_server o plugin_name url expected_hash =
    let path = bytes "/data/plugins/update/" ++ plugin_name ++ bytes ".jar" in
    (do
      _ ←
          attempt o (exec_in_pod (bytes "mkdir" ∷ bytes "-p" ∷ bytes "/data/plugins/update" ∷ []))
            call_failed
      _ ←
          attempt o
            (exec_in_pod
              (bytes "curl" ∷ curl_limits ++ bytes "--output" ∷ path ∷ bytes "--" ∷ url ∷ []))
            call_failed
      (if is_empty expected_hash then return tt else verify_plugin_checksum o path expected_hash))

-- The map from names to plugins: of two with one name the later one stays.
unfoldable pub find_plugin : Bytes → List Plugin → Option Plugin
find_plugin name [] = none
find_plugin name (p ∷ ps) =
    let later = find_plugin name ps in
    if is_some later then later else if p.name == name then some p else none

unfoldable pub find_version : Bytes → List PluginVersionInfo → Bytes × Bytes
find_version version [] = ([], [])
find_version version (v ∷ vs) =
    let rest = find_version version vs in
    if v.version == version then (v.download_url, v.hash) else rest

-- The address and the hash to download for one entry; `none` where the loop passes it over.
abbrev download_of : ServerPluginStatus → Option Plugin → Option (Bytes × Bytes)
download_of status none = none
download_of status (some plugin) =
    let (url, hash) = find_version status.resolved_version plugin.status.available_versions in
    if is_empty status.resolved_version
      || status.current_version == status.resolved_version
      || is_empty url
    then none
    else some (url, hash)

unfoldable pub download_for : List Plugin → ServerPluginStatus → Option (Bytes × Bytes)
unfolding find_plugin find_version
download_for plugins status = download_of status (find_plugin status.plugin_ref.name plugins)

-- One round of the loop: the entry as it leaves it, and whether the round added an error.
unfoldable pub update_one :
    Outside
    → (Bytes → Bool)
    → ServerPluginStatus
    → Option (Bytes × Bytes)
    → Script (ServerPluginStatus × Bool)
update_one o valid status none = return (status, false)
update_one o valid status (some (url, hash)) =
    if valid url
    then (do
      done ← attempted (download_plugin_to_server o status.plugin_ref.name url hash)
      return (
          if is_some done
          then (
            record status { installed_jar_name = status.plugin_ref.name ++ bytes ".jar" },
            false,
          )
          else (status, true)))
    else return (status, true)

unfoldable pub update_each :
    Outside
    → (Bytes → Bool)
    → List Plugin
    → List ServerPluginStatus
    → Script (List ServerPluginStatus × ℕ)
unfolding update_one
update_each o valid plugins [] = return ([], 0)
update_each o valid plugins (status ∷ statuses) = do
  one ← update_one o valid status (download_for plugins status)
  rest ← update_each o valid plugins statuses
  return (one.0 ∷ rest.0, if one.1 then rest.1 + 1 else rest.1)

-- The entries that the loop leaves are those of `update_each`; here they are only counted.
unfoldable pub apply_plugin_updates : Outside → (Bytes → Bool) → PaperMcServer → Script (Unit {0})
apply_plugin_updates o valid server = do
  _ ← attempt o list_plugins call_failed
  found ← reading (λ log. ok (o.plugins log))
  updated ← update_each o valid found server.status.plugins
  (if eqb updated.1 0 then return tt else fail (downloads_failed updated.1))
