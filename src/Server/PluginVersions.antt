-- ===== src/Server/PluginVersions.antt =====
-- resolvePluginVersionForServer and buildPluginStatus: the plugins of one server.
pub mod Listed
use minecraft_operator.Prelude.{
  ◌++◌, false, not, List, [], ◌∷◌, Option, none, some, if◌then◌else◌, is_empty, any, map, Result,
  ok, err,
}
use minecraft_operator.Solver.{
  find_best_plugin_version, or_latest, is_pinning, PluginVersion, SolverError,
}
use minecraft_operator.Clock.{Duration, Time}
use minecraft_operator.Api.{PaperMcServer, Plugin, ServerPluginStatus, PluginRef, PluginVersionInfo}
use minecraft_operator.Version.{filter_by_update_delay, VersionInfo}
use minecraft_operator.Version.SemanticVersion.{Semver}
use minecraft_operator.Prelude.Bytes.{bytes, ◌==◌, Bytes}
use minecraft_operator.Effects.{is_some}

pub data PluginError : Type 0 where
  pinned_not_set pinned_not_found : Bytes → PluginError
  all_too_recent no_answer : PluginError
  no_solution : SolverError → PluginError

abbrev pub to_plugin_version : PluginVersionInfo → PluginVersion
to_plugin_version v = record {
  version = v.version;
  release_date = v.released_at;
  paper_versions = [];
  minecraft_versions = v.minecraft_versions;
  download_url = v.download_url;
  hash = v.hash;
}

abbrev to_version_info : PluginVersion → VersionInfo
to_version_info v = record { version = v.version; release_date = v.release_date }

-- The first of the versions that bears the given one's text.
unfoldable pub first_named : Bytes → List PluginVersion → List PluginVersion
first_named name [] = []
first_named name (v ∷ vs) =
    let rest = first_named name vs in if v.version == name then v ∷ [] else rest

-- The versions that a filtered list names, converted back.
unfoldable pub converted_back : List VersionInfo → List PluginVersion → List PluginVersion
converted_back [] all_versions = []
converted_back (f ∷ fs) all_versions =
    first_named f.version all_versions ++ converted_back fs all_versions

unfoldable pub delayed : Time → Option Duration → List PluginVersion → List PluginVersion
delayed now none versions = versions
delayed now (some delay) versions =
    converted_back (filter_by_update_delay now (map to_version_info versions) delay) versions

unfoldable pub solved : Result SolverError Bytes → Result PluginError Bytes
solved (err e) = err (no_solution e)
solved (ok v) = if is_empty v then err no_answer else ok v

abbrev pub ref_of : Plugin → PluginRef
ref_of plugin = record { name = plugin.name; namespace = plugin.namespace }

abbrev pub status_key : PluginRef → Bytes
status_key ref = ref.namespace ++ bytes "/" ++ ref.name

module _ {V : Type 0} (sv : Semver V) (now : Time) where
  unfoldable pub resolve_plugin_version_for_server :
      PaperMcServer → Plugin → Result PluginError Bytes
  unfolding delayed solved is_pinning
  resolve_plugin_version_for_server server plugin =
      let all_versions = map to_plugin_version plugin.status.available_versions in
      let filtered = delayed now plugin.spec.update_delay all_versions in
      let pinned = plugin.spec.version in
      if is_empty plugin.status.available_versions
      then ok []
      else if is_pinning plugin.spec.update_strategy
      then (if is_empty pinned
          then err (pinned_not_set (or_latest plugin.spec.update_strategy))
          else if any (λ v. v.version == pinned) all_versions
          then ok pinned
          else err (pinned_not_found pinned))
      else if is_empty filtered
      then err all_too_recent
      else solved (find_best_plugin_version sv now plugin (server ∷ []) filtered)

  abbrev or_none : Result PluginError Bytes → Bytes
  or_none (ok v) = v
  or_none (err e) = []

  -- A new entry, with the version that the server should run.
  unfoldable pub resolved_status : PaperMcServer → Plugin → ServerPluginStatus
  resolved_status server plugin =
      let resolved = or_none (resolve_plugin_version_for_server server plugin) in
      record {
        plugin_ref = ref_of plugin;
        resolved_version = resolved;
        current_version = [];
        desired_version = resolved;
        compatible = not (is_empty resolved);
        source = plugin.spec.source.source_type;
        pending_deletion = false;
        installed_jar_name = [];
      }

  -- The entry before, of two for one plugin the later one.
  unfoldable pub previous_entry : Bytes → List ServerPluginStatus → Option ServerPluginStatus
  previous_entry key [] = none
  previous_entry key (p ∷ ps) =
      let later = previous_entry key ps in
      if is_some later then later else if status_key p.plugin_ref == key then some p else none

  preserved : Option ServerPluginStatus → ServerPluginStatus → ServerPluginStatus
  preserved none entry = entry
  preserved (some prev) entry = record entry {
    installed_jar_name = prev.installed_jar_name;
    current_version = prev.current_version;
    pending_deletion = prev.pending_deletion;
  }

  unfoldable pub build_plugin_status : PaperMcServer → List Plugin → List ServerPluginStatus
  unfolding preserved
  build_plugin_status server plugins =
      map
        (λ plugin.
          preserved (previous_entry (status_key (ref_of plugin)) server.status.plugins)
            (resolved_status server plugin))
        plugins
