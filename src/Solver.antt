-- ===== src/Solver.antt =====
-- pkg/solver: the linear search for the best plugin version and the best Paper version. The servers'
-- and plugins' resources are those of `Api`; the logging and the unused context are left out.
pub mod Sort
pub mod PluginSearch
pub mod PaperSearch
use minecraft_operator.Prelude.{
  ℕ, ◌-◌, Bool, true, false, not, ◌&&◌, ◌||◌, List, [], ◌∷◌, Option, none, some, if◌then◌else◌,
  is_empty, length, keep, all, any, map, Result, ok, err, ◌>>=◌,
}
use minecraft_operator.Prelude.Bytes.{Bytes, bytes, ◌==◌}
use minecraft_operator.Prelude.Int.{pos, ◌-ℤ◌}
use minecraft_operator.Clock.{Time, Duration, before, same_time, add_negated}
use minecraft_operator.Version.{contains_version}
use minecraft_operator.Version.SemanticVersion.{Semver}
use minecraft_operator.Api.{Plugin, PaperMcServer, PluginVersionInfo, CompatibilityOverride}
use Sort.{sort_desc}

-- plugins.PluginVersion.
pub record PluginVersion : Type 0 where
  pub version : Bytes
  pub release_date : Time
  pub paper_versions : List Bytes
  pub minecraft_versions : List Bytes
  pub download_url : Bytes
  pub hash : Bytes

pub data SolverError : Type 0 where
  no_versions no_servers none_after_delay none_compatible : SolverError
  no_paper_versions no_paper_compatible : SolverError
  version_not_set invalid_strategy : Bytes → SolverError

abbrev pub update_strategy_latest : Bytes
update_strategy_latest = bytes "latest"

abbrev pub update_strategy_auto : Bytes
update_strategy_auto = bytes "auto"

abbrev pub update_strategy_pin : Bytes
update_strategy_pin = bytes "pin"

abbrev pub update_strategy_build_pin : Bytes
update_strategy_build_pin = bytes "build-pin"

abbrev pub or_latest : Bytes → Bytes
or_latest strategy = if is_empty strategy then update_strategy_latest else strategy

-- The cases of the `switch` in `checkPinnedPluginVersion`, the default strategy filled in.
unfoldable pub is_pinning : Bytes → Bool
is_pinning strategy =
    or_latest strategy == update_strategy_pin
    || or_latest strategy == update_strategy_build_pin
    || or_latest strategy == bytes "pinned"

-- `checkPinnedPluginVersion`: "" if the strategy does not pin, or pins no version.
unfoldable pub check_pinned_plugin_version : Plugin → Bytes
check_pinned_plugin_version plugin =
    if is_pinning plugin.spec.update_strategy then plugin.spec.version else []

-- `filterByDelay`, with the clock read at `now`.
unfoldable pub filter_by_delay : Time → List PluginVersion → Duration → List PluginVersion
filter_by_delay now versions delay =
    if same_time delay (pos 0)
    then versions
    else (let cutoff = add_negated now delay in
        keep (λ v. before v.release_date cutoff || same_time v.release_date cutoff) versions)

abbrev pub delay_or_zero : Option Duration → Duration
delay_or_zero none = pos 0
delay_or_zero (some delay) = delay

abbrev pub enabled_override : Option CompatibilityOverride → Option (List Bytes)
enabled_override none = none
enabled_override (some o) = if o.enabled then some o.minecraft_versions else none

-- `isPluginCompatibleWithServer`.
unfoldable pub is_plugin_compatible_with_server : PluginVersion → PaperMcServer → Plugin → Bool
is_plugin_compatible_with_server pv server plugin =
    let paper_version =
      if is_empty server.status.current_version
      then server.spec.version
      else server.status.current_version in
    elim (enabled_override plugin.spec.compatibility_override) [
      | some versions ↦
          if not (is_empty versions) then contains_version versions paper_version else true
      | none ↦
          if is_empty pv.minecraft_versions && is_empty pv.paper_versions
          then true
          else contains_version pv.minecraft_versions paper_version
            || contains_version pv.paper_versions paper_version
    ]

-- `findCompatiblePluginVersion`: the first version that suits every server.
find_compatible_plugin_version :
    List PluginVersion → List PaperMcServer → Plugin → Result SolverError Bytes
find_compatible_plugin_version [] servers plugin = err none_compatible
find_compatible_plugin_version (pv ∷ pvs) servers plugin =
    let rest = find_compatible_plugin_version pvs servers plugin in
    if all (λ server. is_plugin_compatible_with_server pv server plugin) servers
    then ok pv.version
    else rest

-- `isPaperVersionCompatibleWithAllPlugins`.
unfoldable pub is_paper_version_compatible_with_all_plugins : Bytes → List Plugin → Bool
is_paper_version_compatible_with_all_plugins paper_ver plugins =
    all
      (λ plugin.
        if is_empty plugin.status.available_versions
        then true
        else any (λ info. contains_version info.minecraft_versions paper_ver)
            plugin.status.available_versions)
      plugins

find_compatible_paper_version : List Bytes → List Plugin → Result SolverError Bytes
find_compatible_paper_version [] plugins = err no_paper_compatible
find_compatible_paper_version (v ∷ vs) plugins =
    let rest = find_compatible_paper_version vs plugins in
    if is_paper_version_compatible_with_all_plugins v plugins then ok v else rest

module _ {V : Type 0} (sv : Semver V) where
  unfoldable pub sort_versions_desc : List PluginVersion → List PluginVersion
  sort_versions_desc versions = sort_desc sv (λ v. v.version) versions

  unfoldable pub sort_paper_versions_desc : List Bytes → List Bytes
  sort_paper_versions_desc versions = sort_desc sv (λ v. v) versions

  unfoldable pub filter_and_sort_plugin_versions :
      Time → Plugin → List PluginVersion → Result SolverError (List PluginVersion)
  filter_and_sort_plugin_versions now plugin versions =
      let filtered = filter_by_delay now versions (delay_or_zero plugin.spec.update_delay) in
      if is_empty filtered then err none_after_delay else ok (sort_versions_desc filtered)

  unfoldable pub find_best_plugin_version :
      Time → Plugin → List PaperMcServer → List PluginVersion → Result SolverError Bytes
  unfolding find_compatible_plugin_version
  find_best_plugin_version now plugin servers versions =
      if is_empty versions
      then err no_versions
      else if is_empty servers
      then err no_servers
      else if not (is_empty (check_pinned_plugin_version plugin))
      then ok (check_pinned_plugin_version plugin)
      else (filter_and_sort_plugin_versions now plugin versions >>= λ sorted.
          find_compatible_plugin_version sorted servers plugin)

  -- The `switch` on the strategy, and the search.
  find_paper_by_strategy : Bytes → Bytes → List Plugin → List Bytes → Result SolverError Bytes
  find_paper_by_strategy update_strategy version plugins paper_versions =
      let strategy = or_latest update_strategy in
      if is_empty paper_versions
      then err no_paper_versions
      else if strategy == update_strategy_pin || strategy == update_strategy_build_pin
      then (if is_empty version then err (version_not_set strategy) else ok version)
      else if strategy == update_strategy_auto || strategy == update_strategy_latest
      then find_compatible_paper_version (sort_paper_versions_desc paper_versions) plugins
      else err (invalid_strategy strategy)

  unfoldable pub find_best_paper_version :
      PaperMcServer → List Plugin → List Bytes → Result SolverError Bytes
  unfolding find_paper_by_strategy find_compatible_paper_version
  find_best_paper_version server plugins paper_versions =
      find_paper_by_strategy server.spec.update_strategy server.spec.version plugins paper_versions
