-- ===== src/Server/Available.antt =====
-- findAvailableUpdate: the update that a server could take, and the plugins' versions for it.
use minecraft_operator.Server.{
  invalid_strategy_name, client_error, or_client_error, solver_failed, ResolveError, answered,
  Resolving, Catalogue, first_version, SetCondition, ◌>>=◌,
}
use minecraft_operator.Prelude.{
  leb, keep, ◌++◌, ℕ, not, ◌||◌, List, [], ◌∷◌, Option, none, some, if◌then◌else◌, is_empty, map,
  Result, ok, err,
}
use minecraft_operator.Api.{
  condition_true, AvailableUpdate, PluginVersionPair, condition_false, Plugin, Condition,
  ConditionStatus, PaperMcServer, PluginVersionInfo,
}
use minecraft_operator.Version.SemanticVersion.{Semver}
use minecraft_operator.Prelude.Bytes.{◌==◌, bytes, Bytes}
use minecraft_operator.Solver.{
  find_best_plugin_version, update_strategy_build_pin, find_best_paper_version, update_strategy_pin,
  update_strategy_auto, update_strategy_latest, SolverError,
}
use minecraft_operator.Clock.{Time}
use minecraft_operator.Server.PluginVersions.{to_plugin_version, ref_of}

abbrev pub solver_condition : ConditionStatus → Bytes → Bytes → Condition
solver_condition s reason message = record {
  kind = bytes "SolverRunning";
  status = s;
  reason = reason;
  message = message;
}

-- The server of the solver's question: of its fields the solver reads the current version alone.
abbrev temp_server : PaperMcServer → Bytes → PaperMcServer
temp_server server candidate = record server {
  spec = record (server.spec) { version = [] };
  status = record (server.status) { current_version = candidate };
}

abbrev or_first : List PluginVersionInfo → Result SolverError Bytes → Bytes
or_first infos (ok v) = v
or_first infos (err e) = first_version infos

-- The text of a solver's error, which stands in a condition's message.
module _ {V : Type 0} (sv : Semver V) (set_condition : SetCondition) (cat : Catalogue)
    (message : SolverError → Bytes) (now : Time) where
  build_plugin_version_pair : PaperMcServer → Bytes → Plugin → PluginVersionPair
  build_plugin_version_pair server candidate plugin = record {
    plugin_ref = ref_of plugin;
    version = or_first plugin.status.available_versions (
        find_best_plugin_version sv now plugin (temp_server server candidate ∷ [])
          (map to_plugin_version plugin.status.available_versions));
  }

  unfoldable pub build_plugin_version_pairs :
      PaperMcServer → Bytes → List Plugin → List PluginVersionPair
  unfolding build_plugin_version_pair
  build_plugin_version_pairs server candidate plugins =
      map (build_plugin_version_pair server candidate)
        (keep (λ plugin. not (is_empty plugin.status.available_versions)) plugins)

  abbrev update_to : PaperMcServer → List Plugin → Bytes → ℕ → AvailableUpdate
  update_to server plugins version build = record {
    version = version;
    build = build;
    released_at = now;
    plugins = build_plugin_version_pairs server version plugins;
    found_at = now;
  }

  unfoldable pub note : Condition → Resolving (Unit {0})
  note c status = (ok tt, record status { conditions = set_condition c status.conditions })

  unfoldable pub run_solver : Result SolverError Bytes → Resolving Bytes
  unfolding note
  run_solver (err e) =
      note (
        solver_condition condition_false (bytes "SolverFailed")
          (bytes "Solver failed: " ++ message e))
      >>= λ _. answered (err (solver_failed e))
  run_solver (ok v) =
      note (
        solver_condition condition_false (bytes "SolverCompleted")
          (bytes "Version resolved successfully"))
      >>= λ _. answered (ok v)

  -- The update for the best version, unless it is the current one.
  unfoldable pub update_for :
      PaperMcServer → List Plugin → Bytes → Resolving (Option AvailableUpdate)
  update_for server plugins best status =
      let found : Result ResolveError (Option AvailableUpdate) = elim (cat.get_paper_build best) [
        | none ↦ err client_error
        | some build ↦ ok (some (update_to server plugins best build))
      ] in
      answered (if best == status.current_version || is_empty best then ok none else found) status

  unfoldable pub find_version_update :
      PaperMcServer → List Plugin → Resolving (Option AvailableUpdate)
  unfolding note run_solver update_for
  find_version_update server plugins = do
    versions ← answered (or_client_error cat.get_paper_versions)
    _ ← note (
        solver_condition condition_true (bytes "SolverStarted")
          (bytes "Resolving optimal Paper version"))
    best ← run_solver (find_best_paper_version sv server plugins versions)
    update_for server plugins best

  unfoldable pub find_build_update :
      PaperMcServer → List Plugin → Resolving (Option AvailableUpdate)
  find_build_update server plugins = do
    build ← answered (or_client_error (cat.get_paper_build server.spec.version))
    λ status.
        answered
          (ok (
            if leb build status.current_build
            then none
            else some (update_to server plugins server.spec.version build)))
          status

  unfoldable pub find_available_update :
      PaperMcServer → List Plugin → Resolving (Option AvailableUpdate)
  find_available_update server plugins =
      let strategy = server.spec.update_strategy in
      if strategy == update_strategy_latest || strategy == update_strategy_auto
      then find_version_update server plugins
      else if strategy == update_strategy_pin
      then find_build_update server plugins
      else if strategy == update_strategy_build_pin
      then answered (ok none)
      else answered (err invalid_strategy_name)
