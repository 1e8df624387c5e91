-- ===== src/Server.antt =====
-- internal/controller/papermcserver_controller.go: the version that a server should run. The registry and
-- the Paper API are a `Catalogue`; `meta.SetStatusCondition` is a parameter.
pub mod Steps
pub mod Tags
pub mod PluginVersions
pub mod Available
pub mod Resolution
pub mod Image
pub mod Equality
use minecraft_operator.Prelude.{
  ℕ, Bool, true, false, not, ◌&&◌, ◌||◌, List, [], ◌∷◌, ◌++◌, Option, none, some, if◌then◌else◌,
  is_empty, any, Result, ok, err,
}
use minecraft_operator.Api.{
  condition_false, condition_true, BlockedByInfo, Condition, PaperMcServerStatus, Plugin,
  PluginVersionInfo,
}
use minecraft_operator.Version.{latest, contains_version, is_downgrade, VersionError}
use minecraft_operator.Prelude.Bytes.{◌==◌, bytes, Bytes}
use minecraft_operator.Version.SemanticVersion.{Semver}
use minecraft_operator.Solver.{SolverError, enabled_override}
use minecraft_operator.Effects.{is_some}

-- What the clients of Docker Hub and of the Paper API answer, `none` for an error: the tags, whether an
-- image of that tag exists, the builds of a version in ascending order, all versions, and the newest build.
pub record Catalogue : Type 0 where
  pub list_tags : Option (List Bytes)
  pub image_exists : Bytes → Option Bool
  pub get_builds : Bytes → Option (List ℕ)
  pub get_paper_versions : Option (List Bytes)
  pub get_paper_build : Bytes → Option ℕ

pub data ResolveError : Type 0 where
  version_required build_required invalid_strategy_name : ResolveError
  downgrade_prevented blocked_by_plugin no_update no_tags : ResolveError
  client_error no_image : ResolveError
  compare_failed : VersionError → ResolveError
  solver_failed : SolverError → ResolveError

-- A step on the server's status, which it may change whether it fails or not.
abbrev pub Resolving : Type 0 → Type 0
Resolving X = PaperMcServerStatus → Result ResolveError X × PaperMcServerStatus

unfoldable pub step_on :
    {X Y : Type 0}
    → (X → Resolving Y)
    → Result ResolveError X × PaperMcServerStatus
    → Result ResolveError Y × PaperMcServerStatus
step_on k (ok x, status) = k x status
step_on k (err e, status) = (err e, status)

infixl 10 ◌>>=◌
unfoldable pub ◌>>=◌ : {X Y : Type 0} → Resolving X → (X → Resolving Y) → Resolving Y
unfolding step_on
(m >>= k) status = step_on k (m status)

-- An answer of a client or of the solver.
unfoldable pub answered : {X : Type 0} → Result ResolveError X → Resolving X
answered r status = (r, status)

abbrev pub or_client_error : {X : Type 0} → Option X → Result ResolveError X
or_client_error none = err client_error
or_client_error (some x) = ok x

abbrev overridden : Plugin → Bool
overridden plugin = is_some (enabled_override plugin.spec.compatibility_override)

-- `isPluginCompatibleWithPaper`.
unfoldable pub is_plugin_compatible_with_paper : Plugin → Bytes → Bool
is_plugin_compatible_with_paper plugin candidate =
    elim (enabled_override plugin.spec.compatibility_override) [
      | some versions ↦
          if not (is_empty versions) then contains_version versions candidate else true
      | none ↦
          any (λ ver. contains_version ver.minecraft_versions candidate)
            plugin.status.available_versions
    ]

-- One plugin of the loop of `checkPluginCompatibility`.
unfoldable pub admits : Bytes → Plugin → Bool
admits candidate plugin =
    (is_empty plugin.status.available_versions && not (overridden plugin))
    || is_plugin_compatible_with_paper plugin candidate

-- The first plugin that blocks the candidate, with the reason; `none` if none does.
unfoldable pub check_plugin_compatibility : Bytes → List Plugin → Option (Bytes × Bytes)
check_plugin_compatibility candidate [] = none
check_plugin_compatibility candidate (plugin ∷ plugins) =
    let rest = check_plugin_compatibility candidate plugins in
    if admits candidate plugin
    then rest
    else some (
      plugin.name,
      bytes "Plugin '" ++ plugin.name ++ bytes "' is incompatible with Paper " ++ candidate,
    )

abbrev first_version : List PluginVersionInfo → Bytes
first_version [] = bytes "unknown"
first_version (info ∷ infos) = info.version

-- The details of the blocking plugin: the first one of that name.
unfoldable pub blocked_by_info : Bytes → List Plugin → Option BlockedByInfo
blocked_by_info name [] = none
blocked_by_info name (plugin ∷ plugins) =
    let rest = blocked_by_info name plugins in
    if plugin.name == name
    then some (record { plugin = name; version = first_version plugin.status.available_versions })
    else rest

abbrev pub SetCondition : Type 0
SetCondition = Condition → List Condition → List Condition

module _ {V : Type 0} (sv : Semver V) (set_condition : SetCondition) (cat : Catalogue) where
  unfoldable pub set_update_blocked :
      Bytes → Option BlockedByInfo → PaperMcServerStatus → PaperMcServerStatus
  set_update_blocked reason by status = record status {
    update_blocked = some (record { blocked = true; reason = reason; blocked_by = by });
    conditions =
        set_condition
          (record {
            kind = bytes "UpdateBlocked";
            status = condition_true;
            reason = bytes "UpdateBlocked";
            message = reason;
          })
          status.conditions;
  }

  unfoldable pub clear_update_blocked : Resolving (Unit {0})
  clear_update_blocked status = (
    ok tt,
    record status {
      update_blocked = none;
      conditions =
          set_condition
            (record {
              kind = bytes "UpdateBlocked";
              status = condition_false;
              reason = bytes "UpdateUnblocked";
              message = bytes "No compatibility issues preventing update";
            })
            status.conditions;
    },
  )

  downgrade_verdict : Bytes → Result VersionError Bool → Resolving (Unit {0})
  unfolding set_update_blocked
  downgrade_verdict candidate (err e) status = (err (compare_failed e), status)
  downgrade_verdict candidate (ok false) status = (ok tt, status)
  downgrade_verdict candidate (ok true) status = (
    err downgrade_prevented,
    set_update_blocked
        (bytes "Downgrade not allowed: current="
          ++ status.current_version
          ++ bytes ", candidate="
          ++ candidate)
        none status,
  )

  unfoldable pub check_downgrade : Bytes → Resolving (Unit {0})
  unfolding downgrade_verdict
  check_downgrade candidate status =
      let checked =
        downgrade_verdict candidate (is_downgrade sv status.current_version candidate) status in
      if is_empty status.current_version || status.current_version == latest
      then (ok tt, status)
      else checked

  compatibility_verdict : List Plugin → Option (Bytes × Bytes) → Resolving (Unit {0})
  unfolding set_update_blocked
  compatibility_verdict plugins none status = (ok tt, status)
  compatibility_verdict plugins (some (name, reason)) status =
      (err blocked_by_plugin, set_update_blocked reason (blocked_by_info name plugins) status)

  unfoldable pub check_compatibility : Bytes → List Plugin → Resolving (Unit {0})
  unfolding compatibility_verdict
  check_compatibility candidate plugins =
      compatibility_verdict plugins (check_plugin_compatibility candidate plugins)

  -- The two checks, which stand in front of every resolution.
  unfoldable pub check_candidate : Bytes → List Plugin → Resolving (Unit {0})
  check_candidate candidate plugins =
      check_downgrade candidate >>= λ _. check_compatibility candidate plugins
