-- ===== src/Server/Resolution.antt =====
-- resolveDesiredPaperVersion and updateDesiredVersion: the version and build that a server should run.
pub mod Allowed
pub mod Still
pub mod Fallback
use minecraft_operator.Server.{
  invalid_strategy_name, version_required, no_tags, build_required, no_update, or_client_error,
  set_update_blocked, answered, check_candidate, clear_update_blocked, no_image, Resolving,
  client_error, Catalogue, SetCondition, ResolveError, ◌>>=◌,
}
use minecraft_operator.Prelude.{
  ℕ, Bool, true, false, not, ◌||◌, List, [], ◌∷◌, ◌++◌, Option, none, some, if◌then◌else◌, is_empty,
  Result, ok, err,
}
use minecraft_operator.Prelude.Bytes.{◌==◌, decimal, bytes, Bytes}
use minecraft_operator.Version.SemanticVersion.{Semver}
use minecraft_operator.Solver.{
  update_strategy_build_pin, update_strategy_pin, update_strategy_auto, update_strategy_latest,
  SolverError,
}
use minecraft_operator.Clock.{Time}
use minecraft_operator.Api.{PaperMcServer, PaperMcServerStatus, Plugin}
use minecraft_operator.Effects.{is_some}
use minecraft_operator.Server.Available.{find_available_update}
use minecraft_operator.Server.Tags.{find_latest_version_from_tags}

abbrev tag_of : Bytes → ℕ → Bytes
tag_of version build = version ++ bytes "-" ++ decimal build

abbrev or_error : {X : Type 0} → ResolveError → Option X → Result ResolveError X
or_error e none = err e
or_error e (some x) = ok x

abbrev is_there : Option Bool → Bool
is_there none = false
is_there (some b) = b

module _ {V : Type 0} (sv : Semver V) (set_condition : SetCondition) (cat : Catalogue)
    (message : SolverError → Bytes) (now : Time) where
  unfoldable pub clear : Resolving (Unit {0})
  clear = clear_update_blocked sv set_condition cat

  unfoldable pub check : Bytes → List Plugin → Resolving (Unit {0})
  check candidate plugins = check_candidate sv set_condition cat candidate plugins

  unfoldable pub resolve_latest_version : List Plugin → Resolving (Bytes × ℕ)
  unfolding clear check
  resolve_latest_version plugins = do
    tags ← answered (or_client_error cat.list_tags)
    candidate ← answered (or_error no_tags (find_latest_version_from_tags sv tags))
    _ ← check candidate.0 plugins
    _ ← clear
    answered (ok candidate)

  -- Whether the image is in the registry.
  unfoldable pub verified : Bytes → ℕ → Result ResolveError (Unit {0})
  verified version build = elim (cat.image_exists (tag_of version build)) [
    | none ↦ err client_error
    | some exists ↦ if exists then ok tt else err no_image
  ]

  unfoldable pub resolve_auto_version : PaperMcServer → List Plugin → Resolving (Bytes × ℕ)
  unfolding clear check verified
  resolve_auto_version server plugins = do
    found ← find_available_update sv set_condition cat message now server plugins
    update ← answered (or_error no_update found)
    _ ← check update.version plugins
    _ ← answered (verified update.version update.build)
    _ ← clear
    answered (ok (update.version, update.build))

  -- Of the builds, in ascending order, the last one with an image. A failed question counts as no.
  unfoldable pub newest_existing : Bytes → List ℕ → Option ℕ
  newest_existing version [] = none
  newest_existing version (build ∷ builds) =
      let later = newest_existing version builds in
      if is_some later
      then later
      else if is_there (cat.image_exists (tag_of version build))
      then some build
      else none

  unfoldable pub resolve_version_only_mode : Bytes → List Plugin → Resolving (Bytes × ℕ)
  unfolding clear check
  resolve_version_only_mode candidate plugins = do
    _ ← check candidate plugins
    builds ← answered (or_client_error (cat.get_builds candidate))
    build ← answered (or_error no_image (newest_existing candidate builds))
    _ ← clear
    answered (ok (candidate, build))

  -- An image that is known not to exist blocks the update; a failed question does not.
  unfoldable pub verify_pinned : Bytes → ℕ → Option Bool → Resolving (Unit {0})
  verify_pinned version build none status = (err client_error, status)
  verify_pinned version build (some true) status = (ok tt, status)
  verify_pinned version build (some false) status = (
    err no_image,
    set_update_blocked sv set_condition cat
        (bytes "Image docker.io/lexfrei/papermc:"
          ++ tag_of version build
          ++ bytes " does not exist")
        none status,
  )

  -- The build is a number already: printing it and reading it again gives it back.
  unfoldable pub resolve_pinned_version_build : Bytes → ℕ → List Plugin → Resolving (Bytes × ℕ)
  unfolding clear check verify_pinned
  resolve_pinned_version_build candidate build plugins = do
    _ ← check candidate plugins
    _ ← verify_pinned candidate build (cat.image_exists (tag_of candidate build))
    _ ← clear
    answered (ok (candidate, build))

  unfoldable pub pinned_build : Bytes → Option ℕ → List Plugin → Resolving (Bytes × ℕ)
  unfolding clear check verify_pinned
  pinned_build version none plugins = answered (err build_required)
  pinned_build version (some build) plugins = resolve_pinned_version_build version build plugins

  unfoldable pub resolve_desired_paper_version : PaperMcServer → List Plugin → Resolving (Bytes × ℕ)
  unfolding pinned_build
  resolve_desired_paper_version server plugins =
      let strategy = server.spec.update_strategy in
      let version = server.spec.version in
      if strategy == update_strategy_latest
      then resolve_latest_version plugins
      else if strategy == update_strategy_auto
      then resolve_auto_version server plugins
      else if strategy == update_strategy_pin
      then (if is_empty version
          then answered (err version_required)
          else resolve_version_only_mode version plugins)
      else if strategy == update_strategy_build_pin
      then (if is_empty version
          then answered (err version_required)
          else pinned_build version server.spec.build plugins)
      else answered (err invalid_strategy_name)

  -- What is stored: the version resolved, or on an error the one desired before, if there is any.
  unfoldable pub store_desired :
      Result ResolveError (Bytes × ℕ) × PaperMcServerStatus
      → Result ResolveError (Unit {0}) × PaperMcServerStatus
  store_desired (ok (version, build), status) =
      (ok tt, record status { desired_version = version; desired_build = build })
  store_desired (err e, status) = (if is_empty status.desired_version then err e else ok tt, status)

  -- `updateDesiredVersion`, from the server as it was read.
  unfoldable pub update_desired_version :
      PaperMcServer → List Plugin → Result ResolveError (Unit {0}) × PaperMcServerStatus
  unfolding store_desired
  update_desired_version server plugins =
      store_desired (resolve_desired_paper_version server plugins server.status)
