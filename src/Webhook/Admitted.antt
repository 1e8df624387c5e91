-- ===== src/Webhook/Admitted.antt =====
-- A strategy that is admitted can be resolved.
use minecraft_operator.Webhook.{not_supported, FieldError, require, validate_server_strategy}
use minecraft_operator.Server.{
  answered, version_required, invalid_strategy_name, Catalogue, SetCondition, Resolving,
}
use minecraft_operator.Server.Resolution.{
  resolve_desired_paper_version, resolve_latest_version, resolve_auto_version,
  resolve_version_only_mode, resolve_pinned_version_build, pinned_build,
}
use minecraft_operator.Solver.{
  SolverError, update_strategy_latest, update_strategy_auto, update_strategy_pin,
  update_strategy_build_pin,
}
use minecraft_operator.Version.SemanticVersion.{Semver}
use minecraft_operator.Effects.{is_some}
use minecraft_operator.Clock.{Time}
use minecraft_operator.Api.{PaperMcServer, Plugin}
use minecraft_operator.Prelude.{
  ℕ, Bool, true, false, not, ◌||◌, List, [], ◌∷◌, ◌++◌, Option, none, some, if◌then◌else◌, is_empty,
  ◌≡◌, ◌⊎◌, err, refl, inl, inr,
}
use minecraft_operator.Prelude.Bytes.{Bytes, bytes, ◌==◌}

module _ {V : Type 0} (sv : Semver V) (set_condition : SetCondition) (cat : Catalogue)
    (message : SolverError → Bytes) (now : Time) where
  -- For a server whose strategy the webhook admits, the resolution is one of the four that there are, with
  -- the version and the build that it needs: no resolution fails for a missing field or an unknown strategy.
  pub admitted_strategy_resolves :
      (server : PaperMcServer) (plugins : List Plugin)
      → validate_server_strategy server ≡ []
      → let resolution =
          resolve_desired_paper_version sv set_condition cat message now server plugins in
        (resolution ≡ resolve_latest_version sv set_condition cat message now plugins)
        ⊎ (resolution ≡ resolve_auto_version sv set_condition cat message now server plugins)
        ⊎ ((is_empty server.spec.version ≡ false)
            × (resolution
                ≡ resolve_version_only_mode sv set_condition cat message now server.spec.version
                    plugins))
        ⊎ ((is_empty server.spec.version ≡ false)
            × ((build : ℕ) × (server.spec.build ≡ some build)
                × (resolution
                    ≡ resolve_pinned_version_build sv set_condition cat message now
                        server.spec.version build plugins)))
  unfolding validate_server_strategy resolve_desired_paper_version pinned_build
  admitted_strategy_resolves server plugins h =
      go (server.spec.update_strategy == update_strategy_latest)
        (server.spec.update_strategy == update_strategy_auto)
        (server.spec.update_strategy == update_strategy_pin)
        (server.spec.update_strategy == update_strategy_build_pin) (is_empty server.spec.version)
        server.spec.build h
    where
      version : Bytes
      version = server.spec.version

      chosen : Bool → Bool → Bool → Bool → Bool → Option ℕ → Resolving (Bytes × ℕ)
      chosen a b c d e o =
          if a
          then resolve_latest_version sv set_condition cat message now plugins
          else if b
          then resolve_auto_version sv set_condition cat message now server plugins
          else if c
          then (if e
              then answered (err version_required)
              else resolve_version_only_mode sv set_condition cat message now version plugins)
          else if d
          then (if e
              then answered (err version_required)
              else pinned_build sv set_condition cat message now version o plugins)
          else answered (err invalid_strategy_name)

      complaints : Bool → Bool → Bool → Bool → Bool → Option ℕ → List FieldError
      complaints a b c d e o =
          if a || b
          then []
          else if c
          then require (not e) (bytes "version")
          else if d
          then require (not e) (bytes "version") ++ require (is_some o) (bytes "build")
          else not_supported (bytes "updateStrategy") ∷ []

      go :
          (a b c d e : Bool) (o : Option ℕ)
          → complaints a b c d e o ≡ []
          → (chosen a b c d e o ≡ resolve_latest_version sv set_condition cat message now plugins)
            ⊎ (chosen a b c d e o
                ≡ resolve_auto_version sv set_condition cat message now server plugins)
            ⊎ ((e ≡ false)
                × (chosen a b c d e o
                    ≡ resolve_version_only_mode sv set_condition cat message now version plugins))
            ⊎ ((e ≡ false)
                × ((build : ℕ) × (o ≡ some build)
                    × (chosen a b c d e o
                        ≡ resolve_pinned_version_build sv set_condition cat message now version
                            build plugins)))
      go true b c d e o k = inl refl
      go false true c d e o k = inr (inl refl)
      go false false true d false o k = inr (inr (inl (refl, refl)))
      go false false true d true o k = cc
      go false false false true false (some build) k = inr (inr (inr (refl, (build, refl, refl))))
      go false false false true false none k = cc
      go false false false true true o k = cc
      go false false false false e o k = cc
