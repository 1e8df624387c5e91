-- ===== src/Server/Resolution/Fallback.antt =====
-- updateDesiredVersion: what is stored, and what happens when nothing can be resolved.
use minecraft_operator.Server.{
  invalid_strategy_name, build_required, set_update_blocked, version_required, ResolveError,
  answered, Catalogue, SetCondition,
}
use minecraft_operator.Server.Steps.{Unmoved, Post}
use minecraft_operator.Prelude.{
  ◌∙◌, List-cases, refl, is_empty, inl, inr, ℕ, Bool, true, false, List, [], ◌≡◌, ◌⊎◌, Result, ok,
  err, Option, none, some,
}
use minecraft_operator.Version.SemanticVersion.{Semver}
use minecraft_operator.Solver.{
  update_strategy_build_pin, update_strategy_pin, update_strategy_auto, update_strategy_latest,
  SolverError,
}
use minecraft_operator.Prelude.Bytes.{◌==◌, Bytes}
use minecraft_operator.Clock.{Time}
use minecraft_operator.Api.{PaperMcServer, Plugin, PaperMcServerStatus}
use minecraft_operator.Server.Resolution.Allowed.{IsAllowed}
use minecraft_operator.Server.Resolution.{
  store_desired, pinned_build, resolve_auto_version, resolve_desired_paper_version,
  resolve_pinned_version_build, resolve_version_only_mode, update_desired_version, verify_pinned,
  check, clear, resolve_latest_version,
}
use minecraft_operator.Server.Resolution.Still.{
  cleared_answer, answered-IsStill, find_available_update-IsStill, then_still, behind, behind_check,
  either-Resolves, IsStill, Resolved, Resolves,
}

module _ {V : Type 0} (sv : Semver V) (set_condition : SetCondition) (cat : Catalogue)
    (message : SolverError → Bytes) (now : Time) where
  module _ (before : PaperMcServerStatus) (plugins : List Plugin) where
    resolve_latest-Resolves :
        Resolves sv set_condition cat message now before plugins
          (resolve_latest_version sv set_condition cat message now plugins)
    unfolding resolve_latest_version clear check
    resolve_latest-Resolves =
        behind sv set_condition cat message now before plugins _ _
          (answered-IsStill sv set_condition cat message now before plugins _)
          (λ tags.
            behind sv set_condition cat message now before plugins _ _
              (answered-IsStill sv set_condition cat message now before plugins _)
              (λ candidate.
                behind_check sv set_condition cat message now before plugins candidate.0 _ (λ _.
                  cleared_answer sv set_condition cat message now before plugins candidate.0
                    candidate.1)))

    resolve_auto-Resolves :
        (server : PaperMcServer)
        → Resolves sv set_condition cat message now before plugins
            (resolve_auto_version sv set_condition cat message now server plugins)
    unfolding resolve_auto_version clear check
    resolve_auto-Resolves server =
        behind sv set_condition cat message now before plugins _ _
          (find_available_update-IsStill sv set_condition cat message now before plugins server)
          (λ found.
            behind sv set_condition cat message now before plugins _ _
              (answered-IsStill sv set_condition cat message now before plugins _)
              (λ update.
                behind_check sv set_condition cat message now before plugins update.version _ (λ _.
                  then_still sv set_condition cat message now before plugins update.version _ _
                    (answered-IsStill sv set_condition cat message now before plugins _)
                    (λ _.
                      cleared_answer sv set_condition cat message now before plugins update.version
                        update.build))))

    resolve_version_only-Resolves :
        (version : Bytes)
        → Resolves sv set_condition cat message now before plugins
            (resolve_version_only_mode sv set_condition cat message now version plugins)
    unfolding resolve_version_only_mode clear check
    resolve_version_only-Resolves version =
        behind_check sv set_condition cat message now before plugins version _ (λ _.
          then_still sv set_condition cat message now before plugins version _ _
            (answered-IsStill sv set_condition cat message now before plugins _)
            (λ builds.
              then_still sv set_condition cat message now before plugins version _ _
                (answered-IsStill sv set_condition cat message now before plugins _)
                (λ build.
                  cleared_answer sv set_condition cat message now before plugins version build)))

    verify_pinned-IsStill :
        (version : Bytes) (build : ℕ) (o : Option Bool)
        → IsStill sv set_condition cat message now before plugins
            (verify_pinned sv set_condition cat message now version build o)
    unfolding verify_pinned set_update_blocked
    verify_pinned-IsStill version build none status u = u
    verify_pinned-IsStill version build (some true) status u = u
    verify_pinned-IsStill version build (some false) status u = u

    resolve_pinned-Resolves :
        (version : Bytes) (build : ℕ)
        → Resolves sv set_condition cat message now before plugins
            (resolve_pinned_version_build sv set_condition cat message now version build plugins)
    unfolding resolve_pinned_version_build clear check
    resolve_pinned-Resolves version build =
        behind_check sv set_condition cat message now before plugins version _ (λ _.
          then_still sv set_condition cat message now before plugins version _ _
            (verify_pinned-IsStill version build _)
            (λ _. cleared_answer sv set_condition cat message now before plugins version build))

    failing :
        (e : ResolveError)
        → Resolves sv set_condition cat message now before plugins (answered (err e))
    unfolding answered
    failing e status u = u

    pinned_build-Resolves :
        (version : Bytes) (build : Option ℕ)
        → Resolves sv set_condition cat message now before plugins
            (pinned_build sv set_condition cat message now version build plugins)
    unfolding pinned_build
    pinned_build-Resolves version none = failing build_required
    pinned_build-Resolves version (some build) = resolve_pinned-Resolves version build

    pub resolve_desired-Resolves :
        (server : PaperMcServer)
        → Resolves sv set_condition cat message now before plugins
            (resolve_desired_paper_version sv set_condition cat message now server plugins)
    unfolding resolve_desired_paper_version
    resolve_desired-Resolves server =
        let strategy = server.spec.update_strategy in
        let version = server.spec.version in
        either-Resolves sv set_condition cat message now before plugins
          (strategy == update_strategy_latest) _ _ resolve_latest-Resolves
          (either-Resolves sv set_condition cat message now before plugins
            (strategy == update_strategy_auto) _ _ (resolve_auto-Resolves server)
            (either-Resolves sv set_condition cat message now before plugins
              (strategy == update_strategy_pin) _ _
              (either-Resolves sv set_condition cat message now before plugins (is_empty version) _
                _ (failing version_required) (resolve_version_only-Resolves version))
              (either-Resolves sv set_condition cat message now before plugins
                (strategy == update_strategy_build_pin) _ _
                (either-Resolves sv set_condition cat message now before plugins (is_empty version)
                  _ _ (failing version_required) (pinned_build-Resolves version server.spec.build))
                (failing invalid_strategy_name))))

  -- Under every strategy, one of three things happens. A version is stored that is no downgrade from the
  -- current one, where that is known, and that every plugin admits. Or the desired version, which is not
  -- empty, and build stay as they are. Or there is none, and the error is returned.
  pub update_desired_version_cases :
      (server : PaperMcServer) (plugins : List Plugin)
      → let (result, after) =
          update_desired_version sv set_condition cat message now server plugins in
        ((result ≡ ok tt)
          × IsAllowed sv server.status.current_version plugins after.desired_version)
        ⊎ ((result ≡ ok tt)
            × (is_empty server.status.desired_version ≡ false)
            × (after.desired_version ≡ server.status.desired_version)
            × (after.desired_build ≡ server.status.desired_build))
        ⊎ ((e : ResolveError) × (result ≡ err e)
            × (server.status.desired_version ≡ [])
            × (after.desired_version ≡ []))
  unfolding update_desired_version store_desired
  update_desired_version_cases server plugins =
      go
        (resolve_desired_paper_version sv set_condition cat message now server plugins
          server.status)
        (resolve_desired-Resolves server.status plugins server server.status (refl, refl, refl))
    where
      none_desired :
          (status : PaperMcServerStatus) (e : ResolveError)
          → Unmoved server.status status
          → let (result, after) = store_desired sv set_condition cat message now (err e, status) in
            ((result ≡ ok tt)
              × IsAllowed sv server.status.current_version plugins after.desired_version)
            ⊎ ((result ≡ ok tt)
                × (is_empty server.status.desired_version ≡ false)
                × (after.desired_version ≡ server.status.desired_version)
                × (after.desired_build ≡ server.status.desired_build))
            ⊎ ((f : ResolveError) × (result ≡ err f)
                × (server.status.desired_version ≡ [])
                × (after.desired_version ≡ []))
      none_desired status e (c, d, b) = elim (List-cases server.status.desired_version) [
        | inl empty ↦ inr (inr (e, rw (d, empty), empty, d ∙ empty))
        | inr some_version ↦ inr (inl (rw (d, some_version), some_version, d, b))
      ]

      go :
          (r : Result ResolveError (Bytes × ℕ) × PaperMcServerStatus)
          → Post
              (Resolved sv set_condition cat message now server.status plugins)
              (Unmoved server.status)
              r
          → let (result, after) = store_desired sv set_condition cat message now r in
            ((result ≡ ok tt)
              × IsAllowed sv server.status.current_version plugins after.desired_version)
            ⊎ ((result ≡ ok tt)
                × (is_empty server.status.desired_version ≡ false)
                × (after.desired_version ≡ server.status.desired_version)
                × (after.desired_build ≡ server.status.desired_build))
            ⊎ ((f : ResolveError) × (result ≡ err f)
                × (server.status.desired_version ≡ [])
                × (after.desired_version ≡ []))
      go (ok (v, b), status) q = inl (refl, q.1)
      go (err e, status) q = none_desired status e q
