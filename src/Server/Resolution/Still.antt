-- ===== src/Server/Resolution/Still.antt =====
-- The steps of findAvailableUpdate, which leave the versions of the status as they are.
use minecraft_operator.Server.{
  invalid_strategy_name, check_candidate, ResolveError, Resolving, answered, clear_update_blocked,
  Catalogue, SetCondition, ◌>>=◌,
}
use minecraft_operator.Server.Steps.{Unmoved, Triple, Post, seq-Triple}
use minecraft_operator.Prelude.{
  ◌||◌, ◌++◌, Bool-cases, if◌then◌else◌, inl, inr, ℕ, Bool, List, Result, ok, err, none,
}
use minecraft_operator.Version.SemanticVersion.{Semver}
use minecraft_operator.Solver.{
  update_strategy_build_pin, update_strategy_pin, update_strategy_auto, update_strategy_latest,
  SolverError,
}
use minecraft_operator.Prelude.Bytes.{◌==◌, bytes, Bytes}
use minecraft_operator.Clock.{Time}
use minecraft_operator.Api.{
  condition_false, condition_true, Condition, PaperMcServer, Plugin, PaperMcServerStatus,
}
use minecraft_operator.Server.Resolution.Allowed.{check_candidate-Triple, IsAllowed}
use minecraft_operator.Server.Available.{
  solver_condition, note, run_solver, update_for, find_build_update, find_version_update,
  find_available_update,
}

module _ {V : Type 0} (sv : Semver V) (set_condition : SetCondition) (cat : Catalogue)
    (message : SolverError → Bytes) (now : Time) where
  -- What is known of a version and build that have been resolved.
  abbrev pub Resolved : PaperMcServerStatus → List Plugin → Bytes × ℕ → PaperMcServerStatus → Type 0
  Resolved before plugins vb status =
      Unmoved before status × IsAllowed sv before.current_version plugins vb.0

  -- A step that finds a version and build out of an unmoved status.
  abbrev pub Resolves : PaperMcServerStatus → List Plugin → Resolving (Bytes × ℕ) → Type 0
  Resolves before plugins m = Triple (Unmoved before) m (Resolved before plugins) (Unmoved before)

  module _ (before : PaperMcServerStatus) (plugins : List Plugin) where
    -- Steps that move nothing, and what they keep once a version is known to be allowed.
    abbrev pub IsStill : {X : Type 0} → Resolving X → Type 0
    IsStill m = Triple (Unmoved before) m (λ _. Unmoved before) (Unmoved before)

    abbrev pub Permits : Bytes → PaperMcServerStatus → Type 0
    Permits version status =
        Unmoved before status × IsAllowed sv before.current_version plugins version

    pub Permits-still :
        {X : Type 0} (version : Bytes) (m : Resolving X)
        → IsStill m
        → Triple (Permits version) m (λ _. Permits version) (Unmoved before)
    Permits-still {X = X} version m h status (u, allowed) = go (m status) (h status u)
      where
        go :
            (r : Result ResolveError X × PaperMcServerStatus)
            → Post (λ _. Unmoved before) (Unmoved before) r
            → Post (λ _. Permits version) (Unmoved before) r
        go (ok x, after) q = (q, allowed)
        go (err e, after) q = q

    pub seq-IsStill :
        {X Y : Type 0} (m : Resolving X) (k : X → Resolving Y)
        → IsStill m
        → ((x : X) → IsStill (k x))
        → IsStill (m >>= k)
    seq-IsStill m k h next =
        seq-Triple (Unmoved before) (Unmoved before) m k (λ _. Unmoved before) (λ _. Unmoved before)
          h next

    pub behind :
        {X : Type 0} (m : Resolving X) (k : X → Resolving (Bytes × ℕ))
        → IsStill m
        → ((x : X) → Resolves before plugins (k x))
        → Resolves before plugins (m >>= k)
    behind m k h next =
        seq-Triple (Unmoved before) (Unmoved before) m k (λ _. Unmoved before)
          (Resolved before plugins) h next

    pub answered-IsStill : {X : Type 0} (r : Result ResolveError X) → IsStill (answered r)
    unfolding answered
    answered-IsStill (ok x) status u = u
    answered-IsStill (err e) status u = u

    -- Behind the checks of a version.
    abbrev pub Answers : Bytes → Resolving (Bytes × ℕ) → Type 0
    Answers version m = Triple (Permits version) m (Resolved before plugins) (Unmoved before)

    pub then_still :
        {X : Type 0} (version : Bytes) (m : Resolving X) (k : X → Resolving (Bytes × ℕ))
        → IsStill m
        → ((x : X) → Answers version (k x))
        → Answers version (m >>= k)
    then_still version m k h next =
        seq-Triple (Permits version) (Unmoved before) m k (λ _. Permits version)
          (Resolved before plugins) (Permits-still version m h) next

    -- The last two lines of every resolution.
    pub cleared_answer :
        (version : Bytes) (build : ℕ)
        → Answers version
            (clear_update_blocked sv set_condition cat >>= λ _. answered (ok (version, build)))
    unfolding clear_update_blocked answered
    cleared_answer version build = then_still version _ _ (λ status u. u) (λ _ status q. q)

    pub behind_check :
        (version : Bytes) (k : Unit {0} → Resolving (Bytes × ℕ))
        → ((x : Unit {0}) → Answers version (k x))
        → Resolves before plugins (check_candidate sv set_condition cat version plugins >>= k)
    behind_check version k next =
        seq-Triple (Unmoved before) (Unmoved before) _ k (λ _. Permits version)
          (Resolved before plugins)
          (check_candidate-Triple sv set_condition cat message now before version plugins) next

    note-IsStill : (c : Condition) → IsStill (note sv set_condition cat message now c)
    unfolding note
    note-IsStill c status u = u

    run_solver-IsStill :
        (r : Result SolverError Bytes) → IsStill (run_solver sv set_condition cat message now r)
    unfolding run_solver
    run_solver-IsStill (err e) =
        seq-IsStill _ _
          (note-IsStill (
            solver_condition condition_false (bytes "SolverFailed")
              (bytes "Solver failed: " ++ message e)))
          (λ _. answered-IsStill _)
    run_solver-IsStill (ok v) =
        seq-IsStill _ _
          (note-IsStill (
            solver_condition condition_false (bytes "SolverCompleted")
              (bytes "Version resolved successfully")))
          (λ _. answered-IsStill _)

    either :
        {X : Type 0} (b : Bool) (m n : Resolving X) (P : PaperMcServerStatus → Type 0)
        (Q : X → PaperMcServerStatus → Type 0)
        → Triple P m Q (Unmoved before)
        → Triple P n Q (Unmoved before)
        → Triple P (if b then m else n) Q (Unmoved before)
    either b m n P Q h k = elim (Bool-cases b) [ inl e ↦ rw e h | inr e ↦ rw e k ]

    either-IsStill :
        {X : Type 0} (b : Bool) (m n : Resolving X)
        → IsStill m
        → IsStill n
        → IsStill (if b then m else n)
    either-IsStill b m n h k = either b m n (Unmoved before) (λ _. Unmoved before) h k

    pub either-Resolves :
        (b : Bool) (m n : Resolving (Bytes × ℕ))
        → Resolves before plugins m
        → Resolves before plugins n
        → Resolves before plugins (if b then m else n)
    either-Resolves b m n h k = either b m n (Unmoved before) (Resolved before plugins) h k

    find_version_update-IsStill :
        (server : PaperMcServer)
        → IsStill (find_version_update sv set_condition cat message now server plugins)
    unfolding find_version_update update_for
    find_version_update-IsStill server = seq-IsStill _ _ (answered-IsStill _) (λ versions.
        seq-IsStill _ _
          (note-IsStill (
            solver_condition condition_true (bytes "SolverStarted")
              (bytes "Resolving optimal Paper version")))
          (λ _. seq-IsStill _ _ (run_solver-IsStill _) (λ best status. answered-IsStill _ status)))

    find_build_update-IsStill :
        (server : PaperMcServer)
        → IsStill (find_build_update sv set_condition cat message now server plugins)
    unfolding find_build_update
    find_build_update-IsStill server =
        seq-IsStill _ _ (answered-IsStill _) (λ build status. answered-IsStill _ status)

    pub find_available_update-IsStill :
        (server : PaperMcServer)
        → IsStill (find_available_update sv set_condition cat message now server plugins)
    unfolding find_available_update
    find_available_update-IsStill server =
        let strategy = server.spec.update_strategy in
        either-IsStill (strategy == update_strategy_latest || strategy == update_strategy_auto) _ _
          (find_version_update-IsStill server)
          (either-IsStill (strategy == update_strategy_pin) _ _ (find_build_update-IsStill server) (
            either-IsStill (strategy == update_strategy_build_pin) _ _ (answered-IsStill (ok none))
              (answered-IsStill (err invalid_strategy_name))))
