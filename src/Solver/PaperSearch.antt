-- ===== src/Solver/PaperSearch.antt =====
-- FindBestPaperVersion: which version it returns, and what stops it.
use minecraft_operator.Prelude.{
  ◌∙◌, arith, any→Any, List-cases, all→All, All-map, Any, Bool-cases, any, All, if◌then◌else◌,
  is_empty, ◌∷◌, ◌⊎◌, List, Result, ◌≡◌, Option, none, some, refl, true, false, inl, inr, ok, err,
  [],
}
use minecraft_operator.Prelude.Bytes.{◌==◌, Bytes}
use minecraft_operator.Solver.{
  no_paper_compatible, sort_paper_versions_desc, update_strategy_latest, SolverError,
  find_best_paper_version, update_strategy_auto, find_paper_by_strategy,
  find_compatible_paper_version, is_paper_version_compatible_with_all_plugins,
}
use minecraft_operator.Version.SemanticVersion.{newer, IsSemver, Semver}
use minecraft_operator.Solver.Sort.Search.{find_first-sort_desc, find_first}
use minecraft_operator.Api.{PluginVersionInfo, PaperMcServer, Plugin}
use minecraft_operator.Version.{contains_version}
use minecraft_operator.Solver.Sort.{sort_desc}

abbrev paper_or_error : Option Bytes → Result SolverError Bytes
paper_or_error none = err no_paper_compatible
paper_or_error (some v) = ok v

-- Every plugin that lists versions lists one that supports the Paper version.
abbrev pub Supports : Bytes → Plugin → Type 0
Supports paper_ver plugin =
    (plugin.status.available_versions ≡ [])
    ⊎ Any (λ info. contains_version info.minecraft_versions paper_ver ≡ true)
        plugin.status.available_versions

Supports-sound :
    (paper_ver : Bytes) (plugin : Plugin)
    → (if is_empty plugin.status.available_versions
        then true
        else any
            (λ info. contains_version info.minecraft_versions paper_ver)
            plugin.status.available_versions)
      ≡ true
    → Supports paper_ver plugin
Supports-sound paper_ver plugin h = elim (List-cases plugin.status.available_versions) [
  | inl e ↦ inl e
  | inr e ↦ inr (any→Any _ plugin.status.available_versions (rw e at h))
]

pub compatible-Supports :
    (paper_ver : Bytes) (plugins : List Plugin)
    → is_paper_version_compatible_with_all_plugins paper_ver plugins ≡ true
    → All (Supports paper_ver) plugins
unfolding is_paper_version_compatible_with_all_plugins
compatible-Supports paper_ver plugins h =
    All-map (λ plugin e. Supports-sound paper_ver plugin e) plugins (all→All _ plugins h)

find_compatible_paper-eq-find_first :
    (vs : List Bytes) (plugins : List Plugin)
    → find_compatible_paper_version vs plugins
      ≡ paper_or_error (find_first (λ v. is_paper_version_compatible_with_all_plugins v plugins) vs)
unfolding find_compatible_paper_version find_first
find_compatible_paper-eq-find_first [] plugins = refl
find_compatible_paper-eq-find_first (v ∷ vs) plugins =
    elim (Bool-cases (is_paper_version_compatible_with_all_plugins v plugins)) [
      | inl e ↦ rw e
      | inr e ↦ rw e (find_compatible_paper-eq-find_first vs plugins)
    ]

no_version_listed :
    (v : Bytes) (infos : List PluginVersionInfo)
    → All (λ info. info.minecraft_versions ≡ []) infos
    → any (λ info. contains_version info.minecraft_versions v) infos ≡ false
unfolding contains_version
no_version_listed v [] h = refl
no_version_listed v (info ∷ infos) (e, h) = rw (e, no_version_listed v infos h)

abbrev pub LacksMetadata : Plugin → Type 0
LacksMetadata plugin =
    (is_empty plugin.status.available_versions ≡ false)
    × All (λ info. info.minecraft_versions ≡ []) plugin.status.available_versions

none_compatible_with :
    (v : Bytes) (plugins : List Plugin)
    → Any LacksMetadata plugins
    → is_paper_version_compatible_with_all_plugins v plugins ≡ false
unfolding is_paper_version_compatible_with_all_plugins
none_compatible_with v (plugin ∷ plugins) (inl (some_listed, h)) =
    rw (some_listed, no_version_listed v plugin.status.available_versions h)
none_compatible_with v (plugin ∷ plugins) (inr later) =
    ground (arith, none_compatible_with v plugins later)
none_compatible_with v [] h = elim h [ ]

search_fails :
    (vs : List Bytes) (plugins : List Plugin)
    → Any LacksMetadata plugins
    → find_compatible_paper_version vs plugins ≡ err no_paper_compatible
unfolding find_compatible_paper_version
search_fails [] plugins h = refl
search_fails (v ∷ vs) plugins h = rw (none_compatible_with v plugins h, search_fails vs plugins h)

-- The strategies under which the solver searches; "" stands for "latest".
abbrev pub Searches : Bytes → Type 0
Searches strategy =
    (strategy ≡ update_strategy_auto) ⊎ (strategy ≡ update_strategy_latest) ⊎ (strategy ≡ [])

module _ {V : Type 0} (sv : Semver V) where
  search_strategy :
      (strategy version : Bytes) (plugins : List Plugin) (paper_versions : List Bytes)
      → Searches strategy
      → is_empty paper_versions ≡ false
      → find_paper_by_strategy sv strategy version plugins paper_versions
        ≡ find_compatible_paper_version (sort_paper_versions_desc sv paper_versions) plugins
  unfolding find_paper_by_strategy ◌==◌
  search_strategy strategy version plugins paper_versions (inl e) h = rw (e, h)
  search_strategy strategy version plugins paper_versions (inr (inl e)) h = rw (e, h)
  search_strategy strategy version plugins paper_versions (inr (inr e)) h = rw (e, h)

  -- A plugin whose listed versions name no Minecraft version at all stops the search: under "auto",
  -- "latest" or "" there is then no Paper version at all, whichever versions are offered.
  pub missing_metadata_blocks :
      (server : PaperMcServer) (plugins : List Plugin) (paper_versions : List Bytes)
      → Searches server.spec.update_strategy
      → is_empty paper_versions ≡ false
      → Any LacksMetadata plugins
      → find_best_paper_version sv server plugins paper_versions ≡ err no_paper_compatible
  unfolding find_best_paper_version
  missing_metadata_blocks server plugins paper_versions s h blocked =
      search_strategy server.spec.update_strategy server.spec.version plugins paper_versions s h
      ∙ search_fails (sort_paper_versions_desc sv paper_versions) plugins blocked

  module _ (laws : IsSemver sv) where
    -- Under "auto", "latest" or "", with versions offered, the answer is an offered version that every plugin supports, and no
    -- other such version is newer; or no offered version is supported by every plugin, and the error
    -- says so.
    pub find_best_paper_version_cases :
        (server : PaperMcServer) (plugins : List Plugin) (paper_versions : List Bytes)
        → Searches server.spec.update_strategy
        → is_empty paper_versions ≡ false
        → ((answer : Bytes) × (find_best_paper_version sv server plugins paper_versions ≡ ok answer)
            × Any (λ w. w ≡ answer) paper_versions
            × All (Supports answer) plugins
            × All
                (λ w.
                  is_paper_version_compatible_with_all_plugins w plugins ≡ true
                  → newer sv w answer ≡ false)
                paper_versions)
          ⊎ ((find_best_paper_version sv server plugins paper_versions ≡ err no_paper_compatible)
              × All
                  (λ w. is_paper_version_compatible_with_all_plugins w plugins ≡ false)
                  paper_versions)
    unfolding find_best_paper_version sort_paper_versions_desc
    find_best_paper_version_cases server plugins paper_versions s h =
        rw
          (
            search_strategy server.spec.update_strategy server.spec.version plugins paper_versions s
                h,
            find_compatible_paper-eq-find_first (sort_desc sv (λ v. v) paper_versions) plugins,
          )
          (elim (find_first-sort_desc sv laws (λ v. v)
            (λ v. is_paper_version_compatible_with_all_plugins v plugins) paper_versions) [
              | inl (x, f, best) ↦
                  inl (x, rw f, best.member, compatible-Supports x plugins best.passes, best.newest)
              | inr (f, none_passes) ↦ inr (rw f, none_passes)
            ])
