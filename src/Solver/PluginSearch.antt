-- ===== src/Solver/PluginSearch.antt =====
-- FindBestPluginVersion: which version it returns, and when it returns an error.
use minecraft_operator.Prelude.{
  keep-empty, ◌>>=◌, is_empty, All-keep, all→All, Any-keep, keep_all, ◌∙◌, ◌⊎◌, keep_congr, Any,
  Any, All, Any, sym, ◌||◌, Any, Any, Bool-cases, all, ◌∷◌, Bool, Result, ◌≡◌, keep, List, Option,
  none, some, refl, true, false, inl, inr, ok, err, [],
}
use minecraft_operator.Clock.{add_negated, before, same_time, Duration, Time}
use minecraft_operator.Solver.{
  none_after_delay, check_pinned_plugin_version, filter_and_sort_plugin_versions,
  find_best_plugin_version, sort_versions_desc, none_compatible, delay_or_zero,
  is_plugin_compatible_with_server, SolverError, find_compatible_plugin_version, PluginVersion,
  filter_by_delay,
}
use minecraft_operator.Version.SemanticVersion.{newer, IsSemver, Semver}
use minecraft_operator.Api.{Plugin, PaperMcServer}
use minecraft_operator.Solver.Sort.Search.{find_first-sort_desc, find_first}
use minecraft_operator.Prelude.Int.{pos}
use minecraft_operator.Prelude.Bytes.{Bytes}
use minecraft_operator.Solver.Sort.{sort_desc}

-- The version was released at least the delay before now; a delay of zero asks nothing. (The least
-- int64, which is its own negation, asks as much as the greatest.)
unfoldable pub is_released : Time → Duration → PluginVersion → Bool
is_released now delay v =
    same_time delay (pos 0)
    || (before v.release_date (add_negated now delay)
        || same_time v.release_date (add_negated now delay))

pub filter_by_delay-eq-keep :
    (now : Time) (versions : List PluginVersion) (delay : Duration)
    → filter_by_delay now versions delay ≡ keep (is_released now delay) versions
unfolding filter_by_delay is_released
filter_by_delay-eq-keep now versions delay = elim (Bool-cases (same_time delay (pos 0))) [
  | inl e ↦ rw e (sym (keep_congr _ (λ _. true) (λ v. rw e) versions ∙ keep_all versions))
  | inr e ↦ rw e (keep_congr _ _ (λ v. rw e) versions)
]

-- A plugin version suits all servers.
abbrev pub suits : List PaperMcServer → Plugin → PluginVersion → Bool
suits servers plugin pv = all (λ server. is_plugin_compatible_with_server pv server plugin) servers

abbrev version_or_error : Option PluginVersion → Result SolverError Bytes
version_or_error none = err none_compatible
version_or_error (some pv) = ok pv.version

module _ {V : Type 0} (sv : Semver V) (laws : IsSemver sv) where
  find_compatible-eq-find_first :
      (pvs : List PluginVersion) (servers : List PaperMcServer) (plugin : Plugin)
      → find_compatible_plugin_version pvs servers plugin
        ≡ version_or_error (find_first (suits servers plugin) pvs)
  unfolding find_compatible_plugin_version find_first
  find_compatible-eq-find_first [] servers plugin = refl
  find_compatible-eq-find_first (pv ∷ pvs) servers plugin =
      elim (Bool-cases (suits servers plugin pv)) [
        | inl e ↦ rw e
        | inr e ↦ rw e (find_compatible-eq-find_first pvs servers plugin)
      ]

  -- What the answer is for the plugin and the servers.
  pub record IsBestVersion (now : Time) (plugin : Plugin) (servers : List PaperMcServer)
      (versions : List PluginVersion) (answer : PluginVersion) : Type 0 where
    pub listed :
        Any
          (λ w. (w ≡ answer) × (is_released now (delay_or_zero plugin.spec.update_delay) w ≡ true))
          versions
    pub suitable :
        All (λ server. is_plugin_compatible_with_server answer server plugin ≡ true) servers
    pub newest :
        All
          (λ w.
            is_released now (delay_or_zero plugin.spec.update_delay) w ≡ true
            → suits servers plugin w ≡ true
            → newer sv w.version answer.version ≡ false)
          versions

  search_cases :
      (now : Time) (plugin : Plugin) (servers : List PaperMcServer)
      (versions filtered : List PluginVersion)
      → filter_by_delay now versions (delay_or_zero plugin.spec.update_delay) ≡ filtered
      → ((answer : PluginVersion) × (find_compatible_plugin_version
              (sort_versions_desc sv filtered)
              servers
              plugin
            ≡ ok answer.version)
          × IsBestVersion now plugin servers versions answer)
        ⊎ ((find_compatible_plugin_version (sort_versions_desc sv filtered) servers plugin
              ≡ err none_compatible)
            × All
                (λ w.
                  is_released now (delay_or_zero plugin.spec.update_delay) w ≡ true
                  → suits servers plugin w ≡ false)
                versions)
  unfolding sort_versions_desc
  search_cases now plugin servers versions filtered e =
      let delay = delay_or_zero plugin.spec.update_delay in
      let kept : keep (is_released now delay) versions ≡ filtered =
        sym (filter_by_delay-eq-keep now versions delay) ∙ e in
      rw (find_compatible-eq-find_first (sort_desc sv (λ v. v.version) filtered) servers plugin)
        (elim (find_first-sort_desc sv laws (λ v. v.version) (suits servers plugin) filtered) [
          | inl (x, f, best) ↦ inl (
            x,
            rw f,
            record {
              listed = Any-keep (λ w. w ≡ x) (is_released now delay) versions (rw kept best.member);
              suitable = all→All _ servers best.passes;
              newest = All-keep _ (is_released now delay) versions (rw kept best.newest);
            },
          )
          | inr (f, none_passes) ↦
              inr (rw f, All-keep _ (is_released now delay) versions (rw kept none_passes))
        ])

  unpinned :
      (now : Time) (plugin : Plugin) (servers : List PaperMcServer) (versions : List PluginVersion)
      → is_empty versions ≡ false
      → is_empty servers ≡ false
      → is_empty (check_pinned_plugin_version plugin) ≡ true
      → find_best_plugin_version sv now plugin servers versions ≡ (
          filter_and_sort_plugin_versions sv now plugin versions >>= λ sorted.
          find_compatible_plugin_version sorted servers plugin)
  unfolding find_best_plugin_version
  unpinned now plugin servers versions v s p = rw (v, s, p)

  -- For a plugin that pins no version, with versions and servers at hand, one of three things
  -- happens. The answer is a listed version, released long enough ago and compatible with every
  -- server, and no other such version is newer. Or every version is too recent, and the error says
  -- so. Or every version that is old enough is incompatible with a server, and the error says that.
  pub find_best_plugin_version_cases :
      (now : Time) (plugin : Plugin) (servers : List PaperMcServer) (versions : List PluginVersion)
      → is_empty versions ≡ false
      → is_empty servers ≡ false
      → is_empty (check_pinned_plugin_version plugin) ≡ true
      → ((answer : PluginVersion) × (find_best_plugin_version sv now plugin servers versions
            ≡ ok answer.version)
          × IsBestVersion now plugin servers versions answer)
        ⊎ ((find_best_plugin_version sv now plugin servers versions ≡ err none_after_delay)
            × All
                (λ w. is_released now (delay_or_zero plugin.spec.update_delay) w ≡ false)
                versions)
        ⊎ ((find_best_plugin_version sv now plugin servers versions ≡ err none_compatible)
            × All
                (λ w.
                  is_released now (delay_or_zero plugin.spec.update_delay) w ≡ true
                  → suits servers plugin w ≡ false)
                versions)
  unfolding filter_and_sort_plugin_versions
  find_best_plugin_version_cases now plugin servers versions v s p =
      let delay = delay_or_zero plugin.spec.update_delay in
      rw (unpinned now plugin servers versions v s p)
        (elim (Bool-cases (is_empty (filter_by_delay now versions delay))) [
          | inl e ↦ inr (
              inl (
                rw e,
                keep-empty (is_released now delay) versions
                    (rw (filter_by_delay-eq-keep now versions delay) at e),
              ))
          | inr e ↦ rw e (elim (search_cases now plugin servers versions _ refl) [
            | inl found ↦ inl found
            | inr none_found ↦ inr (inr none_found)
          ])
        ])
