-- ===== src/Examples/Solving.antt =====
-- Searches for a plugin version and a Paper version.
use minecraft_operator.Prelude.{
  is_empty, ◌⊎◌, All, Any, ◌∷◌, List, none, inl, [], ◌≡◌, refl, ok, err, true, false,
}
use minecraft_operator.Solver.{
  none_compatible, delay_or_zero, is_paper_version_compatible_with_all_plugins, none_after_delay,
  no_paper_compatible, is_pinning, PluginVersion, check_pinned_plugin_version,
  find_best_paper_version, find_best_plugin_version,
}
use minecraft_operator.Prelude.Bytes.{◌==◌, bytes, Bytes}
use minecraft_operator.Api.{PaperMcServer, Plugin}
use minecraft_operator.Clock.{zero_time}
use minecraft_operator.Examples.{digits-IsSemver, info, server, digits, plugin}
use minecraft_operator.Prelude.Int.{pos}
use minecraft_operator.Solver.PluginSearch.{
  find_best_plugin_version_cases, suits, is_released, IsBestVersion,
}
use minecraft_operator.Solver.PaperSearch.{
  find_best_paper_version_cases, Supports, missing_metadata_blocks,
}
use minecraft_operator.Version.SemanticVersion.{newer}

abbrev released : Bytes → PluginVersion
released v = record {
  version = v;
  release_date = zero_time;
  paper_versions = [];
  minecraft_versions = bytes "1" ∷ [];
  download_url = [];
  hash = [];
}

abbrev versions : List PluginVersion
versions = released (bytes "4") ∷ released (bytes "6") ∷ []

abbrev servers : List PaperMcServer
servers = server (bytes "auto") ∷ []

abbrev newest : Plugin
newest = plugin (bytes "latest") [] []

newest_pins_nothing : is_empty (check_pinned_plugin_version newest) ≡ true
unfolding check_pinned_plugin_version is_pinning ◌==◌
newest_pins_nothing = refl

find_best_plugin_version_cases_example :
    ((answer : PluginVersion) × (find_best_plugin_version digits (pos 5) newest servers versions
        ≡ ok answer.version)
      × IsBestVersion digits digits-IsSemver (pos 5) newest servers versions answer)
    ⊎ ((find_best_plugin_version digits (pos 5) newest servers versions ≡ err none_after_delay)
        × All (λ w. is_released (pos 5) (delay_or_zero none) w ≡ false) versions)
    ⊎ ((find_best_plugin_version digits (pos 5) newest servers versions ≡ err none_compatible)
        × All
            (λ w.
              is_released (pos 5) (delay_or_zero none) w ≡ true → suits servers newest w ≡ false)
            versions)
find_best_plugin_version_cases_example =
    find_best_plugin_version_cases digits digits-IsSemver (pos 5) newest servers versions refl refl
      newest_pins_nothing

abbrev papers : List Bytes
papers = bytes "1" ∷ bytes "2" ∷ []

abbrev supporting : List Plugin
supporting = plugin (bytes "latest") [] (info (bytes "1" ∷ []) ∷ []) ∷ []

find_best_paper_version_cases_example :
    ((answer : Bytes) × (find_best_paper_version digits (server (bytes "auto")) supporting papers
        ≡ ok answer)
      × Any (λ w. w ≡ answer) papers
      × All (Supports answer) supporting
      × All
          (λ w.
            is_paper_version_compatible_with_all_plugins w supporting ≡ true
            → newer digits w answer ≡ false)
          papers)
    ⊎ ((find_best_paper_version digits (server (bytes "auto")) supporting papers
          ≡ err no_paper_compatible)
        × All (λ w. is_paper_version_compatible_with_all_plugins w supporting ≡ false) papers)
find_best_paper_version_cases_example =
    find_best_paper_version_cases digits digits-IsSemver (server (bytes "auto")) supporting papers
      (inl refl) refl

abbrev without_metadata : List Plugin
without_metadata = plugin (bytes "latest") [] (info [] ∷ []) ∷ []

missing_metadata_blocks_example :
    find_best_paper_version digits (server (bytes "auto")) without_metadata papers
    ≡ err no_paper_compatible
missing_metadata_blocks_example =
    missing_metadata_blocks digits (server (bytes "auto")) without_metadata papers (inl refl) refl
      (inl (refl, (refl, tt)))
