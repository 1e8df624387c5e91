-- ===== src/Examples/Caching.antt =====
-- The cache in front of a repository with one version.
use minecraft_operator.Prelude.{List, true, ◌≡◌, some, none, [], ◌∷◌, refl}
use minecraft_operator.Prelude.Int.{pos, ◌+ℤ◌}
use minecraft_operator.Cache.{CacheEntry, clear_project, versions_key, PluginClient, get_versions}
use minecraft_operator.Update.Delay.{lookup}
use minecraft_operator.Clock.{zero_time, before}
use minecraft_operator.Solver.{PluginVersion}
use minecraft_operator.Prelude.Bytes.{bytes}
use minecraft_operator.Cache.Freshness.{cleared_versions_are_fetched, fetched_versions_are_served}

abbrev listed : List PluginVersion
listed =
    (record {
      version = bytes "4";
      release_date = zero_time;
      paper_versions = [];
      minecraft_versions = [];
      download_url = [];
      hash = [];
    })
    ∷ []

abbrev repository : PluginClient
repository = record {
  get_versions = λ project. some listed;
  get_compatibility = λ project version. none;
}

abbrev unreachable : PluginClient
unreachable = record { get_versions = λ project. none; get_compatibility = λ project version. none }

not_yet_there : lookup {A = CacheEntry} (versions_key (bytes "map")) [] ≡ none
unfolding lookup
not_yet_there = refl

before_expiry : before (pos 50) (pos 2 +ℤ pos 100) ≡ true
unfolding ◌+ℤ◌
before_expiry = refl

fetched_versions_are_served_example :
    get_versions unreachable
      (pos 100)
      (pos 50)
      (pos 51)
      (get_versions repository (pos 100) (pos 1) (pos 2) [] (bytes "map")).1
      (bytes "map")
    ≡ (some listed, (get_versions repository (pos 100) (pos 1) (pos 2) [] (bytes "map")).1)
fetched_versions_are_served_example =
    fetched_versions_are_served repository unreachable (pos 100) (pos 1) (pos 2) (pos 50) (pos 51)
      [] (bytes "map") listed refl not_yet_there before_expiry

cleared_versions_are_fetched_example :
    (get_versions unreachable
      (pos 100)
      (pos 50)
      (pos 51)
      (clear_project (bytes "map") [])
      (bytes "map")).0
    ≡ none
cleared_versions_are_fetched_example =
    cleared_versions_are_fetched unreachable (pos 100) (pos 50) (pos 51) [] (bytes "map")
