-- ===== src/Cache.antt =====
-- pkg/plugins/cache.go: the cache in front of a plugin repository. The map is an association list, and the
-- repository a parameter. A reader and a writer lock surround each access of the map; one call is one step
-- here.
pub mod Freshness
use minecraft_operator.Prelude.{
  if◌then◌else◌, keep, Bool, true, false, not, ◌&&◌, ◌||◌, List, [], ◌∷◌, ◌++◌, Option, none, some,
}
use minecraft_operator.Solver.{PluginVersion}
use minecraft_operator.Prelude.Bytes.{has_prefix, bytes, ◌==◌, Bytes}
use minecraft_operator.Clock.{before, Duration, Time}
use minecraft_operator.Update.Delay.{lookup}
use minecraft_operator.Prelude.Int.{◌+ℤ◌}

pub record CompatibilityInfo : Type 0 where
  pub paper_versions : List Bytes
  pub minecraft_versions : List Bytes

pub record CacheEntry : Type 0 where
  pub versions : List PluginVersion
  pub compat : CompatibilityInfo
  pub expires_at : Time
  pub is_versions : Bool

abbrev pub Cache : Type 0
Cache = List (Bytes × CacheEntry)

-- The repository behind the cache: `none` for an error.
pub record PluginClient : Type 0 where
  pub get_versions : Bytes → Option (List PluginVersion)
  pub get_compatibility : Bytes → Bytes → Option CompatibilityInfo

abbrev pub versions_key : Bytes → Bytes
versions_key project = bytes "versions:" ++ project

abbrev pub compat_prefix : Bytes → Bytes
compat_prefix project = bytes "compat:" ++ project ++ bytes ":"

abbrev pub compat_key : Bytes → Bytes → Bytes
compat_key project version = compat_prefix project ++ version

-- `m[k] = v` on a map.
unfoldable pub put : Bytes → CacheEntry → Cache → Cache
put k v m = (k, v) ∷ keep (λ e. not (e.0 == k)) m

no_compat : CompatibilityInfo
no_compat = record { paper_versions = []; minecraft_versions = [] }

-- The entry that still serves a request for the given kind.
abbrev same_kind : Bool → Bool → Bool
same_kind true b = b
same_kind false b = not b

usable : Bool → Time → Option CacheEntry → Option CacheEntry
usable wanted now none = none
usable wanted now (some e) =
    if same_kind wanted e.is_versions && before now e.expires_at then some e else none

store_versions :
    Bytes → Time → Cache → Option (List PluginVersion) → Option (List PluginVersion) × Cache
store_versions key expires m none = (none, m)
store_versions key expires m (some versions) = (
  some versions,
  put key
      (record { versions = versions; compat = no_compat; expires_at = expires; is_versions = true })
      m,
)

-- A hit is the answer, and leaves the cache alone.
answer_versions :
    PluginClient → Time → Cache → Bytes → Option CacheEntry → Option (List PluginVersion) × Cache
unfolding store_versions no_compat
answer_versions client expires m project (some e) = (some e.versions, m)
answer_versions client expires m project none =
    store_versions (versions_key project) expires m (client.get_versions project)

-- `GetVersions`, with the clock read at `now` and, behind the repository's answer, at `later`.
unfoldable pub get_versions :
    PluginClient → Duration → Time → Time → Cache → Bytes → Option (List PluginVersion) × Cache
unfolding usable answer_versions
get_versions client ttl now later m project =
    answer_versions client (later +ℤ ttl) m project
      (usable true now (lookup (versions_key project) m))

store_compat : Bytes → Time → Cache → Option CompatibilityInfo → Option CompatibilityInfo × Cache
store_compat key expires m none = (none, m)
store_compat key expires m (some compat) = (
  some compat,
  put key (record { versions = []; compat = compat; expires_at = expires; is_versions = false }) m,
)

answer_compat :
    PluginClient
    → Time
    → Cache
    → Bytes
    → Bytes
    → Option CacheEntry
    → Option CompatibilityInfo × Cache
unfolding store_compat
answer_compat client expires m project version (some e) = (some e.compat, m)
answer_compat client expires m project version none =
    store_compat (compat_key project version) expires m (client.get_compatibility project version)

unfoldable pub get_compatibility :
    PluginClient → Duration → Time → Time → Cache → Bytes → Bytes → Option CompatibilityInfo × Cache
unfolding usable answer_compat
get_compatibility client ttl now later m project version =
    answer_compat client (later +ℤ ttl) m project version
      (usable false now (lookup (compat_key project version) m))

unfoldable pub clear_cache : Cache → Cache
clear_cache m = []

-- The keys that `ClearProject` deletes.
unfoldable pub belongs_to : Bytes → Bytes → Bool
belongs_to project key = key == versions_key project || has_prefix key (compat_prefix project)

unfoldable pub clear_project : Bytes → Cache → Cache
clear_project project m = keep (λ e. not (belongs_to project e.0)) m
