-- ===== src/Examples/Servers.antt =====
-- The version that a server should run, and the plugins that are for it.
use minecraft_operator.Examples.{digits-IsSemver, status, digits, plugin, info, server}
use minecraft_operator.Api.{PaperMcServerStatus, condition_true, Plugin, PaperMcServer, Condition}
use minecraft_operator.Clock.{zero_time}
use minecraft_operator.Solver.{SolverError}
use minecraft_operator.Server.{Catalogue, ResolveError}
use minecraft_operator.Server.Resolution.{update_desired_version}
use minecraft_operator.Server.Resolution.Allowed.{IsAllowed}
use minecraft_operator.Server.Resolution.Fallback.{update_desired_version_cases}
use minecraft_operator.Server.Equality.{
  same_slice, same_condition, same_plugin_status, server_status_equal,
}
use minecraft_operator.Server.Equality.Unchanged.{IsFound, server_status_equal_sound}
use minecraft_operator.Server.PluginVersions.{status_key, resolve_plugin_version_for_server}
use minecraft_operator.Server.PluginVersions.Listed.{
  IsListed, resolve_plugin_version_for_server-IsListed,
}
use minecraft_operator.Server.Tags.{find_latest_version_from_tags, parse_tag, is_release}
use minecraft_operator.Text.{atoi, cut_at, digits_from, is_digit_byte, is_number, split_at}
use minecraft_operator.Version
use minecraft_operator.Version.SemanticVersion.{Semver, IsSemver, is_valid}
use minecraft_operator.Server.Tags.Newest.{
  find_latest_version_from_tags_newest, NotAhead, IsReadable,
}
use minecraft_operator.Server.Image.{is_dotted, detect_current_paper_version}
use minecraft_operator.Server.Image.RoundTrip.{detect_current_paper_version-new_image}
use minecraft_operator.Update.Flow.{new_image}
use minecraft_operator.Selection.{
  Selecting, matches_selector, find_matching_servers, find_matching_plugins,
  find_plugins_for_server, request_for,
}
use minecraft_operator.Selection.Symmetry.{
  In, find_matching_symmetric, find_plugins_for_server_agrees,
}
use minecraft_operator.Prelude.{
  length, ℕ, true, false, List, [], ◌∷◌, none, some, ok, err, ◌≡◌, ◌⊎◌, ◌↔◌, refl, inl, All, map,
  is_empty, arith, if◌then◌else◌, keep,
}
use minecraft_operator.Prelude.Bytes.{Bytes, bytes, ◌==◌}

abbrev pub catalogue : Catalogue
catalogue = record {
  list_tags = some (bytes "1.2.3-4" ∷ bytes "latest" ∷ bytes "1.2.3-9" ∷ []);
  image_exists = λ tag. some true;
  get_builds = λ version. some (4 ∷ 9 ∷ []);
  get_paper_versions = some (bytes "1" ∷ bytes "2" ∷ []);
  get_paper_build = λ version. some 9;
}

abbrev pub set_first : Condition → List Condition → List Condition
set_first c cs = c ∷ cs

abbrev pub message : SolverError → Bytes
message e = bytes "no version"

abbrev pub plugins : List Plugin
plugins = plugin (bytes "latest") [] (info (bytes "2" ∷ []) ∷ []) ∷ []

-- A server that pins version 2.
abbrev pinned : PaperMcServer
pinned = server (bytes "pin")

update_desired_version_cases_example :
    let (result, after) =
      update_desired_version digits set_first catalogue message zero_time pinned plugins in
    ((result ≡ ok tt) × IsAllowed digits (bytes "1") plugins after.desired_version)
    ⊎ ((result ≡ ok tt)
        × (is_empty (bytes "2") ≡ false)
        × (after.desired_version ≡ bytes "2")
        × (after.desired_build ≡ 7))
    ⊎ ((e : ResolveError) × (result ≡ err e) × (bytes "2" ≡ []) × (after.desired_version ≡ []))
update_desired_version_cases_example =
    update_desired_version_cases digits set_first catalogue message zero_time pinned plugins

-- Versions compared by the number that their digits make up.
abbrev by_digits : Semver ℕ
by_digits = record digits { new_version = λ s. some (digits_from 0 (keep is_digit_byte s)) }

by_digits-IsSemver : IsSemver by_digits
by_digits-IsSemver = record {
  compare_range = λ a b. ground arith;
  compare_swap = λ a b. ground arith;
  greater_than_iff = λ a b. ground arith;
  greater_than_split = λ a b c h. ground arith;
}

abbrev tags : List Bytes
tags = bytes "1.2.3-4" ∷ bytes "latest" ∷ bytes "1.2.3-9" ∷ []

tags-IsReadable : All (IsReadable by_digits by_digits-IsSemver) tags
unfolding is_valid
tags-IsReadable = ((λ w c e. refl), ((λ w c e. refl), ((λ w c e. refl), tt)))

-- Of the two builds of one version the later one is found.
find_later_build : find_latest_version_from_tags by_digits tags ≡ some (bytes "1.2.3", 9)
unfolding find_latest_version_from_tags parse_tag cut_at is_number is_digit_byte is_release split_at
    atoi digits_from Version.compare ◌==◌
find_later_build = refl

find_latest_version_from_tags_newest_example :
    ((find_latest_version_from_tags by_digits tags ≡ none) × All (λ tag. parse_tag tag ≡ none) tags)
    ⊎ ((r : Bytes × ℕ) × (find_latest_version_from_tags by_digits tags ≡ some r)
        × All (NotAhead by_digits by_digits-IsSemver r) tags)
find_latest_version_from_tags_newest_example =
    find_latest_version_from_tags_newest by_digits by_digits-IsSemver tags tags-IsReadable

detect_current_paper_version-new_image_example :
    detect_current_paper_version (some (new_image pinned ∷ bytes "busybox" ∷ [])) ≡ (bytes "2", 7)
unfolding is_dotted is_digit_byte
detect_current_paper_version-new_image_example =
    detect_current_paper_version-new_image pinned (bytes "busybox" ∷ []) refl (omega arith)

-- Selectors that ask for no label match every server, and others are not well-formed.
abbrev selecting : Selecting
selecting selector = if is_empty selector.match_labels then some (λ labels. true) else none

servers_found :
    find_matching_servers selecting (plugin [] [] []).spec.instance_selector (some (pinned ∷ []))
    ≡ ok (pinned ∷ [])
unfolding find_matching_servers
servers_found = refl

plugins_found : find_matching_plugins selecting [] (some plugins) ≡ ok plugins
unfolding find_matching_plugins matches_selector
plugins_found = refl

find_matching_symmetric_example :
    In pinned (pinned ∷ []) ↔ In (plugin (bytes "latest") [] (info (bytes "2" ∷ []) ∷ [])) plugins
find_matching_symmetric_example =
    find_matching_symmetric selecting pinned (pinned ∷ []) (pinned ∷ [])
      (plugin (bytes "latest") [] (info (bytes "2" ∷ []) ∷ [])) plugins plugins servers_found
      plugins_found (inl refl) (inl refl)

find_plugins_for_server_agrees_example :
    find_plugins_for_server selecting pinned (some plugins) ≡ map (request_for selecting) plugins
find_plugins_for_server_agrees_example =
    find_plugins_for_server_agrees selecting pinned plugins plugins plugins_found

abbrev condition_of : Bytes → Condition
condition_of kind = record {
  kind = kind;
  status = condition_true;
  reason = bytes "Done";
  message = [];
}

-- Two conditions in one order and in the other.
abbrev noted : PaperMcServerStatus
noted = record status {
  conditions = condition_of (bytes "Ready") ∷ condition_of (bytes "Updating") ∷ [];
}

abbrev noted_again : PaperMcServerStatus
noted_again = record status {
  conditions = condition_of (bytes "Updating") ∷ condition_of (bytes "Ready") ∷ [];
}

order_is_ignored : server_status_equal noted noted_again ≡ true
unfolding server_status_equal same_slice ◌==◌
order_is_ignored = refl

server_status_equal_sound_example :
    (noted.current_version ≡ noted_again.current_version)
    × (noted.current_build ≡ noted_again.current_build)
    × (noted.desired_version ≡ noted_again.desired_version)
    × (noted.desired_build ≡ noted_again.desired_build)
    × (length noted.plugins ≡ length noted_again.plugins)
    × All
        (IsFound (λ p. status_key p.plugin_ref) same_plugin_status noted.plugins)
        noted_again.plugins
    × (length noted.conditions ≡ length noted_again.conditions)
    × All (IsFound (λ c. c.kind) same_condition noted.conditions) noted_again.conditions
server_status_equal_sound_example = server_status_equal_sound noted noted_again order_is_ignored

-- A plugin that pins the version that it lists.
abbrev pinning : Plugin
pinning = plugin (bytes "pin") (bytes "1") (info [] ∷ [])

one_resolved : resolve_plugin_version_for_server digits zero_time pinned pinning ≡ ok (bytes "1")
unfolding resolve_plugin_version_for_server ◌==◌
one_resolved = refl

resolve_plugin_version_for_server-IsListed_example :
    ((pinning.status.available_versions ≡ []) × (bytes "1" ≡ [])) ⊎ IsListed pinning (bytes "1")
resolve_plugin_version_for_server-IsListed_example =
    resolve_plugin_version_for_server-IsListed digits digits-IsSemver zero_time pinned pinning
      (bytes "1") one_resolved
