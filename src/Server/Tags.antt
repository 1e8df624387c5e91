-- ===== src/Server/Tags.antt =====
-- findLatestVersionFromTags: the newest version and build among the tags of the registry.
pub mod Newest
use minecraft_operator.Version
use minecraft_operator.Prelude.{
  Result, length, ℕ, ok, err, Bool, true, false, ◌&&◌, List, [], ◌∷◌, Option, none, some,
  if◌then◌else◌, all, ltb, eqb,
}
use minecraft_operator.Version.SemanticVersion.{Semver}
use minecraft_operator.Prelude.Bytes.{Bytes}
use minecraft_operator.Version.{VersionError}
use minecraft_operator.Text.{atoi, cut_at, is_number, split_at}
use minecraft_operator.Prelude.Int.{pos, ltb_ℤ, ℤ}
use minecraft_operator.Clock.{same_time}

-- The expression for a version, three numbers with dots between them.
unfoldable pub is_release : Bytes → Bool
is_release s = eqb (length (split_at b'.' s)) 3 && all is_number (split_at b'.' s)

unfoldable pub with_build : Bytes → Option ℕ → Option (Bytes × ℕ)
with_build version none = none
with_build version (some build) = some (version, build)

unfoldable pub tag_parts : Option (Bytes × Bytes) → Option (Bytes × ℕ)
unfolding with_build
tag_parts none = none
tag_parts (some (version, build)) =
    if is_release version && is_number build then with_build version (atoi build) else none

-- A tag of the form version-build, as the expression ^(\d+\.\d+\.\d+)-(\d+)$ reads it.
unfoldable pub parse_tag : Bytes → Option (Bytes × ℕ)
unfolding tag_parts
parse_tag tag = tag_parts (cut_at b'-' tag)

module _ {V : Type 0} (sv : Semver V) where
  -- The candidate against the best so far, by what `Compare` says.
  unfoldable pub better_of : Result VersionError ℤ → Bytes × ℕ → Bytes × ℕ → Bytes × ℕ
  better_of (err e) candidate best = best
  better_of (ok cmp) (version, build) (best, best_build) =
      if ltb_ℤ (pos 0) cmp
      then (version, build)
      else if same_time cmp (pos 0) && ltb best_build build
      then (best, build)
      else (best, best_build)

  unfoldable pub improve_tag : Option (Bytes × ℕ) → Option (Bytes × ℕ) → Option (Bytes × ℕ)
  unfolding better_of
  improve_tag best none = best
  improve_tag none (some candidate) = some candidate
  improve_tag (some best) (some candidate) =
      some (better_of (Version.compare sv candidate.0 best.0) candidate best)

  unfoldable pub latest_from : Option (Bytes × ℕ) → List Bytes → Option (Bytes × ℕ)
  unfolding improve_tag
  latest_from best [] = best
  latest_from best (tag ∷ tags) = latest_from (improve_tag best (parse_tag tag)) tags

  unfoldable pub find_latest_version_from_tags : List Bytes → Option (Bytes × ℕ)
  unfolding latest_from
  find_latest_version_from_tags tags = latest_from none tags
