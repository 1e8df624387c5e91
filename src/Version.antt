-- ===== src/Version.antt =====
-- pkg/version: comparator.go, compare.go and match.go. The semantic versions themselves are those of
-- github.com/Masterminds/semver, a parameter.
pub mod SemanticVersion
pub mod Downgrade
pub mod Maximum
pub mod Pattern
use minecraft_operator.Prelude.{
  ℕ, ◌-◌, Bool, true, false, ◌&&◌, ◌||◌, List, [], ◌∷◌, Option, none, some, if◌then◌else◌, ltb,
  length, is_empty, take, drop, keep, any, Result, ok, err, ◌>>=◌, String,
}
use minecraft_operator.Prelude.Bytes.{Bytes, bytes, ◌==◌, has_prefix}
use minecraft_operator.Prelude.Int.{ℤ, pos, negsuc, ltb_ℤ, ◌-ℤ◌}
use minecraft_operator.Clock.{add_negated, Time, Duration, before, same_time}
use SemanticVersion.{Semver}

pub data VersionError : Type 0 where
  invalid_version invalid_first invalid_second : Bytes → VersionError
  no_valid_versions : VersionError

pub record VersionInfo : Type 0 where
  pub version : Bytes
  pub release_date : Time

-- `Latest`.
abbrev pub latest : Bytes
latest = bytes "latest"

-- One result of the parser, with the error that the caller wraps around a failure.
abbrev or_error : {V : Type 0} → Option V → VersionError → Result VersionError V
or_error none e = err e
or_error (some v) e = ok v

module _ {V : Type 0} (sv : Semver V) where
  pub parse_version : Bytes → Result VersionError V
  parse_version v = or_error (sv.new_version v) (invalid_version v)

  pub compare_versions : Bytes → Bytes → Result VersionError ℤ
  compare_versions v1 v2 = do
    ver1 ← or_error (sv.new_version v1) (invalid_first v1)
    ver2 ← or_error (sv.new_version v2) (invalid_second v2)
    ok (sv.compare ver1 ver2)

  -- `Compare`: the tag "latest" is newer than every other version.
  unfoldable pub compare : Bytes → Bytes → Result VersionError ℤ
  compare v1 v2 =
      let parsed : Result VersionError ℤ = do
        ver1 ← or_error (sv.new_version v1) (invalid_version v1)
        ver2 ← or_error (sv.new_version v2) (invalid_version v2)
        ok (sv.compare ver1 ver2)
      in if v1 == latest || v2 == latest
        then (if v1 == v2 then ok (pos 0) else if v1 == latest then ok (pos 1) else ok (negsuc 0))
        else parsed

  unfoldable pub is_downgrade : Bytes → Bytes → Result VersionError Bool
  is_downgrade current candidate = do cmp ← compare candidate current; ok (ltb_ℤ cmp (pos 0))

  -- One round of the loop of `FindMaxVersion`: `best` is `maxVer` with `maxStr`, `none` for nil.
  improve : Option (V × Bytes) → Bytes → Option (V × Bytes)
  improve best v = elim (sv.new_version v) [
    | none ↦ best
    | some ver ↦ elim best [
      | none ↦ some (ver, v)
      | some (max_ver, max_str) ↦
          if sv.greater_than ver max_ver then some (ver, v) else some (max_ver, max_str)
    ]
  ]

  find_max_from : Option (V × Bytes) → List Bytes → Option (V × Bytes)
  find_max_from best [] = best
  find_max_from best (v ∷ vs) = find_max_from (improve best v) vs

  max_or_error : Option (V × Bytes) → Result VersionError Bytes
  max_or_error none = err no_valid_versions
  max_or_error (some (ver, v)) = ok v

  unfoldable pub find_max_version : List Bytes → Result VersionError Bytes
  unfolding find_max_from max_or_error improve
  find_max_version versions =
      if is_empty versions then ok [] else max_or_error (find_max_from none versions)

-- The clock is read once, at `now`. A delay of zero keeps every version.
unfoldable pub filter_by_update_delay : Time → List VersionInfo → Duration → List VersionInfo
filter_by_update_delay now versions delay =
    if same_time delay (pos 0)
    then versions
    else (let cutoff = add_negated now delay in
        keep (λ v. before v.release_date cutoff || same_time v.release_date cutoff) versions)

unfoldable pub matches_version_pattern : Bytes → Bytes → Bool
matches_version_pattern pattern target =
    if ltb 2 (length pattern) && drop (length pattern - 2) pattern == bytes ".x"
    then has_prefix target (take (length pattern - 1) pattern)
    else false

unfoldable pub contains_version : List Bytes → Bytes → Bool
contains_version versions target =
    any (λ v. if v == target then true else matches_version_pattern v target) versions
