-- ===== src/Examples/Versions.antt =====
-- Versions of one digit compared, searched and matched.
use minecraft_operator.Prelude.{All, ◌⊎◌, Any, ◌↔◌, ◌∷◌, List, [], ◌≡◌, refl, ok, err, true, false}
use minecraft_operator.Version.{
  no_valid_versions, compare, contains_version, matches_version_pattern, is_downgrade,
  find_max_version,
}
use minecraft_operator.Prelude.Bytes.{bytes, ◌==◌, Bytes}
use minecraft_operator.Examples.{digits-IsSemver, digits}
use minecraft_operator.Version.SemanticVersion.{newer, is_valid}
use minecraft_operator.Version.Downgrade.{is_downgrade_iff, IsNewer, is_downgrade_asymm}
use minecraft_operator.Version.Pattern.{contains_version_iff, matches_version_pattern_iff, Matches}
use minecraft_operator.Version.Maximum.{find_max_version_cases}

is_downgrade_iff_example :
    (is_downgrade digits (bytes "3") (bytes "2") ≡ ok true)
    ↔ IsNewer digits digits-IsSemver (bytes "3") (bytes "2")
is_downgrade_iff_example = is_downgrade_iff digits digits-IsSemver (bytes "3") (bytes "2")

-- Moving from 3 to 2 is a downgrade.
three_down_to_two : is_downgrade digits (bytes "3") (bytes "2") ≡ ok true
unfolding is_downgrade compare ◌==◌
three_down_to_two = refl

is_downgrade_asymm_example : is_downgrade digits (bytes "2") (bytes "3") ≡ ok false
is_downgrade_asymm_example =
    is_downgrade_asymm digits digits-IsSemver (bytes "3") (bytes "2") three_down_to_two

abbrev offered : List Bytes
offered = bytes "2" ∷ bytes "?" ∷ bytes "5" ∷ []

find_max_version_cases_example :
    ((s : Bytes) × (find_max_version digits offered ≡ ok s)
      × (is_valid digits s ≡ true)
      × Any (λ v. v ≡ s) offered
      × All (λ v. newer digits v s ≡ false) offered)
    ⊎ ((find_max_version digits offered ≡ err no_valid_versions)
        × All (λ v. is_valid digits v ≡ false) offered)
find_max_version_cases_example = find_max_version_cases digits digits-IsSemver offered refl

matches_version_pattern_iff_example :
    (matches_version_pattern (bytes "1.2.x") (bytes "1.2.9") ≡ true)
    ↔ Matches (bytes "1.2.x") (bytes "1.2.9")
matches_version_pattern_iff_example = matches_version_pattern_iff (bytes "1.2.x") (bytes "1.2.9")

contains_version_iff_example :
    (contains_version (bytes "1.1" ∷ bytes "1.2.x" ∷ []) (bytes "1.2.9") ≡ true)
    ↔ Any (λ v. (v ≡ bytes "1.2.9") ⊎ Matches v (bytes "1.2.9")) (bytes "1.1" ∷ bytes "1.2.x" ∷ [])
contains_version_iff_example =
    contains_version_iff (bytes "1.1" ∷ bytes "1.2.x" ∷ []) (bytes "1.2.9")
