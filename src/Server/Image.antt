-- ===== src/Server/Image.antt =====
-- detectCurrentPaperVersion: the version and build that the image of a server's first container names.
pub mod RoundTrip
use minecraft_operator.Prelude.{
  ℕ, eqb, Bool, true, false, not, ◌&&◌, ◌||◌, List, [], ◌∷◌, Option, none, some, if◌then◌else◌,
  is_empty, length, drop, all,
}
use minecraft_operator.Prelude.Bytes.{Bytes, bytes, ◌==◌, has_prefix}
use minecraft_operator.Effects.{is_some}
use minecraft_operator.Text.{is_digit_byte, is_number, atoi, cut_at}
use minecraft_operator.Version.{latest}

abbrev pub repository : Bytes
repository = bytes "lexfrei/papermc:"

-- What stands behind the repository's name, which must not be empty.
unfoldable pub after_repository : Bytes → Option Bytes
after_repository s =
    if has_prefix s repository && not (is_empty (drop (length repository) s))
    then some (drop (length repository) s)
    else none

-- The last place behind a slash, and the first place of all, that the name stands at.
unfoldable pub last_behind_slash : Bytes → Option Bytes
unfolding after_repository
last_behind_slash [] = none
last_behind_slash (c ∷ s) =
    let later = last_behind_slash s in
    if is_some later then later else if eqb c b'/' then after_repository s else none

first_place : Bytes → Option Bytes
unfolding after_repository
first_place [] = none
first_place (c ∷ s) =
    let later = first_place s in
    if is_some (after_repository (c ∷ s)) then after_repository (c ∷ s) else later

-- What the expression (?:.*/)?(lexfrei/papermc):(.+) finds as the tag of an image without line breaks: its
-- first part takes as much as it can.
unfoldable pub image_tag : Bytes → Option Bytes
unfolding last_behind_slash first_place
image_tag image =
    if is_some (last_behind_slash image) then last_behind_slash image else first_place image

-- The expression [0-9.]+.
unfoldable pub is_dotted : Bytes → Bool
is_dotted s = not (is_empty s) && all (λ c. is_digit_byte c || eqb c b'.') s

abbrev pub or_zero : Option ℕ → ℕ
or_zero none = 0
or_zero (some n) = n

unfoldable pub tag_version : Option (Bytes × Bytes) → Bytes × ℕ
tag_version none = ([], 0)
tag_version (some (version, build)) =
    if is_dotted version && is_number build then (version, or_zero (atoi build)) else ([], 0)

unfoldable pub version_of_tag : Option Bytes → Bytes × ℕ
unfolding tag_version
version_of_tag none = ([], 0)
version_of_tag (some tag) = if tag == latest then (latest, 0) else tag_version (cut_at b'-' tag)

-- `detectCurrentPaperVersion`, from the images of the StatefulSet's containers, `none` without a StatefulSet.
unfoldable pub detect_current_paper_version : Option (List Bytes) → Bytes × ℕ
unfolding version_of_tag image_tag
detect_current_paper_version none = ([], 0)
detect_current_paper_version (some []) = ([], 0)
detect_current_paper_version (some (image ∷ images)) = version_of_tag (image_tag image)
