-- ===== src/Server/Image/RoundTrip.antt =====
-- The image that an update writes is read back by the server's reconciliation.
use minecraft_operator.Server.Image.{
  repository, after_repository, last_behind_slash, image_tag, is_dotted, tag_version,
  version_of_tag, detect_current_paper_version,
}
use minecraft_operator.Text.{is_digit_byte}
use minecraft_operator.Text.Numbers.{is_number-decimal, atoi-decimal, cut_at-append, all-decimal}
use minecraft_operator.Update.Flow.{new_image}
use minecraft_operator.Effects.{is_some}
use minecraft_operator.Version.{latest}
use minecraft_operator.Api.{PaperMcServer}
use minecraft_operator.Prelude.{
  ℕ, ◌<◌, Bool, true, false, not, ◌||◌, List, [], ◌∷◌, ◌++◌, Option, none, some, if◌then◌else◌, eqb,
  all, is_empty, ◌≡◌, refl, ap, ◌∙◌, arith, drop-length-append,
}
use minecraft_operator.Prelude.Bytes.{Bytes, bytes, ◌==◌, has_prefix, has_prefix_complete, decimal}

abbrev has_no_slash : Bytes → Bool
has_no_slash s = all (λ c. not (eqb c b'/')) s

after_repository-append :
    (s : Bytes) → is_empty s ≡ false → after_repository (repository ++ s) ≡ some s
unfolding after_repository
after_repository-append s h =
    rw (has_prefix_complete repository s, drop-length-append repository s, h) refl

last_behind_slash-append :
    (p s : Bytes) → has_no_slash p ≡ true → last_behind_slash (p ++ s) ≡ last_behind_slash s
unfolding last_behind_slash
last_behind_slash-append [] s h = refl
last_behind_slash-append (c ∷ p) s h =
    rw (last_behind_slash-append p s (ground arith), other (ground arith))
      (same (last_behind_slash s))
  where
    other : not (eqb c b'/') ≡ true → eqb c b'/' ≡ false
    other g = ground arith

    same : (o : Option Bytes) → (if is_some o then o else none) ≡ o
    same none = refl
    same (some x) = refl

last_behind_slash-none : (s : Bytes) → has_no_slash s ≡ true → last_behind_slash s ≡ none
unfolding last_behind_slash
last_behind_slash-none [] h = refl
last_behind_slash-none (c ∷ s) h =
    rw (last_behind_slash-none s (ground arith), other (ground arith)) refl
  where
    other : not (eqb c b'/') ≡ true → eqb c b'/' ≡ false
    other g = ground arith

-- Behind a slash with none behind it, the name stands there or nowhere.
last_behind_slash-slash :
    (s : Bytes) → last_behind_slash s ≡ none → last_behind_slash (b'/' ∷ s) ≡ after_repository s
unfolding last_behind_slash
last_behind_slash-slash s h = rw h refl

after_repository-other : (s : Bytes) → after_repository (bytes "papermc:" ++ s) ≡ none
unfolding after_repository has_prefix ◌==◌
after_repository-other s = ground arith

abbrev registry : Bytes
registry = bytes "docker.io/"

last_behind_slash-repository :
    (t : Bytes) → has_no_slash t ≡ true → last_behind_slash (repository ++ t) ≡ none
last_behind_slash-repository t h =
    last_behind_slash-append (bytes "lexfrei") (b'/' ∷ bytes "papermc:" ++ t) refl
    ∙ last_behind_slash-slash (bytes "papermc:" ++ t)
        (last_behind_slash-append (bytes "papermc:") t refl ∙ last_behind_slash-none t h)
    ∙ after_repository-other t

image_tag-append :
    (t : Bytes)
    → is_empty t ≡ false
    → has_no_slash t ≡ true
    → image_tag (registry ++ repository ++ t) ≡ some t
unfolding image_tag
image_tag-append t n h = rw found refl
  where
    found : last_behind_slash (registry ++ repository ++ t) ≡ some t
    found =
        last_behind_slash-append (bytes "docker.io") (b'/' ∷ repository ++ t) refl
        ∙ last_behind_slash-slash (repository ++ t) (last_behind_slash-repository t h)
        ∙ after_repository-append t n

-- Of a text of digits and dots.
all-weaken :
    (p q : ℕ → Bool)
    → ((c : ℕ) → p c ≡ true → q c ≡ true)
    → (s : Bytes) → all p s ≡ true
    → all q s ≡ true
all-weaken p q f [] h = refl
all-weaken p q f (c ∷ s) h = rw (f c (ground arith), all-weaken p q f s (ground arith)) refl

all_append : (p : ℕ → Bool) (s t : Bytes) → all p s ≡ true → all p t ≡ true → all p (s ++ t) ≡ true
all_append p [] t h k = k
all_append p (c ∷ s) t h k = ground (arith, all_append p s t (ground arith) k)

no_dash : (c : ℕ) → (is_digit_byte c || eqb c b'.') ≡ true → not (eqb c b'-') ≡ true
unfolding is_digit_byte
no_dash c h = ground arith

no_slash : (c : ℕ) → (is_digit_byte c || eqb c b'.') ≡ true → not (eqb c b'/') ≡ true
unfolding is_digit_byte
no_slash c h = ground arith

digit_no_slash : (c : ℕ) → is_digit_byte c ≡ true → not (eqb c b'/') ≡ true
unfolding is_digit_byte
digit_no_slash c h = ground arith

not_latest : (v : Bytes) (s : Bytes) → is_dotted v ≡ true → ((v ++ s) == latest) ≡ false
unfolding is_dotted is_digit_byte ◌==◌
not_latest [] s h = cc
not_latest (c ∷ v) s h = ground arith

version_of_tag-printed :
    (v : Bytes) (n : ℕ)
    → is_dotted v ≡ true
    → n < 9223372036854775808
    → version_of_tag (some (v ++ b'-' ∷ decimal n)) ≡ (v, n)
unfolding version_of_tag tag_version
version_of_tag-printed v n d h =
    rw
      (
        not_latest v (b'-' ∷ decimal n) d,
        cut_at-append b'-' v (decimal n) dashless,
        d,
        is_number-decimal n,
        atoi-decimal n h,
      )
      refl
  where
    dashless : all (λ c. not (eqb c b'-')) v ≡ true
    dashless = all-weaken _ _ no_dash v (unfold is_dotted in ground arith)

slashless : (v : Bytes) (n : ℕ) → is_dotted v ≡ true → has_no_slash (v ++ b'-' ∷ decimal n) ≡ true
unfolding is_dotted
slashless v n d =
    all_append (λ c. not (eqb c b'/')) v (b'-' ∷ decimal n)
      (all-weaken _ _ no_slash v (ground arith))
      (all-weaken _ _ digit_no_slash (decimal n) (all-decimal n))

some_tag : (v s : Bytes) → is_dotted v ≡ true → is_empty (v ++ s) ≡ false
unfolding is_dotted
some_tag [] s d = cc
some_tag (c ∷ v) s d = refl

dash_between : (v s : Bytes) → ((v ++ (b'-' ∷ [])) ++ s) ≡ (v ++ (b'-' ∷ s))
dash_between [] s = refl
dash_between (c ∷ v) s = ap (λ t. c ∷ t) (dash_between v s)

detect-first :
    (image : Bytes) (images : List Bytes) (tag : Option Bytes) (answer : Bytes × ℕ)
    → image_tag image ≡ tag
    → version_of_tag tag ≡ answer
    → detect_current_paper_version (some (image ∷ images)) ≡ answer
unfolding detect_current_paper_version
detect-first image images tag answer h k = ap version_of_tag h ∙ k

-- The image that an update sets is read back: of a version of digits and dots and a build that an int holds,
-- the two are detected again, whatever the other containers are.
pub detect_current_paper_version-new_image :
    (server : PaperMcServer) (images : List Bytes)
    → is_dotted server.status.desired_version ≡ true
    → server.status.desired_build < 9223372036854775808
    → detect_current_paper_version (some (new_image server ∷ images))
      ≡ (server.status.desired_version, server.status.desired_build)
detect_current_paper_version-new_image server images d b =
    let v = server.status.desired_version in
    let n = server.status.desired_build in
    detect-first (new_image server) images (some (v ++ b'-' ∷ decimal n)) (v, n)
      (ap (λ t. image_tag (registry ++ repository ++ t)) (dash_between v (decimal n))
        ∙ image_tag-append (v ++ b'-' ∷ decimal n) (some_tag v _ d) (slashless v n d))
      (version_of_tag-printed v n d b)
