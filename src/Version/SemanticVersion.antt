-- ===== src/Version/SemanticVersion.antt =====
-- What the source relies on of github.com/Masterminds/semver/v3: `NewVersion`, `Compare` and
-- `GreaterThan`, and that comparing is a weak order.
use mathlib.Core.Bool.{false≢true}
use minecraft_operator.Prelude.{
  ◌∙◌, sym, Bool-cases, inl, inr, none, some, refl, false, arith, ◌≡◌, ◌↔◌, ◌⊎◌, Bool, true, Option,
}
use minecraft_operator.Prelude.Bytes.{Bytes}
use minecraft_operator.Prelude.Int.{ℤ, pos, negsuc}

pub record Semver (V : Type 0) : Type 0 where
  pub new_version : Bytes → Option V
  pub compare : V → V → ℤ
  pub greater_than : V → V → Bool

-- The documented behaviour: `Compare` returns -1, 0 or 1, and 1 exactly if the other order gives -1;
-- `GreaterThan` says that `Compare` returns 1; a version greater than a second one is greater than
-- any third one, or the third is greater than the second.
pub record IsSemver {V : Type 0} (sv : Semver V) : Type 0 where
  pub compare_range :
      (a b : V) → (sv.compare a b ≡ negsuc 0) ⊎ (sv.compare a b ≡ pos 0) ⊎ (sv.compare a b ≡ pos 1)
  pub compare_swap : (a b : V) → (sv.compare a b ≡ pos 1) ↔ (sv.compare b a ≡ negsuc 0)
  pub greater_than_iff : (a b : V) → (sv.greater_than a b ≡ true) ↔ (sv.compare a b ≡ pos 1)
  pub greater_than_split :
      (a b c : V)
      → sv.greater_than a c ≡ true
      → (sv.greater_than a b ≡ true) ⊎ (sv.greater_than b c ≡ true)

-- Both texts are valid versions, and the first is greater than the second.
abbrev both_and_greater : {V : Type 0} → (V → V → Bool) → Option V → Option V → Bool
both_and_greater gt none b = false
both_and_greater gt (some v) none = false
both_and_greater gt (some v) (some w) = gt v w

abbrev is_some : {V : Type 0} → Option V → Bool
is_some none = false
is_some (some v) = true

module _ {V : Type 0} (sv : Semver V) where
  unfoldable pub newer : Bytes → Bytes → Bool
  newer a b = both_and_greater sv.greater_than (sv.new_version a) (sv.new_version b)

  unfoldable pub is_valid : Bytes → Bool
  is_valid a = is_some (sv.new_version a)

  pub newer-is_valid : (a b : Bytes) → newer a b ≡ true → (is_valid a ≡ true) × (is_valid b ≡ true)
  unfolding newer is_valid
  newer-is_valid a b h = ground arith

  module _ (laws : IsSemver sv) where
    greater_than_asymm : (v w : V) → sv.greater_than v w ≡ true → sv.greater_than w v ≡ false
    greater_than_asymm v w h =
        ground (arith, laws.greater_than_iff v w, laws.greater_than_iff w v, laws.compare_swap v w)

    pub newer_asymm : (a b : Bytes) → newer a b ≡ true → newer b a ≡ false
    unfolding newer
    newer_asymm a b h = go (sv.new_version a) (sv.new_version b) h
      where
        go :
            (o p : Option V)
            → both_and_greater sv.greater_than o p ≡ true
            → both_and_greater sv.greater_than p o ≡ false
        go (some v) (some w) e = greater_than_asymm v w e
        go (some v) none e = refl
        go none _ e = cc

    pub newer_irrefl : (a : Bytes) → newer a a ≡ false
    newer_irrefl a = elim (Bool-cases (newer a a)) [ inl e ↦ newer_asymm a a e | inr e ↦ e ]

    -- A valid version between two others is above the lower one or below the higher one.
    pub newer_split :
        (a b c : Bytes)
        → newer a c ≡ true
        → is_valid b ≡ true
        → (newer a b ≡ true) ⊎ (newer b c ≡ true)
    unfolding newer is_valid
    newer_split a b c h k = go (sv.new_version a) (sv.new_version b) (sv.new_version c) h k
      where
        go :
            (o p q : Option V)
            → both_and_greater sv.greater_than o q ≡ true
            → is_some p ≡ true
            → (both_and_greater sv.greater_than o p ≡ true)
              ⊎ (both_and_greater sv.greater_than p q ≡ true)
        go (some u) (some v) (some w) e f = laws.greater_than_split u v w e
        go none p q e f = cc
        go (some u) none q e f = cc
        go (some u) (some v) none e f = cc

    -- What is not newer than a version is not newer than a greater one either.
    pub not_newer_of_newer :
        (a b c : Bytes) → newer b c ≡ true → newer a c ≡ false → newer a b ≡ false
    not_newer_of_newer a b c h k = elim (Bool-cases (newer a b)) [
      | inr e ↦ e
      | inl e ↦ elim (newer_split a c b e (newer-is_valid b c h).1) [
        | inl f ↦ absurd (false≢true (sym k ∙ f))
        | inr f ↦ absurd (false≢true (sym (newer_asymm b c h) ∙ f))
      ]
    ]

    pub newer_trans : (a b c : Bytes) → newer a b ≡ true → newer b c ≡ true → newer a c ≡ true
    newer_trans a b c h k = elim (newer_split a c b h (newer-is_valid b c k).1) [
      | inl e ↦ e
      | inr e ↦ absurd (false≢true (sym (newer_asymm b c k) ∙ e))
    ]
