-- ===== src/Version/Pattern.antt =====
-- match.go: what a version pattern matches.
use minecraft_operator.Prelude.{
  ◌-◌, ◌≡◌, refl, sym, ap, ◌∙◌, ◌↔◌, ◌⊎◌, inl, inr, ◌≢◌, true, List, [], ◌∷◌, ◌++◌, arith, length,
  take, drop, Any, any→Any, Any→any, Any-map, take-append-drop, length-take, length-append,
  take-length-append, drop-length-append, if◌then◌else◌, Bool-cases, ltb, ltb→lt,
}
use minecraft_operator.Prelude.Bytes.{
  Bytes, bytes, ◌==◌, eq_iff, eq_refl, has_prefix, has_prefix_sound, has_prefix_complete,
}
use minecraft_operator.Version.{matches_version_pattern, contains_version}
use mathlib.Core.List.{append_assoc}

-- "base.x" with a base that is not empty, against "base." with anything behind it.
abbrev pub Matches : Bytes → Bytes → Type 0
Matches pattern target =
    (base : Bytes) × (rest : Bytes) × (base ≢ [])
    × (pattern ≡ base ++ bytes ".x")
    × (target ≡ (base ++ bytes ".") ++ rest)

take-drop_suffix :
    (p : Bytes) (s : Bytes)
    → drop (length p - length s) p ≡ s
    → take (length p - length s) p ++ s ≡ p
take-drop_suffix p s h =
    ap (λ (q : Bytes). take (length p - length s) p ++ q) (sym h)
    ∙ take-append-drop (length p - length s) p

base_dot :
    (base : Bytes) → take (length (base ++ bytes ".x") - 1) (base ++ bytes ".x") ≡ base ++ bytes "."
base_dot base =
    let e : length (base ++ bytes ".x") - 1 ≡ length (base ++ bytes ".") =
      omega (arith, length-append base (bytes ".x"), length-append base (bytes ".")) in
    rw e (
      ap (take (length (base ++ bytes "."))) (sym (append_assoc base (bytes ".") (bytes "x")))
      ∙ take-length-append (base ++ bytes ".") (bytes "x"))

base_x : (base : Bytes) → drop (length (base ++ bytes ".x") - 2) (base ++ bytes ".x") ≡ bytes ".x"
base_x base =
    let e : length (base ++ bytes ".x") - 2 ≡ length base =
      omega (arith, length-append base (bytes ".x")) in
    rw e (drop-length-append base (bytes ".x"))

suffix_split :
    (pattern target : Bytes)
    → matches_version_pattern pattern target ≡ true
    → (ltb 2 (length pattern) ≡ true)
      × ((drop (length pattern - 2) pattern == bytes ".x") ≡ true)
      × (has_prefix target (take (length pattern - 1) pattern) ≡ true)
unfolding matches_version_pattern
suffix_split pattern target h = ground arith

Matches-sound :
    (pattern target : Bytes)
    → matches_version_pattern pattern target ≡ true
    → Matches pattern target
Matches-sound pattern target h =
    let (longer, suffix, prefix) = suffix_split pattern target h in
    let base : Bytes = take (length pattern - 2) pattern in
    let whole : base ++ bytes ".x" ≡ pattern =
      take-drop_suffix pattern (bytes ".x") ((eq_iff _ _).0 suffix) in
    let cut : take (length pattern - 1) pattern ≡ base ++ bytes "." =
      ap (λ (q : Bytes). take (length q - 1) q) (sym whole) ∙ base_dot base in
    (
      base,
      drop (length (base ++ bytes ".")) target,
      (λ e. absurd (
          omega (arith, ltb→lt _ _ longer, length-take (length pattern - 2) pattern, ap length e))),
      sym whole,
      sym (has_prefix_sound target (base ++ bytes ".") (ap (has_prefix target) (sym cut) ∙ prefix)),
    )

matches_complete :
    (base rest : Bytes)
    → base ≢ []
    → matches_version_pattern (base ++ bytes ".x") ((base ++ bytes ".") ++ rest) ≡ true
unfolding matches_version_pattern
matches_complete [] rest h = absurd (h refl)
matches_complete (b ∷ base) rest h =
    rw
      (
        base_x (b ∷ base),
        base_dot (b ∷ base),
        has_prefix_complete (b ∷ base ++ bytes ".") rest,
        eq_refl (bytes ".x"),
      )
      (ground (arith, length-append base (bytes ".x")))

-- A pattern matches exactly the targets that `Matches` describes: only a pattern that ends in ".x"
-- behind a base that is not empty, and only targets that begin with the base and a dot.
pub matches_version_pattern_iff :
    (pattern target : Bytes)
    → (matches_version_pattern pattern target ≡ true) ↔ Matches pattern target
matches_version_pattern_iff pattern target = (
  Matches-sound pattern target,
  λ (base, rest, h, e, f). rw (e, f) (matches_complete base rest h),
)

-- A version is in a list exactly if the list holds it, or a pattern that matches it.
pub contains_version_iff :
    (versions : List Bytes) (target : Bytes)
    → (contains_version versions target ≡ true)
      ↔ Any (λ v. (v ≡ target) ⊎ Matches v target) versions
unfolding contains_version
contains_version_iff versions target = (
  λ h. Any-map (λ v e. one_sound v e) versions (any→Any _ versions h),
  λ h. Any→any _ versions (Any-map (λ v m. one_complete v m) versions h),
)
  where
    one_sound :
        (v : Bytes)
        → (if v == target then true else matches_version_pattern v target) ≡ true
        → (v ≡ target) ⊎ Matches v target
    one_sound v e = elim (Bool-cases (v == target)) [
      | inl same ↦ inl ((eq_iff v target).0 same)
      | inr other ↦ inr ((matches_version_pattern_iff v target).0 (rw other at e))
    ]

    one_complete :
        (v : Bytes)
        → (v ≡ target) ⊎ Matches v target
        → (if v == target then true else matches_version_pattern v target) ≡ true
    one_complete v (inl same) = rw ((eq_iff v target).1 same)
    one_complete v (inr m) = ground (arith, (matches_version_pattern_iff v target).1 m)
