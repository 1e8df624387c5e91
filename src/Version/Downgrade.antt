-- ===== src/Version/Downgrade.antt =====
-- compare.go: when a change of version counts as a downgrade.
use minecraft_operator.Version.SemanticVersion.{IsSemver, Semver}
use minecraft_operator.Version.{latest, compare, is_downgrade}
use minecraft_operator.Prelude.Bytes.{◌==◌, eq_iff, Bytes}
use minecraft_operator.Prelude.Int.{negsuc, pos, ltb_ℤ}
use minecraft_operator.Prelude.{
  none, refl, inl, inr, some, ◌∙◌, sym, ◌⊎◌, Bool-cases, arith, false, ◌↔◌, ◌≢◌, ok, true, Option,
  ◌≡◌,
}

module _ {V : Type 0} (sv : Semver V) (laws : IsSemver sv) where
  -- The current version is newer than the candidate: it is "latest" and the candidate is not, or
  -- neither is "latest", both are valid, and the current one is the greater.
  abbrev pub IsNewer : Bytes → Bytes → Type 0
  IsNewer current candidate =
      ((current ≡ latest) × (candidate ≢ latest))
      ⊎ ((a : V) × (b : V) × (current ≢ latest)
          × (candidate ≢ latest)
          × (sv.new_version current ≡ some a)
          × (sv.new_version candidate ≡ some b)
          × (sv.greater_than a b ≡ true))

  negative : (a b : V) → ltb_ℤ (sv.compare b a) (pos 0) ≡ true → sv.greater_than a b ≡ true
  negative a b h =
      ground (arith, laws.compare_range b a, laws.compare_swap a b, laws.greater_than_iff a b)

  positive : (a b : V) → sv.greater_than a b ≡ true → sv.compare b a ≡ negsuc 0
  positive a b h = ground (arith, laws.compare_swap a b, laws.greater_than_iff a b)

  not_latest : (v : Bytes) → (v == latest) ≡ false → v ≢ latest
  not_latest v h e = cc (sym h ∙ (eq_iff v latest).1 e)

  downgrade_of_parsed :
      (current candidate : Bytes) (o p : Option V)
      → sv.new_version candidate ≡ o
      → sv.new_version current ≡ p
      → (candidate == latest) ≡ false
      → (current == latest) ≡ false
      → is_downgrade sv current candidate ≡ ok true
      → IsNewer current candidate
  unfolding is_downgrade compare
  downgrade_of_parsed current candidate (some b) (some a) eb ea nb na h =
      inr
        (a, b, not_latest current na, not_latest candidate nb, ea, eb, negative a b (ground arith))
  downgrade_of_parsed current candidate none p eb ea nb na h = ground arith
  downgrade_of_parsed current candidate (some b) none eb ea nb na h = ground arith

  downgrade_to_latest :
      (current candidate : Bytes)
      → (candidate == latest) ≡ true
      → is_downgrade sv current candidate ≡ ok false
  unfolding is_downgrade compare
  downgrade_to_latest current candidate h = ground arith

  downgrade_sound :
      (current candidate : Bytes)
      → is_downgrade sv current candidate ≡ ok true
      → IsNewer current candidate
  downgrade_sound current candidate h = elim (Bool-cases (candidate == latest)) [
    | inl e ↦ cc (downgrade_to_latest current candidate e)
    | inr e ↦ elim (Bool-cases (current == latest)) [
      | inl f ↦ inl ((eq_iff _ _).0 f, not_latest candidate e)
      | inr f ↦ downgrade_of_parsed current candidate _ _ refl refl e f h
    ]
  ]

  downgrade_complete :
      (current candidate : Bytes)
      → IsNewer current candidate
      → is_downgrade sv current candidate ≡ ok true
  unfolding is_downgrade compare
  downgrade_complete current candidate (inl (e, n)) =
      ground (arith, eq_iff current latest, eq_iff candidate latest, eq_iff candidate current)
  downgrade_complete current candidate (inr (a, b, n, m, ea, eb, g)) =
      ground (arith, eq_iff current latest, eq_iff candidate latest, positive a b g)

  -- A change of version is reported as a downgrade exactly if the current version is the newer one:
  -- it is "latest" and the candidate is not, or both are valid versions and it is the greater.
  pub is_downgrade_iff :
      (current candidate : Bytes)
      → (is_downgrade sv current candidate ≡ ok true) ↔ IsNewer current candidate
  is_downgrade_iff current candidate =
      (downgrade_sound current candidate, downgrade_complete current candidate)

  not_greater : (a b : V) → sv.greater_than a b ≡ true → ltb_ℤ (sv.compare a b) (pos 0) ≡ false
  not_greater a b h = ground (arith, laws.greater_than_iff a b)

  upgrade_of_newer :
      (current candidate : Bytes)
      → IsNewer current candidate
      → is_downgrade sv candidate current ≡ ok false
  unfolding is_downgrade compare
  upgrade_of_newer current candidate (inl (e, n)) =
      ground (arith, eq_iff current latest, eq_iff candidate latest, eq_iff current candidate)
  upgrade_of_newer current candidate (inr (a, b, n, m, ea, eb, g)) =
      ground (arith, eq_iff current latest, eq_iff candidate latest, not_greater a b g)

  -- If one direction of a change is a downgrade, then the other is checked without an error and is
  -- none: a server that was moved up can never be blocked from the move it has just made.
  pub is_downgrade_asymm :
      (current candidate : Bytes)
      → is_downgrade sv current candidate ≡ ok true
      → is_downgrade sv candidate current ≡ ok false
  is_downgrade_asymm current candidate h =
      upgrade_of_newer current candidate (downgrade_sound current candidate h)
