-- ===== src/Version/Maximum.antt =====
-- comparator.go: the version that `FindMaxVersion` finds.
use minecraft_operator.Prelude.{
  is_empty, Any, ◌∷◌, ok, err, All, Bool-cases, List, ◌⊎◌, refl, true, inl, inr, [], ◌≡◌, Option,
  none, some, false, arith,
}
use minecraft_operator.Version.SemanticVersion.{
  newer_irrefl, not_newer_of_newer, newer, is_valid, IsSemver, Semver,
}
use minecraft_operator.Prelude.Bytes.{Bytes}
use minecraft_operator.Version.{
  no_valid_versions, find_max_version, max_or_error, find_max_from, improve,
}

module _ {V : Type 0} (sv : Semver V) (laws : IsSemver sv) where
  -- The running maximum is a text with its own parsed version.
  abbrev Tracks : Option (V × Bytes) → Type 0
  Tracks none = Unit
  Tracks (some (m, s)) = sv.new_version s ≡ some m

  -- `v` is not above the running maximum, and is no version as long as there is none.
  abbrev IsBelow : Bytes → Option (V × Bytes) → Type 0
  IsBelow v none = is_valid sv v ≡ false
  IsBelow v (some (m, s)) = newer sv v s ≡ false

  improve-Tracks :
      (best : Option (V × Bytes)) (w : Bytes) → Tracks best → Tracks (improve sv best w)
  unfolding improve
  improve-Tracks none w h = ground arith
  improve-Tracks (some (m, s)) w h = ground arith

  -- One round keeps the maximum, or replaces it by a version that is newer.
  improve_cases :
      (m : V) (s w : Bytes)
      → sv.new_version s ≡ some m
      → ((improve sv (some (m, s)) w ≡ some (m, s)) × (newer sv w s ≡ false))
        ⊎ ((ver : V) × (improve sv (some (m, s)) w ≡ some (ver, w)) × (newer sv w s ≡ true))
  unfolding improve newer
  improve_cases m s w h = go (sv.new_version w) refl
    where
      go :
          (o : Option V)
          → sv.new_version w ≡ o
          → ((improve sv (some (m, s)) w ≡ some (m, s)) × (newer sv w s ≡ false))
            ⊎ ((ver : V) × (improve sv (some (m, s)) w ≡ some (ver, w)) × (newer sv w s ≡ true))
      go none e = inl (ground arith, ground arith)
      go (some ver) e = elim (Bool-cases (sv.greater_than ver m)) [
        | inl g ↦ inr (ver, ground arith, ground arith)
        | inr g ↦ inl (ground arith, ground arith)
      ]

  improve-IsBelow :
      (best : Option (V × Bytes)) (w v : Bytes)
      → Tracks best
      → IsBelow v best
      → IsBelow v (improve sv best w)
  improve-IsBelow none w v h k = unfold improve newer is_valid in ground arith
  improve-IsBelow (some (m, s)) w v h k = elim (improve_cases m s w h) [
    | inl (e, n) ↦ rw e k
    | inr (ver, e, n) ↦ rw e (not_newer_of_newer sv laws v w s n k)
  ]

  improve_first : (w : Bytes) (o : Option V) → sv.new_version w ≡ o → IsBelow w (improve sv none w)
  unfolding improve newer is_valid
  improve_first w none e = ground arith
  improve_first w (some ver) e = unfold improve in rw (e, improve) (newer_irrefl sv laws w)

  improve-IsBelow_self :
      (best : Option (V × Bytes)) (w : Bytes) → Tracks best → IsBelow w (improve sv best w)
  improve-IsBelow_self none w h = improve_first w (sv.new_version w) refl
  improve-IsBelow_self (some (m, s)) w h = elim (improve_cases m s w h) [
    | inl (e, n) ↦ rw e n
    | inr (ver, e, n) ↦ rw e (newer_irrefl sv laws w)
  ]

  -- What is below the running maximum stays below it.
  stays-IsBelow :
      (best : Option (V × Bytes)) (vs : List Bytes) (v : Bytes)
      → Tracks best
      → IsBelow v best
      → IsBelow v (find_max_from sv best vs)
  unfolding find_max_from
  stays-IsBelow best [] v h k = k
  stays-IsBelow best (w ∷ vs) v h k =
      stays-IsBelow (improve sv best w) vs v (improve-Tracks best w h)
        (improve-IsBelow best w v h k)

  fold-Tracks :
      (best : Option (V × Bytes)) (vs : List Bytes)
      → Tracks best
      → Tracks (find_max_from sv best vs)
  unfolding find_max_from
  fold-Tracks best [] h = h
  fold-Tracks best (w ∷ vs) h = fold-Tracks (improve sv best w) vs (improve-Tracks best w h)

  find_max_from-IsBelow :
      (best : Option (V × Bytes)) (vs : List Bytes)
      → Tracks best
      → All (λ v. IsBelow v (find_max_from sv best vs)) vs
  unfolding find_max_from
  find_max_from-IsBelow best [] h = tt
  find_max_from-IsBelow best (w ∷ vs) h = (
    stays-IsBelow (improve sv best w) vs w (improve-Tracks best w h)
        (improve-IsBelow_self best w h),
    find_max_from-IsBelow (improve sv best w) vs (improve-Tracks best w h),
  )

  improve_source :
      (best : Option (V × Bytes)) (w : Bytes) {m : V} {s : Bytes}
      → improve sv best w ≡ some (m, s)
      → (best ≡ some (m, s)) ⊎ (w ≡ s)
  unfolding improve
  improve_source none w h = ground arith
  improve_source (some (n, t)) w h = ground arith

  -- The running maximum is the one given, or stands in the list.
  comes_from :
      (best : Option (V × Bytes)) (vs : List Bytes) {m : V} {s : Bytes}
      → find_max_from sv best vs ≡ some (m, s)
      → (best ≡ some (m, s)) ⊎ Any (λ v. v ≡ s) vs
  unfolding find_max_from
  comes_from best [] h = inl h
  comes_from best (w ∷ vs) {m} {s} h = elim (comes_from (improve sv best w) vs h) [
    | inr later ↦ inr (inr later)
    | inl here ↦ elim (improve_source best w here) [ inl old ↦ inl old | inr new ↦ inr (inl new) ]
  ]

  max_or_error_cases :
      (versions : List Bytes) (best : Option (V × Bytes))
      → find_max_from sv none versions ≡ best
      → Tracks best
      → All (λ v. IsBelow v best) versions
      → ((s : Bytes) × (max_or_error sv best ≡ ok s)
          × (is_valid sv s ≡ true)
          × Any (λ v. v ≡ s) versions
          × All (λ v. newer sv v s ≡ false) versions)
        ⊎ ((max_or_error sv best ≡ err no_valid_versions)
            × All (λ v. is_valid sv v ≡ false) versions)
  unfolding max_or_error
  max_or_error_cases versions none e t h = inr (refl, h)
  max_or_error_cases versions (some (m, s)) e t h = elim (comes_from none versions e) [
    | inl impossible ↦ cc
    | inr found ↦ inl (s, refl, unfold is_valid in rw t, found, h)
  ]

  -- Of a list that is not empty `FindMaxVersion` returns a valid version of the list above which
  -- there is none in it, or, exactly when no version of the list is valid, an error.
  pub find_max_version_cases :
      (versions : List Bytes)
      → is_empty versions ≡ false
      → ((s : Bytes) × (find_max_version sv versions ≡ ok s)
          × (is_valid sv s ≡ true)
          × Any (λ v. v ≡ s) versions
          × All (λ v. newer sv v s ≡ false) versions)
        ⊎ ((find_max_version sv versions ≡ err no_valid_versions)
            × All (λ v. is_valid sv v ≡ false) versions)
  unfolding find_max_version
  find_max_version_cases versions h = rw h (
      max_or_error_cases versions (find_max_from sv none versions) refl
        (fold-Tracks none versions tt) (find_max_from-IsBelow none versions tt))
